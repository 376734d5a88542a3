-- ===== src/App/Joined.antt =====
-- What a search does to the connections of the client: nothing.
use hax_war.Base.{◌≡◌, refl, Option, none, some, [], ◌∷◌, if_ind, Text}
use hax_war.Client.{Client}
use hax_war.Client.Matchmaking.{
  StreamEvent, update, error, Promise, handle_stream, is_matched, matched,
}
use hax_war.Matchmaking.Updates.{MatchFoundResult}
use hax_war.Ui.{Ui}
use hax_war.Ui.Panels.{start_matchmaking}

-- The sockets and the reconnects of a client.
pub record IsJoined (c d : Client) : Type 0 where
  pub sockets : d.sockets ≡ c.sockets
  pub timeouts : d.timeouts ≡ c.timeouts
  pub handle : d.reconnect_timeout ≡ c.reconnect_timeout
  pub flag : d.is_closed_intentionally ≡ c.is_closed_intentionally

pub IsJoined-itself : {c : Client} → IsJoined c c
IsJoined-itself = record { sockets = refl; timeouts = refl; handle = refl; flag = refl }

pub start_matchmaking-IsJoined :
    (name random : Text) (ui : Ui) → IsJoined ui.client (start_matchmaking name random ui).0.client
unfolding start_matchmaking
start_matchmaking-IsJoined [] random ui = IsJoined-itself
start_matchmaking-IsJoined (c ∷ name) random ui = record {
  sockets = refl;
  timeouts = refl;
  handle = refl;
  flag = refl;
}

matched-IsJoined :
    (c : Client) (p : Promise) (r : Option MatchFoundResult) → IsJoined c (matched (c, p) r).0
matched-IsJoined c p none = IsJoined-itself
matched-IsJoined c p (some r) = record {
  sockets = refl;
  timeouts = refl;
  handle = refl;
  flag = refl;
}

pub handle_stream-IsJoined :
    (c : Client) (p : Promise) (e : StreamEvent) → IsJoined c (handle_stream (c, p) e).0
unfolding handle_stream
handle_stream-IsJoined c p (update u) =
    if_ind (λ (s : Client × Promise). IsJoined c s.0) (is_matched u)
      (matched-IsJoined c p u.match_result) (IsJoined-itself)
handle_stream-IsJoined c p (error e) = IsJoined-itself
