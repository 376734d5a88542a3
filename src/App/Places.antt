-- ===== src/App/Places.antt =====
-- What a page knows of the place that it connects to.
use hax_war.Base.{
  ℕ, ◌<◌, ◌≤◌, ◌≡◌, refl, ap, ◌∙◌, Option, none, some, [], ◌∷◌, get_elem?, sum_by, sum_by-set,
  sum_by-append, if_ind, Text, arith, ◌⊎◌, inl, inr,
}
use hax_war.Protocol.{Side, side_of}
use hax_war.Client.{Client, connect, new_client}
use hax_war.Matchmaking.Queue.{JoinQueueRequest}
use hax_war.Matchmaking.Updates.{MatchFoundResult}
use hax_war.Client.Matchmaking.{
  StreamEvent, update, error, Promise, pending, resolved, rejected, handle_stream, is_matched,
  matched,
}
use hax_war.Ui.{Ui, new_ui}
use hax_war.Ui.Panels.{start_matchmaking, continue_match, enter_game}
use hax_war.Page
use hax_war.Page.{
  Page, new_page, session, node_clicked, unit_clicked, move_clicked, decided, ticked, session_step,
}
use hax_war.Page.Refines.{step-client, client_after}
use hax_war.App.{
  Search, importing, waiting, continued, App, Html, new_app, Event, typed, find_clicked, imported,
  import_failed, streamed, continues, message_cleared, plays, reloads, asked, click_find,
  finish_import, take_stream, continue_search, clear_message, step, Enabled, IsPlayable, Reach,
  reach_ind,
}
use hax_war.App.Form.{trim_name}
use hax_war.Client.Session.Place.{
  HasPlaceOf, HasPlaceOf-itself, clear_reconnect-HasPlaceOf, session-HasPlaceOf,
}

-- Whether a search has found a match.
abbrev pub found : Search → ℕ
found (waiting (resolved m)) = 1
found (continued (resolved m)) = 1
found _ = 0

-- The client belongs to the page of this host, and once a match is found it knows its side.
pub record IsPlaced (html : Html) (a : App) : Type 0 where
  pub host : a.page.ui.client.host ≡ html.host
  pub side : 0 < sum_by found a.searches → (s : Side) × (a.page.ui.client.player_side ≡ some s)

placed :
    (html : Html) (a b : App)
    → HasPlaceOf a.page.ui.client b.page.ui.client
    → sum_by found b.searches ≤ sum_by found a.searches
    → IsPlaced html a
    → IsPlaced html b
placed html a b p le v = record {
  host = p.host ∙ v.host;
  side = λ lt. let (s, e) = v.side (omega (arith, lt, le)) in (s, p.side ∙ e);
}

-- A handler of the stream leaves the host; and it sets the side, or it leaves the side and finds
-- nothing.
abbrev StreamPlaces : Client → Promise → Client × Promise → Type 0
StreamPlaces c p (d, q) =
    (d.host ≡ c.host)
    × (((s : Side) × (d.player_side ≡ some s))
        ⊎ ((d.player_side ≡ c.player_side) × (found (waiting q) ≤ found (waiting p))))

matched-StreamPlaces :
    (c : Client) (p : Promise) (r : Option MatchFoundResult) → StreamPlaces c p (matched (c, p) r)
matched-StreamPlaces c p none = (refl, inr (refl, omega arith))
matched-StreamPlaces c p (some r) = (refl, inl (side_of r.player_side, refl))

handle_stream-StreamPlaces :
    (c : Client) (p : Promise) (e : StreamEvent) → StreamPlaces c p (handle_stream (c, p) e)
unfolding handle_stream
handle_stream-StreamPlaces c p (update u) =
    if_ind (StreamPlaces c p) (is_matched u) (matched-StreamPlaces c p u.match_result)
      (refl, inr (refl, omega arith))
handle_stream-StreamPlaces c pending (error e) = (refl, inr (refl, omega arith))
handle_stream-StreamPlaces c (resolved m) (error e) = (refl, inr (refl, omega arith))
handle_stream-StreamPlaces c (rejected e') (error e) = (refl, inr (refl, omega arith))

-- A handler's client, with searches of which no more are found than it finds.
streamed-IsPlaced :
    (html : Html) (a b : App) (p : Promise) (r : Client × Promise)
    → StreamPlaces a.page.ui.client p r
    → b.page.ui.client ≡ r.0
    → (found (waiting r.1) ≤ found (waiting p) → sum_by found b.searches ≤ sum_by found a.searches)
    → IsPlaced html a
    → IsPlaced html b
streamed-IsPlaced html a b p (d, q) (host, inl (s, e)) same le v = record {
  host = ap (λ (c : Client). c.host) same ∙ host ∙ v.host;
  side = λ lt. (s, ap (λ (c : Client). c.player_side) same ∙ e);
}
streamed-IsPlaced html a b p (d, q) (host, inr (side, fewer)) same le v =
    placed html a b
      (record {
        host = ap (λ (c : Client). c.host) same ∙ host;
        side = ap (λ (c : Client). c.player_side) same ∙ side;
      })
      (le fewer) v

take_stream-IsPlaced :
    (html : Html) (i : ℕ) (e : StreamEvent) (o : Option Search) (a : App)
    → get_elem? a.searches i ≡ o
    → IsPlaced html a
    → IsPlaced html (take_stream i e o a)
unfolding take_stream
take_stream-IsPlaced html i e none a h v = v
take_stream-IsPlaced html i e (some importing) a h v = v
take_stream-IsPlaced html i e (some (waiting p)) a h v =
    let r = handle_stream (a.page.ui.client, p) e in
    streamed-IsPlaced html a _ p r (handle_stream-StreamPlaces a.page.ui.client p e) refl
      (λ fewer. omega (arith, sum_by-set found a.searches i (waiting r.1) h, fewer)) v
take_stream-IsPlaced html i e (some (continued p)) a h v =
    streamed-IsPlaced html a _ p (handle_stream (a.page.ui.client, p) e)
      (handle_stream-StreamPlaces a.page.ui.client p e) refl (λ fewer. omega arith) v

start_matchmaking-HasPlaceOf :
    (name random : Text) (ui : Ui)
    → HasPlaceOf ui.client (start_matchmaking name random ui).0.client
unfolding start_matchmaking
start_matchmaking-HasPlaceOf [] random ui = HasPlaceOf-itself
start_matchmaking-HasPlaceOf (c ∷ name) random ui = record { host = refl; side = refl }

asked-IsPlaced :
    (html : Html) (a : App) (r : Ui × Option JoinQueueRequest)
    → HasPlaceOf a.page.ui.client r.0.client
    → IsPlaced html a
    → IsPlaced html (asked a r)
asked-IsPlaced html a (ui, none) p v = placed html a _ p (omega arith) v
asked-IsPlaced html a (ui, some q) p v =
    placed html a _ p (omega (arith, sum_by-append found a.searches (importing ∷ []))) v

continue-IsPlaced :
    (html : Html) (i : ℕ) (o : Option Search) (a : App)
    → get_elem? a.searches i ≡ o
    → IsPlaced html a
    → IsPlaced html (continue_search i o a).0
unfolding continue_search continue_match enter_game connect
continue-IsPlaced html i none a h v = v
continue-IsPlaced html i (some importing) a h v = v
continue-IsPlaced html i (some (continued p)) a h v = v
continue-IsPlaced html i (some (waiting (resolved m))) a h v =
    let p = clear_reconnect-HasPlaceOf a.page.ui.client in
    placed html a _ (record { host = p.host; side = p.side })
      (omega (arith, sum_by-set found a.searches i (continued (resolved m)) h)) v
continue-IsPlaced html i (some (waiting pending)) a h v =
    placed html a _ HasPlaceOf-itself
      (omega (arith, sum_by-set found a.searches i (continued pending) h)) v
continue-IsPlaced html i (some (waiting (rejected e))) a h v =
    placed html a _ HasPlaceOf-itself
      (omega (arith, sum_by-set found a.searches i (continued (rejected e)) h)) v

play-HasPlaceOf :
    (p : Page) (e : Page.Event)
    → IsPlayable p e
    → HasPlaceOf p.ui.client (client_after p.ui.client e)
play-HasPlaceOf p (session m e) (h, k) = session-HasPlaceOf p.ui.client e k
play-HasPlaceOf p (node_clicked clock id) h = HasPlaceOf-itself
play-HasPlaceOf p (unit_clicked clock i) h = HasPlaceOf-itself
play-HasPlaceOf p (move_clicked clock) h = HasPlaceOf-itself
play-HasPlaceOf p (decided d) h = HasPlaceOf-itself
play-HasPlaceOf p (ticked t) h = HasPlaceOf-itself

new_app-IsPlaced : (html : Html) → IsPlaced html (new_app html)
unfolding new_app new_ui new_client
new_app-IsPlaced html = record { host = refl; side = λ lt. absurd (omega arith) }

step_app-IsPlaced :
    (html : Html) (a : App) (e : Event)
    → IsPlaced html a
    → Enabled a e
    → IsPlaced html (step html a e).0
unfolding step click_find finish_import clear_message
step_app-IsPlaced html a (typed name) v h = placed html a _ HasPlaceOf-itself (omega arith) v
step_app-IsPlaced html a (find_clicked random) v h =
    if_ind (IsPlaced html) a.find_disabled v
      (asked-IsPlaced html a _ (start_matchmaking-HasPlaceOf (trim_name a.name) random a.page.ui) v)
step_app-IsPlaced html a (imported i) v h =
    placed html a _ HasPlaceOf-itself
      (omega (arith, sum_by-set found a.searches i (waiting pending) h)) v
step_app-IsPlaced html a (import_failed i e) v h =
    placed html a _ HasPlaceOf-itself
      (omega (arith, sum_by-set found a.searches i (waiting (rejected e)) h)) v
step_app-IsPlaced html a (streamed i e) v h =
    take_stream-IsPlaced html i e (get_elem? a.searches i) a refl v
step_app-IsPlaced html a (continues i) v h =
    continue-IsPlaced html i (get_elem? a.searches i) a refl v
step_app-IsPlaced html a message_cleared v h = placed html a _ HasPlaceOf-itself (omega arith) v
step_app-IsPlaced html a (plays e) v h =
    let p = play-HasPlaceOf a.page e h in
    let same = step-client a.page e in
    placed html a _
      (record {
        host = ap (λ (c : Client). c.host) same ∙ p.host;
        side = ap (λ (c : Client). c.player_side) same ∙ p.side;
      })
      (omega arith) v
step_app-IsPlaced html a reloads v h = new_app-IsPlaced html

pub Reach-IsPlaced : (html : Html) {a : App} → Reach html a → IsPlaced html a
Reach-IsPlaced html r =
    reach_ind html (IsPlaced html) (new_app-IsPlaced html) (step_app-IsPlaced html) r
