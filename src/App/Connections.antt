-- ===== src/App/Connections.antt =====
-- The connections of a page: each match that is entered opens one, and nothing else does.
use hax_war.Base.{
  ℕ, ◌≤◌, ◌≡◌, refl, Option, none, some, [], ◌∷◌, get_elem?, sum_by, sum_by-set, sum_by-append,
  if_ind, arith,
}
use hax_war.Client.{Client, new_client}
use hax_war.Client.Session
use hax_war.Client.Session.{live}
use hax_war.Client.Session.Single.{ConnectsIdle}
use hax_war.Client.Session.Link.{Link, idle, IsAt, IsAt-same}
use hax_war.Client.Session.Machine.{step-MovesOn, connected-MovesOn}
use hax_war.Client.Session.Count.{connections, step-connections, connect-connections}
use hax_war.Client.Matchmaking.{
  StreamEvent, pending, resolved, rejected, MatchResult, handle_stream,
}
use hax_war.Matchmaking.Queue.{JoinQueueRequest}
use hax_war.Ui.{Ui, new_ui}
use hax_war.Ui.Panels.{continue_match, enter_game}
use hax_war.Page
use hax_war.Page.{
  Page, new_page, session, node_clicked, unit_clicked, move_clicked, decided, ticked,
}
use hax_war.Page.Refines.{step-client, client_after}
use hax_war.App.{
  Search, importing, waiting, continued, App, Html, new_app, Event, typed, find_clicked, imported,
  import_failed, streamed, continues, message_cleared, plays, reloads, asked, click_find,
  finish_import, take_stream, continue_search, clear_message, step, Enabled, IsPlayable, Reach,
  reach_ind,
}
use hax_war.App.Form.{trim_name}
use hax_war.App.Joined.{
  IsJoined, IsJoined-itself, start_matchmaking-IsJoined, handle_stream-IsJoined,
}

-- Whether a search has brought the page into a game.
abbrev pub entered : Search → ℕ
entered (continued (resolved m)) = 1
entered _ = 0

-- How many games the page has entered.
abbrev pub games : App → ℕ
games a = sum_by entered a.searches

-- The client is at a connection of the state machine.
abbrev pub IsLinked : Client → Type 0
IsLinked c = (l : Link) × IsAt l c

pub record IsBounded (a : App) : Type 0 where
  pub bound : connections a.page.ui.client ≤ games a
  pub linked : games a ≤ 1 → IsLinked a.page.ui.client

joined-IsLinked : (c d : Client) → IsJoined c d → IsLinked c → IsLinked d
joined-IsLinked c d j (l, v) = (l, IsAt-same l c d j.sockets j.timeouts j.handle j.flag v)

-- A step that leaves the connections alone and the games.
joined-IsBounded :
    (a b : App)
    → IsJoined a.page.ui.client b.page.ui.client
    → games b ≡ games a
    → IsBounded a
    → IsBounded b
joined-IsBounded a b j same v = record {
  bound = rw (j.sockets, j.timeouts, same) v.bound;
  linked = λ one.
      joined-IsLinked a.page.ui.client b.page.ui.client j (v.linked (omega (arith, same, one)));
}

asked-IsBounded :
    (a : App) (r : Ui × Option JoinQueueRequest)
    → IsJoined a.page.ui.client r.0.client
    → IsBounded a
    → IsBounded (asked a r)
asked-IsBounded a (ui, none) joined v = joined-IsBounded a _ joined refl v
asked-IsBounded a (ui, some q) joined v =
    joined-IsBounded a _ joined (omega (arith, sum_by-append entered a.searches (importing ∷ []))) v

stream-IsBounded :
    (i : ℕ) (e : StreamEvent) (o : Option Search) (a : App)
    → get_elem? a.searches i ≡ o
    → IsBounded a
    → IsBounded (take_stream i e o a)
unfolding take_stream
stream-IsBounded i e none a h v = v
stream-IsBounded i e (some importing) a h v = v
stream-IsBounded i e (some (waiting p)) a h v =
    joined-IsBounded a _ (handle_stream-IsJoined a.page.ui.client p e)
      (omega (
        arith,
        sum_by-set entered a.searches i (waiting (handle_stream (a.page.ui.client, p) e).1) h,
      ))
      v
stream-IsBounded i e (some (continued p)) a h v =
    joined-IsBounded a _ (handle_stream-IsJoined a.page.ui.client p e) refl v

-- `connect` in a page that enters a game.
enter-IsBounded :
    (i : ℕ) (m : MatchResult) (a : App)
    → get_elem? a.searches i ≡ some (waiting (resolved m))
    → IsBounded a
    → IsBounded (continue_search i (some (waiting (resolved m))) a).0
unfolding continue_search continue_match enter_game
enter-IsBounded i m a h v =
    let more = sum_by-set entered a.searches i (continued (resolved m)) h in
    record {
      bound = omega (arith, more, connect-connections a.page.ui.client, v.bound);
      linked = λ one.
          let (l, at) = v.linked (omega (arith, more, one)) in
          let (k, move, at') =
            connected-MovesOn l a.page.ui.client at (omega (arith, more, one, v.bound)) in
          (k, at');
    }

continue-IsBounded :
    (i : ℕ) (o : Option Search) (a : App)
    → get_elem? a.searches i ≡ o
    → IsBounded a
    → IsBounded (continue_search i o a).0
unfolding continue_search continue_match
continue-IsBounded i none a h v = v
continue-IsBounded i (some importing) a h v = v
continue-IsBounded i (some (continued p)) a h v = v
continue-IsBounded i (some (waiting (resolved m))) a h v = enter-IsBounded i m a h v
continue-IsBounded i (some (waiting pending)) a h v =
    joined-IsBounded a _ (IsJoined-itself)
      (omega (arith, sum_by-set entered a.searches i (continued pending) h)) v
continue-IsBounded i (some (waiting (rejected e))) a h v =
    joined-IsBounded a _ (IsJoined-itself)
      (omega (arith, sum_by-set entered a.searches i (continued (rejected e)) h)) v

new_app-IsBounded : (html : Html) → IsBounded (new_app html)
unfolding new_app new_ui new_client
new_app-IsBounded html = record {
  bound = omega arith;
  linked = λ one. (idle, record { all_closed = tt; no_timeout = refl });
}

browser-ConnectsIdle : (c : Client) (e : Session.Event) → Session.IsFromBrowser e → ConnectsIdle c e
browser-ConnectsIdle c Session.connects k = absurd k
browser-ConnectsIdle c _ k = tt

-- The client in an event of the game.
play-IsBounded :
    (p : Page) (e : Page.Event) (n : ℕ)
    → IsPlayable p e
    → connections p.ui.client ≤ n
    → (n ≤ 1 → IsLinked p.ui.client)
    → (connections (client_after p.ui.client e) ≤ n)
      × (n ≤ 1 → IsLinked (client_after p.ui.client e))
play-IsBounded p (session m e) n (h, k) le v = (
  omega (arith, step-connections p.ui.client e h k, le),
  λ one.
      let (l, at) = v one in
      let (k', move, at') =
        step-MovesOn l p.ui.client e at h (browser-ConnectsIdle p.ui.client e k) in
      (k', at'),
)
play-IsBounded p (node_clicked clock id) n h le v = (le, v)
play-IsBounded p (unit_clicked clock i) n h le v = (le, v)
play-IsBounded p (move_clicked clock) n h le v = (le, v)
play-IsBounded p (decided d) n h le v = (le, v)
play-IsBounded p (ticked h') n h le v = (le, v)

step_app-IsBounded :
    (html : Html) (a : App) (e : Event) → IsBounded a → Enabled a e → IsBounded (step html a e).0
unfolding step click_find finish_import clear_message
step_app-IsBounded html a (typed name) v h = joined-IsBounded a _ IsJoined-itself refl v
step_app-IsBounded html a (find_clicked random) v h =
    if_ind IsBounded a.find_disabled v
      (asked-IsBounded a _ (start_matchmaking-IsJoined (trim_name a.name) random a.page.ui) v)
step_app-IsBounded html a (imported i) v h =
    joined-IsBounded a _ IsJoined-itself
      (omega (arith, sum_by-set entered a.searches i (waiting pending) h)) v
step_app-IsBounded html a (import_failed i e) v h =
    joined-IsBounded a _ IsJoined-itself
      (omega (arith, sum_by-set entered a.searches i (waiting (rejected e)) h)) v
step_app-IsBounded html a (streamed i e) v h =
    stream-IsBounded i e (get_elem? a.searches i) a refl v
step_app-IsBounded html a (continues i) v h = continue-IsBounded i (get_elem? a.searches i) a refl v
step_app-IsBounded html a message_cleared v h = joined-IsBounded a _ IsJoined-itself refl v
step_app-IsBounded html a (plays e) v h =
    let (le, one) = play-IsBounded a.page e (games a) h v.bound v.linked in
    let same = step-client a.page e in record { bound = rw same le; linked = rw same one }
step_app-IsBounded html a reloads v h = new_app-IsBounded html

-- In every state that the page comes to from its login form, it has at most as many live sockets
-- and pending reconnects together as games that it has entered since it was loaded. The client of a
-- page that has entered one game at most is at a connection of the state machine: it has at most
-- one of either, and knows the handle of a pending reconnect.
pub Reach-IsBounded : (html : Html) {a : App} → Reach html a → IsBounded a
Reach-IsBounded html r =
    reach_ind html IsBounded (new_app-IsBounded html) (step_app-IsBounded html) r
