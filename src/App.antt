-- ===== src/App.antt =====
-- The whole page of gameUI.js from its login form on: the listeners of `initialize` for the form
-- and for a new match, `startMatchmaking` with the searches that it leaves waiting, and the game.
pub mod Form
pub mod Sound
pub mod Joined
pub mod Connections
pub mod Orders
pub mod Sending
pub mod Screens
pub mod Places
pub mod Entering
pub mod Returning
pub mod Overlaps
pub mod Addresses
pub mod Messages
mod Tests
use hax_war.Base.{
  ℕ, suc, subst, ◌-◌, ◌<◌, ◌≡◌, ◌≢◌, refl, Bool, true, false, Option, none, some, List, [], ◌∷◌,
  ◌++◌, map, get_elem?, set, if◌then◌else◌, Text,
}
use hax_war.Matchmaking.Queue.{JoinQueueRequest}
use hax_war.Client.{Client, Effect}
use hax_war.Client.Session
use hax_war.Client.Matchmaking.{
  StreamEvent, Promise, pending, resolved, rejected, join_request, handle_stream,
}
use hax_war.Ui.{Screen, Ui}
use hax_war.Ui.Timer.{TimerEl}
use hax_war.Ui.Panels.{start_matchmaking, continue_match}
use hax_war.Page
use hax_war.Page.{Page, new_page, session}
use Form.{trim_name}

-- A call of `startMatchmaking`: it waits for the import in `findMatch`, then for the promise, and
-- then it has gone on.
pub data Search : Type 0 where
  importing : Search
  waiting : Promise → Search
  continued : Promise → Search

-- The page with the value of `player-name`, the `disabled` of `btn-find-match`, the searches in
-- their order, and how many timeouts are set that clear the message of a failure.
pub record App : Type 0 where
  pub page : Page
  pub name : Text
  pub find_disabled : Bool
  pub searches : List Search
  pub clears : ℕ

-- What index.html gives the page.
pub record Html : Type 0 where
  pub host : Text
  pub timer_el : Option TimerEl
  pub screen : Screen
  pub has_placeholder : Bool

unfoldable pub new_app : Html → App
unfolding new_page
new_app html = record {
  page = new_page html.host html.timer_el html.screen html.has_placeholder;
  name = [];
  find_disabled = true;
  searches = [];
  clears = 0;
}

pub data Event : Type 0 where
  typed : Text → Event
  find_clicked : Text → Event
  imported : ℕ → Event
  import_failed : ℕ → Text → Event
  streamed : ℕ → StreamEvent → Event
  continues : ℕ → Event
  message_cleared : Event
  plays : Page.Event → Event
  reloads : Event

-- What the page does: an effect of its client, a call of JoinQueue, or `setTimeout` (in milliseconds) for the
-- message.
pub data Act : Type 0 where
  does : Effect → Act
  joins : JoinQueueRequest → Act
  clears_later : ℕ → Act

abbrev pub is_empty : Text → Bool
is_empty [] = true
is_empty (c ∷ s) = false

abbrev pub with_ui : App → Ui → App
with_ui a ui = record a { page = record (a.page) { ui = ui } }

abbrev pub with_client : App → Client → App
with_client a c = with_ui a (record (a.page.ui) { client = c })

abbrev pub with_search : App → ℕ → Search → App
with_search a i s = record a { searches = set a.searches i s }

-- A search waits for its import, unless an empty name returned.
abbrev pub asked : App → Ui × Option JoinQueueRequest → App
asked a (ui, none) = with_ui a ui
asked a (ui, some request) = record (with_ui a ui) { searches = a.searches ++ (importing ∷ []) }

-- The listener of `btn-find-match`, with the random part of a default name: `startMatchmaking` up
-- to the import.
unfoldable pub click_find : Text → App → App
unfolding start_matchmaking trim_name
click_find random a = asked a (start_matchmaking (trim_name a.name) random a.page.ui)

-- The rest of `findMatch`: the request has the name that the client then has.
unfoldable pub finish_import : ℕ → App → App × List Act
finish_import i a = (with_search a i (waiting pending), joins (join_request a.page.ui.client) ∷ [])

-- A handler of the stream sets fields of the client and settles the promise.
abbrev pub promise_after : App → Promise → StreamEvent → Client × Promise
promise_after a p e = handle_stream (a.page.ui.client, p) e

unfoldable pub take_stream : ℕ → StreamEvent → Option Search → App → App
unfolding handle_stream
take_stream i e (some (waiting p)) a =
    let (c, q) = handle_stream (a.page.ui.client, p) e in
    with_search (with_client a c) i (waiting q)
take_stream i e (some (continued p)) a = with_client a (handle_stream (a.page.ui.client, p) e).0
take_stream i e _ a = a

-- `startMatchmaking` after its `await`.
abbrev pub later : Promise → List Act
later (rejected e) = clears_later 3000 ∷ []
later _ = []

abbrev pub one_more : Promise → ℕ → ℕ
one_more (rejected e) n = suc n
one_more _ n = n

unfoldable pub continue_search : ℕ → Option Search → App → App × List Act
unfolding continue_match
continue_search i (some (waiting p)) a =
    let (ui, es) = continue_match (a.page.ui.client, p) a.page.ui in
    (
      record (with_search (with_ui a ui) i (continued p)) { clears = one_more p a.clears },
      map does es ++ later p,
    )
continue_search i _ a = (a, [])

-- `statusEl.textContent = ''`.
unfoldable pub clear_message : App → App
clear_message a =
    let ui = a.page.ui in
    record (with_ui a (record ui { screen = record (ui.screen) { match_status = [] } })) {
      clears = a.clears - 1;
    }

-- A disabled button gets no click.
unfoldable pub step : Html → App → Event → App × List Act
unfolding click_find finish_import take_stream continue_search clear_message new_app Page.step
step html a (typed name) = (record a { name = name; find_disabled = is_empty (trim_name name) }, [])
step html a (find_clicked random) = (if a.find_disabled then a else click_find random a, [])
step html a (imported i) = finish_import i a
step html a (import_failed i e) = (with_search a i (waiting (rejected e)), [])
step html a (streamed i e) = (take_stream i e (get_elem? a.searches i) a, [])
step html a (continues i) = continue_search i (get_elem? a.searches i) a
step html a message_cleared = (clear_message a, [])
step html a (plays e) = let (p, es) = Page.step a.page e in (record a { page = p }, map does es)
step html a reloads = (new_app html, [])

-- What the browser lets happen in the game.
abbrev pub IsPlayable : Page → Page.Event → Type 0
IsPlayable p (session m e) = Session.Enabled p.ui.client e × Session.IsFromBrowser e
IsPlayable p _ = Unit {0}

-- What may happen. A promise is continued once, after it is settled; a hidden form gets no click.
abbrev pub Enabled : App → Event → Type 0
Enabled a (find_clicked random) = a.page.ui.screen.login_active ≡ true
Enabled a (imported i) = get_elem? a.searches i ≡ some importing
Enabled a (import_failed i e) = get_elem? a.searches i ≡ some importing
Enabled a (streamed i e) = get_elem? a.searches i ≢ some importing
Enabled a (continues i) =
    (p : Promise) × (get_elem? a.searches i ≡ some (waiting p)) × (p ≢ pending)
Enabled a message_cleared = 0 < a.clears
Enabled a (plays e) = IsPlayable a.page e
Enabled a _ = Unit {0}

-- The states that the page comes to.
pub data Reach (html : Html) : App → Type 0 where
  start : Reach html (new_app html)
  next : {a b : App} (e : Event) → Reach html a → Enabled a e → (step html a e).0 ≡ b → Reach html b

-- A property of the new page that every possible event keeps holds in every state.
pub reach_ind :
    (html : Html) (P : App → Type 0)
    → P (new_app html)
    → ((a : App) (e : Event) → P a → Enabled a e → P (step html a e).0)
    → {a : App} → Reach html a
    → P a
reach_ind html P z s start = z
reach_ind html P z s (next {a} e r h same) = subst P same (s a e (reach_ind html P z s r) h)

unfoldable pub run : Html → App → List Event → App
unfolding step
run html a [] = a
run html a (e ∷ es) = run html (step html a e).0 es

-- What the page does, in order.
unfoldable pub acts : Html → App → List Event → List Act
unfolding step
acts html a [] = []
acts html a (e ∷ es) = (step html a e).1 ++ acts html (step html a e).0 es

-- Every event may happen where it does.
abbrev pub IsPossible : Html → App → List Event → Type 0
IsPossible html a [] = Unit {0}
IsPossible html a (e ∷ es) = Enabled a e × IsPossible html (step html a e).0 es

pub run-Reach :
    (html : Html) (a : App) (es : List Event)
    → Reach html a
    → IsPossible html a es
    → Reach html (run html a es)
unfolding run
run-Reach html a [] r h = r
run-Reach html a (e ∷ es) r (h, hs) = run-Reach html (step html a e).0 es (next e r h refl) hs
