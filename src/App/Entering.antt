-- ===== src/App/Entering.antt =====
-- From the login form into the game.
use hax_war.Base.{
  ◌≡◌, ◌≢◌, refl, sym, subst, ap, ◌∙◌, true, false, some, List, [], ◌∷◌, ◌++◌, map, if_cases, Text,
  txt,
}
use hax_war.Base.Int.{pos}
use hax_war.Client.{opened, console_log, on_log, on_connection_change, sent, handle_open, log, send}
use hax_war.Client.Session
use hax_war.Client.Session.{socket_opened}
use hax_war.Page
use hax_war.Page.{Moment, session, session_step, handle_effects, handle_effect}
use hax_war.Ui.Panels.{update_connection_status}
use hax_war.Protocol.{get_state, side_text, side_of}
use hax_war.Matchmaking.Updates.{MatchFoundResult}
use hax_war.Client.{open_socket, new_client, connect, clear_reconnect, ws_url}
use hax_war.Client.Matchmaking.{
  StreamEvent, update, error, pending, resolved, result_of, NeverMatched, handle_stream,
}
use hax_war.Renderer.{initialize, new_renderer}
use hax_war.Ui.{new_ui}
use hax_war.Ui.Panels.{start_matchmaking, continue_match, enter_game}
use hax_war.Ui.Panels.Matching.{found}
use hax_war.App.{
  importing, waiting, App, Html, new_app, Event, typed, find_clicked, imported, streamed, continues,
  plays, Act, does, joins, is_empty, finish_import, continue_search, asked, click_find, take_stream,
  acts, with_ui, step, Enabled, run, IsPossible,
}
use hax_war.App.Form.{trim_name}

module _ (html : Html) where
  -- The events may happen one after the other, the page does this, and the state that they lead to
  -- is such.
  pub record Comes (P : App → Type 0) (xs : List Act) (a : App) (es : List Event) : Type 0 where
    pub possible : IsPossible html a es
    pub acted : acts html a es ≡ xs
    pub reached : P (run html a es)

  pub Comes-on :
      (P : App → Type 0) (xs : List Act) (a b : App) (e : Event) (es : List Event)
      → Enabled a e
      → (step html a e).0 ≡ b
      → Comes P xs b es
      → Comes P ((step html a e).1 ++ xs) a (e ∷ es)
  unfolding run acts
  Comes-on P xs a b e es h same v =
      let w = subst (λ c. Comes P xs c es) (sym same) v in
      record {
        possible = (h, w.possible);
        acted = ap (λ ys. (step html a e).1 ++ ys) w.acted;
        reached = w.reached;
      }

  -- An update without a match leaves a page that waits for one.
  unmatched_step :
      (a : App) (u : StreamEvent)
      → NeverMatched (u ∷ [])
      → (step html (record a { searches = waiting pending ∷ [] }) (streamed 0 u)).0
        ≡ record a { searches = waiting pending ∷ [] }
  unfolding step take_stream handle_stream
  unmatched_step a (update u) (miss, h) = rw miss refl
  unmatched_step a (error e) h = absurd h

  Comes-unmatched :
      (P : App → Type 0) (xs : List Act) (a : App) (us : List StreamEvent) (es : List Event)
      → NeverMatched us
      → Comes P xs (record a { searches = waiting pending ∷ [] }) es
      → Comes P xs (record a { searches = waiting pending ∷ [] }) (map (streamed 0) us ++ es)
  unfolding step
  Comes-unmatched P xs a [] es h v = v
  Comes-unmatched P xs a (update u ∷ us) es (miss, h) v =
      Comes-on P xs _ _ (streamed 0 (update u)) _ (λ e. cc) (unmatched_step a (update u) (miss, tt))
        (Comes-unmatched P xs a us es h v)
  Comes-unmatched P xs a (error e ∷ us) es h v = absurd h

  pub clicked :
      (random : Text) (a : App)
      → a.find_disabled ≡ false
      → (step html a (find_clicked random)).0 ≡ click_find random a
  unfolding step
  clicked random a on =
      if_cases (λ b. b ≡ click_find random a) a.find_disabled (λ off. cc) (λ enabled. refl)

  -- The page with the name typed, and after the click.
  abbrev named : Text → App
  named name = record (new_app html) { name = name; find_disabled = is_empty (trim_name name) }

  abbrev pub called : Text → App → App
  called id a =
      record (with_ui a (record (a.page.ui) {
        client = record (a.page.ui.client) { player_id = id };
        screen = record (a.page.ui.screen) { match_status = txt "매치 찾는 중..." };
      })) { searches = a.searches ++ (importing ∷ []) }

  pub asked-called :
      (id random : Text) (a : App)
      → id ≢ []
      → asked a (start_matchmaking id random a.page.ui) ≡ called id a
  unfolding start_matchmaking
  asked-called [] random a h = absurd (h refl)
  asked-called (c ∷ id) random a h = refl

  pub enabled_for : (id : Text) → id ≢ [] → is_empty id ≡ false
  enabled_for [] h = absurd (h refl)
  enabled_for (c ∷ id) h = refl

  click-called :
      (name random : Text)
      → trim_name name ≢ []
      → (step html (named name) (find_clicked random)).0 ≡ called (trim_name name) (named name)
  unfolding click_find
  click-called name random h =
      clicked random (named name) (enabled_for (trim_name name) h)
      ∙ asked-called (trim_name name) random (named name) h

  -- The page of a player in a room.
  pub record IsPlaying (name : Text) (m : MatchFoundResult) (a : App) : Type 0 where
    pub player : a.page.ui.client.player_id ≡ name
    pub room : a.page.ui.client.room_id ≡ m.room_id
    pub side : a.page.ui.client.player_side ≡ some (side_of m.player_side)
    pub socket : a.page.ui.client.sockets ≡ opened ∷ []
    pub game : a.page.ui.screen.game_active ≡ true
    pub login : a.page.ui.screen.login_active ≡ false
    pub board : a.page.ui.renderer ≡ initialize new_renderer (some (side_of m.player_side))
    pub status : a.page.ui.screen.connection_status ≡ txt "🟢 연결됨"

  abbrev pub room_url : MatchFoundResult → Text
  room_url m =
      txt "ws://"
      ++ (html.host
          ++ (txt "/ws/game/" ++ (m.room_id ++ (txt "/" ++ side_text (side_of m.player_side)))))

  -- What the page does from the match on: it opens the socket, and when that opens it says so in the
  -- log and asks for the state.
  abbrev pub entrance : MatchFoundResult → List Act
  entrance m =
      does (open_socket (room_url m))
      ∷ does (console_log (txt "서버 연결됨"))
      ∷ does (on_log (txt "서버 연결됨"))
      ∷ does (on_connection_change true)
      ∷ does (sent get_state)
      ∷ []

  -- A page whose search has its match enters the game.
  enter-Comes :
      (id name : Text) (m : MatchFoundResult) (at : Moment)
      → let a = record (called id (named name)) { searches = waiting pending ∷ [] } in
        Comes
          (IsPlaying id m)
          (entrance m)
          a
          (streamed 0 (found m) ∷ continues 0 ∷ plays (session at (socket_opened 0)) ∷ [])
  unfolding new_app new_ui new_client step run acts take_stream handle_stream continue_search
      continue_match enter_game connect clear_reconnect ws_url Page.step session_step Session.step
      handle_open log send handle_effects handle_effect update_connection_status
  enter-Comes id name m at = record {
    possible = (λ e. cc, ((resolved (result_of m), refl, λ e. cc), ((refl, tt), tt)));
    acted = refl;
    reached = record {
      player = refl;
      room = refl;
      side = refl;
      socket = refl;
      game = refl;
      login = refl;
      board = refl;
      status = refl;
    };
  }

-- From the login form to the game: type a name, click, have the bundle imported, receive updates,
-- then a match, go on, and have the socket open.
abbrev pub entering : Text → Text → List StreamEvent → MatchFoundResult → Moment → List Event
entering name random us m at =
    typed name
    ∷ find_clicked random
    ∷ imported 0
    ∷ (map (streamed 0) us
        ++ (streamed 0 (found m) ∷ continues 0 ∷ plays (session at (socket_opened 0)) ∷ []))

-- On a page that shows its login form a player who types a name that is not blank comes into the
-- game, whatever updates come before the match: each of these events may happen; the page asks for
-- a match under the trimmed name, opens one socket, to the room and side of the match, and asks for
-- the state once that is open; and then it shows the game and that it is connected, with the board
-- drawn for that side.
pub entering-Comes :
    (html : Html) (name random : Text) (us : List StreamEvent) (m : MatchFoundResult) (at : Moment)
    → trim_name name ≢ []
    → html.screen.login_active ≡ true
    → NeverMatched us
    → Comes html
        (IsPlaying html (trim_name name) m)
        (joins (record { player_id = trim_name name; rating = pos 1500 }) ∷ entrance html m)
        (new_app html)
        (entering name random us m at)
unfolding new_app new_ui new_client step finish_import
entering-Comes html name random us m at h shown free =
    Comes-on html _ _ (new_app html) (named html name) (typed name) _ tt refl (
      Comes-on html _ _ (named html name) _ (find_clicked random) _ shown
        (click-called html name random h)
        (Comes-on html _ _ _ _ (imported 0) _ refl refl (
          Comes-unmatched html _ _ (called html (trim_name name) (named html name)) us _ free
            (enter-Comes html (trim_name name) name m at))))
