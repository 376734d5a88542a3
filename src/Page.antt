-- ===== src/Page.antt =====
-- The page as `initialize` of gameUI.js wires it: the client's callbacks call the user
-- interface, which sends through the client.
pub mod Sound
pub mod Refines
pub mod Encounters
pub mod Ending
mod Tests
use hax_war.Base.{
  ℕ, Bool, true, false, Option, none, some, List, [], ◌∷◌, ◌++◌, any, ◌==◌, if◌then◌else◌, Text,
}
use hax_war.Protocol.{StateView, Decision, Encounter, Side, Message, Body, state_update, game_event}
use hax_war.Client.{
  Client, Effect, console_log, on_log, on_connection_change, on_state_update, on_game_event,
  on_encounter, on_game_over, open_socket, sent, close_socket, timeout_set,
}
use hax_war.Client.Session
use hax_war.Ui.{Screen, Ui, new_ui}
use hax_war.Ui.Timer.{TimerEl, tick}
use hax_war.Ui.Update.{handle_state_update}
use hax_war.Ui.Moves.{Clock, handle_node_click, click_unit, execute_move}
use hax_war.Ui.Panels.{
  handle_encounter, resolve_encounter, handle_game_over, update_connection_status,
}
use hax_war.Ui.Log.{Entry, add_log}
use hax_war.Ui.Broadcast.Feed.{Feed, Setting, handle_broadcast}

-- The user interface with the elements `game-log` and, if the page has it, `broadcast-list`.
pub record Page : Type 0 where
  pub ui : Ui
  pub log : List Entry
  pub feed : Option Feed

-- A new page, whose `broadcast-list` may hold its placeholder.
unfoldable pub new_page : Text → Option TimerEl → Screen → Bool → Page
unfolding new_ui
new_page host el screen has_placeholder = record {
  ui = new_ui host el screen;
  log = [];
  feed = some (record { has_placeholder = has_placeholder; cards = [] });
}

-- The clock's readings and the time of day as the browser prints it.
pub record Moment : Type 0 where
  pub clock : Clock
  pub time : Text

abbrev pub broadcast_body : Setting → ℕ → Body → Feed → Feed
broadcast_body w round (game_event e) feed = handle_broadcast w round e feed
broadcast_body w round _ feed = feed

abbrev pub broadcast : Moment → Message → Ui → Option Feed → Option Feed
broadcast m message ui none = none
broadcast m message ui (some feed) =
    let w : Setting = record {
      player_side = ui.client.player_side;
      state_view = ui.state_view;
      time = m.time;
    } in
    some (broadcast_body w message.round message.body feed)

-- The callbacks that `initialize` sets; the other effects leave the page as it is.
unfoldable pub handle_effect : Moment → Page → Effect → Page
unfolding add_log handle_state_update handle_encounter handle_game_over update_connection_status
    handle_broadcast
handle_effect m p (on_log text) = record p { log = add_log m.time text p.log }
handle_effect m p (on_connection_change b) = record p { ui = update_connection_status b p.ui }
handle_effect m p (on_state_update s) = record p {
  ui = handle_state_update m.clock.now m.clock.now_ms s p.ui;
}
handle_effect m p (on_game_event message) = record p { feed = broadcast m message p.ui p.feed }
handle_effect m p (on_encounter e) = record p { ui = handle_encounter e p.ui }
handle_effect m p (on_game_over winner) = record p { ui = handle_game_over winner p.ui }
handle_effect m p _ = p

unfoldable pub handle_effects : Moment → Page → List Effect → Page
unfolding handle_effect
handle_effects m p [] = p
handle_effects m p (e ∷ es) = handle_effects m (handle_effect m p e) es

pub data Event : Type 0 where
  session : Moment → Session.Event → Event
  node_clicked : Clock → ℕ → Event
  unit_clicked : Clock → ℕ → Event
  move_clicked : Clock → Event
  decided : Decision → Event
  ticked : ℕ → Event

-- A part of the user interface acts, with what it sends.
abbrev pub acted : Page → Ui × List Effect → Page × List Effect
acted p (ui, es) = (record p { ui = ui }, es)

-- The client takes an event of its session and calls back.
unfoldable pub session_step : Moment → Session.Event → Page → Page × List Effect
unfolding handle_effects Session.step
session_step m e p =
    let (c, es) = Session.step p.ui.client e in
    (handle_effects m (record p { ui = record (p.ui) { client = c } }) es, es)

abbrev pub tick_ui : ℕ → Ui → Ui
tick_ui h ui =
    if any (λ i. i == h) ui.timer.intervals
    then record ui { timer = tick ui.is_my_planning_complete ui.timer }
    else ui

-- An event of the browser, with what the client does; a disabled button gets no click.
unfoldable pub step : Page → Event → Page × List Effect
unfolding session_step handle_node_click click_unit execute_move resolve_encounter tick
step p (session m e) = session_step m e p
step p (node_clicked clock id) = acted p (handle_node_click clock id p.ui)
step p (unit_clicked clock i) = acted p (click_unit clock i p.ui)
step p (move_clicked clock) =
    if p.ui.screen.move_disabled then (p, []) else acted p (execute_move clock p.ui)
step p (decided d) = acted p (resolve_encounter d p.ui)
step p (ticked h) = (record p { ui = tick_ui h p.ui }, [])

unfoldable pub run : Page → List Event → Page
unfolding step
run p [] = p
run p (e ∷ es) = run (step p e).0 es
