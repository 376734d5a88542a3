-- ===== src/Ui.antt =====
-- Class `GameUI` of gameUI.js: its fields, and the elements of index.html that its methods write.
-- The children model the methods; each returns the new state and what the client did.
pub mod Timer
pub mod Buttons
pub mod Optimism
pub mod Standing
pub mod Update
pub mod Moves
pub mod Panels
mod Tests
pub mod Trim
pub mod Log
pub mod Broadcast
use hax_war.Base.{ℕ, Bool, false, Option, none, List, [], ◌∷◌, Text, txt}
use hax_war.Protocol.{Phase, Move, Encounter, StateView}
use hax_war.Client.{Client, new_client}
use hax_war.Renderer.{Renderer, new_renderer}
use Timer.{RoundTimer, TimerEl, new_timer}

-- `style.opacity` and `style.cursor` of a unit button: not set, '1' and 'pointer', or '0.3' and
-- 'not-allowed'.
pub data Look : Type 0 where
  as_loaded allowed barred : Look

-- A `.unit-btn` element: `dataset.count` as a number, and what the code sets.
pub record UnitButton : Type 0 where
  pub count : ℕ
  pub disabled : Bool
  pub selected : Bool
  pub look : Look

-- An item of the list of pending moves.
pub record PendingRow : Type 0 where
  pub from_name : Text
  pub to_name : Text
  pub unit_count : ℕ
  pub is_optimistic : Bool

-- The element `pending-moves`: whether its header is there, and its items.
pub record PendingPanel : Type 0 where
  pub has_header : Bool
  pub rows : List PendingRow

-- The other elements by their ids; `move_disabled` is the `disabled` of `btn-move`, and
-- `pending_moves` is none if the page lacks the element.
pub record Screen : Type 0 where
  pub round_info : Text
  pub phase_info : Text
  pub score_a : Text
  pub score_b : Text
  pub available_units : Text
  pub selected_from : Text
  pub selected_to : Text
  pub move_disabled : Bool
  pub unit_buttons : List UnitButton
  pub pending_moves : Option PendingPanel
  pub encounter_shown : Bool
  pub encounter_info : Text
  pub gameover_shown : Bool
  pub gameover_title : Text
  pub gameover_result : Text
  pub connection_status : Text
  pub connection_colour : Text
  pub login_active : Bool
  pub game_active : Bool
  pub match_status : Text
  pub my_side : Text

pub record Ui : Type 0 where
  pub client : Client
  pub renderer : Renderer
  pub state_view : Option StateView
  pub selected_from : Option ℕ
  pub selected_to : Option ℕ
  pub selected_units : ℕ
  pub encounter_data : Option Encounter
  pub optimistic_moves : List Move
  pub timer : RoundTimer
  pub last_phase : Option Phase
  pub last_round : Option ℕ
  pub is_my_planning_complete : Bool
  pub screen : Screen

-- The constructor with the renderer that `initialize` makes, on a page of the given host, timer
-- element and other elements.
unfoldable pub new_ui : Text → Option TimerEl → Screen → Ui
new_ui host el screen = record {
  client = new_client host;
  renderer = new_renderer;
  state_view = none;
  selected_from = none;
  selected_to = none;
  selected_units = 0;
  encounter_data = none;
  optimistic_moves = [];
  timer = new_timer el;
  last_phase = none;
  last_round = none;
  is_my_planning_complete = false;
  screen = screen;
}
