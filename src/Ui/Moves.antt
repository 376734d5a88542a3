-- ===== src/Ui/Moves.antt =====
-- The orders of gameUI.js: the clicks on nodes, on unit buttons and on the move button, and the
-- moves that they send.
pub mod Proper
pub mod Choices
pub mod Orders
pub mod History
pub mod Unchanged
use hax_war.Base.{
  zero, suc, ℕ, ◌-◌, min, Bool, true, false, not, ◌||◌, ◌&&◌, Option, none, some, List, [], ◌∷◌,
  ◌++◌, filter, find, sum_by, get_elem?, leb, ltb, ◌==◌, if◌then◌else◌, Text, txt,
}
use hax_war.Protocol.{is_planning, Ownership, contested, Units, NodeView, Move, StateView}
use hax_war.Client.{Effect, send_move}
use hax_war.Renderer.{select_node, reset_highlight}
use hax_war.Ui.{UnitButton, Screen, Ui}
use hax_war.Ui.Optimism.{mobile_of}
use hax_war.Ui.Buttons.{
  limit_buttons, unselect_buttons, select_first, is_enabled, update_move_button,
}
use hax_war.Ui.Update.{node_name, handle_state_update}

-- The readings of the clock by a move: its timestamp, and the two of `handleStateUpdate`.
pub record Clock : Type 0 where
  pub stamp : ℕ
  pub now : ℕ
  pub now_ms : ℕ

unfoldable pub reset_selection : Ui → Ui
unfolding unselect_buttons
reset_selection ui = record ui {
  selected_from = none;
  selected_to = none;
  selected_units = 0;
  renderer = reset_highlight (select_node ui.renderer none);
  screen = record (ui.screen) {
    unit_buttons = unselect_buttons ui.screen.unit_buttons;
    selected_from = txt "-";
    selected_to = txt "-";
    move_disabled = true;
  };
}

-- `if (this.stateView) this.handleStateUpdate(this.stateView)`.
unfoldable pub refresh : Clock → Ui → Ui
unfolding handle_state_update
refresh clock ui = elim ui.state_view [
  | none ↦ ui
  | some s ↦ handle_state_update clock.now clock.now_ms s ui
]

abbrev pub optimistic_move : Clock → ℕ → ℕ → ℕ → Move
optimistic_move clock from to count = record {
  from_node_id = from;
  to_node_id = to;
  unit_count = count;
  is_optimistic = true;
  timestamp = clock.stamp;
}

unfoldable pub order_move : Clock → ℕ → ℕ → Ui → Ui × List Effect
unfolding reset_selection refresh send_move
order_move clock from to ui =
    let opt = optimistic_move clock from to ui.selected_units in
    (
      reset_selection
          (refresh clock (record ui { optimistic_moves = ui.optimistic_moves ++ (opt ∷ []) })),
      send_move ui.client from to ui.selected_units,
    )

unfoldable pub execute_move_to : Clock → ℕ → Ui → Ui × List Effect
unfolding order_move
execute_move_to clock to ui = elim ui.selected_from [
  | none ↦ (ui, [])
  | some from ↦ if leb ui.selected_units 0 then (ui, []) else order_move clock from to ui
]

-- `executeMove`, and the end of a unit button's handler: with both ends chosen.
unfoldable pub execute_move : Clock → Ui → Ui × List Effect
unfolding execute_move_to
execute_move clock ui = elim ui.selected_to [
  | none ↦ (ui, [])
  | some to ↦ execute_move_to clock to ui
]

-- `classList.add('selected')` at a button by its index.
unfoldable pub press : ℕ → List UnitButton → List UnitButton
press i [] = []
press zero (b ∷ bs) = record b { selected = true } ∷ bs
press (suc i) (b ∷ bs) = b ∷ press i bs

unfoldable pub choose_units : ℕ → UnitButton → Ui → Ui
unfolding press unselect_buttons update_move_button
choose_units i b ui = update_move_button (record ui {
  selected_units = b.count;
  screen = record (ui.screen) { unit_buttons = press i (unselect_buttons ui.screen.unit_buttons) };
})

-- A click on a unit button; a disabled one gets none.
unfoldable pub click_unit : Clock → ℕ → Ui → Ui × List Effect
unfolding choose_units execute_move
click_unit clock i ui = elim (get_elem? ui.screen.unit_buttons i) [
  | none ↦ (ui, [])
  | some b ↦ if b.disabled then (ui, []) else execute_move clock (choose_units i b ui)
]

abbrev pub is_contested : Ownership → Bool
is_contested contested = true
is_contested _ = false

abbrev pub can_select : NodeView → Bool
can_select node = node.is_owned_by_me || (is_contested node.ownership && ltb 0 (mobile_of node))

-- `availableOnNode`, at least 0: below that the click does nothing.
unfoldable pub available_on : StateView → NodeView → ℕ → ℕ
available_on s node id =
    mobile_of node
    - sum_by (λ m. m.unit_count) (filter (λ m. m.from_node_id == id) s.my_pending_moves)

-- One unit by default, or none if too many are selected.
unfoldable pub default_units : ℕ → Ui → Ui
unfolding unselect_buttons select_first
default_units most ui =
    let unselected = unselect_buttons ui.screen.unit_buttons in
    if leb 1 most && (leb ui.selected_units 0 || ltb most ui.selected_units)
    then (if is_enabled 1 ui.screen.unit_buttons
        then record ui {
          selected_units = 1;
          screen = record (ui.screen) { unit_buttons = select_first 1 unselected };
        }
        else ui)
    else (if ltb most ui.selected_units
        then record ui {
          selected_units = 0;
          screen = record (ui.screen) { unit_buttons = unselected };
        }
        else ui)

-- A click comes from a drawn circle, so its node has a position.
unfoldable pub mark_source : ℕ → ℕ → Ui → Ui
unfolding limit_buttons node_name
mark_source id most ui = record ui {
  selected_from = some id;
  renderer = select_node ui.renderer (some id);
  screen = record (ui.screen) {
    selected_from = node_name id;
    selected_to = txt "-";
    unit_buttons = limit_buttons most ui.screen.unit_buttons;
  };
}

unfoldable pub choose_source : StateView → ℕ → Ui → Ui
unfolding available_on mark_source default_units update_move_button
choose_source s id ui = elim (find (λ n. n.id == id) s.nodes) [
  | none ↦ ui
  | some node ↦
      let available = available_on s node id in
      let most = min s.my_remaining_units available in
      if can_select node && ltb 0 available
      then update_move_button (default_units most (mark_source id most ui))
      else ui
]

unfoldable pub cancel_source : StateView → Ui → Ui
unfolding limit_buttons unselect_buttons update_move_button
cancel_source s ui = update_move_button (record ui {
  selected_from = none;
  selected_to = none;
  selected_units = 0;
  renderer = reset_highlight (select_node ui.renderer none);
  screen = record (ui.screen) {
    selected_from = txt "-";
    selected_to = txt "-";
    unit_buttons = unselect_buttons (limit_buttons s.my_remaining_units ui.screen.unit_buttons);
  };
})

unfoldable pub mark_target : ℕ → Ui → Ui
unfolding node_name
mark_target id ui = record ui {
  selected_to = some id;
  screen = record (ui.screen) { selected_to = node_name id };
}

unfoldable pub choose_target : Clock → ℕ → Ui → Ui × List Effect
unfolding execute_move_to update_move_button mark_target
choose_target clock id ui =
    let chosen = mark_target id ui in
    if ltb 0 ui.selected_units
    then execute_move_to clock id chosen
    else (update_move_button chosen, [])

unfoldable pub click_planning : Clock → StateView → ℕ → Ui → Ui × List Effect
unfolding choose_source cancel_source choose_target
click_planning clock s id ui = elim ui.selected_from [
  | none ↦ (choose_source s id ui, [])
  | some from ↦ if from == id then (cancel_source s ui, []) else choose_target clock id ui
]

unfoldable pub handle_node_click : Clock → ℕ → Ui → Ui × List Effect
unfolding click_planning
handle_node_click clock id ui = elim ui.state_view [
  | none ↦ (ui, [])
  | some s ↦
      if is_planning s.phase && not s.is_my_planning_complete
      then click_planning clock s id ui
      else (ui, [])
]
