-- ===== src/Ui/Moves/Unchanged.antt =====
-- What the orders leave alone: the client, the screen that is shown and the own side; and how they
-- are sent.
use hax_war.Base.{
  ℕ, ◌≡◌, refl, ◌∙◌, not, ◌||◌, ◌&&◌, List, [], ◌∷◌, ◌++◌, find, get_elem?, leb, ltb, ◌==◌, if_ind,
  subst, Option_cases, min,
}
use hax_war.Protocol.{StateView, is_planning, move_units}
use hax_war.Client.{Effect, send_move}
use hax_war.Ui.{UnitButton, Ui}
use hax_war.Ui.Buttons.{is_enabled, update_move_button}
use hax_war.Client.Session.Heard.{AreHeard, send-AreHeard}
use hax_war.Ui.Standing.{Standing, standing}
use hax_war.Ui.Update.Selection.{update-Keeps}
use hax_war.Ui.Moves.{
  Clock, optimistic_move, reset_selection, refresh, order_move, execute_move_to, execute_move,
  choose_units, click_unit, default_units, mark_source, choose_source, cancel_source, mark_target,
  choose_target, click_planning, handle_node_click, available_on, can_select,
}

-- The result has the standing of the page before, and what is sent goes out on an open socket.
abbrev pub HasStandingOf : Ui → Ui × List Effect → Type 0
HasStandingOf ui r = (standing r.0 ≡ standing ui) × AreHeard ui.client r.1

refresh-standing : (clock : Clock) (ui : Ui) → standing (refresh clock ui) ≡ standing ui
unfolding refresh
refresh-standing clock ui =
    Option_cases (λ (u : Ui). standing u ≡ standing ui) ui.state_view (λ e. refl)
      (λ s e. (update-Keeps clock.now clock.now_ms s ui).standing)

order_move-standing :
    (clock : Clock) (f t : ℕ) (ui : Ui) → HasStandingOf ui (order_move clock f t ui)
unfolding order_move reset_selection send_move
order_move-standing clock f t ui =
    let opt = optimistic_move clock f t ui.selected_units in
    (
      refresh-standing clock (record ui { optimistic_moves = ui.optimistic_moves ++ (opt ∷ []) }),
      send-AreHeard ui.client (move_units f t ui.selected_units),
    )

execute_move_to-standing :
    (clock : Clock) (t : ℕ) (ui : Ui) → HasStandingOf ui (execute_move_to clock t ui)
unfolding execute_move_to
execute_move_to-standing clock t ui =
    Option_cases (HasStandingOf ui) ui.selected_from (λ e. (refl, tt))
      (λ f e.
        if_ind (HasStandingOf ui) (leb ui.selected_units 0) (refl, tt)
          (order_move-standing clock f t ui))

pub execute_move-standing : (clock : Clock) (ui : Ui) → HasStandingOf ui (execute_move clock ui)
unfolding execute_move
execute_move-standing clock ui =
    Option_cases (HasStandingOf ui) ui.selected_to (λ e. (refl, tt))
      (λ t e. execute_move_to-standing clock t ui)

-- From a page with the same standing.
onward :
    (ui v : Ui) (r : Ui × List Effect)
    → standing v ≡ standing ui
    → HasStandingOf v r
    → HasStandingOf ui r
onward ui v r same (stands, heard) =
    (stands ∙ same, subst (λ (s : Standing). AreHeard s.client r.1) same heard)

choose_units-standing :
    (i : ℕ) (b : UnitButton) (ui : Ui) → standing (choose_units i b ui) ≡ standing ui
unfolding choose_units update_move_button
choose_units-standing i b ui = refl

pub click_unit-standing :
    (clock : Clock) (i : ℕ) (ui : Ui) → HasStandingOf ui (click_unit clock i ui)
unfolding click_unit
click_unit-standing clock i ui =
    Option_cases (HasStandingOf ui) (get_elem? ui.screen.unit_buttons i) (λ e. (refl, tt))
      (λ b e.
        if_ind (HasStandingOf ui) b.disabled (refl, tt)
          (onward ui (choose_units i b ui) (execute_move clock (choose_units i b ui))
            (choose_units-standing i b ui) (execute_move-standing clock (choose_units i b ui))))

default_units-standing : (most : ℕ) (ui : Ui) → standing (default_units most ui) ≡ standing ui
unfolding default_units
default_units-standing most ui =
    let P : Ui → Type 0 = λ u. standing u ≡ standing ui in
    if_ind P (leb 1 most && (leb ui.selected_units 0 || ltb most ui.selected_units))
      (if_ind P (is_enabled 1 ui.screen.unit_buttons) refl refl)
      (if_ind P (ltb most ui.selected_units) refl refl)

choose_source-standing :
    (s : StateView) (id : ℕ) (ui : Ui) → standing (choose_source s id ui) ≡ standing ui
unfolding choose_source mark_source update_move_button
choose_source-standing s id ui =
    let P : Ui → Type 0 = λ u. standing u ≡ standing ui in
    Option_cases P (find (λ n. n.id == id) s.nodes) (λ e. refl)
      (λ node e.
        if_ind P (can_select node && ltb 0 (available_on s node id))
          (default_units-standing (min s.my_remaining_units (available_on s node id))
            (mark_source id (min s.my_remaining_units (available_on s node id)) ui))
          refl)

cancel_source-standing : (s : StateView) (ui : Ui) → standing (cancel_source s ui) ≡ standing ui
unfolding cancel_source update_move_button
cancel_source-standing s ui = refl

choose_target-standing :
    (clock : Clock) (id : ℕ) (ui : Ui) → HasStandingOf ui (choose_target clock id ui)
unfolding choose_target mark_target update_move_button
choose_target-standing clock id ui =
    if_ind (HasStandingOf ui) (ltb 0 ui.selected_units)
      (execute_move_to-standing clock id (mark_target id ui)) (refl, tt)

pub handle_node_click-standing :
    (clock : Clock) (id : ℕ) (ui : Ui) → HasStandingOf ui (handle_node_click clock id ui)
unfolding handle_node_click click_planning
handle_node_click-standing clock id ui =
    Option_cases (HasStandingOf ui) ui.state_view (λ e. (refl, tt))
      (λ s e.
        if_ind (HasStandingOf ui) (is_planning s.phase && not s.is_my_planning_complete)
          (Option_cases (HasStandingOf ui) ui.selected_from
            (λ e'. (choose_source-standing s id ui, tt))
            (λ f e'.
              if_ind (HasStandingOf ui) (f == id) (cancel_source-standing s ui, tt)
                (choose_target-standing clock id ui)))
          (refl, tt))
