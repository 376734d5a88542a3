-- ===== src/Ui/Update.antt =====
-- `handleStateUpdate` of gameUI.js, in the order of its parts.
pub mod Selection
pub mod Interval
pub mod Clockwork
pub mod Offers
pub mod Order
pub mod Listing
pub mod Shown
mod Tests
use hax_war.Base.{
  ℕ, ◌+◌, ◌/◌, ◌-◌, Bool, true, false, not, ◌||◌, ◌&&◌, Option, none, some, List, [], ◌∷◌, ◌++◌,
  map, ltb, ◌==◌, if◌then◌else◌, is_some, Text, txt, emoji, show,
}
use hax_war.Base.Int.{ℤ, pos, negsuc, sub_ℕ, nat_abs}
use hax_war.Protocol.{Phase, phase_eq, is_planning, Move, Scores, StateView}
use hax_war.Renderer.Board.{Position, position}
use hax_war.Renderer.Update.{update_state}
use hax_war.Ui.{PendingRow, PendingPanel, Screen, Ui}
use hax_war.Ui.Timer.{
  RoundTimer, TimerEl, show_on, update_timer_display, stop_countdown, start_countdown,
}
use hax_war.Ui.Optimism.{keep_moves, local_state}
use hax_war.Ui.Buttons.{limit_buttons, unselect_buttons, update_move_button}

-- The optimistic moves, the server's state, and the board drawn from the local state.
unfoldable pub take_state : List Move → StateView → StateView → Ui → Ui
take_state opts local state ui = record ui {
  optimistic_moves = opts;
  state_view = some state;
  is_my_planning_complete = local.is_my_planning_complete;
  renderer = update_state local ui.renderer;
}

-- `localState.maxRounds || 20`.
abbrev pub rounds_or : ℕ → ℕ
rounds_or n = if n == 0 then 20 else n

unfoldable pub show_round : StateView → Ui → Ui
show_round local ui = record ui {
  screen = record (ui.screen) {
    round_info =
        txt "라운드 "
        ++ (show local.current_round ++ (txt " / " ++ show (rounds_or local.max_rounds)));
    phase_info = if is_planning local.phase then txt "📋 계획 단계" else txt "⚡ 해소 단계";
  };
}

-- `Math.max(0, Math.round((deadlineMs - nowMs) / 1000))`, or 30 without a deadline.
abbrev pub seconds_left : ℕ → Option ℕ → ℕ
seconds_left now none = 30
seconds_left now (some deadline) = (deadline + 500 - now) / 1000

abbrev pub same_phase : Option Phase → Phase → Bool
same_phase none p = false
same_phase (some q) p = phase_eq q p

abbrev pub same_round : Option ℕ → ℕ → Bool
same_round none n = false
same_round (some m) n = m == n

-- `Math.abs(this.timeRemaining - remaining)`.
abbrev pub difference : ℤ → ℕ → ℕ
difference (pos m) n = nat_abs (sub_ℕ m n)
difference (negsuc m) n = m + 1 + n

unfoldable pub resync : ℕ → RoundTimer → RoundTimer
resync remaining t =
    if ltb 2 (difference t.time_remaining remaining)
    then record t { time_remaining = pos remaining }
    else t

unfoldable pub resolving : TimerEl
resolving = record {
  content = emoji "⏱" ++ txt " 해소 단계 진행 중...";
  colour = txt "#a78bfa";
  urgent = false;
}

-- The timer in the planning phase; `fresh` if the phase or the round changed.
unfoldable pub planning_timer : Bool → Bool → ℕ → RoundTimer → RoundTimer
unfolding start_countdown update_timer_display resync
planning_timer fresh complete remaining t =
    if fresh || not (is_some t.timer_interval)
    then start_countdown complete remaining t
    else update_timer_display complete (resync remaining t)

unfoldable pub next_timer : Bool → ℕ → StateView → RoundTimer → RoundTimer
unfolding planning_timer stop_countdown resolving
next_timer fresh now local t =
    let stopped = stop_countdown t in
    if is_planning local.phase
    then planning_timer fresh local.is_my_planning_complete (seconds_left now local.deadline) t
    else record stopped { display = show_on stopped.display resolving }

unfoldable pub run_timer : ℕ → StateView → Ui → Ui
unfolding next_timer
run_timer now local ui =
    let fresh =
      not (same_phase ui.last_phase local.phase && same_round ui.last_round local.current_round) in
    record ui {
      last_phase = some local.phase;
      last_round = some local.current_round;
      timer = next_timer fresh now local ui.timer;
    }

abbrev pub show_score : Option Scores → Screen → Screen
show_score none s = s
show_score (some p) s = record s {
  score_a = txt "A: " ++ show p.score_a;
  score_b = txt "B: " ++ show p.score_b;
}

-- The scores, the units that can move, and that the orders are complete.
unfoldable pub show_counts : StateView → Ui → Ui
show_counts local ui =
    let s = show_score local.scores ui.screen in
    record ui {
      screen = record s {
        available_units = show local.my_remaining_units;
        phase_info =
            if local.is_my_planning_complete then txt "✅ 명령 완료 (상대 기다리는 중)" else s.phase_info;
      };
    }

-- The unit buttons, and a selection that has become too large.
unfoldable pub limit_selection : ℕ → Ui → Ui
unfolding limit_buttons unselect_buttons update_move_button
limit_selection remaining ui =
    let limited = limit_buttons remaining ui.screen.unit_buttons in
    if ltb remaining ui.selected_units
    then update_move_button (record ui {
      selected_units = 0;
      screen = record (ui.screen) { unit_buttons = unselect_buttons limited };
    })
    else record ui { screen = record (ui.screen) { unit_buttons = limited } }

-- `NODE_POSITIONS[id]?.name || …`.
unfoldable pub node_name : ℕ → Text
unfolding position
node_name id = elim (position id) [ none ↦ txt "노드 " ++ show id | some p ↦ p.name ]

unfoldable pub pending_row : Move → PendingRow
unfolding node_name
pending_row m = record {
  from_name = node_name m.from_node_id;
  to_name = node_name m.to_node_id;
  unit_count = m.unit_count;
  is_optimistic = m.is_optimistic;
}

abbrev pub pending_panel : List Move → PendingPanel
pending_panel [] = record { has_header = false; rows = [] }
pending_panel (m ∷ ms) = record { has_header = true; rows = map pending_row (m ∷ ms) }

abbrev pub show_panel : List Move → Option PendingPanel → Option PendingPanel
show_panel moves none = none
show_panel moves (some _) = some (pending_panel moves)

abbrev pub is_nonempty : List Text → Bool
is_nonempty [] = false
is_nonempty (_ ∷ _) = true

-- It shows the section of encounters, whatever the edges are.
abbrev pub highlight_undecided_encounters : List Text → Bool
highlight_undecided_encounters edge_ids = true

-- The list of pending moves; undecided encounters show their section (`highlightUndecidedEncounters`).
unfoldable pub show_pending : StateView → Ui → Ui
unfolding pending_row
show_pending local ui = record ui {
  screen = record (ui.screen) {
    pending_moves = show_panel local.my_pending_moves ui.screen.pending_moves;
    encounter_shown =
        if is_nonempty local.undecided_encounter_edge_ids
        then highlight_undecided_encounters local.undecided_encounter_edge_ids
        else ui.screen.encounter_shown;
  };
}

-- `now` and `now_ms` are the two readings of the clock.
unfoldable pub handle_state_update : ℕ → ℕ → StateView → Ui → Ui
unfolding keep_moves local_state take_state show_round run_timer show_counts limit_selection
    show_pending
handle_state_update now now_ms state ui =
    let opts = keep_moves state now ui.optimistic_moves in
    let local = local_state opts state in
    show_pending local (
      limit_selection local.my_remaining_units (
        show_counts local
          (run_timer now_ms local (show_round local (take_state opts local state ui)))))
