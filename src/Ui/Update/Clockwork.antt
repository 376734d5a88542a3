-- ===== src/Ui/Update/Clockwork.antt =====
-- The round timer after an update of the state.
use hax_war.Base.{
  ℕ, ◌≤◌, ◌≡◌, refl, sym, subst, ap, ◌∙◌, Bool, true, false, not, ◌||◌, none, some, List, [], ◌∷◌,
  ltb, if_ind, if_cases, is_some, Bool-cases, inl, inr, arith,
}
use hax_war.Base.Int.{pos}
use hax_war.Protocol.{Move, StateView, is_planning}
use hax_war.Ui.{Ui}
use hax_war.Ui.Timer.{
  RoundTimer, TimerEl, show_on, time_display, update_timer_display, stop_countdown, start_countdown,
}
use hax_war.Ui.Timer.Single.{IsSingle, stop-IsStopped}
use hax_war.Ui.Timer.Countdown.{display-stop_countdown}
use hax_war.Ui.Optimism.{keep_moves, apply_moves-fixed, local_state}
use hax_war.Ui.Buttons.{update_move_button}
use hax_war.Ui.Update.{
  difference, seconds_left, resync, resolving, planning_timer, next_timer, take_state, show_round,
  run_timer, show_counts, limit_selection, show_pending, handle_state_update,
}

-- The browser runs one interval, whose handle the timer has.
abbrev pub Runs : RoundTimer → Type 0
Runs t = (h : ℕ) × (t.timer_interval ≡ some h) × (t.intervals ≡ h ∷ [])

-- One interval runs, and the element shows the seconds, which are the server's up to 2.
pub record IsInStep (complete : Bool) (n : ℕ) (t : RoundTimer) : Type 0 where
  pub runs : Runs t
  pub near : difference t.time_remaining n ≤ 2
  pub shown : t.display ≡ some (time_display complete t.time_remaining)

self-difference : (n : ℕ) → difference (pos n) n ≤ 2
self-difference n = ground arith

start-IsInStep :
    (complete : Bool) (n : ℕ) {el : TimerEl} (t : RoundTimer)
    → IsSingle t
    → t.display ≡ some el
    → IsInStep complete n (start_countdown complete n t)
unfolding start_countdown update_timer_display
start-IsInStep complete n t v d = record {
  runs = (
    (stop_countdown t).next_interval,
    refl,
    ap (◌∷◌ (stop_countdown t).next_interval) (stop-IsStopped t v).1,
  );
  near = self-difference n;
  shown = ap (λ o. show_on o (time_display complete (pos n))) (display-stop_countdown t ∙ d);
}

display-IsInStep :
    (complete : Bool) (n : ℕ) {el : TimerEl} (t : RoundTimer)
    → t.display ≡ some el
    → Runs t
    → difference t.time_remaining n ≤ 2
    → IsInStep complete n (update_timer_display complete t)
unfolding update_timer_display
display-IsInStep complete n t d h near = record {
  runs = h;
  near = near;
  shown = ap (λ o. show_on o (time_display complete t.time_remaining)) d;
}

resync-IsInStep :
    (complete : Bool) (n : ℕ) {el : TimerEl} (t : RoundTimer)
    → t.display ≡ some el
    → Runs t
    → IsInStep complete n (update_timer_display complete (resync n t))
unfolding resync
resync-IsInStep complete n t d h =
    if_cases (λ u. IsInStep complete n (update_timer_display complete u))
      (ltb 2 (difference t.time_remaining n))
      (λ far. display-IsInStep complete n _ d h (self-difference n))
      (λ near. display-IsInStep complete n t d h (ground arith))

-- A single timer that has a handle runs its interval.
single-Runs : (t : RoundTimer) → IsSingle t → is_some t.timer_interval ≡ true → Runs t
single-Runs t (inl (idle, _)) h = cc
single-Runs t (inr runs) h = runs

or-false : (b c : Bool) → b || not c ≡ false → c ≡ true
or-false b c h = ground arith

planning_timer-IsInStep :
    (fresh complete : Bool) (n : ℕ) {el : TimerEl} (t : RoundTimer)
    → IsSingle t
    → t.display ≡ some el
    → IsInStep complete n (planning_timer fresh complete n t)
unfolding planning_timer
planning_timer-IsInStep fresh complete n t v d =
    if_cases (IsInStep complete n) (fresh || not (is_some t.timer_interval))
      (λ starts. start-IsInStep complete n t v d)
      (λ goes. resync-IsInStep complete n t d (single-Runs t v (or-false fresh _ goes)))

-- No interval runs, and the element says that the round is being resolved.
pub record IsResolving (t : RoundTimer) : Type 0 where
  pub handle : t.timer_interval ≡ none
  pub stopped : t.intervals ≡ []
  pub shown : t.display ≡ some resolving

-- What a timer is for in a phase.
abbrev pub Follows : Bool → Bool → ℕ → RoundTimer → Type 0
Follows true complete n t = IsInStep complete n t
Follows false complete n t = IsResolving t

next_timer-Follows :
    (fresh : Bool) (now : ℕ) (local : StateView) {el : TimerEl} (t : RoundTimer)
    → IsSingle t
    → t.display ≡ some el
    → Follows
        (is_planning local.phase)
        local.is_my_planning_complete
        (seconds_left now local.deadline)
        (next_timer fresh now local t)
unfolding next_timer
next_timer-Follows fresh now local t v d = elim (Bool-cases (is_planning local.phase)) [
  | inl plans ↦ rw plans (
      planning_timer-IsInStep fresh local.is_my_planning_complete (seconds_left now local.deadline)
        t v d)
  | inr rests ↦ rw rests (record {
    handle = (stop-IsStopped t v).0;
    stopped = (stop-IsStopped t v).1;
    shown = ap (λ o. show_on o resolving) (display-stop_countdown t ∙ d);
  })
]

-- What follows the timer's part leaves the timer.
pub shown-timer :
    (most : ℕ) (local : StateView) (ui : Ui)
    → (show_pending local (limit_selection most (show_counts local ui))).timer ≡ ui.timer
unfolding show_pending limit_selection show_counts update_move_button
shown-timer most local ui =
    if_ind (λ (u : Ui). u.timer ≡ ui.timer) (ltb most ui.selected_units) refl refl

run_timer-Follows :
    (now : ℕ) (local : StateView) {el : TimerEl} (ui : Ui)
    → IsSingle ui.timer
    → ui.timer.display ≡ some el
    → Follows
        (is_planning local.phase)
        local.is_my_planning_complete
        (seconds_left now local.deadline)
        (run_timer now local (show_round local ui)).timer
unfolding run_timer show_round
run_timer-Follows now local ui v d = next_timer-Follows _ now local ui.timer v d

update-Follows_local :
    (now now_ms : ℕ) (state : StateView) {el : TimerEl} (ui : Ui)
    → IsSingle ui.timer
    → ui.timer.display ≡ some el
    → let local = local_state (keep_moves state now ui.optimistic_moves) state in
      Follows
        (is_planning local.phase)
        local.is_my_planning_complete
        (seconds_left now_ms local.deadline)
        (handle_state_update now now_ms state ui).timer
unfolding handle_state_update
update-Follows_local now now_ms state ui v d =
    let opts = keep_moves state now ui.optimistic_moves in
    let local = local_state opts state in
    let taken = take_state opts local state ui in
    subst
      (Follows (is_planning local.phase) local.is_my_planning_complete
        (seconds_left now_ms local.deadline))
      (sym (
        shown-timer local.my_remaining_units local
          (run_timer now_ms local (show_round local taken))))
      (run_timer-Follows now_ms local taken v d)

local_state-fixed :
    (opts : List Move) (state : StateView)
    → ((local_state opts state).phase ≡ state.phase)
      × ((local_state opts state).deadline ≡ state.deadline)
unfolding local_state
local_state-fixed opts state =
    let (phase, deadline, _) = apply_moves-fixed opts state in (phase, deadline)

shown_complete :
    (most : ℕ) (local : StateView) (ui : Ui)
    → (show_pending local (limit_selection most (show_counts local ui))).is_my_planning_complete
      ≡ ui.is_my_planning_complete
unfolding show_pending limit_selection show_counts update_move_button
shown_complete most local ui =
    if_ind (λ (u : Ui). u.is_my_planning_complete ≡ ui.is_my_planning_complete)
      (ltb most ui.selected_units) refl refl

pub update_complete :
    (now now_ms : ℕ) (state : StateView) (ui : Ui)
    → (handle_state_update now now_ms state ui).is_my_planning_complete
      ≡ (local_state (keep_moves state now ui.optimistic_moves) state).is_my_planning_complete
unfolding handle_state_update
update_complete now now_ms state ui =
    let opts = keep_moves state now ui.optimistic_moves in
    let local = local_state opts state in
    let drawn = run_timer now_ms local (show_round local (take_state opts local state ui)) in
    shown_complete local.my_remaining_units local drawn

-- On a page with a timer element and at most one interval, after an update in the planning phase
-- the browser runs one interval, whose handle the page has, the remaining seconds are within 2 of those to the deadline (30 without one),
-- and the element shows them; in any other phase no interval runs, and the element says that the
-- round is being resolved.
pub update-Follows :
    (now now_ms : ℕ) (state : StateView) {el : TimerEl} (ui : Ui)
    → IsSingle ui.timer
    → ui.timer.display ≡ some el
    → Follows
        (is_planning state.phase)
        (handle_state_update now now_ms state ui).is_my_planning_complete
        (seconds_left now_ms state.deadline)
        (handle_state_update now now_ms state ui).timer
update-Follows now now_ms state ui v d =
    let opts = keep_moves state now ui.optimistic_moves in
    let local = local_state opts state in
    let after = handle_state_update now now_ms state ui in
    let (phase, deadline) = local_state-fixed opts state in
    let c = local.is_my_planning_complete in
    subst
      (λ b. Follows (is_planning state.phase) b (seconds_left now_ms state.deadline) after.timer)
      (sym (update_complete now now_ms state ui))
      (subst (λ p. Follows (is_planning p) c (seconds_left now_ms state.deadline) after.timer) phase
        (subst (λ e. Follows (is_planning local.phase) c (seconds_left now_ms e) after.timer)
          deadline (update-Follows_local now now_ms state ui v d)))
