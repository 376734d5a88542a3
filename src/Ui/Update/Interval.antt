-- ===== src/Ui/Update/Interval.antt =====
-- What an update of the state does to the round timer.
use hax_war.Base.{
  ℕ, ◌≡◌, refl, sym, subst, inl, Bool, true, false, not, ◌||◌, Option, none, some, ltb, if_ind,
  if_cases, is_some,
}
use hax_war.Base.Int.{pos}
use hax_war.Protocol.{StateView, is_planning}
use hax_war.Ui.{Ui}
use hax_war.Ui.Timer.{RoundTimer, update_timer_display}
use hax_war.Ui.Timer.Single.{stop-IsStopped}
use hax_war.Ui.Timer.Truthful.{IsTruthful, idle-IsTruthful, start-IsTruthful, display-IsTruthful}
use hax_war.Ui.Optimism.{keep_moves, local_state}
use hax_war.Ui.Update.{
  difference, seconds_left, resync, planning_timer, next_timer, take_state, show_round, run_timer,
  handle_state_update,
}
use hax_war.Ui.Update.Clockwork.{shown-timer, update_complete}

running : (fresh : Bool) (o : Option ℕ) → fresh || not (is_some o) ≡ false → (h : ℕ) × (o ≡ some h)
running true o e = cc
running false none e = cc
running false (some h) e = (h, refl)

-- Whatever the flag was with which the seconds were shown before.
planning_timer-IsTruthful :
    (fresh before complete : Bool) (n : ℕ) (t : RoundTimer)
    → IsTruthful before t
    → IsTruthful complete (planning_timer fresh complete n t)
unfolding planning_timer resync
planning_timer-IsTruthful fresh before complete n t v =
    if_cases (IsTruthful complete) (fresh || not (is_some t.timer_interval))
      (λ starts. start-IsTruthful complete n t v.single)
      (λ goes.
        let (h, e) = running fresh t.timer_interval goes in
        let (m, left, _) = v.shown h e in
        if_ind (λ (u : RoundTimer). IsTruthful complete (update_timer_display complete u))
          (ltb 2 (difference t.time_remaining n))
          (display-IsTruthful complete n (record t { time_remaining = pos n }) refl v.single)
          (display-IsTruthful complete m t left v.single))

next_timer-IsTruthful :
    (fresh before : Bool) (now : ℕ) (local : StateView) (t : RoundTimer)
    → IsTruthful before t
    → IsTruthful local.is_my_planning_complete (next_timer fresh now local t)
unfolding next_timer
next_timer-IsTruthful fresh before now local t v =
    if_ind (IsTruthful local.is_my_planning_complete) (is_planning local.phase)
      (planning_timer-IsTruthful fresh before local.is_my_planning_complete
        (seconds_left now local.deadline) t v)
      (let stopped = stop-IsStopped t v.single in
        idle-IsTruthful local.is_my_planning_complete _ stopped.0 (inl stopped))

run_timer-IsTruthful :
    (now : ℕ) (before : Bool) (local : StateView) (ui : Ui)
    → IsTruthful before ui.timer
    → IsTruthful local.is_my_planning_complete (run_timer now local (show_round local ui)).timer
unfolding run_timer show_round
run_timer-IsTruthful now before local ui v = next_timer-IsTruthful _ before now local ui.timer v

local-IsTruthful :
    (now now_ms : ℕ) (state : StateView) (ui : Ui)
    → IsTruthful ui.is_my_planning_complete ui.timer
    → IsTruthful
        (local_state (keep_moves state now ui.optimistic_moves) state).is_my_planning_complete
        (handle_state_update now now_ms state ui).timer
unfolding handle_state_update
local-IsTruthful now now_ms state ui v =
    let opts = keep_moves state now ui.optimistic_moves in
    let local = local_state opts state in
    let taken = take_state opts local state ui in
    subst (IsTruthful local.is_my_planning_complete)
      (sym (
        shown-timer local.my_remaining_units local
          (run_timer now_ms local (show_round local taken))))
      (run_timer-IsTruthful now_ms ui.is_my_planning_complete local taken v)

-- After an update the element shows the seconds that are left, with the flag of the new state.
pub update-IsTruthful :
    (now now_ms : ℕ) (state : StateView) (ui : Ui)
    → IsTruthful ui.is_my_planning_complete ui.timer
    → IsTruthful
        (handle_state_update now now_ms state ui).is_my_planning_complete
        (handle_state_update now now_ms state ui).timer
update-IsTruthful now now_ms state ui v =
    subst (λ b. IsTruthful b (handle_state_update now now_ms state ui).timer)
      (sym (update_complete now now_ms state ui)) (local-IsTruthful now now_ms state ui v)
