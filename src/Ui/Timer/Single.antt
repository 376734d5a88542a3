-- ===== src/Ui/Timer/Single.antt =====
-- At most one interval runs, and the timer knows its handle.
use hax_war.Base.{
  ℕ, ◌≡◌, refl, ap, ◌⊎◌, inl, inr, Bool, Option, none, some, List, [], ◌∷◌, ◌==◌, any,
  if◌then◌else◌, if_ind, arith,
}
use hax_war.Base.Int.{leb_ℤ, pred_ℤ}
use hax_war.Ui.Timer.{
  RoundTimer, TimerEl, new_timer, update_timer_display, stop_countdown, start_countdown, tick,
}

abbrev pub IsSingle : RoundTimer → Type 0
IsSingle t =
    ((t.timer_interval ≡ none) × (t.intervals ≡ []))
    ⊎ ((h : ℕ) × (t.timer_interval ≡ some h) × (t.intervals ≡ h ∷ []))

pub data Event : Type 0 where
  starts : Bool → ℕ → Event
  stops : Event
  ticks : Bool → ℕ → Event
  displays : Bool → Event

-- An interval calls its callback only while the browser runs it.
abbrev pub step : RoundTimer → Event → RoundTimer
step t (starts complete seconds) = start_countdown complete seconds t
step t stops = stop_countdown t
step t (ticks complete h) = if any (λ i. i == h) t.intervals then tick complete t else t
step t (displays complete) = update_timer_display complete t

abbrev pub run : RoundTimer → List Event → RoundTimer
run t [] = t
run t (e ∷ es) = run (step t e) es

-- `stop_countdown` stops the interval that runs.
pub stop-IsStopped :
    (t : RoundTimer)
    → IsSingle t
    → ((stop_countdown t).timer_interval ≡ none) × ((stop_countdown t).intervals ≡ [])
unfolding stop_countdown
stop-IsStopped t v = ground arith

pub start-IsSingle :
    (c : Bool) (n : ℕ) (t : RoundTimer) → IsSingle t → IsSingle (start_countdown c n t)
unfolding start_countdown update_timer_display
start-IsSingle c n t v = inr (
  (stop_countdown t).next_interval,
  refl,
  ap (◌∷◌ (stop_countdown t).next_interval) (stop-IsStopped t v).1,
)

pub tick-IsSingle : (c : Bool) (t : RoundTimer) → IsSingle t → IsSingle (tick c t)
unfolding tick
tick-IsSingle c t v =
    if_ind IsSingle (leb_ℤ (pred_ℤ t.time_remaining) 0) (inl (stop-IsStopped _ v)) v

step-IsSingle : (t : RoundTimer) (e : Event) → IsSingle t → IsSingle (step t e)
unfolding update_timer_display
step-IsSingle t (starts c n) v = start-IsSingle c n t v
step-IsSingle t stops v = inl (stop-IsStopped t v)
step-IsSingle t (ticks c h) v =
    if_ind IsSingle (any (λ i. i == h) t.intervals) (tick-IsSingle c t v) v
step-IsSingle t (displays c) v = v

run-IsSingle_of : (t : RoundTimer) (es : List Event) → IsSingle t → IsSingle (run t es)
run-IsSingle_of t [] v = v
run-IsSingle_of t (e ∷ es) v = run-IsSingle_of (step t e) es (step-IsSingle t e v)

-- Over any history of starts, stops, displays and callbacks of intervals that still run, at most
-- one interval runs, and `timer_interval` holds its handle; it is null if none runs.
pub run-IsSingle_timer : (el : Option TimerEl) (es : List Event) → IsSingle (run (new_timer el) es)
unfolding new_timer
run-IsSingle_timer el es = run-IsSingle_of (new_timer el) es (inl (refl, refl))
