-- ===== src/Ui/Timer/Countdown.antt =====
-- A countdown that nothing interrupts.
use hax_war.Base.{
  ℕ, zero, suc, ◌-◌, ◌<◌, ◌≡◌, refl, ap, ◌∙◌, subst, Bool, none, some, [], ◌∷◌, arith,
}
use hax_war.Base.Int.{pos}
use hax_war.Ui.Timer.{
  RoundTimer, TimerEl, time_display, time_out, show_on, update_timer_display, stop_countdown,
  start_countdown, tick,
}
use hax_war.Ui.Timer.Single.{IsSingle, stop-IsStopped}

-- So many callbacks of the interval.
pub ticks : Bool → ℕ → RoundTimer → RoundTimer
ticks complete zero t = t
ticks complete (suc k) t = ticks complete k (tick complete t)

-- With m seconds left the interval runs and the display shows them.
pub record IsRunning (complete : Bool) (m h : ℕ) (t : RoundTimer) : Type 0 where
  pub left : t.time_remaining ≡ pos m
  pub shown : t.display ≡ some (time_display complete (pos m))
  pub handle : t.timer_interval ≡ some h
  pub alone : t.intervals ≡ h ∷ []

-- The time is up: no interval runs.
pub record IsOver (t : RoundTimer) : Type 0 where
  pub shown : t.display ≡ some time_out
  pub handle : t.timer_interval ≡ none
  pub stopped : t.intervals ≡ []

pub display-stop_countdown : (t : RoundTimer) → (stop_countdown t).display ≡ t.display
unfolding stop_countdown
display-stop_countdown t = ground arith

start-IsRunning :
    (c : Bool) (n : ℕ) (t : RoundTimer) {el : TimerEl}
    → IsSingle t
    → t.display ≡ some el
    → IsRunning c n (stop_countdown t).next_interval (start_countdown c n t)
unfolding start_countdown update_timer_display
start-IsRunning c n t v d = record {
  left = refl;
  shown = ap (λ o. show_on o (time_display c (pos n))) (display-stop_countdown t ∙ d);
  handle = refl;
  alone = ap (◌∷◌ (stop_countdown t).next_interval) (stop-IsStopped t v).1;
}

tick-IsRunning :
    (c : Bool) (m h : ℕ) (t : RoundTimer)
    → IsRunning c (suc (suc m)) h t
    → IsRunning c (suc m) h (tick c t)
unfolding tick update_timer_display
tick-IsRunning c m h t v = record {
  left = ground arith;
  shown = ground arith;
  handle = ground arith;
  alone = ground arith;
}

tick-IsOver : (c : Bool) (h : ℕ) (t : RoundTimer) → IsRunning c 1 h t → IsOver (tick c t)
unfolding tick stop_countdown
tick-IsOver c h t v = record { shown = ground arith; handle = ground arith; stopped = ground arith }

ticks-IsRunning :
    (c : Bool) (k n h : ℕ) (t : RoundTimer)
    → k < n
    → IsRunning c n h t
    → IsRunning c (n - k) h (ticks c k t)
unfolding ticks
ticks-IsRunning c zero n h t lt v = subst (λ m. IsRunning c m h t) (omega arith) v
ticks-IsRunning c (suc k) zero h t lt v = absurd (omega arith)
ticks-IsRunning c (suc k) (suc zero) h t lt v = absurd (omega arith)
ticks-IsRunning c (suc k) (suc (suc n)) h t lt v =
    subst (λ m. IsRunning c m h (ticks c k (tick c t))) (omega arith)
      (ticks-IsRunning c k (suc n) h (tick c t) (omega arith) (tick-IsRunning c n h t v))

ticks-IsOver :
    (c : Bool) (n h : ℕ) (t : RoundTimer) → IsRunning c (suc n) h t → IsOver (ticks c (suc n) t)
unfolding ticks
ticks-IsOver c zero h t v = tick-IsOver c h t v
ticks-IsOver c (suc n) h t v = ticks-IsOver c n h (tick c t) (tick-IsRunning c n h t v)

-- A countdown from n > 0 on a page with a timer element, with at most one interval running before:
-- after k < n callbacks one interval runs and the display shows n - k seconds; after n callbacks
-- no interval runs and the display says that the time is up.
pub countdown_lem :
    (c : Bool) (n k : ℕ) (t : RoundTimer) {el : TimerEl}
    → IsSingle t
    → t.display ≡ some el
    → 0 < n
    → (k < n
        → IsRunning c (n - k) (stop_countdown t).next_interval (ticks c k (start_countdown c n t)))
      × IsOver (ticks c n (start_countdown c n t))
countdown_lem c zero k t v d pos_n = absurd (omega arith)
countdown_lem c (suc n) k t v d pos_n = (
  λ lt. ticks-IsRunning c k (suc n) _ _ lt (start-IsRunning c (suc n) t v d),
  ticks-IsOver c n _ _ (start-IsRunning c (suc n) t v d),
)
