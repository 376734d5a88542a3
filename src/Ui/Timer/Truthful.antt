-- ===== src/Ui/Timer/Truthful.antt =====
-- While an interval runs, the element shows the seconds that are left.
use hax_war.Base.{ℕ, ◌≡◌, refl, sym, ap, ◌∙◌, inl, Bool, false, Option, none, some, if_cases}
use hax_war.Base.Int.{ℤ, pos, negsuc, leb_ℤ, pred_ℤ}
use hax_war.Ui.Timer.{
  RoundTimer, TimerEl, show_on, time_display, update_timer_display, stop_countdown, start_countdown,
  tick,
}
use hax_war.Ui.Timer.Single.{IsSingle, start-IsSingle, stop-IsStopped}

-- The seconds that are left, and the element, if there is one, as it shows them.
abbrev pub Shows : Bool → RoundTimer → Type 0
Shows complete t =
    (n : ℕ) × (t.time_remaining ≡ pos n)
    × (show_on t.display (time_display complete (pos n)) ≡ t.display)

-- At most one interval runs; and while it does, the element shows the seconds that are left, none
-- of them negative.
pub record IsTruthful (complete : Bool) (t : RoundTimer) : Type 0 where
  pub single : IsSingle t
  pub shown : (h : ℕ) → t.timer_interval ≡ some h → Shows complete t

show_on-twice : (o : Option TimerEl) (e : TimerEl) → show_on (show_on o e) e ≡ show_on o e
show_on-twice none e = refl
show_on-twice (some d) e = refl

pub idle-IsTruthful :
    (c : Bool) (t : RoundTimer) → t.timer_interval ≡ none → IsSingle t → IsTruthful c t
idle-IsTruthful c t e v = record { single = v; shown = λ h e'. cc }

pub stop-IsTruthful : (c : Bool) (t : RoundTimer) → IsSingle t → IsTruthful c (stop_countdown t)
stop-IsTruthful c t v =
    let stopped = stop-IsStopped t v in idle-IsTruthful c _ stopped.0 (inl stopped)

pub display-IsTruthful :
    (c : Bool) (n : ℕ) (t : RoundTimer)
    → t.time_remaining ≡ pos n
    → IsSingle t
    → IsTruthful c (update_timer_display c t)
unfolding update_timer_display
display-IsTruthful c n t e v = record {
  single = v;
  shown = λ h e'. (
    n,
    e,
    ap (λ r. show_on (show_on t.display (time_display c r)) (time_display c (pos n))) e
        ∙ show_on-twice t.display (time_display c (pos n))
        ∙ ap (λ r. show_on t.display (time_display c r)) (sym e),
  );
}

pub start-IsTruthful :
    (c : Bool) (n : ℕ) (t : RoundTimer) → IsSingle t → IsTruthful c (start_countdown c n t)
unfolding start_countdown update_timer_display
start-IsTruthful c n t v = record {
  single = start-IsSingle c n t v;
  shown = λ h e. (n, refl, show_on-twice (stop_countdown t).display (time_display c (pos n)));
}

positive_seconds : (r : ℤ) → leb_ℤ r 0 ≡ false → (n : ℕ) × (r ≡ pos n)
positive_seconds (pos n) h = (n, refl)
positive_seconds (negsuc n) h = cc

pub tick-IsTruthful : (c : Bool) (t : RoundTimer) → IsSingle t → IsTruthful c (tick c t)
unfolding tick
tick-IsTruthful c t v =
    if_cases (IsTruthful c) (leb_ℤ (pred_ℤ t.time_remaining) 0)
      (λ over.
        let stopped = stop-IsStopped (record t { time_remaining = pred_ℤ t.time_remaining }) v in
        idle-IsTruthful c _ stopped.0 (inl stopped))
      (λ left.
        let (n, e) = positive_seconds (pred_ℤ t.time_remaining) left in
        display-IsTruthful c n (record t { time_remaining = pred_ℤ t.time_remaining }) e v)
