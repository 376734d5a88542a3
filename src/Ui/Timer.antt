-- ===== src/Ui/Timer.antt =====
-- The round timer of gameUI.js: `startCountdown`, `stopCountdown` and `updateTimerDisplay`, with
-- the browser's intervals.
pub mod Single
pub mod Countdown
pub mod Truthful
use hax_war.Base.{
  ℕ, suc, Bool, true, false, not, Option, none, some, List, [], ◌∷◌, ◌++◌, ◌==◌, filter,
  if◌then◌else◌, Text, txt, emoji, show_ℤ,
}
use hax_war.Base.Int.{ℤ, pos, pred_ℤ, leb_ℤ}

-- The element `timer-display`.
pub record TimerEl : Type 0 where
  pub content : Text
  pub colour : Text
  pub urgent : Bool

-- `timerInterval` and `timeRemaining`, the element if the page has it, and the intervals that
-- the browser runs.
pub record RoundTimer : Type 0 where
  pub timer_interval : Option ℕ
  pub time_remaining : ℤ
  pub display : Option TimerEl
  pub intervals : List ℕ
  pub next_interval : ℕ

unfoldable pub new_timer : Option TimerEl → RoundTimer
new_timer el = record {
  timer_interval = none;
  time_remaining = pos 0;
  display = el;
  intervals = [];
  next_interval = 1;
}

-- `if (timerEl) { … }` for a display that is written whole.
abbrev pub show_on : Option TimerEl → TimerEl → Option TimerEl
show_on none el = none
show_on (some _) el = some el

unfoldable pub time_display : Bool → ℤ → TimerEl
time_display complete n =
    if complete
    then record {
      content = emoji "⏱" ++ (txt " " ++ (show_ℤ n ++ txt "초 (대기 중)"));
      colour = txt "#34d399";
      urgent = false;
    }
    else (if leb_ℤ n 5
        then record {
          content = emoji "⏱" ++ (txt " " ++ (show_ℤ n ++ txt "초 남음 - 서두르세요!"));
          colour = txt "#ef4444";
          urgent = true;
        }
        else record {
          content = emoji "⏱" ++ (txt " " ++ (show_ℤ n ++ txt "초 남음"));
          colour = txt "#fbbf24";
          urgent = false;
        })

unfoldable pub time_out : TimerEl
time_out = record {
  content = emoji "⏱" ++ txt " 시간 초과 (대기 중)";
  colour = txt "#f87171";
  urgent = false;
}

unfoldable pub update_timer_display : Bool → RoundTimer → RoundTimer
update_timer_display complete t = record t {
  display = show_on t.display (time_display complete t.time_remaining);
}

unfoldable pub stop_countdown : RoundTimer → RoundTimer
stop_countdown t = elim t.timer_interval [
  | none ↦ t
  | some h ↦ record t { intervals = filter (λ i. not (i == h)) t.intervals; timer_interval = none }
]

unfoldable pub start_countdown : Bool → ℕ → RoundTimer → RoundTimer
unfolding update_timer_display stop_countdown
start_countdown complete seconds t =
    let shown =
      update_timer_display complete (record (stop_countdown t) { time_remaining = pos seconds }) in
    record shown {
      timer_interval = some shown.next_interval;
      intervals = shown.next_interval ∷ shown.intervals;
      next_interval = suc shown.next_interval;
    }

-- The callback of the interval, each second.
unfoldable pub tick : Bool → RoundTimer → RoundTimer
unfolding update_timer_display stop_countdown
tick complete t =
    let t' = record t { time_remaining = pred_ℤ t.time_remaining } in
    if leb_ℤ t'.time_remaining 0
    then record (stop_countdown t') { display = show_on t.display time_out }
    else update_timer_display complete t'
