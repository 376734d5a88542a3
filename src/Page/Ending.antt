-- ===== src/Page/Ending.antt =====
-- The end of a game.
use hax_war.Base.{ℕ, ◌≡◌, refl, ap, true, Option, none, some, [], ◌++◌, if◌then◌else◌, Text, txt}
use hax_war.Protocol.{Side, Message, game_event, game_over}
use hax_war.Client.{log}
use hax_war.Client.Events.{
  receive, handle_message, handle_body, handle_game_event, event_log, event_follow_up, winner_text,
}
use hax_war.Client.Session
use hax_war.Ui.{Screen}
use hax_war.Ui.Timer.{show_on}
use hax_war.Ui.Timer.Single.{IsSingle, stop-IsStopped}
use hax_war.Ui.Timer.Countdown.{display-stop_countdown}
use hax_war.Ui.Log.{add_log}
use hax_war.Ui.Panels.{show_result, game_ended, is_own_side, handle_game_over}
use hax_war.Page.{Page, Moment, handle_effect, handle_effects, session_step, session, step}

abbrev pub ends : ℕ → ℕ → Option Side → Text → Message
ends sequence round winner reason = record {
  sequence = sequence;
  round = round;
  body = game_event (game_over winner reason);
}

-- The title of the end, as a player of a side sees it.
abbrev pub verdict : Option Side → Option Side → Text
verdict mine none = txt "🤝 무승부"
verdict mine (some winner) = if is_own_side mine winner then txt "🎉 승리!" else txt "😢 패배"

show_result-title :
    (mine winner : Option Side) (s : Screen)
    → (show_result mine winner s).gameover_title ≡ verdict mine winner
unfolding show_result
show_result-title mine none s = refl
show_result-title mine (some winner) s = refl

show_result-shown :
    (mine winner : Option Side) (s : Screen)
    → (show_result mine winner s).gameover_shown ≡ s.gameover_shown
unfolding show_result
show_result-shown mine none s = refl
show_result-shown mine (some winner) s = refl

-- What the end of a game leaves on the page.
pub record IsEnded (winner : Option Side) (time : Text) (before after : Page) : Type 0 where
  pub stopped : after.ui.timer.intervals ≡ []
  pub display : after.ui.timer.display ≡ show_on before.ui.timer.display game_ended
  pub shown : after.ui.screen.gameover_shown ≡ true
  pub title : after.ui.screen.gameover_title ≡ verdict after.ui.client.player_side winner
  pub logged : after.log ≡ add_log time (txt "🏆 게임 종료! 승자: " ++ winner_text winner) before.log

-- The message that ends a game, on a page with at most one interval: no interval runs, the timer
-- says so, the overlay shows who won from the player's side, and the log names the winner.
pub game_over-IsEnded :
    (p : Page) (m : Moment) (sequence round : ℕ) (winner : Option Side) (reason : Text)
    → IsSingle p.ui.timer
    → IsEnded winner m.time p
        (step p (session m (Session.received (ends sequence round winner reason)))).0
unfolding step session_step handle_effects handle_effect Session.step receive handle_message
    handle_body handle_game_event event_log event_follow_up log handle_game_over
game_over-IsEnded p m sequence round winner reason v =
    let mine = (receive p.ui.client (ends sequence round winner reason)).0.player_side in
    record {
      stopped = (stop-IsStopped p.ui.timer v).1;
      display = ap (λ o. show_on o game_ended) (display-stop_countdown p.ui.timer);
      shown = show_result-shown mine winner (record (p.ui.screen) { gameover_shown = true });
      title = show_result-title mine winner (record (p.ui.screen) { gameover_shown = true });
      logged = refl;
    }
