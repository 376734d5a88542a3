-- ===== src/Ui/Panels.antt =====
-- The panels of gameUI.js for encounters, the end of the game and the connection, and the start
-- of a match.
pub mod Matching
use hax_war.Base.{
  ℕ, Bool, true, false, Option, none, some, List, [], ◌∷◌, ◌++◌, if◌then◌else◌, Text, txt, emoji,
  show,
}
use hax_war.Protocol.{Side, side_a, side_text, side_eq, Decision, Encounter}
use hax_war.Client.{Client, Effect, send_decision, connect}
use hax_war.Client.Events.{node_text}
use hax_war.Client.Matchmaking.{begin_match, MatchResult, Promise, pending, resolved, rejected}
use hax_war.Matchmaking.Queue.{JoinQueueRequest}
use hax_war.Renderer.{initialize}
use hax_war.Ui.{Screen, Ui}
use hax_war.Ui.Timer.{TimerEl, show_on, stop_countdown}

unfoldable pub encounter_text : Encounter → Text
encounter_text e =
    txt "<p>간선: "
    ++ (node_text e.from_node
        ++ (txt "-"
            ++ (node_text e.to_node
                ++ (txt "</p><p>A측 유닛: "
                    ++ (show e.participant_a
                        ++ (txt "기</p><p>B측 유닛: " ++ (show e.participant_b ++ txt "기</p>")))))))

unfoldable pub handle_encounter : Encounter → Ui → Ui
unfolding encounter_text
handle_encounter encounter ui = record ui {
  encounter_data = some encounter;
  screen = record (ui.screen) { encounter_shown = true; encounter_info = encounter_text encounter };
}

unfoldable pub resolve_encounter : Decision → Ui → Ui × List Effect
unfolding send_decision
resolve_encounter decision ui = elim ui.encounter_data [
  | none ↦ (ui, [])
  | some encounter ↦ (
    record ui { encounter_data = none; screen = record (ui.screen) { encounter_shown = false } },
    send_decision ui.client encounter.from_node encounter.to_node decision,
  )
]

unfoldable pub game_ended : TimerEl
game_ended = record { content = emoji "⏱" ++ txt " 게임 종료"; colour = txt "#9ca3af"; urgent = false }

-- `encounter.winner === this.client.playerSide`.
abbrev pub is_own_side : Option Side → Side → Bool
is_own_side none winner = false
is_own_side (some mine) winner = side_eq winner mine

-- The title and the result; an empty winner is none, and a draw leaves the result as it was.
unfoldable pub show_result : Option Side → Option Side → Screen → Screen
show_result mine none s = record s { gameover_title = txt "🤝 무승부" }
show_result mine (some winner) s = record s {
  gameover_title = if is_own_side mine winner then txt "🎉 승리!" else txt "😢 패배";
  gameover_result = txt "승자: " ++ (side_text winner ++ txt "측");
}

unfoldable pub handle_game_over : Option Side → Ui → Ui
unfolding stop_countdown game_ended show_result
handle_game_over winner ui =
    let stopped = stop_countdown ui.timer in
    let shown = record (ui.screen) { gameover_shown = true } in
    record ui {
      timer = record stopped { display = show_on stopped.display game_ended };
      screen = show_result ui.client.player_side winner shown;
    }

unfoldable pub update_connection_status : Bool → Ui → Ui
update_connection_status connected ui = record ui {
  screen = record (ui.screen) {
    connection_status = if connected then txt "🟢 연결됨" else txt "🔴 연결 끊김";
    connection_colour = if connected then txt "#4CAF50" else txt "#f44336";
  };
}

-- `match.playerSide === 'A'`.
abbrev pub is_side_a : Side → Bool
is_side_a side_a = true
is_side_a _ = false

-- `startMatchmaking` up to the stream that `findMatch` opens, with the trimmed name and the random
-- part of a default one. An empty name returns.
unfoldable pub start_matchmaking : Text → Text → Ui → Ui × Option JoinQueueRequest
unfolding begin_match
start_matchmaking [] random ui = (ui, none)
start_matchmaking (c ∷ name) random ui =
    let (client, request) = begin_match ui.client (c ∷ name) random in
    (
      record ui {
        client = client;
        screen = record (ui.screen) { match_status = txt "매치 찾는 중..." };
      },
      some request,
    )

-- What follows the match.
unfoldable pub enter_game : MatchResult → Ui → Ui × List Effect
unfolding initialize connect
enter_game m ui =
    let (client, effects) = connect ui.client in
    (
      record ui {
        client = client;
        renderer = initialize ui.renderer (some m.player_side);
        screen = record (ui.screen) {
          login_active = false;
          game_active = true;
          my_side = if is_side_a m.player_side then txt "🔵 Player A" else txt "🔴 Player B";
        };
      },
      effects,
    )

-- How `await` of `findMatch` continues, with the client that it left.
unfoldable pub continue_match : Client × Promise → Ui → Ui × List Effect
unfolding enter_game
continue_match (c, pending) ui = (record ui { client = c }, [])
continue_match (c, resolved m) ui = enter_game m (record ui { client = c })
continue_match (c, rejected e) ui = (
  record ui { client = c; screen = record (ui.screen) { match_status = txt "매칭 실패: " ++ e } },
  [],
)
