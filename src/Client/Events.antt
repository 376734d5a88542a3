-- ===== src/Client/Events.antt =====
-- `handleMessage` and `handleGameEvent` of gameClient.js. Neither changes the client.
use hax_war.Base.{ℕ, Option, none, some, List, [], ◌∷◌, ◌++◌, if◌then◌else◌, ltb, Text, txt, show}
use hax_war.Protocol.{
  Side, side_text, decision_text, NodeRef, node_value, bare, boxed, GameEvent, game_started,
  round_started, units_departed, units_arrived, encounter_occurred, encounter_resolved,
  round_resolved, game_over, other_event, Message, Body, state_update, game_event, error_message,
  pong, other_message, get_state,
}
use hax_war.Client.{
  Client, Effect, on_state_update, on_game_event, on_encounter, on_game_over, log, send,
  track_sequence,
}

-- A node as a template literal prints it: an object prints as JavaScript's default.
abbrev pub node_text : NodeRef → Text
node_text (bare n) = show n
node_text (boxed n) = txt "[object Object]"

abbrev pub winner_text : Option Side → Text
winner_text none = txt "무승부"
winner_text (some side) = side_text side

-- `message.round || payload?.roundNumber`.
abbrev pub round_or : ℕ → ℕ → ℕ
round_or round number = if ltb 0 round then round else number

unfoldable pub event_log : ℕ → GameEvent → List Effect
unfolding log
event_log round game_started = log (txt "🎮 게임 시작!")
event_log round (round_started number) =
    log (txt "📍 라운드 " ++ (show (round_or round number) ++ txt " 시작 - 계획 단계"))
event_log round (units_departed side from_node count) = log (
    txt "🚀 "
    ++ (side_text side
        ++ (txt "측 "
            ++ (show (node_value from_node) ++ (txt "번 노드에서 " ++ (show count ++ txt "기 출발"))))))
event_log round (units_arrived side destination count) = log (
    txt "✅ "
    ++ (side_text side
        ++ (txt "측 유닛 "
            ++ (show count ++ (txt "기 " ++ (show (node_value destination) ++ txt "번 노드 도착"))))))
event_log round (encounter_occurred e) =
    log (txt "⚡ 조우 발생! 간선 " ++ (node_text e.from_node ++ (txt "-" ++ node_text e.to_node)))
event_log round (encounter_resolved a b) =
    log (txt "🔨 조우 해소: A=" ++ (decision_text a ++ (txt ", B=" ++ decision_text b)))
event_log round (round_resolved r) = log (txt "🔄 라운드 " ++ (show r.completed_round ++ txt " 해소 완료"))
event_log round (game_over winner reason) = log (txt "🏆 게임 종료! 승자: " ++ winner_text winner)
event_log round other_event = []

-- What follows the log line in the case of an event.
unfoldable pub event_follow_up : Client → GameEvent → List Effect
unfolding send
event_follow_up c (encounter_occurred e) = on_encounter e ∷ []
event_follow_up c (round_resolved r) = send c get_state
event_follow_up c (game_over winner reason) = on_game_over winner ∷ []
event_follow_up c _ = []

unfoldable pub handle_game_event : Client → ℕ → GameEvent → List Effect
unfolding event_log event_follow_up
handle_game_event c round event = event_log round event ++ event_follow_up c event

-- The `switch` of `handleMessage`.
unfoldable pub handle_body : Client → Message → Body → List Effect
unfolding handle_game_event log
handle_body c message (state_update state) = on_state_update state ∷ []
handle_body c message (game_event event) =
    handle_game_event c message.round event ++ (on_game_event message ∷ [])
handle_body c message (error_message text) = log (txt "❌ 오류: " ++ text)
handle_body c message pong = []
handle_body c message other_message = []

unfoldable pub handle_message : Client → Message → List Effect
unfolding handle_body
handle_message c message = handle_body c message message.body

-- `ws.onmessage`, after `JSON.parse`.
unfoldable pub receive : Client → Message → Client × List Effect
unfolding track_sequence handle_message
receive c message = let c' = track_sequence c message in (c', handle_message c' message)
