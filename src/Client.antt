-- ===== src/Client.antt =====
-- Class `GameClient` of gameClient.js: the WebSocket connection with its reconnect timer, the
-- sequence numbers, and the commands. A method returns the new client and what it did, in order:
-- output to the socket and calls of the callbacks, all of which the user interface has set.
pub mod Sent
pub mod Events
pub mod Matchmaking
pub mod Stream
pub mod Statuses
pub mod Session
mod Tests
use hax_war.Base.{
  ℕ, suc, Bool, true, false, not, Option, none, some, List, [], ◌∷◌, ◌++◌, filter, ◌==◌,
  if◌then◌else◌, ltb, max, Text, txt, show,
}
use hax_war.Protocol.{
  StateView, Side, side_text, Decision, NodeRef, Encounter, Message, Command, get_state,
  reconnect_sync, move_units, encounter_decision,
}

-- `WebSocket.readyState`.
pub data ReadyState : Type 0 where
  connecting opened closing closed : ReadyState

-- The fields of `GameClient`, and the part of the browser that its methods act on: the page's
-- host, the sockets that `new WebSocket` made (the newest first, which is `this.ws`), the
-- timeouts that are pending, and the next timeout's handle.
pub record Client : Type 0 where
  pub host : Text
  pub player_id : Text
  pub player_side : Option Side
  pub room_id : Text
  pub sockets : List ReadyState
  pub last_seen_sequence : ℕ
  pub reconnect_timeout : Option ℕ
  pub is_closed_intentionally : Bool
  pub timeouts : List ℕ
  pub next_timeout : ℕ

pub data Effect : Type 0 where
  console_log : Text → Effect
  on_log : Text → Effect
  on_connection_change : Bool → Effect
  on_state_update : StateView → Effect
  on_game_event : Message → Effect
  on_encounter : Encounter → Effect
  on_game_over : Option Side → Effect
  open_socket : (url : Text) → Effect
  sent : Command → Effect
  close_socket : Effect
  timeout_set : (handle delay : ℕ) → Effect

-- The constructor, on a page of the given host.
unfoldable pub new_client : Text → Client
new_client host = record {
  host = host;
  player_id = [];
  player_side = none;
  room_id = [];
  sockets = [];
  last_seen_sequence = 0;
  reconnect_timeout = none;
  is_closed_intentionally = false;
  timeouts = [];
  next_timeout = 1;
}

unfoldable pub log : Text → List Effect
log message = console_log message ∷ on_log message ∷ []

-- `this.ws && this.ws.readyState === WebSocket.OPEN`.
abbrev pub is_open : List ReadyState → Bool
is_open (opened ∷ rest) = true
is_open _ = false

unfoldable pub send : Client → Command → List Effect
send c message = if is_open c.sockets then sent message ∷ [] else []

-- `if (this.reconnectTimeout) { clearTimeout(…); this.reconnectTimeout = null; }`.
unfoldable pub clear_reconnect : Client → Client
clear_reconnect c = elim c.reconnect_timeout [
  | none ↦ c
  | some handle ↦ record c {
    timeouts = filter (λ t. not (t == handle)) c.timeouts;
    reconnect_timeout = none;
  }
]

abbrev pub player_side_text : Option Side → Text
player_side_text none = txt "null"
player_side_text (some s) = side_text s

unfoldable pub ws_url : Client → Text
ws_url c =
    txt "ws://"
    ++ (c.host ++ (txt "/ws/game/" ++ (c.room_id ++ (txt "/" ++ player_side_text c.player_side))))

unfoldable pub connect : Client → Client × List Effect
unfolding clear_reconnect
connect c =
    let cleared = clear_reconnect c in
    (
      record cleared { is_closed_intentionally = false; sockets = connecting ∷ cleared.sockets },
      open_socket (ws_url c) ∷ [],
    )

-- `ws.onopen`.
unfoldable pub handle_open : Client → List Effect
unfolding log send
handle_open c =
    log (txt "서버 연결됨")
    ++ (on_connection_change true
        ∷ (if ltb 0 c.last_seen_sequence
            then log (txt "누락된 이벤트 동기화 요청 (마지막 시퀀스: " ++ (show c.last_seen_sequence ++ txt ")"))
              ++ send c (reconnect_sync c.last_seen_sequence)
            else send c get_state))

-- `ws.onclose`.
unfoldable pub handle_close : Client → Client × List Effect
unfolding log
handle_close c =
    let told = log (txt "서버 연결 끊김") ++ (on_connection_change false ∷ []) in
    if c.is_closed_intentionally then (c, told) else (
      record c {
        reconnect_timeout = some c.next_timeout;
        timeouts = c.next_timeout ∷ c.timeouts;
        next_timeout = suc c.next_timeout;
      },
      told ++ (timeout_set c.next_timeout 3000 ∷ []),
    )

-- `ws.onerror`.
unfoldable pub handle_error : Text → List Effect
unfolding log
handle_error message = log (txt "연결 오류: " ++ message)

-- The callback of the reconnect timeout.
unfoldable pub reconnect : Client → Client × List Effect
unfolding log connect
reconnect c = let (c', effects) = connect c in (c', log (txt "서버 재연결 시도 중...") ++ effects)

abbrev pub close_ws : ReadyState → ReadyState
close_ws closed = closed
close_ws _ = closing

-- `if (this.ws) this.ws.close()`.
unfoldable pub close_current : Client → List ReadyState → Client × List Effect
close_current c [] = (c, [])
close_current c (ws ∷ rest) = (record c { sockets = close_ws ws ∷ rest }, close_socket ∷ [])

unfoldable pub disconnect : Client → Client × List Effect
unfolding clear_reconnect close_current
disconnect c =
    let cleared = clear_reconnect (record c { is_closed_intentionally = true }) in
    close_current cleared cleared.sockets

-- The first part of `ws.onmessage`.
unfoldable pub track_sequence : Client → Message → Client
track_sequence c message =
    if ltb 0 message.sequence
    then record c { last_seen_sequence = max c.last_seen_sequence message.sequence }
    else c

-- The methods `moveUnits`, `resolveEncounter` and `getState`.
unfoldable pub send_move : Client → ℕ → ℕ → ℕ → List Effect
unfolding send
send_move c from_node to_node count = send c (move_units from_node to_node count)

unfoldable pub send_decision : Client → NodeRef → NodeRef → Decision → List Effect
unfolding send
send_decision c from_node to_node decision = send c (encounter_decision from_node to_node decision)

unfoldable pub request_state : Client → List Effect
unfolding send
request_state c = send c get_state
