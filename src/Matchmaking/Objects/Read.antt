-- ===== src/Matchmaking/Objects/Read.antt =====
-- A message is read back from its object by the names of the properties.
use hax_war.Base.{Bool, false, Option, none, some, List, [], ◌∷◌, if◌then◌else◌, Text, txt, text_eq}
use hax_war.Base.Int.{ℤ, pos}
use hax_war.Matchmaking.Objects.{
  Value, Items, Fields, no_items, item, no_fields, field, undefined, text, number, boolean, array,
  object,
}
use hax_war.Matchmaking.Queue.{
  JoinQueueRequest, LeaveQueueRequest, LeaveQueueResponse, GetQueueStatusRequest, QueueStatus,
}
use hax_war.Matchmaking.Updates.{MatchFoundResult, MatchmakingUpdate}
use hax_war.Matchmaking.Rooms.{
  GetRoomInfoRequest, RoomInfo, ListActiveRoomsRequest, ListActiveRoomsResponse,
}

abbrev pub get : Text → Fields → Value
get key no_fields = undefined
get key (field k v fs) = if text_eq k key then v else get key fs

abbrev pub property : Text → Value → Value
property key (object fs) = get key fs
property key _ = undefined

abbrev pub text_of : Value → Text
text_of (text t) = t
text_of _ = []

abbrev pub number_of : Value → ℤ
number_of (number n) = n
number_of _ = pos 0

abbrev pub boolean_of : Value → Bool
boolean_of (boolean b) = b
boolean_of _ = false

abbrev pub read_join_queue_request : Value → JoinQueueRequest
read_join_queue_request v = record {
  player_id = text_of (property (txt "playerId") v);
  rating = number_of (property (txt "rating") v);
}

abbrev pub read_leave_queue_request : Value → LeaveQueueRequest
read_leave_queue_request v = record { player_id = text_of (property (txt "playerId") v) }

abbrev pub read_leave_queue_response : Value → LeaveQueueResponse
read_leave_queue_response v = record { success = boolean_of (property (txt "success") v) }

abbrev pub read_get_queue_status_request : Value → GetQueueStatusRequest
read_get_queue_status_request v = record { player_id = text_of (property (txt "playerId") v) }

abbrev pub read_queue_status : Value → QueueStatus
read_queue_status v = record {
  is_in_queue = boolean_of (property (txt "isInQueue") v);
  queue_position = number_of (property (txt "queuePosition") v);
  estimated_wait_seconds = number_of (property (txt "estimatedWaitSeconds") v);
  players_in_queue = number_of (property (txt "playersInQueue") v);
}

abbrev pub read_match_found_result : Value → MatchFoundResult
read_match_found_result v = record {
  room_id = text_of (property (txt "roomId") v);
  player_side = text_of (property (txt "playerSide") v);
  ws_endpoint = text_of (property (txt "wsEndpoint") v);
  opponent_id = text_of (property (txt "opponentId") v);
}

abbrev pub read_match_result : Value → Option MatchFoundResult
read_match_result undefined = none
read_match_result v = some (read_match_found_result v)

abbrev pub read_matchmaking_update : Value → MatchmakingUpdate
read_matchmaking_update v = record {
  status = number_of (property (txt "status") v);
  match_result = read_match_result (property (txt "matchResult") v);
  queue_position = number_of (property (txt "queuePosition") v);
  estimated_wait_seconds = number_of (property (txt "estimatedWaitSeconds") v);
}

abbrev pub read_get_room_info_request : Value → GetRoomInfoRequest
read_get_room_info_request v = record { room_id = text_of (property (txt "roomId") v) }

abbrev pub read_room_info : Value → RoomInfo
read_room_info v = record {
  room_id = text_of (property (txt "roomId") v);
  phase = text_of (property (txt "phase") v);
  current_round = number_of (property (txt "currentRound") v);
  player_count = number_of (property (txt "playerCount") v);
  created_at = text_of (property (txt "createdAt") v);
}

abbrev pub read_list_active_rooms_request : Value → ListActiveRoomsRequest
read_list_active_rooms_request v = record {
  max_results = number_of (property (txt "maxResults") v);
}

abbrev pub read_rooms : Items → List RoomInfo
read_rooms no_items = []
read_rooms (item v vs) = read_room_info v ∷ read_rooms vs

abbrev pub rooms_of : Value → List RoomInfo
rooms_of (array vs) = read_rooms vs
rooms_of _ = []

abbrev pub read_list_active_rooms_response : Value → ListActiveRoomsResponse
read_list_active_rooms_response v = record { rooms = rooms_of (property (txt "roomsList") v) }
