-- ===== src/Matchmaking/Kinds.antt =====
-- The eleven types of messages together, and their way through bytes and back.
use hax_war.Base.{◌≡◌, All}
use hax_war.Matchmaking.{Wire, IsFaithful, IsInt32}
use hax_war.Matchmaking.Queue.{
  JoinQueueRequest, join_queue_request-roundtrip, LeaveQueueRequest, leave_queue_request-roundtrip,
  LeaveQueueResponse, leave_queue_response-roundtrip, GetQueueStatusRequest,
  get_queue_status_request-roundtrip, QueueStatus, queue_status-roundtrip,
}
use hax_war.Matchmaking.Updates.{
  MatchFoundResult, match_found_result-roundtrip, MatchmakingUpdate, matchmaking_update-roundtrip,
}
use hax_war.Matchmaking.Rooms.{
  GetRoomInfoRequest, get_room_info_request-roundtrip, RoomInfo, room_info-roundtrip,
  ListActiveRoomsRequest, list_active_rooms_request-roundtrip, ListActiveRoomsResponse,
  list_active_rooms_response-roundtrip, HasInts,
}
use hax_war.Matchmaking.Binary.{
  serialize_binary_join_queue_request, deserialize_binary_join_queue_request,
  serialize_binary_leave_queue_request, deserialize_binary_leave_queue_request,
  serialize_binary_leave_queue_response, deserialize_binary_leave_queue_response,
  serialize_binary_get_queue_status_request, deserialize_binary_get_queue_status_request,
  serialize_binary_queue_status, deserialize_binary_queue_status,
  serialize_binary_match_found_result, deserialize_binary_match_found_result,
  serialize_binary_matchmaking_update, deserialize_binary_matchmaking_update,
  serialize_binary_get_room_info_request, deserialize_binary_get_room_info_request,
  serialize_binary_room_info, deserialize_binary_room_info,
  serialize_binary_list_active_rooms_request, deserialize_binary_list_active_rooms_request,
  serialize_binary_list_active_rooms_response, deserialize_binary_list_active_rooms_response,
}
use hax_war.Matchmaking.Binary.Through.{
  get_queue_status_request-through_bytes, get_room_info_request-through_bytes,
  join_queue_request-through_bytes, leave_queue_request-through_bytes,
  leave_queue_response-through_bytes, list_active_rooms_request-through_bytes,
  list_active_rooms_response-through_bytes, match_found_result-through_bytes,
  matchmaking_update-through_bytes, queue_status-through_bytes, room_info-through_bytes,
}

pub data Kind : Type 0 where
  join_queue_request : Kind
  leave_queue_request : Kind
  leave_queue_response : Kind
  get_queue_status_request : Kind
  queue_status : Kind
  match_found_result : Kind
  matchmaking_update : Kind
  get_room_info_request : Kind
  room_info : Kind
  list_active_rooms_request : Kind
  list_active_rooms_response : Kind

abbrev pub MessageOf : Kind → Type 0
MessageOf join_queue_request = JoinQueueRequest
MessageOf leave_queue_request = LeaveQueueRequest
MessageOf leave_queue_response = LeaveQueueResponse
MessageOf get_queue_status_request = GetQueueStatusRequest
MessageOf queue_status = QueueStatus
MessageOf match_found_result = MatchFoundResult
MessageOf matchmaking_update = MatchmakingUpdate
MessageOf get_room_info_request = GetRoomInfoRequest
MessageOf room_info = RoomInfo
MessageOf list_active_rooms_request = ListActiveRoomsRequest
MessageOf list_active_rooms_response = ListActiveRoomsResponse

-- The numbers of the message have 32 bits.
abbrev pub IsNarrow : (k : Kind) → MessageOf k → Type 0
IsNarrow join_queue_request m = IsInt32 m.rating
IsNarrow leave_queue_request m = Unit {0}
IsNarrow leave_queue_response m = Unit {0}
IsNarrow get_queue_status_request m = Unit {0}
IsNarrow queue_status m =
    IsInt32 m.queue_position × IsInt32 m.estimated_wait_seconds × IsInt32 m.players_in_queue
IsNarrow match_found_result m = Unit {0}
IsNarrow matchmaking_update m =
    IsInt32 m.status × IsInt32 m.queue_position × IsInt32 m.estimated_wait_seconds
IsNarrow get_room_info_request m = Unit {0}
IsNarrow room_info m = IsInt32 m.current_round × IsInt32 m.player_count
IsNarrow list_active_rooms_request m = IsInt32 m.max_results
IsNarrow list_active_rooms_response m = All HasInts m.rooms

module _ (w : Wire) where
  -- `m.serializeBinary()`.
  abbrev pub to_bytes : (k : Kind) → MessageOf k → w.Bytes
  to_bytes join_queue_request m = serialize_binary_join_queue_request w m
  to_bytes leave_queue_request m = serialize_binary_leave_queue_request w m
  to_bytes leave_queue_response m = serialize_binary_leave_queue_response w m
  to_bytes get_queue_status_request m = serialize_binary_get_queue_status_request w m
  to_bytes queue_status m = serialize_binary_queue_status w m
  to_bytes match_found_result m = serialize_binary_match_found_result w m
  to_bytes matchmaking_update m = serialize_binary_matchmaking_update w m
  to_bytes get_room_info_request m = serialize_binary_get_room_info_request w m
  to_bytes room_info m = serialize_binary_room_info w m
  to_bytes list_active_rooms_request m = serialize_binary_list_active_rooms_request w m
  to_bytes list_active_rooms_response m = serialize_binary_list_active_rooms_response w m

  -- `deserializeBinary(bytes)` of the type.
  abbrev pub of_bytes : (k : Kind) → w.Bytes → MessageOf k
  of_bytes join_queue_request bytes = deserialize_binary_join_queue_request w bytes
  of_bytes leave_queue_request bytes = deserialize_binary_leave_queue_request w bytes
  of_bytes leave_queue_response bytes = deserialize_binary_leave_queue_response w bytes
  of_bytes get_queue_status_request bytes = deserialize_binary_get_queue_status_request w bytes
  of_bytes queue_status bytes = deserialize_binary_queue_status w bytes
  of_bytes match_found_result bytes = deserialize_binary_match_found_result w bytes
  of_bytes matchmaking_update bytes = deserialize_binary_matchmaking_update w bytes
  of_bytes get_room_info_request bytes = deserialize_binary_get_room_info_request w bytes
  of_bytes room_info bytes = deserialize_binary_room_info w bytes
  of_bytes list_active_rooms_request bytes = deserialize_binary_list_active_rooms_request w bytes
  of_bytes list_active_rooms_response bytes = deserialize_binary_list_active_rooms_response w bytes

-- With a library that reads back what it wrote, a message of each of the eleven types whose numbers
-- have 32 bits is read back from its bytes as it was: with its match result, if it has one, and with
-- all its rooms in their order.
pub bytes-roundtrip :
    {w : Wire} (ok : IsFaithful w) (k : Kind) (m : MessageOf k)
    → IsNarrow k m
    → of_bytes w k (to_bytes w k m) ≡ m
bytes-roundtrip ok join_queue_request m h =
    join_queue_request-through_bytes ok (join_queue_request-roundtrip ok m h)
bytes-roundtrip ok leave_queue_request m h =
    leave_queue_request-through_bytes ok (leave_queue_request-roundtrip ok m)
bytes-roundtrip ok leave_queue_response m h =
    leave_queue_response-through_bytes ok (leave_queue_response-roundtrip ok m)
bytes-roundtrip ok get_queue_status_request m h =
    get_queue_status_request-through_bytes ok (get_queue_status_request-roundtrip ok m)
bytes-roundtrip ok queue_status m h =
    queue_status-through_bytes ok (queue_status-roundtrip ok m h.0 h.1 h.2)
bytes-roundtrip ok match_found_result m h =
    match_found_result-through_bytes ok (match_found_result-roundtrip ok m)
bytes-roundtrip ok matchmaking_update m h =
    matchmaking_update-through_bytes ok (matchmaking_update-roundtrip ok m h.0 h.1 h.2)
bytes-roundtrip ok get_room_info_request m h =
    get_room_info_request-through_bytes ok (get_room_info_request-roundtrip ok m)
bytes-roundtrip ok room_info m h = room_info-through_bytes ok (room_info-roundtrip ok m h.0 h.1)
bytes-roundtrip ok list_active_rooms_request m h =
    list_active_rooms_request-through_bytes ok (list_active_rooms_request-roundtrip ok m h)
bytes-roundtrip ok list_active_rooms_response m h =
    list_active_rooms_response-through_bytes ok (list_active_rooms_response-roundtrip ok m h)
