-- ===== src/Matchmaking/Binary.antt =====
-- The messages as bytes: `serializeBinary` and `deserializeBinary`, around what writes to a writer
-- and reads from a reader.
pub mod Through
use hax_war.Base.{ℕ, ◌≡◌, ◌∙◌, ap, List}
use hax_war.Matchmaking.{Wire, IsFaithful}
use hax_war.Matchmaking.Queue.{
  JoinQueueRequest, serialize_join_queue_request, deserialize_join_queue_request, LeaveQueueRequest,
  serialize_leave_queue_request, deserialize_leave_queue_request, LeaveQueueResponse,
  serialize_leave_queue_response, deserialize_leave_queue_response, GetQueueStatusRequest,
  serialize_get_queue_status_request, deserialize_get_queue_status_request, QueueStatus,
  serialize_queue_status, deserialize_queue_status,
}
use hax_war.Matchmaking.Updates.{
  MatchFoundResult, serialize_match_found_result, deserialize_match_found_result, MatchmakingUpdate,
  serialize_matchmaking_update, deserialize_matchmaking_update,
}
use hax_war.Matchmaking.Rooms.{
  GetRoomInfoRequest, serialize_get_room_info_request, deserialize_get_room_info_request, RoomInfo,
  serialize_room_info, deserialize_room_info, ListActiveRoomsRequest,
  serialize_list_active_rooms_request, deserialize_list_active_rooms_request,
  ListActiveRoomsResponse, serialize_list_active_rooms_response,
  deserialize_list_active_rooms_response,
}

module _ (w : Wire) where
  unfoldable pub serialize_binary_join_queue_request : JoinQueueRequest → w.Bytes
  unfolding serialize_join_queue_request
  serialize_binary_join_queue_request m = w.result_buffer (serialize_join_queue_request w m)

  unfoldable pub deserialize_binary_join_queue_request : w.Bytes → JoinQueueRequest
  unfolding deserialize_join_queue_request
  deserialize_binary_join_queue_request bytes =
      deserialize_join_queue_request w (w.new_reader bytes)

  unfoldable pub serialize_binary_leave_queue_request : LeaveQueueRequest → w.Bytes
  unfolding serialize_leave_queue_request
  serialize_binary_leave_queue_request m = w.result_buffer (serialize_leave_queue_request w m)

  unfoldable pub deserialize_binary_leave_queue_request : w.Bytes → LeaveQueueRequest
  unfolding deserialize_leave_queue_request
  deserialize_binary_leave_queue_request bytes =
      deserialize_leave_queue_request w (w.new_reader bytes)

  unfoldable pub serialize_binary_leave_queue_response : LeaveQueueResponse → w.Bytes
  unfolding serialize_leave_queue_response
  serialize_binary_leave_queue_response m = w.result_buffer (serialize_leave_queue_response w m)

  unfoldable pub deserialize_binary_leave_queue_response : w.Bytes → LeaveQueueResponse
  unfolding deserialize_leave_queue_response
  deserialize_binary_leave_queue_response bytes =
      deserialize_leave_queue_response w (w.new_reader bytes)

  unfoldable pub serialize_binary_get_queue_status_request : GetQueueStatusRequest → w.Bytes
  unfolding serialize_get_queue_status_request
  serialize_binary_get_queue_status_request m =
      w.result_buffer (serialize_get_queue_status_request w m)

  unfoldable pub deserialize_binary_get_queue_status_request : w.Bytes → GetQueueStatusRequest
  unfolding deserialize_get_queue_status_request
  deserialize_binary_get_queue_status_request bytes =
      deserialize_get_queue_status_request w (w.new_reader bytes)

  unfoldable pub serialize_binary_queue_status : QueueStatus → w.Bytes
  unfolding serialize_queue_status
  serialize_binary_queue_status m = w.result_buffer (serialize_queue_status w m)

  unfoldable pub deserialize_binary_queue_status : w.Bytes → QueueStatus
  unfolding deserialize_queue_status
  deserialize_binary_queue_status bytes = deserialize_queue_status w (w.new_reader bytes)

  unfoldable pub serialize_binary_match_found_result : MatchFoundResult → w.Bytes
  unfolding serialize_match_found_result
  serialize_binary_match_found_result m = w.result_buffer (serialize_match_found_result w m)

  unfoldable pub deserialize_binary_match_found_result : w.Bytes → MatchFoundResult
  unfolding deserialize_match_found_result
  deserialize_binary_match_found_result bytes =
      deserialize_match_found_result w (w.new_reader bytes)

  unfoldable pub serialize_binary_matchmaking_update : MatchmakingUpdate → w.Bytes
  unfolding serialize_matchmaking_update
  serialize_binary_matchmaking_update m = w.result_buffer (serialize_matchmaking_update w m)

  unfoldable pub deserialize_binary_matchmaking_update : w.Bytes → MatchmakingUpdate
  unfolding deserialize_matchmaking_update
  deserialize_binary_matchmaking_update bytes =
      deserialize_matchmaking_update w (w.new_reader bytes)

  unfoldable pub serialize_binary_get_room_info_request : GetRoomInfoRequest → w.Bytes
  unfolding serialize_get_room_info_request
  serialize_binary_get_room_info_request m = w.result_buffer (serialize_get_room_info_request w m)

  unfoldable pub deserialize_binary_get_room_info_request : w.Bytes → GetRoomInfoRequest
  unfolding deserialize_get_room_info_request
  deserialize_binary_get_room_info_request bytes =
      deserialize_get_room_info_request w (w.new_reader bytes)

  unfoldable pub serialize_binary_room_info : RoomInfo → w.Bytes
  unfolding serialize_room_info
  serialize_binary_room_info m = w.result_buffer (serialize_room_info w m)

  unfoldable pub deserialize_binary_room_info : w.Bytes → RoomInfo
  unfolding deserialize_room_info
  deserialize_binary_room_info bytes = deserialize_room_info w (w.new_reader bytes)

  unfoldable pub serialize_binary_list_active_rooms_request : ListActiveRoomsRequest → w.Bytes
  unfolding serialize_list_active_rooms_request
  serialize_binary_list_active_rooms_request m =
      w.result_buffer (serialize_list_active_rooms_request w m)

  unfoldable pub deserialize_binary_list_active_rooms_request : w.Bytes → ListActiveRoomsRequest
  unfolding deserialize_list_active_rooms_request
  deserialize_binary_list_active_rooms_request bytes =
      deserialize_list_active_rooms_request w (w.new_reader bytes)

  unfoldable pub serialize_binary_list_active_rooms_response : ListActiveRoomsResponse → w.Bytes
  unfolding serialize_list_active_rooms_response
  serialize_binary_list_active_rooms_response m =
      w.result_buffer (serialize_list_active_rooms_response w m)

  unfoldable pub deserialize_binary_list_active_rooms_response : w.Bytes → ListActiveRoomsResponse
  unfolding deserialize_list_active_rooms_response
  deserialize_binary_list_active_rooms_response bytes =
      deserialize_list_active_rooms_response w (w.new_reader bytes)
