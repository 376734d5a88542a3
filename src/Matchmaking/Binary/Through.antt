-- ===== src/Matchmaking/Binary/Through.antt =====
-- Messages that are read back from their fields are read back from their bytes.
use hax_war.Base.{ℕ, ◌≡◌, ◌∙◌, ap, List}
use hax_war.Matchmaking.{Wire, IsFaithful}
use hax_war.Matchmaking.Queue.{
  JoinQueueRequest, serialize_join_queue_request, deserialize_join_queue_request, LeaveQueueRequest,
  serialize_leave_queue_request, deserialize_leave_queue_request, LeaveQueueResponse,
  serialize_leave_queue_response, deserialize_leave_queue_response, GetQueueStatusRequest,
  serialize_get_queue_status_request, deserialize_get_queue_status_request, QueueStatus,
  serialize_queue_status, deserialize_queue_status,
}
use hax_war.Matchmaking.Updates.{
  MatchFoundResult, serialize_match_found_result, deserialize_match_found_result, MatchmakingUpdate,
  serialize_matchmaking_update, deserialize_matchmaking_update,
}
use hax_war.Matchmaking.Rooms.{
  GetRoomInfoRequest, serialize_get_room_info_request, deserialize_get_room_info_request, RoomInfo,
  serialize_room_info, deserialize_room_info, ListActiveRoomsRequest,
  serialize_list_active_rooms_request, deserialize_list_active_rooms_request,
  ListActiveRoomsResponse, serialize_list_active_rooms_response,
  deserialize_list_active_rooms_response,
}
use hax_war.Matchmaking.Binary.{
  serialize_binary_join_queue_request, deserialize_binary_join_queue_request,
  serialize_binary_leave_queue_request, deserialize_binary_leave_queue_request,
  serialize_binary_leave_queue_response, deserialize_binary_leave_queue_response,
  serialize_binary_get_queue_status_request, deserialize_binary_get_queue_status_request,
  serialize_binary_queue_status, deserialize_binary_queue_status,
  serialize_binary_match_found_result, deserialize_binary_match_found_result,
  serialize_binary_matchmaking_update, deserialize_binary_matchmaking_update,
  serialize_binary_get_room_info_request, deserialize_binary_get_room_info_request,
  serialize_binary_room_info, deserialize_binary_room_info,
  serialize_binary_list_active_rooms_request, deserialize_binary_list_active_rooms_request,
  serialize_binary_list_active_rooms_response, deserialize_binary_list_active_rooms_response,
}

module _ {w : Wire} (ok : IsFaithful w) where
  -- A message that is read back from its fields is read back from its bytes.
  through_bytes :
      {M : Type 0} (write : M → List (ℕ × w.Raw)) (read : List (ℕ × w.Raw) → M) {m : M}
      → read (write m) ≡ m
      → read (w.new_reader (w.result_buffer (write m))) ≡ m
  through_bytes write read {m} h = ap read (ok.buffer (write m)) ∙ h

  pub join_queue_request-through_bytes :
      {m : JoinQueueRequest}
      → deserialize_join_queue_request w (serialize_join_queue_request w m) ≡ m
      → deserialize_binary_join_queue_request w (serialize_binary_join_queue_request w m) ≡ m
  unfolding deserialize_binary_join_queue_request serialize_binary_join_queue_request
  join_queue_request-through_bytes h =
      through_bytes (serialize_join_queue_request w) (deserialize_join_queue_request w) h

  pub leave_queue_request-through_bytes :
      {m : LeaveQueueRequest}
      → deserialize_leave_queue_request w (serialize_leave_queue_request w m) ≡ m
      → deserialize_binary_leave_queue_request w (serialize_binary_leave_queue_request w m) ≡ m
  unfolding deserialize_binary_leave_queue_request serialize_binary_leave_queue_request
  leave_queue_request-through_bytes h =
      through_bytes (serialize_leave_queue_request w) (deserialize_leave_queue_request w) h

  pub leave_queue_response-through_bytes :
      {m : LeaveQueueResponse}
      → deserialize_leave_queue_response w (serialize_leave_queue_response w m) ≡ m
      → deserialize_binary_leave_queue_response w (serialize_binary_leave_queue_response w m) ≡ m
  unfolding deserialize_binary_leave_queue_response serialize_binary_leave_queue_response
  leave_queue_response-through_bytes h =
      through_bytes (serialize_leave_queue_response w) (deserialize_leave_queue_response w) h

  pub get_queue_status_request-through_bytes :
      {m : GetQueueStatusRequest}
      → deserialize_get_queue_status_request w (serialize_get_queue_status_request w m) ≡ m
      → deserialize_binary_get_queue_status_request w
          (serialize_binary_get_queue_status_request w m)
        ≡ m
  unfolding deserialize_binary_get_queue_status_request serialize_binary_get_queue_status_request
  get_queue_status_request-through_bytes h =
      through_bytes (serialize_get_queue_status_request w) (deserialize_get_queue_status_request w)
        h

  pub queue_status-through_bytes :
      {m : QueueStatus}
      → deserialize_queue_status w (serialize_queue_status w m) ≡ m
      → deserialize_binary_queue_status w (serialize_binary_queue_status w m) ≡ m
  unfolding deserialize_binary_queue_status serialize_binary_queue_status
  queue_status-through_bytes h =
      through_bytes (serialize_queue_status w) (deserialize_queue_status w) h

  pub match_found_result-through_bytes :
      {m : MatchFoundResult}
      → deserialize_match_found_result w (serialize_match_found_result w m) ≡ m
      → deserialize_binary_match_found_result w (serialize_binary_match_found_result w m) ≡ m
  unfolding deserialize_binary_match_found_result serialize_binary_match_found_result
  match_found_result-through_bytes h =
      through_bytes (serialize_match_found_result w) (deserialize_match_found_result w) h

  pub matchmaking_update-through_bytes :
      {m : MatchmakingUpdate}
      → deserialize_matchmaking_update w (serialize_matchmaking_update w m) ≡ m
      → deserialize_binary_matchmaking_update w (serialize_binary_matchmaking_update w m) ≡ m
  unfolding deserialize_binary_matchmaking_update serialize_binary_matchmaking_update
  matchmaking_update-through_bytes h =
      through_bytes (serialize_matchmaking_update w) (deserialize_matchmaking_update w) h

  pub get_room_info_request-through_bytes :
      {m : GetRoomInfoRequest}
      → deserialize_get_room_info_request w (serialize_get_room_info_request w m) ≡ m
      → deserialize_binary_get_room_info_request w (serialize_binary_get_room_info_request w m) ≡ m
  unfolding deserialize_binary_get_room_info_request serialize_binary_get_room_info_request
  get_room_info_request-through_bytes h =
      through_bytes (serialize_get_room_info_request w) (deserialize_get_room_info_request w) h

  pub room_info-through_bytes :
      {m : RoomInfo}
      → deserialize_room_info w (serialize_room_info w m) ≡ m
      → deserialize_binary_room_info w (serialize_binary_room_info w m) ≡ m
  unfolding deserialize_binary_room_info serialize_binary_room_info
  room_info-through_bytes h = through_bytes (serialize_room_info w) (deserialize_room_info w) h

  pub list_active_rooms_request-through_bytes :
      {m : ListActiveRoomsRequest}
      → deserialize_list_active_rooms_request w (serialize_list_active_rooms_request w m) ≡ m
      → deserialize_binary_list_active_rooms_request w
          (serialize_binary_list_active_rooms_request w m)
        ≡ m
  unfolding deserialize_binary_list_active_rooms_request serialize_binary_list_active_rooms_request
  list_active_rooms_request-through_bytes h =
      through_bytes (serialize_list_active_rooms_request w)
        (deserialize_list_active_rooms_request w) h

  pub list_active_rooms_response-through_bytes :
      {m : ListActiveRoomsResponse}
      → deserialize_list_active_rooms_response w (serialize_list_active_rooms_response w m) ≡ m
      → deserialize_binary_list_active_rooms_response w
          (serialize_binary_list_active_rooms_response w m)
        ≡ m
  unfolding deserialize_binary_list_active_rooms_response
      serialize_binary_list_active_rooms_response
  list_active_rooms_response-through_bytes h =
      through_bytes (serialize_list_active_rooms_response w)
        (deserialize_list_active_rooms_response w) h
