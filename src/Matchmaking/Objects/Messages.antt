-- ===== src/Matchmaking/Objects/Messages.antt =====
-- `toObject` of the eleven messages.
use hax_war.Base.{Bool, Option, none, some, List, txt}
use hax_war.Matchmaking.Objects.{
  Value, items, no_fields, field, undefined, text, number, boolean, array, object, with_instance,
  join_queue_request, leave_queue_request, leave_queue_response, get_queue_status_request,
  queue_status, match_found_result, matchmaking_update, get_room_info_request, room_info,
  list_active_rooms_request, list_active_rooms_response,
}
use hax_war.Matchmaking.Queue.{
  JoinQueueRequest, LeaveQueueRequest, LeaveQueueResponse, GetQueueStatusRequest, QueueStatus,
}
use hax_war.Matchmaking.Updates.{MatchFoundResult, MatchmakingUpdate}
use hax_war.Matchmaking.Rooms.{
  GetRoomInfoRequest, RoomInfo, ListActiveRoomsRequest, ListActiveRoomsResponse,
}

unfoldable pub join_queue_request_to_object : Bool → JoinQueueRequest → Value
unfolding with_instance
join_queue_request_to_object include m = object (
    with_instance include (join_queue_request m) (
      field (txt "playerId") (text m.player_id) (field (txt "rating") (number m.rating) no_fields)))

unfoldable pub leave_queue_request_to_object : Bool → LeaveQueueRequest → Value
unfolding with_instance
leave_queue_request_to_object include m = object (
    with_instance include (leave_queue_request m)
      (field (txt "playerId") (text m.player_id) no_fields))

unfoldable pub leave_queue_response_to_object : Bool → LeaveQueueResponse → Value
unfolding with_instance
leave_queue_response_to_object include m = object (
    with_instance include (leave_queue_response m)
      (field (txt "success") (boolean m.success) no_fields))

unfoldable pub get_queue_status_request_to_object : Bool → GetQueueStatusRequest → Value
unfolding with_instance
get_queue_status_request_to_object include m = object (
    with_instance include (get_queue_status_request m)
      (field (txt "playerId") (text m.player_id) no_fields))

unfoldable pub queue_status_to_object : Bool → QueueStatus → Value
unfolding with_instance
queue_status_to_object include m = object (
    with_instance include (queue_status m) (
      field (txt "isInQueue") (boolean m.is_in_queue) (
        field (txt "queuePosition") (number m.queue_position) (
          field (txt "estimatedWaitSeconds") (number m.estimated_wait_seconds)
            (field (txt "playersInQueue") (number m.players_in_queue) no_fields)))))

unfoldable pub match_found_result_to_object : Bool → MatchFoundResult → Value
unfolding with_instance
match_found_result_to_object include m = object (
    with_instance include (match_found_result m) (
      field (txt "roomId") (text m.room_id) (
        field (txt "playerSide") (text m.player_side) (
          field (txt "wsEndpoint") (text m.ws_endpoint)
            (field (txt "opponentId") (text m.opponent_id) no_fields)))))

-- `(f = msg.getMatchResult()) && proto.matchmaking.MatchFoundResult.toObject(includeInstance, f)`.
unfoldable pub match_result_to_object : Bool → Option MatchFoundResult → Value
unfolding match_found_result_to_object
match_result_to_object include none = undefined
match_result_to_object include (some f) = match_found_result_to_object include f

unfoldable pub matchmaking_update_to_object : Bool → MatchmakingUpdate → Value
unfolding with_instance match_result_to_object
matchmaking_update_to_object include m = object (
    with_instance include (matchmaking_update m) (
      field (txt "status") (number m.status) (
        field (txt "matchResult") (match_result_to_object include m.match_result) (
          field (txt "queuePosition") (number m.queue_position)
            (field (txt "estimatedWaitSeconds") (number m.estimated_wait_seconds) no_fields)))))

unfoldable pub get_room_info_request_to_object : Bool → GetRoomInfoRequest → Value
unfolding with_instance
get_room_info_request_to_object include m = object (
    with_instance include (get_room_info_request m)
      (field (txt "roomId") (text m.room_id) no_fields))

unfoldable pub room_info_to_object : Bool → RoomInfo → Value
unfolding with_instance
room_info_to_object include m = object (
    with_instance include (room_info m) (
      field (txt "roomId") (text m.room_id) (
        field (txt "phase") (text m.phase) (
          field (txt "currentRound") (number m.current_round) (
            field (txt "playerCount") (number m.player_count)
              (field (txt "createdAt") (text m.created_at) no_fields))))))

unfoldable pub list_active_rooms_request_to_object : Bool → ListActiveRoomsRequest → Value
unfolding with_instance
list_active_rooms_request_to_object include m = object (
    with_instance include (list_active_rooms_request m)
      (field (txt "maxResults") (number m.max_results) no_fields))

-- `jspb.Message.toObjectList` of the protobuf library, here at rooms.
abbrev pub ObjectList : Type 0
ObjectList = List RoomInfo → (Bool → RoomInfo → Value) → Bool → List Value

unfoldable pub list_active_rooms_response_to_object :
    ObjectList → Bool → ListActiveRoomsResponse → Value
unfolding with_instance room_info_to_object
list_active_rooms_response_to_object to_object_list include m = object (
    with_instance include (list_active_rooms_response m) (
      field (txt "roomsList") (array (items (to_object_list m.rooms room_info_to_object include)))
        no_fields))
