-- ===== src/Matchmaking/Objects/Kinds.antt =====
-- `toObject` of all types of messages, and what it keeps.
use hax_war.Base.{◌≡◌, Bool, false}
use hax_war.Matchmaking.Kinds.{
  Kind, MessageOf, join_queue_request, leave_queue_request, leave_queue_response,
  get_queue_status_request, queue_status, match_found_result, matchmaking_update,
  get_room_info_request, room_info, list_active_rooms_request, list_active_rooms_response,
}
use hax_war.Matchmaking.Objects.{Value}
use hax_war.Matchmaking.Objects.Messages.{
  ObjectList, join_queue_request_to_object, leave_queue_request_to_object,
  leave_queue_response_to_object, get_queue_status_request_to_object, queue_status_to_object,
  match_found_result_to_object, matchmaking_update_to_object, get_room_info_request_to_object,
  room_info_to_object, list_active_rooms_request_to_object, list_active_rooms_response_to_object,
}
use hax_war.Matchmaking.Objects.Read.{
  read_join_queue_request, read_leave_queue_request, read_leave_queue_response,
  read_get_queue_status_request, read_queue_status, read_match_found_result,
  read_matchmaking_update, read_get_room_info_request, read_room_info,
  read_list_active_rooms_request, read_list_active_rooms_response,
}
use hax_war.Matchmaking.Objects.Back.{
  MapsRooms, join_queue_request_object-roundtrip, leave_queue_request_object-roundtrip,
  leave_queue_response_object-roundtrip, get_queue_status_request_object-roundtrip,
  queue_status_object-roundtrip, match_found_result_object-roundtrip,
  matchmaking_update_object-roundtrip, get_room_info_request_object-roundtrip,
  room_info_object-roundtrip, list_active_rooms_request_object-roundtrip,
  list_active_rooms_response_object-roundtrip,
}
use hax_war.Matchmaking.Objects.Plain.{
  plain, plain-join_queue_request_to_object, plain-leave_queue_request_to_object,
  plain-leave_queue_response_to_object, plain-get_queue_status_request_to_object,
  plain-queue_status_to_object, plain-match_found_result_to_object,
  plain-matchmaking_update_to_object, plain-get_room_info_request_to_object,
  plain-room_info_to_object, plain-list_active_rooms_request_to_object,
  plain-list_active_rooms_response_to_object,
}

-- `msg.toObject(includeInstance)`.
abbrev pub to_object : ObjectList → (k : Kind) → Bool → MessageOf k → Value
to_object l join_queue_request include m = join_queue_request_to_object include m
to_object l leave_queue_request include m = leave_queue_request_to_object include m
to_object l leave_queue_response include m = leave_queue_response_to_object include m
to_object l get_queue_status_request include m = get_queue_status_request_to_object include m
to_object l queue_status include m = queue_status_to_object include m
to_object l match_found_result include m = match_found_result_to_object include m
to_object l matchmaking_update include m = matchmaking_update_to_object include m
to_object l get_room_info_request include m = get_room_info_request_to_object include m
to_object l room_info include m = room_info_to_object include m
to_object l list_active_rooms_request include m = list_active_rooms_request_to_object include m
to_object l list_active_rooms_response include m = list_active_rooms_response_to_object l include m

abbrev pub read : (k : Kind) → Value → MessageOf k
read join_queue_request v = read_join_queue_request v
read leave_queue_request v = read_leave_queue_request v
read leave_queue_response v = read_leave_queue_response v
read get_queue_status_request v = read_get_queue_status_request v
read queue_status v = read_queue_status v
read match_found_result v = read_match_found_result v
read matchmaking_update v = read_matchmaking_update v
read get_room_info_request v = read_get_room_info_request v
read room_info v = read_room_info v
read list_active_rooms_request v = read_list_active_rooms_request v
read list_active_rooms_response v = read_list_active_rooms_response v

module _ (to_object_list : ObjectList) (maps : MapsRooms to_object_list) where
  -- If the library converts the rooms of a list one by one, then the object of a message of each of
  -- the eleven types, with its instance or without, holds under the names of its properties all that
  -- the message does; and without the instances, at every depth, it is the plain object.
  pub to_object-IsFaithful :
      (k : Kind) (include : Bool) (m : MessageOf k)
      → (read k (to_object to_object_list k include m) ≡ m)
        × (plain (to_object to_object_list k include m) ≡ to_object to_object_list k false m)
  to_object-IsFaithful join_queue_request include m =
      (join_queue_request_object-roundtrip include m, plain-join_queue_request_to_object include m)
  to_object-IsFaithful leave_queue_request include m = (
    leave_queue_request_object-roundtrip include m,
    plain-leave_queue_request_to_object include m,
  )
  to_object-IsFaithful leave_queue_response include m = (
    leave_queue_response_object-roundtrip include m,
    plain-leave_queue_response_to_object include m,
  )
  to_object-IsFaithful get_queue_status_request include m = (
    get_queue_status_request_object-roundtrip include m,
    plain-get_queue_status_request_to_object include m,
  )
  to_object-IsFaithful queue_status include m =
      (queue_status_object-roundtrip include m, plain-queue_status_to_object include m)
  to_object-IsFaithful match_found_result include m =
      (match_found_result_object-roundtrip include m, plain-match_found_result_to_object include m)
  to_object-IsFaithful matchmaking_update include m =
      (matchmaking_update_object-roundtrip include m, plain-matchmaking_update_to_object include m)
  to_object-IsFaithful get_room_info_request include m = (
    get_room_info_request_object-roundtrip include m,
    plain-get_room_info_request_to_object include m,
  )
  to_object-IsFaithful room_info include m =
      (room_info_object-roundtrip include m, plain-room_info_to_object include m)
  to_object-IsFaithful list_active_rooms_request include m = (
    list_active_rooms_request_object-roundtrip include m,
    plain-list_active_rooms_request_to_object include m,
  )
  to_object-IsFaithful list_active_rooms_response include m = (
    list_active_rooms_response_object-roundtrip to_object_list maps include m,
    plain-list_active_rooms_response_to_object to_object_list maps include m,
  )
