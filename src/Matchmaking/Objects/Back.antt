-- ===== src/Matchmaking/Objects/Back.antt =====
-- What is read back from the object of a message is the message.
use hax_war.Base.{◌≡◌, refl, ◌∙◌, ap, Bool, true, false, Option, none, some, List, [], ◌∷◌, map}
use hax_war.Matchmaking.Objects.{Value, items}
use hax_war.Matchmaking.Objects.Messages.{
  ObjectList, match_result_to_object, join_queue_request_to_object, leave_queue_request_to_object,
  leave_queue_response_to_object, get_queue_status_request_to_object, queue_status_to_object,
  match_found_result_to_object, matchmaking_update_to_object, get_room_info_request_to_object,
  room_info_to_object, list_active_rooms_request_to_object, list_active_rooms_response_to_object,
}
use hax_war.Matchmaking.Queue.{
  JoinQueueRequest, LeaveQueueRequest, LeaveQueueResponse, GetQueueStatusRequest, QueueStatus,
}
use hax_war.Matchmaking.Updates.{MatchFoundResult, MatchmakingUpdate}
use hax_war.Matchmaking.Rooms.{
  GetRoomInfoRequest, RoomInfo, ListActiveRoomsRequest, ListActiveRoomsResponse,
}
use hax_war.Matchmaking.Objects.Read.{
  read_join_queue_request, read_leave_queue_request, read_leave_queue_response,
  read_get_queue_status_request, read_queue_status, read_match_found_result, read_match_result,
  read_matchmaking_update, read_get_room_info_request, read_room_info,
  read_list_active_rooms_request, read_rooms, read_list_active_rooms_response,
}

pub join_queue_request_object-roundtrip :
    (include : Bool) (m : JoinQueueRequest)
    → read_join_queue_request (join_queue_request_to_object include m) ≡ m
unfolding join_queue_request_to_object
join_queue_request_object-roundtrip true m = refl
join_queue_request_object-roundtrip false m = refl

pub leave_queue_request_object-roundtrip :
    (include : Bool) (m : LeaveQueueRequest)
    → read_leave_queue_request (leave_queue_request_to_object include m) ≡ m
unfolding leave_queue_request_to_object
leave_queue_request_object-roundtrip true m = refl
leave_queue_request_object-roundtrip false m = refl

pub leave_queue_response_object-roundtrip :
    (include : Bool) (m : LeaveQueueResponse)
    → read_leave_queue_response (leave_queue_response_to_object include m) ≡ m
unfolding leave_queue_response_to_object
leave_queue_response_object-roundtrip true m = refl
leave_queue_response_object-roundtrip false m = refl

pub get_queue_status_request_object-roundtrip :
    (include : Bool) (m : GetQueueStatusRequest)
    → read_get_queue_status_request (get_queue_status_request_to_object include m) ≡ m
unfolding get_queue_status_request_to_object
get_queue_status_request_object-roundtrip true m = refl
get_queue_status_request_object-roundtrip false m = refl

pub queue_status_object-roundtrip :
    (include : Bool) (m : QueueStatus) → read_queue_status (queue_status_to_object include m) ≡ m
unfolding queue_status_to_object
queue_status_object-roundtrip true m = refl
queue_status_object-roundtrip false m = refl

pub match_found_result_object-roundtrip :
    (include : Bool) (m : MatchFoundResult)
    → read_match_found_result (match_found_result_to_object include m) ≡ m
unfolding match_found_result_to_object
match_found_result_object-roundtrip true m = refl
match_found_result_object-roundtrip false m = refl

read_match_result-match_result_to_object :
    (include : Bool) (r : Option MatchFoundResult)
    → read_match_result (match_result_to_object include r) ≡ r
unfolding match_result_to_object match_found_result_to_object
read_match_result-match_result_to_object include none = refl
read_match_result-match_result_to_object true (some f) = refl
read_match_result-match_result_to_object false (some f) = refl

pub matchmaking_update_object-roundtrip :
    (include : Bool) (m : MatchmakingUpdate)
    → read_matchmaking_update (matchmaking_update_to_object include m) ≡ m
unfolding matchmaking_update_to_object
matchmaking_update_object-roundtrip true m =
    ap (λ r. record m { match_result = r })
      (read_match_result-match_result_to_object true m.match_result)
matchmaking_update_object-roundtrip false m =
    ap (λ r. record m { match_result = r })
      (read_match_result-match_result_to_object false m.match_result)

pub get_room_info_request_object-roundtrip :
    (include : Bool) (m : GetRoomInfoRequest)
    → read_get_room_info_request (get_room_info_request_to_object include m) ≡ m
unfolding get_room_info_request_to_object
get_room_info_request_object-roundtrip true m = refl
get_room_info_request_object-roundtrip false m = refl

pub room_info_object-roundtrip :
    (include : Bool) (m : RoomInfo) → read_room_info (room_info_to_object include m) ≡ m
unfolding room_info_to_object
room_info_object-roundtrip true m = refl
room_info_object-roundtrip false m = refl

pub list_active_rooms_request_object-roundtrip :
    (include : Bool) (m : ListActiveRoomsRequest)
    → read_list_active_rooms_request (list_active_rooms_request_to_object include m) ≡ m
unfolding list_active_rooms_request_to_object
list_active_rooms_request_object-roundtrip true m = refl
list_active_rooms_request_object-roundtrip false m = refl

read_rooms-items :
    (include : Bool) (rs : List RoomInfo)
    → read_rooms (items (map (room_info_to_object include) rs)) ≡ rs
read_rooms-items include [] = refl
read_rooms-items include (r ∷ rs) =
    λ i. room_info_object-roundtrip include r i ∷ read_rooms-items include rs i

-- The library's function converts the rooms one by one.
abbrev pub MapsRooms : ObjectList → Type 0
MapsRooms to_object_list =
    (rs : List RoomInfo) (f : Bool → RoomInfo → Value) (include : Bool)
    → to_object_list rs f include ≡ map (f include) rs

pub list_active_rooms_response_object-roundtrip :
    (to_object_list : ObjectList)
    → MapsRooms to_object_list
    → (include : Bool) (m : ListActiveRoomsResponse)
    → read_list_active_rooms_response
        (list_active_rooms_response_to_object to_object_list include m)
      ≡ m
unfolding list_active_rooms_response_to_object
list_active_rooms_response_object-roundtrip to_object_list maps true m =
    ap (λ vs. record m { rooms = read_rooms (items vs) }) (maps m.rooms room_info_to_object true)
    ∙ ap (λ rs. record m { rooms = rs }) (read_rooms-items true m.rooms)
list_active_rooms_response_object-roundtrip to_object_list maps false m =
    ap (λ vs. record m { rooms = read_rooms (items vs) }) (maps m.rooms room_info_to_object false)
    ∙ ap (λ rs. record m { rooms = rs }) (read_rooms-items false m.rooms)
