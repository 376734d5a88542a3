-- ===== src/Matchmaking/Objects/Plain.antt =====
-- An object without its `$jspbMessageInstance`, at every depth.
use hax_war.Base.{
  ◌≡◌, refl, ◌∙◌, ap, Bool, true, false, Option, none, some, List, [], ◌∷◌, map, if◌then◌else◌,
  text_eq, txt, sym,
}
use hax_war.Matchmaking.Objects.{
  Value, Items, Fields, items, no_items, item, no_fields, field, undefined, text, number, boolean,
  instance_of, array, object, instance_key,
}
use hax_war.Matchmaking.Objects.Back.{MapsRooms}
use hax_war.Matchmaking.Objects.Messages.{
  ObjectList, match_result_to_object, join_queue_request_to_object, leave_queue_request_to_object,
  leave_queue_response_to_object, get_queue_status_request_to_object, queue_status_to_object,
  match_found_result_to_object, matchmaking_update_to_object, get_room_info_request_to_object,
  room_info_to_object, list_active_rooms_request_to_object, list_active_rooms_response_to_object,
}
use hax_war.Matchmaking.Queue.{
  JoinQueueRequest, LeaveQueueRequest, LeaveQueueResponse, GetQueueStatusRequest, QueueStatus,
}
use hax_war.Matchmaking.Updates.{MatchFoundResult, MatchmakingUpdate}
use hax_war.Matchmaking.Rooms.{
  GetRoomInfoRequest, RoomInfo, ListActiveRoomsRequest, ListActiveRoomsResponse,
}

unfoldable mutual
  pub plain : Value → Value
  plain undefined = undefined
  plain (text t) = text t
  plain (number n) = number n
  plain (boolean b) = boolean b
  plain (instance_of m) = instance_of m
  plain (array vs) = array (plain_items vs)
  plain (object fs) = object (plain_fields fs)

  pub plain_items : Items → Items
  plain_items no_items = no_items
  plain_items (item v vs) = item (plain v) (plain_items vs)

  pub plain_fields : Fields → Fields
  plain_fields no_fields = no_fields
  plain_fields (field k v fs) =
      let rest = field k (plain v) (plain_fields fs) in
      if text_eq k instance_key then plain_fields fs else rest

pub plain-join_queue_request_to_object :
    (include : Bool) (m : JoinQueueRequest)
    → plain (join_queue_request_to_object include m) ≡ join_queue_request_to_object false m
unfolding plain join_queue_request_to_object
plain-join_queue_request_to_object true m = refl
plain-join_queue_request_to_object false m = refl

pub plain-leave_queue_request_to_object :
    (include : Bool) (m : LeaveQueueRequest)
    → plain (leave_queue_request_to_object include m) ≡ leave_queue_request_to_object false m
unfolding plain leave_queue_request_to_object
plain-leave_queue_request_to_object true m = refl
plain-leave_queue_request_to_object false m = refl

pub plain-leave_queue_response_to_object :
    (include : Bool) (m : LeaveQueueResponse)
    → plain (leave_queue_response_to_object include m) ≡ leave_queue_response_to_object false m
unfolding plain leave_queue_response_to_object
plain-leave_queue_response_to_object true m = refl
plain-leave_queue_response_to_object false m = refl

pub plain-get_queue_status_request_to_object :
    (include : Bool) (m : GetQueueStatusRequest)
    → plain (get_queue_status_request_to_object include m)
      ≡ get_queue_status_request_to_object false m
unfolding plain get_queue_status_request_to_object
plain-get_queue_status_request_to_object true m = refl
plain-get_queue_status_request_to_object false m = refl

pub plain-queue_status_to_object :
    (include : Bool) (m : QueueStatus)
    → plain (queue_status_to_object include m) ≡ queue_status_to_object false m
unfolding plain queue_status_to_object
plain-queue_status_to_object true m = refl
plain-queue_status_to_object false m = refl

pub plain-match_found_result_to_object :
    (include : Bool) (m : MatchFoundResult)
    → plain (match_found_result_to_object include m) ≡ match_found_result_to_object false m
unfolding plain match_found_result_to_object
plain-match_found_result_to_object true m = refl
plain-match_found_result_to_object false m = refl

pub plain-match_result_to_object :
    (include : Bool) (r : Option MatchFoundResult)
    → plain (match_result_to_object include r) ≡ match_result_to_object false r
unfolding plain match_result_to_object
plain-match_result_to_object include none = refl
plain-match_result_to_object include (some f) = plain-match_found_result_to_object include f

-- The object of an update with the given value of `matchResult`.
abbrev update_fields : MatchmakingUpdate → Value → Value
update_fields m v = object (
    field (txt "status") (number m.status) (
      field (txt "matchResult") v (
        field (txt "queuePosition") (number m.queue_position)
          (field (txt "estimatedWaitSeconds") (number m.estimated_wait_seconds) no_fields))))

pub plain-matchmaking_update_to_object :
    (include : Bool) (m : MatchmakingUpdate)
    → plain (matchmaking_update_to_object include m) ≡ matchmaking_update_to_object false m
unfolding plain matchmaking_update_to_object
plain-matchmaking_update_to_object true m =
    ap (update_fields m) (plain-match_result_to_object true m.match_result)
plain-matchmaking_update_to_object false m =
    ap (update_fields m) (plain-match_result_to_object false m.match_result)

pub plain-get_room_info_request_to_object :
    (include : Bool) (m : GetRoomInfoRequest)
    → plain (get_room_info_request_to_object include m) ≡ get_room_info_request_to_object false m
unfolding plain get_room_info_request_to_object
plain-get_room_info_request_to_object true m = refl
plain-get_room_info_request_to_object false m = refl

pub plain-room_info_to_object :
    (include : Bool) (m : RoomInfo)
    → plain (room_info_to_object include m) ≡ room_info_to_object false m
unfolding plain room_info_to_object
plain-room_info_to_object true m = refl
plain-room_info_to_object false m = refl

pub plain-list_active_rooms_request_to_object :
    (include : Bool) (m : ListActiveRoomsRequest)
    → plain (list_active_rooms_request_to_object include m)
      ≡ list_active_rooms_request_to_object false m
unfolding plain list_active_rooms_request_to_object
plain-list_active_rooms_request_to_object true m = refl
plain-list_active_rooms_request_to_object false m = refl

plain_items-items :
    (include : Bool) (rs : List RoomInfo)
    → plain_items (items (map (room_info_to_object include) rs))
      ≡ items (map (room_info_to_object false) rs)
unfolding plain
plain_items-items include [] = refl
plain_items-items include (r ∷ rs) =
    λ i. item (plain-room_info_to_object include r i) (plain_items-items include rs i)

abbrev rooms_fields : Items → Value
rooms_fields vs = object (field (txt "roomsList") (array vs) no_fields)

pub plain-list_active_rooms_response_to_object :
    (to_object_list : ObjectList)
    → MapsRooms to_object_list
    → (include : Bool) (m : ListActiveRoomsResponse)
    → plain (list_active_rooms_response_to_object to_object_list include m)
      ≡ list_active_rooms_response_to_object to_object_list false m
unfolding plain list_active_rooms_response_to_object
plain-list_active_rooms_response_to_object to_object_list maps true m =
    ap (λ vs. rooms_fields (plain_items (items vs))) (maps m.rooms room_info_to_object true)
    ∙ ap rooms_fields (plain_items-items true m.rooms)
    ∙ ap (λ vs. rooms_fields (items vs)) (sym (maps m.rooms room_info_to_object false))
plain-list_active_rooms_response_to_object to_object_list maps false m =
    ap (λ vs. rooms_fields (plain_items (items vs))) (maps m.rooms room_info_to_object false)
    ∙ ap rooms_fields (plain_items-items false m.rooms)
    ∙ ap (λ vs. rooms_fields (items vs)) (sym (maps m.rooms room_info_to_object false))
