-- ===== src/Matchmaking/Objects.antt =====
-- The JavaScript values that `toObject` of the messages makes, and `$jspbMessageInstance`.
pub mod Messages
pub mod Read
pub mod Back
pub mod Plain
pub mod Kinds
mod Tests
use hax_war.Base.{
  ℕ, Bool, true, false, Option, none, some, List, [], ◌∷◌, if◌then◌else◌, Text, txt, text_eq,
}
use hax_war.Base.Int.{ℤ, pos}
use hax_war.Matchmaking.Queue.{
  JoinQueueRequest, LeaveQueueRequest, LeaveQueueResponse, GetQueueStatusRequest, QueueStatus,
}
use hax_war.Matchmaking.Updates.{MatchFoundResult, MatchmakingUpdate}
use hax_war.Matchmaking.Rooms.{
  GetRoomInfoRequest, RoomInfo, ListActiveRoomsRequest, ListActiveRoomsResponse,
}

-- A message of any type.
pub data Instance : Type 0 where
  join_queue_request : JoinQueueRequest → Instance
  leave_queue_request : LeaveQueueRequest → Instance
  leave_queue_response : LeaveQueueResponse → Instance
  get_queue_status_request : GetQueueStatusRequest → Instance
  queue_status : QueueStatus → Instance
  match_found_result : MatchFoundResult → Instance
  matchmaking_update : MatchmakingUpdate → Instance
  get_room_info_request : GetRoomInfoRequest → Instance
  room_info : RoomInfo → Instance
  list_active_rooms_request : ListActiveRoomsRequest → Instance
  list_active_rooms_response : ListActiveRoomsResponse → Instance

mutual
  pub data Value : Type 0 where
    undefined : Value
    text : Text → Value
    number : ℤ → Value
    boolean : Bool → Value
    instance_of : Instance → Value
    array : Items → Value
    object : Fields → Value

  pub data Items : Type 0 where
    no_items : Items
    item : Value → Items → Items

  -- The properties of an object, in the order in which they were set.
  pub data Fields : Type 0 where
    no_fields : Fields
    field : Text → Value → Fields → Fields

abbrev pub items : List Value → Items
items [] = no_items
items (v ∷ vs) = item v (items vs)

abbrev pub instance_key : Text
instance_key = txt "$jspbMessageInstance"

-- `obj[key] = v`.
abbrev pub assign : Text → Value → Fields → Fields
assign key v no_fields = field key v no_fields
assign key v (field k u fs) = if text_eq k key then field k v fs else field k u (assign key v fs)

-- `if (includeInstance) obj.$jspbMessageInstance = msg`.
unfoldable pub with_instance : Bool → Instance → Fields → Fields
with_instance include m fs = if include then assign instance_key (instance_of m) fs else fs
