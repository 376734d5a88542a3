-- ===== src/Matchmaking/Tests.antt =====
-- Messages and calls with a wire of tagged values.
use hax_war.Base.{◌≡◌, refl, none, ◌++◌, some, [], txt, arith}
use hax_war.Base.Int.{pos}
use hax_war.Matchmaking.Tagged.{tagged, tagged-IsFaithful}
use hax_war.Matchmaking.Queue.{JoinQueueRequest, LeaveQueueRequest, GetQueueStatusRequest}
use hax_war.Matchmaking.Binary.{
  serialize_binary_matchmaking_update, deserialize_binary_matchmaking_update,
  deserialize_binary_join_queue_request, deserialize_binary_leave_queue_request,
  deserialize_binary_get_queue_status_request, deserialize_binary_get_room_info_request,
  deserialize_binary_list_active_rooms_request,
}
use hax_war.Matchmaking.Kinds.{matchmaking_update, bytes-roundtrip}
use hax_war.Matchmaking.Hostname.{slashes}
use hax_war.Matchmaking.Service.{
  new_service_client, unary_call, Reaches, calls-Reaches, join_queue, leave_queue, get_queue_status,
  get_room_info, list_active_rooms,
}
use hax_war.Matchmaking.Updates.{MatchmakingUpdate}
use hax_war.Matchmaking.Rooms.{GetRoomInfoRequest, ListActiveRoomsRequest}

abbrev request : JoinQueueRequest
request = record { player_id = txt "kim"; rating = pos 1500 }

abbrev leaving : LeaveQueueRequest
leaving = record { player_id = txt "kim" }

abbrev asking : GetQueueStatusRequest
asking = record { player_id = txt "kim" }

abbrev room : GetRoomInfoRequest
room = record { room_id = txt "room-1" }

abbrev listing : ListActiveRoomsRequest
listing = record { max_results = pos 20 }

calls-Reaches_example :
    let c = new_service_client (txt "http://localhost" ++ slashes 2) in
    Reaches
      (txt "http://localhost" ++ txt "/matchmaking.MatchmakingService/JoinQueue")
      (deserialize_binary_join_queue_request tagged)
      request
      (join_queue tagged c request none)
    × Reaches
        (txt "http://localhost" ++ txt "/matchmaking.MatchmakingService/LeaveQueue")
        (deserialize_binary_leave_queue_request tagged)
        leaving
        (leave_queue tagged unary_call c leaving none)
    × Reaches
        (txt "http://localhost" ++ txt "/matchmaking.MatchmakingService/GetQueueStatus")
        (deserialize_binary_get_queue_status_request tagged)
        asking
        (get_queue_status tagged unary_call c asking none)
    × Reaches
        (txt "http://localhost" ++ txt "/matchmaking.GameRoomService/GetRoomInfo")
        (deserialize_binary_get_room_info_request tagged)
        room
        (get_room_info tagged unary_call c room none)
    × Reaches
        (txt "http://localhost" ++ txt "/matchmaking.GameRoomService/ListActiveRooms")
        (deserialize_binary_list_active_rooms_request tagged)
        listing
        (list_active_rooms tagged unary_call c listing none)
calls-Reaches_example =
    calls-Reaches (txt "http://localhost") 2 unary_call none request leaving asking room listing
      refl tagged-IsFaithful (omega arith) (omega arith)

abbrev found : MatchmakingUpdate
found = record {
  status = pos 1;
  match_result = some (record {
    room_id = txt "room-1";
    player_side = txt "A";
    ws_endpoint = [];
    opponent_id = txt "lee";
  });
  queue_position = pos 0;
  estimated_wait_seconds = pos 0;
}

bytes-roundtrip_example :
    deserialize_binary_matchmaking_update tagged (serialize_binary_matchmaking_update tagged found)
    ≡ found
bytes-roundtrip_example =
    bytes-roundtrip tagged-IsFaithful matchmaking_update found
      (omega arith, omega arith, omega arith)
