-- ===== src/Matchmaking/Service.antt =====
-- The generated service clients: what they ask of the gRPC-web library, and how the library is to
-- read the responses. The library itself is outside: a call is the value that it is given.
use hax_war.Base.{ℕ, ◌≡◌, ap, false, Option, none, some, List, [], ◌++◌, Text, txt}
use hax_war.Matchmaking.{Wire, IsFaithful, IsInt32}
use hax_war.Matchmaking.Hostname.{strip_slashes, slashes, ends_with_slash, strip_slashes_lem}
use hax_war.Matchmaking.Queue.{
  JoinQueueRequest, join_queue_request-roundtrip, LeaveQueueRequest, leave_queue_request-roundtrip,
  LeaveQueueResponse, GetQueueStatusRequest, get_queue_status_request-roundtrip, QueueStatus,
}
use hax_war.Matchmaking.Updates.{MatchmakingUpdate}
use hax_war.Matchmaking.Rooms.{
  GetRoomInfoRequest, get_room_info_request-roundtrip, RoomInfo, ListActiveRoomsRequest,
  list_active_rooms_request-roundtrip, ListActiveRoomsResponse,
}
use hax_war.Matchmaking.Binary.{
  serialize_binary_join_queue_request, deserialize_binary_join_queue_request,
  serialize_binary_leave_queue_request, deserialize_binary_leave_queue_request,
  serialize_binary_get_queue_status_request, deserialize_binary_get_queue_status_request,
  serialize_binary_get_room_info_request, deserialize_binary_get_room_info_request,
  serialize_binary_list_active_rooms_request, deserialize_binary_list_active_rooms_request,
  deserialize_binary_matchmaking_update, deserialize_binary_leave_queue_response,
  deserialize_binary_queue_status, deserialize_binary_room_info,
  deserialize_binary_list_active_rooms_response,
}
use hax_war.Matchmaking.Binary.Through.{
  get_queue_status_request-through_bytes, get_room_info_request-through_bytes,
  join_queue_request-through_bytes, leave_queue_request-through_bytes,
  list_active_rooms_request-through_bytes,
}

pub record ServiceClient : Type 0 where
  pub hostname : Text

-- The constructors of the four clients; the option `format` is "text" for each.
unfoldable pub new_service_client : Text → ServiceClient
unfolding strip_slashes
new_service_client hostname = record { hostname = strip_slashes hostname }

pub data MethodType : Type 0 where
  unary server_streaming : MethodType

-- The library's `serverStreaming`, `rpcCall` of a client with callbacks, and `unaryCall` of one
-- with promises.
pub data Caller : Type 0 where
  streaming_call rpc_call unary_call : Caller

pub record Metadata : Type 0 where
  pub entries : List (Text × Text)

-- `metadata || {}`.
abbrev pub metadata_or : Option Metadata → Metadata
metadata_or none = record { entries = [] }
metadata_or (some m) = m

module _ (w : Wire) where
  -- `MethodDescriptor`.
  pub record Method (Q R : Type 0) : Type 0 where
    pub path : Text
    pub method_type : MethodType
    pub encode : Q → w.Bytes
    pub decode : w.Bytes → R

  -- What the library is given, with the request as the descriptor encodes it.
  pub record Call : Type 0 where
    pub caller : Caller
    pub url : Text
    pub body : w.Bytes
    pub metadata : Metadata

  unfoldable pub call :
      {Q R : Type 0} → Caller → ServiceClient → Method Q R → Q → Option Metadata → Call
  call how c m request metadata = record {
    caller = how;
    url = c.hostname ++ m.path;
    body = m.encode request;
    metadata = metadata_or metadata;
  }

  abbrev pub join_queue_method : Method JoinQueueRequest MatchmakingUpdate
  join_queue_method = record {
    path = txt "/matchmaking.MatchmakingService/JoinQueue";
    method_type = server_streaming;
    encode = serialize_binary_join_queue_request w;
    decode = deserialize_binary_matchmaking_update w;
  }

  abbrev pub leave_queue_method : Method LeaveQueueRequest LeaveQueueResponse
  leave_queue_method = record {
    path = txt "/matchmaking.MatchmakingService/LeaveQueue";
    method_type = unary;
    encode = serialize_binary_leave_queue_request w;
    decode = deserialize_binary_leave_queue_response w;
  }

  abbrev pub get_queue_status_method : Method GetQueueStatusRequest QueueStatus
  get_queue_status_method = record {
    path = txt "/matchmaking.MatchmakingService/GetQueueStatus";
    method_type = unary;
    encode = serialize_binary_get_queue_status_request w;
    decode = deserialize_binary_queue_status w;
  }

  abbrev pub get_room_info_method : Method GetRoomInfoRequest RoomInfo
  get_room_info_method = record {
    path = txt "/matchmaking.GameRoomService/GetRoomInfo";
    method_type = unary;
    encode = serialize_binary_get_room_info_request w;
    decode = deserialize_binary_room_info w;
  }

  abbrev pub list_active_rooms_method : Method ListActiveRoomsRequest ListActiveRoomsResponse
  list_active_rooms_method = record {
    path = txt "/matchmaking.GameRoomService/ListActiveRooms";
    method_type = unary;
    encode = serialize_binary_list_active_rooms_request w;
    decode = deserialize_binary_list_active_rooms_response w;
  }

  -- The methods of the clients, with callbacks or with promises.
  unfoldable pub join_queue : ServiceClient → JoinQueueRequest → Option Metadata → Call
  unfolding call
  join_queue c = call streaming_call c join_queue_method

  unfoldable pub leave_queue : Caller → ServiceClient → LeaveQueueRequest → Option Metadata → Call
  unfolding call
  leave_queue how c = call how c leave_queue_method

  unfoldable pub get_queue_status :
      Caller → ServiceClient → GetQueueStatusRequest → Option Metadata → Call
  unfolding call
  get_queue_status how c = call how c get_queue_status_method

  unfoldable pub get_room_info :
      Caller → ServiceClient → GetRoomInfoRequest → Option Metadata → Call
  unfolding call
  get_room_info how c = call how c get_room_info_method

  unfoldable pub list_active_rooms :
      Caller → ServiceClient → ListActiveRoomsRequest → Option Metadata → Call
  unfolding call
  list_active_rooms how c = call how c list_active_rooms_method

module _ {w : Wire} where
  -- The call has the URL, and the server reads this request in its body.
  pub record Reaches {Q : Type 0} (url : Text) (read : w.Bytes → Q) (q : Q) (c : Call w)
      : Type 0 where
    pub addressed : c.url ≡ url
    pub understood : read c.body ≡ q

  -- A client of a host with any number of slashes at its end calls each method at the host, one
  -- slash and the method's path; and a server whose wire reads back what was written finds the
  -- request in the body, if its number has 32 bits.
  pub calls-Reaches :
      (h : Text) (n : ℕ) (how : Caller) (metadata : Option Metadata) (join : JoinQueueRequest)
      (leave : LeaveQueueRequest) (status : GetQueueStatusRequest) (room : GetRoomInfoRequest)
      (rooms : ListActiveRoomsRequest)
      → ends_with_slash h ≡ false
      → IsFaithful w
      → IsInt32 join.rating
      → IsInt32 rooms.max_results
      → let c = new_service_client (h ++ slashes n) in
        Reaches
          (h ++ txt "/matchmaking.MatchmakingService/JoinQueue")
          (deserialize_binary_join_queue_request w)
          join
          (join_queue w c join metadata)
        × Reaches
            (h ++ txt "/matchmaking.MatchmakingService/LeaveQueue")
            (deserialize_binary_leave_queue_request w)
            leave
            (leave_queue w how c leave metadata)
        × Reaches
            (h ++ txt "/matchmaking.MatchmakingService/GetQueueStatus")
            (deserialize_binary_get_queue_status_request w)
            status
            (get_queue_status w how c status metadata)
        × Reaches
            (h ++ txt "/matchmaking.GameRoomService/GetRoomInfo")
            (deserialize_binary_get_room_info_request w)
            room
            (get_room_info w how c room metadata)
        × Reaches
            (h ++ txt "/matchmaking.GameRoomService/ListActiveRooms")
            (deserialize_binary_list_active_rooms_request w)
            rooms
            (list_active_rooms w how c rooms metadata)
  unfolding new_service_client join_queue leave_queue get_queue_status get_room_info
      list_active_rooms
  calls-Reaches h n how metadata join leave status room rooms plain ok hj hr =
      let at = λ (path : Text). ap (λ t. t ++ path) (strip_slashes_lem h n plain) in
      (
        record {
          addressed = at _;
          understood =
              join_queue_request-through_bytes ok (join_queue_request-roundtrip ok join hj);
        },
        record {
          addressed = at _;
          understood =
              leave_queue_request-through_bytes ok (leave_queue_request-roundtrip ok leave);
        },
        record {
          addressed = at _;
          understood =
              get_queue_status_request-through_bytes ok
                (get_queue_status_request-roundtrip ok status);
        },
        record {
          addressed = at _;
          understood =
              get_room_info_request-through_bytes ok (get_room_info_request-roundtrip ok room);
        },
        record {
          addressed = at _;
          understood =
              list_active_rooms_request-through_bytes ok
                (list_active_rooms_request-roundtrip ok rooms hr);
        },
      )
