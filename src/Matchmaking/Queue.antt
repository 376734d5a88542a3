-- ===== src/Matchmaking/Queue.antt =====
-- The messages of the matchmaking queue.
use hax_war.Base.{ℕ, ◌==◌, ◌≡◌, ap, Bool, false, List, [], ◌++◌, if◌then◌else◌, Text}
use hax_war.Base.Int.{ℤ, pos}
use hax_war.Matchmaking.{
  Wire, IsFaithful, IsInt32, put_string, put_int32, put_bool, read_fields, read_then, read-string,
  read-int32, read-bool,
}

pub record JoinQueueRequest : Type 0 where
  pub player_id : Text
  pub rating : ℤ

abbrev pub new_join_queue_request : JoinQueueRequest
new_join_queue_request = record { player_id = []; rating = pos 0 }

module _ (w : Wire) where
  unfoldable pub read_join_queue_request : ℕ → w.Raw → JoinQueueRequest → JoinQueueRequest
  read_join_queue_request n raw m =
      if n == 1
      then record m { player_id = w.read_string raw }
      else (if n == 2 then record m { rating = w.read_int32 raw } else m)

  unfoldable pub serialize_join_queue_request : JoinQueueRequest → List (ℕ × w.Raw)
  serialize_join_queue_request m = put_string w 1 m.player_id ++ put_int32 w 2 m.rating

  unfoldable pub deserialize_join_queue_request : List (ℕ × w.Raw) → JoinQueueRequest
  unfolding read_join_queue_request
  deserialize_join_queue_request fs =
      read_fields w read_join_queue_request fs new_join_queue_request

pub record LeaveQueueRequest : Type 0 where
  pub player_id : Text

abbrev pub new_leave_queue_request : LeaveQueueRequest
new_leave_queue_request = record { player_id = [] }

module _ (w : Wire) where
  unfoldable pub read_leave_queue_request : ℕ → w.Raw → LeaveQueueRequest → LeaveQueueRequest
  read_leave_queue_request n raw m =
      if n == 1 then record m { player_id = w.read_string raw } else m

  unfoldable pub serialize_leave_queue_request : LeaveQueueRequest → List (ℕ × w.Raw)
  serialize_leave_queue_request m = put_string w 1 m.player_id

  unfoldable pub deserialize_leave_queue_request : List (ℕ × w.Raw) → LeaveQueueRequest
  unfolding read_leave_queue_request
  deserialize_leave_queue_request fs =
      read_fields w read_leave_queue_request fs new_leave_queue_request

pub record LeaveQueueResponse : Type 0 where
  pub success : Bool

abbrev pub new_leave_queue_response : LeaveQueueResponse
new_leave_queue_response = record { success = false }

module _ (w : Wire) where
  unfoldable pub read_leave_queue_response : ℕ → w.Raw → LeaveQueueResponse → LeaveQueueResponse
  read_leave_queue_response n raw m = if n == 1 then record m { success = w.read_bool raw } else m

  unfoldable pub serialize_leave_queue_response : LeaveQueueResponse → List (ℕ × w.Raw)
  serialize_leave_queue_response m = put_bool w 1 m.success

  unfoldable pub deserialize_leave_queue_response : List (ℕ × w.Raw) → LeaveQueueResponse
  unfolding read_leave_queue_response
  deserialize_leave_queue_response fs =
      read_fields w read_leave_queue_response fs new_leave_queue_response

pub record GetQueueStatusRequest : Type 0 where
  pub player_id : Text

abbrev pub new_get_queue_status_request : GetQueueStatusRequest
new_get_queue_status_request = record { player_id = [] }

module _ (w : Wire) where
  unfoldable pub read_get_queue_status_request :
      ℕ → w.Raw → GetQueueStatusRequest → GetQueueStatusRequest
  read_get_queue_status_request n raw m =
      if n == 1 then record m { player_id = w.read_string raw } else m

  unfoldable pub serialize_get_queue_status_request : GetQueueStatusRequest → List (ℕ × w.Raw)
  serialize_get_queue_status_request m = put_string w 1 m.player_id

  unfoldable pub deserialize_get_queue_status_request : List (ℕ × w.Raw) → GetQueueStatusRequest
  unfolding read_get_queue_status_request
  deserialize_get_queue_status_request fs =
      read_fields w read_get_queue_status_request fs new_get_queue_status_request

pub record QueueStatus : Type 0 where
  pub is_in_queue : Bool
  pub queue_position : ℤ
  pub estimated_wait_seconds : ℤ
  pub players_in_queue : ℤ

abbrev pub new_queue_status : QueueStatus
new_queue_status = record {
  is_in_queue = false;
  queue_position = pos 0;
  estimated_wait_seconds = pos 0;
  players_in_queue = pos 0;
}

module _ (w : Wire) where
  unfoldable pub read_queue_status : ℕ → w.Raw → QueueStatus → QueueStatus
  read_queue_status n raw m =
      if n == 1
      then record m { is_in_queue = w.read_bool raw }
      else (if n == 2
          then record m { queue_position = w.read_int32 raw }
          else (if n == 3
              then record m { estimated_wait_seconds = w.read_int32 raw }
              else (if n == 4 then record m { players_in_queue = w.read_int32 raw } else m)))

  unfoldable pub serialize_queue_status : QueueStatus → List (ℕ × w.Raw)
  serialize_queue_status m =
      put_bool w 1 m.is_in_queue
      ++ (put_int32 w 2 m.queue_position
          ++ (put_int32 w 3 m.estimated_wait_seconds ++ put_int32 w 4 m.players_in_queue))

  unfoldable pub deserialize_queue_status : List (ℕ × w.Raw) → QueueStatus
  unfolding read_queue_status
  deserialize_queue_status fs = read_fields w read_queue_status fs new_queue_status

module _ {w : Wire} where
  -- With a wire that reads back what was written, a message whose numbers have 32 bits
  -- is read back as it was written.
  pub join_queue_request-roundtrip :
      IsFaithful w
      → (m : JoinQueueRequest) → IsInt32 m.rating
      → deserialize_join_queue_request w (serialize_join_queue_request w m) ≡ m
  unfolding deserialize_join_queue_request serialize_join_queue_request
  join_queue_request-roundtrip ok m h0 =
      let set_player_id : Text → JoinQueueRequest =
        (λ x. record new_join_queue_request { player_id = x }) in
      let set_rating : ℤ → JoinQueueRequest =
        (λ x. record (set_player_id m.player_id) { rating = x }) in
      read_then w (read_join_queue_request w) _ _ _
        (read-string w (read_join_queue_request w) 1 m.player_id set_player_id
          (λ x. ap set_player_id (ok.string x)))
        (read-int32 w (read_join_queue_request w) 2 m.rating set_rating
          (ap set_rating (ok.int32 m.rating h0)))

  -- With a wire that reads back what was written, a message
  -- is read back as it was written.
  pub leave_queue_request-roundtrip :
      IsFaithful w
      → (m : LeaveQueueRequest)
      → deserialize_leave_queue_request w (serialize_leave_queue_request w m) ≡ m
  unfolding deserialize_leave_queue_request serialize_leave_queue_request
  leave_queue_request-roundtrip ok m =
      let set_player_id : Text → LeaveQueueRequest =
        (λ x. record new_leave_queue_request { player_id = x }) in
      read-string w (read_leave_queue_request w) 1 m.player_id set_player_id
        (λ x. ap set_player_id (ok.string x))

  -- With a wire that reads back what was written, a message
  -- is read back as it was written.
  pub leave_queue_response-roundtrip :
      IsFaithful w
      → (m : LeaveQueueResponse)
      → deserialize_leave_queue_response w (serialize_leave_queue_response w m) ≡ m
  unfolding deserialize_leave_queue_response serialize_leave_queue_response
  leave_queue_response-roundtrip ok m =
      let set_success : Bool → LeaveQueueResponse =
        (λ x. record new_leave_queue_response { success = x }) in
      read-bool w (read_leave_queue_response w) 1 m.success set_success
        (λ x. ap set_success (ok.bool x))

  -- With a wire that reads back what was written, a message
  -- is read back as it was written.
  pub get_queue_status_request-roundtrip :
      IsFaithful w
      → (m : GetQueueStatusRequest)
      → deserialize_get_queue_status_request w (serialize_get_queue_status_request w m) ≡ m
  unfolding deserialize_get_queue_status_request serialize_get_queue_status_request
  get_queue_status_request-roundtrip ok m =
      let set_player_id : Text → GetQueueStatusRequest =
        (λ x. record new_get_queue_status_request { player_id = x }) in
      read-string w (read_get_queue_status_request w) 1 m.player_id set_player_id
        (λ x. ap set_player_id (ok.string x))

  -- With a wire that reads back what was written, a message whose numbers have 32 bits
  -- is read back as it was written.
  pub queue_status-roundtrip :
      IsFaithful w
      → (m : QueueStatus) → IsInt32 m.queue_position
      → IsInt32 m.estimated_wait_seconds
      → IsInt32 m.players_in_queue
      → deserialize_queue_status w (serialize_queue_status w m) ≡ m
  unfolding deserialize_queue_status serialize_queue_status
  queue_status-roundtrip ok m h0 h1 h2 =
      let set_is_in_queue : Bool → QueueStatus =
        (λ x. record new_queue_status { is_in_queue = x }) in
      let set_queue_position : ℤ → QueueStatus =
        (λ x. record (set_is_in_queue m.is_in_queue) { queue_position = x }) in
      let set_estimated_wait_seconds : ℤ → QueueStatus =
        (λ x. record (set_queue_position m.queue_position) { estimated_wait_seconds = x }) in
      let set_players_in_queue : ℤ → QueueStatus = (λ x.
        record (set_estimated_wait_seconds m.estimated_wait_seconds) { players_in_queue = x }) in
      read_then w (read_queue_status w) _ _ _
        (read-bool w (read_queue_status w) 1 m.is_in_queue set_is_in_queue
          (λ x. ap set_is_in_queue (ok.bool x)))
        (read_then w (read_queue_status w) _ _ _
          (read-int32 w (read_queue_status w) 2 m.queue_position set_queue_position
            (ap set_queue_position (ok.int32 m.queue_position h0)))
          (read_then w (read_queue_status w) _ _ _
            (read-int32 w (read_queue_status w) 3 m.estimated_wait_seconds
              set_estimated_wait_seconds
              (ap set_estimated_wait_seconds (ok.int32 m.estimated_wait_seconds h1)))
            (read-int32 w (read_queue_status w) 4 m.players_in_queue set_players_in_queue
              (ap set_players_in_queue (ok.int32 m.players_in_queue h2)))))
