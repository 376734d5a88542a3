-- ===== src/Matchmaking/Rooms.antt =====
-- The messages of the game rooms.
use hax_war.Base.{
  ℕ, ◌==◌, ◌≡◌, ◌∙◌, ap, List, [], ◌∷◌, ◌++◌, append_assoc, append-nil, sym, All, if◌then◌else◌,
  Text,
}
use hax_war.Base.Int.{ℤ, pos}
use hax_war.Matchmaking.{
  Wire, IsFaithful, IsInt32, put_string, put_int32, read_fields, read_then, read-string, read-int32,
}

pub record GetRoomInfoRequest : Type 0 where
  pub room_id : Text

abbrev pub new_get_room_info_request : GetRoomInfoRequest
new_get_room_info_request = record { room_id = [] }

module _ (w : Wire) where
  unfoldable pub read_get_room_info_request : ℕ → w.Raw → GetRoomInfoRequest → GetRoomInfoRequest
  read_get_room_info_request n raw m =
      if n == 1 then record m { room_id = w.read_string raw } else m

  unfoldable pub serialize_get_room_info_request : GetRoomInfoRequest → List (ℕ × w.Raw)
  serialize_get_room_info_request m = put_string w 1 m.room_id

  unfoldable pub deserialize_get_room_info_request : List (ℕ × w.Raw) → GetRoomInfoRequest
  unfolding read_get_room_info_request
  deserialize_get_room_info_request fs =
      read_fields w read_get_room_info_request fs new_get_room_info_request

pub record RoomInfo : Type 0 where
  pub room_id : Text
  pub phase : Text
  pub current_round : ℤ
  pub player_count : ℤ
  pub created_at : Text

abbrev pub new_room_info : RoomInfo
new_room_info = record {
  room_id = [];
  phase = [];
  current_round = pos 0;
  player_count = pos 0;
  created_at = [];
}

module _ (w : Wire) where
  unfoldable pub read_room_info : ℕ → w.Raw → RoomInfo → RoomInfo
  read_room_info n raw m =
      if n == 1
      then record m { room_id = w.read_string raw }
      else (if n == 2
          then record m { phase = w.read_string raw }
          else (if n == 3
              then record m { current_round = w.read_int32 raw }
              else (if n == 4
                  then record m { player_count = w.read_int32 raw }
                  else (if n == 5 then record m { created_at = w.read_string raw } else m))))

  unfoldable pub serialize_room_info : RoomInfo → List (ℕ × w.Raw)
  serialize_room_info m =
      put_string w 1 m.room_id
      ++ (put_string w 2 m.phase
          ++ (put_int32 w 3 m.current_round
              ++ (put_int32 w 4 m.player_count ++ put_string w 5 m.created_at)))

  unfoldable pub deserialize_room_info : List (ℕ × w.Raw) → RoomInfo
  unfolding read_room_info
  deserialize_room_info fs = read_fields w read_room_info fs new_room_info

pub record ListActiveRoomsRequest : Type 0 where
  pub max_results : ℤ

abbrev pub new_list_active_rooms_request : ListActiveRoomsRequest
new_list_active_rooms_request = record { max_results = pos 0 }

module _ (w : Wire) where
  unfoldable pub read_list_active_rooms_request :
      ℕ → w.Raw → ListActiveRoomsRequest → ListActiveRoomsRequest
  read_list_active_rooms_request n raw m =
      if n == 1 then record m { max_results = w.read_int32 raw } else m

  unfoldable pub serialize_list_active_rooms_request : ListActiveRoomsRequest → List (ℕ × w.Raw)
  serialize_list_active_rooms_request m = put_int32 w 1 m.max_results

  unfoldable pub deserialize_list_active_rooms_request : List (ℕ × w.Raw) → ListActiveRoomsRequest
  unfolding read_list_active_rooms_request
  deserialize_list_active_rooms_request fs =
      read_fields w read_list_active_rooms_request fs new_list_active_rooms_request

module _ {w : Wire} where
  -- With a wire that reads back what was written, a message
  -- is read back as it was written.
  pub get_room_info_request-roundtrip :
      IsFaithful w
      → (m : GetRoomInfoRequest)
      → deserialize_get_room_info_request w (serialize_get_room_info_request w m) ≡ m
  unfolding deserialize_get_room_info_request serialize_get_room_info_request
  get_room_info_request-roundtrip ok m =
      let set_room_id : Text → GetRoomInfoRequest =
        (λ x. record new_get_room_info_request { room_id = x }) in
      read-string w (read_get_room_info_request w) 1 m.room_id set_room_id
        (λ x. ap set_room_id (ok.string x))

  -- With a wire that reads back what was written, a message whose numbers have 32 bits
  -- is read back as it was written.
  pub room_info-roundtrip :
      IsFaithful w
      → (m : RoomInfo) → IsInt32 m.current_round
      → IsInt32 m.player_count
      → deserialize_room_info w (serialize_room_info w m) ≡ m
  unfolding deserialize_room_info serialize_room_info
  room_info-roundtrip ok m h0 h1 =
      let set_room_id : Text → RoomInfo = (λ x. record new_room_info { room_id = x }) in
      let set_phase : Text → RoomInfo = (λ x. record (set_room_id m.room_id) { phase = x }) in
      let set_current_round : ℤ → RoomInfo =
        (λ x. record (set_phase m.phase) { current_round = x }) in
      let set_player_count : ℤ → RoomInfo =
        (λ x. record (set_current_round m.current_round) { player_count = x }) in
      let set_created_at : Text → RoomInfo =
        (λ x. record (set_player_count m.player_count) { created_at = x }) in
      read_then w (read_room_info w) _ _ _
        (read-string w (read_room_info w) 1 m.room_id set_room_id
          (λ x. ap set_room_id (ok.string x)))
        (read_then w (read_room_info w) _ _ _
          (read-string w (read_room_info w) 2 m.phase set_phase (λ x. ap set_phase (ok.string x)))
          (read_then w (read_room_info w) _ _ _
            (read-int32 w (read_room_info w) 3 m.current_round set_current_round
              (ap set_current_round (ok.int32 m.current_round h0)))
            (read_then w (read_room_info w) _ _ _
              (read-int32 w (read_room_info w) 4 m.player_count set_player_count
                (ap set_player_count (ok.int32 m.player_count h1)))
              (read-string w (read_room_info w) 5 m.created_at set_created_at
                (λ x. ap set_created_at (ok.string x))))))

  -- With a wire that reads back what was written, a message whose numbers have 32 bits
  -- is read back as it was written.
  pub list_active_rooms_request-roundtrip :
      IsFaithful w
      → (m : ListActiveRoomsRequest) → IsInt32 m.max_results
      → deserialize_list_active_rooms_request w (serialize_list_active_rooms_request w m) ≡ m
  unfolding deserialize_list_active_rooms_request serialize_list_active_rooms_request
  list_active_rooms_request-roundtrip ok m h0 =
      let set_max_results : ℤ → ListActiveRoomsRequest =
        (λ x. record new_list_active_rooms_request { max_results = x }) in
      read-int32 w (read_list_active_rooms_request w) 1 m.max_results set_max_results
        (ap set_max_results (ok.int32 m.max_results h0))

pub record ListActiveRoomsResponse : Type 0 where
  pub rooms : List RoomInfo

abbrev pub new_list_active_rooms_response : ListActiveRoomsResponse
new_list_active_rooms_response = record { rooms = [] }

module _ (w : Wire) where
  unfoldable pub read_list_active_rooms_response :
      ℕ → w.Raw → ListActiveRoomsResponse → ListActiveRoomsResponse
  unfolding deserialize_room_info
  read_list_active_rooms_response n raw m =
      if n == 1
      then record m { rooms = m.rooms ++ (deserialize_room_info w (w.read_message raw) ∷ []) }
      else m

  -- `writeRepeatedMessage`.
  unfoldable pub put_rooms : List RoomInfo → List (ℕ × w.Raw)
  unfolding serialize_room_info
  put_rooms [] = []
  put_rooms (r ∷ rs) = (1, w.write_message (serialize_room_info w r)) ∷ put_rooms rs

  unfoldable pub serialize_list_active_rooms_response : ListActiveRoomsResponse → List (ℕ × w.Raw)
  unfolding put_rooms
  serialize_list_active_rooms_response m = put_rooms m.rooms

  unfoldable pub deserialize_list_active_rooms_response : List (ℕ × w.Raw) → ListActiveRoomsResponse
  unfolding read_list_active_rooms_response
  deserialize_list_active_rooms_response fs =
      read_fields w read_list_active_rooms_response fs new_list_active_rooms_response

-- The numbers of a room have 32 bits.
abbrev pub HasInts : RoomInfo → Type 0
HasInts r = IsInt32 r.current_round × IsInt32 r.player_count

module _ {w : Wire} where
  read-put_rooms :
      IsFaithful w
      → (rs before : List RoomInfo) → All HasInts rs
      → read_fields w
          (read_list_active_rooms_response w)
          (put_rooms w rs)
          (record { rooms = before })
        ≡ record { rooms = before ++ rs }
  unfolding read_fields put_rooms read_list_active_rooms_response
  read-put_rooms ok [] before h =
      let at : List RoomInfo → ListActiveRoomsResponse = λ rs. record { rooms = rs } in
      ap at (sym (append-nil before))
  read-put_rooms ok (r ∷ rs) before ((hr, hp), h) =
      let at : List RoomInfo → ListActiveRoomsResponse = λ rs. record { rooms = rs } in
      let back =
        ap (deserialize_room_info w) (ok.message (serialize_room_info w r))
        ∙ room_info-roundtrip ok r hr hp in
      ap
        (λ x.
          read_fields w (read_list_active_rooms_response w) (put_rooms w rs)
            (at (before ++ (x ∷ []))))
        back
      ∙ read-put_rooms ok rs (before ++ (r ∷ [])) h
      ∙ ap at (append_assoc before (r ∷ []) rs)

  -- With a wire that reads back what was written, a list of rooms whose numbers have 32 bits is
  -- read back as it was written, in its order.
  pub list_active_rooms_response-roundtrip :
      IsFaithful w
      → (m : ListActiveRoomsResponse) → All HasInts m.rooms
      → deserialize_list_active_rooms_response w (serialize_list_active_rooms_response w m) ≡ m
  unfolding deserialize_list_active_rooms_response serialize_list_active_rooms_response
  list_active_rooms_response-roundtrip ok m h = read-put_rooms ok m.rooms [] h
