-- ===== src/Matchmaking/Updates.antt =====
-- The updates that the stream of findMatch brings.
use hax_war.Base.{ℕ, ◌==◌, ◌≡◌, ◌∙◌, ap, Option, none, some, List, [], ◌++◌, if◌then◌else◌, Text}
use hax_war.Base.Int.{ℤ, pos}
use hax_war.Matchmaking.{
  Wire, IsFaithful, IsInt32, put_string, put_int32, put_enum, put_message, read_fields, read_then,
  read-string, read-int32, read-enum, read-message,
}

pub record MatchFoundResult : Type 0 where
  pub room_id : Text
  pub player_side : Text
  pub ws_endpoint : Text
  pub opponent_id : Text

abbrev pub new_match_found_result : MatchFoundResult
new_match_found_result = record {
  room_id = [];
  player_side = [];
  ws_endpoint = [];
  opponent_id = [];
}

module _ (w : Wire) where
  unfoldable pub read_match_found_result : ℕ → w.Raw → MatchFoundResult → MatchFoundResult
  read_match_found_result n raw m =
      if n == 1
      then record m { room_id = w.read_string raw }
      else (if n == 2
          then record m { player_side = w.read_string raw }
          else (if n == 3
              then record m { ws_endpoint = w.read_string raw }
              else (if n == 4 then record m { opponent_id = w.read_string raw } else m)))

  unfoldable pub serialize_match_found_result : MatchFoundResult → List (ℕ × w.Raw)
  serialize_match_found_result m =
      put_string w 1 m.room_id
      ++ (put_string w 2 m.player_side
          ++ (put_string w 3 m.ws_endpoint ++ put_string w 4 m.opponent_id))

  unfoldable pub deserialize_match_found_result : List (ℕ × w.Raw) → MatchFoundResult
  unfolding read_match_found_result
  deserialize_match_found_result fs =
      read_fields w read_match_found_result fs new_match_found_result

module _ {w : Wire} where
  -- With a wire that reads back what was written, a message
  -- is read back as it was written.
  pub match_found_result-roundtrip :
      IsFaithful w
      → (m : MatchFoundResult)
      → deserialize_match_found_result w (serialize_match_found_result w m) ≡ m
  unfolding deserialize_match_found_result serialize_match_found_result
  match_found_result-roundtrip ok m =
      let set_room_id : Text → MatchFoundResult =
        (λ x. record new_match_found_result { room_id = x }) in
      let set_player_side : Text → MatchFoundResult =
        (λ x. record (set_room_id m.room_id) { player_side = x }) in
      let set_ws_endpoint : Text → MatchFoundResult =
        (λ x. record (set_player_side m.player_side) { ws_endpoint = x }) in
      let set_opponent_id : Text → MatchFoundResult =
        (λ x. record (set_ws_endpoint m.ws_endpoint) { opponent_id = x }) in
      read_then w (read_match_found_result w) _ _ _
        (read-string w (read_match_found_result w) 1 m.room_id set_room_id
          (λ x. ap set_room_id (ok.string x)))
        (read_then w (read_match_found_result w) _ _ _
          (read-string w (read_match_found_result w) 2 m.player_side set_player_side
            (λ x. ap set_player_side (ok.string x)))
          (read_then w (read_match_found_result w) _ _ _
            (read-string w (read_match_found_result w) 3 m.ws_endpoint set_ws_endpoint
              (λ x. ap set_ws_endpoint (ok.string x)))
            (read-string w (read_match_found_result w) 4 m.opponent_id set_opponent_id
              (λ x. ap set_opponent_id (ok.string x)))))

pub record MatchmakingUpdate : Type 0 where
  pub status : ℤ
  pub match_result : Option MatchFoundResult
  pub queue_position : ℤ
  pub estimated_wait_seconds : ℤ

abbrev pub new_matchmaking_update : MatchmakingUpdate
new_matchmaking_update = record {
  status = pos 0;
  match_result = none;
  queue_position = pos 0;
  estimated_wait_seconds = pos 0;
}

module _ (w : Wire) where
  unfoldable pub read_matchmaking_update : ℕ → w.Raw → MatchmakingUpdate → MatchmakingUpdate
  unfolding deserialize_match_found_result
  read_matchmaking_update n raw m =
      if n == 1
      then record m { status = w.read_enum raw }
      else (if n == 2
          then record m {
            match_result = some (deserialize_match_found_result w (w.read_message raw));
          }
          else (if n == 3
              then record m { queue_position = w.read_int32 raw }
              else (if n == 4 then record m { estimated_wait_seconds = w.read_int32 raw } else m)))

  unfoldable pub serialize_matchmaking_update : MatchmakingUpdate → List (ℕ × w.Raw)
  unfolding serialize_match_found_result
  serialize_matchmaking_update m =
      put_enum w 1 m.status
      ++ (put_message w 2 (serialize_match_found_result w) m.match_result
          ++ (put_int32 w 3 m.queue_position ++ put_int32 w 4 m.estimated_wait_seconds))

  unfoldable pub deserialize_matchmaking_update : List (ℕ × w.Raw) → MatchmakingUpdate
  unfolding read_matchmaking_update
  deserialize_matchmaking_update fs =
      read_fields w read_matchmaking_update fs new_matchmaking_update

module _ {w : Wire} where
  -- With a wire that reads back what was written, a message whose numbers have 32 bits
  -- is read back as it was written.
  pub matchmaking_update-roundtrip :
      IsFaithful w
      → (m : MatchmakingUpdate) → IsInt32 m.status
      → IsInt32 m.queue_position
      → IsInt32 m.estimated_wait_seconds
      → deserialize_matchmaking_update w (serialize_matchmaking_update w m) ≡ m
  unfolding deserialize_matchmaking_update serialize_matchmaking_update
  matchmaking_update-roundtrip ok m h0 h1 h2 =
      let set_status : ℤ → MatchmakingUpdate =
        (λ x. record new_matchmaking_update { status = x }) in
      let set_match_result : Option MatchFoundResult → MatchmakingUpdate =
        (λ x. record (set_status m.status) { match_result = x }) in
      let set_queue_position : ℤ → MatchmakingUpdate =
        (λ x. record (set_match_result m.match_result) { queue_position = x }) in
      let set_estimated_wait_seconds : ℤ → MatchmakingUpdate =
        (λ x. record (set_queue_position m.queue_position) { estimated_wait_seconds = x }) in
      read_then w (read_matchmaking_update w) _ _ _
        (read-enum w (read_matchmaking_update w) 1 m.status set_status
          (ap set_status (ok.enum m.status h0)))
        (read_then w (read_matchmaking_update w) _ _ _
          (read-message w (read_matchmaking_update w) 2 (serialize_match_found_result w)
            m.match_result set_match_result
            (λ x.
              ap (λ y. set_match_result (some y))
                (ap (deserialize_match_found_result w)
                    (ok.message (serialize_match_found_result w x))
                  ∙ match_found_result-roundtrip ok x)))
          (read_then w (read_matchmaking_update w) _ _ _
            (read-int32 w (read_matchmaking_update w) 3 m.queue_position set_queue_position
              (ap set_queue_position (ok.int32 m.queue_position h1)))
            (read-int32 w (read_matchmaking_update w) 4 m.estimated_wait_seconds
              set_estimated_wait_seconds
              (ap set_estimated_wait_seconds (ok.int32 m.estimated_wait_seconds h2)))))
