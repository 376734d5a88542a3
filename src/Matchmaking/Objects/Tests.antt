-- ===== src/Matchmaking/Objects/Tests.antt =====
-- `toObject` at concrete messages.
use hax_war.Base.{◌≡◌, refl, false, true, none, [], ◌∷◌, map, txt}
use hax_war.Base.Int.{pos}
use hax_war.Matchmaking.Updates.{MatchmakingUpdate}
use hax_war.Matchmaking.Rooms.{ListActiveRoomsResponse}
use hax_war.Matchmaking.Objects.{no_fields, field, undefined, number, object}
use hax_war.Matchmaking.Objects.Messages.{
  ObjectList, matchmaking_update_to_object, list_active_rooms_response_to_object,
}
use hax_war.Matchmaking.Objects.Plain.{plain}
use hax_war.Matchmaking.Objects.Read.{read_list_active_rooms_response}
use hax_war.Matchmaking.Kinds.{list_active_rooms_response}
use hax_war.Matchmaking.Objects.Kinds.{to_object-IsFaithful}

-- What the library does.
abbrev each_room : ObjectList
each_room rs f include = map (f include) rs

abbrev queued : MatchmakingUpdate
queued = record {
  status = pos 0;
  match_result = none;
  queue_position = pos 2;
  estimated_wait_seconds = pos 30;
}

update_object :
    matchmaking_update_to_object false queued
    ≡ object (
        field (txt "status") (number (pos 0)) (
          field (txt "matchResult") undefined (
            field
              (txt "queuePosition")
              (number (pos 2))
              (field (txt "estimatedWaitSeconds") (number (pos 30)) no_fields))))
unfolding matchmaking_update_to_object
update_object = refl

abbrev listed : ListActiveRoomsResponse
listed = record {
  rooms =
      record {
        room_id = txt "room-1";
        phase = txt "Planning";
        current_round = pos 3;
        player_count = pos 2;
        created_at = [];
      }
      ∷ [];
}

to_object-IsFaithful_example :
    (read_list_active_rooms_response (list_active_rooms_response_to_object each_room true listed)
      ≡ listed)
    × (plain (list_active_rooms_response_to_object each_room true listed)
        ≡ list_active_rooms_response_to_object each_room false listed)
to_object-IsFaithful_example =
    to_object-IsFaithful each_room (λ rs f include. refl) list_active_rooms_response true listed
