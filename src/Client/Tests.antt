-- ===== src/Client/Tests.antt =====
-- Runs of the client at concrete inputs.
use hax_war.Base.{map, arith, ℕ, ◌≡◌, refl, true, false, some, List, [], ◌∷◌, ◌++◌, Text, txt, show}
use hax_war.Protocol.{side_a, boxed, Message, units_departed, pong, reconnect_sync}
use hax_war.Client.{connecting, opened, Client, new_client, console_log, on_log}
use hax_war.Client.Events.{event_log}
use hax_war.Base.Int.{pos}
use hax_war.Matchmaking.Updates.{MatchFoundResult, MatchmakingUpdate, new_matchmaking_update}
use hax_war.Client.Matchmaking.{
  result_of, StreamEvent, pending, resolved, update, error, await_match,
}
use hax_war.Client.Statuses.{with_status, other_statuses_pending}
use hax_war.Matchmaking.Status
use hax_war.Matchmaking.Status.{MatchmakingStatus}
use hax_war.Client.Stream.{find_match, sends, find_match-Served}
use hax_war.Matchmaking.Tagged.{tagged, tagged-IsFaithful}
use hax_war.Matchmaking.Hostname.{slashes}
use hax_war.Matchmaking.Service.{Reaches}
use hax_war.Matchmaking.Binary.{deserialize_binary_join_queue_request}
use hax_war.Client.Session.{
  Event, socket_opened, socket_closed, received, timeout_fired, connects, disconnects, step, run,
  Enabled,
}
use hax_war.Client.Session.Single.{IsOrderly}
use hax_war.Client.Session.Link.{idle}
use hax_war.Client.Session.Machine.{Implements, run-Implements}
use hax_war.Client.Session.Quiet.{second_connection_leaks}
use hax_war.Client.Session.Sequence.{sent_commands, open_syncs}

abbrev page : Text
page = txt "localhost"

abbrev message : ℕ → Message
message n = record { sequence = n; round = 0; body = pong }

-- Connect, receive two events, lose the connection, and reconnect.
abbrev dropped : List Event
dropped =
    connects
    ∷ socket_opened 0
    ∷ received (message 4)
    ∷ received (message 2)
    ∷ socket_closed 0
    ∷ timeout_fired 1
    ∷ []

dropped-IsOrderly : IsOrderly (new_client page) dropped
unfolding new_client step
dropped-IsOrderly =
    (tt, refl, (refl, tt, (tt, tt, (tt, tt, ((opened, refl, λ e. cc), tt, (refl, tt, tt))))))

run-Implements_example : Implements idle dropped (run (new_client page) dropped)
run-Implements_example = run-Implements page dropped dropped-IsOrderly

open_syncs_example :
    sent_commands (step (run (new_client page) dropped) (socket_opened 0)).1 ≡ reconnect_sync 4 ∷ []
unfolding run step new_client
open_syncs_example = open_syncs page dropped refl

abbrev leaving : List Event
leaving = socket_closed 0 ∷ []

abbrev connected : Client
connected = run (new_client page) dropped

second_connection_leaks_example :
    let two = record (new_client page) {
      sockets = opened ∷ opened ∷ [];
      is_closed_intentionally = false;
    } in
    let gone = run two (socket_closed 0 ∷ socket_closed 1 ∷ disconnects ∷ []) in
    (gone.is_closed_intentionally ≡ true)
    × Enabled gone (timeout_fired (new_client page).next_timeout)
    × ((step gone (timeout_fired (new_client page).next_timeout)).0.sockets
        ≡ connecting ∷ gone.sockets)
second_connection_leaks_example = second_connection_leaks (new_client page) []

still_here : connected.is_closed_intentionally ≡ false
unfolding run step new_client
still_here = refl

abbrev found : MatchFoundResult
found = record {
  room_id = txt "r1";
  player_side = txt "A";
  ws_endpoint = [];
  opponent_id = txt "bob";
}

abbrev searching : List StreamEvent
searching =
    update new_matchmaking_update ∷ update (record new_matchmaking_update { status = pos 3 }) ∷ []

abbrev brought : List StreamEvent
brought =
    searching
    ++ (update (record new_matchmaking_update { status = pos 1; match_result = some found })
        ∷ error (txt "gone")
        ∷ [])

find_match-Served_example :
    let result =
      find_match tagged
        (txt "http://localhost" ++ slashes 0)
        (new_client page)
        (txt "ann")
        (txt "x1")
        (map (sends tagged) brought) in
    Reaches
      (txt "http://localhost" ++ txt "/matchmaking.MatchmakingService/JoinQueue")
      (deserialize_binary_join_queue_request tagged)
      (record { player_id = txt "ann"; rating = pos 1500 })
      result.0
    × (result.1.1 ≡ resolved (result_of found))
find_match-Served_example =
    find_match-Served tagged-IsFaithful (txt "http://localhost") 0 (new_client page) (txt "ann")
      (txt "x1") brought refl
      (
        (omega arith, omega arith, omega arith),
        ((omega arith, omega arith, omega arith), ((omega arith, omega arith, omega arith), tt)),
      )

-- A search that the server gives up.
abbrev given_up : List (MatchmakingStatus × MatchmakingUpdate)
given_up =
    (Status.searching, new_matchmaking_update)
    ∷ (Status.searching, record new_matchmaking_update { queue_position = pos 2 })
    ∷ (Status.timeout, new_matchmaking_update)
    ∷ []

other_statuses_pending_example :
    await_match (new_client page, pending) (map with_status given_up) ≡ (new_client page, pending)
other_statuses_pending_example =
    other_statuses_pending (new_client page) given_up (tt, (tt, (tt, tt)))

-- A line of the log, with its numbers in decimal.
departed_line :
    event_log 0 (units_departed side_a (boxed 5) 12)
    ≡ console_log (txt "🚀 A측 5번 노드에서 12기 출발") ∷ on_log (txt "🚀 A측 5번 노드에서 12기 출발") ∷ []
unfolding event_log show
departed_line = refl
