-- ===== src/Client/Session/Traffic.antt =====
-- What a message makes the client call and send.
use hax_war.Base.{
  append-nil, ℕ, ◌≡◌, refl, ◌∙◌, ap, Bool, true, false, ◌&&◌, List, [], ◌∷◌, ◌++◌, if◌then◌else◌,
  arith,
}
use hax_war.Protocol.{
  GameEvent, game_started, round_started, units_departed, units_arrived, encounter_occurred,
  encounter_resolved, round_resolved, game_over, other_event, Message, Body, state_update,
  game_event, error_message, pong, other_message, Command, get_state,
}
use hax_war.Client.{
  Client, Effect, track_sequence, is_open, send, on_state_update, on_game_event, on_encounter,
  on_game_over,
}
use hax_war.Client.Events.{receive, event_log, event_follow_up, handle_game_event, handle_body}
use hax_war.Client.Session.Sequence.{sent_commands, sent_commands-append}

abbrev pub resolves_round : Body → Bool
resolves_round (game_event (round_resolved r)) = true
resolves_round _ = false

sent-event_log : (round : ℕ) (e : GameEvent) → sent_commands (event_log round e) ≡ []
unfolding event_log
sent-event_log round game_started = refl
sent-event_log round (round_started n) = refl
sent-event_log round (units_departed s n k) = refl
sent-event_log round (units_arrived s n k) = refl
sent-event_log round (encounter_occurred e) = refl
sent-event_log round (encounter_resolved a b) = refl
sent-event_log round (round_resolved r) = refl
sent-event_log round (game_over w r) = refl
sent-event_log round other_event = refl

sent-send :
    (c : Client) (m : Command)
    → sent_commands (send c m) ≡ (if is_open c.sockets then m ∷ [] else [])
unfolding send
sent-send c m = ground arith

sent-follow_up :
    (c : Client) (e : GameEvent)
    → sent_commands (event_follow_up c e)
      ≡ (if resolves_round (game_event e) && is_open c.sockets then get_state ∷ [] else [])
unfolding event_follow_up
sent-follow_up c (round_resolved r) = sent-send c get_state
sent-follow_up c game_started = refl
sent-follow_up c (round_started n) = refl
sent-follow_up c (units_departed s n k) = refl
sent-follow_up c (units_arrived s n k) = refl
sent-follow_up c (encounter_occurred e) = refl
sent-follow_up c (encounter_resolved a b) = refl
sent-follow_up c (game_over w r) = refl
sent-follow_up c other_event = refl

sent-handle_game_event :
    (c : Client) (round : ℕ) (e : GameEvent)
    → sent_commands (handle_game_event c round e)
      ≡ (if resolves_round (game_event e) && is_open c.sockets then get_state ∷ [] else [])
unfolding handle_game_event
sent-handle_game_event c round e =
    sent_commands-append (event_log round e) (event_follow_up c e)
    ∙ ap (λ xs. xs ++ sent_commands (event_follow_up c e)) (sent-event_log round e)
    ∙ sent-follow_up c e

-- The calls of the user interface's handlers, without the log.
abbrev pub callbacks : List Effect → List Effect
callbacks [] = []
callbacks (on_state_update s ∷ es) = on_state_update s ∷ callbacks es
callbacks (on_game_event m ∷ es) = on_game_event m ∷ callbacks es
callbacks (on_encounter e ∷ es) = on_encounter e ∷ callbacks es
callbacks (on_game_over w ∷ es) = on_game_over w ∷ callbacks es
callbacks (_ ∷ es) = callbacks es

abbrev event_callbacks : GameEvent → List Effect
event_callbacks (encounter_occurred e) = on_encounter e ∷ []
event_callbacks (game_over winner reason) = on_game_over winner ∷ []
event_callbacks _ = []

-- What a message is to call, in order.
abbrev pub expected_callbacks : Message → Body → List Effect
expected_callbacks m (state_update s) = on_state_update s ∷ []
expected_callbacks m (game_event e) = event_callbacks e ++ (on_game_event m ∷ [])
expected_callbacks m _ = []

callbacks-append : (xs ys : List Effect) → callbacks (xs ++ ys) ≡ callbacks xs ++ callbacks ys
callbacks-append [] ys = refl
callbacks-append (on_state_update s ∷ xs) ys = ap (◌∷◌ (on_state_update s)) (callbacks-append xs ys)
callbacks-append (on_game_event m ∷ xs) ys = ap (◌∷◌ (on_game_event m)) (callbacks-append xs ys)
callbacks-append (on_encounter e ∷ xs) ys = ap (◌∷◌ (on_encounter e)) (callbacks-append xs ys)
callbacks-append (on_game_over w ∷ xs) ys = ap (◌∷◌ (on_game_over w)) (callbacks-append xs ys)
callbacks-append (_ ∷ xs) ys = callbacks-append xs ys

callbacks-send : (c : Client) (m : Command) → callbacks (send c m) ≡ []
unfolding send
callbacks-send c m = ground arith

callbacks-handle_game_event :
    (c : Client) (round : ℕ) (e : GameEvent)
    → callbacks (handle_game_event c round e) ≡ event_callbacks e
unfolding handle_game_event event_log event_follow_up
callbacks-handle_game_event c round (round_resolved r) = callbacks-send c get_state
callbacks-handle_game_event c round game_started = refl
callbacks-handle_game_event c round (round_started n) = refl
callbacks-handle_game_event c round (units_departed s n k) = refl
callbacks-handle_game_event c round (units_arrived s n k) = refl
callbacks-handle_game_event c round (encounter_occurred e) = refl
callbacks-handle_game_event c round (encounter_resolved a b) = refl
callbacks-handle_game_event c round (game_over w r) = refl
callbacks-handle_game_event c round other_event = refl

handle_body_lem :
    (c : Client) (m : Message) (body : Body)
    → (callbacks (handle_body c m body) ≡ expected_callbacks m body)
      × (sent_commands (handle_body c m body)
          ≡ (if resolves_round body && is_open c.sockets then get_state ∷ [] else []))
unfolding handle_body
handle_body_lem c m (state_update s) = (refl, refl)
handle_body_lem c m (game_event event) = (
  callbacks-append (handle_game_event c m.round event) _
      ∙ ap (λ xs. xs ++ (on_game_event m ∷ [])) (callbacks-handle_game_event c m.round event),
  sent_commands-append (handle_game_event c m.round event) _
      ∙ append-nil _
      ∙ sent-handle_game_event c m.round event,
)
handle_body_lem c m (error_message t) = (refl, refl)
handle_body_lem c m pong = (refl, refl)
handle_body_lem c m other_message = (refl, refl)

sockets-track_sequence : (c : Client) (m : Message) → (track_sequence c m).sockets ≡ c.sockets
unfolding track_sequence
sockets-track_sequence c m = ground arith

-- A message calls the state handler for a state update; the encounter or game-over handler for
-- its event, and after it the general event handler for every game event; and no handler for the
-- others. It sends `get_state` if it resolves a round and the newest socket is open, and
-- otherwise nothing.
pub receive_routes :
    (c : Client) (m : Message)
    → (callbacks (receive c m).1 ≡ expected_callbacks m m.body)
      × (sent_commands (receive c m).1
          ≡ (if resolves_round m.body && is_open c.sockets then get_state ∷ [] else []))
unfolding receive
receive_routes c m =
    let parts = handle_body_lem (track_sequence c m) m m.body in
    (
      parts.0,
      parts.1
          ∙ ap (λ ss. if resolves_round m.body && is_open ss then get_state ∷ [] else [])
              (sockets-track_sequence c m),
    )
