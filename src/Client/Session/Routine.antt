-- ===== src/Client/Session/Routine.antt =====
-- What the browser's events alone make a client do.
use hax_war.Base.{
  true, ◌<◌, length, any, ◌==◌, arith, ℕ, ◌≡◌, refl, ltb, List, [], ◌∷◌, if_ind, set, All,
  All-append,
}
use hax_war.Protocol.{
  GameEvent, game_started, round_started, units_departed, units_arrived, encounter_occurred,
  encounter_resolved, round_resolved, game_over, other_event, Message, Body, state_update,
  game_event, error_message, pong, other_message, Command, get_state, move_units,
  encounter_decision, reconnect_sync,
}
use hax_war.Client.{
  Client, Effect, sent, open_socket, log, is_open, send, handle_open, handle_close, handle_error,
  reconnect, connect, ws_url, opened, track_sequence, on_game_event,
}
use hax_war.Client.Events.{
  receive, event_log, event_follow_up, handle_game_event, handle_body, handle_message,
}
use hax_war.Client.Session.{
  Event, socket_opened, socket_closed, socket_failed, received, timeout_fired, connects,
  disconnects, commands, step, Enabled, IsFromBrowser,
}

-- No order of the player, and a socket only to the room that the client knows, for a pending
-- reconnect.
abbrev pub IsRoutine : Client → Effect → Type 0
IsRoutine c (sent (move_units f t n)) = ⊥
IsRoutine c (sent (encounter_decision f t d)) = ⊥
IsRoutine c (open_socket url) = (url ≡ ws_url c) × (0 < length c.timeouts)
IsRoutine c _ = Unit {0}

abbrev AreRoutine : Client → List Effect → Type 0
AreRoutine c es = All (IsRoutine c) es

send-AreRoutine : (c d : Client) (m : Command) → IsRoutine c (sent m) → AreRoutine c (send d m)
unfolding send
send-AreRoutine c d m h = if_ind (AreRoutine c) (is_open d.sockets) (h, tt) tt

event_log-AreRoutine : (c : Client) (round : ℕ) (e : GameEvent) → AreRoutine c (event_log round e)
unfolding event_log log
event_log-AreRoutine c round game_started = (tt, (tt, tt))
event_log-AreRoutine c round (round_started n) = (tt, (tt, tt))
event_log-AreRoutine c round (units_departed s n k) = (tt, (tt, tt))
event_log-AreRoutine c round (units_arrived s n k) = (tt, (tt, tt))
event_log-AreRoutine c round (encounter_occurred e) = (tt, (tt, tt))
event_log-AreRoutine c round (encounter_resolved a b) = (tt, (tt, tt))
event_log-AreRoutine c round (round_resolved r) = (tt, (tt, tt))
event_log-AreRoutine c round (game_over w r) = (tt, (tt, tt))
event_log-AreRoutine c round other_event = tt

follow_up-AreRoutine : (c d : Client) (e : GameEvent) → AreRoutine c (event_follow_up d e)
unfolding event_follow_up
follow_up-AreRoutine c d (round_resolved r) = send-AreRoutine c d get_state tt
follow_up-AreRoutine c d (encounter_occurred e) = (tt, tt)
follow_up-AreRoutine c d (game_over w r) = (tt, tt)
follow_up-AreRoutine c d game_started = tt
follow_up-AreRoutine c d (round_started n) = tt
follow_up-AreRoutine c d (units_departed s n k) = tt
follow_up-AreRoutine c d (units_arrived s n k) = tt
follow_up-AreRoutine c d (encounter_resolved a b) = tt
follow_up-AreRoutine c d other_event = tt

body-AreRoutine : (c d : Client) (m : Message) (b : Body) → AreRoutine c (handle_body d m b)
unfolding handle_body handle_game_event log
body-AreRoutine c d m (state_update s) = (tt, tt)
body-AreRoutine c d m (game_event e) =
    let logged = event_log-AreRoutine c m.round e in
    let told =
      All-append (IsRoutine c) (event_log m.round e) (event_follow_up d e) logged
        (follow_up-AreRoutine c d e) in
    All-append (IsRoutine c) (handle_game_event d m.round e) (on_game_event m ∷ []) told (tt, tt)
body-AreRoutine c d m (error_message t) = (tt, (tt, tt))
body-AreRoutine c d m pong = tt
body-AreRoutine c d m other_message = tt

open-AreRoutine : (c d : Client) → AreRoutine c (handle_open d)
unfolding handle_open log
open-AreRoutine c d =
    let synced = send-AreRoutine c d (reconnect_sync d.last_seen_sequence) tt in
    (
      tt,
      (
        tt,
        (
          tt,
          if_ind (AreRoutine c) (ltb 0 d.last_seen_sequence) (tt, (tt, synced))
              (send-AreRoutine c d get_state tt),
        ),
      ),
    )

close-AreRoutine : (c d : Client) → AreRoutine c (handle_close d).1
unfolding handle_close log
close-AreRoutine c d =
    if_ind (λ (r : Client × List Effect). AreRoutine c r.1) d.is_closed_intentionally
      (tt, (tt, (tt, tt))) (tt, (tt, (tt, (tt, tt))))

length-any : (t : ℕ) (ts : List ℕ) → any (λ u. u == t) ts ≡ true → 0 < length ts
length-any t [] h = cc
length-any t (u ∷ ts) h = omega arith

-- Of what the browser does to a client nothing makes it send an order of the player, and every
-- socket that it opens leads to its room, and takes the place of a pending reconnect.
pub step-AreRoutine :
    (c : Client) (e : Event) → Enabled c e → IsFromBrowser e → All (IsRoutine c) (step c e).1
unfolding step reconnect connect receive handle_message handle_error ws_url log
step-AreRoutine c (socket_opened i) h k =
    open-AreRoutine c (record c { sockets = set c.sockets i opened })
step-AreRoutine c (socket_closed i) h k = close-AreRoutine c _
step-AreRoutine c (socket_failed m) h k = (tt, (tt, tt))
step-AreRoutine c (received m) h k = body-AreRoutine c (track_sequence c m) m m.body
step-AreRoutine c (timeout_fired t) h k = (tt, (tt, ((refl, length-any t c.timeouts h), tt)))
step-AreRoutine c connects h k = absurd k
step-AreRoutine c disconnects h k = absurd k
step-AreRoutine c (commands m) h k = absurd k
