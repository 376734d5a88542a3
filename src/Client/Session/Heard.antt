-- ===== src/Client/Session/Heard.antt =====
-- What a client sends goes out on an open socket.
use hax_war.Base.{ℕ, ◌≡◌, true, ltb, List, [], ◌∷◌, if_ind, if_cases, All, All-append, set}
use hax_war.Protocol.{
  GameEvent, game_started, round_started, units_departed, units_arrived, encounter_occurred,
  encounter_resolved, round_resolved, game_over, other_event, Message, Body, state_update,
  game_event, error_message, pong, other_message, Command, get_state, reconnect_sync,
}
use hax_war.Client.{
  Client, Effect, sent, log, is_open, send, handle_open, handle_close, handle_error, reconnect,
  connect, disconnect, close_current, on_game_event, ReadyState, opened, closed, track_sequence,
  clear_reconnect,
}
use hax_war.Client.Events.{
  receive, event_log, event_follow_up, handle_game_event, handle_body, handle_message,
}
use hax_war.Client.Session.{
  Event, socket_opened, socket_closed, socket_failed, received, timeout_fired, connects,
  disconnects, commands, step,
}

-- A command is sent only if the newest socket is open.
abbrev pub IsHeard : Client → Effect → Type 0
IsHeard c (sent m) = is_open c.sockets ≡ true
IsHeard c _ = Unit {0}

abbrev pub AreHeard : Client → List Effect → Type 0
AreHeard c es = All (IsHeard c) es

pub send-AreHeard : (c : Client) (m : Command) → AreHeard c (send c m)
unfolding send
send-AreHeard c m = if_cases (AreHeard c) (is_open c.sockets) (λ up. (up, tt)) (λ down. tt)

event_log-AreHeard : (c : Client) (round : ℕ) (e : GameEvent) → AreHeard c (event_log round e)
unfolding event_log log
event_log-AreHeard c round game_started = (tt, (tt, tt))
event_log-AreHeard c round (round_started n) = (tt, (tt, tt))
event_log-AreHeard c round (units_departed s n k) = (tt, (tt, tt))
event_log-AreHeard c round (units_arrived s n k) = (tt, (tt, tt))
event_log-AreHeard c round (encounter_occurred e) = (tt, (tt, tt))
event_log-AreHeard c round (encounter_resolved a b) = (tt, (tt, tt))
event_log-AreHeard c round (round_resolved r) = (tt, (tt, tt))
event_log-AreHeard c round (game_over w r) = (tt, (tt, tt))
event_log-AreHeard c round other_event = tt

follow_up-AreHeard : (c : Client) (e : GameEvent) → AreHeard c (event_follow_up c e)
unfolding event_follow_up
follow_up-AreHeard c (round_resolved r) = send-AreHeard c get_state
follow_up-AreHeard c (encounter_occurred e) = (tt, tt)
follow_up-AreHeard c (game_over w r) = (tt, tt)
follow_up-AreHeard c game_started = tt
follow_up-AreHeard c (round_started n) = tt
follow_up-AreHeard c (units_departed s n k) = tt
follow_up-AreHeard c (units_arrived s n k) = tt
follow_up-AreHeard c (encounter_resolved a b) = tt
follow_up-AreHeard c other_event = tt

body-AreHeard : (c : Client) (m : Message) (b : Body) → AreHeard c (handle_body c m b)
unfolding handle_body handle_game_event log
body-AreHeard c m (state_update s) = (tt, tt)
body-AreHeard c m (game_event e) =
    let logged = event_log-AreHeard c m.round e in
    let told =
      All-append (IsHeard c) (event_log m.round e) (event_follow_up c e) logged
        (follow_up-AreHeard c e) in
    All-append (IsHeard c) (handle_game_event c m.round e) (on_game_event m ∷ []) told (tt, tt)
body-AreHeard c m (error_message t) = (tt, (tt, tt))
body-AreHeard c m pong = tt
body-AreHeard c m other_message = tt

open-AreHeard : (c : Client) → AreHeard c (handle_open c)
unfolding handle_open log
open-AreHeard c =
    let synced = send-AreHeard c (reconnect_sync c.last_seen_sequence) in
    let asked =
      if_ind (AreHeard c) (ltb 0 c.last_seen_sequence) (tt, (tt, synced))
        (send-AreHeard c get_state) in
    (tt, (tt, (tt, asked)))

close-AreHeard : (c : Client) → AreHeard (handle_close c).0 (handle_close c).1
unfolding handle_close log
close-AreHeard c =
    if_ind (λ (r : Client × List Effect). AreHeard r.0 r.1) c.is_closed_intentionally
      (tt, (tt, (tt, tt))) (tt, (tt, (tt, (tt, tt))))

leave-AreHeard : (c d : Client) (ss : List ReadyState) → AreHeard d (close_current c ss).1
unfolding close_current
leave-AreHeard c d [] = tt
leave-AreHeard c d (s ∷ ss) = (tt, tt)

-- Whatever happens to a client: what it then sends goes out on a socket that is open.
pub step-AreHeard : (c : Client) (e : Event) → AreHeard (step c e).0 (step c e).1
unfolding step reconnect connect disconnect receive handle_message handle_error log
step-AreHeard c (socket_opened i) = open-AreHeard (record c { sockets = set c.sockets i opened })
step-AreHeard c (socket_closed i) = close-AreHeard (record c { sockets = set c.sockets i closed })
step-AreHeard c (socket_failed m) = (tt, (tt, tt))
step-AreHeard c (received m) = body-AreHeard (track_sequence c m) m m.body
step-AreHeard c (timeout_fired t) = (tt, (tt, (tt, tt)))
step-AreHeard c connects = (tt, tt)
step-AreHeard c disconnects =
    let cleared = clear_reconnect (record c { is_closed_intentionally = true }) in
    leave-AreHeard cleared (disconnect c).0 cleared.sockets
step-AreHeard c (commands m) = send-AreHeard c m
