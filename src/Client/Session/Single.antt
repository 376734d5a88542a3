-- ===== src/Client/Session/Single.antt =====
-- One connection at a time. As long as `connect()` is called only while no socket is alive, a
-- client has at most one live socket or one pending reconnect, and knows the latter's handle.
use hax_war.Base.{
  if_ind, ltb, ℕ, ◌+◌, ◌≤◌, ◌≡◌, refl, ◌≢◌, true, not, some, List, [], ◌∷◌, ◌==◌, filter, any,
  length, sum_by, sum_by-set, All, get_elem?, set, arith, ap, ◌∙◌, Text,
}
use hax_war.Protocol.{Message}
use hax_war.Client.{
  Effect, ReadyState, connecting, opened, closed, Client, clear_reconnect, connect, disconnect,
  handle_close, close_ws, close_current, reconnect, new_client,
}
use hax_war.Client.Events.{receive}
use hax_war.Client.Session.{
  Event, socket_opened, socket_closed, socket_failed, received, timeout_fired, connects,
  disconnects, commands, step, Enabled, alive, live, run,
}

pub record IsSingle (c : Client) : Type 0 where
  pub few : live c + length c.timeouts ≤ 1
  pub tracked : All (λ t. c.reconnect_timeout ≡ some t) c.timeouts

-- The page's discipline.
abbrev pub ConnectsIdle : Client → Event → Type 0
ConnectsIdle c connects = live c ≡ 0
ConnectsIdle c _ = Unit {0}

-- Every event happens where the browser and the page allow it.
abbrev pub IsOrderly : Client → List Event → Type 0
IsOrderly c [] = Unit {0}
IsOrderly c (e ∷ es) = Enabled c e × ConnectsIdle c e × IsOrderly (step c e).0 es

timeouts-clear_reconnect_of :
    (c : Client) (ts : List ℕ)
    → c.timeouts ≡ ts
    → length ts ≤ 1
    → All (λ t. c.reconnect_timeout ≡ some t) ts
    → (clear_reconnect c).timeouts ≡ []
unfolding clear_reconnect
timeouts-clear_reconnect_of c [] e h k = ground arith
timeouts-clear_reconnect_of c (t ∷ []) e h k = ground arith
timeouts-clear_reconnect_of c (t ∷ u ∷ ts) e h k = absurd (omega arith)

pub timeouts-clear_reconnect : (c : Client) → IsSingle c → (clear_reconnect c).timeouts ≡ []
timeouts-clear_reconnect c v =
    timeouts-clear_reconnect_of c c.timeouts refl (omega (arith, v.few)) v.tracked

pub sockets-clear_reconnect : (c : Client) → (clear_reconnect c).sockets ≡ c.sockets
unfolding clear_reconnect
sockets-clear_reconnect c = ground arith

pub connect-IsSingle : (c : Client) → IsSingle c → live c ≡ 0 → IsSingle (connect c).0
unfolding connect
connect-IsSingle c v idle =
    let none_left = timeouts-clear_reconnect c v in
    let same = sockets-clear_reconnect c in
    record { few = rw (none_left, same) (omega arith); tracked = rw none_left tt }

opened-IsSingle :
    (c : Client) (i : ℕ)
    → IsSingle c
    → get_elem? c.sockets i ≡ some connecting
    → IsSingle (step c (socket_opened i)).0
unfolding step
opened-IsSingle c i v h = record {
  few = omega (arith, sum_by-set alive c.sockets i opened h, v.few);
  tracked = v.tracked;
}

pub alive-pos : (s : ReadyState) → s ≢ closed → alive s ≡ 1
alive-pos closed h = absurd (h refl)
alive-pos _ h = refl

no_timeouts : (c : Client) → c.timeouts ≡ [] → live c ≤ 1 → IsSingle c
no_timeouts c e h = record { few = rw e (omega arith); tracked = rw e tt }

length-zero {ℓ} : {A : Type ℓ} (xs : List A) → length xs ≤ 0 → xs ≡ []
length-zero [] h = refl
length-zero (x ∷ xs) h = absurd (omega arith)

handle_close-IsSingle : (c : Client) → live c ≡ 0 → c.timeouts ≡ [] → IsSingle (handle_close c).0
unfolding handle_close
handle_close-IsSingle c idle e =
    if_ind (λ (r : Client × List Effect). IsSingle r.0) c.is_closed_intentionally
      (no_timeouts c e (omega arith))
      (record { few = rw e (omega (arith, idle)); tracked = rw e (refl, tt) })

closed-IsSingle :
    (c : Client) (i : ℕ) (s : ReadyState)
    → IsSingle c
    → get_elem? c.sockets i ≡ some s
    → s ≢ closed
    → IsSingle (step c (socket_closed i)).0
unfolding step
closed-IsSingle c i s v h ne =
    let fewer = sum_by-set alive c.sockets i closed h in
    let one = alive-pos s ne in
    handle_close-IsSingle (record c { sockets = set c.sockets i closed })
      (omega (arith, fewer, one, v.few)) (length-zero c.timeouts (omega (arith, fewer, one, v.few)))

fired_timeouts :
    (ts : List ℕ) (t : ℕ)
    → any (λ u. u == t) ts ≡ true
    → length ts ≤ 1
    → (filter (λ u. not (u == t)) ts ≡ []) × (length ts ≡ 1)
fired_timeouts [] t h k = cc
fired_timeouts (u ∷ []) t h k = ground arith
fired_timeouts (u ∷ w ∷ ts) t h k = absurd (omega arith)

fired-IsSingle :
    (c : Client) (t : ℕ)
    → IsSingle c
    → any (λ u. u == t) c.timeouts ≡ true
    → IsSingle (step c (timeout_fired t)).0
unfolding step reconnect
fired-IsSingle c t v h =
    let (gone, one) = fired_timeouts c.timeouts t h (omega (arith, v.few)) in
    let c' = record c { timeouts = filter (λ u. not (u == t)) c.timeouts } in
    connect-IsSingle c' (no_timeouts c' gone (omega (arith, v.few))) (omega (arith, v.few, one))

alive-close_ws : (s : ReadyState) → alive (close_ws s) ≡ alive s
alive-close_ws closed = refl
alive-close_ws _ = refl

close_current_parts :
    (c : Client) (ss : List ReadyState)
    → c.sockets ≡ ss
    → (live (close_current c ss).0 ≡ live c) × ((close_current c ss).0.timeouts ≡ c.timeouts)
unfolding close_current
close_current_parts c [] e = (refl, refl)
close_current_parts c (s ∷ ss) e = (omega (arith, alive-close_ws s, ap (sum_by alive) e), refl)

-- What `disconnect` does to the sockets and the timeouts.
disconnect_parts :
    (c : Client)
    → (live (disconnect c).0 ≡ live c)
      × ((disconnect c).0.timeouts
          ≡ (clear_reconnect (record c { is_closed_intentionally = true })).timeouts)
unfolding disconnect
disconnect_parts c =
    let c' = clear_reconnect (record c { is_closed_intentionally = true }) in
    let same =
      ap (sum_by alive) (sockets-clear_reconnect (record c { is_closed_intentionally = true })) in
    let parts = close_current_parts c' c'.sockets refl in (parts.0 ∙ same, parts.1)

-- A disconnected client waits for no reconnect.
pub timeouts-disconnect : (c : Client) → IsSingle c → (disconnect c).0.timeouts ≡ []
timeouts-disconnect c v =
    (disconnect_parts c).1
    ∙ timeouts-clear_reconnect _ (record { few = v.few; tracked = v.tracked })

disconnect-IsSingle : (c : Client) → IsSingle c → IsSingle (disconnect c).0
disconnect-IsSingle c v =
    no_timeouts _ (timeouts-disconnect c v) (omega (arith, (disconnect_parts c).0, v.few))

receive-IsSingle : (c : Client) (m : Message) → IsSingle c → IsSingle (receive c m).0
unfolding receive
receive-IsSingle c m v =
    if_ind IsSingle (ltb 0 m.sequence) (record { few = v.few; tracked = v.tracked }) v

-- Every event that the browser and the page allow keeps at most one live socket or pending
-- reconnect, and the handle of a pending reconnect in `reconnect_timeout`.
pub step-IsSingle :
    (c : Client) (e : Event) → IsSingle c → Enabled c e → ConnectsIdle c e → IsSingle (step c e).0
unfolding step
step-IsSingle c (socket_opened i) v h idle = opened-IsSingle c i v h
step-IsSingle c (socket_closed i) v (s, h, ne) idle = closed-IsSingle c i s v h ne
step-IsSingle c (socket_failed m) v h idle = v
step-IsSingle c (received m) v h idle = receive-IsSingle c m v
step-IsSingle c (timeout_fired t) v h idle = fired-IsSingle c t v h
step-IsSingle c connects v h idle = connect-IsSingle c v idle
step-IsSingle c disconnects v h idle = disconnect-IsSingle c v
step-IsSingle c (commands m) v h idle = v

run-IsSingle_of : (c : Client) (es : List Event) → IsSingle c → IsOrderly c es → IsSingle (run c es)
unfolding run
run-IsSingle_of c [] v o = v
run-IsSingle_of c (e ∷ es) v (h, idle, o) =
    run-IsSingle_of (step c e).0 es (step-IsSingle c e v h idle) o

-- From a new client, after any list of events that the browser allows and in which the page calls
-- `connect()` only while no socket is alive: at most one socket is alive or one reconnect is
-- pending, and `reconnect_timeout` holds the handle of a pending reconnect.
pub run-IsSingle :
    (host : Text) (es : List Event)
    → IsOrderly (new_client host) es
    → IsSingle (run (new_client host) es)
unfolding new_client
run-IsSingle host es o =
    run-IsSingle_of (new_client host) es (record { few = omega arith; tracked = tt }) o
