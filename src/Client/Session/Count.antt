-- ===== src/Client/Session/Count.antt =====
-- How many connections a client has: live sockets and pending reconnects.
use hax_war.Base.{
  ℕ, ◌+◌, ◌≤◌, ◌<◌, ◌≡◌, ◌≢◌, true, false, not, some, List, [], ◌∷◌, ◌==◌, filter, any, length,
  sum_by-set, get_elem?, set, if_ind, Option_cases, ltb, arith, Bool-cases, inl, inr, ◌||◌,
}
use hax_war.Protocol.{Message}
use hax_war.Client.{
  Effect, ReadyState, opened, closed, Client, clear_reconnect, connect, handle_close, reconnect,
}
use hax_war.Client.Events.{receive}
use hax_war.Client.Session.{
  Event, socket_opened, socket_closed, socket_failed, received, timeout_fired, connects,
  disconnects, commands, step, Enabled, IsFromBrowser, alive, live,
}
use hax_war.Client.Session.Single.{alive-pos}

abbrev pub connections : Client → ℕ
connections c = live c + length c.timeouts

length-filter-le : (t : ℕ) (ts : List ℕ) → length (filter (λ u. not (u == t)) ts) ≤ length ts
length-filter-le t [] = omega arith
length-filter-le t (u ∷ ts) =
    if_ind (λ (us : List ℕ). length us ≤ length (u ∷ ts)) (not (u == t))
      (omega (arith, length-filter-le t ts)) (omega (arith, length-filter-le t ts))

length-filter-lt :
    (t : ℕ) (ts : List ℕ)
    → any (λ u. u == t) ts ≡ true
    → length (filter (λ u. not (u == t)) ts) < length ts
length-filter-lt t [] h = cc
length-filter-lt t (u ∷ ts) h = elim (Bool-cases (u == t)) [
  | inl same ↦ rw same (omega (arith, length-filter-le t ts))
  | inr other ↦ rw other (omega (arith, length-filter-lt t ts (rest other h)))
]
  where
    rest :
        (u == t) ≡ false → ((u == t) || any (λ u. u == t) ts) ≡ true → any (λ u. u == t) ts ≡ true
    rest other h = cc

clear_reconnect-connections : (c : Client) → connections (clear_reconnect c) ≤ connections c
unfolding clear_reconnect
clear_reconnect-connections c =
    Option_cases (λ (d : Client). connections d ≤ connections c) c.reconnect_timeout
      (λ e. omega arith) (λ h e. omega (arith, length-filter-le h c.timeouts))

-- `connect()` adds one connection at most.
pub connect-connections : (c : Client) → connections (connect c).0 ≤ 1 + connections c
unfolding connect
connect-connections c = omega (arith, clear_reconnect-connections c)

handle_close-connections : (c : Client) → connections (handle_close c).0 ≤ 1 + connections c
unfolding handle_close
handle_close-connections c =
    if_ind (λ (r : Client × List Effect). connections r.0 ≤ 1 + connections c)
      c.is_closed_intentionally (omega arith) (omega arith)

receive-connections : (c : Client) (m : Message) → connections (receive c m).0 ≤ connections c
unfolding receive
receive-connections c m =
    if_ind (λ (d : Client). connections d ≤ connections c) (ltb 0 m.sequence) (omega arith)
      (omega arith)

closed-connections :
    (c : Client) (i : ℕ) (s : ReadyState)
    → get_elem? c.sockets i ≡ some s
    → s ≢ closed
    → connections (step c (socket_closed i)).0 ≤ connections c
unfolding step
closed-connections c i s h ne = omega (
  arith,
  handle_close-connections (record c { sockets = set c.sockets i closed }),
  sum_by-set alive c.sockets i closed h,
  alive-pos s ne,
)

fired-connections :
    (c : Client) (t : ℕ)
    → any (λ u. u == t) c.timeouts ≡ true
    → connections (step c (timeout_fired t)).0 ≤ connections c
unfolding step reconnect
fired-connections c t h = omega (
  arith,
  length-filter-lt t c.timeouts h,
  connect-connections (record c { timeouts = filter (λ u. not (u == t)) c.timeouts }),
)

-- Of what the browser does to a client nothing adds a connection: a socket that closes makes way
-- for a reconnect, and a reconnect for a socket.
pub step-connections :
    (c : Client) (e : Event)
    → Enabled c e
    → IsFromBrowser e
    → connections (step c e).0 ≤ connections c
unfolding step
step-connections c (socket_opened i) h k = omega (arith, sum_by-set alive c.sockets i opened h)
step-connections c (socket_closed i) (s, h, ne) k = closed-connections c i s h ne
step-connections c (socket_failed m) h k = omega arith
step-connections c (received m) h k = receive-connections c m
step-connections c (timeout_fired t) h k = fired-connections c t h
step-connections c connects h k = absurd k
step-connections c disconnects h k = absurd k
step-connections c (commands m) h k = absurd k
