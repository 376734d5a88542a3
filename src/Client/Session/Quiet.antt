-- ===== src/Client/Session/Quiet.antt =====
-- After `disconnect()`, and what a second connection does to it.
use hax_war.Base.{ℕ, ◌≡◌, refl, ◌≢◌, true, false, List, [], ◌∷◌, length, arith}
use hax_war.Client.{ReadyState, connecting, opened, Client}
use hax_war.Client.Session.{
  Event, socket_closed, timeout_fired, connects, disconnects, step, Enabled, run,
}

-- The user has left, and no reconnect is pending.
pub record IsQuiet (sockets : ℕ) (c : Client) : Type 0 where
  pub intentional : c.is_closed_intentionally ≡ true
  pub silent : c.timeouts ≡ []
  pub none_new : length c.sockets ≡ sockets

-- The browser allows the events, and none of them is a call of `connect()`.
abbrev pub AvoidsConnect : Client → List Event → Type 0
AvoidsConnect c [] = Unit {0}
AvoidsConnect c (e ∷ es) = Enabled c e × (e ≢ connects) × AvoidsConnect (step c e).0 es

-- A second call of `connect()` breaks this. If two sockets are alive and both close, the handle
-- of the first reconnect is overwritten: `disconnect()` leaves it pending, and when it fires the
-- client opens a socket although the user has left.
pub second_connection_leaks :
    (c : Client) (rest : List ReadyState)
    → let two = record c { sockets = opened ∷ opened ∷ rest; is_closed_intentionally = false } in
      let gone = run two (socket_closed 0 ∷ socket_closed 1 ∷ disconnects ∷ []) in
      (gone.is_closed_intentionally ≡ true)
      × Enabled gone (timeout_fired c.next_timeout)
      × ((step gone (timeout_fired c.next_timeout)).0.sockets ≡ connecting ∷ gone.sockets)
unfolding run step
second_connection_leaks c rest = (refl, ground arith, refl)
