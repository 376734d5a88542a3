-- ===== src/Client/Session.antt =====
-- The life of a client as the browser's events drive it.
pub mod Sequence
pub mod Single
pub mod Count
pub mod Routine
pub mod Heard
pub mod Link
pub mod Moves
pub mod Leaving
pub mod Machine
pub mod Place
pub mod Quiet
pub mod Traffic
use hax_war.Base.{
  ℕ, ◌==◌, ◌≡◌, ◌≢◌, true, not, some, List, [], ◌∷◌, filter, any, get_elem?, set, sum_by, Text,
}
use hax_war.Protocol.{Message, Command}
use hax_war.Client.{
  ReadyState, connecting, opened, closed, Client, Effect, connect, disconnect, send, handle_open,
  handle_close, handle_error, reconnect,
}
use hax_war.Client.Events.{receive}

-- A socket is named by its place in `sockets`, a timeout by its handle.
pub data Event : Type 0 where
  socket_opened : ℕ → Event
  socket_closed : ℕ → Event
  socket_failed : Text → Event
  received : Message → Event
  timeout_fired : ℕ → Event
  connects : Event
  disconnects : Event
  commands : Command → Event

-- The browser sets `readyState` before it calls a socket's handler, and forgets a timeout that
-- fires.
unfoldable pub step : Client → Event → Client × List Effect
unfolding connect disconnect send handle_open handle_close handle_error reconnect receive
step c (socket_opened i) =
    let c' = record c { sockets = set c.sockets i opened } in (c', handle_open c')
step c (socket_closed i) = handle_close (record c { sockets = set c.sockets i closed })
step c (socket_failed message) = (c, handle_error message)
step c (received message) = receive c message
step c (timeout_fired t) = reconnect (record c { timeouts = filter (λ u. not (u == t)) c.timeouts })
step c connects = connect c
step c disconnects = disconnect c
step c (commands m) = (c, send c m)

-- What the browser lets happen: a socket opens out of `connecting` and closes once, and only
-- a pending timeout fires.
abbrev pub Enabled : Client → Event → Type 0
Enabled c (socket_opened i) = get_elem? c.sockets i ≡ some connecting
Enabled c (socket_closed i) = (s : ReadyState) × (get_elem? c.sockets i ≡ some s) × (s ≢ closed)
Enabled c (timeout_fired t) = any (λ u. u == t) c.timeouts ≡ true
Enabled c _ = Unit {0}

-- An event of the browser, not a call of a method.
abbrev pub IsFromBrowser : Event → Type 0
IsFromBrowser connects = ⊥
IsFromBrowser disconnects = ⊥
IsFromBrowser (commands m) = ⊥
IsFromBrowser _ = Unit {0}

abbrev pub alive : ReadyState → ℕ
alive closed = 0
alive _ = 1

-- How many sockets are not closed yet.
abbrev pub live : Client → ℕ
live c = sum_by alive c.sockets

unfoldable pub run : Client → List Event → Client
run c [] = c
run c (e ∷ es) = run (step c e).0 es
