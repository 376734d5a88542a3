-- ===== src/Client/Session/Machine.antt =====
-- Over every history a client implements the state machine of its connection.
use hax_war.Base.{
  ℕ, ◌≡◌, refl, ap, Bool, true, false, List, [], ◌∷◌, ◌==◌, any, filter, not, if_ind, ltb, arith,
  Text, sum_by,
}
use hax_war.Protocol.{Message, Command}
use hax_war.Client.{
  Effect, ReadyState, connecting, opened, closing, Client, connect, reconnect, send, sent, is_open,
  new_client, track_sequence,
}
use hax_war.Client.Events.{receive}
use hax_war.Client.Session.{
  Event, socket_opened, socket_closed, socket_failed, received, timeout_fired, connects,
  disconnects, commands, step, Enabled, live, alive, run,
}
use hax_war.Client.Session.Single.{ConnectsIdle, IsOrderly}
use hax_war.Client.Session.Link.{
  Link, idle, dialing, online, leaving, waiting, dials, redials, retries, hears, fails, says,
  Course, Course-unique, stays, moves, AreClosed, IsFresh, IsWaiting, IsAt, at-IsSingle, IsAt-same,
  live-AreClosed,
}
use hax_war.Client.Session.Leaving.{disconnected-MovesOn}
use hax_war.Client.Session.Moves.{MovesOn, connect-IsFresh, opened-MovesOn, closed-MovesOn}

-- A timeout that fires is the one that is pending.
fired-IsDialing :
    (c : Client) (t : ℕ)
    → IsWaiting c
    → any (λ u. u == t) c.timeouts ≡ true
    → IsFresh connecting false (step c (timeout_fired t)).0
unfolding step reconnect
fired-IsDialing c t v h =
    let gone = only_fires c.timeouts v.handle t v.one_timeout h in
    connect-IsFresh (record c { timeouts = filter (λ u. not (u == t)) c.timeouts })
      (record {
        few = rw gone (omega (arith, live-AreClosed c.sockets v.all_closed));
        tracked = rw gone tt;
      })
      v.all_closed
  where
    only_fires :
        (ts : List ℕ) (u t : ℕ)
        → ts ≡ u ∷ []
        → any (λ w. w == t) ts ≡ true
        → filter (λ w. not (w == t)) ts ≡ []
    only_fires [] u t e h = cc
    only_fires (w ∷ []) u t e h = ground arith
    only_fires (w ∷ x ∷ ts) u t e h = cc

none_fires : (ts : List ℕ) (t : ℕ) → ts ≡ [] → any (λ u. u == t) ts ≡ true → ⊥
none_fires [] t e h = cc
none_fires (u ∷ ts) t e h = cc

fired-MovesOn :
    (l : Link) (c : Client) (t : ℕ)
    → IsAt l c
    → any (λ u. u == t) c.timeouts ≡ true
    → MovesOn l (timeout_fired t) (step c (timeout_fired t)).0
fired-MovesOn waiting c t v h = (dialing, retries, fired-IsDialing c t v h)
fired-MovesOn idle c t v h = absurd (none_fires c.timeouts t v.no_timeout h)
fired-MovesOn dialing c t v h = absurd (none_fires c.timeouts t v.no_timeout h)
fired-MovesOn online c t v h = absurd (none_fires c.timeouts t v.no_timeout h)
fired-MovesOn leaving c t v h = absurd (none_fires c.timeouts t v.no_timeout h)

fresh_live : (s : ReadyState) (b : Bool) (c : Client) → alive s ≡ 1 → IsFresh s b c → live c ≡ 0 → ⊥
fresh_live s b c one f none_live =
    absurd (omega (arith, one, none_live, ap (sum_by alive) f.newest))

pub connected-MovesOn :
    (l : Link) (c : Client) → IsAt l c → live c ≡ 0 → MovesOn l connects (connect c).0
connected-MovesOn idle c v e =
    (dialing, dials, connect-IsFresh c (at-IsSingle idle c v) v.all_closed)
connected-MovesOn waiting c v e =
    (dialing, redials, connect-IsFresh c (at-IsSingle waiting c v) v.all_closed)
connected-MovesOn dialing c v e = absurd (fresh_live connecting false c refl v e)
connected-MovesOn online c v e = absurd (fresh_live opened false c refl v e)
connected-MovesOn leaving c v e = absurd (fresh_live closing true c refl v e)

received-IsAt : (l : Link) (c : Client) (m : Message) → IsAt l c → IsAt l (receive c m).0
unfolding receive track_sequence
received-IsAt l c m v = if_ind (IsAt l) (ltb 0 m.sequence) (IsAt-same l c _ refl refl refl refl v) v

-- Every event that the browser and the page allow is a move of the connection.
pub step-MovesOn :
    (l : Link) (c : Client) (e : Event)
    → IsAt l c
    → Enabled c e
    → ConnectsIdle c e
    → MovesOn l e (step c e).0
unfolding step
step-MovesOn l c (socket_opened i) v h k = opened-MovesOn l c i v h
step-MovesOn l c (socket_closed i) v (s, h, ne) k = closed-MovesOn l c i s v h ne
step-MovesOn l c (socket_failed m) v h k = (l, fails, v)
step-MovesOn l c (received m) v h k = (l, hears, received-IsAt l c m v)
step-MovesOn l c (timeout_fired t) v h k = fired-MovesOn l c t v h
step-MovesOn l c connects v h k = connected-MovesOn l c v k
step-MovesOn l c disconnects v h k = disconnected-MovesOn l c v
step-MovesOn l c (commands m) v h k = (l, says, v)

-- A command goes out over an open connection only.
abbrev pub said : Link → Command → List Effect
said online m = sent m ∷ []
said _ m = []

closed-said : (ss : List ReadyState) → AreClosed ss → is_open ss ≡ false
closed-said [] h = refl
closed-said (s ∷ ss) (e, h) = rw e refl

at-said : (l : Link) (c : Client) (m : Command) → IsAt l c → send c m ≡ said l m
unfolding send
at-said idle c m v = rw (closed-said c.sockets v.all_closed) refl
at-said waiting c m v = rw (closed-said c.sockets v.all_closed) refl
at-said dialing c m v = rw v.newest refl
at-said online c m v = rw v.newest refl
at-said leaving c m v = rw v.newest refl

-- The connection that a history leads to.
pub record Implements (l : Link) (es : List Event) (c : Client) : Type 0 where
  pub link : Link
  pub course : Course l es link
  pub only : (k : Link) → Course l es k → k ≡ link
  pub at : IsAt link c
  pub says_when : (m : Command) → send c m ≡ said link m

run-Implements_of :
    (l : Link) (c : Client) (es : List Event)
    → IsAt l c
    → IsOrderly c es
    → Implements l es (run c es)
unfolding run
run-Implements_of l c [] v h = record {
  link = l;
  course = stays;
  only = λ k p. Course-unique [] p stays;
  at = v;
  says_when = λ m. at-said l c m v;
}
run-Implements_of l c (e ∷ es) v (h, k, hs) =
    let (next, move, v') = step-MovesOn l c e v h k in
    let rest = run-Implements_of next (step c e).0 es v' hs in
    record {
      link = rest.link;
      course = moves move rest.course;
      only = λ k p. Course-unique (e ∷ es) p (moves move rest.course);
      at = rest.at;
      says_when = rest.says_when;
    }

-- From a new client, any list of events that the browser allows and in which the page calls
-- `connect()` only while no socket is alive is a course of the state machine from idle, to one end:
-- that end says which socket is alive, whether a reconnect is pending and under which handle, and
-- whether the user has left; and the client sends a command exactly if it is online there.
pub run-Implements :
    (host : Text) (es : List Event)
    → IsOrderly (new_client host) es
    → Implements idle es (run (new_client host) es)
unfolding new_client
run-Implements host es h =
    run-Implements_of idle (new_client host) es (record { all_closed = tt; no_timeout = refl }) h
