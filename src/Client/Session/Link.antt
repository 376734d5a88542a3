-- ===== src/Client/Session/Link.antt =====
-- The connection of a client as a state machine, and that the client implements it.
use hax_war.Base.{
  ℕ, zero, suc, ◌≤◌, ◌≡◌, ◌≢◌, refl, sym, subst, ap, ◌∙◌, Bool, true, false, some, List, [], ◌∷◌,
  sum_by, get_elem?, All, arith, Text,
}
use hax_war.Protocol.{Message, Command}
use hax_war.Client.{ReadyState, connecting, opened, closing, closed, Client}
use hax_war.Client.Session.{
  Event, socket_opened, socket_closed, socket_failed, received, timeout_fired, connects,
  disconnects, commands, alive,
}
use hax_war.Client.Session.Single.{IsSingle}

-- What a connection is at: nothing, a socket that connects, an open one, one that the user closes,
-- or the wait for a reconnect.
pub data Link : Type 0 where
  idle dialing online leaving waiting : Link

-- What may become of it.
pub data Move : Link → Event → Link → Type 0 where
  dials : Move idle connects dialing
  redials : Move waiting connects dialing
  answers : {i : ℕ} → Move dialing (socket_opened i) online
  is_refused : {i : ℕ} → Move dialing (socket_closed i) waiting
  drops : {i : ℕ} → Move online (socket_closed i) waiting
  ends : {i : ℕ} → Move leaving (socket_closed i) idle
  retries : {t : ℕ} → Move waiting (timeout_fired t) dialing
  gives_up : Move dialing disconnects leaving
  hangs_up : Move online disconnects leaving
  cancels : Move waiting disconnects idle
  still_leaves : Move leaving disconnects leaving
  still_idle : Move idle disconnects idle
  hears : {l : Link} {m : Message} → Move l (received m) l
  fails : {l : Link} {m : Text} → Move l (socket_failed m) l
  says : {l : Link} {m : Command} → Move l (commands m) l

pub data Course : Link → List Event → Link → Type 0 where
  stays : {l : Link} → Course l [] l
  moves :
      {k l m : Link} {e : Event} {es : List Event}
      → Move k e l
      → Course l es m
      → Course k (e ∷ es) m

-- An event makes one thing of a connection.
Move-unique : {k l m : Link} {e : Event} → Move k e l → Move k e m → l ≡ m
Move-unique dials dials = refl
Move-unique redials redials = refl
Move-unique answers answers = refl
Move-unique is_refused is_refused = refl
Move-unique drops drops = refl
Move-unique ends ends = refl
Move-unique retries retries = refl
Move-unique gives_up gives_up = refl
Move-unique hangs_up hangs_up = refl
Move-unique cancels cancels = refl
Move-unique still_leaves still_leaves = refl
Move-unique still_idle still_idle = refl
Move-unique hears hears = refl
Move-unique fails fails = refl
Move-unique says says = refl

-- So a list of events leads to one connection.
pub Course-unique : {k l m : Link} (es : List Event) → Course k es l → Course k es m → l ≡ m
Course-unique [] stays stays = refl
Course-unique {k} {l} {m} (e ∷ es) (moves a p) (moves b q) =
    Course-unique es p (subst (λ j. Course j es m) (Move-unique b a) q)

abbrev pub AreClosed : List ReadyState → Type 0
AreClosed ss = All (λ s. s ≡ closed) ss

-- The newest socket alone is not closed, and no reconnect is pending.
pub record IsFresh (s : ReadyState) (intentional : Bool) (c : Client) : Type 0 where
  pub rest : List ReadyState
  pub newest : c.sockets ≡ s ∷ rest
  pub older : AreClosed rest
  pub no_timeout : c.timeouts ≡ []
  pub flag : c.is_closed_intentionally ≡ intentional

pub record IsIdle (c : Client) : Type 0 where
  pub all_closed : AreClosed c.sockets
  pub no_timeout : c.timeouts ≡ []

pub record IsWaiting (c : Client) : Type 0 where
  pub all_closed : AreClosed c.sockets
  pub handle : ℕ
  pub one_timeout : c.timeouts ≡ handle ∷ []
  pub known : c.reconnect_timeout ≡ some handle

-- The clients that are at such a connection.
abbrev pub IsAt : Link → Client → Type 0
IsAt idle c = IsIdle c
IsAt dialing c = IsFresh connecting false c
IsAt online c = IsFresh opened false c
IsAt leaving c = IsFresh closing true c
IsAt waiting c = IsWaiting c

pub live-AreClosed : (ss : List ReadyState) → AreClosed ss → sum_by alive ss ≡ 0
live-AreClosed [] h = refl
live-AreClosed (s ∷ ss) (e, h) = rw e (omega (arith, live-AreClosed ss h))

pub closed_at :
    (ss : List ReadyState) (i : ℕ) (s : ReadyState)
    → AreClosed ss
    → get_elem? ss i ≡ some s
    → s ≡ closed
closed_at [] i s h e = cc
closed_at (r ∷ ss) zero s (same, h) e = cc
closed_at (r ∷ ss) (suc i) s (same, h) e = closed_at ss i s h e

-- A socket that is not closed is the newest.
pub newest_at :
    (r : ReadyState) (ss : List ReadyState) (i : ℕ) (s : ReadyState)
    → AreClosed ss
    → get_elem? (r ∷ ss) i ≡ some s
    → s ≢ closed
    → (i ≡ zero) × (r ≡ s)
newest_at r ss zero s h e ne = (refl, cc)
newest_at r ss (suc i) s h e ne = absurd (ne (closed_at ss i s h e))

alive-le : (s : ReadyState) → alive s ≤ 1
alive-le connecting = omega arith
alive-le opened = omega arith
alive-le closing = omega arith
alive-le closed = omega arith

fresh-IsSingle : (s : ReadyState) (b : Bool) (c : Client) → IsFresh s b c → IsSingle c
fresh-IsSingle s b c v =
    let alone = ap (sum_by alive) v.newest in
    record {
      few = rw v.no_timeout (omega (arith, alone, live-AreClosed v.rest v.older, alive-le s));
      tracked = rw v.no_timeout tt;
    }

-- A connection has at most one live socket or pending reconnect.
pub at-IsSingle : (l : Link) (c : Client) → IsAt l c → IsSingle c
at-IsSingle idle c v = record {
  few = rw v.no_timeout (omega (arith, live-AreClosed c.sockets v.all_closed));
  tracked = rw v.no_timeout tt;
}
at-IsSingle dialing c v = fresh-IsSingle connecting false c v
at-IsSingle online c v = fresh-IsSingle opened false c v
at-IsSingle leaving c v = fresh-IsSingle closing true c v
at-IsSingle waiting c v = record {
  few = rw v.one_timeout (omega (arith, live-AreClosed c.sockets v.all_closed));
  tracked = rw v.one_timeout (v.known, tt);
}

IsFresh-same :
    (s : ReadyState) (b : Bool) (c d : Client)
    → d.sockets ≡ c.sockets
    → d.timeouts ≡ c.timeouts
    → d.is_closed_intentionally ≡ c.is_closed_intentionally
    → IsFresh s b c
    → IsFresh s b d
IsFresh-same s b c d ss ts f v = record {
  rest = v.rest;
  newest = ss ∙ v.newest;
  older = v.older;
  no_timeout = ts ∙ v.no_timeout;
  flag = f ∙ v.flag;
}

-- What a connection does not speak of may change.
pub IsAt-same :
    (l : Link) (c d : Client)
    → d.sockets ≡ c.sockets
    → d.timeouts ≡ c.timeouts
    → d.reconnect_timeout ≡ c.reconnect_timeout
    → d.is_closed_intentionally ≡ c.is_closed_intentionally
    → IsAt l c
    → IsAt l d
IsAt-same idle c d ss ts r f v = record {
  all_closed = subst AreClosed (sym ss) v.all_closed;
  no_timeout = ts ∙ v.no_timeout;
}
IsAt-same waiting c d ss ts r f v = record {
  all_closed = subst AreClosed (sym ss) v.all_closed;
  handle = v.handle;
  one_timeout = ts ∙ v.one_timeout;
  known = r ∙ v.known;
}
IsAt-same dialing c d ss ts r f v = IsFresh-same connecting false c d ss ts f v
IsAt-same online c d ss ts r f v = IsFresh-same opened false c d ss ts f v
IsAt-same leaving c d ss ts r f v = IsFresh-same closing true c d ss ts f v
