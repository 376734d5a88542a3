-- ===== src/Client/Session/Moves.antt =====
-- A client implements the state machine of its connection.
use hax_war.Base.{
  ℕ, ◌≡◌, ◌≢◌, refl, sym, subst, ap, ◌∙◌, Bool, true, false, some, List, [], ◌∷◌, get_elem?, set,
  if_cases,
}
use hax_war.Client.{
  Effect, ReadyState, connecting, opened, closing, closed, Client, clear_reconnect, connect,
  handle_close,
}
use hax_war.Client.Session.{Event, socket_opened, socket_closed, step}
use hax_war.Client.Session.Single.{IsSingle, timeouts-clear_reconnect, sockets-clear_reconnect}
use hax_war.Client.Session.Link.{
  Link, idle, dialing, online, leaving, waiting, Move, answers, is_refused, drops, ends, AreClosed,
  IsFresh, IsIdle, IsWaiting, IsAt, closed_at, newest_at,
}

-- A connection moves to one that the client is then at.
abbrev pub MovesOn : Link → Event → Client → Type 0
MovesOn l e c = (k : Link) × Move l e k × IsAt k c

pub connect-IsFresh :
    (c : Client) → IsSingle c → AreClosed c.sockets → IsFresh connecting false (connect c).0
unfolding connect
connect-IsFresh c v h = record {
  rest = (clear_reconnect c).sockets;
  newest = refl;
  older = subst AreClosed (sym (sockets-clear_reconnect c)) h;
  no_timeout = timeouts-clear_reconnect c v;
  flag = refl;
}

still_live : connecting ≢ closed
still_live e = cc

-- The newest socket opens.
pub opened-MovesOn :
    (l : Link) (c : Client) (i : ℕ)
    → IsAt l c
    → get_elem? c.sockets i ≡ some connecting
    → MovesOn l (socket_opened i) (step c (socket_opened i)).0
unfolding step
opened-MovesOn idle c i v h = absurd (still_live (closed_at c.sockets i connecting v.all_closed h))
opened-MovesOn waiting c i v h =
    absurd (still_live (closed_at c.sockets i connecting v.all_closed h))
opened-MovesOn dialing c i v h =
    let (first, _) =
      newest_at connecting v.rest i connecting v.older
        (ap (λ ss. get_elem? ss i) (sym v.newest) ∙ h) (λ e. cc) in
    (
      online,
      answers,
      record {
        rest = v.rest;
        newest =
            ap (λ ss. set ss i opened) v.newest
            ∙ ap (λ j. set (connecting ∷ v.rest) j opened) first;
        older = v.older;
        no_timeout = v.no_timeout;
        flag = v.flag;
      },
    )
opened-MovesOn online c i v h =
    let (_, same) =
      newest_at opened v.rest i connecting v.older (ap (λ ss. get_elem? ss i) (sym v.newest) ∙ h)
        (λ e. cc) in
    cc
opened-MovesOn leaving c i v h =
    let (_, same) =
      newest_at closing v.rest i connecting v.older (ap (λ ss. get_elem? ss i) (sym v.newest) ∙ h)
        (λ e. cc) in
    cc

-- After the newest socket has closed.
closed-IsWaiting :
    (c : Client)
    → AreClosed c.sockets
    → c.timeouts ≡ []
    → c.is_closed_intentionally ≡ false
    → IsWaiting (handle_close c).0
unfolding handle_close
closed-IsWaiting c h e f =
    if_cases (λ (r : Client × List Effect). IsWaiting r.0) c.is_closed_intentionally (λ on. cc)
      (λ off. record {
        all_closed = h;
        handle = c.next_timeout;
        one_timeout = ap (◌∷◌ c.next_timeout) e;
        known = refl;
      })

closed-IsIdle :
    (c : Client)
    → AreClosed c.sockets
    → c.timeouts ≡ []
    → c.is_closed_intentionally ≡ true
    → IsIdle (handle_close c).0
unfolding handle_close
closed-IsIdle c h e f =
    if_cases (λ (r : Client × List Effect). IsIdle r.0) c.is_closed_intentionally
      (λ on. record { all_closed = h; no_timeout = e }) (λ off. cc)

-- The sockets once the newest has closed.
fresh-AreClosed :
    (s : ReadyState) (b : Bool) (c : Client) (i : ℕ) (r : ReadyState)
    → IsFresh s b c
    → get_elem? c.sockets i ≡ some r
    → r ≢ closed
    → AreClosed (set c.sockets i closed)
fresh-AreClosed s b c i r v h ne =
    let (first, _) =
      newest_at s v.rest i r v.older (ap (λ ss. get_elem? ss i) (sym v.newest) ∙ h) ne in
    subst AreClosed
      (sym (ap (λ ss. set ss i closed) v.newest ∙ ap (λ j. set (s ∷ v.rest) j closed) first))
      (refl, v.older)

pub closed-MovesOn :
    (l : Link) (c : Client) (i : ℕ) (r : ReadyState)
    → IsAt l c
    → get_elem? c.sockets i ≡ some r
    → r ≢ closed
    → MovesOn l (socket_closed i) (step c (socket_closed i)).0
unfolding step
closed-MovesOn idle c i r v h ne = absurd (ne (closed_at c.sockets i r v.all_closed h))
closed-MovesOn waiting c i r v h ne = absurd (ne (closed_at c.sockets i r v.all_closed h))
closed-MovesOn dialing c i r v h ne = (
  waiting,
  is_refused,
  closed-IsWaiting (record c { sockets = set c.sockets i closed })
      (fresh-AreClosed connecting false c i r v h ne) v.no_timeout v.flag,
)
closed-MovesOn online c i r v h ne = (
  waiting,
  drops,
  closed-IsWaiting (record c { sockets = set c.sockets i closed })
      (fresh-AreClosed opened false c i r v h ne) v.no_timeout v.flag,
)
closed-MovesOn leaving c i r v h ne = (
  idle,
  ends,
  closed-IsIdle (record c { sockets = set c.sockets i closed })
      (fresh-AreClosed closing true c i r v h ne) v.no_timeout v.flag,
)
