-- ===== src/Client/Session/Leaving.antt =====
-- `disconnect()` as a move of the connection.
use hax_war.Base.{◌≡◌, refl, sym, subst, ap, ◌∙◌, Bool, true, false, List, [], ◌∷◌, Option_cases}
use hax_war.Client.{
  ReadyState, connecting, opened, closing, Client, clear_reconnect, disconnect, close_current,
  close_ws,
}
use hax_war.Client.Session.{disconnects}
use hax_war.Client.Session.Single.{IsSingle, sockets-clear_reconnect, timeouts-disconnect}
use hax_war.Client.Session.Link.{
  Link, idle, dialing, online, leaving, waiting, gives_up, hangs_up, cancels, still_leaves,
  still_idle, AreClosed, IsFresh, IsIdle, IsAt, at-IsSingle,
}
use hax_war.Client.Session.Moves.{MovesOn}

close_current-AreClosed :
    (c : Client) (ss : List ReadyState)
    → c.sockets ≡ ss
    → AreClosed ss
    → AreClosed (close_current c ss).0.sockets
unfolding close_current
close_current-AreClosed c [] e h = subst AreClosed (sym e) tt
close_current-AreClosed c (s ∷ ss) e (same, h) = (ap close_ws same, h)

close_current-newest :
    (c : Client) (ss : List ReadyState) {s : ReadyState} {rest : List ReadyState}
    → ss ≡ s ∷ rest
    → (close_current c ss).0.sockets ≡ close_ws s ∷ rest
unfolding close_current
close_current-newest c [] e = cc
close_current-newest c (s ∷ ss) e = cc

close_current-flag :
    (c : Client) (ss : List ReadyState)
    → (close_current c ss).0.is_closed_intentionally ≡ c.is_closed_intentionally
unfolding close_current
close_current-flag c [] = refl
close_current-flag c (s ∷ ss) = refl

clear_reconnect-flag :
    (c : Client) → (clear_reconnect c).is_closed_intentionally ≡ c.is_closed_intentionally
unfolding clear_reconnect
clear_reconnect-flag c =
    Option_cases (λ (d : Client). d.is_closed_intentionally ≡ c.is_closed_intentionally)
      c.reconnect_timeout (λ e. refl) (λ h e. refl)

disconnect-IsIdle : (c : Client) → IsSingle c → AreClosed c.sockets → IsIdle (disconnect c).0
unfolding disconnect
disconnect-IsIdle c v h =
    let c' : Client = record c { is_closed_intentionally = true } in
    record {
      all_closed =
          close_current-AreClosed (clear_reconnect c') (clear_reconnect c').sockets refl
            (subst AreClosed (sym (sockets-clear_reconnect c')) h);
      no_timeout = timeouts-disconnect c v;
    }

disconnect-IsFresh :
    (s : ReadyState) (b : Bool) (c : Client)
    → IsSingle c
    → close_ws s ≡ closing
    → IsFresh s b c
    → IsFresh closing true (disconnect c).0
unfolding disconnect
disconnect-IsFresh s b c v e f =
    let c' : Client = record c { is_closed_intentionally = true } in
    record {
      rest = f.rest;
      newest =
          close_current-newest (clear_reconnect c') (clear_reconnect c').sockets
            (sockets-clear_reconnect c' ∙ f.newest)
          ∙ ap (λ r. r ∷ f.rest) e;
      older = f.older;
      no_timeout = timeouts-disconnect c v;
      flag =
          close_current-flag (clear_reconnect c') (clear_reconnect c').sockets
          ∙ clear_reconnect-flag c';
    }

pub disconnected-MovesOn :
    (l : Link) (c : Client) → IsAt l c → MovesOn l disconnects (disconnect c).0
disconnected-MovesOn idle c v =
    (idle, still_idle, disconnect-IsIdle c (at-IsSingle idle c v) v.all_closed)
disconnected-MovesOn waiting c v =
    (idle, cancels, disconnect-IsIdle c (at-IsSingle waiting c v) v.all_closed)
disconnected-MovesOn dialing c v =
    (leaving, gives_up, disconnect-IsFresh connecting false c (at-IsSingle dialing c v) refl v)
disconnected-MovesOn online c v =
    (leaving, hangs_up, disconnect-IsFresh opened false c (at-IsSingle online c v) refl v)
disconnected-MovesOn leaving c v =
    (leaving, still_leaves, disconnect-IsFresh closing true c (at-IsSingle leaving c v) refl v)
