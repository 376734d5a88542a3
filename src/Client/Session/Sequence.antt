-- ===== src/Client/Session/Sequence.antt =====
-- The sequence numbers: what a client asks for when its socket opens.
use hax_war.Base.{
  ℕ, ◌≡◌, refl, ◌∙◌, ap, true, some, List, [], ◌∷◌, ◌++◌, get_elem?, set, if◌then◌else◌, if_ind,
  ltb, max, arith, Text,
}
use hax_war.Protocol.{Message, Command, get_state, reconnect_sync}
use hax_war.Client.{
  ReadyState, connecting, opened, Client, Effect, sent, is_open, clear_reconnect, close_current,
  handle_open, new_client, connect, disconnect, handle_close, reconnect,
}
use hax_war.Client.Events.{receive}
use hax_war.Client.Session.{
  Event, socket_opened, socket_closed, socket_failed, received, timeout_fired, connects,
  disconnects, commands, step, run,
}

-- The greatest sequence number among the messages of a list of events, at least `top`.
abbrev pub greatest : ℕ → List Event → ℕ
greatest top [] = top
greatest top (received m ∷ es) = greatest (max top m.sequence) es
greatest top (_ ∷ es) = greatest top es

abbrev pub sent_commands : List Effect → List Command
sent_commands [] = []
sent_commands (sent m ∷ es) = m ∷ sent_commands es
sent_commands (_ ∷ es) = sent_commands es

pub sent_commands-append :
    (xs ys : List Effect) → sent_commands (xs ++ ys) ≡ sent_commands xs ++ sent_commands ys
sent_commands-append [] ys = refl
sent_commands-append (sent m ∷ xs) ys = ap (◌∷◌ m) (sent_commands-append xs ys)
sent_commands-append (_ ∷ xs) ys = sent_commands-append xs ys

last_seen-clear_reconnect :
    (c : Client) → (clear_reconnect c).last_seen_sequence ≡ c.last_seen_sequence
unfolding clear_reconnect
last_seen-clear_reconnect c = ground arith

last_seen-close_current :
    (c : Client) (ss : List ReadyState)
    → (close_current c ss).0.last_seen_sequence ≡ c.last_seen_sequence
unfolding close_current
last_seen-close_current c [] = refl
last_seen-close_current c (s ∷ ss) = refl

last_seen-receive :
    (c : Client) (m : Message)
    → (receive c m).0.last_seen_sequence ≡ max c.last_seen_sequence m.sequence
unfolding receive
last_seen-receive c m = ground arith

last_seen-handle_close : (c : Client) → (handle_close c).0.last_seen_sequence ≡ c.last_seen_sequence
unfolding handle_close
last_seen-handle_close c =
    if_ind (λ (r : Client × List Effect). r.0.last_seen_sequence ≡ c.last_seen_sequence)
      c.is_closed_intentionally refl refl

pub last_seen-step :
    (c : Client) (e : Event)
    → (step c e).0.last_seen_sequence ≡ greatest c.last_seen_sequence (e ∷ [])
unfolding step connect disconnect reconnect
last_seen-step c (socket_opened i) = refl
last_seen-step c (socket_closed i) = last_seen-handle_close _
last_seen-step c (socket_failed m) = refl
last_seen-step c (received m) = last_seen-receive c m
last_seen-step c (timeout_fired t) = last_seen-clear_reconnect _
last_seen-step c connects = last_seen-clear_reconnect c
last_seen-step c disconnects = last_seen-close_current _ _ ∙ last_seen-clear_reconnect _
last_seen-step c (commands m) = refl

greatest-step :
    (top : ℕ) (e : Event) (es : List Event)
    → greatest (greatest top (e ∷ [])) es ≡ greatest top (e ∷ es)
greatest-step top (received m) es = refl
greatest-step top _ es = refl

pub last_seen-run :
    (c : Client) (es : List Event)
    → (run c es).last_seen_sequence ≡ greatest c.last_seen_sequence es
unfolding run
last_seen-run c [] = refl
last_seen-run c (e ∷ es) =
    last_seen-run (step c e).0 es
    ∙ ap (λ top. greatest top es) (last_seen-step c e)
    ∙ greatest-step c.last_seen_sequence e es

open_head :
    (ss : List ReadyState) {s : ReadyState}
    → get_elem? ss 0 ≡ some s
    → is_open (set ss 0 opened) ≡ true
open_head [] h = cc
open_head (x ∷ ss) h = refl

sent-handle_open :
    (c : Client)
    → is_open c.sockets ≡ true
    → sent_commands (handle_open c)
      ≡ (if ltb 0 c.last_seen_sequence then reconnect_sync c.last_seen_sequence else get_state) ∷ []
unfolding handle_open
sent-handle_open c h = ground arith

-- Whatever has happened since the page was loaded, when the client's newest socket opens the
-- client sends one command: `reconnect_sync` with the greatest sequence number of all messages
-- received so far, or `get_state` if no message carried a number above 0.
pub open_syncs :
    (host : Text) (es : List Event)
    → let c = run (new_client host) es in
      let top = greatest 0 es in
      get_elem? c.sockets 0 ≡ some connecting
      → sent_commands (step c (socket_opened 0)).1
        ≡ (if ltb 0 top then reconnect_sync top else get_state) ∷ []
unfolding step new_client
open_syncs host es h =
    let c = run (new_client host) es in
    sent-handle_open (record c { sockets = set c.sockets 0 opened }) (open_head c.sockets h)
    ∙ ap (λ top. (if ltb 0 top then reconnect_sync top else get_state) ∷ [])
        (last_seen-run (new_client host) es)
