-- ===== src/Client/Session/Place.antt =====
-- The host and the side of a client over the events of the browser.
use hax_war.Base.{◌≡◌, refl, List, if_ind, Option_cases, ltb, filter, not, ◌==◌}
use hax_war.Client.{
  Client, Effect, clear_reconnect, connect, reconnect, handle_close, track_sequence,
}
use hax_war.Client.Events.{receive}
use hax_war.Client.Session

-- The host and the side of another client.
pub record HasPlaceOf (c d : Client) : Type 0 where
  pub host : d.host ≡ c.host
  pub side : d.player_side ≡ c.player_side

pub HasPlaceOf-itself : {c : Client} → HasPlaceOf c c
HasPlaceOf-itself = record { host = refl; side = refl }

pub clear_reconnect-HasPlaceOf : (c : Client) → HasPlaceOf c (clear_reconnect c)
unfolding clear_reconnect
clear_reconnect-HasPlaceOf c =
    Option_cases (HasPlaceOf c) c.reconnect_timeout (λ e. record { host = refl; side = refl })
      (λ h e. record { host = refl; side = refl })

-- What the browser does to a client leaves its place.
pub session-HasPlaceOf :
    (c : Client) (e : Session.Event) → Session.IsFromBrowser e → HasPlaceOf c (Session.step c e).0
unfolding Session.step reconnect connect receive handle_close track_sequence
session-HasPlaceOf c (Session.socket_opened i) k = record { host = refl; side = refl }
session-HasPlaceOf c (Session.socket_closed i) k =
    if_ind (λ (r : Client × List Effect). HasPlaceOf c r.0) c.is_closed_intentionally
      (record { host = refl; side = refl }) (record { host = refl; side = refl })
session-HasPlaceOf c (Session.socket_failed m) k = HasPlaceOf-itself
session-HasPlaceOf c (Session.received m) k =
    if_ind (HasPlaceOf c) (ltb 0 m.sequence) (record { host = refl; side = refl }) HasPlaceOf-itself
session-HasPlaceOf c (Session.timeout_fired t) k =
    let p =
      clear_reconnect-HasPlaceOf (record c { timeouts = filter (λ u. not (u == t)) c.timeouts }) in
    record { host = p.host; side = p.side }
session-HasPlaceOf c Session.connects k = absurd k
session-HasPlaceOf c Session.disconnects k = absurd k
session-HasPlaceOf c (Session.commands m) k = absurd k
