-- ===== src/Client/Sent.antt =====
-- What becomes of a command.
use hax_war.Base.{◌≡◌, refl, List, [], ◌∷◌, if◌then◌else◌}
use hax_war.Protocol.{Command}
use hax_war.Client.{
  ReadyState, connecting, opened, closing, closed, Client, Effect, sent, is_open, send,
}

-- A command goes out on the newest socket if that is open, and else it is lost.
abbrev pub GoesOut : List ReadyState → Command → List Effect → Type 0
GoesOut (opened ∷ rest) c es = es ≡ sent c ∷ []
GoesOut (_ ∷ rest) c es = es ≡ []
GoesOut [] c es = es ≡ []

is_open-GoesOut :
    (ss : List ReadyState) (c : Command) → GoesOut ss c (if is_open ss then sent c ∷ [] else [])
is_open-GoesOut [] c = refl
is_open-GoesOut (connecting ∷ rest) c = refl
is_open-GoesOut (opened ∷ rest) c = refl
is_open-GoesOut (closing ∷ rest) c = refl
is_open-GoesOut (closed ∷ rest) c = refl

pub send-GoesOut : (client : Client) (c : Command) → GoesOut client.sockets c (send client c)
unfolding send
send-GoesOut client c = is_open-GoesOut client.sockets c
