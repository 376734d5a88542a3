-- ===== src/Ui/Standing.antt =====
-- What only a new match changes of the user interface: the client, the screen that is shown, and
-- the label of the own side.
use hax_war.Base.{Bool, Text}
use hax_war.Client.{Client}
use hax_war.Ui.{Screen, Ui}

-- The classes `active` of `login-screen` and `game-screen`, and the text of `my-side`.
pub record Face : Type 0 where
  pub login : Bool
  pub game : Bool
  pub side : Text

abbrev pub face : Screen → Face
face s = record { login = s.login_active; game = s.game_active; side = s.my_side }

pub record Standing : Type 0 where
  pub client : Client
  pub shown : Face

abbrev pub standing : Ui → Standing
standing ui = record { client = ui.client; shown = face ui.screen }
