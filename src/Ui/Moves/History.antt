-- ===== src/Ui/Moves/History.antt =====
-- Histories of a page: clicks, and states of the server.
use hax_war.Base.{ℕ, refl, Option, List, [], ◌∷◌, if◌then◌else◌, if_ind, inl, All, Text}
use hax_war.Protocol.{StateView}
use hax_war.Client.{Effect}
use hax_war.Ui.{Screen, Ui, new_ui}
use hax_war.Ui.Timer.{TimerEl, new_timer}
use hax_war.Ui.Timer.Truthful.{idle-IsTruthful}
use hax_war.Ui.Update.{handle_state_update}
use hax_war.Ui.Moves.{Clock, execute_move, click_unit, handle_node_click}
use hax_war.Ui.Moves.Proper.{IsValid, IsProper, LeadsFrom, update-IsValid, execute_move-IsValid}
use hax_war.Ui.Moves.Choices.{click_unit-IsValid, handle_node_click-IsValid}

pub data Event : Type 0 where
  node_clicked : Clock → ℕ → Event
  unit_clicked : Clock → ℕ → Event
  move_clicked : Clock → Event
  state_came : (now now_ms : ℕ) → StateView → Event

-- The handlers that `initialize` installs; a disabled button gets no click.
unfoldable pub step : Ui → Event → Ui × List Effect
unfolding handle_node_click click_unit execute_move handle_state_update
step ui (node_clicked clock id) = handle_node_click clock id ui
step ui (unit_clicked clock i) = click_unit clock i ui
step ui (move_clicked clock) = if ui.screen.move_disabled then (ui, []) else execute_move clock ui
step ui (state_came now now_ms state) = (handle_state_update now now_ms state ui, [])

-- Every move that a history sends is one that the page may send in the state that it then has.
abbrev pub SendsProper : Ui → List Event → Type 0
SendsProper ui [] = Unit {0}
SendsProper ui (e ∷ es) = All (IsProper ui.state_view) (step ui e).1 × SendsProper (step ui e).0 es

step-IsValid : (ui : Ui) (e : Event) → IsValid ui → LeadsFrom ui (step ui e)
unfolding step
step-IsValid ui (node_clicked clock id) v = handle_node_click-IsValid clock id ui v
step-IsValid ui (unit_clicked clock i) v = click_unit-IsValid clock i ui v
step-IsValid ui (move_clicked clock) v =
    if_ind (LeadsFrom ui) ui.screen.move_disabled (v, tt) (execute_move-IsValid clock ui v)
step-IsValid ui (state_came now now_ms state) v = (update-IsValid now now_ms state ui v, tt)

run-SendsProper_of : (ui : Ui) (es : List Event) → IsValid ui → SendsProper ui es
run-SendsProper_of ui [] v = tt
run-SendsProper_of ui (e ∷ es) v =
    let (v', sends) = step-IsValid ui e v in (sends, run-SendsProper_of (step ui e).0 es v')

-- Over any history of clicks and of states from the server, every move that the page sends goes to
-- another node than it comes from, has at least one unit, and no more than the last state says
-- remain; none is sent before a state has come.
pub run-SendsProper :
    (host : Text) (el : Option TimerEl) (screen : Screen) (es : List Event)
    → SendsProper (new_ui host el screen) es
unfolding new_ui new_timer
run-SendsProper host el screen es = run-SendsProper_of (new_ui host el screen) es (record {
  target = λ t e. cc;
  source = λ f e. cc;
  within = λ s e. cc;
  timer = idle-IsTruthful _ _ refl (inl (refl, refl));
})
