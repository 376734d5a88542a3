-- ===== src/Page/Refines.antt =====
-- The client of a page lives its own session, and the game leaves the screen that is shown alone.
use hax_war.Base.{
  ◌≡◌, refl, ◌∙◌, ap, any, ◌==◌, Option_cases, List, [], ◌∷◌, if_ind, subst, sym, none, some,
}
use hax_war.Protocol.{Decision, encounter_decision}
use hax_war.Client.{
  Client, Effect, console_log, on_log, on_connection_change, on_state_update, on_game_event,
  on_encounter, on_game_over, open_socket, sent, close_socket, timeout_set, send_decision,
}
use hax_war.Client.Session
use hax_war.Ui.{Ui}
use hax_war.Ui.Update.Selection.{update-Keeps}
use hax_war.Client.Session.Heard.{AreHeard, send-AreHeard, step-AreHeard}
use hax_war.Ui.Standing.{face, Standing, standing}
use hax_war.Ui.Moves.Unchanged.{
  HasStandingOf, execute_move-standing, click_unit-standing, handle_node_click-standing,
}
use hax_war.Ui.Panels.{
  handle_encounter, resolve_encounter, handle_game_over, update_connection_status, show_result,
}
use hax_war.Page.{
  Page, Moment, handle_effect, handle_effects, Event, session, node_clicked, unit_clicked,
  move_clicked, decided, ticked, session_step, step, run,
}

-- The events of a page's history that are its client's.
abbrev pub sessions : List Event → List Session.Event
sessions [] = []
sessions (session m e ∷ es) = e ∷ sessions es
sessions (_ ∷ es) = sessions es

handle_effect-standing :
    (m : Moment) (p : Page) (e : Effect) → standing (handle_effect m p e).ui ≡ standing p.ui
unfolding handle_effect handle_encounter handle_game_over update_connection_status show_result
handle_effect-standing m p (on_log text) = refl
handle_effect-standing m p (on_connection_change b) = refl
handle_effect-standing m p (on_state_update s) =
    (update-Keeps m.clock.now m.clock.now_ms s p.ui).standing
handle_effect-standing m p (on_game_event message) = refl
handle_effect-standing m p (on_encounter e) = refl
handle_effect-standing m p (on_game_over none) = refl
handle_effect-standing m p (on_game_over (some winner)) = refl
handle_effect-standing m p (console_log t) = refl
handle_effect-standing m p (open_socket url) = refl
handle_effect-standing m p (sent c) = refl
handle_effect-standing m p close_socket = refl
handle_effect-standing m p (timeout_set h d) = refl

handle_effects-standing :
    (m : Moment) (p : Page) (es : List Effect) → standing (handle_effects m p es).ui ≡ standing p.ui
unfolding handle_effects
handle_effects-standing m p [] = refl
handle_effects-standing m p (e ∷ es) =
    handle_effects-standing m (handle_effect m p e) es ∙ handle_effect-standing m p e

resolve_encounter-standing : (d : Decision) (ui : Ui) → HasStandingOf ui (resolve_encounter d ui)
unfolding resolve_encounter send_decision
resolve_encounter-standing d ui =
    Option_cases (HasStandingOf ui) ui.encounter_data (λ e. (refl, tt))
      (λ met e. (refl, send-AreHeard ui.client (encounter_decision met.from_node met.to_node d)))

-- The client after one event of the page.
abbrev pub client_after : Client → Event → Client
client_after c (session m e) = (Session.step c e).0
client_after c _ = c

-- An event of the page leaves the screen that is shown and the own side alone, and the client too
-- unless it is the client's own.
abbrev Stands : Page → Event → Page × List Effect → Type 0
Stands p e (q, es) =
    (standing q.ui ≡ record { client = client_after p.ui.client e; shown = face p.ui.screen })
    × AreHeard (client_after p.ui.client e) es

step-Stands : (p : Page) (e : Event) → Stands p e (step p e)
unfolding step session_step
step-Stands p (session m e) =
    (handle_effects-standing m _ (Session.step p.ui.client e).1, step-AreHeard p.ui.client e)
step-Stands p (node_clicked clock id) = handle_node_click-standing clock id p.ui
step-Stands p (unit_clicked clock i) = click_unit-standing clock i p.ui
step-Stands p (move_clicked clock) =
    if_ind (Stands p (move_clicked clock)) p.ui.screen.move_disabled (refl, tt)
      (execute_move-standing clock p.ui)
step-Stands p (decided d) = resolve_encounter-standing d p.ui
step-Stands p (ticked h) = (
  if_ind (λ (u : Ui). standing u ≡ standing p.ui) (any (λ i. i == h) p.ui.timer.intervals) refl
      refl,
  tt,
)

pub step-standing :
    (p : Page) (e : Event)
    → standing (step p e).0.ui
      ≡ record { client = client_after p.ui.client e; shown = face p.ui.screen }
step-standing p e = (step-Stands p e).0

pub step-client : (p : Page) (e : Event) → (step p e).0.ui.client ≡ client_after p.ui.client e
step-client p e = ap (λ (s : Standing). s.client) (step-standing p e)

-- What a page sends goes out on an open socket.
pub page-AreHeard : (p : Page) (e : Event) → AreHeard (step p e).0.ui.client (step p e).1
page-AreHeard p e = subst (λ c. AreHeard c (step p e).1) (sym (step-client p e)) (step-Stands p e).1

run-sessions :
    (c : Client) (e : Event) (es : List Event)
    → Session.run (client_after c e) (sessions es) ≡ Session.run c (sessions (e ∷ es))
unfolding Session.run
run-sessions c (session m e) es = refl
run-sessions c (node_clicked clock id) es = refl
run-sessions c (unit_clicked clock i) es = refl
run-sessions c (move_clicked clock) es = refl
run-sessions c (decided d) es = refl
run-sessions c (ticked h) es = refl

-- Over any history of a page its client is the one that the events of its session alone lead to:
-- the user interface sends through it and never changes it.
pub run-client :
    (p : Page) (es : List Event) → (run p es).ui.client ≡ Session.run p.ui.client (sessions es)
unfolding run Session.run
run-client p [] = refl
run-client p (e ∷ es) =
    run-client (step p e).0 es
    ∙ ap (λ c. Session.run c (sessions es)) (step-client p e)
    ∙ run-sessions p.ui.client e es
