-- ===== src/Page/Encounters.antt =====
-- Encounters: the panel, and the decision that the player sends.
use hax_war.Base.{
  if◌then◌else◌, ℕ, ◌≡◌, ◌≢◌, refl, ap, subst, ◌∙◌, sym, Bool, true, false, ltb, none, List, [],
  ◌∷◌, if_ind, Option_cases, Text,
}
use hax_war.Protocol.{
  Move, StateView, Encounter, Decision, Message, game_event, encounter_occurred, state_update,
  encounter_decision,
}
use hax_war.Client.{Client, track_sequence, send, send_decision, log}
use hax_war.Client.Sent.{GoesOut, send-GoesOut}
use hax_war.Client.Events.{
  receive, handle_message, handle_body, handle_game_event, event_log, event_follow_up,
}
use hax_war.Client.Session
use hax_war.Ui.{Ui}
use hax_war.Ui.Buttons.{update_move_button}
use hax_war.Ui.Optimism.{keep_moves, apply_moves-fixed, local_state}
use hax_war.Ui.Update.{
  take_state, show_round, run_timer, show_counts, limit_selection, show_pending, is_nonempty,
  handle_state_update,
}
use hax_war.Ui.Panels.{handle_encounter, resolve_encounter}
use hax_war.Page.{
  Page, Moment, acted, handle_effect, handle_effects, session_step, session, decided, step,
}

-- The page after a message.
abbrev pub told : Page → Moment → Message → Page
told p m message = (step p (session m (Session.received message))).0

abbrev pub reports : ℕ → ℕ → Encounter → Message
reports sequence round e = record {
  sequence = sequence;
  round = round;
  body = game_event (encounter_occurred e);
}

sockets-told :
    (p : Page) (m : Moment) (sequence round : ℕ) (e : Encounter)
    → (told p m (reports sequence round e)).ui.client.sockets ≡ p.ui.client.sockets
unfolding step session_step handle_effects handle_effect Session.step receive handle_message
    handle_body handle_game_event event_log event_follow_up log handle_encounter track_sequence
sockets-told p m sequence round e =
    if_ind (λ (c : Client). c.sockets ≡ p.ui.client.sockets) (ltb 0 sequence) refl refl

-- A reported encounter shows the panel. The first decision goes out, for the ends of the encounter,
-- if the newest socket is open, and is lost if not; in either case it hides the panel. A second one
-- sends nothing and changes nothing.
pub encounter_answered_once :
    (p : Page) (m : Moment) (sequence round : ℕ) (e : Encounter) (d again : Decision)
    → let p1 = told p m (reports sequence round e) in
      let r = step p1 (decided d) in
      (p1.ui.screen.encounter_shown ≡ true)
      × GoesOut p.ui.client.sockets (encounter_decision e.from_node e.to_node d) r.1
      × (r.0.ui.screen.encounter_shown ≡ false)
      × (step r.0 (decided again) ≡ (r.0, []))
unfolding step session_step handle_effects handle_effect Session.step receive handle_message
    handle_body handle_game_event event_log event_follow_up log handle_encounter resolve_encounter
    send_decision
encounter_answered_once p m sequence round e d again = (
  refl,
  subst
      (λ ss. GoesOut ss (encounter_decision e.from_node e.to_node d) (
        send (told p m (reports sequence round e)).ui.client
          (encounter_decision e.from_node e.to_node d)))
      (sockets-told p m sequence round e)
      (send-GoesOut (told p m (reports sequence round e)).ui.client
        (encounter_decision e.from_node e.to_node d)),
  refl,
  refl,
)

is_nonempty_lem :
    (ids : List Text) (b : Bool) → ids ≢ [] → (if is_nonempty ids then true else b) ≡ true
is_nonempty_lem [] b ne = absurd (ne refl)
is_nonempty_lem (id ∷ ids) b ne = refl

shown-encounter :
    (most : ℕ) (local : StateView) (ui : Ui)
    → local.undecided_encounter_edge_ids ≢ []
    → ((show_pending local (limit_selection most (show_counts local ui))).screen.encounter_shown
        ≡ true)
      × ((show_pending local (limit_selection most (show_counts local ui))).encounter_data
          ≡ ui.encounter_data)
unfolding show_pending limit_selection show_counts update_move_button
shown-encounter most local ui ne = (
  is_nonempty_lem local.undecided_encounter_edge_ids _ ne,
  if_ind (λ (u : Ui). u.encounter_data ≡ ui.encounter_data) (ltb most ui.selected_units) refl refl,
)

local_state-undecided :
    (opts : List Move) (state : StateView)
    → (local_state opts state).undecided_encounter_edge_ids ≡ state.undecided_encounter_edge_ids
unfolding local_state
local_state-undecided opts state = let (_, _, same) = apply_moves-fixed opts state in same

drawn-encounter :
    (now : ℕ) (opts : List Move) (local state : StateView) (ui : Ui)
    → (run_timer now local (show_round local (take_state opts local state ui))).encounter_data
      ≡ ui.encounter_data
unfolding run_timer show_round take_state
drawn-encounter now opts local state ui = refl

update-encounter :
    (now now_ms : ℕ) (state : StateView) (ui : Ui)
    → state.undecided_encounter_edge_ids ≢ []
    → ((handle_state_update now now_ms state ui).screen.encounter_shown ≡ true)
      × ((handle_state_update now now_ms state ui).encounter_data ≡ ui.encounter_data)
unfolding handle_state_update
update-encounter now now_ms state ui ne =
    let opts = keep_moves state now ui.optimistic_moves in
    let local = local_state opts state in
    let drawn = run_timer now_ms local (show_round local (take_state opts local state ui)) in
    let (shown, kept) =
      shown-encounter local.my_remaining_units local drawn
        (λ e. ne (sym (local_state-undecided opts state) ∙ e)) in
    (shown, kept ∙ drawn-encounter now_ms opts local state ui)

abbrev pub updates : ℕ → ℕ → StateView → Message
updates sequence round s = record { sequence = sequence; round = round; body = state_update s }

resolve-none :
    (d : Decision) (ui : Ui) → ui.encounter_data ≡ none → resolve_encounter d ui ≡ (ui, [])
unfolding resolve_encounter
resolve-none d ui e =
    Option_cases (λ r. r ≡ (ui, [])) ui.encounter_data (λ gone. refl) (λ e' has. cc)

-- On a page that was told of no encounter, a state with undecided ones shows the panel; but its
-- buttons send nothing and change nothing.
pub undecided_panel_dead :
    (p : Page) (m : Moment) (sequence round : ℕ) (s : StateView) (d : Decision)
    → p.ui.encounter_data ≡ none
    → s.undecided_encounter_edge_ids ≢ []
    → ((told p m (updates sequence round s)).ui.screen.encounter_shown ≡ true)
      × (step (told p m (updates sequence round s)) (decided d)
          ≡ (told p m (updates sequence round s), []))
unfolding step session_step handle_effects handle_effect Session.step receive handle_message
    handle_body
undecided_panel_dead p m sequence round s d e ne =
    let message = updates sequence round s in
    let ui = record (p.ui) { client = (receive p.ui.client message).0 } in
    let u = update-encounter m.clock.now m.clock.now_ms s ui ne in
    let after = handle_state_update m.clock.now m.clock.now_ms s ui in
    (u.0, ap (acted (told p m message)) (resolve-none d after (u.1 ∙ e)))
