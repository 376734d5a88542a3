-- ===== src/Page/Sound.antt =====
-- What every history of the page keeps.
use hax_war.Base.{
  ℕ, ◌≤◌, ◌≡◌, refl, inl, sym, subst, ◌∙◌, Bool, any, ◌==◌, if_ind, Option, none, some,
  Option_cases, List, [], ◌∷◌, length, Text, All, arith,
}
use hax_war.Protocol.{
  Decision, Encounter, Side, Message, Body, state_update, game_event, error_message, pong,
  other_message,
}
use hax_war.Client.{
  Effect, console_log, on_log, on_connection_change, on_state_update, on_game_event, on_encounter,
  on_game_over, open_socket, sent, close_socket, timeout_set,
}
use hax_war.Client.Session
use hax_war.Ui.{Ui, Screen, new_ui}
use hax_war.Ui.Timer.{TimerEl, new_timer}
use hax_war.Ui.Timer.Single.{stop-IsStopped}
use hax_war.Ui.Timer.Truthful.{IsTruthful, idle-IsTruthful, tick-IsTruthful}
use hax_war.Ui.Trim.{length-trim-le}
use hax_war.Ui.Log.{Entry, entry_of, add_log}
use hax_war.Ui.Broadcast.{Card}
use hax_war.Ui.Broadcast.Feed.{Feed, Setting, add_card, card_of, handle_broadcast}
use hax_war.Ui.Panels.{
  show_result, handle_encounter, resolve_encounter, handle_game_over, update_connection_status,
}
use hax_war.Ui.Update.Selection.{IsLimited}
use hax_war.Ui.Moves.Proper.{IsValid, update-IsValid, execute_move-IsValid}
use hax_war.Ui.Moves.Choices.{click_unit-IsValid, handle_node_click-IsValid}
use hax_war.Page.{
  Page, Moment, broadcast_body, broadcast, handle_effect, handle_effects, Event, session,
  node_clicked, unit_clicked, move_clicked, decided, ticked, session_step, new_page, tick_ui, step,
  run,
}

abbrev pub cards_of : Option Feed → List Card
cards_of none = []
cards_of (some feed) = feed.cards

-- The user interface is valid, the log has at most 50 entries and the feed at most 30 cards.
pub record IsSound (p : Page) : Type 0 where
  pub valid : IsValid p.ui
  pub logged : length p.log ≤ 50
  pub cards : length (cards_of p.feed) ≤ 30

show_result-unit_buttons :
    (mine winner : Option Side) (s : Screen)
    → (show_result mine winner s).unit_buttons ≡ s.unit_buttons
unfolding show_result
show_result-unit_buttons mine none s = refl
show_result-unit_buttons mine (some winner) s = refl

game_over-IsValid :
    (winner : Option Side) (ui : Ui) → IsValid ui → IsValid (handle_game_over winner ui)
unfolding handle_game_over
game_over-IsValid winner ui v = record {
  target = v.target;
  source = v.source;
  within = λ s e.
      let w = v.within s e in
      record {
        selection = w.selection;
        buttons =
            subst (All (IsLimited s.my_remaining_units))
              (sym (show_result-unit_buttons ui.client.player_side winner _)) w.buttons;
      };
  timer =
      let stopped = stop-IsStopped ui.timer v.timer.single in
      idle-IsTruthful ui.is_my_planning_complete _ stopped.0 (inl stopped);
}

-- A change of what validity does not speak of.
abbrev pub IsAlike : Ui → Ui → Type 0
IsAlike ui after =
    (after.selected_to ≡ ui.selected_to)
    × (after.selected_from ≡ ui.selected_from)
    × (after.state_view ≡ ui.state_view)
    × (after.selected_units ≡ ui.selected_units)
    × (after.screen.unit_buttons ≡ ui.screen.unit_buttons)
    × IsTruthful after.is_my_planning_complete after.timer

pub alike-IsValid : (ui after : Ui) → IsAlike ui after → IsValid ui → IsValid after
alike-IsValid ui after (to, from, kept, units, buttons, timed) v = record {
  target = λ t e. let (f, h, ne) = v.target t (sym to ∙ e) in (f, from ∙ h, ne);
  source = λ f e. let (s, h) = v.source f (sym from ∙ e) in (s, kept ∙ h);
  within = λ s e.
      let w = v.within s (sym kept ∙ e) in
      record {
        selection = omega (arith, w.selection, units);
        buttons = subst (All (IsLimited s.my_remaining_units)) (sym buttons) w.buttons;
      };
  timer = timed;
}

encounter-IsValid : (e : Encounter) (ui : Ui) → IsValid ui → IsValid (handle_encounter e ui)
unfolding handle_encounter
encounter-IsValid e ui v =
    alike-IsValid ui (handle_encounter e ui) (refl, refl, refl, refl, refl, v.timer) v

status-IsValid : (b : Bool) (ui : Ui) → IsValid ui → IsValid (update_connection_status b ui)
unfolding update_connection_status
status-IsValid b ui v =
    alike-IsValid ui (update_connection_status b ui) (refl, refl, refl, refl, refl, v.timer) v

resolve-IsValid : (d : Decision) (ui : Ui) → IsValid ui → IsValid (resolve_encounter d ui).0
unfolding resolve_encounter
resolve-IsValid d ui v =
    Option_cases (λ (r : Ui × List Effect). IsValid r.0) ui.encounter_data (λ none_left. v)
      (λ e has. alike-IsValid ui _ (refl, refl, refl, refl, refl, v.timer) v)

tick-IsValid : (h : ℕ) (ui : Ui) → IsValid ui → IsValid (tick_ui h ui)
tick-IsValid h ui v =
    if_ind IsValid (any (λ i. i == h) ui.timer.intervals)
      (alike-IsValid ui _
        (
          refl,
          refl,
          refl,
          refl,
          refl,
          tick-IsTruthful ui.is_my_planning_complete ui.timer v.timer.single,
        )
        v)
      v

add_log-length : (time m : Text) (log : List Entry) → length (add_log time m log) ≤ 50
unfolding add_log
add_log-length time m log = let entries = entry_of time m ∷ log in length-trim-le 50 entries

add_card-length : (o : Option Card) (cs : List Card) → length cs ≤ 30 → length (add_card o cs) ≤ 30
add_card-length none cs le = le
add_card-length (some c) cs le = length-trim-le 30 (c ∷ cs)

body-cards :
    (w : Setting) (round : ℕ) (b : Body) (feed : Feed)
    → length feed.cards ≤ 30
    → length (broadcast_body w round b feed).cards ≤ 30
unfolding handle_broadcast
body-cards w round (game_event e) feed le = add_card-length (card_of w round e) feed.cards le
body-cards w round (state_update s) feed le = le
body-cards w round (error_message t) feed le = le
body-cards w round pong feed le = le
body-cards w round other_message feed le = le

broadcast-cards :
    (m : Moment) (message : Message) (ui : Ui) (o : Option Feed)
    → length (cards_of o) ≤ 30
    → length (cards_of (broadcast m message ui o)) ≤ 30
broadcast-cards m message ui none le = le
broadcast-cards m message ui (some feed) le = body-cards _ message.round message.body feed le

pub with_ui-IsSound : (p : Page) (ui : Ui) → IsSound p → IsValid ui → IsSound (record p { ui = ui })
with_ui-IsSound p ui v h = record { valid = h; logged = v.logged; cards = v.cards }

effect-IsSound : (m : Moment) (p : Page) (e : Effect) → IsSound p → IsSound (handle_effect m p e)
unfolding handle_effect
effect-IsSound m p (on_log text) v = record {
  valid = v.valid;
  logged = add_log-length m.time text p.log;
  cards = v.cards;
}
effect-IsSound m p (on_connection_change b) v =
    with_ui-IsSound p _ v (status-IsValid b p.ui v.valid)
effect-IsSound m p (on_state_update s) v =
    with_ui-IsSound p _ v (update-IsValid m.clock.now m.clock.now_ms s p.ui v.valid)
effect-IsSound m p (on_game_event message) v = record {
  valid = v.valid;
  logged = v.logged;
  cards = broadcast-cards m message p.ui p.feed v.cards;
}
effect-IsSound m p (on_encounter e) v = with_ui-IsSound p _ v (encounter-IsValid e p.ui v.valid)
effect-IsSound m p (on_game_over winner) v =
    with_ui-IsSound p _ v (game_over-IsValid winner p.ui v.valid)
effect-IsSound m p (console_log t) v = v
effect-IsSound m p (open_socket url) v = v
effect-IsSound m p (sent c) v = v
effect-IsSound m p close_socket v = v
effect-IsSound m p (timeout_set h d) v = v

effects-IsSound :
    (m : Moment) (p : Page) (es : List Effect) → IsSound p → IsSound (handle_effects m p es)
unfolding handle_effects
effects-IsSound m p [] v = v
effects-IsSound m p (e ∷ es) v = effects-IsSound m (handle_effect m p e) es (effect-IsSound m p e v)

pub step-IsSound : (p : Page) (e : Event) → IsSound p → IsSound (step p e).0
unfolding step session_step
step-IsSound p (session m e) v = effects-IsSound m _ (Session.step p.ui.client e).1 (
    with_ui-IsSound p _ v
      (alike-IsValid p.ui _ (refl, refl, refl, refl, refl, v.valid.timer) v.valid))
step-IsSound p (node_clicked clock id) v =
    with_ui-IsSound p _ v (handle_node_click-IsValid clock id p.ui v.valid).0
step-IsSound p (unit_clicked clock i) v =
    with_ui-IsSound p _ v (click_unit-IsValid clock i p.ui v.valid).0
step-IsSound p (move_clicked clock) v =
    if_ind (λ (r : Page × List Effect). IsSound r.0) p.ui.screen.move_disabled v
      (with_ui-IsSound p _ v (execute_move-IsValid clock p.ui v.valid).0)
step-IsSound p (decided d) v = with_ui-IsSound p _ v (resolve-IsValid d p.ui v.valid)
step-IsSound p (ticked h) v = with_ui-IsSound p _ v (tick-IsValid h p.ui v.valid)

run-IsSound_of : (p : Page) (es : List Event) → IsSound p → IsSound (run p es)
unfolding run
run-IsSound_of p [] v = v
run-IsSound_of p (e ∷ es) v = run-IsSound_of (step p e).0 es (step-IsSound p e v)

-- Over any history of the connection, of clicks and of the timer, from a new page with an empty
-- log and feed: at most one interval runs and its handle is known, and while it runs the timer
-- element, if there is one, shows the seconds that are left; a chosen destination is another node
-- than the source, no more units are selected, or can be, than the last state says remain, the log
-- has at most 50 entries, and the feed at most 30 cards.
pub run-IsSound :
    (host : Text) (el : Option TimerEl) (screen : Screen) (b : Bool) (es : List Event)
    → IsSound (run (new_page host el screen b) es)
unfolding new_page new_ui new_timer
run-IsSound host el screen b es = run-IsSound_of (new_page host el screen b) es (record {
  valid = record {
    target = λ t e. cc;
    source = λ f e. cc;
    within = λ s e. cc;
    timer = idle-IsTruthful _ _ refl (inl (refl, refl));
  };
  logged = omega arith;
  cards = omega arith;
})
