-- ===== src/App/Orders.antt =====
-- The orders that a page sends.
use hax_war.Base.{ℕ, Option, none, some, List, [], ◌∷◌, map, get_elem?, if_ind, Option_cases, All}
use hax_war.Protocol.{
  StateView, Decision, get_state, reconnect_sync, move_units, encounter_decision,
}
use hax_war.Client.{Client, Effect, sent, send_decision, connect, is_open, send}
use hax_war.Client.Session.Routine.{IsRoutine, step-AreRoutine}
use hax_war.Client.Matchmaking.{pending, resolved, rejected}
use hax_war.Ui.{Ui}
use hax_war.Ui.Moves.Proper.{IsProper, LeadsFrom, execute_move-IsValid}
use hax_war.Ui.Moves.Choices.{click_unit-IsValid, handle_node_click-IsValid}
use hax_war.Ui.Panels.{resolve_encounter, continue_match, enter_game}
use hax_war.Page
use hax_war.Page.{
  Page, session_step, session, node_clicked, unit_clicked, move_clicked, decided, ticked,
}
use hax_war.Page.Sound.{IsSound}
use hax_war.App.{
  Search, importing, waiting, continued, App, Html, Event, typed, find_clicked, imported,
  import_failed, streamed, continues, message_cleared, plays, reloads, Act, does, finish_import,
  continue_search, step, Enabled, IsPlayable, Reach,
}
use hax_war.App.Sound.{Reach-IsSound}

module _ {P Q : Effect → Type 0} (weaker : (e : Effect) → P e → Q e) where
  pub All-weaker : (es : List Effect) → All P es → All Q es
  All-weaker [] h = tt
  All-weaker (e ∷ es) (he, h) = (weaker e he, All-weaker es h)

-- A move only if a page in such a state may send it.
abbrev pub IsAllowed : Option StateView → Effect → Type 0
IsAllowed o (sent (move_units f t n)) = IsProper o (sent (move_units f t n))
IsAllowed o _ = Unit {0}

routine-IsAllowed : (c : Client) (o : Option StateView) (e : Effect) → IsRoutine c e → IsAllowed o e
routine-IsAllowed c o (sent (move_units f t n)) h = absurd h
routine-IsAllowed c o (sent get_state) h = tt
routine-IsAllowed c o (sent (reconnect_sync n)) h = tt
routine-IsAllowed c o (sent (encounter_decision f t d)) h = tt
routine-IsAllowed c o _ h = tt

proper-IsAllowed : (o : Option StateView) (e : Effect) → IsProper o e → IsAllowed o e
proper-IsAllowed o (sent (move_units f t n)) h = h
proper-IsAllowed o (sent get_state) h = tt
proper-IsAllowed o (sent (reconnect_sync n)) h = tt
proper-IsAllowed o (sent (encounter_decision f t d)) h = tt
proper-IsAllowed o _ h = tt

decisions-AreAllowed :
    (o : Option StateView) (d : Decision) (ui : Ui) → All (IsAllowed o) (resolve_encounter d ui).1
unfolding resolve_encounter send_decision send
decisions-AreAllowed o d ui =
    Option_cases (λ (r : Ui × List Effect). All (IsAllowed o) r.1) ui.encounter_data (λ e. tt)
      (λ encounter e. if_ind (All (IsAllowed o)) (is_open ui.client.sockets) (tt, tt) tt)

-- The effects of a click.
clicks-AreAllowed :
    (ui : Ui) (r : Ui × List Effect) → LeadsFrom ui r → All (IsAllowed ui.state_view) r.1
clicks-AreAllowed ui r h = All-weaker (proper-IsAllowed ui.state_view) r.1 h.1

play-AreProper :
    (p : Page) (e : Page.Event)
    → IsSound p
    → IsPlayable p e
    → All (IsAllowed p.ui.state_view) (Page.step p e).1
unfolding Page.step session_step
play-AreProper p (session m e) v (h, k) =
    All-weaker (routine-IsAllowed p.ui.client p.ui.state_view) _ (step-AreRoutine p.ui.client e h k)
play-AreProper p (node_clicked clock id) v h =
    clicks-AreAllowed p.ui _ (handle_node_click-IsValid clock id p.ui v.valid)
play-AreProper p (unit_clicked clock i) v h =
    clicks-AreAllowed p.ui _ (click_unit-IsValid clock i p.ui v.valid)
play-AreProper p (move_clicked clock) v h =
    if_ind (λ (r : Page × List Effect). All (IsAllowed p.ui.state_view) r.1)
      p.ui.screen.move_disabled tt
      (clicks-AreAllowed p.ui _ (execute_move-IsValid clock p.ui v.valid))
play-AreProper p (decided d) v h = decisions-AreAllowed p.ui.state_view d p.ui
play-AreProper p (ticked t) v h = tt

-- A move that a page in such a state may send; other acts are no moves.
abbrev pub IsProperAct : Option StateView → Act → Type 0
IsProperAct o (does e) = IsAllowed o e
IsProperAct o _ = Unit {0}

does-AreProper :
    (o : Option StateView) (es : List Effect)
    → All (IsAllowed o) es
    → All (IsProperAct o) (map does es)
does-AreProper o [] h = tt
does-AreProper o (e ∷ es) (he, h) = (he, does-AreProper o es h)

continue-AreProper :
    (o : Option StateView) (i : ℕ) (s : Option Search) (a : App)
    → All (IsProperAct o) (continue_search i s a).1
unfolding continue_search continue_match enter_game connect
continue-AreProper o i none a = tt
continue-AreProper o i (some importing) a = tt
continue-AreProper o i (some (continued p)) a = tt
continue-AreProper o i (some (waiting pending)) a = tt
continue-AreProper o i (some (waiting (resolved m))) a = (tt, tt)
continue-AreProper o i (some (waiting (rejected e))) a = (tt, tt)

step_app-AreProper :
    (html : Html) (a : App) (e : Event)
    → IsSound a.page
    → Enabled a e
    → All (IsProperAct a.page.ui.state_view) (step html a e).1
unfolding step finish_import
step_app-AreProper html a (typed name) v h = tt
step_app-AreProper html a (find_clicked random) v h = tt
step_app-AreProper html a (imported i) v h = (tt, tt)
step_app-AreProper html a (import_failed i e) v h = tt
step_app-AreProper html a (streamed i e) v h = tt
step_app-AreProper html a (continues i) v h =
    continue-AreProper a.page.ui.state_view i (get_elem? a.searches i) a
step_app-AreProper html a message_cleared v h = tt
step_app-AreProper html a (plays e) v h =
    does-AreProper a.page.ui.state_view (Page.step a.page e).1 (play-AreProper a.page e v h)
step_app-AreProper html a reloads v h = tt

-- In every state that the page comes to from its login form, whatever may happen next makes it send
-- only moves that go to another node than they come from, have at least one unit, and no more than
-- the last state says remain; none is sent before a state has come.
pub Reach-AreProper :
    (html : Html) {a : App}
    → Reach html a
    → (e : Event) → Enabled a e
    → All (IsProperAct a.page.ui.state_view) (step html a e).1
Reach-AreProper html {a} r e h = step_app-AreProper html a e (Reach-IsSound html r) h
