-- ===== src/App/Sound.antt =====
-- The page's invariant from the login form on.
use hax_war.Base.{ℕ, ◌≡◌, refl, Option, none, some, [], ◌∷◌, get_elem?, if_ind, Text, subst, sym}
use hax_war.Matchmaking.Queue.{JoinQueueRequest}
use hax_war.Client.{Client}
use hax_war.Client.Matchmaking.{StreamEvent, pending, resolved, rejected}
use hax_war.Ui.{Ui}
use hax_war.Ui.Panels.{start_matchmaking, continue_match, enter_game}
use hax_war.Page.{Page, run}
use hax_war.Page.Sound.{IsSound, IsAlike, alike-IsValid, with_ui-IsSound, step-IsSound, run-IsSound}
use hax_war.App.{
  Search, importing, waiting, continued, App, Html, new_app, Event, typed, find_clicked, imported,
  import_failed, streamed, continues, message_cleared, plays, reloads, asked, click_find,
  take_stream, continue_search, clear_message, finish_import, step, Reach, reach_ind,
}
use hax_war.App.Form.{trim_name}

alike-IsSound : (p : Page) (ui : Ui) → IsAlike p.ui ui → IsSound p → IsSound (record p { ui = ui })
alike-IsSound p ui h v = with_ui-IsSound p ui v (alike-IsValid p.ui ui h v.valid)

start_matchmaking-IsSound :
    (name random : Text) (p : Page)
    → IsSound p
    → IsSound (record p { ui = (start_matchmaking name random p.ui).0 })
unfolding start_matchmaking
start_matchmaking-IsSound [] random p v = v
start_matchmaking-IsSound (c ∷ name) random p v =
    alike-IsSound p _ (refl, refl, refl, refl, refl, v.valid.timer) v

asked-page :
    (a : App) (r : Ui × Option JoinQueueRequest) → (asked a r).page ≡ record (a.page) { ui = r.0 }
asked-page a (ui, none) = refl
asked-page a (ui, some q) = refl

client-IsSound :
    (p : Page) (c : Client) → IsSound p → IsSound (record p { ui = record (p.ui) { client = c } })
client-IsSound p c v = alike-IsSound p _ (refl, refl, refl, refl, refl, v.valid.timer) v

stream-IsSound :
    (i : ℕ) (e : StreamEvent) (o : Option Search) (a : App)
    → IsSound a.page
    → IsSound (take_stream i e o a).page
unfolding take_stream
stream-IsSound i e none a v = v
stream-IsSound i e (some importing) a v = v
stream-IsSound i e (some (waiting p)) a v = client-IsSound a.page _ v
stream-IsSound i e (some (continued p)) a v = client-IsSound a.page _ v

continue-IsSound :
    (i : ℕ) (o : Option Search) (a : App) → IsSound a.page → IsSound (continue_search i o a).0.page
unfolding continue_search continue_match enter_game
continue-IsSound i none a v = v
continue-IsSound i (some importing) a v = v
continue-IsSound i (some (continued p)) a v = v
continue-IsSound i (some (waiting pending)) a v = v
continue-IsSound i (some (waiting (resolved m))) a v =
    alike-IsSound a.page _ (refl, refl, refl, refl, refl, v.valid.timer) v
continue-IsSound i (some (waiting (rejected e))) a v =
    alike-IsSound a.page _ (refl, refl, refl, refl, refl, v.valid.timer) v

pub step_app-IsSound :
    (html : Html) (a : App) (e : Event) → IsSound a.page → IsSound (step html a e).0.page
unfolding step click_find new_app run finish_import clear_message
step_app-IsSound html a (typed name) v = v
step_app-IsSound html a (find_clicked random) v =
    if_ind (λ (b : App). IsSound b.page) a.find_disabled v
      (subst IsSound (sym (asked-page a (start_matchmaking (trim_name a.name) random a.page.ui)))
        (start_matchmaking-IsSound (trim_name a.name) random a.page v))
step_app-IsSound html a (imported i) v = v
step_app-IsSound html a (import_failed i e) v = v
step_app-IsSound html a (streamed i e) v = stream-IsSound i e (get_elem? a.searches i) a v
step_app-IsSound html a (continues i) v = continue-IsSound i (get_elem? a.searches i) a v
step_app-IsSound html a message_cleared v =
    alike-IsSound a.page _ (refl, refl, refl, refl, refl, v.valid.timer) v
step_app-IsSound html a (plays e) v = step-IsSound a.page e v
step_app-IsSound html a reloads v =
    run-IsSound html.host html.timer_el html.screen html.has_placeholder []

-- In every state that the page comes to from its login form, whatever is typed and clicked, however
-- the searches go, and whatever the server sends: at most one interval runs and its handle is
-- known, and while it runs the timer element, if there is one, shows the seconds that are left; a
-- chosen destination is another node than the source, no more units are selected, or can be, than
-- the last state says remain, the log has at most 50 entries, and the feed at most 30 cards.
pub Reach-IsSound : (html : Html) {a : App} → Reach html a → IsSound a.page
unfolding new_app run
Reach-IsSound html r =
    reach_ind html (λ a. IsSound a.page)
      (run-IsSound html.host html.timer_el html.screen html.has_placeholder [])
      (λ a e v h. step_app-IsSound html a e v) r
