-- ===== src/App/Screens.antt =====
-- Which screen the page shows, and whose side.
use hax_war.Base.{
  ℕ, ◌≡◌, refl, ap, ◌∙◌, true, false, Option, none, some, [], ◌∷◌, get_elem?, get_elem?-set_self,
  get_elem?-set_other, get_elem?-append, set, sum_by, sum_by-set, sum_by-append, if_ind, Text, txt,
  arith, ◌⊎◌, inl, inr, if◌then◌else◌,
}
use hax_war.Matchmaking.Queue.{JoinQueueRequest}
use hax_war.Client.Matchmaking.{
  StreamEvent, pending, resolved, rejected, MatchResult, handle_stream,
}
use hax_war.Ui.{Ui, new_ui}
use hax_war.Ui.Standing.{Face, face, Standing}
use hax_war.Ui.Panels.{start_matchmaking, continue_match, enter_game, is_side_a}
use hax_war.Page.{new_page}
use hax_war.Page.Refines.{step-standing}
use hax_war.App.{
  Search, importing, waiting, continued, App, Html, new_app, Event, typed, find_clicked, imported,
  import_failed, streamed, continues, message_cleared, plays, reloads, asked, click_find,
  finish_import, take_stream, continue_search, clear_message, step, Enabled, Reach, reach_ind,
}
use hax_war.App.Form.{trim_name}
use hax_war.App.Connections.{entered, games}

abbrev pub shown : App → Face
shown a = face a.page.ui.screen

-- What a player of a match sees.
abbrev pub in_game : MatchResult → Face
in_game m = record {
  login = false;
  game = true;
  side = if is_side_a m.player_side then txt "🔵 Player A" else txt "🔴 Player B";
}

-- No search has brought the page into a game, and it shows what index.html has; or it shows the
-- game, with the side of a match that such a search found.
abbrev pub ShowsScreen : Html → App → Type 0
ShowsScreen html a =
    ((games a ≡ 0) × (shown a ≡ face html.screen))
    ⊎ ((i : ℕ) × (m : MatchResult) × (get_elem? a.searches i ≡ some (continued (resolved m)))
        × (shown a ≡ in_game m))

-- A step that leaves the screen alone, the games, and the searches that have entered one.
screen_kept :
    (html : Html) (a b : App)
    → shown b ≡ shown a
    → games b ≡ games a
    → ((i : ℕ) (m : MatchResult)
        → get_elem? a.searches i ≡ some (continued (resolved m))
        → get_elem? b.searches i ≡ some (continued (resolved m)))
    → ShowsScreen html a
    → ShowsScreen html b
screen_kept html a b face_same games_same keeps (inl (n, f)) = inl (games_same ∙ n, face_same ∙ f)
screen_kept html a b face_same games_same keeps (inr (i, m, h, f)) =
    inr (i, m, keeps i m h, face_same ∙ f)

-- A search that has not entered a game goes on without entering one.
search_kept :
    (html : Html) (a b : App) (i : ℕ) (old new : Search)
    → get_elem? a.searches i ≡ some old
    → entered old ≡ 0
    → entered new ≡ 0
    → b.searches ≡ set a.searches i new
    → shown b ≡ shown a
    → ShowsScreen html a
    → ShowsScreen html b
search_kept html a b i old new h no_game still replaced same =
    screen_kept html a b same
      (ap (sum_by entered) replaced
        ∙ omega (arith, sum_by-set entered a.searches i new h, no_game, still))
      (λ j m k.
        ap (λ xs. get_elem? xs j) replaced
        ∙ get_elem?-set_other a.searches j i new k h (λ e. omega (arith, ap entered e, no_game)))

asked-ShowsScreen :
    (html : Html) (a : App) (r : Ui × Option JoinQueueRequest)
    → face r.0.screen ≡ shown a
    → ShowsScreen html a
    → ShowsScreen html (asked a r)
asked-ShowsScreen html a (ui, none) same v =
    screen_kept html a (asked a (ui, none)) same refl (λ i m h. h) v
asked-ShowsScreen html a (ui, some q) same v =
    screen_kept html a (asked a (ui, some q)) same
      (omega (arith, sum_by-append entered a.searches (importing ∷ [])))
      (λ i m h. get_elem?-append a.searches (importing ∷ []) i h) v

start_matchmaking-face :
    (name random : Text) (ui : Ui)
    → face (start_matchmaking name random ui).0.screen ≡ face ui.screen
unfolding start_matchmaking
start_matchmaking-face [] random ui = refl
start_matchmaking-face (c ∷ name) random ui = refl

stream-ShowsScreen :
    (html : Html) (i : ℕ) (e : StreamEvent) (o : Option Search) (a : App)
    → get_elem? a.searches i ≡ o
    → ShowsScreen html a
    → ShowsScreen html (take_stream i e o a)
unfolding take_stream
stream-ShowsScreen html i e none a h v = v
stream-ShowsScreen html i e (some importing) a h v = v
stream-ShowsScreen html i e (some (waiting p)) a h v =
    search_kept html a (take_stream i e (some (waiting p)) a) i (waiting p)
      (waiting (handle_stream (a.page.ui.client, p) e).1) h refl refl refl refl v
stream-ShowsScreen html i e (some (continued p)) a h v =
    screen_kept html a (take_stream i e (some (continued p)) a) refl refl (λ j m k. k) v

continue-ShowsScreen :
    (html : Html) (i : ℕ) (o : Option Search) (a : App)
    → get_elem? a.searches i ≡ o
    → ShowsScreen html a
    → ShowsScreen html (continue_search i o a).0
unfolding continue_search continue_match enter_game
continue-ShowsScreen html i none a h v = v
continue-ShowsScreen html i (some importing) a h v = v
continue-ShowsScreen html i (some (continued p)) a h v = v
continue-ShowsScreen html i (some (waiting pending)) a h v =
    search_kept html a ((continue_search i (some (waiting pending)) a).0) i (waiting pending)
      (continued pending) h refl refl refl refl v
continue-ShowsScreen html i (some (waiting (rejected e))) a h v =
    search_kept html a ((continue_search i (some (waiting (rejected e))) a).0) i
      (waiting (rejected e)) (continued (rejected e)) h refl refl refl refl v
continue-ShowsScreen html i (some (waiting (resolved m))) a h v =
    inr (i, m, get_elem?-set_self a.searches i (continued (resolved m)) h, refl)

step_app-ShowsScreen :
    (html : Html) (a : App) (e : Event)
    → ShowsScreen html a
    → Enabled a e
    → ShowsScreen html (step html a e).0
unfolding step click_find finish_import clear_message new_app new_page new_ui
step_app-ShowsScreen html a (typed name) v h =
    screen_kept html a ((step html a (typed name)).0) refl refl (λ i m k. k) v
step_app-ShowsScreen html a (find_clicked random) v h =
    if_ind (ShowsScreen html) a.find_disabled v
      (asked-ShowsScreen html a _ (start_matchmaking-face (trim_name a.name) random a.page.ui) v)
step_app-ShowsScreen html a (imported i) v h =
    search_kept html a ((step html a (imported i)).0) i importing (waiting pending) h refl refl refl
      refl v
step_app-ShowsScreen html a (import_failed i e) v h =
    search_kept html a ((step html a (import_failed i e)).0) i importing (waiting (rejected e)) h
      refl refl refl refl v
step_app-ShowsScreen html a (streamed i e) v h =
    stream-ShowsScreen html i e (get_elem? a.searches i) a refl v
step_app-ShowsScreen html a (continues i) v h =
    continue-ShowsScreen html i (get_elem? a.searches i) a refl v
step_app-ShowsScreen html a message_cleared v h =
    screen_kept html a ((step html a message_cleared).0) refl refl (λ i m k. k) v
step_app-ShowsScreen html a (plays e) v h =
    screen_kept html a ((step html a (plays e)).0)
      (ap (λ (s : Standing). s.shown) (step-standing a.page e)) refl (λ i m k. k) v
step_app-ShowsScreen html a reloads v h = inl (refl, refl)

-- ABOUT
pub Reach-ShowsScreen : (html : Html) {a : App} → Reach html a → ShowsScreen html a
unfolding new_app new_page new_ui
Reach-ShowsScreen html r =
    reach_ind html (ShowsScreen html) (inl (refl, refl)) (step_app-ShowsScreen html) r
