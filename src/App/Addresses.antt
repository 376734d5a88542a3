-- ===== src/App/Addresses.antt =====
-- Where the page connects to.
use hax_war.Base.{
  ℕ, ◌<◌, ◌≤◌, ◌≡◌, refl, ap, ◌∙◌, Option, none, some, List, [], ◌∷◌, ◌++◌, map, get_elem?, sum_by,
  sum_by-set, if_ind, Option_cases, All, Text, txt, arith,
}
use hax_war.Protocol.{StateView, Side, side_text, Decision}
use hax_war.Client.{
  Client, Effect, ws_url, player_side_text, open_socket, connect, send_decision, send, is_open,
}
use hax_war.Client.Session.Routine.{IsRoutine, step-AreRoutine}
use hax_war.Client.Matchmaking.{pending, resolved, rejected}
use hax_war.Ui.{Ui}
use hax_war.Ui.Moves.Proper.{IsProper, LeadsFrom, execute_move-IsValid}
use hax_war.Ui.Moves.Choices.{click_unit-IsValid, handle_node_click-IsValid}
use hax_war.Ui.Panels.{continue_match, enter_game, resolve_encounter}
use hax_war.Page
use hax_war.Page.{
  Page, session, node_clicked, unit_clicked, move_clicked, decided, ticked, session_step,
}
use hax_war.Page.Sound.{IsSound}
use hax_war.App.{
  Search, importing, waiting, continued, App, Html, Event, typed, find_clicked, imported,
  import_failed, streamed, continues, message_cleared, plays, reloads, Act, does, finish_import,
  continue_search, step, Enabled, IsPlayable, Reach,
}
use hax_war.App.Sound.{Reach-IsSound}
use hax_war.App.Connections.{entered, IsBounded, Reach-IsBounded}
use hax_war.App.Places.{found, IsPlaced, Reach-IsPlaced}
use hax_war.App.Orders.{All-weaker}

-- A socket is opened to the room that the client has, at its side, on the host of the page.
abbrev pub IsAddressed : Html → Client → Effect → Type 0
IsAddressed html c (open_socket url) =
    (s : Side) × (c.player_side ≡ some s)
    × (url
        ≡ txt "ws://"
          ++ (html.host ++ (txt "/ws/game/" ++ (c.room_id ++ (txt "/" ++ side_text s)))))
IsAddressed html c _ = Unit {0}

ws_url-IsAddressed :
    (html : Html) (a : App) (url : Text)
    → IsPlaced html a
    → 0 < sum_by found a.searches
    → url ≡ ws_url a.page.ui.client
    → IsAddressed html a.page.ui.client (open_socket url)
unfolding ws_url
ws_url-IsAddressed html a url v lt e =
    let (s, known) = v.side lt in
    let c = a.page.ui.client in
    (
      s,
      known,
      e
          ∙ ap
              (λ h.
                txt "ws://"
                ++ (h
                    ++ (txt "/ws/game/"
                        ++ (c.room_id ++ (txt "/" ++ player_side_text c.player_side)))))
              v.host
          ∙ ap
              (λ o.
                txt "ws://"
                ++ (html.host
                    ++ (txt "/ws/game/" ++ (c.room_id ++ (txt "/" ++ player_side_text o)))))
              known,
    )

entered-le : (ss : List Search) → sum_by entered ss ≤ sum_by found ss
entered-le [] = omega arith
entered-le (importing ∷ ss) = omega (arith, entered-le ss)
entered-le (waiting pending ∷ ss) = omega (arith, entered-le ss)
entered-le (waiting (resolved m) ∷ ss) = omega (arith, entered-le ss)
entered-le (waiting (rejected e) ∷ ss) = omega (arith, entered-le ss)
entered-le (continued pending ∷ ss) = omega (arith, entered-le ss)
entered-le (continued (resolved m) ∷ ss) = omega (arith, entered-le ss)
entered-le (continued (rejected e) ∷ ss) = omega (arith, entered-le ss)

-- A pending reconnect comes from a game that was entered, so its match was found.
routine-IsAddressed :
    (html : Html) (a : App) (e : Effect)
    → IsPlaced html a
    → IsBounded a
    → IsRoutine a.page.ui.client e
    → IsAddressed html a.page.ui.client e
routine-IsAddressed html a (open_socket url) v b (e, lt) =
    ws_url-IsAddressed html a url v (omega (arith, lt, b.bound, entered-le a.searches)) e
routine-IsAddressed html a _ v b h = tt

proper-IsAddressed :
    (html : Html) (c : Client) (o : Option StateView) (e : Effect)
    → IsProper o e
    → IsAddressed html c e
proper-IsAddressed html c none (open_socket url) h = absurd h
proper-IsAddressed html c (some s) (open_socket url) h = absurd h
proper-IsAddressed html c none _ h = tt
proper-IsAddressed html c (some s) _ h = tt

module _ (html : Html) (a : App) where
  abbrev AreAddressed : List Effect → Type 0
  AreAddressed es = All (IsAddressed html a.page.ui.client) es

  clicks-AreAddressed : (ui : Ui) (r : Ui × List Effect) → LeadsFrom ui r → AreAddressed r.1
  clicks-AreAddressed ui r h =
      All-weaker (proper-IsAddressed html a.page.ui.client ui.state_view) r.1 h.1

  decisions-AreAddressed : (d : Decision) (ui : Ui) → AreAddressed (resolve_encounter d ui).1
  unfolding resolve_encounter send_decision send
  decisions-AreAddressed d ui =
      Option_cases (λ (r : Ui × List Effect). AreAddressed r.1) ui.encounter_data (λ e. tt)
        (λ encounter e. if_ind AreAddressed (is_open ui.client.sockets) (tt, tt) tt)

  play-AreAddressed :
      (e : Page.Event)
      → IsSound a.page
      → IsPlaced html a
      → IsBounded a
      → IsPlayable a.page e
      → AreAddressed (Page.step a.page e).1
  unfolding Page.step session_step
  play-AreAddressed (session m e) s v b (h, k) =
      All-weaker (λ f. routine-IsAddressed html a f v b) _ (step-AreRoutine a.page.ui.client e h k)
  play-AreAddressed (node_clicked clock id) s v b h =
      clicks-AreAddressed a.page.ui _ (handle_node_click-IsValid clock id a.page.ui s.valid)
  play-AreAddressed (unit_clicked clock i) s v b h =
      clicks-AreAddressed a.page.ui _ (click_unit-IsValid clock i a.page.ui s.valid)
  play-AreAddressed (move_clicked clock) s v b h =
      if_ind (λ (r : Page × List Effect). AreAddressed r.1) a.page.ui.screen.move_disabled tt
        (clicks-AreAddressed a.page.ui _ (execute_move-IsValid clock a.page.ui s.valid))
  play-AreAddressed (decided d) s v b h = decisions-AreAddressed d a.page.ui
  play-AreAddressed (ticked t) s v b h = tt

-- The same of an act.
abbrev pub IsAddressedAct : Html → Client → Act → Type 0
IsAddressedAct html c (does e) = IsAddressed html c e
IsAddressedAct html c _ = Unit {0}

does-AreAddressed :
    (html : Html) (c : Client) (es : List Effect)
    → All (IsAddressed html c) es
    → All (IsAddressedAct html c) (map does es)
does-AreAddressed html c [] h = tt
does-AreAddressed html c (e ∷ es) (he, h) = (he, does-AreAddressed html c es h)

continue-AreAddressed :
    (html : Html) (i : ℕ) (o : Option Search) (a : App)
    → get_elem? a.searches i ≡ o
    → IsPlaced html a
    → All (IsAddressedAct html a.page.ui.client) (continue_search i o a).1
unfolding continue_search continue_match enter_game connect
continue-AreAddressed html i none a h v = tt
continue-AreAddressed html i (some importing) a h v = tt
continue-AreAddressed html i (some (continued p)) a h v = tt
continue-AreAddressed html i (some (waiting pending)) a h v = tt
continue-AreAddressed html i (some (waiting (resolved m))) a h v = (
  ws_url-IsAddressed html a _ v (omega (arith, sum_by-set found a.searches i importing h)) refl,
  tt,
)
continue-AreAddressed html i (some (waiting (rejected e))) a h v = (tt, tt)

-- In every state that the page comes to from its login form, whatever may happen next makes it open
-- sockets only on the host of the page, to the room that the client has, at a side that it has from
-- a match.
pub Reach-AreAddressed :
    (html : Html) {a : App}
    → Reach html a
    → (e : Event) → Enabled a e
    → All (IsAddressedAct html a.page.ui.client) (step html a e).1
unfolding step finish_import
Reach-AreAddressed html r (typed name) h = tt
Reach-AreAddressed html r (find_clicked random) h = tt
Reach-AreAddressed html r (imported i) h = (tt, tt)
Reach-AreAddressed html r (import_failed i e) h = tt
Reach-AreAddressed html r (streamed i e) h = tt
Reach-AreAddressed html {a} r (continues i) h =
    continue-AreAddressed html i (get_elem? a.searches i) a refl (Reach-IsPlaced html r)
Reach-AreAddressed html r message_cleared h = tt
Reach-AreAddressed html {a} r (plays e) h =
    does-AreAddressed html a.page.ui.client (Page.step a.page e).1 (
      play-AreAddressed html a e (Reach-IsSound html r) (Reach-IsPlaced html r)
        (Reach-IsBounded html r) h)
Reach-AreAddressed html r reloads h = tt
