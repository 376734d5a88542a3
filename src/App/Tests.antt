-- ===== src/App/Tests.antt =====
-- The page from its login form at concrete inputs.
use hax_war.Base.{
  ◌≡◌, ◌≢◌, length, refl, true, false, none, some, List, [], ◌∷◌, ◌<◌, get_elem?, arith, All, map,
  txt,
}
use hax_war.Base.Int.{pos}
use hax_war.Matchmaking.Updates.{MatchFoundResult, MatchmakingUpdate, new_matchmaking_update}
use hax_war.Client.{new_client}
use hax_war.Client.Session.{socket_opened}
use hax_war.Client.Matchmaking.{rejected, update, resolved, result_of}
use hax_war.Ui.{as_loaded}
use hax_war.Page.{Moment, session, node_clicked}
use hax_war.Page.Sound.{IsSound}
use hax_war.App.{
  App, Html, new_app, Event, typed, find_clicked, imported, import_failed, importing, joins, does,
  waiting, streamed, continues, plays, step, Reach, start, run, IsPossible, run-Reach,
}
use hax_war.App.Messages.{IsReported, failure-IsReported, IsLost, newer_message-IsLost}
use hax_war.App.Form.{trim_name}
use hax_war.App.Sound.{Reach-IsSound}
use hax_war.App.Connections.{IsBounded, Reach-IsBounded}
use hax_war.App.Addresses.{IsAddressedAct, Reach-AreAddressed}
use hax_war.App.Entering.{Comes, IsPlaying, entrance, entering, entering-Comes}
use hax_war.App.Screens.{ShowsScreen, Reach-ShowsScreen}
use hax_war.App.Returning.{HasReturned, comes_back, returning, returning-Comes}
use hax_war.App.Overlaps.{overlapping_searches-Comes}
use hax_war.App.Sending.{IsHeardAct, step-IsHeard}
use hax_war.App.Orders.{IsProperAct, Reach-AreProper}

abbrev html : Html
html = record {
  host = txt "localhost";
  timer_el = none;
  screen = record {
    round_info = [];
    phase_info = [];
    score_a = [];
    score_b = [];
    available_units = [];
    selected_from = txt "-";
    selected_to = txt "-";
    move_disabled = true;
    unit_buttons = record { count = 1; disabled = false; selected = false; look = as_loaded } ∷ [];
    pending_moves = none;
    encounter_shown = false;
    encounter_info = [];
    gameover_shown = false;
    gameover_title = [];
    gameover_result = [];
    connection_status = [];
    connection_colour = [];
    login_active = true;
    game_active = false;
    match_status = [];
    my_side = [];
  };
  has_placeholder = true;
}

abbrev result : MatchFoundResult
result = record {
  room_id = txt "r1";
  player_side = txt "A";
  ws_endpoint = [];
  opponent_id = txt "bob";
}

abbrev found : MatchmakingUpdate
found = record new_matchmaking_update { status = pos 1; match_result = some result }

abbrev moment : Moment
moment = record { clock = record { stamp = 5; now = 5; now_ms = 6 }; time = txt "10:00:00" }

-- A player finds a match.
abbrev search : List Event
search =
    typed (txt " ann ")
    ∷ find_clicked (txt "x1")
    ∷ imported 0
    ∷ streamed 0 (update new_matchmaking_update)
    ∷ streamed 0 (update found)
    ∷ []

search-IsPossible : IsPossible html (new_app html) search
unfolding new_app step
search-IsPossible = (tt, (refl, (refl, (λ e. cc, (λ e. cc, tt)))))

search-Reach : Reach html (run html (new_app html) search)
search-Reach = run-Reach html (new_app html) search start search-IsPossible

-- The page enters the game, and its socket opens.
abbrev steps_in : List Event
steps_in = continues 0 ∷ plays (session moment (socket_opened 0)) ∷ []

steps_in-IsPossible : IsPossible html (run html (new_app html) search) steps_in
unfolding run new_app step
steps_in-IsPossible = ((resolved (result_of result), refl, λ e. cc), ((refl, tt), tt))

abbrev playing : App
playing = run html (run html (new_app html) search) steps_in

playing-Reach : Reach html playing
playing-Reach =
    run-Reach html (run html (new_app html) search) steps_in search-Reach steps_in-IsPossible

Reach-IsSound_example : IsSound playing.page
Reach-IsSound_example = Reach-IsSound html playing-Reach

Reach-IsBounded_example : IsBounded playing
Reach-IsBounded_example = Reach-IsBounded html playing-Reach

Reach-ShowsScreen_example : ShowsScreen html playing
Reach-ShowsScreen_example = Reach-ShowsScreen html playing-Reach

step-IsHeard_example :
    let a = run html (run html (new_app html) search) (continues 0 ∷ []) in
    let next = step html a (plays (session moment (socket_opened 0))) in
    All (IsHeardAct next.0.page.ui.client) next.1
step-IsHeard_example =
    step-IsHeard html (run html (run html (new_app html) search) (continues 0 ∷ []))
      (plays (session moment (socket_opened 0)))

Reach-AreProper_example :
    All
      (IsProperAct playing.page.ui.state_view)
      (step html (playing) (plays (node_clicked moment.clock 5))).1
Reach-AreProper_example =
    Reach-AreProper html playing-Reach (plays (node_clicked moment.clock 5)) tt

Reach-AreAddressed_example :
    All
      (IsAddressedAct html (run html (new_app html) search).page.ui.client)
      (step html (run html (new_app html) search) (continues 0)).1
Reach-AreAddressed_example =
    Reach-AreAddressed html search-Reach (continues 0) steps_in-IsPossible.0

entering-Comes_example :
    Comes html
      (IsPlaying html (txt "ann") result)
      (joins (record { player_id = txt "ann"; rating = pos 1500 }) ∷ entrance html result)
      (new_app html)
      (entering (txt " ann ") (txt "x1") (update new_matchmaking_update ∷ []) result moment)
unfolding trim_name
entering-Comes_example =
    entering-Comes html (txt " ann ") (txt "x1") (update new_matchmaking_update ∷ []) result moment
      (λ e. cc) refl (refl, tt)

-- A search whose import fails.
abbrev failed : App
failed =
    run html (new_app html)
      (typed (txt "ann") ∷ find_clicked (txt "x1") ∷ import_failed 0 (txt "offline") ∷ [])

failed_search : get_elem? failed.searches 0 ≡ some (waiting (rejected (txt "offline")))
unfolding run new_app step
failed_search = refl

failure-IsReported_example :
    IsReported html 0 (txt "offline") failed (step html failed (continues 0))
failure-IsReported_example = failure-IsReported html 0 (txt "offline") failed failed_search

abbrev reported : App
reported = (step html failed (continues 0)).0

reported_enabled : reported.find_disabled ≡ false
unfolding run new_app step
reported_enabled = refl

reported_named : trim_name reported.name ≢ []
unfolding run new_app step
reported_named = λ e. cc

reported_clears : 0 < reported.clears
unfolding run new_app step
reported_clears = omega arith

newer_message-IsLost_example : IsLost html reported (step html reported (find_clicked (txt "x2"))).0
newer_message-IsLost_example =
    newer_message-IsLost html (txt "x2") reported reported_enabled reported_named reported_clears

-- A search that waits for its import.
abbrev asking : App
asking = run html (new_app html) (typed (txt "ann") ∷ find_clicked (txt "x1") ∷ [])

asking_search : get_elem? asking.searches 0 ≡ some importing
unfolding run new_app step
asking_search = refl

asking_shown : asking.page.ui.screen.login_active ≡ true
unfolding run new_app step
asking_shown = refl

bob_named : trim_name (txt "bob") ≢ []
unfolding trim_name
bob_named = λ e. cc

overlapping_searches-Comes_example :
    Comes html
      (λ b. b.page.ui.client.player_id ≡ trim_name (txt "bob"))
      (joins (record { player_id = trim_name (txt "bob"); rating = pos 1500 })
        ∷ (joins (record { player_id = trim_name (txt "bob"); rating = pos 1500 }) ∷ []))
      asking
      (typed (txt "bob")
        ∷ (find_clicked (txt "x2") ∷ (imported 0 ∷ (imported (length asking.searches) ∷ []))))
overlapping_searches-Comes_example =
    overlapping_searches-Comes html asking 0 (txt "bob") (txt "x2") asking_search asking_shown
      bob_named

returning-Comes_example :
    Comes html
      (HasReturned playing.page.ui.client [])
      (map does (comes_back playing.page.ui.client))
      playing
      (returning moment moment moment playing.page.ui.client.next_timeout)
unfolding run new_client
returning-Comes_example = returning-Comes html playing [] moment moment moment refl refl
