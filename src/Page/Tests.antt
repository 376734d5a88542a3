-- ===== src/Page/Tests.antt =====
-- The page at concrete inputs.
use hax_war.Base.{◌≡◌, refl, inl, true, false, none, some, List, [], ◌∷◌, txt}
use hax_war.Protocol.{
  resolution, StateView, Encounter, bare, boxed, advance, retreat, side_a, encounter_decision,
}
use hax_war.Client.{opened, sent}
use hax_war.Client.Session
use hax_war.Ui.{as_loaded, Screen}
use hax_war.Ui.Timer.{TimerEl, new_timer}
use hax_war.Page.{Page, Moment, new_page, Event, session, node_clicked, decided, ticked, step, run}
use hax_war.Page.Refines.{sessions, run-client}
use hax_war.Page.Encounters.{told, reports, updates, encounter_answered_once, undecided_panel_dead}
use hax_war.Page.Ending.{ends, IsEnded, game_over-IsEnded}

abbrev shown_timer : TimerEl
shown_timer = record { content = txt "-"; colour = txt "#fff"; urgent = false }

abbrev screen : Screen
screen = record {
  round_info = [];
  phase_info = [];
  score_a = [];
  score_b = [];
  available_units = [];
  selected_from = txt "-";
  selected_to = txt "-";
  move_disabled = true;
  unit_buttons = record { count = 1; disabled = false; selected = false; look = as_loaded } ∷ [];
  pending_moves = none;
  encounter_shown = false;
  encounter_info = [];
  gameover_shown = false;
  gameover_title = [];
  gameover_result = [];
  connection_status = [];
  connection_colour = [];
  login_active = false;
  game_active = true;
  match_status = [];
  my_side = [];
}

abbrev state : StateView
state = record {
  phase = resolution;
  current_round = 2;
  max_rounds = 20;
  my_remaining_units = 1;
  my_pending_moves = [];
  deadline = none;
  is_my_planning_complete = false;
  nodes = [];
  edges = [];
  undecided_encounter_edge_ids = txt "1-2" ∷ [];
  scores = none;
}

abbrev moment : Moment
moment = record { clock = record { stamp = 5; now = 5; now_ms = 6 }; time = txt "10:00:00" }

abbrev encounter : Encounter
encounter = record { from_node = bare 1; to_node = boxed 2; participant_a = 2; participant_b = 1 }

abbrev page : Page
page = new_page (txt "localhost") (some shown_timer) screen true

abbrev played : List Event
played =
    session moment Session.connects
    ∷ session moment (Session.socket_opened 0)
    ∷ session moment (Session.received (updates 1 0 state))
    ∷ node_clicked moment.clock 1
    ∷ session moment (Session.received (reports 2 2 encounter))
    ∷ decided advance
    ∷ ticked 1
    ∷ session moment (Session.received (ends 3 2 (some side_a) (txt "HQ")))
    ∷ []

-- The page with a socket that is open, and once it was told of the encounter.
abbrev live : Page
live = record page {
  ui = record (page.ui) { client = record (page.ui.client) { sockets = opened ∷ [] } };
}

abbrev met : Page
met = told live moment (reports 2 2 encounter)

encounter_answered_once_example :
    (met.ui.screen.encounter_shown ≡ true)
    × ((step met (decided advance)).1 ≡ sent (encounter_decision (bare 1) (boxed 2) advance) ∷ [])
    × ((step met (decided advance)).0.ui.screen.encounter_shown ≡ false)
    × (step (step met (decided advance)).0 (decided retreat) ≡ ((step met (decided advance)).0, []))
encounter_answered_once_example = encounter_answered_once live moment 2 2 encounter advance retreat

undecided_panel_dead_example :
    ((told page moment (updates 1 0 state)).ui.screen.encounter_shown ≡ true)
    × (step (told page moment (updates 1 0 state)) (decided advance)
        ≡ (told page moment (updates 1 0 state), []))
unfolding new_page
undecided_panel_dead_example = undecided_panel_dead page moment 1 0 state advance refl (λ e. cc)

game_over-IsEnded_example :
    IsEnded
      (some side_a)
      (txt "10:00:00")
      page
      (step page (session moment (Session.received (ends 3 2 (some side_a) (txt "HQ"))))).0
unfolding new_page new_timer
game_over-IsEnded_example =
    game_over-IsEnded page moment 3 2 (some side_a) (txt "HQ") (inl (refl, refl))

run-client_example : (run page played).ui.client ≡ Session.run page.ui.client (sessions played)
run-client_example = run-client page played
