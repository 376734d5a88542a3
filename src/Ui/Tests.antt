-- ===== src/Ui/Tests.antt =====
-- The user interface at concrete inputs.
use hax_war.Base.{
  nat_eq, pair_eq, ℕ, ◌-◌, ◌<◌, ◌≡◌, refl, inl, true, false, none, some, List, [], ◌∷◌, ◌++◌, take,
  All, Text, txt, show, arith,
}
use hax_war.Protocol.{
  planning, player_a, NodeView, Move, StateView, is_planning, side_a, game_started, units_arrived,
  RoundSummary, round_resolved, bare,
}
use hax_war.Client.{opened}
use hax_war.Renderer.{new_renderer, initialize}
use hax_war.Ui.Moves.Orders.{IsOrdered, execute_move_to_lem}
use hax_war.Ui.{as_loaded, UnitButton, Screen, Ui, new_ui}
use hax_war.Ui.Timer.{RoundTimer, TimerEl, new_timer, stop_countdown, start_countdown}
use hax_war.Ui.Timer.Countdown.{IsRunning, IsOver, countdown_lem}
use hax_war.Ui.Timer.Countdown
use hax_war.Ui.Update.{seconds_left, handle_state_update}
use hax_war.Ui.Update.Selection.{IsWithin, left_after, update-IsWithin}
use hax_war.Ui.Optimism.{local_state}
use hax_war.Ui.Optimism.Bounds.{HasSpent, local_state-HasSpent}
use hax_war.Ui.Update.Shown.{IsShown, update-IsShown}
use hax_war.Ui.Update.Offers.{IsOffered, update-IsOffered}
use hax_war.Ui.Update.Clockwork.{Follows, update-Follows}
use hax_war.Ui.Moves.{Clock, execute_move_to}
use hax_war.Ui.Moves.History.{Event, node_clicked, unit_clicked, state_came}
use hax_war.Ui.Log.{add_logs, newest, add_logs-newest}
use hax_war.Ui.Broadcast.Feed
use hax_war.Ui.Broadcast.{round_story, Card}
use hax_war.Ui.Broadcast.Layout.{card_parts, header, content, sub_list}
use hax_war.Ui.Broadcast.Feed.{card_of, Setting, all_cards, Notice, run-cards}

abbrev shown_timer : TimerEl
shown_timer = record { content = txt "-"; colour = txt "#fff"; urgent = false }

abbrev button : ℕ → UnitButton
button n = record { count = n; disabled = false; selected = false; look = as_loaded }

abbrev screen : Screen
screen = record {
  round_info = [];
  phase_info = [];
  score_a = [];
  score_b = [];
  available_units = [];
  selected_from = txt "-";
  selected_to = txt "-";
  move_disabled = true;
  unit_buttons = button 1 ∷ button 2 ∷ button 3 ∷ [];
  pending_moves = none;
  encounter_shown = false;
  encounter_info = [];
  gameover_shown = false;
  gameover_title = [];
  gameover_result = [];
  connection_status = [];
  connection_colour = [];
  login_active = false;
  game_active = true;
  match_status = [];
  my_side = [];
}

abbrev pub fresh : Ui
fresh = new_ui (txt "localhost") (some shown_timer) screen

abbrev pub outpost : NodeView
outpost = record {
  id = 1;
  ownership = player_a;
  is_headquarters = false;
  is_supply_line = false;
  is_owned_by_me = true;
  my_units = some (record { mobile = 2; total = 3 });
  enemy_units = none;
}

abbrev pub move : Move
move = record {
  from_node_id = 1;
  to_node_id = 2;
  unit_count = 2;
  is_optimistic = true;
  timestamp = 500;
}

abbrev pub state : StateView
state = record {
  phase = planning;
  current_round = 1;
  max_rounds = 20;
  my_remaining_units = 3;
  my_pending_moves = [];
  deadline = some 21000;
  is_my_planning_complete = false;
  nodes = outpost ∷ [];
  edges = [];
  undecided_encounter_edge_ids = [];
  scores = none;
}

abbrev clock : Clock
clock = record { stamp = 1000; now = 1000; now_ms = 1001 }

abbrev orders : List Event
orders =
    state_came 1000 1001 state
    ∷ node_clicked clock 1
    ∷ unit_clicked clock 1
    ∷ node_clicked clock 2
    ∷ []

abbrev chosen : Ui
chosen = record fresh {
  state_view = some state;
  selected_from = some 1;
  selected_units = 2;
  optimistic_moves = move ∷ [];
}

-- The same with a socket: one that is open.
abbrev online : Ui
online = record chosen { client = record (chosen.client) { sockets = opened ∷ [] } }

execute_move_to_lem_example : IsOrdered clock 1 2 online (execute_move_to clock 2 online)
execute_move_to_lem_example = execute_move_to_lem clock 2 online

update-IsWithin_example :
    IsWithin (left_after 1000 state chosen) (handle_state_update 1000 1001 state chosen)
    × ((handle_state_update 1000 1001 state chosen).screen.available_units
        ≡ show (left_after 1000 state chosen))
update-IsWithin_example = update-IsWithin 1000 1001 state chosen

update-Follows_example :
    Follows
      (is_planning state.phase)
      (handle_state_update 1000 1001 state fresh).is_my_planning_complete
      (seconds_left 1001 state.deadline)
      (handle_state_update 1000 1001 state fresh).timer
unfolding new_ui new_timer
update-Follows_example = update-Follows 1000 1001 state fresh (inl (refl, refl)) refl

update-IsOffered_example :
    All
      (IsOffered (left_after 1000 state chosen))
      (handle_state_update 1000 1001 state chosen).screen.unit_buttons
update-IsOffered_example = update-IsOffered 1000 1001 state chosen

-- A page with a list of pending moves and a board, and a state with a move and an encounter.
abbrev listing : Ui
listing = record chosen {
  screen = record screen { pending_moves = some (record { has_header = false; rows = [] }) };
  renderer = initialize new_renderer none;
}

abbrev contested_state : StateView
contested_state = record state {
  my_pending_moves = record move { to_node_id = 3; is_optimistic = false } ∷ [];
  undecided_encounter_edge_ids = txt "1-3" ∷ [];
}

update-IsShown_example :
    IsShown 1000 contested_state listing (handle_state_update 1000 1001 contested_state listing)
update-IsShown_example = update-IsShown 1000 1001 contested_state listing

abbrev on_the_way : Move
on_the_way = record {
  from_node_id = 1;
  to_node_id = 2;
  unit_count = 2;
  is_optimistic = true;
  timestamp = 900;
}

local_state-HasSpent_example : HasSpent 2 state.nodes (local_state (on_the_way ∷ []) state).nodes
local_state-HasSpent_example = local_state-HasSpent (on_the_way ∷ []) state

abbrev idle : RoundTimer
idle = new_timer (some shown_timer)

countdown_lem_example :
    (1 < 3
      → IsRunning false
          (3 - 1)
          (stop_countdown idle).next_interval
          (Countdown.ticks false 1 (start_countdown false 3 idle)))
    × IsOver (Countdown.ticks false 3 (start_countdown false 3 idle))
unfolding new_timer
countdown_lem_example = countdown_lem false 3 1 idle (inl (refl, refl)) refl (omega arith)

abbrev messages : List (Text × Text)
messages = (txt "10:00:00", txt "서버 연결됨") ∷ (txt "10:00:01", txt "🎮 게임 시작!") ∷ []

add_logs-newest_example : add_logs messages [] ≡ take 50 (newest messages [])
add_logs-newest_example = add_logs-newest messages

abbrev notices : List Notice
notices =
    record {
      setting = record { player_side = some side_a; state_view = none; time = txt "10:00" };
      round = 0;
      event = game_started;
    }
    ∷ record {
      setting = record { player_side = some side_a; state_view = some state; time = txt "10:01" };
      round = 0;
      event = units_arrived side_a (bare 1) 2;
    }
    ∷ []

run-cards_example :
    (Feed.run notices (record { has_placeholder = true; cards = [] })).cards
    ≡ take 30 (all_cards notices [])
run-cards_example = run-cards true notices

-- A round in which nothing changed.
abbrev quiet : RoundSummary
quiet = record {
  completed_round = 3;
  arrivals = [];
  resolved_encounters = [];
  ownership_changes = [];
}

abbrev setting : Setting
setting = record { player_side = some side_a; state_view = none; time = txt "10:02" }

abbrev quiet_card : Card
quiet_card = record { header = txt "라운드 " ++ show 3; time = txt "10:02"; story = round_story quiet }

quiet_card_of : card_of setting 3 (round_resolved quiet) ≡ some quiet_card
unfolding card_of
quiet_card_of = refl

quiet_card_parts :
    card_parts (round_resolved quiet) quiet_card
    ≡ header quiet_card.header (txt "10:02")
      ∷ (content quiet_card.story.title quiet_card.story.body
          ∷ (sub_list (txt "이번 라운드에 발생한 특이 변화가 없습니다." ∷ []) ∷ []))
unfolding card_parts round_story
quiet_card_parts = refl
