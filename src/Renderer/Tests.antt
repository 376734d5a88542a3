-- ===== src/Renderer/Tests.antt =====
-- The renderer at concrete inputs.
use hax_war.Base.{
  insert, adjust, map_values, nat_eq, pair_eq, ◌≡◌, refl, true, false, Option, none, some, [], ◌∷◌,
  lookup, length, Text, txt, show,
}
use hax_war.Protocol.{side_a, planning, player_a, NodeView, Move, StateView}
use hax_war.Renderer.{
  NodeEl, Renderer, new_renderer, new_node, initialize, select_node, highlight_neighbors,
}
use hax_war.Renderer.Board.{Position, position, edges}
use hax_war.Renderer.Pending.{is_pending, pending_iff}
use hax_war.Renderer.Doubles.{update_states}
use hax_war.Renderer.Latest.{ShowSame, update_state-ShowSame}
use hax_war.Renderer.Marks.{selected_of}
use hax_war.Renderer.History.{initializes, updates, selects, run, run-IsTidy, IsTidy}
use hax_war.Renderer.Circles.{selection_lost}
use hax_war.Renderer.Views.{IsDrawn, update_state-IsDrawn}
use hax_war.Renderer.Update.{update_state}

-- All that the tests compute with.
board_tests : Unit {0}
unfolding initialize update_state select_node highlight_neighbors new_renderer edges position lookup
    insert adjust map_values show
board_tests = tt

abbrev board : Renderer
board = initialize new_renderer (some side_a)

abbrev move : Move
move = record {
  from_node_id = 2;
  to_node_id = 1;
  unit_count = 3;
  is_optimistic = false;
  timestamp = 0;
}

-- The same edge, forwards.
abbrev back : Move
back = record move { from_node_id = 1; to_node_id = 2 }

abbrev outpost : NodeView
outpost = record {
  id = 1;
  ownership = player_a;
  is_headquarters = false;
  is_supply_line = false;
  is_owned_by_me = true;
  my_units = some (record { mobile = 2; total = 3 });
  enemy_units = none;
}

abbrev state : StateView
state = record {
  phase = planning;
  current_round = 1;
  max_rounds = 20;
  my_remaining_units = 2;
  my_pending_moves = move ∷ [];
  deadline = none;
  is_my_planning_complete = false;
  nodes = outpost ∷ [];
  edges = [];
  undecided_encounter_edge_ids = [];
  scores = none;
}

-- The table of edges has twelve entries.
twelve_edges : length edges ≡ 12
unfolding edges
twelve_edges = refl

-- A label between the first two nodes, for a move from the second to the first.
label_drawn :
    (update_state state board).labels
    ≡ record { handle = 0; x = 175; y = 152; is_optimistic = false; content = txt "◀ 3기" } ∷ []
unfolding board_tests
label_drawn = refl

shown_units : Option NodeEl → Text
shown_units none = []
shown_units (some el) = el.units

units_drawn : shown_units (lookup 1 (update_state state board).nodes) ≡ txt "3/0"
unfolding board_tests shown_units
units_drawn = refl

pending_iff_example : is_pending (1, 2) (update_state state board).edge_els ≡ true
unfolding board_tests
pending_iff_example = pending_iff state board 1 2 refl refl

abbrev west : Position
west = record { x = 100; y = 200; name = txt "서부 전초기지" }

abbrev north : Position
north = record { x = 250; y = 80; name = txt "북부 고지" }

run-IsTidy_example :
    IsTidy (
      run
        (initializes none ∷ selects (some 1) ∷ selects (some 2) ∷ updates state ∷ [])
        new_renderer)
run-IsTidy_example =
    run-IsTidy (initializes none ∷ selects (some 1) ∷ selects (some 2) ∷ updates state ∷ [])

update_state-IsDrawn_example :
    IsDrawn (some outpost) (lookup 1 board.nodes) (lookup 1 (update_state state board).nodes)
update_state-IsDrawn_example = update_state-IsDrawn state board 1

selection_lost_example :
    let r' = update_state state (select_node board (some 1)) in
    (selected_of (lookup 1 r'.nodes) ≡ false) × (r'.selected_node ≡ some 1)
selection_lost_example = selection_lost state board 1 outpost refl

abbrev highlands : NodeEl
highlands = new_node (record { x = 250; y = 80; name = txt "북부 고지" })

update_state-ShowSame_example :
    ShowSame state
      (update_state state
        (update_states (record state { my_pending_moves = back ∷ [] } ∷ []) board))
      (update_state state board)
update_state-ShowSame_example =
    update_state-ShowSame state (record state { my_pending_moves = back ∷ [] } ∷ []) board
