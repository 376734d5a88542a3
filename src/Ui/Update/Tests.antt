-- ===== src/Ui/Update/Tests.antt =====
-- An update whose lists are turned round.
use mathlib.Core.HLevel.{¬_prop}
use mathlib.Core.List.{Permᴰ, Pairwise-pair}
use hax_war.Base.{ℕ, refl, ap, none, true, false, [], ◌∷◌}
use hax_war.Protocol.{EdgeView, StateView}
use hax_war.Renderer.{new_renderer, initialize}
use hax_war.Renderer.Order.{SameBut}
use hax_war.Ui.{Ui}
use hax_war.Ui.Tests.{fresh, outpost, move, state}
use hax_war.Ui.Update.{handle_state_update}
use hax_war.Ui.Update.Order.{DrawSame, update-DrawSame}

-- Two nodes, two edges and two moves, and the same the other way round.
abbrev road : EdgeView
road = record {
  from_node_id = 1;
  to_node_id = 2;
  has_my_units_traveling = true;
  has_encounter = false;
}

abbrev listed : StateView
listed = record state {
  nodes = outpost ∷ record outpost { id = 2 } ∷ [];
  edges = road ∷ record road { to_node_id = 3 } ∷ [];
  my_pending_moves = record move { to_node_id = 3 } ∷ record move { to_node_id = 4 } ∷ [];
}

abbrev turned : StateView
turned = record state {
  nodes = record outpost { id = 2 } ∷ outpost ∷ [];
  edges = record road { to_node_id = 3 } ∷ road ∷ [];
  my_pending_moves = record move { to_node_id = 4 } ∷ record move { to_node_id = 3 } ∷ [];
}

listed-SameBut : SameBut listed turned
listed-SameBut = record {
  nodes = Permᴰ.swap refl refl;
  edges = Permᴰ.swap refl refl;
  moves = Permᴰ.swap refl refl;
  distinct_nodes = (Pairwise-pair (λ v w. ¬_prop)).1 (λ e. cc);
  distinct_edges = (Pairwise-pair (λ v w. ¬_prop)).1 (λ e. cc (ap (λ (k : ℕ × ℕ). k.1) e));
}

-- An optimistic move is on its way, on a board that is drawn.
abbrev waiting : Ui
waiting = record fresh { optimistic_moves = move ∷ []; renderer = initialize new_renderer none }

update-DrawSame_example :
    DrawSame
      (handle_state_update 1000 1001 listed waiting)
      (handle_state_update 1000 1001 turned waiting)
update-DrawSame_example = update-DrawSame 1000 1001 listed turned waiting listed-SameBut
