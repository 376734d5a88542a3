-- ===== src/Renderer/Update.antt =====
-- `updateState` of gameRenderer.js.
use hax_war.Base.{
  nat_eq, pair_eq, ℕ, suc, ◌+◌, Bool, true, false, not, ◌&&◌, ◌||◌, Option, none, some, List, [],
  ◌∷◌, ◌++◌, ◌==◌, filter, adjust, map_values, lookup, is_some, ltb, Text, txt, show, if◌then◌else◌,
}
use hax_war.Base.Int.{sub_ℕ, nat_abs, is_positive}
use hax_war.Protocol.{Ownership, player_a, player_b, Units, NodeView, EdgeView, Move, StateView}
use hax_war.Renderer.Board.{Position, position}
use hax_war.Renderer.{dashed, solid, NodeEl, EdgeEl, Label, Renderer, middle}

-- `node.ownership !== 'Neutral' && node.ownership !== 'Contested'`.
abbrev pub is_player : Ownership → Bool
is_player player_a = true
is_player player_b = true
is_player _ = false

abbrev total_units : Option Units → ℕ
total_units none = 0
total_units (some u) = u.total

abbrev count_or_zero : Option ℕ → ℕ
count_or_zero none = 0
count_or_zero (some n) = n

unfoldable pub units_text : NodeView → Text
units_text node =
    let mine = total_units node.my_units in
    let enemy = count_or_zero node.enemy_units in
    if node.is_headquarters then txt "내 " ++ show mine else show mine ++ (txt "/" ++ show enemy)

-- The class attribute is set anew before classes are added.
unfoldable pub paint_node : NodeView → NodeEl → NodeEl
unfolding units_text
paint_node node el = record el {
  circle = record {
    colour = node.ownership;
    headquarters = node.is_headquarters;
    supplyline = node.is_supply_line;
    mine = node.is_owned_by_me;
    opponent = not node.is_owned_by_me && is_player node.ownership;
    selected = false;
  };
  dashes = if node.is_owned_by_me then dashed else solid;
  units = units_text node;
}

unfoldable pub paint_nodes : List NodeView → List (ℕ × NodeEl) → List (ℕ × NodeEl)
unfolding paint_node
paint_nodes [] nodes = nodes
paint_nodes (v ∷ vs) nodes = paint_nodes vs (adjust v.id (paint_node v) nodes)

-- `if (edgeEl.pendingLabel) edgeEl.pendingLabel.remove()`.
unfoldable pub drop_label : Option ℕ → List Label → List Label
drop_label none labels = labels
drop_label (some h) labels = filter (λ l. not (l.handle == h)) labels

-- The labels that the edges refer to are removed from the SVG.
unfoldable pub drop_labels : List ((ℕ × ℕ) × EdgeEl) → List Label → List Label
unfolding drop_label
drop_labels [] labels = labels
drop_labels ((k, el) ∷ es) labels = drop_labels es (drop_label el.pending_label labels)

unfoldable pub clear_edge : EdgeEl → EdgeEl
clear_edge el = record el { pending_move = false; optimistic = false; pending_label = none }

unfoldable pub clear_pending : Renderer → Renderer
unfolding clear_edge drop_labels
clear_pending r = record r {
  edge_els = map_values clear_edge r.edge_els;
  labels = drop_labels r.edge_els r.labels;
}

abbrev pub arrow : Position → Position → Text
arrow p q =
    let dx = sub_ℕ q.x p.x in
    let dy = sub_ℕ q.y p.y in
    if ltb (nat_abs dy) (nat_abs dx)
    then (if is_positive dx then txt "➔" else txt "◀")
    else (if is_positive dy then txt "▼" else txt "▲")

unfoldable pub new_label : ℕ → Position → Position → Move → Label
new_label handle p q move = record {
  handle = handle;
  x = middle p.x q.x;
  y = middle p.y q.y + 12;
  is_optimistic = move.is_optimistic;
  content = arrow p q ++ (txt " " ++ (show move.unit_count ++ txt "기"));
}

unfoldable pub mark_edge : Move → EdgeEl → EdgeEl
mark_edge move el = record el {
  pending_move = true;
  optimistic = el.optimistic || move.is_optimistic;
}

unfoldable pub set_label : ℕ → EdgeEl → EdgeEl
set_label handle el = record el { pending_label = some handle }

-- The edge between two nodes: in the given direction if there is one, or else reversed.
unfoldable pub edge_key : List ((ℕ × ℕ) × EdgeEl) → ℕ → ℕ → ℕ × ℕ
edge_key es from to = if is_some (lookup (from, to) es) then (from, to) else (to, from)

-- A move's label, between the positions of its nodes.
unfoldable pub place_label : ℕ × ℕ → Move → Option Position → Option Position → Renderer → Renderer
unfolding new_label set_label
place_label key move (some p) (some q) r = record r {
  edge_els = adjust key (set_label r.next_label) r.edge_els;
  labels = r.labels ++ (new_label r.next_label p q move ∷ []);
  next_label = suc r.next_label;
}
place_label key move _ _ r = r

-- An edge is drawn between nodes that have a position: otherwise the code would throw here.
unfoldable pub add_label : ℕ × ℕ → Move → Renderer → Renderer
unfolding place_label
add_label key move r =
    place_label key move (position move.from_node_id) (position move.to_node_id) r

unfoldable pub show_move : Move → Renderer → Renderer
unfolding edge_key mark_edge add_label
show_move move r =
    let key = edge_key r.edge_els move.from_node_id move.to_node_id in
    if is_some (lookup key r.edge_els)
    then add_label key move (record r { edge_els = adjust key (mark_edge move) r.edge_els })
    else r

unfoldable pub show_moves : List Move → Renderer → Renderer
unfolding show_move
show_moves [] r = r
show_moves (m ∷ ms) r = show_moves ms (show_move m r)

unfoldable pub update_edge : EdgeView → EdgeEl → EdgeEl
update_edge edge el = record el {
  encounter = edge.has_encounter;
  has_units = not edge.has_encounter && edge.has_my_units_traveling;
}

unfoldable pub update_edges : List EdgeView → List ((ℕ × ℕ) × EdgeEl) → List ((ℕ × ℕ) × EdgeEl)
unfolding update_edge
update_edges [] es = es
update_edges (v ∷ vs) es =
    update_edges vs (adjust (v.from_node_id, v.to_node_id) (update_edge v) es)

-- `onUnitSelect` is never set, so the last call of `updateState` does nothing.
unfoldable pub update_state : StateView → Renderer → Renderer
unfolding paint_nodes clear_pending show_moves update_edges
update_state state r =
    let painted = clear_pending (record r { nodes = paint_nodes state.nodes r.nodes }) in
    let moved = show_moves state.my_pending_moves painted in
    record moved { edge_els = update_edges state.edges moved.edge_els }
