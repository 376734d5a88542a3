-- ===== src/Renderer/Order.antt =====
-- The board does not depend on the order in which a state lists its nodes, edges and moves.
use mathlib.Core.List.Permᴰ
use mathlib.Core.List.{Permᴰ, Pairwise}
use hax_war.Base.{
  nat_eq, pair_eq, ◌≡◌, refl, sym, ◌∙◌, ap, none, List, [], ◌∷◌, ◌++◌, map, subst, map_values,
}
use hax_war.Protocol.{EdgeView, StateView}
use hax_war.Renderer.{Label, EdgeEl, Renderer}
use hax_war.Renderer.Strokes.{Edges, strokes, show_moves-view, map_values-adjust, blank}
use hax_war.Renderer.Loops.{
  OtherNode, OtherEdge, update_one, paint_nodes-Permᴰ, update_edges-Permᴰ, strokes-Permᴰ,
}
use hax_war.Renderer.Written.{seen, written, written-Permᴰ, show_moves-labels}
use hax_war.Renderer.History.{show_moves_nodes}
use hax_war.Renderer.Update.{
  clear_edge, clear_pending, mark_edge, set_label, update_edge, update_edges, update_state,
}

-- An edge without its label.
abbrev line : EdgeEl → EdgeEl
line el = record el { pending_label = none }

update_edges-line :
    (vs : List EdgeView) (es : Edges)
    → map_values line (update_edges vs es) ≡ update_edges vs (map_values line es)
unfolding update_edges update_edge
update_edges-line [] es = refl
update_edges-line (v ∷ vs) es =
    update_edges-line vs (update_one v es)
    ∙ ap (update_edges vs)
        (map_values-adjust line (update_edge v) (v.from_node_id, v.to_node_id) es (λ el. refl))

-- The edges without their labels, as a state alone draws them.
update_state-line :
    (s : StateView) (r : Renderer)
    → map_values line (update_state s r).edge_els
      ≡ update_edges s.edges
          (strokes s.my_pending_moves (map_values line (map_values clear_edge r.edge_els)))
unfolding update_state clear_pending set_label mark_edge
update_state-line s r =
    update_edges-line s.edges _
    ∙ ap (update_edges s.edges)
        (show_moves-view line (λ h el. refl) (λ m el. refl) s.my_pending_moves _)

-- Two states that list the same nodes, edges and moves, in whatever order, and no node or edge twice.
pub record SameBut (s t : StateView) : Type 0 where
  pub nodes : Permᴰ s.nodes t.nodes
  pub edges : Permᴰ s.edges t.edges
  pub moves : Permᴰ s.my_pending_moves t.my_pending_moves
  pub distinct_nodes : Pairwise OtherNode s.nodes
  pub distinct_edges : Pairwise OtherEdge s.edges

-- Two boards with the same nodes, the same edges but for the handles of labels, and the same labels
-- in whatever order.
pub record LookSame (p q : Renderer) : Type 0 where
  pub nodes : p.nodes ≡ q.nodes
  pub edges : map_values line p.edge_els ≡ map_values line q.edge_els
  pub labels : Permᴰ (map seen p.labels) (map seen q.labels)

-- The moves leave the nodes, and what is painted is the same.
update_state-nodes_agree :
    (s t : StateView)
    → SameBut s t
    → (r : Renderer) → (update_state s r).nodes ≡ (update_state t r).nodes
unfolding update_state clear_pending
update_state-nodes_agree s t v r =
    show_moves_nodes s.my_pending_moves _
    ∙ paint_nodes-Permᴰ v.nodes v.distinct_nodes r.nodes
    ∙ sym (show_moves_nodes t.my_pending_moves _)

update_state-edges_agree :
    (s t : StateView)
    → SameBut s t
    → (r : Renderer)
    → map_values line (update_state s r).edge_els ≡ map_values line (update_state t r).edge_els
update_state-edges_agree s t v r =
    let es = map_values line (map_values clear_edge r.edge_els) in
    update_state-line s r
    ∙ ap (update_edges s.edges) (strokes-Permᴰ v.moves es)
    ∙ update_edges-Permᴰ v.edges v.distinct_edges (strokes t.my_pending_moves es)
    ∙ sym (update_state-line t r)

update_state-labels :
    (s : StateView) (r : Renderer)
    → map seen (update_state s r).labels
      ≡ map seen (clear_pending r).labels
        ++ written (map_values blank (clear_pending r).edge_els) s.my_pending_moves
unfolding update_state clear_pending
update_state-labels s r = show_moves-labels s.my_pending_moves _

-- If a state lists no node and no edge twice, the order in which it lists its nodes, edges and
-- pending moves does not matter to `updateState`: the nodes of the board are the same, and so are
-- the edges but for the handles of their labels, and the same labels are in the SVG, in another
-- order at most.
pub update_state-LookSame :
    (s t : StateView) (r : Renderer) → SameBut s t → LookSame (update_state s r) (update_state t r)
update_state-LookSame s t r v = record {
  nodes = update_state-nodes_agree s t v r;
  edges = update_state-edges_agree s t v r;
  labels =
      let old = map seen (clear_pending r).labels in
      let es = map_values blank (clear_pending r).edge_els in
      subst (λ (ls : List Label). Permᴰ ls (map seen (update_state t r).labels))
        (sym (update_state-labels s r))
        (subst (λ (ls : List Label). Permᴰ (old ++ written es s.my_pending_moves) ls)
          (sym (update_state-labels t r)) (Permᴰ.append_left old (written-Permᴰ es v.moves)));
}
