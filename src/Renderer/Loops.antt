-- ===== src/Renderer/Loops.antt =====
-- The loops of `updateState` over nodes, edges and moves do not depend on the order of their lists.
use mathlib.Core.HLevel.{¬_prop}
use mathlib.Core.List.{Permᴰ, Pairwise, Pairwise-of_forall}
use hax_war.Base.{
  nat_eq, pair_eq, ℕ, ◌≡◌, ◌≢◌, refl, sym, ◌∙◌, ap, ==_iff, if_cases, Bool, true, ◌||◌, List, [],
  ◌∷◌, adjust, lookup, is_some, pair_beq_iff, arith,
}
use hax_war.Base.Orders.{for_each, for_each-Permᴰ, adjust_comm, adjust-missing}
use hax_war.Protocol.{NodeView, EdgeView, Move}
use hax_war.Renderer.{NodeEl, EdgeEl}
use hax_war.Renderer.Strokes.{Edges, stroke, strokes, edge_key-map_values, blank, strokes-blank}
use hax_war.Renderer.Update.{
  edge_key, mark_edge, paint_node, paint_nodes, update_edge, update_edges,
}

abbrev pub edge_of : EdgeView → ℕ × ℕ
edge_of v = (v.from_node_id, v.to_node_id)

-- Views of different nodes, and of different edges.
abbrev pub OtherNode : NodeView → NodeView → Type 0
OtherNode v w = v.id ≢ w.id

abbrev pub OtherEdge : EdgeView → EdgeView → Type 0
OtherEdge v w = edge_of v ≢ edge_of w

-- Painting a node, for each of them.
abbrev paint_one : NodeView → List (ℕ × NodeEl) → List (ℕ × NodeEl)
paint_one v nodes = adjust v.id (paint_node v) nodes

paint_nodes-for_each :
    (vs : List NodeView) (nodes : List (ℕ × NodeEl))
    → paint_nodes vs nodes ≡ for_each paint_one vs nodes
unfolding paint_nodes
paint_nodes-for_each [] nodes = refl
paint_nodes-for_each (v ∷ vs) nodes = paint_nodes-for_each vs (paint_one v nodes)

paint_one_comm :
    (v w : NodeView)
    → OtherNode v w
    → (nodes : List (ℕ × NodeEl))
    → paint_one w (paint_one v nodes) ≡ paint_one v (paint_one w nodes)
paint_one_comm v w other =
    adjust_comm v.id w.id (paint_node v) (paint_node w)
      (λ e. absurd (other ((==_iff v.id w.id).0 e)))

pub paint_nodes-Permᴰ :
    {vs ws : List NodeView}
    → Permᴰ vs ws
    → Pairwise OtherNode vs
    → (nodes : List (ℕ × NodeEl)) → paint_nodes vs nodes ≡ paint_nodes ws nodes
paint_nodes-Permᴰ {vs} {ws} p distinct nodes =
    paint_nodes-for_each vs nodes
    ∙ for_each-Permᴰ paint_one (λ v w. ¬_prop) (λ v w other e. other (sym e)) paint_one_comm p
        distinct nodes
    ∙ sym (paint_nodes-for_each ws nodes)

abbrev pub update_one : EdgeView → Edges → Edges
update_one v es = adjust (edge_of v) (update_edge v) es

update_edges-for_each :
    (vs : List EdgeView) (es : Edges) → update_edges vs es ≡ for_each update_one vs es
unfolding update_edges
update_edges-for_each [] es = refl
update_edges-for_each (v ∷ vs) es = update_edges-for_each vs (update_one v es)

update_one_comm :
    (v w : EdgeView)
    → OtherEdge v w
    → (es : Edges) → update_one w (update_one v es) ≡ update_one v (update_one w es)
update_one_comm v w other =
    adjust_comm (edge_of v) (edge_of w) (update_edge v) (update_edge w)
      (λ e. absurd (other ((pair_beq_iff (edge_of v) (edge_of w)).0 e)))

pub update_edges-Permᴰ :
    {vs ws : List EdgeView}
    → Permᴰ vs ws
    → Pairwise OtherEdge vs
    → (es : Edges) → update_edges vs es ≡ update_edges ws es
update_edges-Permᴰ {vs} {ws} p distinct es =
    update_edges-for_each vs es
    ∙ for_each-Permᴰ update_one (λ v w. ¬_prop) (λ v w other e. other (sym e)) update_one_comm p
        distinct es
    ∙ sym (update_edges-for_each ws es)

-- Where the edge of a move is does not depend on the moves that are drawn.
edge_key-stroke : (m : Move) (es : Edges) (i j : ℕ) → edge_key (stroke m es) i j ≡ edge_key es i j
edge_key-stroke m es i j =
    sym (edge_key-map_values blank (stroke m es) i j)
    ∙ ap (λ ks. edge_key ks i j) (strokes-blank (m ∷ []) es)
    ∙ edge_key-map_values blank es i j

stroke_lem :
    (m : Move) (es : Edges)
    → stroke m es ≡ adjust (edge_key es m.from_node_id m.to_node_id) (mark_edge m) es
stroke_lem m es =
    let key = edge_key es m.from_node_id m.to_node_id in
    if_cases (λ (x : Edges). x ≡ adjust key (mark_edge m) es) (is_some (lookup key es)) (λ h. refl)
      (λ h. sym (adjust-missing key (mark_edge m) es h))

or_swap : (a b c : Bool) → (a || b || c) ≡ (a || c || b)
or_swap a b c = ground arith

mark_edge_comm :
    (v w : Move) (el : EdgeEl) → mark_edge w (mark_edge v el) ≡ mark_edge v (mark_edge w el)
unfolding mark_edge
mark_edge_comm v w el =
    ap (λ b. record el { pending_move = true; optimistic = b })
      (or_swap el.optimistic v.is_optimistic w.is_optimistic)

stroke_twice :
    (v w : Move) (es : Edges)
    → stroke w (stroke v es)
      ≡ adjust
          (edge_key es w.from_node_id w.to_node_id)
          (mark_edge w)
          (adjust (edge_key es v.from_node_id v.to_node_id) (mark_edge v) es)
stroke_twice v w es = stroke_lem w (stroke v es) ∙ λ i.
    adjust (edge_key-stroke v es w.from_node_id w.to_node_id i) (mark_edge w) (stroke_lem v es i)

stroke_comm :
    (v w : Move) → Unit {0} → (es : Edges) → stroke w (stroke v es) ≡ stroke v (stroke w es)
stroke_comm v w _ es =
    stroke_twice v w es
    ∙ adjust_comm (edge_key es v.from_node_id v.to_node_id)
        (edge_key es w.from_node_id w.to_node_id) (mark_edge v) (mark_edge w)
        (λ e. mark_edge_comm v w) es
    ∙ sym (stroke_twice w v es)

strokes-for_each : (ms : List Move) (es : Edges) → strokes ms es ≡ for_each stroke ms es
strokes-for_each [] es = refl
strokes-for_each (m ∷ ms) es = strokes-for_each ms (stroke m es)

pub strokes-Permᴰ : {ms ns : List Move} → Permᴰ ms ns → (es : Edges) → strokes ms es ≡ strokes ns es
strokes-Permᴰ {ms} {ns} p es =
    strokes-for_each ms es
    ∙ for_each-Permᴰ stroke (λ v w a b. refl) (λ v w a. tt) stroke_comm p
        (Pairwise-of_forall (λ v w. tt)) es
    ∙ sym (strokes-for_each ns es)
