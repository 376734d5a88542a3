-- ===== src/Renderer/Circles.antt =====
-- What a state update, a drawing and a highlight show at each node and edge.
use mathlib.Core.Option
use hax_war.Base.{
  nat_eq, pair_eq, ℕ, ◌≡◌, refl, ◌∙◌, ap, Bool, true, false, Option, none, some, List, [], ◌∷◌,
  ◌==◌, adjust, map_values, lookup, lookup-adjust, lookup-map_values, if◌then◌else◌, arith,
}
use hax_war.Protocol.{NodeView, StateView}
use hax_war.Renderer.{dim, full, NodeEl, Renderer, select_node, highlight_neighbors, set_opacity}
use hax_war.Renderer.Marks.{selected_of}
use hax_war.Renderer.History.{show_moves_nodes, show_moves_selected}
use hax_war.Renderer.Update.{paint_node, paint_nodes, update_state, clear_pending}

-- The last of a list's views of a node.
abbrev pub last_view : ℕ → List NodeView → Option NodeView
last_view id [] = none
last_view id (v ∷ vs) = elim (last_view id vs) [
  | none ↦ if v.id == id then some v else none
  | some w ↦ some w
]

abbrev pub paint_last : Option NodeView → Option NodeEl → Option NodeEl
paint_last none el = el
paint_last (some v) el = Option.map (paint_node v) el

-- A later view paints over an earlier one.
pub paint_over :
    (v w : NodeView) (o : Option NodeEl)
    → Option.map (paint_node w) (Option.map (paint_node v) o) ≡ Option.map (paint_node w) o
unfolding paint_node
paint_over v w none = refl
paint_over v w (some el) = refl

lookup-paint_nodes :
    (id : ℕ) (vs : List NodeView) (m : List (ℕ × NodeEl))
    → lookup id (paint_nodes vs m) ≡ paint_last (last_view id vs) (lookup id m)
unfolding paint_nodes
lookup-paint_nodes id [] m = refl
lookup-paint_nodes id (v ∷ vs) m =
    lookup-paint_nodes id vs (adjust v.id (paint_node v) m)
    ∙ ap (paint_last (last_view id vs)) (lookup-adjust v.id id (paint_node v) m)
    ∙ of_last (last_view id vs) (v.id == id)
  where
    of_last :
        (o : Option NodeView) (b : Bool)
        → paint_last o (if b then Option.map (paint_node v) (lookup id m) else lookup id m)
          ≡ paint_last
              (elim o [ none ↦ (if b then some v else none) | some w ↦ some w ])
              (lookup id m)
    of_last none true = refl
    of_last none false = refl
    of_last (some w) true = paint_over v w (lookup id m)
    of_last (some w) false = refl

-- After `updateState` every drawn node that the state lists shows the state's last view of it,
-- and every other node is as it was.
pub update_state_nodes :
    (s : StateView) (r : Renderer) (id : ℕ)
    → lookup id (update_state s r).nodes ≡ paint_last (last_view id s.nodes) (lookup id r.nodes)
unfolding update_state clear_pending
update_state_nodes s r id =
    ap (lookup id) (show_moves_nodes s.my_pending_moves _) ∙ lookup-paint_nodes id s.nodes r.nodes

painted_unselected :
    (v : NodeView) (o : Option NodeEl) → selected_of (Option.map (paint_node v) o) ≡ false
unfolding paint_node
painted_unselected v none = refl
painted_unselected v (some el) = refl

-- Whatever was selected before: once a state that lists the selected node arrives, its circle has
-- lost the class `selected`, though the renderer still holds the node as selected.
pub selection_lost :
    (s : StateView) (r : Renderer) (id : ℕ) (v : NodeView)
    → last_view id s.nodes ≡ some v
    → let r' = update_state s (select_node r (some id)) in
      (selected_of (lookup id r'.nodes) ≡ false) × (r'.selected_node ≡ some id)
unfolding update_state clear_pending select_node
selection_lost s r id v h =
    let r' = select_node r (some id) in
    (
      ap selected_of (update_state_nodes s r' id ∙ ap (λ o. paint_last o (lookup id r'.nodes)) h)
          ∙ painted_unselected v (lookup id r'.nodes),
      show_moves_selected s.my_pending_moves _,
    )

-- After `highlightNeighbors` the selected node alone has full opacity: its neighbours are dimmed
-- like every other node.
pub highlight_only_selected :
    (r : Renderer) (n id : ℕ) (el : NodeEl)
    → lookup id r.nodes ≡ some el
    → lookup id (highlight_neighbors r (some n)).nodes
      ≡ some (record el { opacity = if n == id then full else dim })
unfolding highlight_neighbors set_opacity
highlight_only_selected r n id el h =
    lookup-adjust n id (set_opacity full) (map_values (set_opacity dim) r.nodes)
    ∙ ground (arith, lookup-map_values (set_opacity dim) id r.nodes)
