-- ===== src/Renderer/Latest.antt =====
-- The board shows the last state, whatever states came before.
use mathlib.Core.Option
use hax_war.Base.{
  nat_eq, pair_eq, ℕ, ◌≡◌, refl, sym, ◌∙◌, ap, Bool, true, false, Option, none, some, List, [], ◌∷◌,
  adjust, map_values, lookup, lookup-adjust, is_some, if◌then◌else◌, pair_beq,
}
use hax_war.Protocol.{NodeView, EdgeView, StateView}
use hax_war.Renderer.{NodeEl, EdgeEl, Renderer}
use hax_war.Renderer.Circles.{last_view, paint_last, paint_over, update_state_nodes}
use hax_war.Renderer.Doubles.{update_states}
use hax_war.Renderer.Strokes.{
  Edges, bare, blank, strokes, has-map_values, update_state-bare, update_state-blank,
}
use hax_war.Renderer.Update.{
  paint_node, update_edge, update_edges, update_state, clear_pending, paint_nodes, show_moves,
}

-- The last of a list's views of an edge.
abbrev pub last_edge : ℕ × ℕ → List EdgeView → Option EdgeView
last_edge k [] = none
last_edge k (v ∷ vs) = elim (last_edge k vs) [
  | none ↦ if pair_beq (v.from_node_id, v.to_node_id) k then some v else none
  | some w ↦ some w
]

abbrev update_last : Option EdgeView → Option EdgeEl → Option EdgeEl
update_last none el = el
update_last (some v) el = Option.map (update_edge v) el

-- A later view replaces an earlier one.
update_over :
    (v w : EdgeView) (o : Option EdgeEl)
    → Option.map (update_edge w) (Option.map (update_edge v) o) ≡ Option.map (update_edge w) o
unfolding update_edge
update_over v w none = refl
update_over v w (some el) = refl

lookup-update_edges :
    (k : ℕ × ℕ) (vs : List EdgeView) (es : Edges)
    → lookup k (update_edges vs es) ≡ update_last (last_edge k vs) (lookup k es)
unfolding update_edges
lookup-update_edges k [] es = refl
lookup-update_edges k (v ∷ vs) es =
    let key : ℕ × ℕ = (v.from_node_id, v.to_node_id) in
    lookup-update_edges k vs (adjust key (update_edge v) es)
    ∙ ap (update_last (last_edge k vs)) (lookup-adjust key k (update_edge v) es)
    ∙ of_last (last_edge k vs) (pair_beq key k)
  where
    of_last :
        (o : Option EdgeView) (b : Bool)
        → update_last o (if b then Option.map (update_edge v) (lookup k es) else lookup k es)
          ≡ update_last
              (elim o [ none ↦ (if b then some v else none) | some w ↦ some w ])
              (lookup k es)
    of_last none true = refl
    of_last none false = refl
    of_last (some w) true = update_over v w (lookup k es)
    of_last (some w) false = refl

-- The classes `encounter` and `has-units` of an edge.
abbrev pub traffic : EdgeEl → Bool × Bool
traffic el = (el.encounter, el.has_units)

-- A view of an edge alone says which it has.
traffic-update :
    (v : EdgeView) (o o' : Option EdgeEl)
    → is_some o ≡ is_some o'
    → Option.map traffic (Option.map (update_edge v) o)
      ≡ Option.map traffic (Option.map (update_edge v) o')
unfolding update_edge
traffic-update v none none h = refl
traffic-update v none (some el) h = cc
traffic-update v (some el) none h = cc
traffic-update v (some el) (some el') h = refl

module _ (s : StateView) where
  -- Two boards show the same as far as the state says: the nodes that it lists, the classes of pending
  -- moves at every edge, and what travels on the edges that it lists.
  pub record ShowSame (p q : Renderer) : Type 0 where
    pub nodes :
        (id : ℕ) (v : NodeView)
        → last_view id s.nodes ≡ some v
        → lookup id p.nodes ≡ lookup id q.nodes
    pub edges : map_values bare p.edge_els ≡ map_values bare q.edge_els
    pub travels :
        (k : ℕ × ℕ) (v : EdgeView)
        → last_edge k s.edges ≡ some v
        → Option.map traffic (lookup k p.edge_els) ≡ Option.map traffic (lookup k q.edge_els)

  -- The edges are at their places, and what a view of a node paints is the same.
  abbrev AreAlike : Renderer → Renderer → Type 0
  AreAlike p q =
      (map_values blank p.edge_els ≡ map_values blank q.edge_els)
      × ((id : ℕ) (v : NodeView)
          → Option.map (paint_node v) (lookup id p.nodes)
            ≡ Option.map (paint_node v) (lookup id q.nodes))

  painted_over :
      (v : NodeView) (o : Option NodeView) (el : Option NodeEl)
      → Option.map (paint_node v) (paint_last o el) ≡ Option.map (paint_node v) el
  painted_over v none el = refl
  painted_over v (some w) el = paint_over w v el

  update_states-AreAlike : (ss : List StateView) (r : Renderer) → AreAlike (update_states ss r) r
  update_states-AreAlike [] r = (refl, λ id v. refl)
  update_states-AreAlike (t ∷ ss) r =
      let (places, paints) = update_states-AreAlike ss (update_state t r) in
      (
        places ∙ update_state-blank t r,
        λ id v.
            paints id v
            ∙ ap (Option.map (paint_node v)) (update_state_nodes t r id)
            ∙ painted_over v (last_view id t.nodes) (lookup id r.nodes),
      )

  edges-ShowSame :
      (p q : Renderer)
      → AreAlike p q
      → map_values bare (update_state s p).edge_els ≡ map_values bare (update_state s q).edge_els
  edges-ShowSame p q (places, paints) =
      update_state-bare s p ∙ ap (strokes s.my_pending_moves) places ∙ sym (update_state-bare s q)

  nodes-ShowSame :
      (p q : Renderer)
      → AreAlike p q
      → (id : ℕ) (v : NodeView) → last_view id s.nodes ≡ some v
      → lookup id (update_state s p).nodes ≡ lookup id (update_state s q).nodes
  nodes-ShowSame p q (places, paints) id v h =
      update_state_nodes s p id
      ∙ ap (λ o. paint_last o (lookup id p.nodes)) h
      ∙ paints id v
      ∙ sym (ap (λ o. paint_last o (lookup id q.nodes)) h)
      ∙ sym (update_state_nodes s q id)

  is_some-map : (f : EdgeEl → EdgeEl) (o : Option EdgeEl) → is_some (Option.map f o) ≡ is_some o
  is_some-map f none = refl
  is_some-map f (some el) = refl

  -- A listed edge, before its view is applied to it.
  update_state_edges :
      (p : Renderer) (k : ℕ × ℕ) (v : EdgeView)
      → last_edge k s.edges ≡ some v
      → (o : Option EdgeEl) × (lookup k (update_state s p).edge_els ≡ Option.map (update_edge v) o)
  unfolding update_state
  update_state_edges p k v h =
      let painted = clear_pending (record p { nodes = paint_nodes s.nodes p.nodes }) in
      let moved = show_moves s.my_pending_moves painted in
      (
        lookup k moved.edge_els,
        lookup-update_edges k s.edges moved.edge_els
            ∙ ap (λ o. update_last o (lookup k moved.edge_els)) h,
      )

  travels-ShowSame :
      (p q : Renderer)
      → map_values bare (update_state s p).edge_els ≡ map_values bare (update_state s q).edge_els
      → (k : ℕ × ℕ) (v : EdgeView) → last_edge k s.edges ≡ some v
      → Option.map traffic (lookup k (update_state s p).edge_els)
        ≡ Option.map traffic (lookup k (update_state s q).edge_els)
  travels-ShowSame p q same k v h =
      let es = (update_state s p).edge_els in
      let fs = (update_state s q).edge_els in
      let (o, at_p) = update_state_edges p k v h in
      let (o', at_q) = update_state_edges q k v h in
      let drawn =
        sym (is_some-map (update_edge v) o)
        ∙ ap is_some (sym at_p)
        ∙ sym (has-map_values bare k es)
        ∙ ap (λ ds. is_some (lookup k ds)) same
        ∙ has-map_values bare k fs
        ∙ ap is_some at_q
        ∙ is_some-map (update_edge v) o' in
      ap (Option.map traffic) at_p
      ∙ traffic-update v o o' drawn
      ∙ sym (ap (Option.map traffic) at_q)

  -- Whatever states came before a state, once it has come the board shows the same as if it alone had
  -- come: at each node that it lists, at every edge the classes of pending moves, and on each edge
  -- that it lists the encounter and the units that travel.
  pub update_state-ShowSame :
      (ss : List StateView) (r : Renderer)
      → ShowSame (update_state s (update_states ss r)) (update_state s r)
  update_state-ShowSame ss r =
      let p = update_states ss r in
      let alike = update_states-AreAlike ss r in
      let same = edges-ShowSame p r alike in
      record { nodes = nodes-ShowSame p r alike; edges = same; travels = travels-ShowSame p r same }
