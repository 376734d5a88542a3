-- ===== src/Renderer/Drawing.antt =====
-- What `initialize` draws: the edges of the table, each in one direction.
use hax_war.Base.{
  nat_eq, pair_eq, ℕ, ◌<◌, ◌≡◌, refl, ◌∙◌, ap, Bool, true, false, ◌&&◌, ◌||◌, Option, none, some,
  List, [], ◌∷◌, any, lookup, lookup-insert, is_some, pair_beq, arith, Bool-cases, inl, inr, all,
  ltb,
}
use hax_war.Protocol.{Side}
use hax_war.Renderer.{
  Renderer, new_edge, draw_between, draw_edge, draw_edges, draw_node, draw_nodes, initialize,
}
use hax_war.Renderer.Board.{Position, position, node_positions, edges}
use hax_war.Renderer.Pending.{has}

-- An edge between two nodes that have positions, the lesser first.
abbrev is_drawable : ℕ × ℕ → Bool
is_drawable (i, j) = is_some (position i) && (is_some (position j) && ltb i j)

abbrev pub in_table : ℕ → ℕ → Bool
in_table i j = any (λ e. pair_beq e (i, j)) edges

edges_drawable : all is_drawable edges ≡ true
unfolding edges position
edges_drawable = refl

draw_between_edges :
    (r : Renderer) (a b i j : ℕ) (p q : Option Position)
    → (is_some p && is_some q) ≡ true
    → has (i, j) (draw_between r a b p q).edge_els
      ≡ (pair_beq (a, b) (i, j) || has (i, j) r.edge_els)
unfolding draw_between
draw_between_edges r a b i j (some p) (some q) h =
    ground (arith, lookup-insert (a, b) (i, j) (new_edge p q) r.edge_els)
draw_between_edges r a b i j (some p) none h = cc
draw_between_edges r a b i j none q h = cc

draw_edges_edges :
    (es : List (ℕ × ℕ)) (r : Renderer) (i j : ℕ)
    → all is_drawable es ≡ true
    → has (i, j) (draw_edges r es).edge_els
      ≡ (any (λ e. pair_beq e (i, j)) es || has (i, j) r.edge_els)
unfolding draw_edges draw_edge
draw_edges_edges [] r i j h = refl
draw_edges_edges ((a, b) ∷ es) r i j h = ground (
  arith,
  draw_edges_edges es (draw_edge r a b) i j,
  draw_between_edges r a b i j (position a) (position b),
)

draw_nodes_edges :
    (ps : List (ℕ × Position)) (r : Renderer) → (draw_nodes r ps).edge_els ≡ r.edge_els
unfolding draw_nodes draw_node
draw_nodes_edges [] r = refl
draw_nodes_edges ((id, p) ∷ ps) r = draw_nodes_edges ps (draw_node r id p)

one_way_of :
    (es : List (ℕ × ℕ)) (i j : ℕ)
    → all is_drawable es ≡ true
    → any (λ e. pair_beq e (i, j)) es ≡ true
    → i < j
one_way_of [] i j h t = cc
one_way_of ((a, b) ∷ es) i j h t = ground (arith, one_way_of es i j)

one_way : (i j : ℕ) → in_table i j ≡ true → in_table j i ≡ false
one_way i j h = elim (Bool-cases (in_table j i)) [
  | inl back ↦ absurd (
      omega
        (arith, one_way_of edges i j edges_drawable h, one_way_of edges j i edges_drawable back))
  | inr no_way ↦ no_way
]

drawn :
    (r : Renderer) (side : Option Side) (i j : ℕ)
    → r.edge_els ≡ []
    → has (i, j) (initialize r side).edge_els ≡ in_table i j
unfolding initialize
drawn r side i j e =
    let cleared = record r { player_side = side; labels = [] } in
    ap (has (i, j)) (draw_nodes_edges node_positions (draw_edges cleared edges))
    ∙ draw_edges_edges edges cleared i j edges_drawable
    ∙ ap (λ es. in_table i j || has (i, j) es) e
    ∙ unfold lookup in ground arith

-- `initialize` on a renderer without edges draws exactly the edges of the table, and none of them
-- in both directions.
pub initialize_edges :
    (r : Renderer) (side : Option Side) (i j : ℕ)
    → r.edge_els ≡ []
    → (has (i, j) (initialize r side).edge_els ≡ in_table i j)
      × (in_table i j ≡ true → has (j, i) (initialize r side).edge_els ≡ false)
initialize_edges r side i j e = (drawn r side i j e, λ h. drawn r side j i e ∙ one_way i j h)
