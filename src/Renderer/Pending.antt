-- ===== src/Renderer/Pending.antt =====
-- The edges that `updateState` marks as having a pending move.
use mathlib.Core.Option
use hax_war.Base.{
  nat_eq, pair_eq, ℕ, ◌≡◌, refl, sym, ◌∙◌, ap, Bool, true, false, ◌&&◌, ◌||◌, Option, none, some,
  List, [], ◌∷◌, ◌==◌, any, adjust, map_values, lookup, lookup-adjust, lookup-map_values, is_some,
  if◌then◌else◌, Bool-cases, inl, inr, pair_beq, pair_beq_iff, arith,
}
use hax_war.Protocol.{EdgeView, Move, StateView}
use hax_war.Renderer.{EdgeEl, Renderer}
use hax_war.Renderer.Board.{Position, position}
use hax_war.Renderer.Update.{
  clear_edge, clear_pending, mark_edge, set_label, place_label, add_label, edge_key, show_move,
  show_moves, update_edge, update_edges, update_state, paint_nodes,
}

abbrev Edges : Type 0
Edges = List ((ℕ × ℕ) × EdgeEl)

abbrev pub has : ℕ × ℕ → List ((ℕ × ℕ) × EdgeEl) → Bool
has k es = is_some (lookup k es)

abbrev pending_of : Option EdgeEl → Bool
pending_of none = false
pending_of (some el) = el.pending_move

-- Whether an edge's line has the class `pending-move`.
abbrev pub is_pending : ℕ × ℕ → List ((ℕ × ℕ) × EdgeEl) → Bool
is_pending k es = pending_of (lookup k es)

pub has-adjust :
    (k i : ℕ × ℕ) (f : EdgeEl → EdgeEl) (es : List ((ℕ × ℕ) × EdgeEl))
    → has i (adjust k f es) ≡ has i es
has-adjust k i f es = ground (arith, lookup-adjust k i f es)

-- A change that keeps `pending_move`.
abbrev KeepsPending : (EdgeEl → EdgeEl) → Type 0
KeepsPending f = (el : EdgeEl) → (f el).pending_move ≡ el.pending_move

pending_of-map :
    (f : EdgeEl → EdgeEl) (o : Option EdgeEl)
    → KeepsPending f
    → pending_of (Option.map f o) ≡ pending_of o
pending_of-map f none h = refl
pending_of-map f (some el) h = h el

pending-adjust :
    (k i : ℕ × ℕ) (f : EdgeEl → EdgeEl) (es : Edges)
    → KeepsPending f
    → is_pending i (adjust k f es) ≡ is_pending i es
pending-adjust k i f es h = ground (arith, lookup-adjust k i f es, pending_of-map f (lookup i es) h)

pending-mark :
    (k i : ℕ × ℕ) (m : Move) (es : Edges)
    → is_pending i (adjust k (mark_edge m) es) ≡ (is_pending i es || (has i es && pair_beq k i))
unfolding mark_edge
pending-mark k i m es = ground (arith, lookup-adjust k i (mark_edge m) es)

place_label_edges :
    (key i : ℕ × ℕ) (m : Move) (p q : Option Position) (r : Renderer)
    → (is_pending i (place_label key m p q r).edge_els ≡ is_pending i r.edge_els)
      × (has i (place_label key m p q r).edge_els ≡ has i r.edge_els)
unfolding place_label set_label
place_label_edges key i m (some p) (some q) r = (
  pending-adjust key i (set_label r.next_label) r.edge_els (λ el. refl),
  has-adjust key i (set_label r.next_label) r.edge_els,
)
place_label_edges key i m (some p) none r = (refl, refl)
place_label_edges key i m none q r = (refl, refl)

add_label_edges :
    (key i : ℕ × ℕ) (m : Move) (r : Renderer)
    → (is_pending i (add_label key m r).edge_els ≡ is_pending i r.edge_els)
      × (has i (add_label key m r).edge_els ≡ has i r.edge_els)
unfolding add_label
add_label_edges key i m r =
    place_label_edges key i m (position m.from_node_id) (position m.to_node_id) r

-- A test by an equation of keys.
pair_beq-eq : (k i : ℕ × ℕ) → pair_beq k i ≡ true → k ≡ i
pair_beq-eq k i h = (pair_beq_iff k i).0 h

no_edge_no_key :
    (key k : ℕ × ℕ) (es : Edges) → has key es ≡ false → (has k es && pair_beq key k) ≡ false
no_edge_no_key key k es h = elim (Bool-cases (pair_beq key k)) [
  | inl same ↦
      let e : has k es ≡ false = ap (λ x. has x es) (sym (pair_beq-eq key k same)) ∙ h in rw e
  | inr other ↦ rw other (ground arith)
]

show_move_edges :
    (m : Move) (r : Renderer) (k : ℕ × ℕ)
    → let key = edge_key r.edge_els m.from_node_id m.to_node_id in
      (is_pending k (show_move m r).edge_els
        ≡ (is_pending k r.edge_els || (has k r.edge_els && pair_beq key k)))
      × (has k (show_move m r).edge_els ≡ has k r.edge_els)
unfolding show_move
show_move_edges m r k =
    let key = edge_key r.edge_els m.from_node_id m.to_node_id in
    elim (Bool-cases (has key r.edge_els)) [
      | inl there ↦
          let marked = record r { edge_els = adjust key (mark_edge m) r.edge_els } in
          let parts = add_label_edges key k m marked in
          rw there (
            parts.0 ∙ pending-mark key k m r.edge_els,
            parts.1 ∙ has-adjust key k (mark_edge m) r.edge_els,
          )
      | inr gone ↦ rw gone (ground (arith, no_edge_no_key key k r.edge_els gone), refl)
    ]

edge_key-show_move :
    (m : Move) (r : Renderer) (a b : ℕ)
    → edge_key (show_move m r).edge_els a b ≡ edge_key r.edge_els a b
unfolding edge_key
edge_key-show_move m r a b = ap (λ t. if t then (a, b) else (b, a)) (show_move_edges m r (a, b)).1

-- Whether a move goes along an edge, of whose two directions one is a key.
abbrev along : Edges → ℕ × ℕ → Move → Bool
along es k m = pair_beq (edge_key es m.from_node_id m.to_node_id) k

any_congr {ℓ} :
    {A : Type ℓ} (p q : A → Bool) (xs : List A) → ((a : A) → p a ≡ q a) → any p xs ≡ any q xs
any_congr p q [] h = refl
any_congr p q (x ∷ xs) h = ground (arith, h x, any_congr p q xs h)

show_moves_edges :
    (ms : List Move) (r : Renderer) (k : ℕ × ℕ)
    → has k r.edge_els ≡ true
    → is_pending k (show_moves ms r).edge_els
      ≡ (is_pending k r.edge_els || any (along r.edge_els k) ms)
unfolding show_moves
show_moves_edges [] r k h = ground arith
show_moves_edges (m ∷ ms) r k h =
    let step = show_move_edges m r k in
    let later = show_moves_edges ms (show_move m r) k (step.1 ∙ h) in
    let same =
      any_congr (along (show_move m r).edge_els k) (along r.edge_els k) ms
        (λ n. ap (λ x. pair_beq x k) (edge_key-show_move m r n.from_node_id n.to_node_id)) in
    ground (arith, step.0, later, same)

update_edges_pending :
    (vs : List EdgeView) (es : Edges) (k : ℕ × ℕ)
    → is_pending k (update_edges vs es) ≡ is_pending k es
unfolding update_edges update_edge
update_edges_pending [] es k = refl
update_edges_pending (v ∷ vs) es k =
    update_edges_pending vs (adjust (v.from_node_id, v.to_node_id) (update_edge v) es) k
    ∙ pending-adjust (v.from_node_id, v.to_node_id) k (update_edge v) es (λ el. refl)

pub clear_edges :
    (es : List ((ℕ × ℕ) × EdgeEl)) (k : ℕ × ℕ)
    → (is_pending k (map_values clear_edge es) ≡ false)
      × (has k (map_values clear_edge es) ≡ has k es)
unfolding clear_edge
clear_edges es k = (
  ground (arith, lookup-map_values clear_edge k es),
  ground (arith, lookup-map_values clear_edge k es),
)

-- Whether a move joins two nodes, in either direction.
abbrev pub joins : ℕ → ℕ → Move → Bool
joins i j m =
    (m.from_node_id == i && m.to_node_id == j) || (m.from_node_id == j && m.to_node_id == i)

has_differs : (p q : ℕ × ℕ) (es : Edges) → has p es ≡ true → has q es ≡ false → pair_beq p q ≡ false
has_differs p q es h g = elim (Bool-cases (pair_beq p q)) [
  | inl same ↦ cc (h, g, ap (λ x. has x es) (pair_beq-eq p q same))
  | inr other ↦ other
]

along-joins :
    (es : Edges) (i j : ℕ) (m : Move)
    → has (i, j) es ≡ true
    → has (j, i) es ≡ false
    → along es (i, j) m ≡ joins i j m
unfolding edge_key
along-joins es i j m here there = elim (Bool-cases (has (m.from_node_id, m.to_node_id) es)) [
  | inl direct ↦
      rw direct (ground (arith, has_differs (m.from_node_id, m.to_node_id) (j, i) es direct there))
  | inr reversed ↦
      rw reversed
        (ground (arith, has_differs (i, j) (m.from_node_id, m.to_node_id) es here reversed))
]

-- After `updateState` an edge of the board is marked as having a pending move exactly if some
-- pending move of the state joins its two nodes, in either direction, whatever was marked before.
-- The edge is drawn in one direction only.
pub pending_iff :
    (s : StateView) (r : Renderer) (i j : ℕ)
    → has (i, j) r.edge_els ≡ true
    → has (j, i) r.edge_els ≡ false
    → is_pending (i, j) (update_state s r).edge_els ≡ any (joins i j) s.my_pending_moves
unfolding update_state clear_pending
pending_iff s r i j here there =
    let painted = clear_pending (record r { nodes = paint_nodes s.nodes r.nodes }) in
    let moved = show_moves s.my_pending_moves painted in
    let forth = clear_edges r.edge_els (i, j) in
    let back = clear_edges r.edge_els (j, i) in
    update_edges_pending s.edges moved.edge_els (i, j)
    ∙ show_moves_edges s.my_pending_moves painted (i, j) (forth.1 ∙ here)
    ∙ ap (λ b. b || any (along painted.edge_els (i, j)) s.my_pending_moves) forth.0
    ∙ any_congr (along painted.edge_els (i, j)) (joins i j) s.my_pending_moves
        (λ m. along-joins painted.edge_els i j m (forth.1 ∙ here) (back.1 ∙ there))
