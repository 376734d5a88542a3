-- ===== src/Renderer/Strokes.antt =====
-- What `updateState` draws at the edges, but for the labels: a function of the pending moves alone.
use hax_war.Base.{
  nat_eq, pair_eq, ℕ, ◌≡◌, refl, sym, ◌∙◌, ap, false, Option, none, some, List, [], ◌∷◌, adjust,
  map_values, lookup, lookup-map_values, is_some, if◌then◌else◌, if_ind, Bool-cases, inl, inr,
  pair_beq, arith,
}
use hax_war.Protocol.{EdgeView, Move, StateView}
use hax_war.Renderer.{EdgeEl, Renderer}
use hax_war.Renderer.Board.{Position, position}
use hax_war.Renderer.Update.{
  clear_edge, clear_pending, mark_edge, set_label, place_label, add_label, edge_key, show_move,
  show_moves, update_edge, update_edges, update_state, paint_nodes,
}

abbrev pub Edges : Type 0
Edges = List ((ℕ × ℕ) × EdgeEl)

module _ (f g : EdgeEl → EdgeEl) where
  pub map_values_twice :
      (h : EdgeEl → EdgeEl) (es : Edges)
      → ((el : EdgeEl) → f (g el) ≡ h el)
      → map_values f (map_values g es) ≡ map_values h es
  unfolding map_values
  map_values_twice h [] same = refl
  map_values_twice h ((k, el) ∷ es) same = λ i. (k, same el i) ∷ map_values_twice h es same i

  -- A change that a view does not see.
  map_values-adjust_keep :
      (k : ℕ × ℕ) (es : Edges)
      → ((el : EdgeEl) → f (g el) ≡ f el)
      → map_values f (adjust k g es) ≡ map_values f es
  unfolding map_values adjust
  map_values-adjust_keep k [] same = refl
  map_values-adjust_keep k ((j, el) ∷ es) same = elim (Bool-cases (pair_beq j k)) [
    | inl hit ↦ rw hit (λ i. (j, same el i) ∷ map_values f es)
    | inr miss ↦ rw miss (ap (◌∷◌ (j, f el)) (map_values-adjust_keep k es same))
  ]

  -- A change of what a view shows.
  pub map_values-adjust :
      (k : ℕ × ℕ) (es : Edges)
      → ((el : EdgeEl) → f (g el) ≡ g (f el))
      → map_values f (adjust k g es) ≡ adjust k g (map_values f es)
  unfolding map_values adjust
  map_values-adjust k [] same = refl
  map_values-adjust k ((j, el) ∷ es) same = elim (Bool-cases (pair_beq j k)) [
    | inl hit ↦ rw hit (λ i. (j, same el i) ∷ map_values f es)
    | inr miss ↦ rw miss (ap (◌∷◌ (j, f el)) (map_values-adjust k es same))
  ]

-- An edge without its label and its classes `has-units` and `encounter`; and without those of
-- pending moves too.
abbrev pub bare : EdgeEl → EdgeEl
bare el = record el { has_units = false; encounter = false; pending_label = none }

abbrev pub blank : EdgeEl → EdgeEl
blank el = record (bare el) { pending_move = false; optimistic = false }

pub has-map_values :
    (f : EdgeEl → EdgeEl) (k : ℕ × ℕ) (es : Edges)
    → is_some (lookup k (map_values f es)) ≡ is_some (lookup k es)
has-map_values f k es = ground (arith, lookup-map_values f k es)

pub edge_key-map_values :
    (f : EdgeEl → EdgeEl) (es : Edges) (i j : ℕ) → edge_key (map_values f es) i j ≡ edge_key es i j
unfolding edge_key
edge_key-map_values f es i j = rw (has-map_values f (i, j) es) refl

-- The edge of a move, if there is one, gets its classes.
abbrev pub stroke : Move → Edges → Edges
stroke m es =
    let key = edge_key es m.from_node_id m.to_node_id in
    if is_some (lookup key es) then adjust key (mark_edge m) es else es

abbrev pub strokes : List Move → Edges → Edges
strokes [] es = es
strokes (m ∷ ms) es = strokes ms (stroke m es)

-- What a view of the edges that does not see labels shows of the moves.
module _ (f : EdgeEl → EdgeEl) (drops : (h : ℕ) (el : EdgeEl) → f (set_label h el) ≡ f el)
    (keeps : (m : Move) (el : EdgeEl) → f (mark_edge m el) ≡ mark_edge m (f el)) where
  place_label-view :
      (key : ℕ × ℕ) (m : Move) (p q : Option Position) (r : Renderer)
      → map_values f (place_label key m p q r).edge_els ≡ map_values f r.edge_els
  unfolding place_label
  place_label-view key m (some p) (some q) r =
      map_values-adjust_keep f (set_label r.next_label) key r.edge_els (drops r.next_label)
  place_label-view key m (some p) none r = refl
  place_label-view key m none q r = refl

  show_move-view :
      (m : Move) (r : Renderer)
      → map_values f (show_move m r).edge_els ≡ stroke m (map_values f r.edge_els)
  unfolding show_move add_label
  show_move-view m r =
      let es = r.edge_els in
      let key = edge_key es m.from_node_id m.to_node_id in
      let marked : Renderer = record r { edge_els = adjust key (mark_edge m) es } in
      let p = position m.from_node_id in
      let q = position m.to_node_id in
      rw (edge_key-map_values f es m.from_node_id m.to_node_id, has-map_values f key es)
        (elim (Bool-cases (is_some (lookup key es))) [
          | inl here ↦ rw here (
              place_label-view key m p q marked
              ∙ map_values-adjust f (mark_edge m) key es (keeps m))
          | inr missing ↦ rw missing refl
        ])

  pub show_moves-view :
      (ms : List Move) (r : Renderer)
      → map_values f (show_moves ms r).edge_els ≡ strokes ms (map_values f r.edge_els)
  unfolding show_moves
  show_moves-view [] r = refl
  show_moves-view (m ∷ ms) r =
      show_moves-view ms (show_move m r) ∙ ap (strokes ms) (show_move-view m r)

pub show_moves-bare :
    (ms : List Move) (r : Renderer)
    → map_values bare (show_moves ms r).edge_els ≡ strokes ms (map_values bare r.edge_els)
unfolding set_label mark_edge
show_moves-bare = show_moves-view bare (λ h el. refl) (λ m el. refl)

update_edges-bare :
    (vs : List EdgeView) (es : Edges) → map_values bare (update_edges vs es) ≡ map_values bare es
unfolding update_edges update_edge
update_edges-bare [] es = refl
update_edges-bare (v ∷ vs) es =
    update_edges-bare vs _
    ∙ map_values-adjust_keep bare (update_edge v) (v.from_node_id, v.to_node_id) es (λ el. refl)

-- But for labels and what travels, the edges after `updateState` are the blank ones with the strokes
-- of the pending moves of the state.
pub update_state-bare :
    (s : StateView) (r : Renderer)
    → map_values bare (update_state s r).edge_els
      ≡ strokes s.my_pending_moves (map_values blank r.edge_els)
unfolding update_state clear_pending clear_edge
update_state-bare s r =
    let painted = clear_pending (record r { nodes = paint_nodes s.nodes r.nodes }) in
    update_edges-bare s.edges (show_moves s.my_pending_moves painted).edge_els
    ∙ show_moves-bare s.my_pending_moves painted
    ∙ ap (strokes s.my_pending_moves)
        (map_values_twice bare clear_edge blank r.edge_els (λ el. refl))

pub strokes-blank :
    (ms : List Move) (es : Edges) → map_values blank (strokes ms es) ≡ map_values blank es
unfolding mark_edge
strokes-blank [] es = refl
strokes-blank (m ∷ ms) es =
    let key = edge_key es m.from_node_id m.to_node_id in
    strokes-blank ms (stroke m es)
    ∙ if_ind (λ (fs : Edges). map_values blank fs ≡ map_values blank es) (is_some (lookup key es))
        (map_values-adjust_keep blank (mark_edge m) key es (λ el. refl)) refl

-- A state leaves of the edges their places.
pub update_state-blank :
    (s : StateView) (r : Renderer)
    → map_values blank (update_state s r).edge_els ≡ map_values blank r.edge_els
update_state-blank s r =
    sym (map_values_twice blank bare blank (update_state s r).edge_els (λ el. refl))
    ∙ ap (map_values blank) (update_state-bare s r)
    ∙ strokes-blank s.my_pending_moves (map_values blank r.edge_els)
    ∙ map_values_twice blank blank blank r.edge_els (λ el. refl)

-- Nor do moves that are drawn.
pub show_moves-blank :
    (ms : List Move) (r : Renderer)
    → map_values blank (show_moves ms r).edge_els ≡ map_values blank r.edge_els
show_moves-blank ms r =
    sym (map_values_twice blank bare blank (show_moves ms r).edge_els (λ el. refl))
    ∙ ap (map_values blank) (show_moves-bare ms r)
    ∙ strokes-blank ms (map_values bare r.edge_els)
    ∙ map_values_twice blank bare blank r.edge_els (λ el. refl)
