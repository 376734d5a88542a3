-- ===== src/Renderer/History.antt =====
-- The circles of the nodes over any history of the renderer's methods.
use mathlib.Core.Option
use hax_war.Base.{
  nat_eq, pair_eq, ℕ, ◌≡◌, refl, ◌∙◌, Bool, true, false, ◌&&◌, Option, none, some, List, [], ◌∷◌,
  lookup, lookup-adjust, is_some, if_ind, arith,
}
use hax_war.Protocol.{Move, Side, StateView}
use hax_war.Renderer.{
  Opacity, dim, full, NodeEl, Renderer, new_renderer, new_node, draw_between, draw_edge, draw_edges,
  draw_node, draw_nodes, initialize, set_selected, at_node, select_node, set_opacity,
  highlight_neighbors, reset_highlight,
}
use hax_war.Renderer.Board.{Position, position, node_positions, edges}
use hax_war.Renderer.Update.{
  paint_nodes, clear_pending, show_move, show_moves, place_label, add_label, update_state,
}
use hax_war.Renderer.Marks.{
  selected_of, clash_of, Keeps, false_of_not_true, Holds, Holds-adjust, Holds-map_values,
  Holds-insert, Holds-paint_nodes,
}

pub data Op : Type 0 where
  initializes : Option Side → Op
  updates : StateView → Op
  selects highlights : Option ℕ → Op
  resets : Op

unfoldable pub apply : Op → Renderer → Renderer
unfolding initialize update_state select_node highlight_neighbors reset_highlight
apply (initializes side) r = initialize r side
apply (updates s) r = update_state s r
apply (selects node_id) r = select_node r node_id
apply (highlights node_id) r = highlight_neighbors r node_id
apply resets r = reset_highlight r

unfoldable pub run : List Op → Renderer → Renderer
run [] r = r
run (o ∷ os) r = run os (apply o r)

abbrev pub IsTidy : Renderer → Type 0
IsTidy r = Holds r.selected_node r.nodes

set_opacity-Keeps : (o : Opacity) → Keeps (set_opacity o)
unfolding set_opacity
set_opacity-Keeps o el = (λ h. h, λ h. h)

-- What the drawing of edges and labels leaves alone.
abbrev SameNodes : Renderer → Renderer → Type 0
SameNodes r r' = (r'.nodes ≡ r.nodes) × (r'.selected_node ≡ r.selected_node)

place_label-SameNodes :
    (k : ℕ × ℕ) (m : Move) (p q : Option Position) (r : Renderer)
    → SameNodes r (place_label k m p q r)
unfolding place_label
place_label-SameNodes k m (some p) (some q) r = (refl, refl)
place_label-SameNodes k m (some p) none r = (refl, refl)
place_label-SameNodes k m none q r = (refl, refl)

show_move-SameNodes : (m : Move) (r : Renderer) → SameNodes r (show_move m r)
unfolding show_move add_label
show_move-SameNodes m r = if_ind (SameNodes r) _ (place_label-SameNodes _ m _ _ _) (refl, refl)

show_moves-SameNodes : (ms : List Move) (r : Renderer) → SameNodes r (show_moves ms r)
unfolding show_moves
show_moves-SameNodes [] r = (refl, refl)
show_moves-SameNodes (m ∷ ms) r =
    let one = show_move-SameNodes m r in
    let rest = show_moves-SameNodes ms (show_move m r) in (rest.0 ∙ one.0, rest.1 ∙ one.1)

pub show_moves_nodes : (ms : List Move) (r : Renderer) → (show_moves ms r).nodes ≡ r.nodes
show_moves_nodes ms r = (show_moves-SameNodes ms r).0

pub show_moves_selected :
    (ms : List Move) (r : Renderer) → (show_moves ms r).selected_node ≡ r.selected_node
show_moves_selected ms r = (show_moves-SameNodes ms r).1

IsTidy-of_SameNodes : (r r' : Renderer) → SameNodes r r' → IsTidy r → IsTidy r'
IsTidy-of_SameNodes r r' (n, s) v = rw (n, s) v

update_state-IsTidy : (s : StateView) (r : Renderer) → IsTidy r → IsTidy (update_state s r)
unfolding update_state clear_pending
update_state-IsTidy s r v =
    let painted = clear_pending (record r { nodes = paint_nodes s.nodes r.nodes }) in
    IsTidy-of_SameNodes painted (show_moves s.my_pending_moves painted)
      (show_moves-SameNodes s.my_pending_moves painted)
      (Holds-paint_nodes r.selected_node s.nodes r.nodes v)

draw_between-SameNodes :
    (r : Renderer) (i j : ℕ) (p q : Option Position) → SameNodes r (draw_between r i j p q)
unfolding draw_between
draw_between-SameNodes r i j (some p) (some q) = (refl, refl)
draw_between-SameNodes r i j (some p) none = (refl, refl)
draw_between-SameNodes r i j none q = (refl, refl)

draw_edge-SameNodes : (r : Renderer) (i j : ℕ) → SameNodes r (draw_edge r i j)
unfolding draw_edge
draw_edge-SameNodes r i j = draw_between-SameNodes r i j (position i) (position j)

draw_edges-SameNodes : (es : List (ℕ × ℕ)) (r : Renderer) → SameNodes r (draw_edges r es)
unfolding draw_edges
draw_edges-SameNodes [] r = (refl, refl)
draw_edges-SameNodes ((i, j) ∷ es) r =
    let one = draw_edge-SameNodes r i j in
    let rest = draw_edges-SameNodes es (draw_edge r i j) in (rest.0 ∙ one.0, rest.1 ∙ one.1)

draw_nodes-IsTidy : (ps : List (ℕ × Position)) (r : Renderer) → IsTidy r → IsTidy (draw_nodes r ps)
unfolding draw_nodes draw_node new_node
draw_nodes-IsTidy [] r v = v
draw_nodes-IsTidy ((id, p) ∷ ps) r v =
    draw_nodes-IsTidy ps (draw_node r id p)
      (Holds-insert r.selected_node id (new_node p) r.nodes refl refl v)

initialize-IsTidy : (r : Renderer) (side : Option Side) → IsTidy r → IsTidy (initialize r side)
unfolding initialize
initialize-IsTidy r side v =
    let cleared = record r { player_side = side; labels = [] } in
    draw_nodes-IsTidy node_positions (draw_edges cleared edges) (
      IsTidy-of_SameNodes cleared (draw_edges cleared edges) (draw_edges-SameNodes edges cleared) v)

abbrev NoneSelected : List (ℕ × NodeEl) → Type 0
NoneSelected m =
    ((id : ℕ) → selected_of (lookup id m) ≡ false) × ((id : ℕ) → clash_of (lookup id m) ≡ false)

set_selected_parts :
    (b : Bool) (o : Option NodeEl)
    → (clash_of (Option.map (set_selected b) o) ≡ clash_of o)
      × (selected_of (Option.map (set_selected b) o) ≡ (is_some o && b))
unfolding set_selected
set_selected_parts b none = (refl, refl)
set_selected_parts b (some el) = (refl, refl)

unselect-NoneSelected :
    (old : Option ℕ) (m : List (ℕ × NodeEl))
    → Holds old m
    → NoneSelected (at_node old (set_selected false) m)
unselect-NoneSelected none m v =
    (λ id. false_of_not_true _ false (λ h. cc (v.lone id h)) refl, v.unclashed)
unselect-NoneSelected (some k) m v = (
  λ id. ground (
    arith,
    lookup-adjust k id (set_selected false) m,
    set_selected_parts false (lookup id m),
    v.lone id,
  ),
  λ id. ground (
    arith,
    lookup-adjust k id (set_selected false) m,
    set_selected_parts false (lookup id m),
    v.unclashed id,
  ),
)

select-Holds :
    (new : Option ℕ) (m : List (ℕ × NodeEl))
    → NoneSelected m
    → Holds new (at_node new (set_selected true) m)
select-Holds none m v = record { lone = λ id h. cc (v.0 id); unclashed = v.1 }
select-Holds (some k) m v = record {
  lone = λ id h. ground (
    arith,
    lookup-adjust k id (set_selected true) m,
    set_selected_parts true (lookup id m),
    v.0 id,
  );
  unclashed = λ id. ground (
    arith,
    lookup-adjust k id (set_selected true) m,
    set_selected_parts true (lookup id m),
    v.1 id,
  );
}

select_node-IsTidy : (r : Renderer) (id : Option ℕ) → IsTidy r → IsTidy (select_node r id)
unfolding select_node
select_node-IsTidy r id v = select-Holds id _ (unselect-NoneSelected r.selected_node r.nodes v)

highlight-Holds :
    (s new : Option ℕ) (o : Opacity) (m : List (ℕ × NodeEl))
    → Holds s m
    → Holds s (at_node new (set_opacity o) m)
highlight-Holds s none o m v = v
highlight-Holds s (some k) o m v = Holds-adjust s k (set_opacity o) m (set_opacity-Keeps o) v

apply-IsTidy : (o : Op) (r : Renderer) → IsTidy r → IsTidy (apply o r)
unfolding apply highlight_neighbors reset_highlight
apply-IsTidy (initializes side) r v = initialize-IsTidy r side v
apply-IsTidy (updates s) r v = update_state-IsTidy s r v
apply-IsTidy (selects id) r v = select_node-IsTidy r id v
apply-IsTidy (highlights id) r v =
    highlight-Holds r.selected_node id full _
      (Holds-map_values r.selected_node (set_opacity dim) r.nodes (set_opacity-Keeps dim) v)
apply-IsTidy resets r v =
    Holds-map_values r.selected_node (set_opacity full) r.nodes (set_opacity-Keeps full) v

run-IsTidy_of : (os : List Op) (r : Renderer) → IsTidy r → IsTidy (run os r)
unfolding run
run-IsTidy_of [] r v = v
run-IsTidy_of (o ∷ os) r v = run-IsTidy_of os (apply o r) (apply-IsTidy o r v)

-- After any history of the renderer's methods from a new renderer: a circle with the class
-- `selected` is that of the node in `selected_node`, and no circle has both of the classes `mine`
-- and `opponent`.
pub run-IsTidy : (os : List Op) → IsTidy (run os new_renderer)
unfolding new_renderer lookup
run-IsTidy os = run-IsTidy_of os new_renderer (record { lone = λ id h. cc; unclashed = λ id. refl })
