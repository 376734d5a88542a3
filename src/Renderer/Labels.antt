-- ===== src/Renderer/Labels.antt =====
-- The labels of pending moves in the SVG: one that no edge refers to is never removed again.
use hax_war.Base.{
  nat_eq, pair_eq, ℕ, ◌<◌, ◌≡◌, refl, ◌∙◌, Bool, true, false, not, ◌||◌, Option, none, some, List,
  [], ◌∷◌, ◌++◌, ◌==◌, filter, any, adjust, map_values, lookup, is_some, if_ind, arith,
}
use hax_war.Protocol.{EdgeView, Move, StateView}
use hax_war.Renderer.{EdgeEl, Label, Renderer}
use hax_war.Renderer.Board.{Position, position}
use hax_war.Renderer.Strokes.{Edges}
use hax_war.Renderer.Update.{
  clear_edge, clear_pending, drop_label, drop_labels, mark_edge, set_label, place_label, add_label,
  edge_key, show_move, show_moves, update_edge, update_edges, update_state, paint_nodes,
}

abbrev pub present : ℕ → List Label → Bool
present h = any (λ l. l.handle == h)

abbrev refers_to : ℕ → Option ℕ → Bool
refers_to h none = false
refers_to h (some g) = g == h

abbrev pub refers : ℕ → Edges → Bool
refers h [] = false
refers h ((k, el) ∷ es) = refers_to h el.pending_label || refers h es

-- A label in the SVG that no edge refers to.
pub record IsOrphan (h : ℕ) (r : Renderer) : Type 0 where
  pub shown : present h r.labels ≡ true
  pub unreferenced : refers h r.edge_els ≡ false
  pub old : h < r.next_label

present-filter :
    (g h : ℕ) (ls : List Label)
    → (g == h) ≡ false
    → present h (filter (λ l. not (l.handle == g)) ls) ≡ present h ls
present-filter g h [] ne = refl
present-filter g h (l ∷ ls) ne = ground (arith, present-filter g h ls ne)

present-drop_label :
    (h : ℕ) (o : Option ℕ) (ls : List Label)
    → refers_to h o ≡ false
    → present h (drop_label o ls) ≡ present h ls
unfolding drop_label
present-drop_label h none ls free = refl
present-drop_label h (some g) ls free = present-filter g h ls free

present-drop_labels :
    (h : ℕ) (es : Edges) (ls : List Label)
    → refers h es ≡ false
    → present h (drop_labels es ls) ≡ present h ls
unfolding drop_labels
present-drop_labels h [] ls free = refl
present-drop_labels h ((k, el) ∷ es) ls free =
    present-drop_labels h es (drop_label el.pending_label ls) (ground arith)
    ∙ present-drop_label h el.pending_label ls (ground arith)

pub present-append :
    (h : ℕ) (xs ys : List Label) → present h (xs ++ ys) ≡ (present h xs || present h ys)
present-append h [] ys = refl
present-append h (x ∷ xs) ys = ground (arith, present-append h xs ys)

pub refers-clear : (h : ℕ) (es : Edges) → refers h (map_values clear_edge es) ≡ false
unfolding map_values clear_edge
refers-clear h [] = refl
refers-clear h (e ∷ es) = refers-clear h es

pub refers-adjust_keep :
    (h : ℕ) (k : ℕ × ℕ) (f : EdgeEl → EdgeEl) (es : Edges)
    → ((el : EdgeEl) → (f el).pending_label ≡ el.pending_label)
    → refers h (adjust k f es) ≡ refers h es
unfolding adjust
refers-adjust_keep h k f [] keep = refl
refers-adjust_keep h k f ((j, el) ∷ es) keep =
    ground (arith, keep el, refers-adjust_keep h k f es keep)

-- Another label at an edge.
pub refers-set_label :
    (h g : ℕ) (k : ℕ × ℕ) (es : Edges)
    → (g == h) ≡ false
    → refers h es ≡ false
    → refers h (adjust k (set_label g) es) ≡ false
unfolding adjust set_label
refers-set_label h g k [] ne free = refl
refers-set_label h g k ((j, el) ∷ es) ne free = ground (arith, refers-set_label h g k es ne)

pub refers-update_edges :
    (h : ℕ) (vs : List EdgeView) (es : Edges) → refers h (update_edges vs es) ≡ refers h es
unfolding update_edges update_edge
refers-update_edges h [] es = refl
refers-update_edges h (v ∷ vs) es =
    refers-update_edges h vs _
    ∙ refers-adjust_keep h (v.from_node_id, v.to_node_id) (update_edge v) es (λ el. refl)

pub lt-ne : (h n : ℕ) → h < n → (n == h) ≡ false
lt-ne h n lt = ground arith

place_label-IsOrphan :
    (h : ℕ) (key : ℕ × ℕ) (m : Move) (p q : Option Position) (r : Renderer)
    → IsOrphan h r
    → IsOrphan h (place_label key m p q r)
unfolding place_label
place_label-IsOrphan h key m (some p) (some q) r v = record {
  shown = rw (present-append h r.labels, v.shown);
  unreferenced =
      refers-set_label h r.next_label key r.edge_els (lt-ne h r.next_label v.old) v.unreferenced;
  old = omega (arith, v.old);
}
place_label-IsOrphan h key m (some p) none r v = v
place_label-IsOrphan h key m none q r v = v

show_move-IsOrphan : (h : ℕ) (m : Move) (r : Renderer) → IsOrphan h r → IsOrphan h (show_move m r)
unfolding show_move add_label
show_move-IsOrphan h m r v =
    let key = edge_key r.edge_els m.from_node_id m.to_node_id in
    if_ind (IsOrphan h) (is_some (lookup key r.edge_els))
      (place_label-IsOrphan h key m (position m.from_node_id) (position m.to_node_id) _ (record {
        shown = v.shown;
        unreferenced =
            refers-adjust_keep h key (mark_edge m) r.edge_els (λ el. unfold mark_edge in refl)
            ∙ v.unreferenced;
        old = v.old;
      }))
      v

pub show_moves-IsOrphan :
    (h : ℕ) (ms : List Move) (r : Renderer) → IsOrphan h r → IsOrphan h (show_moves ms r)
unfolding show_moves
show_moves-IsOrphan h [] r v = v
show_moves-IsOrphan h (m ∷ ms) r v =
    show_moves-IsOrphan h ms (show_move m r) (show_move-IsOrphan h m r v)

-- A label that no edge refers to stays in the SVG, unreferenced, whatever states come.
pub update_state-IsOrphan :
    (h : ℕ) (s : StateView) (r : Renderer) → IsOrphan h r → IsOrphan h (update_state s r)
unfolding update_state clear_pending
update_state-IsOrphan h s r v =
    let cleared : IsOrphan h (clear_pending (record r { nodes = paint_nodes s.nodes r.nodes })) =
      record {
        shown = present-drop_labels h r.edge_els r.labels v.unreferenced ∙ v.shown;
        unreferenced = refers-clear h r.edge_els;
        old = v.old;
      } in
    let painted = clear_pending (record r { nodes = paint_nodes s.nodes r.nodes }) in
    let moved = show_moves-IsOrphan h s.my_pending_moves painted cleared in
    record {
      shown = moved.shown;
      unreferenced = refers-update_edges h s.edges _ ∙ moved.unreferenced;
      old = moved.old;
    }
