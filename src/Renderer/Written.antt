-- ===== src/Renderer/Written.antt =====
-- The labels that `updateState` writes for the pending moves, and that their order does not matter.
use mathlib.Core.List.Permᴰ
use mathlib.Core.List.{Permᴰ, map-append}
use hax_war.Base.{
  nat_eq, pair_eq, ℕ, ◌≡◌, refl, sym, ◌∙◌, ap, subst, Option, none, some, List, [], ◌∷◌, ◌++◌, map,
  map_values, lookup, is_some, if◌then◌else◌, Bool-cases, inl, inr, append_assoc, append-nil,
}
use hax_war.Protocol.{Move}
use hax_war.Renderer.{Label, Renderer}
use hax_war.Renderer.Board.{Position, position}
use hax_war.Renderer.Strokes.{Edges, blank, show_moves-blank, has-map_values, edge_key-map_values}
use hax_war.Renderer.Update.{add_label, edge_key, new_label, place_label, show_move, show_moves}

-- What is seen of a label: not its handle.
abbrev pub seen : Label → Label
seen l = record l { handle = 0 }

abbrev put : Option Label → List Label → List Label
put none ls = ls
put (some l) ls = l ∷ ls

abbrev label_between : Move → Option Position → Option Position → Option Label
label_between m (some p) (some q) = some (new_label 0 p q m)
label_between m _ _ = none

-- The label of a move, if there is an edge for it.
abbrev label_of : Edges → Move → Option Label
label_of es m =
    if is_some (lookup (edge_key es m.from_node_id m.to_node_id) es)
    then label_between m (position m.from_node_id) (position m.to_node_id)
    else none

abbrev pub written : Edges → List Move → List Label
written es [] = []
written es (m ∷ ms) = put (label_of es m) (written es ms)

put-Permᴰ : (o : Option Label) {ls ks : List Label} → Permᴰ ls ks → Permᴰ (put o ls) (put o ks)
put-Permᴰ none p = p
put-Permᴰ (some l) p = Permᴰ.cons refl p

put-swap : (o q : Option Label) (ls : List Label) → Permᴰ (put o (put q ls)) (put q (put o ls))
put-swap none q ls = Permᴰ.refl (put q ls)
put-swap (some l) none ls = Permᴰ.refl (l ∷ ls)
put-swap (some l) (some k) ls = Permᴰ.swap refl refl

pub written-Permᴰ :
    (es : Edges) {ms ns : List Move} → Permᴰ ms ns → Permᴰ (written es ms) (written es ns)
written-Permᴰ es Permᴰ.nil = Permᴰ.nil
written-Permᴰ es (Permᴰ.cons {a = a} {l₁ = l₁} {l₂ = l₂} e p) =
    subst (λ (ks : List Label). Permᴰ (written es (a ∷ l₁)) ks)
      (λ i. put (label_of es (e i)) (written es l₂))
      (put-Permᴰ (label_of es a) (written-Permᴰ es p))
written-Permᴰ es (Permᴰ.swap {a = a} {b = b} {l = l} e f) =
    let ls = written es l in
    subst (λ (ks : List Label). Permᴰ (put (label_of es a) (put (label_of es b) ls)) ks)
      (λ i. put (label_of es (f i)) (put (label_of es (e i)) ls))
      (put-swap (label_of es a) (label_of es b) ls)
written-Permᴰ es (Permᴰ.trans p q) = Permᴰ.trans (written-Permᴰ es p) (written-Permᴰ es q)

place_label-labels :
    (key : ℕ × ℕ) (m : Move) (p q : Option Position) (r : Renderer)
    → map seen (place_label key m p q r).labels ≡ map seen r.labels ++ put (label_between m p q) []
unfolding place_label new_label
place_label-labels key m (some p) (some q) r =
    map-append seen r.labels (new_label r.next_label p q m ∷ [])
place_label-labels key m (some p) none r = sym (append-nil (map seen r.labels))
place_label-labels key m none q r = sym (append-nil (map seen r.labels))

show_move-labels :
    (m : Move) (r : Renderer)
    → map seen (show_move m r).labels
      ≡ map seen r.labels ++ put (label_of (map_values blank r.edge_els) m) []
unfolding show_move add_label
show_move-labels m r =
    let es = r.edge_els in
    let key = edge_key es m.from_node_id m.to_node_id in
    let p = position m.from_node_id in
    let q = position m.to_node_id in
    rw (edge_key-map_values blank es m.from_node_id m.to_node_id, has-map_values blank key es)
      (elim (Bool-cases (is_some (lookup key es))) [
        | inl here ↦ rw here (place_label-labels key m p q _)
        | inr missing ↦ rw missing (sym (append-nil (map seen r.labels)))
      ])

show_move-blank :
    (m : Move) (r : Renderer)
    → map_values blank (show_move m r).edge_els ≡ map_values blank r.edge_els
unfolding show_moves
show_move-blank m r = show_moves-blank (m ∷ []) r

put-append : (o : Option Label) (ls : List Label) → put o [] ++ ls ≡ put o ls
put-append none ls = refl
put-append (some l) ls = refl

-- The labels of the moves come after those that were there.
pub show_moves-labels :
    (ms : List Move) (r : Renderer)
    → map seen (show_moves ms r).labels
      ≡ map seen r.labels ++ written (map_values blank r.edge_els) ms
unfolding show_moves
show_moves-labels [] r = sym (append-nil (map seen r.labels))
show_moves-labels (m ∷ ms) r =
    let es = map_values blank r.edge_els in
    show_moves-labels ms (show_move m r)
    ∙ (λ i. show_move-labels m r i ++ written (show_move-blank m r i) ms)
    ∙ append_assoc (map seen r.labels) (put (label_of es m) []) (written es ms)
    ∙ ap (λ (ks : List Label). map seen r.labels ++ ks) (put-append (label_of es m) (written es ms))
