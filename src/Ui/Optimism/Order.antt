-- ===== src/Ui/Optimism/Order.antt =====
-- The local state of `handleStateUpdate` does not depend on the order in which the server lists its
-- nodes, edges and moves.
use mathlib.Core.HLevel.{¬_prop}
use mathlib.Core.List.Permᴰ
use mathlib.Core.List.{
  Permᴰ, Pairwise, Pairwise-map, rel_of_Pairwise-cons, Pairwise-cons, mem-cons_self,
}
use hax_war.Base.{
  ℕ, ◌≡◌, ◌≢◌, ◌↔◌, refl, sym, ◌∙◌, ap, subst, ==_iff, Bool, not, ◌||◌, ◌&&◌, List, [], ◌∷◌, ◌==◌,
  filter, ◌+◌, any, map, ltb, Bool-cases, inl, inr, arith,
}
use hax_war.Protocol.{NodeView, Move, StateView}
use hax_war.Renderer.Loops.{OtherNode}
use hax_war.Renderer.Order.{SameBut}
use hax_war.Ui.Optimism.{same_order, keep_moves, spend_at, apply_move, apply_moves, local_state}

distinct_ids :
    {ns : List NodeView}
    → Pairwise (λ i j. i ≢ j) (map (λ (n : NodeView). n.id) ns) ↔ Pairwise OtherNode ns
distinct_ids = Pairwise-map {R = λ (i j : ℕ). i ≢ j} (λ i j. ¬_prop) (λ (n : NodeView). n.id)

module _ (id count : ℕ) where
  spend_at-swap :
      (a b : NodeView) (ns : List NodeView)
      → OtherNode a b
      → Permᴰ (spend_at id count (a ∷ b ∷ ns)) (spend_at id count (b ∷ a ∷ ns))
  unfolding spend_at
  spend_at-swap a b ns other = elim (Bool-cases (a.id == id)) [
    | inl hit ↦ elim (Bool-cases (b.id == id)) [
      | inl too ↦ absurd (other ((==_iff a.id id).0 hit ∙ sym ((==_iff b.id id).0 too)))
      | inr miss ↦ rw (hit, miss) (Permᴰ.swap refl refl)
    ]
    | inr miss ↦ elim (Bool-cases (b.id == id)) [
      | inl hit ↦ rw (hit, miss) (Permᴰ.swap refl refl)
      | inr too ↦ rw (miss, too) (Permᴰ.swap refl refl)
    ]
  ]

  spend_at-cons :
      (a : NodeView) (ns ks : List NodeView)
      → Permᴰ ns ks
      → Permᴰ (spend_at id count ns) (spend_at id count ks)
      → Permᴰ (spend_at id count (a ∷ ns)) (spend_at id count (a ∷ ks))
  unfolding spend_at
  spend_at-cons a ns ks p q = elim (Bool-cases (a.id == id)) [
    | inl hit ↦ rw hit (Permᴰ.cons refl p)
    | inr miss ↦ rw miss (Permᴰ.cons refl q)
  ]

  spend_at-Permᴰ :
      {ns ks : List NodeView}
      → Permᴰ ns ks
      → Pairwise OtherNode ns
      → Permᴰ (spend_at id count ns) (spend_at id count ks)
  unfolding spend_at
  spend_at-Permᴰ Permᴰ.nil d = Permᴰ.nil
  spend_at-Permᴰ (Permᴰ.cons {a = a} {l₁ = l₁} {l₂ = l₂} e p) d =
      subst (λ b. Permᴰ (spend_at id count (a ∷ l₁)) (spend_at id count (b ∷ l₂))) e
        (spend_at-cons a l₁ l₂ p (spend_at-Permᴰ p (Pairwise-cons.0 d).1))
  spend_at-Permᴰ (Permᴰ.swap {a = a} {b = b} {l = l} e f) d =
      subst (λ (ks : List NodeView). Permᴰ (spend_at id count (a ∷ b ∷ l)) (spend_at id count ks))
        (λ i. f i ∷ e i ∷ l) (spend_at-swap a b l (rel_of_Pairwise-cons d mem-cons_self))
  spend_at-Permᴰ (Permᴰ.trans p q) d =
      Permᴰ.trans (spend_at-Permᴰ p d)
        (spend_at-Permᴰ q (Permᴰ.pairwise (λ v w. ¬_prop) (λ v w other e. other (sym e)) p d))

  ids-spend_at : (ns : List NodeView) → map (λ n. n.id) (spend_at id count ns) ≡ map (λ n. n.id) ns
  unfolding spend_at
  ids-spend_at [] = refl
  ids-spend_at (n ∷ ns) = elim (Bool-cases (n.id == id)) [
    | inl hit ↦ rw hit refl
    | inr miss ↦ rw miss (ap (◌∷◌ n.id) (ids-spend_at ns))
  ]

  distinct-spend_at :
      (ns : List NodeView) → Pairwise OtherNode ns → Pairwise OtherNode (spend_at id count ns)
  distinct-spend_at ns d =
      distinct_ids.0 (subst (Pairwise (λ i j. i ≢ j)) (sym (ids-spend_at ns)) (distinct_ids.1 d))

apply_move-SameBut :
    (m : Move) (s t : StateView) → SameBut s t → SameBut (apply_move m s) (apply_move m t)
unfolding apply_move
apply_move-SameBut m s t v = record {
  nodes = spend_at-Permᴰ m.from_node_id m.unit_count v.nodes v.distinct_nodes;
  edges = v.edges;
  moves = Permᴰ.append_right (m ∷ []) v.moves;
  distinct_nodes = distinct-spend_at m.from_node_id m.unit_count s.nodes v.distinct_nodes;
  distinct_edges = v.distinct_edges;
}

apply_moves-SameBut :
    (ms : List Move) (s t : StateView) → SameBut s t → SameBut (apply_moves ms s) (apply_moves ms t)
unfolding apply_moves
apply_moves-SameBut [] s t v = v
apply_moves-SameBut (m ∷ ms) s t v =
    apply_moves-SameBut ms (apply_move m s) (apply_move m t) (apply_move-SameBut m s t v)

pub local_state-SameBut :
    (opts : List Move) (s t : StateView)
    → SameBut s t
    → SameBut (local_state opts s) (local_state opts t)
unfolding local_state
local_state-SameBut opts s t v =
    let w = apply_moves-SameBut opts s t v in
    record {
      nodes = w.nodes;
      edges = w.edges;
      moves = w.moves;
      distinct_nodes = w.distinct_nodes;
      distinct_edges = w.distinct_edges;
    }

or_swap : (a b c : Bool) → (a || (b || c)) ≡ (b || (a || c))
or_swap a b c = ground arith

any-Permᴰ : (f : Move → Bool) {ms ns : List Move} → Permᴰ ms ns → any f ms ≡ any f ns
any-Permᴰ f Permᴰ.nil = refl
any-Permᴰ f (Permᴰ.cons e p) = λ i. f (e i) || any-Permᴰ f p i
any-Permᴰ f (Permᴰ.swap {a = a} {b = b} {l = l} e g) =
    or_swap (f a) (f b) (any f l) ∙ λ i. f (g i) || (f (e i) || any f l)
any-Permᴰ f (Permᴰ.trans p q) = any-Permᴰ f p ∙ any-Permᴰ f q

-- The same optimistic moves are kept.
pub keep_moves_same :
    (s t : StateView)
    → SameBut s t
    → (now : ℕ) (opts : List Move) → keep_moves s now opts ≡ keep_moves t now opts
unfolding keep_moves
keep_moves_same s t v now opts = λ i.
    filter (λ m. not (any-Permᴰ (λ k. same_order k m) v.moves i) && ltb now (m.timestamp + 3000))
      opts
