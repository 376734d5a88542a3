-- ===== src/Base/Orders.antt =====
-- Loops whose steps commute: the order of the list that they go through does not matter.
use hax_war.Base.Tests.{Bool-cases, is_some}
use hax_war.Base.Assoc.{Eq, lookup, adjust, beq_congr}
use mathlib.Core.Path.{◌≡◌, refl, sym, ap, ◌∙◌}
use mathlib.Core.Logic.{inl, inr}
use mathlib.Core.Bool.{true, false}
use mathlib.Core.List.{
  List, [], ◌∷◌, mem-cons_self, Permᴰ, Pairwise, Pairwise-cons, rel_of_Pairwise-cons,
}
use mathlib.Core.List.Permᴰ
use native.Mathlib.Omega.{arith}

module _ {ℓ κ} {V : Type ℓ} {S : Type κ} (step : V → S → S) where
  -- `vs.forEach(v => { step })`.
  abbrev pub for_each : List V → S → S
  for_each [] s = s
  for_each (v ∷ vs) s = for_each vs (step v s)

  -- Where the steps of related elements commute, a list of them may be gone through in any order.
  module _ {μ} {R : V → V → Type μ} (proper : (v w : V) → IsProp (R v w))
      (symmetric : (v w : V) → R v w → R w v)
      (commute : (v w : V) → R v w → (s : S) → step w (step v s) ≡ step v (step w s)) where
    pub for_each-Permᴰ :
        {vs ws : List V} → Permᴰ vs ws → Pairwise R vs → (s : S) → for_each vs s ≡ for_each ws s
    for_each-Permᴰ Permᴰ.nil c s = refl
    for_each-Permᴰ (Permᴰ.cons {a = a} {l₂ = l₂} e p) c s =
        for_each-Permᴰ p (Pairwise-cons.0 c).1 (step a s) ∙ ap (λ v. for_each l₂ (step v s)) e
    for_each-Permᴰ (Permᴰ.swap {a = a} {b = b} {l = l} e f) c s =
        ap (for_each l)
          (commute a b (rel_of_Pairwise-cons c mem-cons_self) s ∙ λ i. step (e i) (step (f i) s))
    for_each-Permᴰ (Permᴰ.trans p q) c s =
        for_each-Permᴰ p c s ∙ for_each-Permᴰ q (Permᴰ.pairwise proper symmetric p c) s

module _ {ℓ κ} {K : Type ℓ} {V : Type κ} ⦃e : Eq K⦄ where
  -- Changes at two keys commute, if they do where the keys are equal.
  pub adjust_comm :
      (k i : K) (f g : V → V)
      → (e.beq k i ≡ true → (v : V) → g (f v) ≡ f (g v))
      → (m : List (K × V)) → adjust i g (adjust k f m) ≡ adjust k f (adjust i g m)
  unfolding adjust
  adjust_comm k i f g same [] = refl
  adjust_comm k i f g same ((j, w) ∷ m) = elim (Bool-cases (e.beq j k)) [
    | inl hit ↦ elim (Bool-cases (e.beq j i)) [
      | inl too ↦
          rw (hit, too, hit) (ap (λ v. (j, v) ∷ m) (same (sym (beq_congr j k i hit) ∙ too) w))
      | inr miss ↦ rw (hit, miss, hit) refl
    ]
    | inr miss ↦ elim (Bool-cases (e.beq j i)) [
      | inl hit ↦ rw (miss, hit, miss) refl
      | inr too ↦ rw (miss, too, miss) (ap (◌∷◌ (j, w)) (adjust_comm k i f g same m))
    ]
  ]

  -- There is nothing to change at a missing key.
  pub adjust-missing :
      (k : K) (f : V → V) (m : List (K × V)) → is_some (lookup k m) ≡ false → adjust k f m ≡ m
  unfolding lookup adjust
  adjust-missing k f [] h = refl
  adjust-missing k f ((j, w) ∷ m) h = ground (arith, adjust-missing k f m)

  -- The second of two changes at a key may absorb the first.
  pub adjust_absorb :
      (k : K) (f g : V → V)
      → ((v : V) → f (g v) ≡ f v)
      → (m : List (K × V)) → adjust k f (adjust k g m) ≡ adjust k f m
  unfolding adjust
  adjust_absorb k f g same [] = refl
  adjust_absorb k f g same ((j, w) ∷ m) = elim (Bool-cases (e.beq j k)) [
    | inl hit ↦ rw (hit, hit) (ap (λ v. (j, v) ∷ m) (same w))
    | inr miss ↦ rw (miss, miss) (ap (◌∷◌ (j, w)) (adjust_absorb k f g same m))
  ]
