-- ===== src/Base/Assoc.antt =====
-- Objects used as dictionaries: association lists over keys with a Boolean equality.
use hax_war.Base.Tests.{◌==◌, ==_iff, if◌then◌else◌, Bool-cases}
use Prim.Native.Nat.{ℕ}
use mathlib.Core.Path.{◌≡◌, refl, sym, ap, ◌∙◌}
use mathlib.Core.Logic.{◌↔◌, inl, inr}
use mathlib.Core.Bool.{Bool, true, false, ◌&&◌}
use mathlib.Core.Option
use mathlib.Core.Option.{Option, none, some}
use mathlib.Core.List.{List, [], ◌∷◌}
use native.Mathlib.Omega.{arith}

pub record Eq {ℓ} (A : Type ℓ) : Type ℓ where
  pub beq : A → A → Bool
  pub beq_iff : (a b : A) → (beq a b ≡ true) ↔ (a ≡ b)

instance abbrev pub nat_eq : Eq ℕ
nat_eq = record { beq = ◌==◌; beq_iff = ==_iff }

-- Two nodes, as an edge's key `${from}-${to}` holds them.
abbrev pub pair_beq : ℕ × ℕ → ℕ × ℕ → Bool
pair_beq (a, b) (c, d) = a == c && b == d

pub pair_beq_iff : (p q : ℕ × ℕ) → (pair_beq p q ≡ true) ↔ (p ≡ q)
pair_beq_iff (a, b) (c, d) = ground arith

instance abbrev pub pair_eq : Eq (ℕ × ℕ)
pair_eq = record { beq = pair_beq; beq_iff = pair_beq_iff }

module _ {ℓ} {K : Type ℓ} ⦃e : Eq K⦄ where
  -- Where two keys are equal, tests against a third agree.
  pub beq_congr : (j k i : K) → e.beq j k ≡ true → e.beq j i ≡ e.beq k i
  beq_congr j k i h = ap (λ x. e.beq x i) ((e.beq_iff j k).0 h)

  pub beq_excl : (j k i : K) → e.beq j k ≡ false → e.beq j i ≡ true → e.beq k i ≡ false
  beq_excl j k i h g = elim (Bool-cases (e.beq k i)) [
    | inl t ↦ cc (h, (e.beq_iff j k).1 ((e.beq_iff j i).0 g ∙ sym ((e.beq_iff k i).0 t)))
    | inr f ↦ f
  ]

module _ {ℓ κ} {K : Type ℓ} {V : Type κ} ⦃e : Eq K⦄ where
  -- `m[k]`, `none` for `undefined`.
  unfoldable pub lookup : K → List (K × V) → Option V
  lookup k [] = none
  lookup k ((j, v) ∷ m) = if e.beq j k then some v else lookup k m

  -- `m[k] = v`.
  unfoldable pub insert : K → V → List (K × V) → List (K × V)
  insert k v [] = (k, v) ∷ []
  insert k v ((j, w) ∷ m) = if e.beq j k then (j, v) ∷ m else (j, w) ∷ insert k v m

  -- A change of the value at a key, if it is there.
  unfoldable pub adjust : K → (V → V) → List (K × V) → List (K × V)
  adjust k f [] = []
  adjust k f ((j, w) ∷ m) = if e.beq j k then (j, f w) ∷ m else (j, w) ∷ adjust k f m

  -- `Object.values(m).forEach(…)`.
  unfoldable pub map_values : (V → V) → List (K × V) → List (K × V)
  map_values f [] = []
  map_values f ((j, w) ∷ m) = (j, f w) ∷ map_values f m

  pub lookup-adjust :
      (k i : K) (f : V → V) (m : List (K × V))
      → lookup i (adjust k f m) ≡ (if e.beq k i then Option.map f (lookup i m) else lookup i m)
  unfolding lookup adjust
  lookup-adjust k i f [] = ground arith
  lookup-adjust k i f ((j, w) ∷ m) = elim (Bool-cases (e.beq j k)) [
    | inl hit ↦ rw hit (ground (arith, beq_congr j k i hit))
    | inr miss ↦ rw miss (ground (arith, beq_excl j k i miss, lookup-adjust k i f m))
  ]

  pub lookup-insert :
      (k i : K) (v : V) (m : List (K × V))
      → lookup i (insert k v m) ≡ (if e.beq k i then some v else lookup i m)
  unfolding lookup insert
  lookup-insert k i v [] = refl
  lookup-insert k i v ((j, w) ∷ m) = elim (Bool-cases (e.beq j k)) [
    | inl hit ↦ rw hit (ground (arith, beq_congr j k i hit))
    | inr miss ↦ rw miss (ground (arith, beq_excl j k i miss, lookup-insert k i v m))
  ]

  pub lookup-map_values :
      (f : V → V) (i : K) (m : List (K × V)) → lookup i (map_values f m) ≡ Option.map f (lookup i m)
  unfolding lookup map_values
  lookup-map_values f i [] = refl
  lookup-map_values f i ((j, w) ∷ m) = ground (arith, lookup-map_values f i m)
