-- ===== src/Base/Picks.antt =====
-- The elements of a list that have a property, in their order.
use hax_war.Base.Lists.{filter}
use hax_war.Base.Tests.{Bool-cases}
use mathlib.Core.Path.{◌≡◌}
use mathlib.Core.Logic.{◌↔◌, inl, inr}
use mathlib.Core.Bool.{Bool, true}
use mathlib.Core.List.{List, [], ◌∷◌}

module _ {ℓ κ} {A : Type ℓ} (P : A → Type κ) where
  -- The second list holds those of the first that have the property.
  pub data Picks : List A → List A → Type (ℓ ⊔ κ) where
    done : Picks [] []
    taken : {x : A} {xs ys : List A} → P x → Picks xs ys → Picks (x ∷ xs) (x ∷ ys)
    left_out : {x : A} {xs ys : List A} → ¬ P x → Picks xs ys → Picks (x ∷ xs) ys

  pub filter-Picks :
      (f : A → Bool) → ((x : A) → (f x ≡ true) ↔ P x) → (xs : List A) → Picks xs (filter f xs)
  filter-Picks f iff [] = done
  filter-Picks f iff (x ∷ xs) = elim (Bool-cases (f x)) [
    | inl has ↦ rw has (taken ((iff x).0 has) (filter-Picks f iff xs))
    | inr lacks ↦ rw lacks (left_out (λ p. cc (lacks, (iff x).1 p)) (filter-Picks f iff xs))
  ]
