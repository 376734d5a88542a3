-- ===== src/Ui/Trim.antt =====
-- `while (x.children.length > n) { x.removeChild(x.lastChild); }` of gameUI.js.
use hax_war.Base.{
  ℕ, zero, suc, ◌+◌, ◌-◌, ◌≤◌, ◌<◌, ◌≡◌, refl, sym, subst, length-take-le, ap, ◌∙◌, List, [], ◌∷◌,
  take, length, ltb, if◌then◌else◌, if_cases, arith,
}

module _ {ℓ} {A : Type ℓ} where
  unfoldable pub remove_last : List A → List A
  remove_last [] = []
  remove_last (x ∷ []) = []
  remove_last (x ∷ y ∷ xs) = x ∷ remove_last (y ∷ xs)

  -- The loop, at most so many times.
  unfoldable pub trim_loop : ℕ → ℕ → List A → List A
  unfolding remove_last
  trim_loop zero n xs = xs
  trim_loop (suc fuel) n xs =
      let rest = trim_loop fuel n (remove_last xs) in if ltb n (length xs) then rest else xs

  -- Each turn removes a child, so as many turns as children are enough (`trim_loop-take`).
  unfoldable pub trim : ℕ → List A → List A
  unfolding trim_loop
  trim n xs = trim_loop (length xs) n xs

  length-remove_last : (xs : List A) → length (remove_last xs) ≡ length xs - 1
  unfolding remove_last
  length-remove_last [] = omega arith
  length-remove_last (x ∷ []) = omega arith
  length-remove_last (x ∷ y ∷ xs) = omega (arith, length-remove_last (y ∷ xs))

  take-remove_last : (n : ℕ) (xs : List A) → n < length xs → take n (remove_last xs) ≡ take n xs
  unfolding remove_last
  take-remove_last zero xs lt = refl
  take-remove_last (suc n) [] lt = refl
  take-remove_last (suc n) (x ∷ []) lt = absurd (omega arith)
  take-remove_last (suc n) (x ∷ y ∷ xs) lt = ap (◌∷◌ x) (take-remove_last n (y ∷ xs) (omega arith))

  take-all : (n : ℕ) (xs : List A) → length xs ≤ n → take n xs ≡ xs
  take-all zero [] le = refl
  take-all zero (x ∷ xs) le = absurd (omega arith)
  take-all (suc n) [] le = refl
  take-all (suc n) (x ∷ xs) le = ap (◌∷◌ x) (take-all n xs (omega arith))

  trim_loop-take :
      (fuel n : ℕ) (xs : List A) → length xs ≤ fuel + n → trim_loop fuel n xs ≡ take n xs
  unfolding trim_loop
  trim_loop-take zero n xs le = sym (take-all n xs (omega arith))
  trim_loop-take (suc fuel) n xs le =
      if_cases (λ ys. ys ≡ take n xs) (ltb n (length xs))
        (λ over.
          trim_loop-take fuel n (remove_last xs) (omega (arith, length-remove_last xs))
          ∙ take-remove_last n xs (ground arith))
        (λ fits. sym (take-all n xs (ground arith)))

  -- The loop leaves the first n children, whatever it starts from.
  pub trim-take : (n : ℕ) (xs : List A) → trim n xs ≡ take n xs
  unfolding trim
  trim-take n xs = trim_loop-take (length xs) n xs (omega arith)

  pub length-trim-le : (n : ℕ) (xs : List A) → length (trim n xs) ≤ n
  length-trim-le n xs = subst (λ ys. length ys ≤ n) (sym (trim-take n xs)) (length-take-le n xs)

  take-take : (n : ℕ) (xs : List A) → take n (take (suc n) xs) ≡ take n xs
  take-take zero xs = refl
  take-take (suc n) [] = refl
  take-take (suc n) (x ∷ xs) = ap (◌∷◌ x) (take-take n xs)

  pub take_cons-take : (n : ℕ) (x : A) (xs : List A) → take n (x ∷ take n xs) ≡ take n (x ∷ xs)
  take_cons-take zero x xs = refl
  take_cons-take (suc n) x xs = ap (◌∷◌ x) (take-take n xs)
