-- ===== src/Base/Texts.antt =====
-- Text as its code points. `show` is the decimal form that a template literal gives a number, and
-- `includes` is `String.prototype.includes`.
use Prim.Native.Nat.{ℕ, zero, suc, ◌+◌, ◌-◌, ◌*◌, ◌/◌, ◌%◌, ◌<◌}
use mathlib.Core.Path.{◌≡◌, ap, ◌∙◌}
use native.Mathlib.Omega.{arith}
use Prim.Native.Char.{code}
use Prim.Native.String.{String}
use mathlib.Core.Bool.{Bool, true, false, ◌&&◌, ◌||◌}
use mathlib.Core.List.{List, [], ◌∷◌, ◌++◌}
use hax_war.Base.Tests.{ltb, ◌==◌, if◌then◌else◌, if_cases}
use hax_war.Base.Int.{ℤ, pos, negsuc}

abbrev pub Text : Type 0
Text = List ℕ

abbrev pub txt : String → Text
txt String.[] = []
txt (String.◌∷◌ c s) = code c ∷ txt s

show_digits : ℕ → ℕ → Text → Text
show_digits zero n acc = acc
show_digits (suc fuel) n acc =
    let rest = show_digits fuel (n / 10) ((n % 10 + 48) ∷ acc) in
    if ltb n 10 then (n + 48) ∷ acc else rest

-- A number has at most as many digits as its successor counts (`read_decimal-show`).
unfoldable pub show : ℕ → Text
unfolding show_digits
show n = show_digits (suc n) n []

unfoldable pub show_ℤ : ℤ → Text
unfolding show
show_ℤ (pos n) = show n
show_ℤ (negsuc n) = txt "-" ++ show (suc n)

abbrev pub text_eq : Text → Text → Bool
text_eq [] [] = true
text_eq (c ∷ s) (d ∷ t) = c == d && text_eq s t
text_eq _ _ = false

abbrev pub starts_with : Text → Text → Bool
starts_with s [] = true
starts_with [] (d ∷ t) = false
starts_with (c ∷ s) (d ∷ t) = c == d && starts_with s t

unfoldable pub includes : Text → Text → Bool
includes [] t = starts_with [] t
includes (c ∷ s) t = starts_with (c ∷ s) t || includes s t

-- A character with the variation selector U+FE0F, which asks for its colour form.
abbrev pub emoji : String → Text
emoji s = txt s ++ (65039 ∷ [])

-- The parts of a template literal.
abbrev pub concat : List Text → Text
concat [] = []
concat (t ∷ ts) = t ++ concat ts

-- The number that digits spell after a number.
abbrev pub read_decimal : ℕ → Text → ℕ
read_decimal n [] = n
read_decimal n (c ∷ s) = read_decimal (n * 10 + (c - 48)) s

read_decimal-show_digits :
    (fuel n : ℕ) (acc : Text)
    → n < fuel
    → read_decimal 0 (show_digits fuel n acc) ≡ read_decimal n acc
unfolding show_digits
read_decimal-show_digits zero n acc lt = absurd (omega arith)
read_decimal-show_digits (suc fuel) n acc lt =
    if_cases (λ t. read_decimal 0 t ≡ read_decimal n acc) (ltb n 10)
      (λ short. ap (λ m. read_decimal m acc) (omega arith))
      (λ long.
        let smaller : n / 10 < fuel = ground arith in
        read_decimal-show_digits fuel (n / 10) ((n % 10 + 48) ∷ acc) smaller
        ∙ ap (λ m. read_decimal m acc) (omega arith))

-- The fuel of `show` is enough: the digits spell the number.
pub read_decimal-show : (n : ℕ) → read_decimal 0 (show n) ≡ n
unfolding show
read_decimal-show n = read_decimal-show_digits (suc n) n [] (omega arith)
