-- ===== src/App/Form.antt =====
-- `String.prototype.trim`, which the login form uses.
use hax_war.Base.{
  ℕ, ◌≡◌, refl, ap, ◌∙◌, subst, Bool, true, false, [], ◌∷◌, ◌++◌, any, ◌==◌, ◌||◌, leb, ◌&&◌,
  if◌then◌else◌, if_cases, Text, All, Option, none, some,
}

-- The white space and line terminators of the language.
abbrev pub is_space : ℕ → Bool
is_space c =
    (leb 9 c && leb c 13)
    || ((leb 8192 c && leb c 8202)
        || any (λ d. c == d) (32 ∷ 160 ∷ 5760 ∷ 8232 ∷ 8233 ∷ 8239 ∷ 8287 ∷ 12288 ∷ 65279 ∷ []))

unfoldable pub trim_start : Text → Text
trim_start [] = []
trim_start (c ∷ s) = if is_space c then trim_start s else c ∷ s

-- A character before a text that is trimmed at its end already.
abbrev pub before_trimmed : ℕ → Text → Text
before_trimmed c [] = if is_space c then [] else c ∷ []
before_trimmed c (d ∷ t) = c ∷ d ∷ t

unfoldable pub trim_end : Text → Text
trim_end [] = []
trim_end (c ∷ s) = before_trimmed c (trim_end s)

unfoldable pub trim_name : Text → Text
unfolding trim_start trim_end
trim_name s = trim_end (trim_start s)

abbrev pub IsSpace : ℕ → Type 0
IsSpace c = is_space c ≡ true

abbrev pub first : Text → Option ℕ
first [] = none
first (c ∷ s) = some c

abbrev pub last : Text → Option ℕ
last [] = none
last (c ∷ []) = some c
last (c ∷ d ∷ s) = last (d ∷ s)

-- No character, or one that is not white space.
abbrev pub IsInk : Option ℕ → Type 0
IsInk none = Unit {0}
IsInk (some c) = is_space c ≡ false

-- A text with white space around it.
pub record IsTrimmed (s t : Text) : Type 0 where
  pub front : Text
  pub back : Text
  pub parts : s ≡ front ++ (t ++ back)
  pub front_space : All IsSpace front
  pub back_space : All IsSpace back
  pub first_ink : IsInk (first t)
  pub last_ink : IsInk (last t)

abbrev StartParts : Text → Text → Type 0
StartParts s t = (front : Text) × (s ≡ front ++ t) × All IsSpace front × IsInk (first t)

trim_start_lem : (s : Text) → StartParts s (trim_start s)
unfolding trim_start
trim_start_lem [] = ([], refl, tt, tt)
trim_start_lem (c ∷ s) =
    if_cases (StartParts (c ∷ s)) (is_space c)
      (λ yes. let (front, e, h, ink) = trim_start_lem s in (c ∷ front, ap (◌∷◌ c) e, (yes, h), ink))
      (λ no. ([], refl, tt, no))

abbrev EndParts : Text → Text → Type 0
EndParts s t = (back : Text) × (s ≡ t ++ back) × All IsSpace back × IsInk (last t)

before_trimmed_lem : (c : ℕ) (s t : Text) → EndParts s t → EndParts (c ∷ s) (before_trimmed c t)
before_trimmed_lem c s [] (back, e, h, ink) =
    if_cases (EndParts (c ∷ s)) (is_space c) (λ yes. (c ∷ back, ap (◌∷◌ c) e, (yes, h), tt))
      (λ no. (back, ap (◌∷◌ c) e, h, no))
before_trimmed_lem c s (d ∷ t) (back, e, h, ink) = (back, ap (◌∷◌ c) e, h, ink)

trim_end_lem : (s : Text) → EndParts s (trim_end s)
unfolding trim_end
trim_end_lem [] = ([], refl, tt, tt)
trim_end_lem (c ∷ s) = before_trimmed_lem c s (trim_end s) (trim_end_lem s)

-- What is trimmed at its end keeps its first character, unless nothing is left.
first-append : (t back : Text) → IsInk (first (t ++ back)) → IsInk (first t)
first-append [] back ink = tt
first-append (c ∷ t) back ink = ink

-- A text is the white space before it, what trim leaves, and the white space after it; and what
-- trim leaves neither starts nor ends with white space.
pub trim_name-IsTrimmed : (s : Text) → IsTrimmed s (trim_name s)
unfolding trim_name
trim_name-IsTrimmed s =
    let (front, e, h, ink) = trim_start_lem s in
    let (back, e', h', ink') = trim_end_lem (trim_start s) in
    record {
      front = front;
      back = back;
      parts = e ∙ ap (λ t. front ++ t) e';
      front_space = h;
      back_space = h';
      first_ink = first-append (trim_end (trim_start s)) back (subst (λ t. IsInk (first t)) e' ink);
      last_ink = ink';
    }
