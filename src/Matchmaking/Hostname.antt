-- ===== src/Matchmaking/Hostname.antt =====
-- `hostname.replace(/\/+$/, "")` in the constructors of the service clients.
use hax_war.Base.{
  ℕ, zero, suc, ◌==◌, ◌≡◌, refl, ap, Bool, false, [], ◌∷◌, ◌++◌, if◌then◌else◌, Text,
}

-- A character before a text that is stripped already.
abbrev before_stripped : ℕ → Text → Text
before_stripped c [] = if c == b'/' then [] else c ∷ []
before_stripped c (d ∷ t) = c ∷ d ∷ t

-- `hostname.replace(/\/+$/, "")`.
unfoldable pub strip_slashes : Text → Text
strip_slashes [] = []
strip_slashes (c ∷ s) = before_stripped c (strip_slashes s)

abbrev pub slashes : ℕ → Text
slashes zero = []
slashes (suc n) = b'/' ∷ slashes n

abbrev pub ends_with_slash : Text → Bool
ends_with_slash [] = false
ends_with_slash (c ∷ []) = c == b'/'
ends_with_slash (c ∷ d ∷ t) = ends_with_slash (d ∷ t)

strip_slashes-slashes : (n : ℕ) → strip_slashes (slashes n) ≡ []
unfolding strip_slashes
strip_slashes-slashes zero = refl
strip_slashes-slashes (suc n) = rw (strip_slashes-slashes n)

-- All the slashes at the end go, and nothing else.
pub strip_slashes_lem :
    (h : Text) (n : ℕ) → ends_with_slash h ≡ false → strip_slashes (h ++ slashes n) ≡ h
unfolding strip_slashes
strip_slashes_lem [] n e = strip_slashes-slashes n
strip_slashes_lem (c ∷ []) n e = rw (strip_slashes-slashes n) (rw e)
strip_slashes_lem (c ∷ d ∷ t) n e = ap (before_stripped c) (strip_slashes_lem (d ∷ t) n e)
