-- ===== src/Matchmaking.antt =====
-- The messages of matchmaking.proto, as the generated part of generated/matchmaking_bundle.js
-- reads and writes them. The protobuf library is a parameter: what the generated code calls of
-- its reader and writer.
pub mod Queue
pub mod Status
pub mod Updates
pub mod Rooms
pub mod Binary
pub mod Kinds
pub mod Hostname
pub mod Service
pub mod Objects
pub mod Tagged
mod Tests
use hax_war.Base.{
  ℕ, zero, suc, ◌<◌, ◌≡◌, refl, ◌∙◌, ap, Bool, true, false, Option, none, some, List, [], ◌∷◌, ◌++◌,
  if◌then◌else◌, Text,
}
use hax_war.Base.Int.{ℤ, pos, negsuc}

-- The library's encoding of one value, of a message as its fields in their order, up to the end of
-- its group, and of those as the bytes of `getResultBuffer` and `new BinaryReader`.
pub record Wire : Type 1 where
  pub Raw : Type 0
  pub Bytes : Type 0
  pub write_string : Text → Raw
  pub read_string : Raw → Text
  pub write_int32 : ℤ → Raw
  pub read_int32 : Raw → ℤ
  pub write_enum : ℤ → Raw
  pub read_enum : Raw → ℤ
  pub write_bool : Bool → Raw
  pub read_bool : Raw → Bool
  pub write_message : List (ℕ × Raw) → Raw
  pub read_message : Raw → List (ℕ × Raw)
  pub result_buffer : List (ℕ × Raw) → Bytes
  pub new_reader : Bytes → List (ℕ × Raw)

-- Of 32 bits, with its sign.
abbrev pub IsInt32 : ℤ → Type 0
IsInt32 (pos n) = n < 2147483648
IsInt32 (negsuc n) = n < 2147483648

-- What was written is read back.
pub record IsFaithful (w : Wire) : Type 0 where
  pub string : (t : Text) → w.read_string (w.write_string t) ≡ t
  pub int32 : (n : ℤ) → IsInt32 n → w.read_int32 (w.write_int32 n) ≡ n
  pub enum : (n : ℤ) → IsInt32 n → w.read_enum (w.write_enum n) ≡ n
  pub bool : (b : Bool) → w.read_bool (w.write_bool b) ≡ b
  pub message : (fs : List (ℕ × w.Raw)) → w.read_message (w.write_message fs) ≡ fs
  pub buffer : (fs : List (ℕ × w.Raw)) → w.new_reader (w.result_buffer fs) ≡ fs

module _ (w : Wire) where
  -- `if (f.length > 0)`, `if (f !== 0)` and `if (f)` before a value is written.
  abbrev pub put_string : ℕ → Text → List (ℕ × w.Raw)
  put_string n [] = []
  put_string n (c ∷ t) = (n, w.write_string (c ∷ t)) ∷ []

  abbrev pub put_int32 : ℕ → ℤ → List (ℕ × w.Raw)
  put_int32 n (pos zero) = []
  put_int32 n (pos (suc k)) = (n, w.write_int32 (pos (suc k))) ∷ []
  put_int32 n (negsuc k) = (n, w.write_int32 (negsuc k)) ∷ []

  abbrev pub put_enum : ℕ → ℤ → List (ℕ × w.Raw)
  put_enum n (pos zero) = []
  put_enum n (pos (suc k)) = (n, w.write_enum (pos (suc k))) ∷ []
  put_enum n (negsuc k) = (n, w.write_enum (negsuc k)) ∷ []

  -- `if (f != null)`.
  abbrev pub put_message : {M : Type 0} → ℕ → (M → List (ℕ × w.Raw)) → Option M → List (ℕ × w.Raw)
  put_message n ser none = []
  put_message n ser (some m) = (n, w.write_message (ser m)) ∷ []

  abbrev pub put_bool : ℕ → Bool → List (ℕ × w.Raw)
  put_bool n false = []
  put_bool n true = (n, w.write_bool true) ∷ []

module _ (w : Wire) {M : Type 0} (step : ℕ → w.Raw → M → M) where
  -- The loop of `deserializeBinaryFromReader`.
  unfoldable pub read_fields : List (ℕ × w.Raw) → M → M
  read_fields [] m = m
  read_fields ((n, raw) ∷ fs) m = read_fields fs (step n raw m)

  read_fields-append :
      (fs gs : List (ℕ × w.Raw)) (m : M)
      → read_fields (fs ++ gs) m ≡ read_fields gs (read_fields fs m)
  unfolding read_fields
  read_fields-append [] gs m = refl
  read_fields-append ((n, raw) ∷ fs) gs m = read_fields-append fs gs (step n raw m)

  -- A part of the fields, and then the rest.
  pub read_then :
      (fs gs : List (ℕ × w.Raw)) (m : M) {m1 m2 : M}
      → read_fields fs m ≡ m1
      → read_fields gs m1 ≡ m2
      → read_fields (fs ++ gs) m ≡ m2
  read_then fs gs m h k = read_fields-append fs gs m ∙ ap (read_fields gs) h ∙ k

  -- A value that is written sets its field; one that is not is the field's default.
  pub read-string :
      (n : ℕ) (t : Text) (set : Text → M)
      → ((u : Text) → step n (w.write_string u) (set []) ≡ set u)
      → read_fields (put_string w n t) (set []) ≡ set t
  unfolding read_fields
  read-string n [] set h = refl
  read-string n (c ∷ t) set h = h (c ∷ t)

  pub read-int32 :
      (n : ℕ) (i : ℤ) (set : ℤ → M)
      → step n (w.write_int32 i) (set (pos 0)) ≡ set i
      → read_fields (put_int32 w n i) (set (pos 0)) ≡ set i
  unfolding read_fields
  read-int32 n (pos zero) set h = refl
  read-int32 n (pos (suc k)) set h = h
  read-int32 n (negsuc k) set h = h

  pub read-enum :
      (n : ℕ) (i : ℤ) (set : ℤ → M)
      → step n (w.write_enum i) (set (pos 0)) ≡ set i
      → read_fields (put_enum w n i) (set (pos 0)) ≡ set i
  unfolding read_fields
  read-enum n (pos zero) set h = refl
  read-enum n (pos (suc k)) set h = h
  read-enum n (negsuc k) set h = h

  pub read-message :
      {X : Type 0} (n : ℕ) (ser : X → List (ℕ × w.Raw)) (o : Option X) (set : Option X → M)
      → ((x : X) → step n (w.write_message (ser x)) (set none) ≡ set (some x))
      → read_fields (put_message w n ser o) (set none) ≡ set o
  unfolding read_fields
  read-message n ser none set h = refl
  read-message n ser (some x) set h = h x

  pub read-bool :
      (n : ℕ) (b : Bool) (set : Bool → M)
      → ((c : Bool) → step n (w.write_bool c) (set false) ≡ set c)
      → read_fields (put_bool w n b) (set false) ≡ set b
  unfolding read_fields
  read-bool n false set h = refl
  read-bool n true set h = h true
