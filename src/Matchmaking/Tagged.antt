-- ===== src/Matchmaking/Tagged.antt =====
-- A wire of tagged values, for the tests.
use hax_war.Base.{ℕ, ◌≡◌, refl, ap, Bool, false, List, [], ◌∷◌, Text}
use hax_war.Base.Int.{ℤ, pos}
use hax_war.Matchmaking.{Wire, IsFaithful}

mutual
  pub data Value : Type 0 where
    string_value : Text → Value
    number_value : ℤ → Value
    bool_value : Bool → Value
    group_value : Fields → Value

  pub data Fields : Type 0 where
    no_fields : Fields
    field : ℕ → Value → Fields → Fields

abbrev pub pack : List (ℕ × Value) → Fields
pack [] = no_fields
pack ((n, v) ∷ fs) = field n v (pack fs)

abbrev pub unpack : Fields → List (ℕ × Value)
unpack no_fields = []
unpack (field n v fs) = (n, v) ∷ unpack fs

unpack-pack : (fs : List (ℕ × Value)) → unpack (pack fs) ≡ fs
unpack-pack [] = refl
unpack-pack ((n, v) ∷ fs) = ap (◌∷◌ (n, v)) (unpack-pack fs)

abbrev pub string_of : Value → Text
string_of (string_value t) = t
string_of _ = []

abbrev pub number_of : Value → ℤ
number_of (number_value i) = i
number_of _ = pos 0

abbrev pub bool_of : Value → Bool
bool_of (bool_value b) = b
bool_of _ = false

abbrev pub fields_of : Value → List (ℕ × Value)
fields_of (group_value fs) = unpack fs
fields_of _ = []

abbrev pub tagged : Wire
tagged = record {
  Raw = Value;
  Bytes = Fields;
  write_string = string_value;
  read_string = string_of;
  write_int32 = number_value;
  read_int32 = number_of;
  write_enum = number_value;
  read_enum = number_of;
  write_bool = bool_value;
  read_bool = bool_of;
  write_message = λ fs. group_value (pack fs);
  read_message = fields_of;
  result_buffer = pack;
  new_reader = unpack;
}

pub tagged-IsFaithful : IsFaithful tagged
tagged-IsFaithful = record {
  string = λ t. refl;
  int32 = λ n h. refl;
  enum = λ n h. refl;
  bool = λ b. refl;
  message = unpack-pack;
  buffer = unpack-pack;
}
