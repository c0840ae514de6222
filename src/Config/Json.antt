-- ===== src/Config/Json.antt =====
-- What src/connectBase.hpp reads of a JSON document. boost::json parses the text; of the values in an
-- object only the kind and the content of a number, a text or a truth value matter.
use Prim.Native.String.{String}
use text.Mathlib.Text
use text.Mathlib.TextEquality.{eq_iff}
use ros2_connect.Prelude.{
  ℕ, ◌-◌, ◌%◌, ◌^◌, Bool, ◌||◌, Option, none, some, List, ltb, if◌then◌else◌, ◌>>=◌, Key, lookup, ℤ,
  pos, negsuc,
}

-- The kinds of `boost::json::value` that are told apart.
pub data Value : Type 0 where
  int64 : ℤ → Value
  string : String → Value
  boolean : Bool → Value
  other : Value

abbrev pub Fields : Type 0
Fields = List (String × Value)

-- What `boost::json::parse` makes of a text: `malformed` is its exception.
pub data Document : Type 0 where
  malformed not_object : Document
  object : Fields → Document

instance abbrev pub string_key : Key String
string_key = record { beq = Text.◌==◌; beq_iff = eq_iff }

-- `value.is_object()` with `as_object()`.
abbrev pub as_object : Document → Option Fields
as_object malformed = none
as_object not_object = none
as_object (object fields) = some fields

abbrev pub as_int64 : Option Value → Option ℤ
as_int64 none = none
as_int64 (some (int64 z)) = some z
as_int64 (some (string s)) = none
as_int64 (some (boolean b)) = none
as_int64 (some other) = none

abbrev pub as_string : Option Value → Option String
as_string none = none
as_string (some (int64 z)) = none
as_string (some (string s)) = some s
as_string (some (boolean b)) = none
as_string (some other) = none

abbrev pub as_bool : Option Value → Option Bool
as_bool none = none
as_bool (some (int64 z)) = none
as_bool (some (string s)) = none
as_bool (some (boolean b)) = some b
as_bool (some other) = none

-- `json[key]` with the test of its kind.
unfoldable pub int_field : String → Fields → Option ℤ
int_field key fields = as_int64 (lookup key fields)

unfoldable pub string_field : String → Fields → Option String
string_field key fields = as_string (lookup key fields)

unfoldable pub bool_field : String → Fields → Option Bool
bool_field key fields = as_bool (lookup key fields)

-- A field that may be missing: the default, or its parsed text.
abbrev pub optional_value {ℓ} : {A : Type ℓ} → A → (String → Option A) → Option Value → Option A
optional_value d parse none = some d
optional_value d parse (some v) = as_string (some v) >>= parse

unfoldable pub optional_field {ℓ} :
    {A : Type ℓ} → String → A → (String → Option A) → Fields → Option A
optional_field key d parse fields = optional_value d parse (lookup key fields)

-- A conversion of an `int64_t` to an unsigned type of `w` bits.
abbrev pub to_unsigned : ℕ → ℤ → ℕ
to_unsigned w (pos n) = n % 2 ^ w
to_unsigned w (negsuc n) = 2 ^ w - 1 - n % 2 ^ w

-- The number, if it lies between the bounds.
abbrev pub between : ℕ → ℕ → ℤ → Option ℕ
between low high (pos n) = if ltb n low || ltb high n then none else some n
between low high (negsuc n) = none

-- The tests of a number that is stored as `uint8_t` or `uint32_t`.
abbrev pub as_uint8 : ℤ → Option ℕ
as_uint8 z = between 0 255 z

abbrev pub as_uint32 : ℤ → Option ℕ
as_uint32 z = between 0 4294967295 z

-- The tests of a number that is stored as `int32_t`.
abbrev pub as_int32 : ℤ → Option ℤ
as_int32 (pos n) = if ltb 2147483647 n then none else some (pos n)
as_int32 (negsuc n) = if ltb 2147483647 n then none else some (negsuc n)
