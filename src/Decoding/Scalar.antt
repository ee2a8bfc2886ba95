-- ===== src/Decoding/Scalar.antt =====
-- src/publish/json.rs: the readers of one JSON value, and its errors. The accessors of serde_json's
-- numbers and the conversions between number formats are the parameter `Numbers`; floats are their
-- bit patterns.
use pg_ros.Base.{
  ℕ, ◌+◌, ◌^◌, ◌-◌, ◌==◌, Bool, ◌&&◌, Option, none, some, List, [], ◌∷◌, Text, Result, ok, err,
  and_then, leb, ltb, if◌then◌else◌,
}
use pg_ros.Base.Int.{ℤ, pos, negsuc, pos_part, neg_part}
use pg_ros.Json.{Json, Items, null, bool, number, string, array, no_items, item}

pub data DecodeError : Type 0 where
  -- "message must be a JSON object"
  not_an_object : DecodeError
  -- "unknown message field {field:?}"
  unknown_message_field : Text → DecodeError
  -- "{name}: expected a JSON object"
  expected_object : Text → DecodeError
  -- "{name}: unknown message field {field:?}"
  unknown_field : Text → Text → DecodeError
  -- "{name}: expected a JSON array"
  expected_array : Text → DecodeError
  -- "{name}: expected a JSON integer"
  expected_integer : Text → DecodeError
  -- "{name}: integer {number} is out of range"
  out_of_range : Text → ℤ → DecodeError
  -- "{name}: expected a JSON number or null"
  expected_number : Text → DecodeError
  -- "{name}: expected a JSON boolean"
  expected_boolean : Text → DecodeError
  -- "{name}: expected a JSON string"
  expected_string : Text → DecodeError
  -- "{name}: string exceeds its ROS bound"
  exceeds_bound : Text → DecodeError
  -- "{name}: expected {expected} array elements, got {actual}"
  wrong_length : Text → ℕ → ℕ → DecodeError
  -- "{name}: {len} sequence elements exceed the ROS bound of {bound}"
  too_many_elements : Text → ℕ → ℕ → DecodeError
  -- "{name}: long double fields are unsupported"
  long_double_field : Text → DecodeError
  -- The panic of `expect("field checked above")`.
  expect_failed : DecodeError

-- The integer types that `integer` is called at.
pub data IntType : Type 0 where
  u8 i8 u16 i16 u32 i32 u64 i64 : IntType

abbrev pub min_value : IntType → ℤ
min_value u8 = pos 0
min_value i8 = negsuc (2 ^ 7 - 1)
min_value u16 = pos 0
min_value i16 = negsuc (2 ^ 15 - 1)
min_value u32 = pos 0
min_value i32 = negsuc (2 ^ 31 - 1)
min_value u64 = pos 0
min_value i64 = negsuc (2 ^ 63 - 1)

abbrev pub max_value : IntType → ℤ
max_value u8 = pos (2 ^ 8 - 1)
max_value i8 = pos (2 ^ 7 - 1)
max_value u16 = pos (2 ^ 16 - 1)
max_value i16 = pos (2 ^ 15 - 1)
max_value u32 = pos (2 ^ 32 - 1)
max_value i32 = pos (2 ^ 31 - 1)
max_value u64 = pos (2 ^ 64 - 1)
max_value i64 = pos (2 ^ 63 - 1)

abbrev pub leb_ℤ : ℤ → ℤ → Bool
leb_ℤ a b = leb (pos_part a + neg_part b) (pos_part b + neg_part a)

-- `T::try_from(number)` succeeds.
unfoldable pub fits : IntType → ℤ → Bool
fits t n = leb_ℤ (min_value t) n && leb_ℤ n (max_value t)

pub record Numbers (N : Type 0) : Type 0 where
  -- serde_json's accessors of a number.
  pub as_i64 : N → Option ℤ
  pub as_u64 : N → Option ℤ
  pub as_f64 : N → Option ℕ
  -- `f64::NAN`, and `as f32`.
  pub nan : ℕ
  pub to_f32 : ℕ → ℕ
  -- What `try_assign` compares with the bound of a string, and of a wide string.
  pub string_size : Text → ℕ
  pub wstring_size : Text → ℕ

infixl 5 ◌>>=◌
abbrev pub ◌>>=◌ {ℓ κ} :
    {A : Type ℓ} {B : Type κ}
    → Result DecodeError A
    → (A → Result DecodeError B)
    → Result DecodeError B
m >>= f = and_then m f

-- `unsupported`
abbrev pub unsupported : Text → DecodeError
unsupported name = long_double_field name

-- `check_length`
unfoldable pub check_length : ℕ → ℕ → Text → Result DecodeError (Unit {0})
check_length expected actual name =
    if expected == actual then ok tt else err (wrong_length name expected actual)

module _ {N : Type 0} where
  abbrev pub list_of : Items N → List (Json N)
  list_of no_items = []
  list_of (item j js) = j ∷ list_of js

  -- `json_array`
  unfoldable pub json_array : Json N → Text → Result DecodeError (List (Json N))
  json_array (array items) name = ok (list_of items)
  json_array _ name = err (expected_array name)

  -- `boolean`
  unfoldable pub boolean : Json N → Text → Result DecodeError Bool
  boolean (bool b) name = ok b
  boolean _ name = err (expected_boolean name)

  -- `string`
  unfoldable pub text : Json N → Text → Result DecodeError Text
  text (string s) name = ok s
  text _ name = err (expected_string name)

-- `try_assign` of a bounded string that measures `size`.
unfoldable pub try_assign : ℕ → ℕ → Text → Text → Result DecodeError Text
try_assign bound size name s = if ltb bound size then err (exceeds_bound name) else ok s

abbrev pub or_else {ℓ} : {A : Type ℓ} → Option A → Option A → Option A
or_else none b = b
or_else (some a) b = some a

abbrev pub ok_or {ℓ} : {A : Type ℓ} → Option A → DecodeError → Result DecodeError A
ok_or none e = err e
ok_or (some a) e = ok a

module _ {N : Type 0} (numbers : Numbers N) where
  -- `value.as_i64().map(i128::from).or_else(|| value.as_u64().map(i128::from))`
  unfoldable pub as_integer : Json N → Option ℤ
  as_integer (number n) = or_else (numbers.as_i64 n) (numbers.as_u64 n)
  as_integer _ = none

  -- `integer::<T>`
  unfoldable pub integer : IntType → Json N → Text → Result DecodeError ℤ
  integer t value name = ok_or (as_integer value) (expected_integer name) >>= λ n.
      if fits t n then ok n else err (out_of_range name n)

  -- `float64`
  unfoldable pub float64 : Json N → Text → Result DecodeError ℕ
  float64 null name = ok numbers.nan
  float64 (number n) name = ok_or (numbers.as_f64 n) (expected_number name)
  float64 _ name = err (expected_number name)

  -- `float64(value, name)? as f32`
  unfoldable pub float32 : Json N → Text → Result DecodeError ℕ
  unfolding float64
  float32 value name = do x ← float64 value name; ok (numbers.to_f32 x)

  -- A bounded string's assignment: `element.try_assign(string(value, name)?)`.
  unfoldable pub bounded_text : ℕ → Json N → Text → Result DecodeError Text
  unfolding text try_assign
  bounded_text bound value name = do
    s ← text value name
    try_assign bound (numbers.string_size s) name s

  unfoldable pub bounded_wtext : ℕ → Json N → Text → Result DecodeError Text
  unfolding text try_assign
  bounded_wtext bound value name = do
    s ← text value name
    try_assign bound (numbers.wstring_size s) name s
