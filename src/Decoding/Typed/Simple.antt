-- ===== src/Decoding/Typed/Simple.antt =====
-- `simple` of src/publish/json.rs keeps the type of its slot.
use pg_ros.Base.{
  Ensures-any, ℕ, ◌≤◌, ◌≡◌, true, Text, Ensures, holds, rejected, Ensures-and_then, arith, ltb,
  Bool-cases, Option-cases, inl, inr,
}
use pg_ros.Json.{Json}
use pg_ros.Message.{SimpleValue}
use pg_ros.Decoding.Scalar.{
  Numbers, IntType, fits, as_integer, boolean, text, integer, float64, float32, bounded_text,
  bounded_wtext, try_assign, u8, i8, u16, i16, u32, i32, u64, i64,
}
use pg_ros.Decoding.Loops.{View}
use pg_ros.Decoding.Simple.{decode_simple}
use pg_ros.Decoding.Typed
use pg_ros.Decoding.Typed.{SimpleType}
use pg_ros.Decoding.Typed.Loops.{Keeps}

try_assign-Ensures :
    (bound : ℕ) (measure : Text → ℕ) (name s : Text)
    → Ensures (λ s'. measure s' ≤ bound) (try_assign bound (measure s) name s)
unfolding try_assign
try_assign-Ensures bound measure name s = elim (Bool-cases (ltb bound (measure s))) [
  | inl e ↦ rw e rejected
  | inr e ↦ rw e (holds (ground arith))
]

module _ {N : Type 0} (numbers : Numbers N) where
  pub integer-Ensures :
      (t : IntType) (value : Json N) (name : Text)
      → Ensures (λ n. fits t n ≡ true) (integer numbers t value name)
  unfolding integer
  integer-Ensures t value name = elim (Option-cases (as_integer numbers value)) [
    | inl e ↦ rw e rejected
    | inr (n, e) ↦
        rw e (elim (Bool-cases (fits t n)) [ inl h ↦ rw h (holds h) | inr h ↦ rw h rejected ])
  ]

  pub bounded_text-Ensures :
      (bound : ℕ) (value : Json N) (name : Text)
      → Ensures (λ s. numbers.string_size s ≤ bound) (bounded_text numbers bound value name)
  unfolding bounded_text
  bounded_text-Ensures bound value name =
      Ensures-and_then (Ensures-any (text value name))
        λ s _. try_assign-Ensures bound numbers.string_size name s

  pub bounded_wtext-Ensures :
      (bound : ℕ) (value : Json N) (name : Text)
      → Ensures (λ s. numbers.wstring_size s ≤ bound) (bounded_wtext numbers bound value name)
  unfolding bounded_wtext
  bounded_wtext-Ensures bound value name =
      Ensures-and_then (Ensures-any (text value name))
        λ s _. try_assign-Ensures bound numbers.wstring_size name s

  -- A simple slot keeps its type, if the nested message does.
  pub decode_simple-Ensures :
      {t slot : SimpleValue} (value : Json N) (nested : View) (name : Text)
      → Keeps numbers nested
      → SimpleType numbers t slot
      → Ensures (SimpleType numbers t) (decode_simple numbers slot value nested name)
  unfolding decode_simple
  decode_simple-Ensures value nested name keep Typed.float =
      Ensures-and_then (Ensures-any (float32 numbers value name)) λ x _. holds Typed.float
  decode_simple-Ensures value nested name keep Typed.double =
      Ensures-and_then (Ensures-any (float64 numbers value name)) λ x _. holds Typed.double
  decode_simple-Ensures value nested name keep Typed.long_double = rejected
  decode_simple-Ensures value nested name keep (Typed.char _) =
      Ensures-and_then (integer-Ensures u8 value name) λ x h. holds (Typed.char h)
  decode_simple-Ensures value nested name keep (Typed.wchar _) =
      Ensures-and_then (integer-Ensures u16 value name) λ x h. holds (Typed.wchar h)
  decode_simple-Ensures value nested name keep Typed.boolean =
      Ensures-and_then (Ensures-any (boolean value name)) λ x _. holds Typed.boolean
  decode_simple-Ensures value nested name keep (Typed.octet _) =
      Ensures-and_then (integer-Ensures u8 value name) λ x h. holds (Typed.octet h)
  decode_simple-Ensures value nested name keep (Typed.uint8 _) =
      Ensures-and_then (integer-Ensures u8 value name) λ x h. holds (Typed.uint8 h)
  decode_simple-Ensures value nested name keep (Typed.int8 _) =
      Ensures-and_then (integer-Ensures i8 value name) λ x h. holds (Typed.int8 h)
  decode_simple-Ensures value nested name keep (Typed.uint16 _) =
      Ensures-and_then (integer-Ensures u16 value name) λ x h. holds (Typed.uint16 h)
  decode_simple-Ensures value nested name keep (Typed.int16 _) =
      Ensures-and_then (integer-Ensures i16 value name) λ x h. holds (Typed.int16 h)
  decode_simple-Ensures value nested name keep (Typed.uint32 _) =
      Ensures-and_then (integer-Ensures u32 value name) λ x h. holds (Typed.uint32 h)
  decode_simple-Ensures value nested name keep (Typed.int32 _) =
      Ensures-and_then (integer-Ensures i32 value name) λ x h. holds (Typed.int32 h)
  decode_simple-Ensures value nested name keep (Typed.uint64 _) =
      Ensures-and_then (integer-Ensures u64 value name) λ x h. holds (Typed.uint64 h)
  decode_simple-Ensures value nested name keep (Typed.int64 _) =
      Ensures-and_then (integer-Ensures i64 value name) λ x h. holds (Typed.int64 h)
  decode_simple-Ensures value nested name keep Typed.string =
      Ensures-and_then (Ensures-any (text value name)) λ x _. holds Typed.string
  decode_simple-Ensures value nested name keep (Typed.bounded_string {bound} _) =
      Ensures-and_then (bounded_text-Ensures bound value name) λ x h. holds (Typed.bounded_string h)
  decode_simple-Ensures value nested name keep Typed.wstring =
      Ensures-and_then (Ensures-any (text value name)) λ x _. holds Typed.wstring
  decode_simple-Ensures value nested name keep (Typed.bounded_wstring {bound} _) =
      Ensures-and_then (bounded_wtext-Ensures bound value name)
        λ x h. holds (Typed.bounded_wstring h)
  decode_simple-Ensures value nested name keep (Typed.message {t} {m} p) =
      Ensures-and_then (keep t m name p) λ m' h. holds (Typed.message h)
