-- ===== src/Decoding/Range.antt =====
-- `integer` of src/publish/json.rs accepts exactly the integers of its type.
use pg_ros.Base.{
  ℕ, ◌^◌, ◌<◌, ◌≡◌, ◌↔◌, ◌∙◌, refl, sym, ap, if◌then◌else◌, true, Option, none, some, Text, ok,
  arith, Bool-cases, Option-cases, inl, inr,
}
use pg_ros.Base.Int.{ℤ, pos, negsuc}
use pg_ros.Json.{Json, null, bool, number, string, array, object}
use pg_ros.Decoding.Scalar.{
  Numbers, IntType, u8, i8, u16, i16, u32, i32, u64, i64, fits, as_integer, integer,
}

-- The integer types of Rust: the bits of an unsigned type, and the bits of a signed one below the sign.
pub data Width : Type 0 where
  unsigned : ℕ → Width
  signed : ℕ → Width

abbrev pub width : IntType → Width
width u8 = unsigned 8
width u16 = unsigned 16
width u32 = unsigned 32
width u64 = unsigned 64
width i8 = signed 7
width i16 = signed 15
width i32 = signed 31
width i64 = signed 63

-- `negsuc n` is -(n + 1), so a signed type has as many numbers below zero as from zero on.
abbrev pub Holds : Width → ℤ → Type 0
Holds (unsigned bits) (pos n) = n < 2 ^ bits
Holds (unsigned bits) (negsuc n) = ⊥
Holds (signed bits) (pos n) = n < 2 ^ bits
Holds (signed bits) (negsuc n) = n < 2 ^ bits

pub fits_iff : (t : IntType) (n : ℤ) → (fits t n ≡ true) ↔ Holds (width t) n
unfolding fits
fits_iff u8 (pos n) = ground arith
fits_iff u8 (negsuc n) = ground arith
fits_iff i8 (pos n) = ground arith
fits_iff i8 (negsuc n) = ground arith
fits_iff u16 (pos n) = ground arith
fits_iff u16 (negsuc n) = ground arith
fits_iff i16 (pos n) = ground arith
fits_iff i16 (negsuc n) = ground arith
fits_iff u32 (pos n) = ground arith
fits_iff u32 (negsuc n) = ground arith
fits_iff i32 (pos n) = ground arith
fits_iff i32 (negsuc n) = ground arith
fits_iff u64 (pos n) = ground arith
fits_iff u64 (negsuc n) = ground arith
fits_iff i64 (pos n) = ground arith
fits_iff i64 (negsuc n) = ground arith

-- What fits some type fits one of the two widest.
widest : (t : IntType) (n : ℤ) → Holds (width t) n → ¬ Holds (width i64) n → Holds (width u64) n
widest u8 (pos n) h big = omega (arith, h, big)
widest u8 (negsuc n) h big = absurd (ground (arith, h, big))
widest i8 (pos n) h big = omega (arith, h, big)
widest i8 (negsuc n) h big = absurd (ground (arith, h, big))
widest u16 (pos n) h big = omega (arith, h, big)
widest u16 (negsuc n) h big = absurd (ground (arith, h, big))
widest i16 (pos n) h big = omega (arith, h, big)
widest i16 (negsuc n) h big = absurd (ground (arith, h, big))
widest u32 (pos n) h big = omega (arith, h, big)
widest u32 (negsuc n) h big = absurd (ground (arith, h, big))
widest i32 (pos n) h big = omega (arith, h, big)
widest i32 (negsuc n) h big = absurd (ground (arith, h, big))
widest u64 (pos n) h big = omega (arith, h, big)
widest u64 (negsuc n) h big = absurd (ground (arith, h, big))
widest i64 (pos n) h big = omega (arith, h, big)
widest i64 (negsuc n) h big = absurd (ground (arith, h, big))

-- A number, if its type can hold it.
abbrev pub in_range : IntType → ℤ → Option ℤ
in_range t n = if fits t n then some n else none

pub in_range_iff :
    (t : IntType) (k n : ℤ) → (in_range t k ≡ some n) ↔ ((some k ≡ some n) × Holds (width t) n)
in_range_iff t k n = (
  λ e. elim (Bool-cases (fits t k)) [
    | inl inside ↦
        let same : k ≡ n = ground (arith, rw inside at e) in
        (ap some same, (fits_iff t n).0 (rw same at inside))
    | inr outside ↦ absurd (ground (arith, rw outside at e))
  ],
  λ (e, h). let same : k ≡ n = ground (arith, e) in rw (same, (fits_iff t n).1 h) refl,
)

-- serde_json's accessors: `number_of` is the number if it is written as an integer. `as_i64` and `as_u64`
-- give it if their type can hold it.
pub record IsAccessed {N : Type 0} (numbers : Numbers N) (number_of : N → Option ℤ) : Type 0 where
  pub as_i64_iff :
      (j : N) (n : ℤ) → (numbers.as_i64 j ≡ some n) ↔ ((number_of j ≡ some n) × Holds (width i64) n)
  pub as_u64_iff :
      (j : N) (n : ℤ) → (numbers.as_u64 j ≡ some n) ↔ ((number_of j ≡ some n) × Holds (width u64) n)

module _ {N : Type 0} (numbers : Numbers N) (number_of : N → Option ℤ) where
  -- The integer that a JSON value is.
  abbrev pub integer_of : Json N → Option ℤ
  integer_of (number j) = number_of j
  integer_of null = none
  integer_of (bool b) = none
  integer_of (string s) = none
  integer_of (array items) = none
  integer_of (object ms) = none

  module _ (laws : IsAccessed numbers number_of) where
    as_integer_sound :
        (value : Json N) (n : ℤ) → as_integer numbers value ≡ some n → integer_of value ≡ some n
    unfolding as_integer
    as_integer_sound (number j) n e = elim (Option-cases (numbers.as_i64 j)) [
      | inl absent ↦ ((laws.as_u64_iff j n).0 (rw absent at e)).0
      | inr (k, found) ↦
          let same : k ≡ n = ground (arith, rw found at e) in
          ((laws.as_i64_iff j n).0 (rw same at found)).0
    ]
    as_integer_sound null n e = cc
    as_integer_sound (bool b) n e = cc
    as_integer_sound (string s) n e = cc
    as_integer_sound (array items) n e = cc
    as_integer_sound (object ms) n e = cc

    as_integer_complete :
        (t : IntType) (value : Json N) (n : ℤ)
        → integer_of value ≡ some n
        → Holds (width t) n
        → as_integer numbers value ≡ some n
    unfolding as_integer
    as_integer_complete t (number j) n e h = elim (Option-cases (numbers.as_i64 j)) [
      | inl absent ↦
          let big : ¬ Holds (width i64) n =
            λ small. some-none (sym ((laws.as_i64_iff j n).1 (e, small)) ∙ absent) in
          rw absent ((laws.as_u64_iff j n).1 (e, widest t n h big))
      | inr (k, found) ↦ rw found (sym ((laws.as_i64_iff j k).0 found).0 ∙ e)
    ]
      where
        some-none : ¬ (some n ≡ none)
        some-none x = cc
    as_integer_complete t null n e h = cc
    as_integer_complete t (bool b) n e h = cc
    as_integer_complete t (string s) n e h = cc
    as_integer_complete t (array items) n e h = cc
    as_integer_complete t (object ms) n e h = cc

    integer-fits :
        (t : IntType) (value : Json N) (name : Text) (n : ℤ)
        → (integer numbers t value name ≡ ok n)
          ↔ ((as_integer numbers value ≡ some n) × (fits t n ≡ true))
    unfolding integer
    integer-fits t value name n = elim (Option-cases (as_integer numbers value)) [
      | inl e ↦ ground arith
      | inr (k, e) ↦ elim (Bool-cases (fits t k)) [ inl h ↦ ground arith | inr h ↦ ground arith ]
    ]

    -- `integer` reads a JSON value as a number of an integer type exactly when the value is a number that
    -- is written as an integer and the type, by its width and its sign, can hold it. serde_json's accessors
    -- `as_i64` and `as_u64` give what their types can hold.
    pub integer_iff :
        (t : IntType) (value : Json N) (name : Text) (n : ℤ)
        → (integer numbers t value name ≡ ok n) ↔ ((integer_of value ≡ some n) × Holds (width t) n)
    integer_iff t value name n = (
      λ h.
          let (read, inside) = (integer-fits t value name n).0 h in
          (as_integer_sound value n read, (fits_iff t n).0 inside),
      λ (e, h).
          (integer-fits t value name n).1 (as_integer_complete t value n e h, (fits_iff t n).1 h),
    )
