-- ===== src/Base/Int.antt =====
-- Signed integers over the native numbers, and the decimal text that Rust's `Display` writes for
-- them (the standard library's).
use Prim.Native.Nat.{ℕ, zero, suc, ◌+◌, ◌*◌, ◌/◌, ◌%◌, ◌-◌, ◌≤◌, ◌<◌}
use mathlib.Core.Path.{◌≡◌}
use mathlib.Core.List.{[], ◌∷◌}
use native.Mathlib.Omega.{arith}
use pg_ros.Base.Tests.{ltb, if◌then◌else◌}
use pg_ros.Base.Bytes.{Text}

-- `negsuc n` is -(n + 1).
pub data ℤ : Type 0 where
  pos : ℕ → ℤ
  negsuc : ℕ → ℤ

abbrev pub pos_part : ℤ → ℕ
pos_part (pos n) = n
pos_part (negsuc n) = 0

abbrev pub neg_part : ℤ → ℕ
neg_part (pos n) = 0
neg_part (negsuc n) = suc n

infix 50 ◌≤ℤ◌
abbrev pub ◌≤ℤ◌ : ℤ → ℤ → Type 0
a ≤ℤ b = pos_part a + neg_part b ≤ pos_part b + neg_part a

abbrev pub digit : ℕ → ℕ
digit n = b'0' + n

-- The digits of `n` before `acc`. A number is below ten after fewer divisions than its value.
unfoldable pub decimal_onto : ℕ → ℕ → Text → Text
decimal_onto zero n acc = acc
decimal_onto (suc fuel) n acc =
    let rest = decimal_onto fuel (n / 10) (digit (n % 10) ∷ acc) in
    if ltb n 10 then digit n ∷ acc else rest

unfoldable pub decimal : ℕ → Text
unfolding decimal_onto
decimal n = decimal_onto (suc n) n []

unfoldable pub display_int : ℤ → Text
unfolding decimal
display_int (pos n) = decimal n
display_int (negsuc n) = b'-' ∷ decimal (suc n)

-- The number that a text of digits stands for, behind the digits already read.
unfoldable pub read_onto : ℕ → Text → ℕ
read_onto value [] = value
read_onto value (c ∷ s) = read_onto (10 * value + (c - b'0')) s

read_onto-decimal_onto :
    (fuel n : ℕ) (acc : Text) → n < fuel → read_onto 0 (decimal_onto fuel n acc) ≡ read_onto n acc
unfolding decimal_onto read_onto
read_onto-decimal_onto zero n acc h = absurd (omega arith)
read_onto-decimal_onto (suc fuel) n acc h =
    ground (arith, read_onto-decimal_onto fuel (n / 10) (digit (n % 10) ∷ acc))

-- The digits of a number read back as the number: the fuel is enough and no digit is lost.
pub read_onto-decimal : (n : ℕ) → read_onto 0 (decimal n) ≡ n
unfolding decimal read_onto
read_onto-decimal n = read_onto-decimal_onto (suc n) n [] (omega arith)
