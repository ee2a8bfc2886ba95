-- ===== src/Decoding/Typed/Sequences.antt =====
-- `sequence` of src/publish/json.rs keeps the type of its slot.
use pg_ros.Base.{
  Ensures-any, ◌≤◌, ◌≡◌, true, List, [], Text, length, All, Ensures, holds, rejected,
  Ensures-and_then,
}
use pg_ros.Json.{Json}
use pg_ros.Message.{Elements}
use pg_ros.Decoding.Scalar.{
  Numbers, fits, boolean, text, integer, float64, float32, bounded_text, bounded_wtext, u8, i8, u16,
  i16, u32, i32, u64, i64,
}
use pg_ros.Decoding.Loops.{View, reset}
use pg_ros.Decoding.Elements.{sequence_elements}
use pg_ros.Decoding.Typed
use pg_ros.Decoding.Typed.{ElementsType, size_of, EachHasType, HasType}
use pg_ros.Decoding.Typed.Loops.{
  Anything, Keeps, collect-Ensures, refill-Ensures, assign_messages-Ensures, reset-EachHasType,
}
use pg_ros.Decoding.Typed.Simple.{integer-Ensures, bounded_text-Ensures, bounded_wtext-Ensures}

module _ {N : Type 0} (numbers : Numbers N) (items : List (Json N)) (views : List View)
    (name : Text) where
  -- The type of the slot is kept.
  pub sequence_elements-Ensures :
      {t slot : Elements}
      → All (Keeps numbers) views
      → ElementsType numbers t slot
      → Ensures (ElementsType numbers t) (sequence_elements numbers slot items views name)
  unfolding sequence_elements
  sequence_elements-Ensures keep Typed.floats =
      Ensures-and_then
        (collect-Ensures Anything (λ j. float32 numbers j name)
          (λ j. Ensures-any (float32 numbers j name)) items)
        λ xs h. holds Typed.floats
  sequence_elements-Ensures keep Typed.doubles =
      Ensures-and_then
        (collect-Ensures Anything (λ j. float64 numbers j name)
          (λ j. Ensures-any (float64 numbers j name)) items)
        λ xs h. holds Typed.doubles
  sequence_elements-Ensures keep (Typed.chars _) =
      Ensures-and_then
        (collect-Ensures (λ v. fits u8 v ≡ true) (λ j. integer numbers u8 j name)
          (λ j. integer-Ensures numbers u8 j name) items)
        λ xs h. holds (Typed.chars h)
  sequence_elements-Ensures keep (Typed.wchars _) =
      Ensures-and_then
        (collect-Ensures (λ v. fits u16 v ≡ true) (λ j. integer numbers u16 j name)
          (λ j. integer-Ensures numbers u16 j name) items)
        λ xs h. holds (Typed.wchars h)
  sequence_elements-Ensures keep Typed.booleans =
      Ensures-and_then
        (collect-Ensures Anything (λ j. boolean j name) (λ j. Ensures-any (boolean j name)) items)
        λ xs h. holds Typed.booleans
  sequence_elements-Ensures keep (Typed.octets _) =
      Ensures-and_then
        (collect-Ensures (λ v. fits u8 v ≡ true) (λ j. integer numbers u8 j name)
          (λ j. integer-Ensures numbers u8 j name) items)
        λ xs h. holds (Typed.octets h)
  sequence_elements-Ensures keep (Typed.uint8s _) =
      Ensures-and_then
        (collect-Ensures (λ v. fits u8 v ≡ true) (λ j. integer numbers u8 j name)
          (λ j. integer-Ensures numbers u8 j name) items)
        λ xs h. holds (Typed.uint8s h)
  sequence_elements-Ensures keep (Typed.int8s _) =
      Ensures-and_then
        (collect-Ensures (λ v. fits i8 v ≡ true) (λ j. integer numbers i8 j name)
          (λ j. integer-Ensures numbers i8 j name) items)
        λ xs h. holds (Typed.int8s h)
  sequence_elements-Ensures keep (Typed.uint16s _) =
      Ensures-and_then
        (collect-Ensures (λ v. fits u16 v ≡ true) (λ j. integer numbers u16 j name)
          (λ j. integer-Ensures numbers u16 j name) items)
        λ xs h. holds (Typed.uint16s h)
  sequence_elements-Ensures keep (Typed.int16s _) =
      Ensures-and_then
        (collect-Ensures (λ v. fits i16 v ≡ true) (λ j. integer numbers i16 j name)
          (λ j. integer-Ensures numbers i16 j name) items)
        λ xs h. holds (Typed.int16s h)
  sequence_elements-Ensures keep (Typed.uint32s _) =
      Ensures-and_then
        (collect-Ensures (λ v. fits u32 v ≡ true) (λ j. integer numbers u32 j name)
          (λ j. integer-Ensures numbers u32 j name) items)
        λ xs h. holds (Typed.uint32s h)
  sequence_elements-Ensures keep (Typed.int32s _) =
      Ensures-and_then
        (collect-Ensures (λ v. fits i32 v ≡ true) (λ j. integer numbers i32 j name)
          (λ j. integer-Ensures numbers i32 j name) items)
        λ xs h. holds (Typed.int32s h)
  sequence_elements-Ensures keep (Typed.uint64s _) =
      Ensures-and_then
        (collect-Ensures (λ v. fits u64 v ≡ true) (λ j. integer numbers u64 j name)
          (λ j. integer-Ensures numbers u64 j name) items)
        λ xs h. holds (Typed.uint64s h)
  sequence_elements-Ensures keep (Typed.int64s _) =
      Ensures-and_then
        (collect-Ensures (λ v. fits i64 v ≡ true) (λ j. integer numbers i64 j name)
          (λ j. integer-Ensures numbers i64 j name) items)
        λ xs h. holds (Typed.int64s h)
  sequence_elements-Ensures keep Typed.strings =
      Ensures-and_then
        (collect-Ensures Anything (λ j. text j name) (λ j. Ensures-any (text j name)) items)
        λ xs h. holds Typed.strings
  sequence_elements-Ensures keep (Typed.bounded_strings {bound} _) =
      Ensures-and_then
        (refill-Ensures (λ s. numbers.string_size s ≤ bound)
          (λ j. bounded_text numbers bound j name) (λ j. bounded_text-Ensures numbers bound j name)
          [] items)
        λ xs h. holds (Typed.bounded_strings h.0)
  sequence_elements-Ensures keep Typed.wstrings =
      Ensures-and_then
        (collect-Ensures Anything (λ j. text j name) (λ j. Ensures-any (text j name)) items)
        λ xs h. holds Typed.wstrings
  sequence_elements-Ensures keep (Typed.bounded_wstrings {bound} _) =
      Ensures-and_then
        (refill-Ensures (λ s. numbers.wstring_size s ≤ bound)
          (λ j. bounded_wtext numbers bound j name)
          (λ j. bounded_wtext-Ensures numbers bound j name) [] items)
        λ xs h. holds (Typed.bounded_wstrings h.0)
  sequence_elements-Ensures keep Typed.long_doubles = rejected
  sequence_elements-Ensures keep (Typed.messages {default} p ps) =
      Ensures-and_then
        (assign_messages-Ensures numbers default (reset (length items) default) views name keep
          (reset-EachHasType numbers (length items) default p))
        λ xs h. holds (Typed.messages p h.0)
