-- ===== src/Decoding/Typed/Arrays.antt =====
-- `array` of src/publish/json.rs keeps the type and the length of its slot.
use pg_ros.Base.{
  Ensures-any, ◌≤◌, ◌≡◌, true, List, Text, All, Ensures, holds, rejected, Ensures-and_then,
}
use pg_ros.Json.{Json}
use pg_ros.Message.{Elements}
use pg_ros.Decoding.Scalar.{
  Numbers, fits, boolean, text, integer, float64, float32, bounded_text, bounded_wtext, u8, i8, u16,
  i16, u32, i32, u64, i64,
}
use pg_ros.Decoding.Loops.{View}
use pg_ros.Decoding.Elements.{array_elements}
use pg_ros.Decoding.Typed
use pg_ros.Decoding.Typed.{ElementsType, size_of, EachHasType, HasType}
use pg_ros.Decoding.Typed.Loops.{Anything, Keeps, fill-Ensures, fill_message-Ensures}
use pg_ros.Decoding.Typed.Simple.{integer-Ensures, bounded_text-Ensures, bounded_wtext-Ensures}

module _ {N : Type 0} (numbers : Numbers N) (items : List (Json N)) (views : List View)
    (name : Text) where
  -- The type of the slot is kept, and so is the number of elements.
  pub array_elements-Ensures :
      {t slot : Elements}
      → All (Keeps numbers) views
      → ElementsType numbers t slot
      → Ensures
          (λ e. ElementsType numbers t e × (size_of e ≡ size_of slot))
          (array_elements numbers slot items views name)
  unfolding array_elements size_of
  array_elements-Ensures keep (Typed.floats {xs = slot}) =
      Ensures-and_then
        (fill-Ensures Anything (λ j. float32 numbers j name)
          (λ j. Ensures-any (float32 numbers j name)) slot items name)
        λ xs h. holds (Typed.floats, h.1)
  array_elements-Ensures keep (Typed.doubles {xs = slot}) =
      Ensures-and_then
        (fill-Ensures Anything (λ j. float64 numbers j name)
          (λ j. Ensures-any (float64 numbers j name)) slot items name)
        λ xs h. holds (Typed.doubles, h.1)
  array_elements-Ensures keep (Typed.chars {xs = slot} _) =
      Ensures-and_then
        (fill-Ensures (λ v. fits u8 v ≡ true) (λ j. integer numbers u8 j name)
          (λ j. integer-Ensures numbers u8 j name) slot items name)
        λ xs h. holds ((Typed.chars h.0), h.1)
  array_elements-Ensures keep (Typed.wchars {xs = slot} _) =
      Ensures-and_then
        (fill-Ensures (λ v. fits u16 v ≡ true) (λ j. integer numbers u16 j name)
          (λ j. integer-Ensures numbers u16 j name) slot items name)
        λ xs h. holds ((Typed.wchars h.0), h.1)
  array_elements-Ensures keep (Typed.booleans {xs = slot}) =
      Ensures-and_then
        (fill-Ensures Anything (λ j. boolean j name) (λ j. Ensures-any (boolean j name)) slot items
          name)
        λ xs h. holds (Typed.booleans, h.1)
  array_elements-Ensures keep (Typed.octets {xs = slot} _) =
      Ensures-and_then
        (fill-Ensures (λ v. fits u8 v ≡ true) (λ j. integer numbers u8 j name)
          (λ j. integer-Ensures numbers u8 j name) slot items name)
        λ xs h. holds ((Typed.octets h.0), h.1)
  array_elements-Ensures keep (Typed.uint8s {xs = slot} _) =
      Ensures-and_then
        (fill-Ensures (λ v. fits u8 v ≡ true) (λ j. integer numbers u8 j name)
          (λ j. integer-Ensures numbers u8 j name) slot items name)
        λ xs h. holds ((Typed.uint8s h.0), h.1)
  array_elements-Ensures keep (Typed.int8s {xs = slot} _) =
      Ensures-and_then
        (fill-Ensures (λ v. fits i8 v ≡ true) (λ j. integer numbers i8 j name)
          (λ j. integer-Ensures numbers i8 j name) slot items name)
        λ xs h. holds ((Typed.int8s h.0), h.1)
  array_elements-Ensures keep (Typed.uint16s {xs = slot} _) =
      Ensures-and_then
        (fill-Ensures (λ v. fits u16 v ≡ true) (λ j. integer numbers u16 j name)
          (λ j. integer-Ensures numbers u16 j name) slot items name)
        λ xs h. holds ((Typed.uint16s h.0), h.1)
  array_elements-Ensures keep (Typed.int16s {xs = slot} _) =
      Ensures-and_then
        (fill-Ensures (λ v. fits i16 v ≡ true) (λ j. integer numbers i16 j name)
          (λ j. integer-Ensures numbers i16 j name) slot items name)
        λ xs h. holds ((Typed.int16s h.0), h.1)
  array_elements-Ensures keep (Typed.uint32s {xs = slot} _) =
      Ensures-and_then
        (fill-Ensures (λ v. fits u32 v ≡ true) (λ j. integer numbers u32 j name)
          (λ j. integer-Ensures numbers u32 j name) slot items name)
        λ xs h. holds ((Typed.uint32s h.0), h.1)
  array_elements-Ensures keep (Typed.int32s {xs = slot} _) =
      Ensures-and_then
        (fill-Ensures (λ v. fits i32 v ≡ true) (λ j. integer numbers i32 j name)
          (λ j. integer-Ensures numbers i32 j name) slot items name)
        λ xs h. holds ((Typed.int32s h.0), h.1)
  array_elements-Ensures keep (Typed.uint64s {xs = slot} _) =
      Ensures-and_then
        (fill-Ensures (λ v. fits u64 v ≡ true) (λ j. integer numbers u64 j name)
          (λ j. integer-Ensures numbers u64 j name) slot items name)
        λ xs h. holds ((Typed.uint64s h.0), h.1)
  array_elements-Ensures keep (Typed.int64s {xs = slot} _) =
      Ensures-and_then
        (fill-Ensures (λ v. fits i64 v ≡ true) (λ j. integer numbers i64 j name)
          (λ j. integer-Ensures numbers i64 j name) slot items name)
        λ xs h. holds ((Typed.int64s h.0), h.1)
  array_elements-Ensures keep (Typed.strings {xs = slot}) =
      Ensures-and_then
        (fill-Ensures Anything (λ j. text j name) (λ j. Ensures-any (text j name)) slot items name)
        λ xs h. holds (Typed.strings, h.1)
  array_elements-Ensures keep (Typed.bounded_strings {bound} {xs = slot} _) =
      Ensures-and_then
        (fill-Ensures (λ s. numbers.string_size s ≤ bound) (λ j. bounded_text numbers bound j name)
          (λ j. bounded_text-Ensures numbers bound j name) slot items name)
        λ xs h. holds ((Typed.bounded_strings h.0), h.1)
  array_elements-Ensures keep (Typed.wstrings {xs = slot}) =
      Ensures-and_then
        (fill-Ensures Anything (λ j. text j name) (λ j. Ensures-any (text j name)) slot items name)
        λ xs h. holds (Typed.wstrings, h.1)
  array_elements-Ensures keep (Typed.bounded_wstrings {bound} {xs = slot} _) =
      Ensures-and_then
        (fill-Ensures (λ s. numbers.wstring_size s ≤ bound)
          (λ j. bounded_wtext numbers bound j name)
          (λ j. bounded_wtext-Ensures numbers bound j name) slot items name)
        λ xs h. holds ((Typed.bounded_wstrings h.0), h.1)
  array_elements-Ensures keep Typed.long_doubles = rejected
  array_elements-Ensures keep (Typed.messages {default} {ms = slot} p ps) =
      Ensures-and_then (fill_message-Ensures numbers default slot views name keep ps)
        λ xs h. holds (Typed.messages p h.0, h.1)
