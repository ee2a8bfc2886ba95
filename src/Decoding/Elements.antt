-- ===== src/Decoding/Elements.antt =====
-- src/publish/json.rs: the matches of `array`, `sequence` and `bounded_sequence`, on the items of the
-- JSON array that `json_array` has returned.
use pg_ros.Base.{ℕ, false, List, [], Text, ok, err, length}
use pg_ros.Base.Int.{pos}
use pg_ros.Json.{Json}
use pg_ros.Message.{Elements}
use pg_ros.Decoding.Scalar.{
  Numbers, unsupported, ◌>>=◌, boolean, text, integer, float64, float32, bounded_text,
  bounded_wtext, u8, i8, u16, i16, u32, i32, u64, i64,
}
use pg_ros.Decoding.Loops.{
  Decoded, View, resize, collect, fill, refill, reset, assign_messages, fill_message,
}

module _ {N : Type 0} (numbers : Numbers N) where
  -- `array`, on the items of the JSON array.
  unfoldable pub array_elements : Elements → List (Json N) → List View → Text → Decoded Elements
  array_elements (Elements.floats slot) items views name = do
    xs ← fill (λ j. float32 numbers j name) slot items name
    ok (Elements.floats xs)
  array_elements (Elements.doubles slot) items views name = do
    xs ← fill (λ j. float64 numbers j name) slot items name
    ok (Elements.doubles xs)
  array_elements (Elements.chars slot) items views name = do
    xs ← fill (λ j. integer numbers u8 j name) slot items name
    ok (Elements.chars xs)
  array_elements (Elements.wchars slot) items views name = do
    xs ← fill (λ j. integer numbers u16 j name) slot items name
    ok (Elements.wchars xs)
  array_elements (Elements.booleans slot) items views name = do
    xs ← fill (λ j. boolean j name) slot items name
    ok (Elements.booleans xs)
  array_elements (Elements.octets slot) items views name = do
    xs ← fill (λ j. integer numbers u8 j name) slot items name
    ok (Elements.octets xs)
  array_elements (Elements.uint8s slot) items views name = do
    xs ← fill (λ j. integer numbers u8 j name) slot items name
    ok (Elements.uint8s xs)
  array_elements (Elements.int8s slot) items views name = do
    xs ← fill (λ j. integer numbers i8 j name) slot items name
    ok (Elements.int8s xs)
  array_elements (Elements.uint16s slot) items views name = do
    xs ← fill (λ j. integer numbers u16 j name) slot items name
    ok (Elements.uint16s xs)
  array_elements (Elements.int16s slot) items views name = do
    xs ← fill (λ j. integer numbers i16 j name) slot items name
    ok (Elements.int16s xs)
  array_elements (Elements.uint32s slot) items views name = do
    xs ← fill (λ j. integer numbers u32 j name) slot items name
    ok (Elements.uint32s xs)
  array_elements (Elements.int32s slot) items views name = do
    xs ← fill (λ j. integer numbers i32 j name) slot items name
    ok (Elements.int32s xs)
  array_elements (Elements.uint64s slot) items views name = do
    xs ← fill (λ j. integer numbers u64 j name) slot items name
    ok (Elements.uint64s xs)
  array_elements (Elements.int64s slot) items views name = do
    xs ← fill (λ j. integer numbers i64 j name) slot items name
    ok (Elements.int64s xs)
  array_elements (Elements.strings slot) items views name = do
    xs ← fill (λ j. text j name) slot items name
    ok (Elements.strings xs)
  array_elements (Elements.bounded_strings b slot) items views name = do
    xs ← fill (λ j. bounded_text numbers b j name) slot items name
    ok (Elements.bounded_strings b xs)
  array_elements (Elements.wstrings slot) items views name = do
    xs ← fill (λ j. text j name) slot items name
    ok (Elements.wstrings xs)
  array_elements (Elements.bounded_wstrings b slot) items views name = do
    xs ← fill (λ j. bounded_wtext numbers b j name) slot items name
    ok (Elements.bounded_wstrings b xs)
  array_elements Elements.long_doubles items views name = err (unsupported name)
  array_elements (Elements.messages default slot) items views name = do
    xs ← fill_message slot views name
    ok (Elements.messages default xs)

  -- `sequence`, on the items of the JSON array.
  unfoldable pub sequence_elements : Elements → List (Json N) → List View → Text → Decoded Elements
  sequence_elements (Elements.floats slot) items views name = do
    xs ← collect (λ j. float32 numbers j name) items
    ok (Elements.floats xs)
  sequence_elements (Elements.doubles slot) items views name = do
    xs ← collect (λ j. float64 numbers j name) items
    ok (Elements.doubles xs)
  sequence_elements (Elements.chars slot) items views name = do
    xs ← collect (λ j. integer numbers u8 j name) items
    ok (Elements.chars xs)
  sequence_elements (Elements.wchars slot) items views name = do
    xs ← collect (λ j. integer numbers u16 j name) items
    ok (Elements.wchars xs)
  sequence_elements (Elements.booleans slot) items views name = do
    xs ← collect (λ j. boolean j name) items
    ok (Elements.booleans xs)
  sequence_elements (Elements.octets slot) items views name = do
    xs ← collect (λ j. integer numbers u8 j name) items
    ok (Elements.octets xs)
  sequence_elements (Elements.uint8s slot) items views name = do
    xs ← collect (λ j. integer numbers u8 j name) items
    ok (Elements.uint8s xs)
  sequence_elements (Elements.int8s slot) items views name = do
    xs ← collect (λ j. integer numbers i8 j name) items
    ok (Elements.int8s xs)
  sequence_elements (Elements.uint16s slot) items views name = do
    xs ← collect (λ j. integer numbers u16 j name) items
    ok (Elements.uint16s xs)
  sequence_elements (Elements.int16s slot) items views name = do
    xs ← collect (λ j. integer numbers i16 j name) items
    ok (Elements.int16s xs)
  sequence_elements (Elements.uint32s slot) items views name = do
    xs ← collect (λ j. integer numbers u32 j name) items
    ok (Elements.uint32s xs)
  sequence_elements (Elements.int32s slot) items views name = do
    xs ← collect (λ j. integer numbers i32 j name) items
    ok (Elements.int32s xs)
  sequence_elements (Elements.uint64s slot) items views name = do
    xs ← collect (λ j. integer numbers u64 j name) items
    ok (Elements.uint64s xs)
  sequence_elements (Elements.int64s slot) items views name = do
    xs ← collect (λ j. integer numbers i64 j name) items
    ok (Elements.int64s xs)
  sequence_elements (Elements.strings slot) items views name = do
    xs ← collect (λ j. text j name) items
    ok (Elements.strings xs)
  sequence_elements (Elements.bounded_strings b slot) items views name = do
    xs ← refill (λ j. bounded_text numbers b j name) [] items
    ok (Elements.bounded_strings b xs)
  sequence_elements (Elements.wstrings slot) items views name = do
    xs ← collect (λ j. text j name) items
    ok (Elements.wstrings xs)
  sequence_elements (Elements.bounded_wstrings b slot) items views name = do
    xs ← refill (λ j. bounded_wtext numbers b j name) [] items
    ok (Elements.bounded_wstrings b xs)
  sequence_elements Elements.long_doubles items views name = err (unsupported name)
  sequence_elements (Elements.messages default slot) items views name = do
    xs ← assign_messages (reset (length items) default) views name
    ok (Elements.messages default xs)

  -- `bounded_sequence`, on the items of the JSON array.
  unfoldable pub bounded_elements :
      ℕ → Elements → List (Json N) → List View → Text → Decoded Elements
  bounded_elements bound (Elements.floats slot) items views name = do
    _ ← resize bound (length items) name
    xs ← refill (λ j. float32 numbers j name) 0 items
    ok (Elements.floats xs)
  bounded_elements bound (Elements.doubles slot) items views name = do
    _ ← resize bound (length items) name
    xs ← refill (λ j. float64 numbers j name) 0 items
    ok (Elements.doubles xs)
  bounded_elements bound (Elements.chars slot) items views name = do
    _ ← resize bound (length items) name
    xs ← refill (λ j. integer numbers u8 j name) (pos 0) items
    ok (Elements.chars xs)
  bounded_elements bound (Elements.wchars slot) items views name = do
    _ ← resize bound (length items) name
    xs ← refill (λ j. integer numbers u16 j name) (pos 0) items
    ok (Elements.wchars xs)
  bounded_elements bound (Elements.booleans slot) items views name = do
    _ ← resize bound (length items) name
    xs ← refill (λ j. boolean j name) false items
    ok (Elements.booleans xs)
  bounded_elements bound (Elements.octets slot) items views name = do
    _ ← resize bound (length items) name
    xs ← refill (λ j. integer numbers u8 j name) (pos 0) items
    ok (Elements.octets xs)
  bounded_elements bound (Elements.uint8s slot) items views name = do
    _ ← resize bound (length items) name
    xs ← refill (λ j. integer numbers u8 j name) (pos 0) items
    ok (Elements.uint8s xs)
  bounded_elements bound (Elements.int8s slot) items views name = do
    _ ← resize bound (length items) name
    xs ← refill (λ j. integer numbers i8 j name) (pos 0) items
    ok (Elements.int8s xs)
  bounded_elements bound (Elements.uint16s slot) items views name = do
    _ ← resize bound (length items) name
    xs ← refill (λ j. integer numbers u16 j name) (pos 0) items
    ok (Elements.uint16s xs)
  bounded_elements bound (Elements.int16s slot) items views name = do
    _ ← resize bound (length items) name
    xs ← refill (λ j. integer numbers i16 j name) (pos 0) items
    ok (Elements.int16s xs)
  bounded_elements bound (Elements.uint32s slot) items views name = do
    _ ← resize bound (length items) name
    xs ← refill (λ j. integer numbers u32 j name) (pos 0) items
    ok (Elements.uint32s xs)
  bounded_elements bound (Elements.int32s slot) items views name = do
    _ ← resize bound (length items) name
    xs ← refill (λ j. integer numbers i32 j name) (pos 0) items
    ok (Elements.int32s xs)
  bounded_elements bound (Elements.uint64s slot) items views name = do
    _ ← resize bound (length items) name
    xs ← refill (λ j. integer numbers u64 j name) (pos 0) items
    ok (Elements.uint64s xs)
  bounded_elements bound (Elements.int64s slot) items views name = do
    _ ← resize bound (length items) name
    xs ← refill (λ j. integer numbers i64 j name) (pos 0) items
    ok (Elements.int64s xs)
  bounded_elements bound (Elements.strings slot) items views name = do
    _ ← resize bound (length items) name
    xs ← refill (λ j. text j name) [] items
    ok (Elements.strings xs)
  bounded_elements bound (Elements.bounded_strings b slot) items views name = do
    _ ← resize bound (length items) name
    xs ← refill (λ j. bounded_text numbers b j name) [] items
    ok (Elements.bounded_strings b xs)
  bounded_elements bound (Elements.wstrings slot) items views name = do
    _ ← resize bound (length items) name
    xs ← refill (λ j. text j name) [] items
    ok (Elements.wstrings xs)
  bounded_elements bound (Elements.bounded_wstrings b slot) items views name = do
    _ ← resize bound (length items) name
    xs ← refill (λ j. bounded_wtext numbers b j name) [] items
    ok (Elements.bounded_wstrings b xs)
  bounded_elements bound Elements.long_doubles items views name = err (unsupported name)
  bounded_elements bound (Elements.messages default slot) items views name = do
    _ ← resize bound (length items) name
    xs ← assign_messages (reset (length items) default) views name
    ok (Elements.messages default xs)
