-- ===== src/Decoding/SafeElements.antt =====
-- src/publish/json.rs: reading elements fails with an error of its own, and by no `expect`.
use pg_ros.Base.{false, ℕ, [], List, Text, All, length}
use pg_ros.Base.Int.{pos}
use pg_ros.Json.{Json}
use pg_ros.Message.{Elements}
use pg_ros.Decoding.Scalar.{
  Numbers, boolean, text, integer, float64, float32, bounded_text, bounded_wtext, u8, i8, u16, i16,
  u32, i32, u64, i64,
}
use pg_ros.Decoding.Loops.{View, reset}
use pg_ros.Decoding.Elements.{array_elements, sequence_elements, bounded_elements}
use pg_ros.Decoding.Safe.{
  Safe, Safe-map, Safe-bind, IsSafeView, float32-Safe, float64-Safe, boolean-Safe, text-Safe,
  integer-Safe, bounded_text-Safe, bounded_wtext-Safe, fill-Safe, collect-Safe, refill-Safe,
  resize-Safe, assign_messages-Safe, fill_message-Safe,
}

module _ {N : Type 0} (numbers : Numbers N) where
  pub array_elements-Safe :
      (slot : Elements) (items : List (Json N)) (views : List View) (name : Text)
      → All IsSafeView views
      → Safe (array_elements numbers slot items views name)
  unfolding array_elements
  array_elements-Safe (Elements.floats slot) items views name safe =
      Safe-map _
        (fill-Safe (λ j. float32 numbers j name) (λ j. float32-Safe numbers j name) slot items name)
  array_elements-Safe (Elements.doubles slot) items views name safe =
      Safe-map _
        (fill-Safe (λ j. float64 numbers j name) (λ j. float64-Safe numbers j name) slot items name)
  array_elements-Safe (Elements.chars slot) items views name safe = Safe-map _ (
      fill-Safe (λ j. integer numbers u8 j name) (λ j. integer-Safe numbers u8 j name) slot items
        name)
  array_elements-Safe (Elements.wchars slot) items views name safe = Safe-map _ (
      fill-Safe (λ j. integer numbers u16 j name) (λ j. integer-Safe numbers u16 j name) slot items
        name)
  array_elements-Safe (Elements.booleans slot) items views name safe =
      Safe-map _ (fill-Safe (λ j. boolean j name) (λ j. boolean-Safe j name) slot items name)
  array_elements-Safe (Elements.octets slot) items views name safe = Safe-map _ (
      fill-Safe (λ j. integer numbers u8 j name) (λ j. integer-Safe numbers u8 j name) slot items
        name)
  array_elements-Safe (Elements.uint8s slot) items views name safe = Safe-map _ (
      fill-Safe (λ j. integer numbers u8 j name) (λ j. integer-Safe numbers u8 j name) slot items
        name)
  array_elements-Safe (Elements.int8s slot) items views name safe = Safe-map _ (
      fill-Safe (λ j. integer numbers i8 j name) (λ j. integer-Safe numbers i8 j name) slot items
        name)
  array_elements-Safe (Elements.uint16s slot) items views name safe = Safe-map _ (
      fill-Safe (λ j. integer numbers u16 j name) (λ j. integer-Safe numbers u16 j name) slot items
        name)
  array_elements-Safe (Elements.int16s slot) items views name safe = Safe-map _ (
      fill-Safe (λ j. integer numbers i16 j name) (λ j. integer-Safe numbers i16 j name) slot items
        name)
  array_elements-Safe (Elements.uint32s slot) items views name safe = Safe-map _ (
      fill-Safe (λ j. integer numbers u32 j name) (λ j. integer-Safe numbers u32 j name) slot items
        name)
  array_elements-Safe (Elements.int32s slot) items views name safe = Safe-map _ (
      fill-Safe (λ j. integer numbers i32 j name) (λ j. integer-Safe numbers i32 j name) slot items
        name)
  array_elements-Safe (Elements.uint64s slot) items views name safe = Safe-map _ (
      fill-Safe (λ j. integer numbers u64 j name) (λ j. integer-Safe numbers u64 j name) slot items
        name)
  array_elements-Safe (Elements.int64s slot) items views name safe = Safe-map _ (
      fill-Safe (λ j. integer numbers i64 j name) (λ j. integer-Safe numbers i64 j name) slot items
        name)
  array_elements-Safe (Elements.strings slot) items views name safe =
      Safe-map _ (fill-Safe (λ j. text j name) (λ j. text-Safe j name) slot items name)
  array_elements-Safe (Elements.bounded_strings b slot) items views name safe = Safe-map _ (
      fill-Safe (λ j. bounded_text numbers b j name) (λ j. bounded_text-Safe numbers b j name) slot
        items name)
  array_elements-Safe (Elements.wstrings slot) items views name safe =
      Safe-map _ (fill-Safe (λ j. text j name) (λ j. text-Safe j name) slot items name)
  array_elements-Safe (Elements.bounded_wstrings b slot) items views name safe = Safe-map _ (
      fill-Safe (λ j. bounded_wtext numbers b j name) (λ j. bounded_wtext-Safe numbers b j name)
        slot items name)
  array_elements-Safe Elements.long_doubles items views name safe = Safe.refuses tt
  array_elements-Safe (Elements.messages default slot) items views name safe =
      Safe-map _ (fill_message-Safe slot views name safe)

  pub sequence_elements-Safe :
      (slot : Elements) (items : List (Json N)) (views : List View) (name : Text)
      → All IsSafeView views
      → Safe (sequence_elements numbers slot items views name)
  unfolding sequence_elements
  sequence_elements-Safe (Elements.floats slot) items views name safe =
      Safe-map _
        (collect-Safe (λ j. float32 numbers j name) (λ j. float32-Safe numbers j name) items)
  sequence_elements-Safe (Elements.doubles slot) items views name safe =
      Safe-map _
        (collect-Safe (λ j. float64 numbers j name) (λ j. float64-Safe numbers j name) items)
  sequence_elements-Safe (Elements.chars slot) items views name safe =
      Safe-map _
        (collect-Safe (λ j. integer numbers u8 j name) (λ j. integer-Safe numbers u8 j name) items)
  sequence_elements-Safe (Elements.wchars slot) items views name safe =
      Safe-map _ (
        collect-Safe (λ j. integer numbers u16 j name) (λ j. integer-Safe numbers u16 j name) items)
  sequence_elements-Safe (Elements.booleans slot) items views name safe =
      Safe-map _ (collect-Safe (λ j. boolean j name) (λ j. boolean-Safe j name) items)
  sequence_elements-Safe (Elements.octets slot) items views name safe =
      Safe-map _
        (collect-Safe (λ j. integer numbers u8 j name) (λ j. integer-Safe numbers u8 j name) items)
  sequence_elements-Safe (Elements.uint8s slot) items views name safe =
      Safe-map _
        (collect-Safe (λ j. integer numbers u8 j name) (λ j. integer-Safe numbers u8 j name) items)
  sequence_elements-Safe (Elements.int8s slot) items views name safe =
      Safe-map _
        (collect-Safe (λ j. integer numbers i8 j name) (λ j. integer-Safe numbers i8 j name) items)
  sequence_elements-Safe (Elements.uint16s slot) items views name safe =
      Safe-map _ (
        collect-Safe (λ j. integer numbers u16 j name) (λ j. integer-Safe numbers u16 j name) items)
  sequence_elements-Safe (Elements.int16s slot) items views name safe =
      Safe-map _ (
        collect-Safe (λ j. integer numbers i16 j name) (λ j. integer-Safe numbers i16 j name) items)
  sequence_elements-Safe (Elements.uint32s slot) items views name safe =
      Safe-map _ (
        collect-Safe (λ j. integer numbers u32 j name) (λ j. integer-Safe numbers u32 j name) items)
  sequence_elements-Safe (Elements.int32s slot) items views name safe =
      Safe-map _ (
        collect-Safe (λ j. integer numbers i32 j name) (λ j. integer-Safe numbers i32 j name) items)
  sequence_elements-Safe (Elements.uint64s slot) items views name safe =
      Safe-map _ (
        collect-Safe (λ j. integer numbers u64 j name) (λ j. integer-Safe numbers u64 j name) items)
  sequence_elements-Safe (Elements.int64s slot) items views name safe =
      Safe-map _ (
        collect-Safe (λ j. integer numbers i64 j name) (λ j. integer-Safe numbers i64 j name) items)
  sequence_elements-Safe (Elements.strings slot) items views name safe =
      Safe-map _ (collect-Safe (λ j. text j name) (λ j. text-Safe j name) items)
  sequence_elements-Safe (Elements.bounded_strings b slot) items views name safe = Safe-map _ (
      refill-Safe (λ j. bounded_text numbers b j name) (λ j. bounded_text-Safe numbers b j name) []
        items)
  sequence_elements-Safe (Elements.wstrings slot) items views name safe =
      Safe-map _ (collect-Safe (λ j. text j name) (λ j. text-Safe j name) items)
  sequence_elements-Safe (Elements.bounded_wstrings b slot) items views name safe = Safe-map _ (
      refill-Safe (λ j. bounded_wtext numbers b j name) (λ j. bounded_wtext-Safe numbers b j name)
        [] items)
  sequence_elements-Safe Elements.long_doubles items views name safe = Safe.refuses tt
  sequence_elements-Safe (Elements.messages default slot) items views name safe =
      Safe-map _ (assign_messages-Safe (reset (length items) default) views name safe)

  pub bounded_elements-Safe :
      (bound : ℕ) (slot : Elements) (items : List (Json N)) (views : List View) (name : Text)
      → All IsSafeView views
      → Safe (bounded_elements numbers bound slot items views name)
  unfolding bounded_elements
  bounded_elements-Safe bound (Elements.floats slot) items views name safe =
      Safe-bind (resize-Safe bound (length items) name) λ _.
        Safe-map _
          (refill-Safe (λ j. float32 numbers j name) (λ j. float32-Safe numbers j name) 0 items)
  bounded_elements-Safe bound (Elements.doubles slot) items views name safe =
      Safe-bind (resize-Safe bound (length items) name) λ _.
        Safe-map _
          (refill-Safe (λ j. float64 numbers j name) (λ j. float64-Safe numbers j name) 0 items)
  bounded_elements-Safe bound (Elements.chars slot) items views name safe =
      Safe-bind (resize-Safe bound (length items) name) λ _. Safe-map _ (
        refill-Safe (λ j. integer numbers u8 j name) (λ j. integer-Safe numbers u8 j name) (pos 0)
          items)
  bounded_elements-Safe bound (Elements.wchars slot) items views name safe =
      Safe-bind (resize-Safe bound (length items) name) λ _. Safe-map _ (
        refill-Safe (λ j. integer numbers u16 j name) (λ j. integer-Safe numbers u16 j name) (pos 0)
          items)
  bounded_elements-Safe bound (Elements.booleans slot) items views name safe =
      Safe-bind (resize-Safe bound (length items) name)
        λ _. Safe-map _ (refill-Safe (λ j. boolean j name) (λ j. boolean-Safe j name) false items)
  bounded_elements-Safe bound (Elements.octets slot) items views name safe =
      Safe-bind (resize-Safe bound (length items) name) λ _. Safe-map _ (
        refill-Safe (λ j. integer numbers u8 j name) (λ j. integer-Safe numbers u8 j name) (pos 0)
          items)
  bounded_elements-Safe bound (Elements.uint8s slot) items views name safe =
      Safe-bind (resize-Safe bound (length items) name) λ _. Safe-map _ (
        refill-Safe (λ j. integer numbers u8 j name) (λ j. integer-Safe numbers u8 j name) (pos 0)
          items)
  bounded_elements-Safe bound (Elements.int8s slot) items views name safe =
      Safe-bind (resize-Safe bound (length items) name) λ _. Safe-map _ (
        refill-Safe (λ j. integer numbers i8 j name) (λ j. integer-Safe numbers i8 j name) (pos 0)
          items)
  bounded_elements-Safe bound (Elements.uint16s slot) items views name safe =
      Safe-bind (resize-Safe bound (length items) name) λ _. Safe-map _ (
        refill-Safe (λ j. integer numbers u16 j name) (λ j. integer-Safe numbers u16 j name) (pos 0)
          items)
  bounded_elements-Safe bound (Elements.int16s slot) items views name safe =
      Safe-bind (resize-Safe bound (length items) name) λ _. Safe-map _ (
        refill-Safe (λ j. integer numbers i16 j name) (λ j. integer-Safe numbers i16 j name) (pos 0)
          items)
  bounded_elements-Safe bound (Elements.uint32s slot) items views name safe =
      Safe-bind (resize-Safe bound (length items) name) λ _. Safe-map _ (
        refill-Safe (λ j. integer numbers u32 j name) (λ j. integer-Safe numbers u32 j name) (pos 0)
          items)
  bounded_elements-Safe bound (Elements.int32s slot) items views name safe =
      Safe-bind (resize-Safe bound (length items) name) λ _. Safe-map _ (
        refill-Safe (λ j. integer numbers i32 j name) (λ j. integer-Safe numbers i32 j name) (pos 0)
          items)
  bounded_elements-Safe bound (Elements.uint64s slot) items views name safe =
      Safe-bind (resize-Safe bound (length items) name) λ _. Safe-map _ (
        refill-Safe (λ j. integer numbers u64 j name) (λ j. integer-Safe numbers u64 j name) (pos 0)
          items)
  bounded_elements-Safe bound (Elements.int64s slot) items views name safe =
      Safe-bind (resize-Safe bound (length items) name) λ _. Safe-map _ (
        refill-Safe (λ j. integer numbers i64 j name) (λ j. integer-Safe numbers i64 j name) (pos 0)
          items)
  bounded_elements-Safe bound (Elements.strings slot) items views name safe =
      Safe-bind (resize-Safe bound (length items) name)
        λ _. Safe-map _ (refill-Safe (λ j. text j name) (λ j. text-Safe j name) [] items)
  bounded_elements-Safe bound (Elements.bounded_strings b slot) items views name safe =
      Safe-bind (resize-Safe bound (length items) name) λ _. Safe-map _ (
        refill-Safe (λ j. bounded_text numbers b j name) (λ j. bounded_text-Safe numbers b j name)
          [] items)
  bounded_elements-Safe bound (Elements.wstrings slot) items views name safe =
      Safe-bind (resize-Safe bound (length items) name)
        λ _. Safe-map _ (refill-Safe (λ j. text j name) (λ j. text-Safe j name) [] items)
  bounded_elements-Safe bound (Elements.bounded_wstrings b slot) items views name safe =
      Safe-bind (resize-Safe bound (length items) name) λ _. Safe-map _ (
        refill-Safe (λ j. bounded_wtext numbers b j name) (λ j. bounded_wtext-Safe numbers b j name)
          [] items)
  bounded_elements-Safe bound Elements.long_doubles items views name safe = Safe.refuses tt
  bounded_elements-Safe bound (Elements.messages default slot) items views name safe =
      Safe-bind (resize-Safe bound (length items) name)
        λ _. Safe-map _ (assign_messages-Safe (reset (length items) default) views name safe)
