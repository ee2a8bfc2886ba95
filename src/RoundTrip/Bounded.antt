-- ===== src/RoundTrip/Bounded.antt =====
-- Bounded sequences of the JSON decoder: a list of elements that has room is read back.
use pg_ros.Base.{ℕ, ◌≤◌, ◌≡◌, refl, false, List, [], Text, ok}
use pg_ros.Message.{Elements}
use pg_ros.Encoding.Encode.{Formatter}
use pg_ros.Encoding.Tree.{int_tree, bool_tree, text_tree, float_tree, double_tree, elements_tree}
use pg_ros.Decoding.Scalar.{
  Numbers, boolean, text, bounded_text, bounded_wtext, float32, float64, list_of, u8, i8, u16, i16,
  u32, i32, u64, i64,
}
use pg_ros.Decoding.Loops.{View}
use pg_ros.Decoding.Elements.{bounded_elements}
use pg_ros.Decoding.Typed.{size_of}
use pg_ros.RoundTrip
use pg_ros.RoundTrip.{IsReadable, SameElements}
use pg_ros.RoundTrip.Scalars.{
  refill-items_of, resize-items_of, refill-integer, float32-float_tree, float64-double_tree,
  All-every, All-weaken, boolean-bool_tree, text-text_tree, bounded_text-text_tree,
  bounded_wtext-text_tree,
}

module _ (numbers : Numbers Text) (f : Formatter) (laws : IsReadable numbers f) where
  pub bounded_elements-elements_tree :
      {s e : Elements} (bound : ℕ) (views : List View) (name : Text)
      → SameElements numbers f s e
      → size_of e ≤ bound
      → bounded_elements numbers bound s (list_of (elements_tree f e)) views name ≡ ok e
  unfolding bounded_elements elements_tree size_of
  bounded_elements-elements_tree bound views name (RoundTrip.floats {s} {xs} h) room =
      rw
        (
          resize-items_of (float_tree f) bound xs name room,
          refill-items_of (float_tree f) (λ j. float32 numbers j name) 0 xs
              (All-weaken (float32-float_tree numbers f laws name) xs h),
        )
        refl
  bounded_elements-elements_tree bound views name (RoundTrip.doubles {s} {xs} h) room =
      rw
        (
          resize-items_of (double_tree f) bound xs name room,
          refill-items_of (double_tree f) (λ j. float64 numbers j name) 0 xs
              (All-weaken (float64-double_tree numbers f laws name) xs h),
        )
        refl
  bounded_elements-elements_tree bound views name (RoundTrip.booleans {s} {xs}) room =
      rw
        (
          resize-items_of bool_tree bound xs name room,
          refill-items_of bool_tree (λ j. boolean j name) false xs
              (All-every (boolean-bool_tree numbers f laws name) xs),
        )
        refl
  bounded_elements-elements_tree bound views name (RoundTrip.strings {s} {xs}) room =
      rw
        (
          resize-items_of (text_tree f) bound xs name room,
          refill-items_of (text_tree f) (λ j. text j name) [] xs
              (All-every (text-text_tree numbers f laws name) xs),
        )
        refl
  bounded_elements-elements_tree bound views name (RoundTrip.wstrings {s} {xs}) room =
      rw
        (
          resize-items_of (text_tree f) bound xs name room,
          refill-items_of (text_tree f) (λ j. text j name) [] xs
              (All-every (text-text_tree numbers f laws name) xs),
        )
        refl
  bounded_elements-elements_tree bound views name (RoundTrip.bounded_strings {bound = b} {s} {xs} h)
        room =
      rw
        (
          resize-items_of (text_tree f) bound xs name room,
          refill-items_of (text_tree f) (λ j. bounded_text numbers b j name) [] xs
              (All-weaken (λ v l. bounded_text-text_tree numbers f laws b name v l) xs h),
        )
        refl
  bounded_elements-elements_tree bound views name
        (RoundTrip.bounded_wstrings {bound = b} {s} {xs} h) room =
      rw
        (
          resize-items_of (text_tree f) bound xs name room,
          refill-items_of (text_tree f) (λ j. bounded_wtext numbers b j name) [] xs
              (All-weaken (λ v l. bounded_wtext-text_tree numbers f laws b name v l) xs h),
        )
        refl
  bounded_elements-elements_tree bound views name (RoundTrip.chars {s} {xs} h) room =
      rw (resize-items_of int_tree bound xs name room, refill-integer numbers f laws u8 xs name h)
        refl
  bounded_elements-elements_tree bound views name (RoundTrip.wchars {s} {xs} h) room =
      rw (resize-items_of int_tree bound xs name room, refill-integer numbers f laws u16 xs name h)
        refl
  bounded_elements-elements_tree bound views name (RoundTrip.octets {s} {xs} h) room =
      rw (resize-items_of int_tree bound xs name room, refill-integer numbers f laws u8 xs name h)
        refl
  bounded_elements-elements_tree bound views name (RoundTrip.uint8s {s} {xs} h) room =
      rw (resize-items_of int_tree bound xs name room, refill-integer numbers f laws u8 xs name h)
        refl
  bounded_elements-elements_tree bound views name (RoundTrip.int8s {s} {xs} h) room =
      rw (resize-items_of int_tree bound xs name room, refill-integer numbers f laws i8 xs name h)
        refl
  bounded_elements-elements_tree bound views name (RoundTrip.uint16s {s} {xs} h) room =
      rw (resize-items_of int_tree bound xs name room, refill-integer numbers f laws u16 xs name h)
        refl
  bounded_elements-elements_tree bound views name (RoundTrip.int16s {s} {xs} h) room =
      rw (resize-items_of int_tree bound xs name room, refill-integer numbers f laws i16 xs name h)
        refl
  bounded_elements-elements_tree bound views name (RoundTrip.uint32s {s} {xs} h) room =
      rw (resize-items_of int_tree bound xs name room, refill-integer numbers f laws u32 xs name h)
        refl
  bounded_elements-elements_tree bound views name (RoundTrip.int32s {s} {xs} h) room =
      rw (resize-items_of int_tree bound xs name room, refill-integer numbers f laws i32 xs name h)
        refl
  bounded_elements-elements_tree bound views name (RoundTrip.uint64s {s} {xs} h) room =
      rw (resize-items_of int_tree bound xs name room, refill-integer numbers f laws u64 xs name h)
        refl
  bounded_elements-elements_tree bound views name (RoundTrip.int64s {s} {xs} h) room =
      rw (resize-items_of int_tree bound xs name room, refill-integer numbers f laws i64 xs name h)
        refl
