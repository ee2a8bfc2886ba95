-- ===== src/RoundTrip/Sequences.antt =====
-- Sequences of the JSON decoder: a list of elements is read back into the sequence.
use pg_ros.Base.{◌≡◌, refl, List, [], Text, ok}
use pg_ros.Message.{Elements}
use pg_ros.Encoding.Encode.{Formatter}
use pg_ros.Encoding.Tree.{bool_tree, text_tree, float_tree, double_tree, elements_tree}
use pg_ros.Decoding.Scalar.{
  Numbers, boolean, text, bounded_text, bounded_wtext, float32, float64, list_of, u8, i8, u16, i16,
  u32, i32, u64, i64,
}
use pg_ros.Decoding.Loops.{View}
use pg_ros.Decoding.Elements.{sequence_elements}
use pg_ros.RoundTrip
use pg_ros.RoundTrip.{IsReadable, SameElements}
use pg_ros.RoundTrip.Scalars.{
  collect-items_of, refill-items_of, collect-integer, float32-float_tree, float64-double_tree,
  All-every, All-weaken, boolean-bool_tree, text-text_tree, bounded_text-text_tree,
  bounded_wtext-text_tree,
}

module _ (numbers : Numbers Text) (f : Formatter) (laws : IsReadable numbers f) where
  pub sequence_elements-elements_tree :
      {s e : Elements} (views : List View) (name : Text)
      → SameElements numbers f s e
      → sequence_elements numbers s (list_of (elements_tree f e)) views name ≡ ok e
  unfolding sequence_elements elements_tree
  sequence_elements-elements_tree views name (RoundTrip.floats {s} {xs} h) =
      rw
        (collect-items_of (float_tree f) (λ j. float32 numbers j name) xs
          (All-weaken (float32-float_tree numbers f laws name) xs h))
        refl
  sequence_elements-elements_tree views name (RoundTrip.doubles {s} {xs} h) =
      rw
        (collect-items_of (double_tree f) (λ j. float64 numbers j name) xs
          (All-weaken (float64-double_tree numbers f laws name) xs h))
        refl
  sequence_elements-elements_tree views name (RoundTrip.booleans {s} {xs}) =
      rw
        (collect-items_of bool_tree (λ j. boolean j name) xs
          (All-every (boolean-bool_tree numbers f laws name) xs))
        refl
  sequence_elements-elements_tree views name (RoundTrip.strings {s} {xs}) =
      rw
        (collect-items_of (text_tree f) (λ j. text j name) xs
          (All-every (text-text_tree numbers f laws name) xs))
        refl
  sequence_elements-elements_tree views name (RoundTrip.wstrings {s} {xs}) =
      rw
        (collect-items_of (text_tree f) (λ j. text j name) xs
          (All-every (text-text_tree numbers f laws name) xs))
        refl
  sequence_elements-elements_tree views name (RoundTrip.bounded_strings {bound = b} {s} {xs} h) =
      rw
        (refill-items_of (text_tree f) (λ j. bounded_text numbers b j name) [] xs
          (All-weaken (λ v l. bounded_text-text_tree numbers f laws b name v l) xs h))
        refl
  sequence_elements-elements_tree views name (RoundTrip.bounded_wstrings {bound = b} {s} {xs} h) =
      rw
        (refill-items_of (text_tree f) (λ j. bounded_wtext numbers b j name) [] xs
          (All-weaken (λ v l. bounded_wtext-text_tree numbers f laws b name v l) xs h))
        refl
  sequence_elements-elements_tree views name (RoundTrip.chars {s} {xs} h) =
      rw (collect-integer numbers f laws u8 xs name h) refl
  sequence_elements-elements_tree views name (RoundTrip.wchars {s} {xs} h) =
      rw (collect-integer numbers f laws u16 xs name h) refl
  sequence_elements-elements_tree views name (RoundTrip.octets {s} {xs} h) =
      rw (collect-integer numbers f laws u8 xs name h) refl
  sequence_elements-elements_tree views name (RoundTrip.uint8s {s} {xs} h) =
      rw (collect-integer numbers f laws u8 xs name h) refl
  sequence_elements-elements_tree views name (RoundTrip.int8s {s} {xs} h) =
      rw (collect-integer numbers f laws i8 xs name h) refl
  sequence_elements-elements_tree views name (RoundTrip.uint16s {s} {xs} h) =
      rw (collect-integer numbers f laws u16 xs name h) refl
  sequence_elements-elements_tree views name (RoundTrip.int16s {s} {xs} h) =
      rw (collect-integer numbers f laws i16 xs name h) refl
  sequence_elements-elements_tree views name (RoundTrip.uint32s {s} {xs} h) =
      rw (collect-integer numbers f laws u32 xs name h) refl
  sequence_elements-elements_tree views name (RoundTrip.int32s {s} {xs} h) =
      rw (collect-integer numbers f laws i32 xs name h) refl
  sequence_elements-elements_tree views name (RoundTrip.uint64s {s} {xs} h) =
      rw (collect-integer numbers f laws u64 xs name h) refl
  sequence_elements-elements_tree views name (RoundTrip.int64s {s} {xs} h) =
      rw (collect-integer numbers f laws i64 xs name h) refl
