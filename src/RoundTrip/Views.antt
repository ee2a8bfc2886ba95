-- ===== src/RoundTrip/Views.antt =====
-- A message is read back by `decode` and `message_view` of src/publish/json.rs.
use pg_ros.Base.{Bool, ◌≡◌, ◌∙◌, refl, sym, Text, ok}
use pg_ros.Message.{
  Value, SimpleValue, Message, Fields, Messages, array, sequence, bounded_sequence, no_fields,
  field,
}
use pg_ros.Encoding.Encode.{Formatter}
use pg_ros.Encoding.Tree.{
  message_tree, fields_tree, value_tree, simple_tree, elements_tree, messages_tree,
}
use pg_ros.Decoding.Scalar.{Numbers, json_array, u8, i8, u16, i16, u32, i32, u64, i64}
use pg_ros.Decoding.Simple.{decode_simple}
use pg_ros.Decoding.Elements.{array_elements, sequence_elements, bounded_elements}
use pg_ros.Decoding.Loops.{count, assign_messages}
use pg_ros.Decoding.Decode.{
  value_mut, dotted, message_view, assign_members, item_views, views_of, decode,
}
use pg_ros.RoundTrip
use pg_ros.RoundTrip.{IsReadable, Same, SameFields, SameValue, SameSimple, SameEach}
use pg_ros.RoundTrip.Scalars.{
  float32-float_tree, float64-double_tree, integer-int_tree, boolean-bool_tree, text-text_tree,
  bounded_text-text_tree, bounded_wtext-text_tree, resize_room,
}
use pg_ros.RoundTrip.Arrays.{array_elements-elements_tree}
use pg_ros.RoundTrip.Sequences.{sequence_elements-elements_tree}
use pg_ros.RoundTrip.Bounded.{bounded_elements-elements_tree}
use pg_ros.RoundTrip.ByKey.{
  by_key, by_key_fields, by_key_value, by_key_simple, by_key_elements, by_key_messages,
  SameElements-by_key,
}
use pg_ros.RoundTrip.Reorder.{assign_members-insert, get-by_key_fields}
use pg_ros.RoundTrip.Apart.{
  get_here, put_here, Write, assign_members_step, assign_members_end, assign_field-some,
  assign_members-apart,
}
use pg_ros.RoundTrip.Members.{
  find_unknown-fields_tree, count-by_key_messages, SameEach-count, length-list_of,
  fill_message-views_of,
}

module _ (numbers : Numbers Text) (f : Formatter) (before : Text → Text → Bool) where
  module _ (laws : IsReadable numbers f) where
    mutual
      unfolding message_view message_tree fields_tree value_tree simple_tree elements_tree
          messages_tree by_key by_key_fields by_key_value by_key_simple by_key_elements
          by_key_messages value_mut json_array decode_simple array_elements sequence_elements
          bounded_elements assign_messages views_of item_views

      pub Same-message_view :
          {s m : Message} (name : Text)
          → Same numbers f s m
          → message_view numbers (message_tree f (by_key before m)) s name ≡ ok m
      Same-message_view name (RoundTrip.views {ss} {fs} h) =
          rw
            (
              find_unknown-fields_tree numbers f before ss h (λ key x. x),
              SameFields-assign_members (dotted numbers name) h,
            )
            refl

      pub SameFields-assign_members :
          {ss fs : Fields} (rename : Text → Text)
          → SameFields numbers f ss fs
          → assign_members numbers (fields_tree f (by_key_fields before fs)) ss rename ≡ ok fs
      SameFields-assign_members rename RoundTrip.none_left =
          assign_members_end numbers f no_fields rename
      SameFields-assign_members rename (RoundTrip.one_more {name} {s} {v} {ss} {fs} h absent rest) =
          let w = by_key_value before v in
          let ws = by_key_fields before fs in
          assign_members-insert numbers f before name w ws (field name s ss) (field name v fs)
            rename (get-by_key_fields before name fs absent)
            (assign_members_step numbers f name (value_tree f w) (fields_tree f ws)
                (field name s ss) rename
              ∙ rw
                  (
                    assign_field-some numbers f (field name s ss) name
                        (Write numbers f name (value_tree f w) rename) s (get_here name s ss),
                    SameValue-value_mut (rename name) h,
                    put_here name s v ss,
                    assign_members-apart numbers f ws name v ss rename
                        (get-by_key_fields before name fs absent),
                    SameFields-assign_members rename rest,
                  )
                  refl)

      SameValue-value_mut :
          {s v : Value} (name : Text)
          → SameValue numbers f s v
          → value_mut numbers s
              (value_tree f (by_key_value before v))
              (message_view numbers (value_tree f (by_key_value before v)))
              (item_views numbers (value_tree f (by_key_value before v)))
              name
            ≡ ok v
      SameValue-value_mut name (RoundTrip.simples h) = rw (SameSimple-decode_simple name h) refl
      SameValue-value_mut name (RoundTrip.arrays {s} {e} h same) =
          rw
            (
              SameElements-by_key before numbers f h,
              array_elements-elements_tree numbers f laws
                  (item_views numbers (value_tree f (array e))) name h same,
            )
            refl
      SameValue-value_mut name (RoundTrip.sequences {s} {e} h) =
          rw
            (
              SameElements-by_key before numbers f h,
              sequence_elements-elements_tree numbers f laws
                  (item_views numbers (value_tree f (sequence e))) name h,
            )
            refl
      SameValue-value_mut name (RoundTrip.bounded_sequences {bound} {s} {e} h room) =
          rw
            (
              SameElements-by_key before numbers f h,
              bounded_elements-elements_tree numbers f laws bound
                  (item_views numbers (value_tree f (bounded_sequence bound e))) name h room,
            )
            refl
      SameValue-value_mut name (RoundTrip.message_arrays {default} {ss} {ms} h) =
          rw
            (
              fill_message-views_of numbers f before ss (by_key_messages before ms) name (
                  SameEach-count numbers f before h
                  ∙ sym (count-by_key_messages numbers f before ms)),
              SameEach-assign_messages name h,
            )
            refl
      SameValue-value_mut name (RoundTrip.message_sequences {default} {ss} {ms} h) =
          rw
            (
              length-list_of numbers f before (by_key_messages before ms),
              count-by_key_messages numbers f before ms,
              SameEach-assign_messages name h,
            )
            refl
      SameValue-value_mut name
            (RoundTrip.message_bounded_sequences {bound} {default} {ss} {ms} h room) =
          rw
            (
              length-list_of numbers f before (by_key_messages before ms),
              count-by_key_messages numbers f before ms,
              resize_room bound (count ms) name room,
              SameEach-assign_messages name h,
            )
            refl

      SameSimple-decode_simple :
          {s v : SimpleValue} (name : Text)
          → SameSimple numbers f s v
          → decode_simple numbers s
              (simple_tree f (by_key_simple before v))
              (message_view numbers (simple_tree f (by_key_simple before v)))
              name
            ≡ ok v
      SameSimple-decode_simple name (RoundTrip.float {s} {v} h) =
          rw (float32-float_tree numbers f laws name v h) refl
      SameSimple-decode_simple name (RoundTrip.double {s} {v} h) =
          rw (float64-double_tree numbers f laws name v h) refl
      SameSimple-decode_simple name (RoundTrip.boolean {s} {v}) =
          rw (boolean-bool_tree numbers f laws name v) refl
      SameSimple-decode_simple name (RoundTrip.string {s} {v}) =
          rw (text-text_tree numbers f laws name v) refl
      SameSimple-decode_simple name (RoundTrip.wstring {s} {v}) =
          rw (text-text_tree numbers f laws name v) refl
      SameSimple-decode_simple name (RoundTrip.bounded_string {bound} {s} {v} h) =
          rw (bounded_text-text_tree numbers f laws bound name v h) refl
      SameSimple-decode_simple name (RoundTrip.bounded_wstring {bound} {s} {v} h) =
          rw (bounded_wtext-text_tree numbers f laws bound name v h) refl
      SameSimple-decode_simple name (RoundTrip.message h) = rw (Same-message_view name h) refl
      SameSimple-decode_simple name (RoundTrip.char {s} {v} h) =
          rw (integer-int_tree numbers f laws u8 name v h) refl
      SameSimple-decode_simple name (RoundTrip.wchar {s} {v} h) =
          rw (integer-int_tree numbers f laws u16 name v h) refl
      SameSimple-decode_simple name (RoundTrip.octet {s} {v} h) =
          rw (integer-int_tree numbers f laws u8 name v h) refl
      SameSimple-decode_simple name (RoundTrip.uint8 {s} {v} h) =
          rw (integer-int_tree numbers f laws u8 name v h) refl
      SameSimple-decode_simple name (RoundTrip.int8 {s} {v} h) =
          rw (integer-int_tree numbers f laws i8 name v h) refl
      SameSimple-decode_simple name (RoundTrip.uint16 {s} {v} h) =
          rw (integer-int_tree numbers f laws u16 name v h) refl
      SameSimple-decode_simple name (RoundTrip.int16 {s} {v} h) =
          rw (integer-int_tree numbers f laws i16 name v h) refl
      SameSimple-decode_simple name (RoundTrip.uint32 {s} {v} h) =
          rw (integer-int_tree numbers f laws u32 name v h) refl
      SameSimple-decode_simple name (RoundTrip.int32 {s} {v} h) =
          rw (integer-int_tree numbers f laws i32 name v h) refl
      SameSimple-decode_simple name (RoundTrip.uint64 {s} {v} h) =
          rw (integer-int_tree numbers f laws u64 name v h) refl
      SameSimple-decode_simple name (RoundTrip.int64 {s} {v} h) =
          rw (integer-int_tree numbers f laws i64 name v h) refl

      SameEach-assign_messages :
          {ss ms : Messages} (name : Text)
          → SameEach numbers f ss ms
          → assign_messages ss (views_of numbers (messages_tree f (by_key_messages before ms))) name
            ≡ ok ms
      SameEach-assign_messages name RoundTrip.done = refl
      SameEach-assign_messages name (RoundTrip.next h rest) =
          rw (Same-message_view name h, SameEach-assign_messages name rest) refl

    -- What is encoded is decoded back to itself, in whatever order of their keys the members of the JSON
    -- objects come: `decode` into a message of the same type gives the message that was encoded. The message
    -- has no long double and no two fields of one name, its values are in the range of their types, and its
    -- strings and sequences keep their bounds. A finite float is one that serde_json reads from its text, and
    -- one that is not finite is the NaN for which null stands. serde_json's accessors give the integers that
    -- their types can hold, from the decimal text, and the pieces of a string's `Display` make up the string.
    pub decode-message_tree :
        (s m : Message)
        → Same numbers f s m
        → decode numbers s (message_tree f (by_key before m)) ≡ ok m
    unfolding decode message_tree by_key
    decode-message_tree s m (RoundTrip.views {ss} {fs} h) =
        rw
          (
            find_unknown-fields_tree numbers f before ss h (λ key x. x),
            SameFields-assign_members (λ key. key) h,
          )
          refl
