-- ===== src/Decoding/Tests.antt =====
-- Runs of the decoder of src/publish/json.rs over JSON numbers that are integers, and its theorems
-- there.
use native.Mathlib.Decide.{ℕ_discrete}
use pg_ros.Base.{
  ◌≡◌, ◌≢◌, refl, ◌↔◌, none, some, [], ◌∷◌, Text, Text-discrete, ascii, ok, err, length, arith, inl,
  inr,
}
use pg_ros.Base.Int.{ℤ, pos, pos_part}
use pg_ros.Json.{Members, number, object, no_members, member, no_items, item, null}
use pg_ros.Json.{array as json_list}
use pg_ros.Message.{SimpleValue, Elements, Fields, simple, bounded_sequence, view, no_fields, field}
use pg_ros.Decoding.Scalar.{
  Numbers, fits, as_integer, integer, u8, u64, i64, unknown_message_field, out_of_range,
  too_many_elements,
}
use pg_ros.Decoding.Loops.{refill, resize}
use pg_ros.Decoding.Elements.{bounded_elements}
use pg_ros.Decoding.Decode.{get, put, value_mut, assign_field, find_unknown, assign_members, decode}
use pg_ros.Decoding.Typed
use pg_ros.Decoding.Typed.{HasType, size_of}
use pg_ros.Decoding.Typed.Decode.{decode-HasType}
use pg_ros.Decoding.FieldAccess.{Mentions, decode-known, decode-unmentioned}
use pg_ros.Decoding.Scalar.{expect_failed}
use pg_ros.Decoding.SafeDecode.{decode-expect_failed}
use pg_ros.Decoding.Range.{
  Holds, width, in_range, in_range_iff, IsAccessed, integer_of, integer_iff,
}

abbrev integers : Numbers ℤ
integers = record {
  as_i64 = λ n. some n;
  as_u64 = λ n. none;
  as_f64 = λ n. some (pos_part n);
  nan = 0x7ff8000000000000;
  to_f32 = λ bits. bits;
  string_size = λ s. length s;
  wstring_size = λ s. length s;
}

abbrev a : Text
a = ascii "a"

abbrev b : Text
b = ascii "b"

-- A byte, and a sequence of at most two bytes.
abbrev fields : Fields
fields =
    field a (simple (SimpleValue.uint8 (pos 7)))
      (field b (bounded_sequence 2 (Elements.uint8s [])) no_fields)

abbrev filled : Fields
filled =
    field a (simple (SimpleValue.uint8 (pos 7)))
      (field b (bounded_sequence 2 (Elements.uint8s (pos 1 ∷ pos 255 ∷ []))) no_fields)

abbrev members : Members ℤ
members = member b (json_list (item (number (pos 1)) (item (number (pos 255)) no_items))) no_members

decodes : decode integers (view fields) (object members) ≡ ok (view filled)
unfolding decode find_unknown assign_members assign_field get put value_mut bounded_elements resize
    refill integer as_integer fits Text-discrete ℕ_discrete
decodes = refl

-- 256 is no byte, three elements are too many, and an unknown key is refused before anything is read.
rejects_range : integer integers u8 (number (pos 256)) a ≡ err (out_of_range a (pos 256))
unfolding integer as_integer fits
rejects_range = refl

rejects_length : resize 2 3 b ≡ err (too_many_elements b 3 2)
unfolding resize
rejects_length = refl

rejects_unknown :
    decode integers (view fields) (object (member (ascii "c") null members))
    ≡ err (unknown_message_field (ascii "c"))
unfolding decode find_unknown get Text-discrete ℕ_discrete
rejects_unknown = refl

fields-HasType : HasType integers (view fields) (view fields)
unfolding size_of fits
fields-HasType = Typed.views (
    Typed.one_more (Typed.simples (Typed.uint8 refl))
      (Typed.one_more (Typed.bounded_sequences (Typed.uint8s tt) (omega arith)) Typed.none_left))

decode-HasType_example : HasType integers (view fields) (view filled)
decode-HasType_example =
    decode-HasType integers (view fields) (view fields) (view filled) (object members)
      fields-HasType decodes

decode-known_example : get fields b ≢ none
decode-known_example = decode-known integers fields filled members b decodes (inl refl)

a_not_mentioned : ¬ Mentions a members
a_not_mentioned m = elim m [ inl e ↦ ground arith | inr x ↦ absurd x ]

decode-unmentioned_example : get filled a ≡ get fields a
decode-unmentioned_example =
    decode-unmentioned integers fields filled members a decodes a_not_mentioned

-- serde_json's accessors, on numbers that are integers.
abbrev accessors : Numbers ℤ
accessors = record integers { as_i64 = in_range i64; as_u64 = in_range u64 }

accessors-IsAccessed : IsAccessed accessors some
accessors-IsAccessed = record { as_i64_iff = in_range_iff i64; as_u64_iff = in_range_iff u64 }

-- The greatest `u64`, which `as_i64` does not give.
integer_iff_example :
    (integer accessors u64 (number (pos 0xffff_ffff_ffff_ffff)) a ≡ ok (pos 0xffff_ffff_ffff_ffff))
    ↔ ((integer_of accessors some (number (pos 0xffff_ffff_ffff_ffff))
          ≡ some (pos 0xffff_ffff_ffff_ffff))
        × Holds (width u64) (pos 0xffff_ffff_ffff_ffff))
integer_iff_example =
    integer_iff accessors some accessors-IsAccessed u64 (number (pos 0xffff_ffff_ffff_ffff)) a
      (pos 0xffff_ffff_ffff_ffff)

decode-expect_failed_example : decode integers (view fields) (object members) ≢ err expect_failed
decode-expect_failed_example = decode-expect_failed integers (view fields) (object members)
