-- ===== src/RoundTrip/Tests.antt =====
-- A message that is read back: serde_json's numbers are decimal texts here.
use native.Mathlib.Decide.{ℕ_discrete}
use pg_ros.Base.{
  ℕ, zero, suc, ◌%◌, ◌/◌, ◌≤◌, ◌≡◌, ◌∙◌, refl, sym, ap, Bool-cases, false, inl, inr, some, List, [],
  ◌∷◌, append-nil, Text, Text-discrete, ascii, ok, All, length, concat, ltb, ◌==◌, if◌then◌else◌,
  arith,
}
use pg_ros.Base.Int.{ℤ, pos, negsuc, decimal, decimal_onto, digit, read_onto, read_onto-decimal}
use pg_ros.Message.{
  SimpleValue, Elements, Message, simple, array, bounded_sequence, view, no_fields, field,
  no_messages, item,
}
use pg_ros.Encoding.Encode.{Formatter, int_pieces}
use pg_ros.Encoding.Tree.{message_tree, float_tree}
use pg_ros.Decoding.Scalar.{Numbers, fits, float32, float64, i16, u64, i64}
use pg_ros.Decoding.Decode.{decode, get}
use pg_ros.Decoding.Typed.{size_of}
use pg_ros.Decoding.Range.{Holds, width, in_range, in_range_iff}
use pg_ros.RoundTrip
use pg_ros.RoundTrip.{IsReadable, Same, SameFields}
use pg_ros.Base.Order.{le_text}
use pg_ros.RoundTrip.ByKey.{by_key}
use pg_ros.RoundTrip.Views.{decode-message_tree}

-- A decimal text with a sign, if it has one.
abbrev negated : ℕ → ℤ
negated zero = pos 0
negated (suc n) = negsuc n

abbrev parse : Text → ℤ
parse [] = pos 0
parse (c ∷ s) = if c == b'-' then negated (read_onto 0 s) else pos (read_onto 0 (c ∷ s))

abbrev numbers : Numbers Text
numbers = record {
  as_i64 = λ s. in_range i64 (parse s);
  as_u64 = λ s. in_range u64 (parse s);
  as_f64 = λ s. some (read_onto 0 s);
  nan = 0x7ff8000000000000;
  to_f32 = λ bits. bits;
  string_size = λ s. length s;
  wstring_size = λ s. length s;
}

abbrev formatter : Formatter
formatter = record {
  quote = λ s. s;
  pieces = λ s. s ∷ [];
  float_pieces = λ bits. decimal bits ∷ [];
  double_pieces = λ bits. decimal bits ∷ [];
}

decimal_onto-digits :
    (fuel n : ℕ) (acc : Text)
    → All (λ c. b'0' ≤ c) acc
    → All (λ c. b'0' ≤ c) (decimal_onto fuel n acc)
unfolding decimal_onto
decimal_onto-digits zero n acc h = h
decimal_onto-digits (suc fuel) n acc h = elim (Bool-cases (ltb n 10)) [
  | inl last ↦ rw last (omega arith, h)
  | inr more ↦ rw more (decimal_onto-digits fuel (n / 10) (digit (n % 10) ∷ acc) (omega arith, h))
]

parse-digits : (s : Text) → All (λ c. b'0' ≤ c) s → parse s ≡ pos (read_onto 0 s)
unfolding read_onto
parse-digits [] h = refl
parse-digits (c ∷ s) h =
    let digit_first : (c == b'-') ≡ false = ground (arith, h.0) in rw digit_first refl

parse-decimal : (n : ℕ) → parse (decimal n) ≡ pos n
unfolding decimal
parse-decimal n =
    parse-digits (decimal n) (decimal_onto-digits (suc n) n [] tt) ∙ ap pos (read_onto-decimal n)

parse-int_pieces : (v : ℤ) → parse (concat (int_pieces v)) ≡ v
unfolding int_pieces
parse-int_pieces (pos n) = rw (append-nil (decimal n), parse-decimal n) refl
parse-int_pieces (negsuc n) = rw (append-nil (decimal (suc n)), read_onto-decimal (suc n)) refl

numbers-IsReadable : IsReadable numbers formatter
numbers-IsReadable = record {
  number_of = λ s. some (parse s);
  accessed = record {
    as_i64_iff = λ s n. in_range_iff i64 (parse s) n;
    as_u64_iff = λ s n. in_range_iff u64 (parse s) n;
  };
  integers_read = λ t v h. ap some (parse-int_pieces v);
  pieces_whole = append-nil;
}

-- A message with an integer, a float, a NaN, a message with a string, an array and a bounded sequence of messages.
abbrev inner : Text → List ℤ → Message
inner s vs = view (
    field (ascii "s") (simple (SimpleValue.string s))
      (field (ascii "v") (array (Elements.int16s vs)) no_fields))

abbrev empty : Message
empty = inner [] (pos 0 ∷ pos 0 ∷ [])

abbrev written : Message
written = view (
    field (ascii "x") (simple (SimpleValue.int32 (negsuc 4))) (
      field (ascii "f") (simple (SimpleValue.float 7)) (
        field (ascii "d") (simple (SimpleValue.double 0x7ff8000000000000)) (
          field (ascii "p")
            (simple (SimpleValue.message (inner (ascii "a\"b") (pos 10 ∷ negsuc 0 ∷ []))))
            (field (ascii "q")
              (bounded_sequence 3
                (Elements.messages empty (item (inner [] (pos 1 ∷ pos 2 ∷ [])) no_messages)))
              no_fields)))))

abbrev fresh : Message
fresh = view (
    field (ascii "x") (simple (SimpleValue.int32 (pos 0))) (
      field (ascii "f") (simple (SimpleValue.float 0)) (
        field (ascii "d") (simple (SimpleValue.double 0)) (
          field (ascii "p") (simple (SimpleValue.message empty)) (
            field (ascii "q") (bounded_sequence 3 (Elements.messages empty no_messages))
              no_fields)))))

inner-Same :
    (s : Text) (vs : List ℤ)
    → length vs ≡ 2
    → All (λ v. Holds (width i16) v) vs
    → Same numbers formatter empty (inner s vs)
unfolding get Text-discrete ℕ_discrete size_of
inner-Same s vs e h = RoundTrip.views (
    RoundTrip.one_more (RoundTrip.simples RoundTrip.string) refl
      (RoundTrip.one_more (RoundTrip.arrays (RoundTrip.int16s h) (sym e)) refl RoundTrip.none_left))

written-Same : Same numbers formatter fresh written
unfolding get Text-discrete ℕ_discrete fits float32 float64 float_tree decimal read_onto
written-Same = RoundTrip.views (
    RoundTrip.one_more (RoundTrip.simples (RoundTrip.int32 (omega arith))) refl (
      RoundTrip.one_more (RoundTrip.simples (RoundTrip.float (inl (refl, refl)))) refl (
        RoundTrip.one_more (RoundTrip.simples (RoundTrip.double (inr (refl, refl)))) refl (
          RoundTrip.one_more
            (RoundTrip.simples
              (RoundTrip.message (inner-Same _ _ refl (omega arith, (omega arith, tt)))))
            refl
            (RoundTrip.one_more
              (RoundTrip.message_bounded_sequences
                (RoundTrip.next (inner-Same _ _ refl (omega arith, (omega arith, tt)))
                  RoundTrip.done)
                (omega arith))
              refl RoundTrip.none_left)))))

decode-message_tree_example :
    decode numbers fresh (message_tree formatter (by_key le_text written)) ≡ ok written
decode-message_tree_example =
    decode-message_tree numbers formatter le_text numbers-IsReadable fresh written written-Same
