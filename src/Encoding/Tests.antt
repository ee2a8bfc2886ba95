-- ===== src/Encoding/Tests.antt =====
-- Runs of the encoder of src/subscriptions/json.rs with a concrete formatter, and its theorems there.
use pg_ros.Base.{
  ◌≤◌, ◌≡◌, refl, ◌↔◌, true, [], ◌∷◌, ◌++◌, Text, ascii, ok, err, length, All, if◌then◌else◌, arith,
  ltb, length-append, Bool-cases, inl, inr,
}
use pg_ros.Base.Int.{pos, negsuc, decimal}
use pg_ros.Message.{SimpleValue, Elements, Message, simple, sequence, view, no_fields, field}
use pg_ros.Encoding.Output
use pg_ros.Encoding.Output.{limit_exceeded, nesting, long_double, push, new, string}
use pg_ros.Encoding.Encode.{
  Formatter, payload, notify_limit, encode_message, int_pieces, float_value, int_value, text_value,
  str_value,
}
use pg_ros.Encoding.Tree.{height, is_supported}
use pg_ros.Encoding.Renders.{IsFormatter, is_plain}
use pg_ros.Encoding.Payload.{payload_text, payload_lem, payload-eq-ok_iff}

-- A quotation that puts a backslash before each byte that is not plain.
abbrev escape : Text → Text
escape [] = []
escape (c ∷ s) = if is_plain c then c ∷ escape s else (b'\\' ∷ c ∷ escape s)

length-escape : (s : Text) → length s ≤ length (escape s)
length-escape [] = omega arith
length-escape (c ∷ s) = elim (Bool-cases (is_plain c)) [
  | inl e ↦ rw e (omega (arith, length-escape s))
  | inr e ↦ rw e (omega (arith, length-escape s))
]

escape_plain : (s : Text) → All (λ c. is_plain c ≡ true) s → escape s ≡ s
escape_plain [] h = refl
escape_plain (c ∷ s) h = rw (h.0, escape_plain s h.1)

abbrev formatter : Formatter
formatter = record {
  quote = λ s. ascii "\"" ++ (escape s ++ ascii "\"");
  pieces = λ s. s ∷ [];
  float_pieces = λ bits. decimal bits ∷ [];
  double_pieces = λ bits. decimal bits ∷ [];
}

formatter-IsFormatter : IsFormatter formatter
formatter-IsFormatter = record {
  quote_grows = λ s. omega (arith, length-escape s, length-append (escape s) (ascii "\""));
  quote_plain = λ s h. rw (escape_plain s h);
}

-- {"x":-5,"p":{"v":[1,2],"s":"a\"b"},"f":null} with an infinite float at the end.
abbrev sample : Message
sample = view (
    field (ascii "x") (simple (SimpleValue.int32 (negsuc 4))) (
      field (ascii "p")
        (simple (
          SimpleValue.message (
            view (
              field (ascii "v") (sequence (Elements.uint8s (pos 1 ∷ pos 2 ∷ [])))
                (field (ascii "s") (simple (SimpleValue.string (ascii "a\"b"))) no_fields)))))
        (field (ascii "f") (simple (SimpleValue.float 0x7f800000)) no_fields)))

abbrev topic : Text
topic = ascii "/t"

abbrev kind : Text
kind = ascii "p/msg/T"

encodes :
    payload formatter topic kind 7 sample notify_limit
    ≡ ok (
        ascii
          "{\"topic\":\"/t\",\"message_type\":\"p/msg/T\",\"sequence\":7,\"message\":{\"x\":-5,\"p\":{\"v\":[1,2],\"s\":\"a\\\"b\"},\"f\":null}}")
unfolding payload encode_message int_pieces decimal push string Output.array Output.number
    Output.◌>>◌ Output.pure float_value int_value text_value str_value
encodes = refl

-- A long double is refused wherever it stands, and so is a text that does not fit.
refuses_long_double :
    payload formatter topic kind 7
      (view (field (ascii "x") (simple SimpleValue.long_double) no_fields))
      500
    ≡ err long_double
unfolding payload encode_message int_pieces decimal push string Output.array Output.number
    Output.◌>>◌ Output.pure Output.raise int_value str_value
refuses_long_double = refl

refuses_long_text : payload formatter topic kind 7 sample 60 ≡ err (limit_exceeded 60)
unfolding payload encode_message int_pieces decimal push string Output.array Output.number
    Output.◌>>◌ Output.pure float_value int_value text_value str_value
refuses_long_text = refl

sample-supported : is_supported sample ≡ true
unfolding is_supported
sample-supported = refl

sample-height : height sample ≤ 64
unfolding height
sample-height = omega arith

payload_lem_example : payload formatter topic kind 7 sample notify_limit ≡ (
    if ltb notify_limit (length (payload_text formatter topic kind 7 sample))
    then err (limit_exceeded notify_limit)
    else ok (payload_text formatter topic kind 7 sample))
payload_lem_example =
    payload_lem formatter formatter-IsFormatter topic kind 7 sample notify_limit sample-supported
      sample-height

payload-eq-ok_iff_example :
    (payload formatter topic kind 7 sample notify_limit ≡ ok (ascii "{}")) ↔ (
      (is_supported sample ≡ true)
      × (height sample ≤ 64)
      × (ascii "{}" ≡ payload_text formatter topic kind 7 sample)
      × (length (ascii "{}") ≤ notify_limit))
payload-eq-ok_iff_example =
    payload-eq-ok_iff formatter formatter-IsFormatter topic kind 7 sample notify_limit (ascii "{}")
