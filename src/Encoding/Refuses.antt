-- ===== src/Encoding/Refuses.antt =====
-- The encoder of src/subscriptions/json.rs ends in an error at a message that holds a long double or
-- nests deeper than 64 levels.
use Prim.Native.Nat.{max}
use pg_ros.Base.{
  ℕ, suc, ◌+◌, ◌≤◌, ◌<◌, ◌≡◌, ◌⊎◌, Bool, false, ◌&&◌, ascii, arith, ltb, if◌then◌else◌, Bool-cases,
  inl, inr,
}
use pg_ros.Message.{
  Value, SimpleValue, Elements, Message, Fields, Messages, simple, array, sequence,
  bounded_sequence, view, no_fields, field, no_messages,
}
use pg_ros.Message.{item as message_item}
use pg_ros.Encoding.Output.{push, pure, nesting, long_double}
use pg_ros.Encoding.Output.Fails.{
  Fails, Fails-raise, Fails-first, Fails-second, FailsSome, at_head, in_tail, Fails-array,
}
use pg_ros.Encoding.Encode.{
  Formatter, str_value, encode_message, encode_fields, encode_value, encode_simple, encode_elements,
  message_encoders,
}
use pg_ros.Encoding.Tree.{
  height, height_fields, height_value, height_simple, height_elements, height_messages,
  is_supported, is_supported_fields, is_supported_value, is_supported_simple, is_supported_elements,
  is_supported_messages,
}

-- Given whether a part is supported and how high it is: at this depth it cannot be encoded.
abbrev pub IsBad : Bool → ℕ → ℕ → Type 0
IsBad supported height depth = (supported ≡ false) ⊎ (64 < depth + height)

IsBad-cases :
    (a b : Bool) (x y depth : ℕ)
    → IsBad (a && b) (max x y) depth
    → IsBad a x depth ⊎ IsBad b y depth
IsBad-cases a b x y depth h = ground arith

-- A message stands one level above its own messages.
IsBad-suc : (a : Bool) (x depth : ℕ) → IsBad a (suc x) depth → IsBad a x (depth + 1)
IsBad-suc a x depth h = ground arith

module _ (f : Formatter) where
  mutual
    unfolding encode_message height is_supported

    Fails-message_at :
        (m : Message) (depth : ℕ)
        → IsBad (is_supported m) (height m) depth
        → Fails (encode_message f m depth)
    Fails-message_at (view fields) depth bad = elim (Bool-cases (ltb 64 depth)) [
      | inl deep ↦ rw deep (Fails-raise nesting)
      | inr room ↦ rw room (
          Fails-second (push (ascii "{"))
            (Fails-first (push (ascii "}")) (Fails-fields fields 0 depth (ground arith) bad)))
    ]

    Fails-fields :
        (fields : Fields) (index depth : ℕ)
        → depth ≤ 64
        → IsBad (is_supported_fields fields) (height_fields fields) depth
        → Fails (encode_fields f index fields depth)
    Fails-fields no_fields index depth room bad =
        absurd (elim bad [ inl e ↦ cc | inr e ↦ omega arith ])
    Fails-fields (field name value fields) index depth room bad =
        Fails-second (if ltb 0 index then push (ascii ",") else pure) (
          Fails-second (str_value f name) (
            Fails-second (push (ascii ":")) (elim (IsBad-cases _ _ _ _ depth bad) [
              | inl here ↦
                  Fails-first (encode_fields f (index + 1) fields depth)
                    (Fails-value value depth room here)
              | inr there ↦
                  Fails-second (encode_value f value (depth + 1))
                    (Fails-fields fields (index + 1) depth room there)
            ])))

    Fails-value :
        (value : Value) (depth : ℕ)
        → depth ≤ 64
        → IsBad (is_supported_value value) (height_value value) depth
        → Fails (encode_value f value (depth + 1))
    Fails-value (simple value) depth room bad = Fails-simple value depth room bad
    Fails-value (array value) depth room bad = Fails-elements value depth room bad
    Fails-value (sequence value) depth room bad = Fails-elements value depth room bad
    Fails-value (bounded_sequence bound value) depth room bad = Fails-elements value depth room bad

    Fails-simple :
        (value : SimpleValue) (depth : ℕ)
        → depth ≤ 64
        → IsBad (is_supported_simple value) (height_simple value) depth
        → Fails (encode_simple f value (depth + 1))
    Fails-simple (SimpleValue.message m) depth room bad =
        Fails-message_at m (depth + 1) (IsBad-suc _ _ depth bad)
    Fails-simple SimpleValue.long_double depth room bad = Fails-raise long_double
    Fails-simple _ depth room bad = absurd (elim bad [ inl e ↦ cc | inr e ↦ omega arith ])

    Fails-elements :
        (value : Elements) (depth : ℕ)
        → depth ≤ 64
        → IsBad (is_supported_elements value) (height_elements value) depth
        → Fails (encode_elements f value (depth + 1))
    Fails-elements (Elements.messages default ms) depth room bad =
        Fails-array (λ encode. encode) (FailsSome-messages ms depth room bad)
    Fails-elements Elements.long_doubles depth room bad = Fails-raise long_double
    Fails-elements _ depth room bad = absurd (elim bad [ inl e ↦ cc | inr e ↦ omega arith ])

    FailsSome-messages :
        (ms : Messages) (depth : ℕ)
        → depth ≤ 64
        → IsBad (is_supported_messages ms) (height_messages ms) depth
        → FailsSome (λ encode. encode) (message_encoders f ms (depth + 1))
    FailsSome-messages no_messages depth room bad =
        absurd (elim bad [ inl e ↦ cc | inr e ↦ omega arith ])
    FailsSome-messages (message_item m ms) depth room bad = elim (IsBad-cases _ _ _ _ depth bad) [
      | inl here ↦ at_head (Fails-message_at m (depth + 1) (IsBad-suc _ _ depth here))
      | inr there ↦ in_tail (FailsSome-messages ms depth room there)
    ]

  -- A message with a long double in it, or with messages more than 64 levels below it, fails.
  pub Fails-message :
      (m : Message) → IsBad (is_supported m) (height m) 0 → Fails (encode_message f m 0)
  Fails-message m bad = Fails-message_at m 0 bad
