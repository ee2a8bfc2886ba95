-- ===== src/Encoding/Encode.antt =====
-- src/subscriptions/json.rs: `Output::message`, `Output::value` and `payload`. The textual forms that
-- other crates and the standard library's float printer decide are the parameter `Formatter`.
use Prim.Native.Nat.{◌+◌, ◌%◌, ◌/◌, ◌^◌}
use pg_ros.Base.{
  ℕ, suc, Bool, true, false, List, [], ◌∷◌, Text, ascii, Result, ok, err, ltb, ◌==◌, not,
  if◌then◌else◌,
}
use pg_ros.Base.Int.{ℤ, pos, negsuc, decimal}
use pg_ros.Message.{
  Value, SimpleValue, Elements, Message, Fields, Messages, view, simple, array, sequence,
  bounded_sequence, no_fields, field, no_messages, item,
}
use pg_ros.Encoding.Output
use pg_ros.Encoding.Output.{
  EncodeError, nesting, long_double, Output, Action, pure, raise, ◌>>◌, push, number, string, new,
}

-- `quote` is `serde_json::to_string` on a string; `pieces` are the writes of a ROS string's
-- `Display`; `float_pieces` and `double_pieces` those of a finite `f32` and `f64`.
pub record Formatter : Type 0 where
  pub quote : Text → Text
  pub pieces : Text → List Text
  pub float_pieces : ℕ → List Text
  pub double_pieces : ℕ → List Text

-- `f32::is_finite` and `f64::is_finite`: the exponent bits are not all ones.
abbrev pub is_finite_float : ℕ → Bool
is_finite_float bits = not (bits / 2 ^ 23 % 2 ^ 8 == 255)

abbrev pub is_finite_double : ℕ → Bool
is_finite_double bits = not (bits / 2 ^ 52 % 2 ^ 11 == 2047)

-- `Display` of an integer writes its sign and then its digits.
unfoldable pub int_pieces : ℤ → List Text
int_pieces (pos n) = decimal n ∷ []
int_pieces (negsuc n) = ascii "-" ∷ decimal (suc n) ∷ []

-- `Display` of a `bool`
unfoldable pub bool_pieces : Bool → List Text
bool_pieces true = ascii "true" ∷ []
bool_pieces false = ascii "false" ∷ []

-- `NOTIFY_LIMIT`
abbrev pub notify_limit : ℕ
notify_limit = 7999

module _ (f : Formatter) where
  -- The arms of a float: a number if it is finite, else null.
  unfoldable pub float_value : ℕ → Action
  float_value bits =
      if is_finite_float bits then number (f.float_pieces bits) else push (ascii "null")

  unfoldable pub double_value : ℕ → Action
  double_value bits =
      if is_finite_double bits then number (f.double_pieces bits) else push (ascii "null")

  -- The closures `|out, v| out.number(v)` and `|out, v| out.string(v)`.
  unfoldable pub int_value : ℤ → Action
  int_value v = number (int_pieces v)

  unfoldable pub bool_value : Bool → Action
  bool_value v = number (bool_pieces v)

  unfoldable pub text_value : Text → Action
  text_value v = string f.quote (f.pieces v)

  -- A `&str` is written at once.
  unfoldable pub str_value : Text → Action
  str_value v = string f.quote (v ∷ [])

  unfoldable mutual
    -- `Output::message`
    pub encode_message : Message → ℕ → Action
    encode_message (view fields) depth =
        if ltb 64 depth
        then raise nesting
        else push (ascii "{") >> encode_fields 0 fields depth >> push (ascii "}")

    -- The loop of `Output::message`, from the given index on.
    pub encode_fields : ℕ → Fields → ℕ → Action
    encode_fields index no_fields depth = pure
    encode_fields index (field name value fields) depth =
        (if ltb 0 index then push (ascii ",") else pure)
        >> str_value name
        >> push (ascii ":")
        >> encode_value value (depth + 1)
        >> encode_fields (index + 1) fields depth

    -- `Output::value`
    pub encode_value : Value → ℕ → Action
    encode_value (simple value) depth = encode_simple value depth
    encode_value (array value) depth = encode_elements value depth
    encode_value (sequence value) depth = encode_elements value depth
    encode_value (bounded_sequence bound value) depth = encode_elements value depth

    -- The arms of `Value::Simple`.
    pub encode_simple : SimpleValue → ℕ → Action
    encode_simple (SimpleValue.float v) depth = float_value v
    encode_simple (SimpleValue.double v) depth = double_value v
    encode_simple (SimpleValue.char v) depth = int_value v
    encode_simple (SimpleValue.wchar v) depth = int_value v
    encode_simple (SimpleValue.boolean v) depth = bool_value v
    encode_simple (SimpleValue.octet v) depth = int_value v
    encode_simple (SimpleValue.uint8 v) depth = int_value v
    encode_simple (SimpleValue.int8 v) depth = int_value v
    encode_simple (SimpleValue.uint16 v) depth = int_value v
    encode_simple (SimpleValue.int16 v) depth = int_value v
    encode_simple (SimpleValue.uint32 v) depth = int_value v
    encode_simple (SimpleValue.int32 v) depth = int_value v
    encode_simple (SimpleValue.uint64 v) depth = int_value v
    encode_simple (SimpleValue.int64 v) depth = int_value v
    encode_simple (SimpleValue.string v) depth = text_value v
    encode_simple (SimpleValue.bounded_string bound v) depth = text_value v
    encode_simple (SimpleValue.wstring v) depth = text_value v
    encode_simple (SimpleValue.bounded_wstring bound v) depth = text_value v
    encode_simple (SimpleValue.message v) depth = encode_message v depth
    encode_simple SimpleValue.long_double depth = raise long_double

    -- The arms of `Value::Array`, `Value::Sequence` and `Value::BoundedSequence`.
    pub encode_elements : Elements → ℕ → Action
    encode_elements (Elements.floats v) depth = Output.array v float_value
    encode_elements (Elements.doubles v) depth = Output.array v double_value
    encode_elements (Elements.chars v) depth = Output.array v int_value
    encode_elements (Elements.wchars v) depth = Output.array v int_value
    encode_elements (Elements.booleans v) depth = Output.array v bool_value
    encode_elements (Elements.octets v) depth = Output.array v int_value
    encode_elements (Elements.uint8s v) depth = Output.array v int_value
    encode_elements (Elements.int8s v) depth = Output.array v int_value
    encode_elements (Elements.uint16s v) depth = Output.array v int_value
    encode_elements (Elements.int16s v) depth = Output.array v int_value
    encode_elements (Elements.uint32s v) depth = Output.array v int_value
    encode_elements (Elements.int32s v) depth = Output.array v int_value
    encode_elements (Elements.uint64s v) depth = Output.array v int_value
    encode_elements (Elements.int64s v) depth = Output.array v int_value
    encode_elements (Elements.strings v) depth = Output.array v text_value
    encode_elements (Elements.bounded_strings bound v) depth = Output.array v text_value
    encode_elements (Elements.wstrings v) depth = Output.array v text_value
    encode_elements (Elements.bounded_wstrings bound v) depth = Output.array v text_value
    encode_elements (Elements.messages default v) depth =
        Output.array (message_encoders v depth) (λ encode. encode)
    encode_elements Elements.long_doubles depth = raise long_double

    -- `out.message(v, depth)` for each message of an array.
    pub message_encoders : Messages → ℕ → List Action
    message_encoders no_messages depth = []
    message_encoders (item m ms) depth = encode_message m depth ∷ message_encoders ms depth

  unfoldable pub payload_parts : Text → Text → ℕ → Message → Action
  payload_parts topic message_type seq message =
      push (ascii "{\"topic\":")
      >> str_value topic
      >> push (ascii ",\"message_type\":")
      >> str_value message_type
      >> push (ascii ",\"sequence\":")
      >> int_value (pos seq)
      >> push (ascii ",\"message\":")
      >> encode_message message 0
      >> push (ascii "}")

  abbrev pub finish : Result EncodeError (Unit {0}) × Output → Result EncodeError Text
  finish (ok _, output) = ok output.text
  finish (err e, output) = err e

  -- `payload`
  unfoldable pub payload : Text → Text → ℕ → Message → ℕ → Result EncodeError Text
  unfolding payload_parts new
  payload topic message_type seq message limit =
      finish (payload_parts topic message_type seq message (new limit))
