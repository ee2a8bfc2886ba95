-- ===== src/RoundTrip/ByKey.antt =====
-- A message in the order in which serde_json iterates over its JSON value. The `Map` of src/publish/json.rs
-- is sorted by key, so the fields of a message, and of the messages in it, come in another order than the
-- encoder writes them. The order is a parameter.
use pg_ros.Base.{◌≡◌, refl, Bool, Text, if◌then◌else◌}
use pg_ros.Message.{
  Value, SimpleValue, Elements, Message, Fields, Messages, simple, array, sequence,
  bounded_sequence, view, no_fields, field, no_messages, item,
}
use pg_ros.Encoding.Encode.{Formatter}
use pg_ros.Decoding.Scalar.{Numbers}
use pg_ros.RoundTrip
use pg_ros.RoundTrip.{SameElements}

module _ (before : Text → Text → Bool) where
  -- The insertion of a key into a sorted map.
  unfoldable pub insert_field : Text → Value → Fields → Fields
  insert_field name value no_fields = field name value no_fields
  insert_field name value (field other v fields) =
      let rest = insert_field name value fields in
      if before name other then field name value (field other v fields) else field other v rest

  unfoldable mutual
    pub by_key : Message → Message
    by_key (view fields) = view (by_key_fields fields)

    pub by_key_fields : Fields → Fields
    by_key_fields no_fields = no_fields
    by_key_fields (field name value fields) =
        insert_field name (by_key_value value) (by_key_fields fields)

    pub by_key_value : Value → Value
    by_key_value (simple value) = simple (by_key_simple value)
    by_key_value (array value) = array (by_key_elements value)
    by_key_value (sequence value) = sequence (by_key_elements value)
    by_key_value (bounded_sequence bound value) = bounded_sequence bound (by_key_elements value)

    pub by_key_simple : SimpleValue → SimpleValue
    by_key_simple (SimpleValue.message m) = SimpleValue.message (by_key m)
    by_key_simple value = value

    pub by_key_elements : Elements → Elements
    by_key_elements (Elements.messages default ms) = Elements.messages default (by_key_messages ms)
    by_key_elements value = value

    pub by_key_messages : Messages → Messages
    by_key_messages no_messages = no_messages
    by_key_messages (item m ms) = item (by_key m) (by_key_messages ms)

  -- Only messages have fields.
  pub SameElements-by_key :
      (numbers : Numbers Text) (f : Formatter) {s e : Elements}
      → SameElements numbers f s e
      → by_key_elements e ≡ e
  unfolding by_key_elements
  SameElements-by_key numbers f (RoundTrip.floats h) = refl
  SameElements-by_key numbers f (RoundTrip.doubles h) = refl
  SameElements-by_key numbers f RoundTrip.booleans = refl
  SameElements-by_key numbers f RoundTrip.strings = refl
  SameElements-by_key numbers f RoundTrip.wstrings = refl
  SameElements-by_key numbers f (RoundTrip.bounded_strings h) = refl
  SameElements-by_key numbers f (RoundTrip.bounded_wstrings h) = refl
  SameElements-by_key numbers f (RoundTrip.chars h) = refl
  SameElements-by_key numbers f (RoundTrip.wchars h) = refl
  SameElements-by_key numbers f (RoundTrip.octets h) = refl
  SameElements-by_key numbers f (RoundTrip.uint8s h) = refl
  SameElements-by_key numbers f (RoundTrip.int8s h) = refl
  SameElements-by_key numbers f (RoundTrip.uint16s h) = refl
  SameElements-by_key numbers f (RoundTrip.int16s h) = refl
  SameElements-by_key numbers f (RoundTrip.uint32s h) = refl
  SameElements-by_key numbers f (RoundTrip.int32s h) = refl
  SameElements-by_key numbers f (RoundTrip.uint64s h) = refl
  SameElements-by_key numbers f (RoundTrip.int64s h) = refl
