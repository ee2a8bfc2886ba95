-- ===== src/Encoding/Tree.antt =====
-- What the payload of src/subscriptions/json.rs stands for: the JSON value of a message, how deeply
-- its messages nest, and whether the encoder supports all its fields. None of this knows of limits,
-- indices or the writer.
use Prim.Native.Nat.{max}
use pg_ros.Base.{ℕ, suc, Bool, true, false, ◌&&◌, List, [], ◌∷◌, Text, concat, if◌then◌else◌}
use pg_ros.Base.Int.{ℤ}
use pg_ros.Json.{Json, Items, Members, null, number, no_items, item, no_members, member, object}
use pg_ros.Message.{
  Value, SimpleValue, Elements, Message, Fields, Messages, simple, array, sequence,
  bounded_sequence, view, no_fields, field, no_messages,
}
use pg_ros.Message.{item as message_item}
use pg_ros.Encoding.Encode.{Formatter, is_finite_float, is_finite_double, int_pieces}

-- Numbers are kept as their text.
abbrev pub Tree : Type 0
Tree = Json Text

-- A non-finite float has no JSON number, so it becomes null.
unfoldable pub double_tree : Formatter → ℕ → Tree
double_tree f bits = if is_finite_double bits then number (concat (f.double_pieces bits)) else null

unfoldable pub float_tree : Formatter → ℕ → Tree
float_tree f bits = if is_finite_float bits then number (concat (f.float_pieces bits)) else null

unfoldable pub int_tree : ℤ → Tree
int_tree v = number (concat (int_pieces v))

unfoldable pub bool_tree : Bool → Tree
bool_tree b = Json.bool b

unfoldable pub text_tree : Formatter → Text → Tree
text_tree f s = Json.string (concat (f.pieces s))

unfoldable pub items_of {ℓ} : {T : Type ℓ} → (T → Tree) → List T → Items Text
items_of tree [] = no_items
items_of tree (v ∷ vs) = item (tree v) (items_of tree vs)

unfoldable mutual
  pub message_tree : Formatter → Message → Tree
  message_tree f (view fields) = object (fields_tree f fields)

  pub fields_tree : Formatter → Fields → Members Text
  fields_tree f no_fields = no_members
  fields_tree f (field name value fields) = member name (value_tree f value) (fields_tree f fields)

  pub value_tree : Formatter → Value → Tree
  value_tree f (simple value) = simple_tree f value
  value_tree f (array value) = Json.array (elements_tree f value)
  value_tree f (sequence value) = Json.array (elements_tree f value)
  value_tree f (bounded_sequence bound value) = Json.array (elements_tree f value)

  -- A long double has no tree: `is_supported` excludes it.
  pub simple_tree : Formatter → SimpleValue → Tree
  simple_tree f (SimpleValue.float v) = float_tree f v
  simple_tree f (SimpleValue.double v) = double_tree f v
  simple_tree f SimpleValue.long_double = null
  simple_tree f (SimpleValue.char v) = int_tree v
  simple_tree f (SimpleValue.wchar v) = int_tree v
  simple_tree f (SimpleValue.boolean v) = bool_tree v
  simple_tree f (SimpleValue.octet v) = int_tree v
  simple_tree f (SimpleValue.uint8 v) = int_tree v
  simple_tree f (SimpleValue.int8 v) = int_tree v
  simple_tree f (SimpleValue.uint16 v) = int_tree v
  simple_tree f (SimpleValue.int16 v) = int_tree v
  simple_tree f (SimpleValue.uint32 v) = int_tree v
  simple_tree f (SimpleValue.int32 v) = int_tree v
  simple_tree f (SimpleValue.uint64 v) = int_tree v
  simple_tree f (SimpleValue.int64 v) = int_tree v
  simple_tree f (SimpleValue.string v) = text_tree f v
  simple_tree f (SimpleValue.bounded_string bound v) = text_tree f v
  simple_tree f (SimpleValue.wstring v) = text_tree f v
  simple_tree f (SimpleValue.bounded_wstring bound v) = text_tree f v
  simple_tree f (SimpleValue.message v) = message_tree f v

  pub elements_tree : Formatter → Elements → Items Text
  elements_tree f (Elements.floats v) = items_of (float_tree f) v
  elements_tree f (Elements.doubles v) = items_of (double_tree f) v
  elements_tree f Elements.long_doubles = no_items
  elements_tree f (Elements.chars v) = items_of int_tree v
  elements_tree f (Elements.wchars v) = items_of int_tree v
  elements_tree f (Elements.booleans v) = items_of bool_tree v
  elements_tree f (Elements.octets v) = items_of int_tree v
  elements_tree f (Elements.uint8s v) = items_of int_tree v
  elements_tree f (Elements.int8s v) = items_of int_tree v
  elements_tree f (Elements.uint16s v) = items_of int_tree v
  elements_tree f (Elements.int16s v) = items_of int_tree v
  elements_tree f (Elements.uint32s v) = items_of int_tree v
  elements_tree f (Elements.int32s v) = items_of int_tree v
  elements_tree f (Elements.uint64s v) = items_of int_tree v
  elements_tree f (Elements.int64s v) = items_of int_tree v
  elements_tree f (Elements.strings v) = items_of (text_tree f) v
  elements_tree f (Elements.bounded_strings bound v) = items_of (text_tree f) v
  elements_tree f (Elements.wstrings v) = items_of (text_tree f) v
  elements_tree f (Elements.bounded_wstrings bound v) = items_of (text_tree f) v
  elements_tree f (Elements.messages default v) = messages_tree f v

  pub messages_tree : Formatter → Messages → Items Text
  messages_tree f no_messages = no_items
  messages_tree f (message_item m ms) = item (message_tree f m) (messages_tree f ms)

-- The number of messages on the longest path below a message.
unfoldable mutual
  pub height : Message → ℕ
  height (view fields) = height_fields fields

  pub height_fields : Fields → ℕ
  height_fields no_fields = 0
  height_fields (field name value fields) = max (height_value value) (height_fields fields)

  pub height_value : Value → ℕ
  height_value (simple value) = height_simple value
  height_value (array value) = height_elements value
  height_value (sequence value) = height_elements value
  height_value (bounded_sequence bound value) = height_elements value

  pub height_simple : SimpleValue → ℕ
  height_simple (SimpleValue.message m) = suc (height m)
  height_simple _ = 0

  pub height_elements : Elements → ℕ
  height_elements (Elements.messages default ms) = height_messages ms
  height_elements _ = 0

  pub height_messages : Messages → ℕ
  height_messages no_messages = 0
  height_messages (message_item m ms) = max (suc (height m)) (height_messages ms)

-- No long double occurs.
unfoldable mutual
  pub is_supported : Message → Bool
  is_supported (view fields) = is_supported_fields fields

  pub is_supported_fields : Fields → Bool
  is_supported_fields no_fields = true
  is_supported_fields (field name value fields) =
      is_supported_value value && is_supported_fields fields

  pub is_supported_value : Value → Bool
  is_supported_value (simple value) = is_supported_simple value
  is_supported_value (array value) = is_supported_elements value
  is_supported_value (sequence value) = is_supported_elements value
  is_supported_value (bounded_sequence bound value) = is_supported_elements value

  pub is_supported_simple : SimpleValue → Bool
  is_supported_simple (SimpleValue.message m) = is_supported m
  is_supported_simple SimpleValue.long_double = false
  is_supported_simple _ = true

  pub is_supported_elements : Elements → Bool
  is_supported_elements (Elements.messages default ms) = is_supported_messages ms
  is_supported_elements Elements.long_doubles = false
  is_supported_elements _ = true

  pub is_supported_messages : Messages → Bool
  is_supported_messages no_messages = true
  is_supported_messages (message_item m ms) = is_supported m && is_supported_messages ms
