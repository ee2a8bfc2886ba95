-- ===== src/Decoding/Decode.antt =====
-- src/publish/json.rs: `decode`, `message_view` and the matches on the kind of a slot. The result is
-- the message as the call leaves it; after an error the caller drops the message, so its state then
-- is not kept. The recursion is on the JSON value: where the code calls `message_view` on a part of a
-- value, the functions here take that call as an argument (`View`).
use pg_ros.Base.{Option, none, some, List, [], ◌∷◌, ◌++◌, Text, Text-discrete, ascii, ok, err}
use mathlib.Core.Logic.{ite}
use pg_ros.Json.{
  Json, Items, Members, null, bool, number, string, object, no_items, no_members, member,
}
use pg_ros.Json.{array as json_list, item as json_item}
use pg_ros.Message.{
  Value, Message, Fields, simple, array, sequence, bounded_sequence, view, no_fields, field,
}
use pg_ros.Decoding.Scalar.{
  Numbers, DecodeError, expect_failed, not_an_object, unknown_message_field, expected_object,
  unknown_field, ◌>>=◌, json_array,
}
use pg_ros.Decoding.Simple.{decode_simple}
use pg_ros.Decoding.Elements.{array_elements, sequence_elements, bounded_elements}
use pg_ros.Decoding.Loops.{Decoded, View}

-- `get(field)` of a message: the value of the field of that name.
unfoldable pub get : Fields → Text → Option Value
get no_fields key = none
get (field name value fields) key = ite (Text-discrete name key) (some value) (get fields key)

-- The write through `get_mut(field)`.
unfoldable pub put : Fields → Text → Value → Fields
put no_fields key v = no_fields
put (field name value fields) key v =
    ite (Text-discrete name key) (field name v fields) (field name value (put fields key v))

module _ {N : Type 0} (numbers : Numbers N) where
  -- `value_mut`: `nested` is `message_view` on the same JSON value, `views` on the items of an array.
  unfoldable pub value_mut : Value → Json N → View → List View → Text → Decoded Value
  unfolding json_array
  value_mut (simple slot) value nested views name = do
    slot' ← decode_simple numbers slot value nested name
    ok (simple slot')
  value_mut (array slot) value nested views name = do
    items ← json_array value name
    slot' ← array_elements numbers slot items views name
    ok (array slot')
  value_mut (sequence slot) value nested views name = do
    items ← json_array value name
    slot' ← sequence_elements numbers slot items views name
    ok (sequence slot')
  value_mut (bounded_sequence bound slot) value nested views name = do
    items ← json_array value name
    slot' ← bounded_elements numbers bound slot items views name
    ok (bounded_sequence bound slot')

  -- `get_mut(field).expect("field checked above")` and `value_mut` on it.
  unfoldable pub assign_field : Fields → Text → (Value → Decoded Value) → Decoded Fields
  assign_field fields key write = elim (get fields key) [
    | none ↦ err expect_failed
    | some slot ↦ do slot' ← write slot; ok (put fields key slot')
  ]

  -- The first loop of `decode` and `message_view`: the first key that is no field of the message.
  unfoldable pub find_unknown : Members N → Fields → Option Text
  find_unknown no_members m = none
  find_unknown (member key value members) fields = elim (get fields key) [
    | none ↦ some key
    | some _ ↦ find_unknown members fields
  ]

  abbrev pub checked : Option Text → (Text → DecodeError) → Decoded Fields → Decoded Message
  checked (some key) unknown rest = err (unknown key)
  checked none unknown rest = do fields ← rest; ok (view fields)

  -- `format!("{name}.{field}")`
  abbrev pub dotted : Text → Text → Text
  dotted name key = name ++ (ascii "." ++ key)

  unfoldable mutual
    -- `message_view`
    pub message_view : Json N → View
    message_view (object members) (view fields) name =
        checked (find_unknown members fields) (unknown_field name)
          (assign_members members fields (dotted name))
    message_view null m name = err (expected_object name)
    message_view (bool _) m name = err (expected_object name)
    message_view (number _) m name = err (expected_object name)
    message_view (string _) m name = err (expected_object name)
    message_view (json_list _) m name = err (expected_object name)

    -- The second loop of `decode` and `message_view`, with the name that a field gets.
    pub assign_members : Members N → Fields → (Text → Text) → Decoded Fields
    assign_members no_members fields rename = ok fields
    assign_members (member key value members) fields rename = do
      fields' ←
          assign_field fields key
            λ slot. value_mut slot value (message_view value) (item_views value) (rename key)
      assign_members members fields' rename

    -- `message_view` on each item of an array.
    pub item_views : Json N → List View
    item_views (json_list items) = views_of items
    item_views _ = []

    pub views_of : Items N → List View
    views_of no_items = []
    views_of (json_item j js) = message_view j ∷ views_of js

  -- `decode`
  unfoldable pub decode : Message → Json N → Decoded Message
  decode (view fields) (object members) =
      checked (find_unknown members fields) unknown_message_field
        (assign_members members fields (λ key. key))
  decode m _ = err not_an_object
