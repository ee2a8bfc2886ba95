-- ===== src/Encoding/Renders.antt =====
-- The encoder of src/subscriptions/json.rs emits the text of a message's tree when every field is
-- supported and no message stands deeper than 64 levels.
use pg_ros.Base.{
  ℕ, ◌+◌, ◌≤◌, ◌<◌, ◌≡◌, refl, Bool, true, false, List, [], ◌∷◌, ◌++◌, Text, ascii, concat, length,
  append-nil, arith, leb, not, ◌&&◌, ◌==◌, All, lt→ltb, le→ltb, Bool-cases, and_left, and_right,
  inl, inr,
}
use pg_ros.Base.Int.{ℤ}
use pg_ros.Json.{
  Json, Items, no_items, item, print, print_first, print_rest, print_first_member,
  print_rest_members,
}
use pg_ros.Message.{
  Value, SimpleValue, Elements, Message, Fields, Messages, simple, array, sequence,
  bounded_sequence, view, no_fields, field, no_messages,
}
use pg_ros.Message.{item as message_item}
use pg_ros.Encoding.Output.{Action, ◌>>◌, push, pure}
use pg_ros.Encoding.Output
use pg_ros.Encoding.Output.Emits.{
  Emits, Emits-push, Emits-then, Emits-pure, Emits-number, Emits-string, rest_text, first_text,
  EmitsEach, none_left, one_more, Emits-array,
}
use pg_ros.Encoding.Encode.{
  Formatter, is_finite_float, is_finite_double, int_pieces, bool_pieces, float_value, double_value,
  int_value, bool_value, text_value, str_value, encode_message, encode_fields, encode_value,
  encode_simple, encode_elements, message_encoders,
}
use pg_ros.Encoding.Tree.{
  Tree, float_tree, double_tree, int_tree, bool_tree, text_tree, items_of, message_tree,
  fields_tree, value_tree, simple_tree, elements_tree, messages_tree, height, height_fields,
  height_value, height_simple, height_elements, height_messages, is_supported, is_supported_fields,
  is_supported_value, is_supported_simple, is_supported_elements, is_supported_messages,
}

-- Printable ASCII that JSON does not escape.
abbrev pub is_plain : ℕ → Bool
is_plain c = leb 32 c && leb c 126 && not (c == b'"') && not (c == b'\\')

-- What the encoder relies on: quoting a string, as JSON does, never makes it shorter, and puts a plain
-- text between quotation marks.
pub record IsFormatter (f : Formatter) : Type 0 where
  pub quote_grows : (s : Text) → length s ≤ length (f.quote s)
  pub quote_plain :
      (s : Text) → All (λ c. is_plain c ≡ true) s → f.quote s ≡ ascii "\"" ++ (s ++ ascii "\"")

-- The compact text of a tree.
abbrev pub text_of : Formatter → Tree → Text
text_of f j = print (λ t. t) f.quote j

module _ (f : Formatter) (laws : IsFormatter f) where
  -- The texts of the items of an array.
  abbrev item_texts : Items Text → List Text
  item_texts no_items = []
  item_texts (item j js) = text_of f j ∷ item_texts js

  print_rest-texts : (js : Items Text) → print_rest (λ t. t) f.quote js ≡ rest_text (item_texts js)
  unfolding print_rest
  print_rest-texts no_items = refl
  print_rest-texts (item j js) = rw (print_rest-texts js)

  print_array :
      (js : Items Text)
      → text_of f (Json.array js) ≡ ascii "[" ++ (first_text (item_texts js) ++ ascii "]")
  unfolding print print_first
  print_array no_items = refl
  print_array (item j js) = rw (print_rest-texts js)

  -- An array whose elements emit the texts of its items emits the text of its tree.
  Emits-items {ℓ} :
      {T : Type ℓ} (encode : T → Action) (vs : List T) (js : Items Text)
      → EmitsEach encode vs (item_texts js)
      → Emits (Output.array vs encode) (text_of f (Json.array js))
  Emits-items encode vs js each = rw (print_array js) (Emits-array encode each)

  EmitsEach-items_of {ℓ} :
      {T : Type ℓ} (encode : T → Action) (tree : T → Tree) (vs : List T)
      → ((v : T) → Emits (encode v) (text_of f (tree v)))
      → EmitsEach encode vs (item_texts (items_of tree vs))
  unfolding items_of
  EmitsEach-items_of encode tree [] emits = none_left
  EmitsEach-items_of encode tree (v ∷ vs) emits =
      one_more (emits v) (EmitsEach-items_of encode tree vs emits)

  Emits-list {ℓ} :
      {T : Type ℓ} (encode : T → Action) (tree : T → Tree) (vs : List T)
      → ((v : T) → Emits (encode v) (text_of f (tree v)))
      → Emits (Output.array vs encode) (text_of f (Json.array (items_of tree vs)))
  Emits-list encode tree vs emits =
      Emits-items encode vs (items_of tree vs) (EmitsEach-items_of encode tree vs emits)

  Emits-float : (v : ℕ) → Emits (float_value f v) (text_of f (float_tree f v))
  unfolding float_value float_tree print
  Emits-float v = elim (Bool-cases (is_finite_float v)) [
    | inl finite ↦ rw finite (Emits-number (f.float_pieces v))
    | inr special ↦ rw special (Emits-push (ascii "null"))
  ]

  Emits-double : (v : ℕ) → Emits (double_value f v) (text_of f (double_tree f v))
  unfolding double_value double_tree print
  Emits-double v = elim (Bool-cases (is_finite_double v)) [
    | inl finite ↦ rw finite (Emits-number (f.double_pieces v))
    | inr special ↦ rw special (Emits-push (ascii "null"))
  ]

  pub Emits-int : (v : ℤ) → Emits (int_value f v) (text_of f (int_tree v))
  unfolding int_value int_tree print
  Emits-int v = Emits-number (int_pieces v)

  Emits-bool : (v : Bool) → Emits (bool_value f v) (text_of f (bool_tree v))
  unfolding bool_value bool_tree bool_pieces print
  Emits-bool true = Emits-number (bool_pieces true)
  Emits-bool false = Emits-number (bool_pieces false)

  Emits-text : (v : Text) → Emits (text_value f v) (text_of f (text_tree f v))
  unfolding text_value text_tree print
  Emits-text v = Emits-string f.quote (f.pieces v) (laws.quote_grows (concat (f.pieces v)))

  pub Emits-str : (v : Text) → Emits (str_value f v) (f.quote v)
  unfolding str_value
  Emits-str v =
      rw (append-nil v) at (Emits-string f.quote (v ∷ []) (laws.quote_grows (concat (v ∷ []))))

  mutual
    unfolding encode_message message_tree print height is_supported

    Emits-message_at :
        (m : Message) (depth : ℕ)
        → is_supported m ≡ true
        → depth + height m ≤ 64
        → Emits (encode_message f m depth) (text_of f (message_tree f m))
    Emits-message_at (view fields) depth s h = rw (le→ltb 64 depth (omega arith)) (
        Emits-then (Emits-push (ascii "{"))
          (Emits-then (Emits-first_fields fields depth s h) (Emits-push (ascii "}"))))

    Emits-first_fields :
        (fields : Fields) (depth : ℕ)
        → is_supported_fields fields ≡ true
        → depth + height_fields fields ≤ 64
        → Emits
            (encode_fields f 0 fields depth)
            (print_first_member (λ t. t) f.quote (fields_tree f fields))
    Emits-first_fields no_fields depth s h = Emits-pure
    Emits-first_fields (field name value fields) depth s h = Emits-then Emits-pure (
        Emits-then (Emits-str name) (
          Emits-then (Emits-push (ascii ":")) (
            Emits-then (Emits-value value depth (and_left _ _ s) (omega arith))
              (Emits-rest_fields fields 1 depth (omega arith) (and_right _ _ s) (omega arith)))))

    Emits-rest_fields :
        (fields : Fields) (index depth : ℕ)
        → 0 < index
        → is_supported_fields fields ≡ true
        → depth + height_fields fields ≤ 64
        → Emits
            (encode_fields f index fields depth)
            (print_rest_members (λ t. t) f.quote (fields_tree f fields))
    Emits-rest_fields no_fields index depth p s h = Emits-pure
    Emits-rest_fields (field name value fields) index depth p s h = rw (lt→ltb 0 index p) (
        Emits-then (Emits-push (ascii ",")) (
          Emits-then (Emits-str name) (
            Emits-then (Emits-push (ascii ":")) (
              Emits-then (Emits-value value depth (and_left _ _ s) (omega arith)) (
                Emits-rest_fields fields (index + 1) depth (omega arith) (and_right _ _ s)
                  (omega arith))))))

    -- A value stands one level below its message.
    Emits-value :
        (value : Value) (depth : ℕ)
        → is_supported_value value ≡ true
        → depth + height_value value ≤ 64
        → Emits (encode_value f value (depth + 1)) (text_of f (value_tree f value))
    Emits-value (simple value) depth s h = Emits-simple value depth s h
    Emits-value (array value) depth s h = Emits-elements value depth s h
    Emits-value (sequence value) depth s h = Emits-elements value depth s h
    Emits-value (bounded_sequence bound value) depth s h = Emits-elements value depth s h

    Emits-simple :
        (value : SimpleValue) (depth : ℕ)
        → is_supported_simple value ≡ true
        → depth + height_simple value ≤ 64
        → Emits (encode_simple f value (depth + 1)) (text_of f (simple_tree f value))
    Emits-simple (SimpleValue.float v) depth s h = Emits-float v
    Emits-simple (SimpleValue.double v) depth s h = Emits-double v
    Emits-simple SimpleValue.long_double depth s h = cc
    Emits-simple (SimpleValue.char v) depth s h = Emits-int v
    Emits-simple (SimpleValue.wchar v) depth s h = Emits-int v
    Emits-simple (SimpleValue.boolean v) depth s h = Emits-bool v
    Emits-simple (SimpleValue.octet v) depth s h = Emits-int v
    Emits-simple (SimpleValue.uint8 v) depth s h = Emits-int v
    Emits-simple (SimpleValue.int8 v) depth s h = Emits-int v
    Emits-simple (SimpleValue.uint16 v) depth s h = Emits-int v
    Emits-simple (SimpleValue.int16 v) depth s h = Emits-int v
    Emits-simple (SimpleValue.uint32 v) depth s h = Emits-int v
    Emits-simple (SimpleValue.int32 v) depth s h = Emits-int v
    Emits-simple (SimpleValue.uint64 v) depth s h = Emits-int v
    Emits-simple (SimpleValue.int64 v) depth s h = Emits-int v
    Emits-simple (SimpleValue.string v) depth s h = Emits-text v
    Emits-simple (SimpleValue.bounded_string bound v) depth s h = Emits-text v
    Emits-simple (SimpleValue.wstring v) depth s h = Emits-text v
    Emits-simple (SimpleValue.bounded_wstring bound v) depth s h = Emits-text v
    Emits-simple (SimpleValue.message m) depth s h = Emits-message_at m (depth + 1) s (omega arith)

    Emits-elements :
        (value : Elements) (depth : ℕ)
        → is_supported_elements value ≡ true
        → depth + height_elements value ≤ 64
        → Emits
            (encode_elements f value (depth + 1))
            (text_of f (Json.array (elements_tree f value)))
    Emits-elements (Elements.floats v) depth s h =
        Emits-list (float_value f) (float_tree f) v Emits-float
    Emits-elements (Elements.doubles v) depth s h =
        Emits-list (double_value f) (double_tree f) v Emits-double
    Emits-elements Elements.long_doubles depth s h = cc
    Emits-elements (Elements.chars v) depth s h = Emits-list (int_value f) int_tree v Emits-int
    Emits-elements (Elements.wchars v) depth s h = Emits-list (int_value f) int_tree v Emits-int
    Emits-elements (Elements.booleans v) depth s h =
        Emits-list (bool_value f) bool_tree v Emits-bool
    Emits-elements (Elements.octets v) depth s h = Emits-list (int_value f) int_tree v Emits-int
    Emits-elements (Elements.uint8s v) depth s h = Emits-list (int_value f) int_tree v Emits-int
    Emits-elements (Elements.int8s v) depth s h = Emits-list (int_value f) int_tree v Emits-int
    Emits-elements (Elements.uint16s v) depth s h = Emits-list (int_value f) int_tree v Emits-int
    Emits-elements (Elements.int16s v) depth s h = Emits-list (int_value f) int_tree v Emits-int
    Emits-elements (Elements.uint32s v) depth s h = Emits-list (int_value f) int_tree v Emits-int
    Emits-elements (Elements.int32s v) depth s h = Emits-list (int_value f) int_tree v Emits-int
    Emits-elements (Elements.uint64s v) depth s h = Emits-list (int_value f) int_tree v Emits-int
    Emits-elements (Elements.int64s v) depth s h = Emits-list (int_value f) int_tree v Emits-int
    Emits-elements (Elements.strings v) depth s h =
        Emits-list (text_value f) (text_tree f) v Emits-text
    Emits-elements (Elements.bounded_strings bound v) depth s h =
        Emits-list (text_value f) (text_tree f) v Emits-text
    Emits-elements (Elements.wstrings v) depth s h =
        Emits-list (text_value f) (text_tree f) v Emits-text
    Emits-elements (Elements.bounded_wstrings bound v) depth s h =
        Emits-list (text_value f) (text_tree f) v Emits-text
    Emits-elements (Elements.messages default ms) depth s h =
        Emits-items (λ encode. encode) (message_encoders f ms (depth + 1)) (messages_tree f ms)
          (EmitsEach-messages ms depth s h)

    EmitsEach-messages :
        (ms : Messages) (depth : ℕ)
        → is_supported_messages ms ≡ true
        → depth + height_messages ms ≤ 64
        → EmitsEach
            (λ encode. encode)
            (message_encoders f ms (depth + 1))
            (item_texts (messages_tree f ms))
    EmitsEach-messages no_messages depth s h = none_left
    EmitsEach-messages (message_item m ms) depth s h =
        one_more (Emits-message_at m (depth + 1) (and_left _ _ s) (omega arith))
          (EmitsEach-messages ms depth (and_right _ _ s) (omega arith))

  -- A message whose fields are all supported and whose messages nest at most 64 levels below it emits
  -- the compact text of its tree.
  pub Emits-message :
      (m : Message)
      → is_supported m ≡ true
      → height m ≤ 64
      → Emits (encode_message f m 0) (text_of f (message_tree f m))
  Emits-message m s h = Emits-message_at m 0 s (omega arith)
