-- ===== src/Decoding/SafeDecode.antt =====
-- src/publish/json.rs: `decode` never panics: its `expect` calls find the fields that were checked.
use mathlib.Core.Path.{subst}
use mathlib.Core.Logic.{ite, if_pos, if_neg}
use pg_ros.Base.{
  ◌≡◌, ◌≢◌, refl, ap, sym, ◌∙◌, Bool, true, false, Option, none, some, List, Text, Text-discrete,
  All, ok, err, and_then, arith, Option-cases, inl, inr,
}
use pg_ros.Json.{
  Json, Items, Members, null, bool, number, string, object, no_items, no_members, member,
}
use pg_ros.Json.{array as json_list, item as json_item}
use pg_ros.Message.{
  Value, SimpleValue, Message, Fields, view, no_fields, field, simple, array, sequence,
  bounded_sequence,
}
use pg_ros.Decoding.Scalar.{
  Numbers, DecodeError, expect_failed, u8, i8, u16, i16, u32, i32, u64, i64,
}
use pg_ros.Decoding.Loops.{Decoded, View}
use pg_ros.Decoding.Simple.{decode_simple}
use pg_ros.Decoding.Decode.{
  get, put, value_mut, assign_field, find_unknown, checked, dotted, message_view, assign_members,
  item_views, views_of, decode,
}
use pg_ros.Decoding.Safe.{
  Safe, returns, refuses, IsRefusal, Safe-bind, Safe-map, IsSafeView, json_array-Safe, boolean-Safe,
  text-Safe, integer-Safe, float64-Safe, float32-Safe, bounded_text-Safe, bounded_wtext-Safe,
}
use pg_ros.Decoding.SafeElements.{
  array_elements-Safe, sequence_elements-Safe, bounded_elements-Safe,
}

abbrev is_there {ℓ} : {A : Type ℓ} → Option A → Bool
is_there none = false
is_there (some a) = true

there-ite :
    {P : Type 0} (d : Dec P) (v w : Value) (o o' : Option Value)
    → is_there o ≡ is_there o'
    → is_there (ite d (some v) o) ≡ is_there (ite d (some w) o')
there-ite (yes p) v w o o' h = refl
there-ite (no n) v w o o' h = h

-- A write leaves the names of the fields.
get-put_there :
    (fs : Fields) (k key : Text) (v : Value)
    → is_there (get (put fs k v) key) ≡ is_there (get fs key)
unfolding get put
get-put_there no_fields k key v = refl
get-put_there (field name value fs) k key v = elim (Text-discrete name k) [
  | yes e ↦ rw (if_pos _ e) (there-ite (Text-discrete name key) v value _ _ refl)
  | no ne ↦
      rw (if_neg _ ne)
        (there-ite (Text-discrete name key) value value _ _ (get-put_there fs k key v))
]

bind_assoc-Safe :
    {A B C : Type 0} (r : Decoded A) (f : A → Decoded B) (g : B → Decoded C)
    → Safe (and_then r (λ a. and_then (f a) g))
    → Safe (and_then (and_then r f) g)
bind_assoc-Safe (ok a) f g h = h
bind_assoc-Safe (err e) f g h = h

module _ {N : Type 0} (numbers : Numbers N) where
  decode_simple-Safe :
      (slot : SimpleValue) (value : Json N) (nested : View) (name : Text)
      → IsSafeView nested
      → Safe (decode_simple numbers slot value nested name)
  unfolding decode_simple
  decode_simple-Safe (SimpleValue.float _) value nested name safe =
      Safe-map _ (float32-Safe numbers value name)
  decode_simple-Safe (SimpleValue.double _) value nested name safe =
      Safe-map _ (float64-Safe numbers value name)
  decode_simple-Safe SimpleValue.long_double value nested name safe = refuses tt
  decode_simple-Safe (SimpleValue.char _) value nested name safe =
      Safe-map _ (integer-Safe numbers u8 value name)
  decode_simple-Safe (SimpleValue.wchar _) value nested name safe =
      Safe-map _ (integer-Safe numbers u16 value name)
  decode_simple-Safe (SimpleValue.boolean _) value nested name safe =
      Safe-map _ (boolean-Safe value name)
  decode_simple-Safe (SimpleValue.octet _) value nested name safe =
      Safe-map _ (integer-Safe numbers u8 value name)
  decode_simple-Safe (SimpleValue.uint8 _) value nested name safe =
      Safe-map _ (integer-Safe numbers u8 value name)
  decode_simple-Safe (SimpleValue.int8 _) value nested name safe =
      Safe-map _ (integer-Safe numbers i8 value name)
  decode_simple-Safe (SimpleValue.uint16 _) value nested name safe =
      Safe-map _ (integer-Safe numbers u16 value name)
  decode_simple-Safe (SimpleValue.int16 _) value nested name safe =
      Safe-map _ (integer-Safe numbers i16 value name)
  decode_simple-Safe (SimpleValue.uint32 _) value nested name safe =
      Safe-map _ (integer-Safe numbers u32 value name)
  decode_simple-Safe (SimpleValue.int32 _) value nested name safe =
      Safe-map _ (integer-Safe numbers i32 value name)
  decode_simple-Safe (SimpleValue.uint64 _) value nested name safe =
      Safe-map _ (integer-Safe numbers u64 value name)
  decode_simple-Safe (SimpleValue.int64 _) value nested name safe =
      Safe-map _ (integer-Safe numbers i64 value name)
  decode_simple-Safe (SimpleValue.string _) value nested name safe =
      Safe-map _ (text-Safe value name)
  decode_simple-Safe (SimpleValue.bounded_string bound _) value nested name safe =
      Safe-map _ (bounded_text-Safe numbers bound value name)
  decode_simple-Safe (SimpleValue.wstring _) value nested name safe =
      Safe-map _ (text-Safe value name)
  decode_simple-Safe (SimpleValue.bounded_wstring bound _) value nested name safe =
      Safe-map _ (bounded_wtext-Safe numbers bound value name)
  decode_simple-Safe (SimpleValue.message m) value nested name safe = Safe-map _ (safe m name)

  value_mut-Safe :
      (slot : Value) (value : Json N) (nested : View) (views : List View) (name : Text)
      → IsSafeView nested
      → All IsSafeView views
      → Safe (value_mut numbers slot value nested views name)
  unfolding value_mut
  value_mut-Safe (simple slot) value nested views name safe each =
      Safe-map _ (decode_simple-Safe slot value nested name safe)
  value_mut-Safe (array slot) value nested views name safe each =
      Safe-bind (json_array-Safe value name)
        λ items. Safe-map _ (array_elements-Safe numbers slot items views name each)
  value_mut-Safe (sequence slot) value nested views name safe each =
      Safe-bind (json_array-Safe value name)
        λ items. Safe-map _ (sequence_elements-Safe numbers slot items views name each)
  value_mut-Safe (bounded_sequence bound slot) value nested views name safe each =
      Safe-bind (json_array-Safe value name)
        λ items. Safe-map _ (bounded_elements-Safe numbers bound slot items views name each)

  -- Every key names a field.
  abbrev IsKnown : Members N → Fields → Type 0
  IsKnown no_members fs = Unit
  IsKnown (member key value members) fs = (is_there (get fs key) ≡ true) × IsKnown members fs

  find_unknown-IsKnown :
      (members : Members N) (fs : Fields)
      → find_unknown numbers members fs ≡ none
      → IsKnown members fs
  unfolding find_unknown
  find_unknown-IsKnown no_members fs h = tt
  find_unknown-IsKnown (member key value members) fs h = elim (Option-cases (get fs key)) [
    | inl e ↦ absurd (ground (arith, rw (e, find_unknown) at h))
    | inr (v, e) ↦ (ap is_there e, find_unknown-IsKnown members fs (rw (e, find_unknown) at h))
  ]

  put-IsKnown :
      (members : Members N) (fs : Fields) (k : Text) (v : Value)
      → IsKnown members fs
      → IsKnown members (put fs k v)
  put-IsKnown no_members fs k v h = tt
  put-IsKnown (member key value members) fs k v h =
      (get-put_there fs k key v ∙ h.0, put-IsKnown members fs k v h.1)

  -- What holds of the fields after each write holds of the rest of the loop.
  assign_field-Safe :
      (fs : Fields) (key : Text) (write : Value → Decoded Value) (rest : Fields → Decoded Fields)
      → is_there (get fs key) ≡ true
      → ((v : Value) → Safe (write v))
      → ((v : Value) → Safe (rest (put fs key v)))
      → Safe (and_then (assign_field numbers fs key write) rest)
  unfolding assign_field
  assign_field-Safe fs key write rest there each after = elim (Option-cases (get fs key)) [
    | inl e ↦ absurd (ground (arith, sym there ∙ ap is_there e))
    | inr (v, e) ↦
        rw (e, assign_field)
          (bind_assoc-Safe (write v) (λ slot. ok (put fs key slot)) rest
            (Safe-bind (each v) λ v'. after v'))
  ]

  checked-Safe :
      (found : Option Text) (unknown : Text → DecodeError) (rest : Decoded Fields)
      → ((key : Text) → IsRefusal (unknown key))
      → (found ≡ none → Safe rest)
      → Safe (checked numbers found unknown rest)
  checked-Safe none unknown rest refusal h = Safe-map _ (h refl)
  checked-Safe (some key) unknown rest refusal h = refuses (refusal key)

  mutual
    unfolding message_view

    message_view-Safe : (j : Json N) → IsSafeView (message_view numbers j)
    message_view-Safe (object members) (view fs) name =
        checked-Safe (find_unknown numbers members fs) _ _ (λ key. tt)
          (λ e.
            assign_members-Safe members fs (dotted numbers name)
              (find_unknown-IsKnown members fs e))
    message_view-Safe null m name = refuses tt
    message_view-Safe (bool _) m name = refuses tt
    message_view-Safe (number _) m name = refuses tt
    message_view-Safe (string _) m name = refuses tt
    message_view-Safe (json_list _) m name = refuses tt

    assign_members-Safe :
        (members : Members N) (fs : Fields) (rename : Text → Text)
        → IsKnown members fs
        → Safe (assign_members numbers members fs rename)
    assign_members-Safe no_members fs rename h = returns
    assign_members-Safe (member key value members) fs rename h =
        assign_field-Safe fs key _ _ h.0
          (λ v.
            value_mut-Safe v value (message_view numbers value) (item_views numbers value)
              (rename key) (message_view-Safe value) (item_views-Safe value))
          (λ v.
            assign_members-Safe members (put fs key v) rename (put-IsKnown members fs key v h.1))

    item_views-Safe : (j : Json N) → All IsSafeView (item_views numbers j)
    item_views-Safe (json_list items) = views_of-Safe items
    item_views-Safe null = tt
    item_views-Safe (bool _) = tt
    item_views-Safe (number _) = tt
    item_views-Safe (string _) = tt
    item_views-Safe (object _) = tt

    views_of-Safe : (items : Items N) → All IsSafeView (views_of numbers items)
    views_of-Safe no_items = tt
    views_of-Safe (json_item j js) = (message_view-Safe j, views_of-Safe js)

  decode-Safe : (m : Message) (j : Json N) → Safe (decode numbers m j)
  unfolding decode
  decode-Safe (view fs) (object members) =
      checked-Safe (find_unknown numbers members fs) _ _ (λ key. tt)
        (λ e. assign_members-Safe members fs (λ key. key) (find_unknown-IsKnown members fs e))
  decode-Safe (view fs) _ = refuses tt

  Safe-expect_failed : (r : Decoded Message) → Safe r → r ≢ err expect_failed
  Safe-expect_failed (ok m) h e = cc
  Safe-expect_failed (err x) (refuses h) e =
      let same : x ≡ expect_failed = ground (arith, e) in subst IsRefusal same h

  -- Whatever JSON value is decoded into whatever message, none of the `expect` calls fails.
  pub decode-expect_failed : (m : Message) (j : Json N) → decode numbers m j ≢ err expect_failed
  decode-expect_failed m j = Safe-expect_failed (decode numbers m j) (decode-Safe m j)
