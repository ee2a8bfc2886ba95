-- ===== src/Decoding/Typed/Decode.antt =====
-- `decode` of src/publish/json.rs keeps the type of the message.
use mathlib.Core.Logic.{if_pos, if_neg}
use pg_ros.Base.{
  Ensures-any, ◌≡◌, refl, ◌∙◌, ◌⊎◌, inl, inr, Option, none, some, List, Text, Text-discrete, ok,
  All, Ensures, holds, rejected, Ensures-and_then, Ensures-ok,
}
use pg_ros.Json.{
  Json, Items, Members, null, bool, number, string, object, no_items, no_members, member,
}
use pg_ros.Json.{array as json_list, item as json_item}
use pg_ros.Message.{Value, Message, Fields, view}
use pg_ros.Decoding.Scalar.{Numbers, DecodeError, json_array}
use pg_ros.Decoding.Loops.{Decoded, View}
use pg_ros.Decoding.Decode.{
  get, put, value_mut, assign_field, find_unknown, checked, dotted, message_view, assign_members,
  item_views, views_of, decode,
}
use pg_ros.Decoding.Typed
use pg_ros.Decoding.Typed.{HasType, FieldsType, ValueType}
use pg_ros.Decoding.Typed.Loops.{Keeps}
use pg_ros.Decoding.Typed.Simple.{decode_simple-Ensures}
use pg_ros.Decoding.Typed.Arrays.{array_elements-Ensures}
use pg_ros.Decoding.Typed.Sequences.{sequence_elements-Ensures}
use pg_ros.Decoding.Typed.Bounded.{bounded_elements-Ensures}

module _ {N : Type 0} (numbers : Numbers N) where
  value_mut-Ensures :
      {t slot : Value} (value : Json N) (nested : View) (views : List View) (name : Text)
      → Keeps numbers nested
      → All (Keeps numbers) views
      → ValueType numbers t slot
      → Ensures (ValueType numbers t) (value_mut numbers slot value nested views name)
  unfolding value_mut
  value_mut-Ensures value nested views name keep keeps (Typed.simples p) =
      Ensures-and_then (decode_simple-Ensures numbers value nested name keep p)
        λ s h. holds (Typed.simples h)
  value_mut-Ensures value nested views name keep keeps (Typed.arrays p len) =
      Ensures-and_then (Ensures-any (json_array value name)) λ items _.
        Ensures-and_then (array_elements-Ensures numbers items views name keeps p)
          λ e h. holds (Typed.arrays h.0 (h.1 ∙ len))
  value_mut-Ensures value nested views name keep keeps (Typed.sequences p) =
      Ensures-and_then (Ensures-any (json_array value name)) λ items _.
        Ensures-and_then (sequence_elements-Ensures numbers items views name keeps p)
          λ e h. holds (Typed.sequences h)
  value_mut-Ensures value nested views name keep keeps (Typed.bounded_sequences {bound} p _) =
      Ensures-and_then (Ensures-any (json_array value name)) λ items _.
        Ensures-and_then (bounded_elements-Ensures numbers items views name bound keeps p)
          λ e h. holds (Typed.bounded_sequences h.0 h.1)

  -- The field that a key names: its type, and that a value of that type may be put there.
  abbrev Slot : Fields → Fields → Text → Type 0
  Slot ts fs key =
      (t : Value) × (v : Value) × (get fs key ≡ some v)
      × ValueType numbers t v
      × ((v' : Value) → ValueType numbers t v' → FieldsType numbers ts (put fs key v'))

  locate :
      {ts fs : Fields} (key : Text)
      → FieldsType numbers ts fs
      → (get fs key ≡ none) ⊎ Slot ts fs key
  unfolding get put
  locate key Typed.none_left = inl refl
  locate key (Typed.one_more {name} {t} {v} {ts} {fs} p ps) = elim (Text-discrete name key) [
    | yes e ↦ inr (t, v, rw (if_pos _ e), p, λ v' p'. rw (if_pos _ e) (Typed.one_more p' ps))
    | no ne ↦ elim (locate key ps) [
      | inl e ↦ inl (rw (if_neg _ ne) e)
      | inr (t', w, e, q, keep) ↦
          inr (
            t',
            w,
            rw (if_neg _ ne) e,
            q,
            λ v' p'. rw (if_neg _ ne) (Typed.one_more p (keep v' p')),
          )
    ]
  ]

  assign_field-Ensures :
      {ts fs : Fields} (key : Text) (write : Value → Decoded Value)
      → ((t v : Value) → ValueType numbers t v → Ensures (ValueType numbers t) (write v))
      → FieldsType numbers ts fs
      → Ensures (FieldsType numbers ts) (assign_field numbers fs key write)
  unfolding assign_field
  assign_field-Ensures {ts} {fs} key write each p = elim (locate key p) [
    | inl e ↦ rw (e, assign_field) rejected
    | inr (t, v, e, q, keep) ↦
        rw (e, assign_field) (Ensures-and_then (each t v q) λ v' q'. holds (keep v' q'))
  ]

  checked-Ensures :
      {ts : Fields} (found : Option Text) (unknown : Text → DecodeError) (rest : Decoded Fields)
      → Ensures (FieldsType numbers ts) rest
      → Ensures (HasType numbers (view ts)) (checked numbers found unknown rest)
  checked-Ensures none unknown rest p = Ensures-and_then p λ fs h. holds (Typed.views h)
  checked-Ensures (some key) unknown rest p = rejected

  mutual
    unfolding message_view

    message_view-Keeps : (j : Json N) → Keeps numbers (message_view numbers j)
    message_view-Keeps (object members) (view ts) (view fs) name (Typed.views p) =
        checked-Ensures (find_unknown numbers members fs) _ _
          (assign_members-Ensures members (dotted numbers name) p)
    message_view-Keeps null t m name p = rejected
    message_view-Keeps (bool _) t m name p = rejected
    message_view-Keeps (number _) t m name p = rejected
    message_view-Keeps (string _) t m name p = rejected
    message_view-Keeps (json_list _) t m name p = rejected

    assign_members-Ensures :
        (members : Members N) {ts fs : Fields} (rename : Text → Text)
        → FieldsType numbers ts fs
        → Ensures (FieldsType numbers ts) (assign_members numbers members fs rename)
    assign_members-Ensures no_members rename p = holds p
    assign_members-Ensures (member key value members) rename p =
        Ensures-and_then
          (assign_field-Ensures key _
            (λ t v q.
              value_mut-Ensures value (message_view numbers value) (item_views numbers value)
                (rename key) (message_view-Keeps value) (item_views-Keeps value) q)
            p)
          λ fs' p'. assign_members-Ensures members rename p'

    item_views-Keeps : (j : Json N) → All (Keeps numbers) (item_views numbers j)
    item_views-Keeps (json_list items) = views_of-Keeps items
    item_views-Keeps null = tt
    item_views-Keeps (bool _) = tt
    item_views-Keeps (number _) = tt
    item_views-Keeps (string _) = tt
    item_views-Keeps (object _) = tt

    views_of-Keeps : (items : Items N) → All (Keeps numbers) (views_of numbers items)
    views_of-Keeps no_items = tt
    views_of-Keeps (json_item j js) = (message_view-Keeps j, views_of-Keeps js)

  decode-Ensures :
      (t m : Message) (j : Json N)
      → HasType numbers t m
      → Ensures (HasType numbers t) (decode numbers m j)
  unfolding decode
  decode-Ensures (view ts) (view fs) (object members) (Typed.views p) =
      checked-Ensures (find_unknown numbers members fs) _ _
        (assign_members-Ensures members (λ key. key) p)
  decode-Ensures (view ts) (view fs) _ (Typed.views p) = rejected

  -- Whatever JSON value is decoded into a message of some type, the result has that type: the same
  -- fields and kinds, every integer in the range of its type, every bounded string and bounded
  -- sequence within its bound, and every array of its fixed length.
  pub decode-HasType :
      (t m m' : Message) (j : Json N)
      → HasType numbers t m
      → decode numbers m j ≡ ok m'
      → HasType numbers t m'
  decode-HasType t m m' j p e = Ensures-ok (decode-Ensures t m j p) e
