-- ===== src/Decoding/FieldAccess.antt =====
-- Which fields `decode` of src/publish/json.rs reads and writes.
use mathlib.Core.Logic.{if_pos, if_neg}
use pg_ros.Base.{
  ◌≡◌, ◌≢◌, refl, sym, ◌∙◌, ◌⊎◌, inl, inr, Option, none, some, Text, Text-discrete, ok, err,
  Option-cases, and_then-eq-ok, arith,
}
use pg_ros.Json.{Members, object, no_members, member}
use pg_ros.Message.{Value, Fields, view, no_fields, field}
use pg_ros.Decoding.Scalar.{Numbers, DecodeError, unknown_message_field}
use pg_ros.Decoding.Loops.{Decoded}
use pg_ros.Decoding.Decode.{
  get, put, value_mut, assign_field, find_unknown, checked, message_view, assign_members,
  item_views, decode,
}

-- A write leaves the fields of other names alone.
pub get-put_ne :
    (fs : Fields) (k key : Text) (v : Value) → k ≢ key → get (put fs k v) key ≡ get fs key
unfolding get put
get-put_ne no_fields k key v ne = refl
get-put_ne (field name w fs) k key v ne = elim (Text-discrete name k) [
  | yes e ↦
      let other : name ≢ key = λ q. ne (sym e ∙ q) in
      rw (if_pos _ e, if_neg _ other, if_neg _ other)
  | no ne' ↦ rw (if_neg _ ne') (elim (Text-discrete name key) [
    | yes q ↦ rw (if_pos _ q, if_pos _ q)
    | no q ↦ rw (if_neg _ q, if_neg _ q) (get-put_ne fs k key v ne)
  ])
]

-- The object has a member of that key.
abbrev pub Mentions : {N : Type 0} → Text → Members N → Type 0
Mentions key no_members = ⊥
Mentions key (member k j rest) = (k ≡ key) ⊎ Mentions key rest

module _ {N : Type 0} (numbers : Numbers N) where
  assign_field-put :
      (fs : Fields) {gs : Fields} (k : Text) (write : Value → Decoded Value)
      → assign_field numbers fs k write ≡ ok gs
      → (v : Value) × (gs ≡ put fs k v)
  unfolding assign_field
  assign_field-put fs k write e = elim (Option-cases (get fs k)) [
    | inl missing ↦ absurd (ground arith)
    | inr (slot, found) ↦
        let (v, _, done) =
          and_then-eq-ok (write slot) (λ slot'. ok (put fs k slot'))
            (rw (found, assign_field) at e) in
        (v, cc)
  ]

  assign_members-unmentioned :
      (members : Members N) (fs : Fields) {gs : Fields} (rename : Text → Text) (key : Text)
      → assign_members numbers members fs rename ≡ ok gs
      → ¬ Mentions key members
      → get gs key ≡ get fs key
  unfolding assign_members
  assign_members-unmentioned no_members fs rename key e other = cc
  assign_members-unmentioned (member k value rest) fs {gs} rename key e other =
      let (fs', first, later) =
        and_then-eq-ok
          (assign_field numbers fs k (λ slot.
            value_mut numbers slot value (message_view numbers value) (item_views numbers value)
              (rename k)))
          (λ fields. assign_members numbers rest fields rename) e in
      let (v, written) = assign_field-put fs k _ first in
      assign_members-unmentioned rest fs' rename key later (λ m. other (inr m))
      ∙ cc (written, get-put_ne fs k key v (λ q. other (inl q)))

  find_unknown-known :
      (members : Members N) (fs : Fields) (key : Text)
      → find_unknown numbers members fs ≡ none
      → Mentions key members
      → get fs key ≢ none
  unfolding find_unknown
  find_unknown-known no_members fs key e m = absurd m
  find_unknown-known (member k value rest) fs key e m = elim (Option-cases (get fs k)) [
    | inl missing ↦ absurd (ground arith)
    | inr (slot, found) ↦ elim m [
      | inl same ↦ λ none_there. ground (arith, found, same)
      | inr later ↦ find_unknown-known rest fs key (rw (found, find_unknown) at e) later
    ]
  ]

  checked-ok :
      (found : Option Text) (unknown : Text → DecodeError) (rest : Decoded Fields) {gs : Fields}
      → checked numbers found unknown rest ≡ ok (view gs)
      → (found ≡ none) × (rest ≡ ok gs)
  checked-ok none unknown (ok fs) e = ground arith
  checked-ok none unknown (err x) e = cc
  checked-ok (some key) unknown rest e = cc

  -- If a message is decoded, then every key of the JSON object names a field of it.
  pub decode-known :
      (fs gs : Fields) (members : Members N) (key : Text)
      → decode numbers (view fs) (object members) ≡ ok (view gs)
      → Mentions key members
      → get fs key ≢ none
  unfolding decode
  decode-known fs gs members key e =
      find_unknown-known members fs key
        (checked-ok (find_unknown numbers members fs) unknown_message_field
          (assign_members numbers members fs (λ k. k)) e).0

  -- If a message is decoded, then a field that no key of the JSON object names keeps its value.
  pub decode-unmentioned :
      (fs gs : Fields) (members : Members N) (key : Text)
      → decode numbers (view fs) (object members) ≡ ok (view gs)
      → ¬ Mentions key members
      → get gs key ≡ get fs key
  unfolding decode
  decode-unmentioned fs gs members key e =
      assign_members-unmentioned members fs (λ k. k) key
        (checked-ok (find_unknown numbers members fs) unknown_message_field
          (assign_members numbers members fs (λ k. k)) e).1
