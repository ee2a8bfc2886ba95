-- ===== src/RoundTrip/Reorder.antt =====
-- The loops of `decode` and `message_view` of src/publish/json.rs on members in another order.
use mathlib.Core.Logic.{if_pos}
use pg_ros.Base.{
  ◌≡◌, ◌≢◌, ◌∙◌, refl, sym, ap, Bool, Bool-cases, Option-cases, none, some, Text, Text-discrete,
  Result-cases, Result, ok, err, and_then-eq-ok, map_ok, arith, inl, inr,
}
use pg_ros.Json.{Members, member}
use pg_ros.Message.{Value, Fields, no_fields, field}
use pg_ros.Encoding.Encode.{Formatter}
use pg_ros.Encoding.Tree.{Tree, fields_tree, value_tree}
use pg_ros.Decoding.Scalar.{Numbers}
use pg_ros.Decoding.Loops.{Decoded}
use pg_ros.Decoding.Decode.{get, put, find_unknown, assign_field, assign_members}
use pg_ros.Decoding.FieldAccess.{get-put_ne}
use pg_ros.RoundTrip.ByKey.{insert_field, by_key_fields, by_key_value}
use pg_ros.RoundTrip.Apart.{
  get_later, get-none, put_later, Write, assign_members_step, assign_field-none, assign_field-some,
}

get_at :
    (name key : Text) (v : Value) (fs : Fields) → name ≡ key → get (field name v fs) key ≡ some v
unfolding get
get_at name key v fs e = if_pos (Text-discrete name key) e _ _

put_at :
    (name key : Text) (v w : Value) (fs : Fields)
    → name ≡ key
    → put (field name v fs) key w ≡ field name w fs
unfolding put
put_at name key v w fs e = if_pos (Text-discrete name key) e _ _

-- Writes to two names commute.
put-put :
    (n k : Text) (w u : Value) (fs : Fields) → n ≢ k → put (put fs n w) k u ≡ put (put fs k u) n w
unfolding put
put-put n k w u no_fields h = refl
put-put n k w u (field name v fs) h = elim (Text-discrete name n) [
  | yes here ↦
      let apart : name ≢ k = λ e. h (sym here ∙ e) in
      rw
        (
          put_at name n v w fs here,
          put_later name k w u fs apart,
          put_later name k v u fs apart,
          put_at name n v w (put fs k u) here,
        )
        refl
  | no there ↦ elim (Text-discrete name k) [
    | yes here ↦
        rw
          (
            put_later name n v w fs there,
            put_at name k v u (put fs n w) here,
            put_at name k v u fs here,
            put_later name n u w fs there,
          )
          refl
    | no later ↦
        rw
          (
            put_later name n v w fs there,
            put_later name k v u (put fs n w) later,
            put_later name k v u fs later,
            put_later name n v w (put fs k u) there,
          )
          (ap (λ rest. field name v rest) (put-put n k w u fs h))
  ]
]

err-ok {ℓ κ} : {E : Type ℓ} {A : Type κ} {e : E} {a : A} → ¬ (◌≡◌ {A = Result E A} (err e) (ok a))
err-ok x = cc

ok-injective {ℓ κ} :
    {E : Type ℓ} {A : Type κ} {a b : A} → ◌≡◌ {A = Result E A} (ok a) (ok b) → a ≡ b
ok-injective e = ground (arith, e)

module _ (numbers : Numbers Text) where
  -- The first key is a field, and so are the others.
  find_unknown-known :
      (key : Text) (j : Tree) (ms : Members Text) (all : Fields)
      → find_unknown numbers (member key j ms) all ≡ none
      → ((slot : Value) × (get all key ≡ some slot)) × (find_unknown numbers ms all ≡ none)
  unfolding find_unknown
  find_unknown-known key j ms all e = elim (Option-cases (get all key)) [
    | inl absent ↦ absurd (ground (arith, rw (absent, find_unknown) at e))
    | inr (slot, found) ↦ ((slot, found), rw (found, find_unknown) at e)
  ]

  known-find_unknown :
      (key : Text) (j : Tree) (ms : Members Text) (all : Fields)
      → ((slot : Value) × (get all key ≡ some slot))
      → find_unknown numbers ms all ≡ none
      → find_unknown numbers (member key j ms) all ≡ none
  unfolding find_unknown
  known-find_unknown key j ms all (slot, found) e = rw (found, find_unknown) e

module _ (numbers : Numbers Text) (f : Formatter) where
  assign_field-ok :
      (fs fs' : Fields) (key : Text) (write : Value → Decoded Value)
      → assign_field numbers fs key write ≡ ok fs'
      → (slot : Value) × (w : Value) × ((get fs key ≡ some slot)
          × (write slot ≡ ok w)
          × (fs' ≡ put fs key w))
  assign_field-ok fs fs' key write e = elim (Option-cases (get fs key)) [
    | inl absent ↦ absurd (err-ok (sym (assign_field-none numbers f fs key write absent) ∙ e))
    | inr (slot, found) ↦
        let mapped = sym (assign_field-some numbers f fs key write slot found) ∙ e in
        elim (Result-cases (write slot)) [
          | inl (w, written) ↦
              (slot, w, (found, written, sym (ok-injective (rw written at mapped))))
          | inr (x, failed) ↦ absurd (err-ok (rw failed at mapped))
        ]
  ]

  -- Two members of different names can change places.
  assign_field-swap :
      (fs fs1 fs2 : Fields) (n k : Text) (write other : Value → Decoded Value)
      → n ≢ k
      → assign_field numbers fs n write ≡ ok fs1
      → assign_field numbers fs1 k other ≡ ok fs2
      → (fs3 : Fields) × ((assign_field numbers fs k other ≡ ok fs3)
          × (assign_field numbers fs3 n write ≡ ok fs2))
  assign_field-swap fs fs1 fs2 n k write other h e1 e2 =
      let (slot, w, (found, written, put1)) = assign_field-ok fs fs1 n write e1 in
      let (slot2, u, (found2, written2, put2)) = assign_field-ok fs1 fs2 k other e2 in
      let there = sym (get-put_ne fs n k w h) ∙ sym (ap (λ x. get x k) put1) ∙ found2 in
      let still = get-put_ne fs k n u (λ e. h (sym e)) ∙ found in
      (
        put fs k u,
        (
          assign_field-some numbers f fs k other slot2 there
              ∙ ap (map_ok (λ x. put fs k x)) written2,
          assign_field-some numbers f (put fs k u) n write slot still
              ∙ ap (map_ok (λ x. put (put fs k u) n x)) written
              ∙ ap ok (sym (put-put n k w u fs h) ∙ sym (ap (λ x. put x k u) put1) ∙ sym put2),
        ),
      )

  -- A member can be inserted behind others, none of which has its name.
  pub assign_members-insert :
      (before : Text → Text → Bool) (n : Text) (w : Value) (ws fs r : Fields) (rename : Text → Text)
      → get ws n ≡ none
      → assign_members numbers (fields_tree f (field n w ws)) fs rename ≡ ok r
      → assign_members numbers (fields_tree f (insert_field before n w ws)) fs rename ≡ ok r
  unfolding fields_tree insert_field
  assign_members-insert before n w no_fields fs r rename absent e = e
  assign_members-insert before n w (field k u ws) fs r rename absent e =
      elim (Bool-cases (before n k)) [
        | inl first ↦ rw first e
        | inr later ↦
            let (apart, rest_absent) = get-none k n u ws absent in
            let write = Write numbers f n (value_tree f w) rename in
            let other = Write numbers f k (value_tree f u) rename in
            let (fs1, e1, rest1) = and_then-eq-ok (assign_field numbers fs n write) _ (
              sym (
                assign_members_step numbers f n (value_tree f w) (fields_tree f (field k u ws)) fs
                  rename)
              ∙ e) in
            let (fs2, e2, rest2) = and_then-eq-ok (assign_field numbers fs1 k other) _ (
              sym (assign_members_step numbers f k (value_tree f u) (fields_tree f ws) fs1 rename)
              ∙ rest1) in
            let (fs3, (e3, e4)) =
              assign_field-swap fs fs1 fs2 n k write other (λ x. apart (sym x)) e1 e2 in
            let moved =
              assign_members_step numbers f n (value_tree f w) (fields_tree f ws) fs3 rename
              ∙ rw e4 rest2 in
            rw later (
              assign_members_step numbers f k (value_tree f u)
                (fields_tree f (insert_field before n w ws)) fs rename
              ∙ rw e3 (assign_members-insert before n w ws fs3 r rename rest_absent moved))
      ]

  pub find_unknown-insert :
      (before : Text → Text → Bool) (n : Text) (w : Value) (ws all : Fields)
      → find_unknown numbers (fields_tree f (field n w ws)) all ≡ none
      → find_unknown numbers (fields_tree f (insert_field before n w ws)) all ≡ none
  unfolding fields_tree insert_field
  find_unknown-insert before n w no_fields all e = e
  find_unknown-insert before n w (field k u ws) all e = elim (Bool-cases (before n k)) [
    | inl first ↦ rw first e
    | inr later ↦
        let (here, rest) =
          find_unknown-known numbers n (value_tree f w) (fields_tree f (field k u ws)) all e in
        let (there, end) =
          find_unknown-known numbers k (value_tree f u) (fields_tree f ws) all rest in
        rw later (
          known-find_unknown numbers k (value_tree f u) (fields_tree f (insert_field before n w ws))
            all there
            (find_unknown-insert before n w ws all
              (known-find_unknown numbers n (value_tree f w) (fields_tree f ws) all here end)))
  ]

-- A field of another name is found where it was.
get-insert_field :
    (before : Text → Text → Bool) (n key : Text) (w : Value) (ws : Fields)
    → n ≢ key
    → get ws key ≡ none
    → get (insert_field before n w ws) key ≡ none
unfolding insert_field
get-insert_field before n key w no_fields h e = get_later n key w no_fields h ∙ e
get-insert_field before n key w (field k u ws) h e = elim (Bool-cases (before n k)) [
  | inl first ↦ rw first (get_later n key w (field k u ws) h ∙ e)
  | inr later ↦
      let (apart, rest) = get-none k key u ws e in
      rw later (
        get_later k key u (insert_field before n w ws) apart
        ∙ get-insert_field before n key w ws h rest)
]

pub get-by_key_fields :
    (before : Text → Text → Bool) (key : Text) (fs : Fields)
    → get fs key ≡ none
    → get (by_key_fields before fs) key ≡ none
unfolding by_key_fields
get-by_key_fields before key no_fields e = e
get-by_key_fields before key (field name v fs) e =
    let (apart, rest) = get-none name key v fs e in
    get-insert_field before name key (by_key_value before v) (by_key_fields before fs) apart
      (get-by_key_fields before key fs rest)
