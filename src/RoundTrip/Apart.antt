-- ===== src/RoundTrip/Apart.antt =====
-- `assign_members` of src/publish/json.rs on fields of different names.
use mathlib.Core.Logic.{if_pos, if_neg}
use pg_ros.Base.{
  ◌≡◌, ◌≢◌, ◌∙◌, refl, sym, ap, Option-cases, none, some, Text, Text-discrete, Result-cases, ok,
  err, map_ok, and_then, inl, inr,
}
use pg_ros.Json.{Members, no_members, member}
use pg_ros.Message.{Value, Fields, no_fields, field}
use pg_ros.Encoding.Encode.{Formatter}
use pg_ros.Encoding.Tree.{Tree, fields_tree, value_tree}
use pg_ros.Decoding.Scalar.{Numbers, expect_failed}
use pg_ros.Decoding.Loops.{Decoded}
use pg_ros.Decoding.Decode.{
  get, put, value_mut, assign_field, message_view, assign_members, item_views,
}

pub get_here : (name : Text) (v : Value) (fs : Fields) → get (field name v fs) name ≡ some v
unfolding get
get_here name v fs = if_pos (Text-discrete name name) refl _ _

pub get_later :
    (name key : Text) (v : Value) (fs : Fields)
    → name ≢ key
    → get (field name v fs) key ≡ get fs key
unfolding get
get_later name key v fs h = if_neg (Text-discrete name key) h _ _

pub put_here :
    (name : Text) (v w : Value) (fs : Fields) → put (field name v fs) name w ≡ field name w fs
unfolding put
put_here name v w fs = if_pos (Text-discrete name name) refl _ _

pub put_later :
    (name key : Text) (v w : Value) (fs : Fields)
    → name ≢ key
    → put (field name v fs) key w ≡ field name v (put fs key w)
unfolding put
put_later name key v w fs h = if_neg (Text-discrete name key) h _ _

-- A name that is no field is another name than that of a field.
pub get-none :
    (name key : Text) (v : Value) (fs : Fields)
    → get (field name v fs) key ≡ none
    → (name ≢ key) × (get fs key ≡ none)
get-none name key v fs e = (apart, sym (get_later name key v fs apart) ∙ e)
  where
    some-none : ¬ (some v ≡ none)
    some-none x = cc

    apart : name ≢ key
    apart x = some-none (sym (get_here name v fs) ∙ ap (λ k. get (field name v fs) k) x ∙ e)

module _ (numbers : Numbers Text) (f : Formatter) where
  -- What a member writes into its field.
  abbrev pub Write : Text → Tree → (Text → Text) → Value → Decoded Value
  Write key j rename slot =
      value_mut numbers slot j (message_view numbers j) (item_views numbers j) (rename key)

  pub assign_members_step :
      (key : Text) (j : Tree) (ms : Members Text) (fs : Fields) (rename : Text → Text)
      → assign_members numbers (member key j ms) fs rename
        ≡ and_then
            (assign_field numbers fs key (Write key j rename))
            (λ fs'. assign_members numbers ms fs' rename)
  unfolding assign_members
  assign_members_step key j ms fs rename = refl

  pub assign_members_end :
      (fs : Fields) (rename : Text → Text) → assign_members numbers no_members fs rename ≡ ok fs
  unfolding assign_members
  assign_members_end fs rename = refl

  pub assign_field-none :
      (fs : Fields) (key : Text) (write : Value → Decoded Value)
      → get fs key ≡ none
      → assign_field numbers fs key write ≡ err expect_failed
  unfolding assign_field
  assign_field-none fs key write e = rw (e, assign_field) refl

  pub assign_field-some :
      (fs : Fields) (key : Text) (write : Value → Decoded Value) (slot : Value)
      → get fs key ≡ some slot
      → assign_field numbers fs key write ≡ map_ok (λ w. put fs key w) (write slot)
  unfolding assign_field
  assign_field-some fs key write slot e = rw (e, assign_field) (mapped (write slot))
    where
      mapped :
          (r : Decoded Value) → and_then r (λ w. ok (put fs key w)) ≡ map_ok (λ w. put fs key w) r
      mapped (ok w) = refl
      mapped (err x) = refl

  assign_field-apart :
      (n key : Text) (v : Value) (rest : Fields) (write : Value → Decoded Value)
      → n ≢ key
      → assign_field numbers (field n v rest) key write
        ≡ map_ok (λ done. field n v done) (assign_field numbers rest key write)
  assign_field-apart n key v rest write h = elim (Option-cases (get rest key)) [
    | inl e ↦
        rw
          (
            assign_field-none rest key write e,
            assign_field-none (field n v rest) key write (get_later n key v rest h ∙ e),
          )
          refl
    | inr (slot, e) ↦
        rw
          (
            assign_field-some rest key write slot e,
            assign_field-some (field n v rest) key write slot (get_later n key v rest h ∙ e),
          )
          (elim (Result-cases (write slot)) [
            | inl (w, written) ↦ rw (written, put_later n key v w rest h) refl
            | inr (x, failed) ↦ rw failed refl
          ])
  ]

  -- The first field is untouched by members of other names.
  pub assign_members-apart :
      (fs : Fields) (n : Text) (v : Value) (rest : Fields) (rename : Text → Text)
      → get fs n ≡ none
      → assign_members numbers (fields_tree f fs) (field n v rest) rename
        ≡ map_ok (λ done. field n v done) (assign_members numbers (fields_tree f fs) rest rename)
  unfolding fields_tree
  assign_members-apart no_fields n v rest rename h =
      rw (assign_members_end rest rename, assign_members_end (field n v rest) rename) refl
  assign_members-apart (field name w fs) n v rest rename h =
      let (apart, later) = get-none name n w fs h in
      let write = Write name (value_tree f w) rename in
      assign_members_step name (value_tree f w) (fields_tree f fs) (field n v rest) rename
      ∙ rw
          (
            assign_members_step name (value_tree f w) (fields_tree f fs) rest rename,
            assign_field-apart n name v rest write (λ x. apart (sym x)),
          )
          (elim (Result-cases (assign_field numbers rest name write)) [
            | inl (fs', written) ↦ rw written (assign_members-apart fs n v fs' rename later)
            | inr (x, failed) ↦ rw failed refl
          ])
