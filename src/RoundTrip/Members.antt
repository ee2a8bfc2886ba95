-- ===== src/RoundTrip/Members.antt =====
-- The names and the numbers of the members that `decode` and `message_view` of src/publish/json.rs meet.
use pg_ros.Base.{
  suc, Bool, ◌≡◌, ◌≢◌, ◌∙◌, refl, sym, ap, Option-cases, none, some, Text, Text-discrete, length,
  arith, inl, inr, ◌==◌, true,
}
use pg_ros.Message.{Value, Fields, Messages, field, no_messages, item}
use pg_ros.Encoding.Encode.{Formatter}
use pg_ros.Encoding.Tree.{fields_tree, messages_tree}
use pg_ros.Decoding.Scalar.{Numbers, list_of, check_length}
use pg_ros.Decoding.Loops.{count, assign_messages, fill_message}
use pg_ros.Decoding.Decode.{get, find_unknown, views_of}
use pg_ros.RoundTrip
use pg_ros.RoundTrip.{IsReadable, Same, SameFields, SameValue, SameSimple, SameEach}
use pg_ros.RoundTrip.ByKey.{by_key_fields, by_key_value, by_key_messages}
use pg_ros.RoundTrip.Reorder.{find_unknown-insert}
use pg_ros.RoundTrip.Apart.{get_here, get_later}

-- What is a field stays one with another field before it.
get_more :
    (name key : Text) (v : Value) (fs : Fields)
    → get fs key ≢ none
    → get (field name v fs) key ≢ none
get_more name key v fs h e = elim (Text-discrete name key) [
  | yes same ↦ some-none (sym (get_here name v fs) ∙ ap (λ k. get (field name v fs) k) same ∙ e)
  | no apart ↦ h (sym (get_later name key v fs apart) ∙ e)
]
  where
    some-none : ¬ (some v ≡ none)
    some-none x = cc

module _ (numbers : Numbers Text) (f : Formatter) (before : Text → Text → Bool) where
  -- Every member names a field.
  pub find_unknown-fields_tree :
      {ss fs : Fields} (all : Fields)
      → SameFields numbers f ss fs
      → ((key : Text) → get ss key ≢ none → get all key ≢ none)
      → find_unknown numbers (fields_tree f (by_key_fields before fs)) all ≡ none
  unfolding find_unknown fields_tree by_key_fields
  find_unknown-fields_tree all RoundTrip.none_left inside = refl
  find_unknown-fields_tree all (RoundTrip.one_more {name} {s} {v} {ss} {fs} h absent rest) inside =
      let others =
        find_unknown-fields_tree all rest λ key x. inside key (get_more name key s ss x) in
      find_unknown-insert numbers f before name (by_key_value before v) (by_key_fields before fs)
        all
        (elim (Option-cases (get all name)) [
          | inl e ↦ absurd (inside name (λ x. some-none (sym (get_here name s ss) ∙ x)) e)
          | inr (slot, e) ↦ rw (e, find_unknown) others
        ])
    where
      some-none : ¬ (some s ≡ none)
      some-none x = cc

  pub count-by_key_messages : (ms : Messages) → count (by_key_messages before ms) ≡ count ms
  unfolding by_key_messages
  count-by_key_messages no_messages = refl
  count-by_key_messages (item m ms) = ap suc (count-by_key_messages ms)

  pub SameEach-count : {ss ms : Messages} → SameEach numbers f ss ms → count ss ≡ count ms
  SameEach-count RoundTrip.done = refl
  SameEach-count (RoundTrip.next h rest) = ap suc (SameEach-count rest)

  pub length-list_of : (ms : Messages) → length (list_of (messages_tree f ms)) ≡ count ms
  unfolding messages_tree
  length-list_of no_messages = refl
  length-list_of (item m ms) = ap suc (length-list_of ms)

  pub length-views_of : (ms : Messages) → length (views_of numbers (messages_tree f ms)) ≡ count ms
  unfolding messages_tree views_of
  length-views_of no_messages = refl
  length-views_of (item m ms) = ap suc (length-views_of ms)

  pub fill_message-views_of :
      (ss ms : Messages) (name : Text)
      → count ss ≡ count ms
      → fill_message ss (views_of numbers (messages_tree f ms)) name
        ≡ assign_messages ss (views_of numbers (messages_tree f ms)) name
  unfolding fill_message check_length
  fill_message-views_of ss ms name e =
      let same : (count ss == length (views_of numbers (messages_tree f ms))) ≡ true =
        ground (arith, e, length-views_of ms) in
      rw same refl
