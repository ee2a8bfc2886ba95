-- ===== src/Messages/Kept.antt =====
-- src/messages.rs: `reconcile` as a whole.
use pg_ros.Base.{
  ℕ, ◌*◌, ◌≡◌, refl, ap, ◌∙◌, Bool, true, false, not, ◌&&◌, ◌||◌, Option, none, some, List, [], ◌∷◌,
  ◌++◌, Text, Result, ok, err, ltb, arith, Bool-cases, inl, inr, and_left, and_right,
}
use pg_ros.Messages.Flush.{MessageTables, same_topic, find_message, is_nil}
use pg_ros.Messages.Newest.{is_nil-eq}
use pg_ros.Messages.Reconcile.{
  Desired, Plan, contains_key, remove_key, contains_text, subscribe_arm, plan_row, plan_rows,
  retained, removed_topics, apply_plan, nothing_planned, first_plan, finish_plan, reconcile,
}
use pg_ros.Messages.Dropped.{
  contains_text-append, delete_messages-contains, contains_key-retained, retained-wanted,
  remove_key-contains,
}

-- The row has outlived the time to live.
abbrev pub is_expired : ℕ → Desired → Bool
is_expired ttl entry = ltb 0 ttl && ltb (ttl * 1000000) entry.idle_micros

-- Some row for the topic has not expired.
abbrev pub is_wanted : ℕ → Text → List Desired → Bool
is_wanted ttl topic [] = false
is_wanted ttl topic (entry ∷ desired) =
    (same_topic entry.topic topic && not (is_expired ttl entry)) || is_wanted ttl topic desired

module _ {L : Type 0} (subscribe : Text → Option Text → Result Text (Text × L)) where
  -- The topic has a subscription, or has expired.
  abbrev is_tracked : Text → Plan L → Bool
  is_tracked topic plan = contains_key topic plan.live || contains_text topic plan.expired

  subscribe_arm-tracked :
      (topic t : Text) (r : Result Text (Text × L)) (plan : Plan L)
      → is_tracked topic plan ≡ true
      → is_tracked topic (subscribe_arm subscribe t r plan) ≡ true
  subscribe_arm-tracked topic t (ok (kind, l)) plan h = ground (arith, h)
  subscribe_arm-tracked topic t (err e) plan h = h

  expire-tracked :
      (topic t : Text) (live : List (Text × L)) (expired : List Text)
      → (contains_key topic live || contains_text topic expired) ≡ true
      → (contains_key topic (remove_key t live) || contains_text topic (expired ++ (t ∷ []))) ≡ true
  expire-tracked topic t live expired h =
      let appended = contains_text-append topic expired (t ∷ []) in
      elim (Bool-cases (contains_key topic live)) [
        | inl found ↦
            let kept = remove_key-contains topic t live found in ground (arith, kept, appended)
        | inr gone ↦ ground (arith, h, gone, appended)
      ]

  plan_row-tracked :
      (topic : Text) (ttl : ℕ) (entry : Desired) (plan : Plan L)
      → is_tracked topic plan ≡ true
      → is_tracked topic (plan_row subscribe ttl entry plan) ≡ true
  unfolding plan_row
  plan_row-tracked topic ttl entry plan h = elim (Bool-cases (is_expired ttl entry)) [
    | inl old ↦ rw old (expire-tracked topic entry.topic plan.live plan.expired h)
    | inr young ↦ rw young (elim (Bool-cases (contains_key entry.topic plan.live)) [
      | inl there ↦ rw there h
      | inr absent ↦
          rw absent
            (subscribe_arm-tracked topic entry.topic (subscribe entry.topic entry.requested) _ h)
    ])
  ]

  plan_rows-tracked :
      (topic : Text) (ttl : ℕ) (desired : List Desired) (plan : Plan L)
      → is_tracked topic plan ≡ true
      → is_tracked topic (plan_rows subscribe ttl desired plan) ≡ true
  unfolding plan_rows
  plan_rows-tracked topic ttl [] plan h = h
  plan_rows-tracked topic ttl (entry ∷ desired) plan h =
      plan_rows-tracked topic ttl desired _ (plan_row-tracked topic ttl entry plan h)

  subscribe_arm-wanted :
      (t : Text) (r : Result Text (Text × L)) (plan : Plan L)
      → (subscribe_arm subscribe t r plan).wanted ≡ plan.wanted
  subscribe_arm-wanted t (ok (kind, l)) plan = refl
  subscribe_arm-wanted t (err e) plan = refl

  plan_row-wanted :
      (topic : Text) (ttl : ℕ) (entry : Desired) (plan : Plan L)
      → contains_text topic (plan_row subscribe ttl entry plan).wanted ≡ (
          (same_topic entry.topic topic && not (is_expired ttl entry))
          || contains_text topic plan.wanted)
  unfolding plan_row
  plan_row-wanted topic ttl entry plan = elim (Bool-cases (is_expired ttl entry)) [
    | inl old ↦ rw old (ground arith)
    | inr young ↦ rw young (elim (Bool-cases (contains_key entry.topic plan.live)) [
      | inl there ↦ rw there (ground arith)
      | inr absent ↦ rw absent (
          ap (contains_text topic)
            (subscribe_arm-wanted entry.topic (subscribe entry.topic entry.requested) _)
          ∙ ground arith)
    ])
  ]

  plan_rows-wanted :
      (topic : Text) (ttl : ℕ) (desired : List Desired) (plan : Plan L)
      → contains_text topic (plan_rows subscribe ttl desired plan).wanted ≡ true
      → (contains_text topic plan.wanted || is_wanted ttl topic desired) ≡ true
  unfolding plan_rows
  plan_rows-wanted topic ttl [] plan h = ground (arith, h)
  plan_rows-wanted topic ttl (entry ∷ desired) plan h =
      let later = plan_rows-wanted topic ttl desired _ h in
      let here = plan_row-wanted topic ttl entry plan in ground (arith, later, here)

module _ {L : Type 0} where
  removed-or_expired :
      (plan : Plan L) (topic : Text)
      → (contains_key topic plan.live || contains_text topic plan.expired) ≡ true
      → contains_key topic (retained plan.wanted plan.live) ≡ false
      → (contains_text topic (removed_topics plan.wanted plan.live)
          || contains_text topic plan.expired)
        ≡ true
  removed-or_expired plan topic h k = elim (Bool-cases (contains_key topic plan.live)) [
    | inl there ↦
        let gone = contains_key-retained topic plan.wanted plan.live there k in ground (arith, gone)
    | inr absent ↦ ground (arith, h, absent)
  ]

  nothing_planned-contains :
      (plan : Plan L) (removed : List Text) (topic : Text)
      → nothing_planned plan removed ≡ true
      → (contains_text topic removed || contains_text topic plan.expired) ≡ true
      → ⊥
  nothing_planned-contains plan removed topic h found =
      let both : (is_nil plan.expired && is_nil removed) ≡ true = and_right _ _ h in
      let no_expired = ap (contains_text topic) (is_nil-eq plan.expired (and_left _ _ both)) in
      let no_removed = ap (contains_text topic) (is_nil-eq removed (and_right _ _ both)) in
      ground (arith, found, no_expired, no_removed)

module _ {L V : Type 0} (subscribe : Text → Option Text → Result Text (Text × L)) where
  finish_plan-dropped :
      (oid : ℕ) (plan : Plan L) (db : MessageTables V) (topic : Text)
      → is_tracked subscribe topic plan ≡ true
      → contains_key topic (retained plan.wanted plan.live) ≡ false
      → find_message topic (finish_plan (some oid) plan db).1.messages ≡ none
  unfolding finish_plan apply_plan
  finish_plan-dropped oid plan db topic h k =
      let removed = removed_topics plan.wanted plan.live in
      let found = removed-or_expired plan topic h k in
      elim (Bool-cases (nothing_planned plan removed)) [
        | inl nothing ↦ absurd (nothing_planned-contains plan removed topic nothing found)
        | inr something ↦ rw something (
            delete_messages-contains topic (removed ++ plan.expired) db.messages
              (contains_text-append topic removed plan.expired ∙ found))
      ]

  -- A subscription that `reconcile` does not keep, because its row disappeared or expired, has no row
  -- among the stored messages afterwards, provided that the extension is installed.
  pub reconcile-dropped :
      (ttl oid : ℕ) (desired : List Desired) (topics : List (Text × L)) (db : MessageTables V)
      (topic : Text)
      → contains_key topic topics ≡ true
      → contains_key topic (reconcile subscribe ttl (some oid) (ok desired) topics db).0.0 ≡ false
      → find_message topic (reconcile subscribe ttl (some oid) (ok desired) topics db).0.1.messages
        ≡ none
  unfolding reconcile finish_plan
  reconcile-dropped ttl oid desired topics db topic h k =
      finish_plan-dropped oid (plan_rows subscribe ttl desired (first_plan topics)) db topic
        (plan_rows-tracked subscribe topic ttl desired (first_plan topics) (ground (arith, h))) k

  -- If the desired rows could be read, every subscription that is live after `reconcile` has a row that
  -- has not expired.
  pub reconcile-wanted :
      (ttl : ℕ) (installed : Option ℕ) (desired : List Desired) (topics : List (Text × L))
      (db : MessageTables V) (topic : Text)
      → contains_key topic (reconcile subscribe ttl installed (ok desired) topics db).0.0 ≡ true
      → is_wanted ttl topic desired ≡ true
  unfolding reconcile finish_plan
  reconcile-wanted ttl installed desired topics db topic h =
      let plan = plan_rows subscribe ttl desired (first_plan topics) in
      plan_rows-wanted subscribe topic ttl desired (first_plan topics)
        (retained-wanted topic plan.wanted plan.live h)
