-- ===== src/Messages/Dropped.antt =====
-- src/messages.rs: which subscriptions `reconcile` keeps, and that it drops the messages of the others.
use mathlib.Core.Path.{subst}
use pg_ros.Base.{
  ◌≡◌, refl, sym, ap, ◌∙◌, true, false, ◌||◌, none, List, [], ◌∷◌, ◌++◌, Text, arith, Bool-cases,
  inl, inr,
}
use pg_ros.Messages.Flush.{MessageRow, same_topic, find_message}
use pg_ros.Messages.Newest.{same_topic_refl, same_topic-eq}
use pg_ros.Messages.Reconcile.{
  contains_key, remove_key, contains_text, retained, removed_topics, delete_message,
  delete_messages,
}

-- The topic of the subscription is wanted, expired or removed.
pub contains_text-append :
    (topic : Text) (xs ys : List Text)
    → contains_text topic (xs ++ ys) ≡ (contains_text topic xs || contains_text topic ys)
contains_text-append topic [] ys = refl
contains_text-append topic (x ∷ xs) ys = ground (arith, contains_text-append topic xs ys)

module _ {V : Type 0} where
  find_message-head :
      (topic : Text) (row : MessageRow V) (rows : List (MessageRow V))
      → find_message topic (row ∷ rows) ≡ none
      → (same_topic row.topic_name topic ≡ false) × (find_message topic rows ≡ none)
  find_message-head topic row rows h = elim (Bool-cases (same_topic row.topic_name topic)) [
    | inl same ↦ absurd (ground (arith, rw same at h))
    | inr other ↦ (other, rw other at h)
  ]

  -- No row of the topic is left.
  find_message-delete_message :
      (topic : Text) (rows : List (MessageRow V))
      → find_message topic (delete_message topic rows) ≡ none
  find_message-delete_message topic [] = refl
  find_message-delete_message topic (row ∷ rows) =
      let rest = find_message-delete_message topic rows in
      elim (Bool-cases (same_topic row.topic_name topic)) [
        | inl same ↦ rw same rest
        | inr other ↦ rw other (rw other rest)
      ]

  find_message-none :
      (topic t : Text) (rows : List (MessageRow V))
      → find_message topic rows ≡ none
      → find_message topic (delete_message t rows) ≡ none
  find_message-none topic t [] h = refl
  find_message-none topic t (row ∷ rows) h =
      let (other, rest) = find_message-head topic row rows h in
      elim (Bool-cases (same_topic row.topic_name t)) [
        | inl same ↦ rw same (find_message-none topic t rows rest)
        | inr kept ↦ rw kept (rw other (find_message-none topic t rows rest))
      ]

  delete_messages-none :
      (topic : Text) (topics : List Text) (rows : List (MessageRow V))
      → find_message topic rows ≡ none
      → find_message topic (delete_messages topics rows) ≡ none
  unfolding delete_messages
  delete_messages-none topic [] rows h = h
  delete_messages-none topic (t ∷ topics) rows h =
      delete_messages-none topic topics (delete_message t rows) (find_message-none topic t rows h)

  pub delete_messages-contains :
      (topic : Text) (topics : List Text) (rows : List (MessageRow V))
      → contains_text topic topics ≡ true
      → find_message topic (delete_messages topics rows) ≡ none
  unfolding delete_messages
  delete_messages-contains topic [] rows h = absurd (ground (arith, h))
  delete_messages-contains topic (t ∷ topics) rows h = elim (Bool-cases (same_topic t topic)) [
    | inl same ↦ delete_messages-none topic topics (delete_message t rows) (
        subst (λ u. find_message topic (delete_message u rows) ≡ none)
          (sym (same_topic-eq t topic same)) (find_message-delete_message topic rows))
    | inr other ↦
        delete_messages-contains topic topics (delete_message t rows) (ground (arith, h, other))
  ]

module _ {L : Type 0} where
  -- A topic of the map stays or is removed.
  pub contains_key-retained :
      (topic : Text) (wanted : List Text) (live : List (Text × L))
      → contains_key topic live ≡ true
      → contains_key topic (retained wanted live) ≡ false
      → contains_text topic (removed_topics wanted live) ≡ true
  unfolding retained removed_topics
  contains_key-retained topic wanted [] h k = absurd (ground (arith, h))
  contains_key-retained topic wanted ((t, l) ∷ live) h k =
      elim (Bool-cases (contains_text t wanted)) [
        | inl keep ↦ rw keep (
            let k' = rw keep at k in
            contains_key-retained topic wanted live (ground (arith, h, k')) (ground (arith, k')))
        | inr drop ↦ rw drop (elim (Bool-cases (same_topic t topic)) [
          | inl same ↦ ground (arith, same)
          | inr other ↦
              let rest =
                contains_key-retained topic wanted live (ground (arith, h, other)) (rw drop at k) in
              ground (arith, rest)
        ])
      ]

  -- What stays is wanted.
  pub retained-wanted :
      (topic : Text) (wanted : List Text) (live : List (Text × L))
      → contains_key topic (retained wanted live) ≡ true
      → contains_text topic wanted ≡ true
  unfolding retained
  retained-wanted topic wanted [] h = absurd (ground (arith, h))
  retained-wanted topic wanted ((t, l) ∷ live) h = elim (Bool-cases (contains_text t wanted)) [
    | inl keep ↦
        let h' = rw keep at h in
        elim (Bool-cases (same_topic t topic)) [
          | inl same ↦ sym (ap (λ u. contains_text u wanted) (same_topic-eq t topic same)) ∙ keep
          | inr other ↦ retained-wanted topic wanted live (ground (arith, h', other))
        ]
    | inr drop ↦ retained-wanted topic wanted live (rw drop at h)
  ]

  pub remove_key-contains :
      (topic t : Text) (live : List (Text × L))
      → contains_key topic live ≡ true
      → (contains_key topic (remove_key t live) || same_topic t topic) ≡ true
  remove_key-contains topic t [] h = absurd (ground (arith, h))
  remove_key-contains topic t ((u, l) ∷ live) h = elim (Bool-cases (same_topic u topic)) [
    | inl same ↦ elim (Bool-cases (same_topic u t)) [
      | inl gone ↦ rw gone (
          let equal = sym (same_topic-eq u t gone) ∙ same_topic-eq u topic same in
          let it = ap (λ v. same_topic v topic) equal ∙ same_topic_refl topic in ground (arith, it))
      | inr stays ↦ rw stays (ground (arith, same))
    ]
    | inr other ↦
        let rest = remove_key-contains topic t live (ground (arith, h, other)) in
        elim (Bool-cases (same_topic u t)) [
          | inl gone ↦ rw gone rest
          | inr stays ↦ rw stays (ground (arith, rest))
        ]
  ]
