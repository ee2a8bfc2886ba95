-- ===== src/Messages/Newest.antt =====
-- src/messages.rs: that `flush` stores the newest message of a topic.
use mathlib.Core.Bool.{decide_iff}
use pg_ros.Base.{
  ℕ, ◌≡◌, ◌≢◌, refl, sym, ap, ◌∙◌, true, false, Option, none, some, List, [], ◌∷◌, ◌++◌, All, Text,
  Text-discrete, Result, ok, err, arith, if◌then◌else◌, Bool-cases, inl, inr, and_left,
  append_assoc,
}
use pg_ros.Base.Distinct.{All-append}
use pg_ros.Messages.Mailbox.{Mailbox}
use pg_ros.Messages.Flush.{
  MessageRow, MessageTables, same_topic, as_i64, upsert_message, find_message, Drained, parsed,
  drain_pending, drain, store_messages, store_errors, store_drained, nothing_drained, is_nil, flush,
}

pub same_topic_refl : (a : Text) → same_topic a a ≡ true
unfolding same_topic
same_topic_refl a = (decide_iff (Text-discrete a a)).1 refl

pub same_topic-eq : (a b : Text) → same_topic a b ≡ true → a ≡ b
unfolding same_topic
same_topic-eq a b h = (decide_iff (Text-discrete a b)).0 h

pub is_nil-eq : {A : Type 0} (xs : List A) → is_nil xs ≡ true → xs ≡ []
is_nil-eq [] h = refl
is_nil-eq (x ∷ xs) h = ground (arith, h)

module _ {V : Type 0} where
  find_message-upsert_message :
      (row : MessageRow V) (rows : List (MessageRow V))
      → find_message row.topic_name (upsert_message row rows) ≡ some row
  find_message-upsert_message row [] = rw (same_topic_refl row.topic_name)
  find_message-upsert_message row (r ∷ rows) =
      elim (Bool-cases (same_topic r.topic_name row.topic_name)) [
        | inl same ↦ rw (same, same_topic_refl row.topic_name)
        | inr other ↦ rw (other) (rw other (find_message-upsert_message row rows))
      ]

  different :
      (topic : Text) (row : MessageRow V)
      → row.topic_name ≢ topic
      → same_topic row.topic_name topic ≡ false
  different topic row apart = elim (Bool-cases (same_topic row.topic_name topic)) [
    | inl same ↦ absurd (apart (same_topic-eq row.topic_name topic same))
    | inr other ↦ other
  ]

  find_message_other :
      (topic : Text) (row : MessageRow V) (rows : List (MessageRow V))
      → row.topic_name ≢ topic
      → find_message topic (upsert_message row rows) ≡ find_message topic rows
  find_message_other topic row [] apart = rw (different topic row apart)
  find_message_other topic row (r ∷ rows) apart =
      elim (Bool-cases (same_topic r.topic_name row.topic_name)) [
        | inl same ↦
            let away : same_topic r.topic_name topic ≡ false =
              different topic r
                (λ e. apart (sym (same_topic-eq r.topic_name row.topic_name same) ∙ e)) in
            rw (same, different topic row apart, away)
        | inr other ↦ rw other (
            ap (λ t. if same_topic r.topic_name topic then some r else t)
              (find_message_other topic row rows apart))
      ]

  store_errors-messages :
      (errors : List (Text × Text)) (db : MessageTables V)
      → (store_errors errors db).messages ≡ db.messages
  unfolding store_errors
  store_errors-messages [] db = refl
  store_errors-messages ((topic, e) ∷ errors) db = store_errors-messages errors _

  -- Messages of other topics leave the row of a topic alone.
  store_messages_other :
      (topic : Text) (now : ℕ) (ms : List (Text × ℕ × V)) (db : MessageTables V)
      → All (λ (m : Text × ℕ × V). m.0 ≢ topic) ms
      → find_message topic (store_messages now ms db).messages ≡ find_message topic db.messages
  unfolding store_messages
  store_messages_other topic now [] db h = refl
  store_messages_other topic now ((t, n, v) ∷ ms) db h =
      store_messages_other topic now ms _ h.1 ∙ find_message_other topic _ db.messages h.0

  store_messages-append :
      (now : ℕ) (ms ns : List (Text × ℕ × V)) (db : MessageTables V)
      → store_messages now (ms ++ ns) db ≡ store_messages now ns (store_messages now ms db)
  unfolding store_messages
  store_messages-append now [] ns db = refl
  store_messages-append now ((t, n, v) ∷ ms) ns db = store_messages-append now ms ns _

  module _ (from_str : Text → Result Text V) where
    parsed_other :
        (topic t : Text) (n : ℕ) (r : Result Text V)
        → t ≢ topic
        → All (λ (m : Text × ℕ × V). m.0 ≢ topic) (parsed t n r).0
    parsed_other topic t n (ok v) h = (h, tt)
    parsed_other topic t n (err e) h = tt

    drain_pending_other :
        (topic t : Text) (pending : Option (ℕ × Text))
        → t ≢ topic
        → All (λ (m : Text × ℕ × V). m.0 ≢ topic) (drain_pending from_str t pending).0
    drain_pending_other topic t none h = tt
    drain_pending_other topic t (some (n, p)) h = parsed_other topic t n (from_str p) h

    drain_other :
        (topic : Text) (live : List (Text × Mailbox))
        → All (λ (entry : Text × Mailbox). entry.0 ≢ topic) live
        → All (λ (m : Text × ℕ × V). m.0 ≢ topic) (drain from_str live).drained_messages
    unfolding drain
    drain_other topic [] h = tt
    drain_other topic ((t, state) ∷ live) h =
        All-append _ (drain_pending from_str t state.pending).0 _
          (drain_pending_other topic t state.pending h.0) (drain_other topic live h.1)

    drain-append :
        (before live : List (Text × Mailbox))
        → (drain from_str (before ++ live)).drained_messages
          ≡ (drain from_str before).drained_messages ++ (drain from_str live).drained_messages
    unfolding drain
    drain-append [] live = refl
    drain-append ((t, state) ∷ before) live =
        ap (λ ms. (drain_pending from_str t state.pending).0 ++ ms) (drain-append before live)
        ∙ sym (append_assoc (drain_pending from_str t state.pending).0 _ _)

    stored-messages :
        (oid now : ℕ) (drained : Drained V) (db : MessageTables V)
        → (if nothing_drained drained then db else store_drained (some oid) now drained db).messages
          ≡ (store_messages now drained.drained_messages db).messages
    unfolding store_drained store_messages
    stored-messages oid now drained db = elim (Bool-cases (nothing_drained drained)) [
      | inl nothing ↦ rw nothing (
          ap (λ ms. (store_messages now ms db).messages)
            (sym (is_nil-eq drained.drained_messages (and_left _ _ nothing))))
      | inr something ↦ rw something (store_errors-messages drained.drained_errors _)
    ]

    drained_head :
        (topic : Text) (state : Mailbox) (live : List (Text × Mailbox)) (n : ℕ) (p : Text) (v : V)
        → state.pending ≡ some (n, p)
        → from_str p ≡ ok v
        → (drain from_str ((topic, state) ∷ live)).drained_messages
          ≡ (topic, n, v) ∷ (drain from_str live).drained_messages
    unfolding drain
    drained_head topic state live n p v waiting valid = rw (waiting, valid)

    -- If the extension is installed, then `flush` stores the pending message of a topic that has one,
    -- if it is valid JSON, as the row of the topic, whatever the other topics' mailboxes hold.
    pub flush-stored :
        (oid now : ℕ) (before after : List (Text × Mailbox)) (topic : Text) (state : Mailbox)
        (db : MessageTables V) (n : ℕ) (p : Text) (v : V)
        → state.pending ≡ some (n, p)
        → from_str p ≡ ok v
        → All (λ (entry : Text × Mailbox). entry.0 ≢ topic) after
        → find_message topic
            (flush from_str (some oid) now (before ++ ((topic, state) ∷ after)) db).1.messages
          ≡ some (record {
            topic_name = topic;
            row_sequence = as_i64 n;
            received_at = now;
            message = v;
          })
    unfolding flush store_messages
    flush-stored oid now before after topic state db n p v waiting valid apart =
        let live = (topic, state) ∷ after in
        let earlier = (drain from_str before).drained_messages in
        let drained =
          drain-append before live
          ∙ ap (λ ms. earlier ++ ms) (drained_head topic state after n p v waiting valid) in
        ap (find_message topic) (stored-messages oid now (drain from_str (before ++ live)) db)
        ∙ ap (λ ms. find_message topic (store_messages now ms db).messages) drained
        ∙ ap (λ (t : MessageTables V). find_message topic t.messages)
            (store_messages-append now earlier _ db)
        ∙ store_messages_other topic now _ _ (drain_other topic after apart)
        ∙ find_message-upsert_message _ (store_messages now earlier db).messages
