-- ===== src/Messages/Flush.antt =====
-- src/messages.rs: `flush`. The live subscriptions are given in the order in which the map yields them.
-- What serde_json's `from_str` returns for a payload and the lookup of the extension are arguments. A
-- mailbox whose lock was poisoned by a panic is not modelled.
use mathlib.Core.Bool.{decide}
use pg_ros.Base.{
  ℕ, ◌-◌, ◌^◌, Bool, true, false, ◌&&◌, Option, none, some, List, [], ◌∷◌, ◌++◌, map, Text,
  Text-discrete, Result, ok, err, ltb, if◌then◌else◌,
}
use pg_ros.Base.Int.{ℤ, pos, negsuc}
use pg_ros.Messages.Mailbox.{Mailbox}

-- A row of `messages`, with the JSON value of the message, and of `subscriptions`.
pub record MessageRow (V : Type 0) : Type 0 where
  pub topic_name : Text
  pub row_sequence : ℤ
  pub received_at : ℕ
  pub message : V

pub record SubscriptionRow : Type 0 where
  pub subscribed_topic : Text
  pub requested_type : Option Text
  pub message_type : Option Text
  pub registered_at : ℕ
  pub keepalive_at : ℕ
  pub last_message_at : Option ℕ
  pub last_error : Option Text

pub record MessageTables (V : Type 0) : Type 0 where
  pub messages : List (MessageRow V)
  pub subscriptions : List SubscriptionRow

-- `topic_name = $1`
unfoldable pub same_topic : Text → Text → Bool
same_topic a b = decide (Text-discrete a b)

-- `sequence as i64`
abbrev pub as_i64 : ℕ → ℤ
as_i64 n = if ltb n (2 ^ 63) then pos n else negsuc (2 ^ 64 - 1 - n)

-- `is_empty()`
abbrev pub is_nil {ℓ} : {A : Type ℓ} → List A → Bool
is_nil [] = true
is_nil (x ∷ xs) = false

-- `UPDATE … WHERE topic_name = $1`
abbrev pub update_subscription :
    Text → (SubscriptionRow → SubscriptionRow) → List SubscriptionRow → List SubscriptionRow
update_subscription topic change =
    map (λ row. if same_topic row.subscribed_topic topic then change row else row)

-- What the loop over the mailboxes collects.
pub record Drained (V : Type 0) : Type 0 where
  pub mailboxes : List (Text × Mailbox)
  pub drained_messages : List (Text × ℕ × V)
  pub drained_errors : List (Text × Text)

module _ {V : Type 0} where
  -- `INSERT … ON CONFLICT (topic_name) DO UPDATE`
  abbrev pub upsert_message : MessageRow V → List (MessageRow V) → List (MessageRow V)
  upsert_message row [] = row ∷ []
  upsert_message row (r ∷ rows) =
      let rest = upsert_message row rows in
      if same_topic r.topic_name row.topic_name then row ∷ rows else r ∷ rest

  -- The row of a topic.
  abbrev pub find_message : Text → List (MessageRow V) → Option (MessageRow V)
  find_message topic [] = none
  find_message topic (r ∷ rows) =
      let rest = find_message topic rows in if same_topic r.topic_name topic then some r else rest

  -- The arms on `serde_json::from_str`.
  abbrev pub parsed : Text → ℕ → Result Text V → List (Text × ℕ × V) × List (Text × Text)
  parsed topic sequence (ok value) = ((topic, sequence, value) ∷ [], [])
  parsed topic sequence (err e) = ([], (topic, e) ∷ [])

  module _ (from_str : Text → Result Text V) where
    -- `if let Some((sequence, payload)) = state.pending.take()`
    abbrev pub drain_pending : Text → Option (ℕ × Text) → List (Text × ℕ × V) × List (Text × Text)
    drain_pending topic none = ([], [])
    drain_pending topic (some (sequence, payload)) = parsed topic sequence (from_str payload)

    -- `if let Some(error) = state.error.take()`
    abbrev drain_error : Text → Option Text → List (Text × Text)
    drain_error topic none = []
    drain_error topic (some e) = (topic, e) ∷ []

    unfoldable pub drain : List (Text × Mailbox) → Drained V
    drain [] = record { mailboxes = []; drained_messages = []; drained_errors = [] }
    drain ((topic, state) ∷ live) =
        let rest = drain live in
        let pending = drain_pending topic state.pending in
        record {
          mailboxes = (topic, record state { pending = none; error = none }) ∷ rest.mailboxes;
          drained_messages = pending.0 ++ rest.drained_messages;
          drained_errors = pending.1 ++ drain_error topic state.error ++ rest.drained_errors;
        }

  -- The loop over `messages` in the transaction at time `now`.
  unfoldable pub store_messages : ℕ → List (Text × ℕ × V) → MessageTables V → MessageTables V
  store_messages now [] db = db
  store_messages now ((topic, sequence, value) ∷ more) db = store_messages now more (record {
    messages =
        upsert_message
          (record {
            topic_name = topic;
            row_sequence = as_i64 sequence;
            received_at = now;
            message = value;
          })
          db.messages;
    subscriptions =
        update_subscription topic
          (λ row. record row { last_message_at = some now; last_error = none }) db.subscriptions;
  })

  -- The loop over `errors`.
  unfoldable pub store_errors : List (Text × Text) → MessageTables V → MessageTables V
  store_errors [] db = db
  store_errors ((topic, e) ∷ more) db = store_errors more (record db {
    subscriptions =
        update_subscription topic (λ row. record row { last_error = some e }) db.subscriptions;
  })

  -- The transaction of `flush`, which the extension's absence leaves empty.
  unfoldable pub store_drained : Option ℕ → ℕ → Drained V → MessageTables V → MessageTables V
  store_drained none now drained db = db
  store_drained (some oid) now drained db =
      store_errors drained.drained_errors (store_messages now drained.drained_messages db)

  abbrev pub nothing_drained : Drained V → Bool
  nothing_drained drained = is_nil drained.drained_messages && is_nil drained.drained_errors

  -- `flush`: the mailboxes and the tables.
  unfoldable pub flush :
      (Text → Result Text V)
      → Option ℕ
      → ℕ
      → List (Text × Mailbox)
      → MessageTables V
      → List (Text × Mailbox) × MessageTables V
  unfolding drain
  flush from_str installed now live db =
      let drained = drain from_str live in
      (
        drained.mailboxes,
        if nothing_drained drained then db else store_drained installed now drained db,
      )
