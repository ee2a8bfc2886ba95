-- ===== src/Messages/Reconcile.antt =====
-- src/messages.rs: `reconcile` and `resolve`. The live subscriptions are an association list with one
-- entry for each topic. What `read_desired` (Messages.Reading) and `subscribe` answer are arguments. The age of a row is in
-- microseconds, the resolution of PostgreSQL's clock, and an age below zero, which expires nothing, is 0;
-- the time to live is in seconds.
use pg_ros.Base.{
  ℕ, ◌*◌, Bool, false, ◌&&◌, ◌||◌, Option, none, some, List, [], ◌∷◌, ◌++◌, Text, ascii, Result, ok,
  err, and_then, map_ok, ltb, if◌then◌else◌,
}
use pg_ros.Messages.Flush.{
  SubscriptionRow, MessageRow, MessageTables, same_topic, update_subscription, is_nil,
}

-- `struct Desired`
pub record Desired : Type 0 where
  pub topic : Text
  pub requested : Option Text
  pub idle_micros : ℕ

-- The entries of the metadata: a topic with its message type, or with an error.
pub data Metadata : Type 0 where
  subscribed : Text → Text → Metadata
  refused : Text → Text → Metadata

-- `Some(types) if types.len() == 1`
abbrev unique_type : List Text → Result Text Text
unique_type [] = err (ascii "topic has multiple message types; set requested_type")
unique_type (kind ∷ []) = ok kind
unique_type (kind ∷ other ∷ more) =
    err (ascii "topic has multiple message types; set requested_type")

-- `resolve`, on the graph snapshot: the types of each topic.
unfoldable pub resolve : Text → Result Text (Text → Option (List Text)) → Result Text Text
resolve topic (err e) = err e
resolve topic (ok topics) = elim (topics topic) [
  | none ↦ err (ascii "topic " ++ topic ++ ascii " has no advertised message type yet")
  | some types ↦ unique_type types
]

-- The message type that `subscribe` uses.
unfoldable pub message_type_of :
    Text → Option Text → Result Text (Text → Option (List Text)) → Result Text Text
message_type_of topic none topics = resolve topic topics
message_type_of topic (some []) topics = resolve topic topics
message_type_of topic (some (c ∷ cs)) topics = ok (c ∷ cs)

-- `subscribe`: `create` makes the dynamic subscription of a topic with a type.
unfoldable pub subscribe_with :
    {L : Type 0}
    → Result Text (Text → Option (List Text))
    → (Text → Text → Result Text L)
    → Text
    → Option Text
    → Result Text (Text × L)
subscribe_with topics create topic requested =
    and_then (message_type_of topic requested topics)
      λ kind. map_ok (λ l. (kind, l)) (create topic kind)

module _ {L : Type 0} where
  -- `topics.contains_key`
  abbrev pub contains_key : Text → List (Text × L) → Bool
  contains_key topic [] = false
  contains_key topic ((t, l) ∷ live) = same_topic t topic || contains_key topic live

  -- `topics.remove`
  abbrev pub remove_key : Text → List (Text × L) → List (Text × L)
  remove_key topic [] = []
  remove_key topic ((t, l) ∷ live) =
      let rest = remove_key topic live in if same_topic t topic then rest else (t, l) ∷ rest

abbrev pub contains_text : Text → List Text → Bool
contains_text topic [] = false
contains_text topic (t ∷ ts) = same_topic t topic || contains_text topic ts

module _ {L : Type 0} where
  -- `topics.retain(…)`: the subscriptions that stay and the topics that are removed.
  unfoldable pub retained : List Text → List (Text × L) → List (Text × L)
  retained wanted [] = []
  retained wanted ((t, l) ∷ live) =
      let rest = retained wanted live in if contains_text t wanted then (t, l) ∷ rest else rest

  unfoldable pub removed_topics : List Text → List (Text × L) → List Text
  removed_topics wanted [] = []
  removed_topics wanted ((t, l) ∷ live) =
      let rest = removed_topics wanted live in if contains_text t wanted then rest else t ∷ rest

-- What the loop over the desired rows has gathered.
pub record Plan (L : Type 0) : Type 0 where
  pub live : List (Text × L)
  pub wanted : List Text
  pub metadata : List Metadata
  pub expired : List Text

module _ {L : Type 0} (subscribe : Text → Option Text → Result Text (Text × L)) where
  -- The arms on `subscribe`: the message type and the subscription.
  abbrev pub subscribe_arm : Text → Result Text (Text × L) → Plan L → Plan L
  subscribe_arm topic (ok (kind, l)) plan = record plan {
    live = (topic, l) ∷ plan.live;
    metadata = plan.metadata ++ (subscribed topic kind ∷ []);
  }
  subscribe_arm topic (err e) plan = record plan {
    metadata = plan.metadata ++ (refused topic e ∷ []);
  }

  -- One desired row.
  unfoldable pub plan_row : ℕ → Desired → Plan L → Plan L
  plan_row ttl entry plan =
      if ltb 0 ttl && ltb (ttl * 1000000) entry.idle_micros
      then record plan {
        expired = plan.expired ++ (entry.topic ∷ []);
        live = remove_key entry.topic plan.live;
      }
      else let wanted = record plan { wanted = entry.topic ∷ plan.wanted } in
        if contains_key entry.topic plan.live
        then wanted
        else subscribe_arm entry.topic (subscribe entry.topic entry.requested) wanted

  unfoldable pub plan_rows : ℕ → List Desired → Plan L → Plan L
  plan_rows ttl [] plan = plan
  plan_rows ttl (entry ∷ desired) plan = plan_rows ttl desired (plan_row ttl entry plan)

-- The loop over the metadata.
unfoldable pub record_metadata : List Metadata → List SubscriptionRow → List SubscriptionRow
record_metadata [] rows = rows
record_metadata (subscribed topic kind ∷ more) rows = record_metadata more (
    update_subscription topic (λ row. record row { message_type = some kind; last_error = none })
      rows)
record_metadata (refused topic e ∷ more) rows =
    record_metadata more
      (update_subscription topic (λ row. record row { last_error = some e }) rows)

-- `DELETE FROM subscriptions WHERE topic_name = $1` for each topic.
abbrev delete_subscription : Text → List SubscriptionRow → List SubscriptionRow
delete_subscription topic [] = []
delete_subscription topic (row ∷ rows) =
    let rest = delete_subscription topic rows in
    if same_topic row.subscribed_topic topic then rest else row ∷ rest

unfoldable pub delete_subscriptions : List Text → List SubscriptionRow → List SubscriptionRow
delete_subscriptions [] rows = rows
delete_subscriptions (topic ∷ topics) rows =
    delete_subscriptions topics (delete_subscription topic rows)

module _ {V : Type 0} where
  -- `DELETE FROM messages WHERE topic_name = $1` for each topic.
  abbrev pub delete_message : Text → List (MessageRow V) → List (MessageRow V)
  delete_message topic [] = []
  delete_message topic (row ∷ rows) =
      let rest = delete_message topic rows in
      if same_topic row.topic_name topic then rest else row ∷ rest

  unfoldable pub delete_messages : List Text → List (MessageRow V) → List (MessageRow V)
  delete_messages [] rows = rows
  delete_messages (topic ∷ topics) rows = delete_messages topics (delete_message topic rows)

  -- The transaction, which the extension's absence leaves empty.
  unfoldable pub apply_plan :
      Option ℕ → List Metadata → List Text → List Text → MessageTables V → MessageTables V
  apply_plan none metadata removed expired db = db
  apply_plan (some oid) metadata removed expired db = record {
    messages = delete_messages (removed ++ expired) db.messages;
    subscriptions = delete_subscriptions expired (record_metadata metadata db.subscriptions);
  }

module _ {L : Type 0} where
  abbrev pub nothing_planned : Plan L → List Text → Bool
  nothing_planned plan removed = is_nil plan.metadata && (is_nil plan.expired && is_nil removed)

  abbrev pub first_plan : List (Text × L) → Plan L
  first_plan topics = record { live = topics; wanted = []; metadata = []; expired = [] }

module _ {L V : Type 0} where
  -- After the loop over the rows.
  unfoldable pub finish_plan :
      Option ℕ → Plan L → MessageTables V → List (Text × L) × MessageTables V
  finish_plan installed plan db =
      let removed = removed_topics plan.wanted plan.live in
      (
        retained plan.wanted plan.live,
        if nothing_planned plan removed
            then db
            else apply_plan installed plan.metadata removed plan.expired db,
      )

module _ {L V : Type 0} (subscribe : Text → Option Text → Result Text (Text × L)) where
  -- `reconcile`: the live subscriptions, the tables, and the result. `desired` is what `read_desired`
  -- returned, and `installed` what the second transaction looks up.
  unfoldable pub reconcile :
      ℕ
      → Option ℕ
      → Result Text (List Desired)
      → List (Text × L)
      → MessageTables V
      → (List (Text × L) × MessageTables V) × Result Text (Unit {0})
  reconcile ttl installed (err e) topics db = ((topics, db), err e)
  reconcile ttl installed (ok desired) topics db =
      (finish_plan installed (plan_rows subscribe ttl desired (first_plan topics)) db, ok tt)
