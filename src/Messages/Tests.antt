-- ===== src/Messages/Tests.antt =====
-- Runs of src/messages.rs, and its theorems at them.
use mathlib.Core.Bool.{decide}
use native.Mathlib.Decide.{ℕ_discrete}
use pg_ros.Base.{
  ℕ, ◌≡◌, ◌≢◌, refl, Option, none, some, List, [], ◌∷◌, ◌++◌, Text, Text-discrete, ascii, true,
  false, Result, ok, err, arith,
}
use pg_ros.Base.Int.{pos, decimal}
use pg_ros.Messages.Mailbox.{Mailbox, deliver_all, empty_mailbox, deliver_all-newest}
use pg_ros.Messages.Flush.{MessageTables, as_i64, same_topic, find_message, flush}
use pg_ros.Messages.Reconcile.{
  Desired, contains_key, plan_row, plan_rows, retained, finish_plan, reconcile,
}
use pg_ros.Json.{Json, null, number, string, array, object, no_items, item, no_members, member}
use pg_ros.Messages.Reading.{
  read_desired, desired_answer, desired_rows, desired_row, get_value, as_str, idle_of,
}
use pg_ros.Messages.Kept.{is_wanted, reconcile-dropped, reconcile-wanted}
use pg_ros.Messages.Newest.{flush-stored}

-- A message is a text, or none where it cannot be encoded.
abbrev encode : Option Text → ℕ → Result Text Text
encode none n = err (ascii "too large")
encode (some text) n = ok (decimal n ++ text)

deliver_all-newest_example :
    (deliver_all encode ((none ∷ []) ++ (some (ascii "b") ∷ none ∷ [])) empty_mailbox).pending
    ≡ some (2, decimal 2 ++ ascii "b")
deliver_all-newest_example =
    deliver_all-newest encode (none ∷ []) (none ∷ []) (some (ascii "b")) (decimal 2 ++ ascii "b")
      (ground arith) refl ((ascii "too large", refl), tt)

abbrev no_messages : MessageTables Text
no_messages = record { messages = []; subscriptions = [] }

abbrev other_mailbox : Mailbox
other_mailbox = record { sequence = 9; pending = some (9, ascii "x"); error = none }

abbrev chatter_mailbox : Mailbox
chatter_mailbox = record {
  sequence = 5;
  pending = some (4, ascii "y");
  error = some (ascii "late");
}

other_topic : ascii "/tf" ≢ ascii "/chatter"
other_topic e = ground (arith, e)

flush-stored_example :
    find_message
      (ascii "/chatter")
      (flush ok
        (some 16384)
        70
        ([] ++ ((ascii "/chatter", chatter_mailbox) ∷ (ascii "/tf", other_mailbox) ∷ []))
        no_messages).1.messages
    ≡ some (record {
      topic_name = ascii "/chatter";
      row_sequence = as_i64 4;
      received_at = 70;
      message = ascii "y";
    })
flush-stored_example =
    flush-stored ok 16384 70 [] ((ascii "/tf", other_mailbox) ∷ []) (ascii "/chatter")
      chatter_mailbox no_messages 4 (ascii "y") (ascii "y") refl refl (other_topic, tt)

-- Any topic can be subscribed to; a subscription is a number.
abbrev accept : Text → Option Text → Result Text (Text × ℕ)
accept topic kind = ok (ascii "std_msgs/msg/String", 0)

abbrev stale : Desired
stale = record { topic = ascii "/chatter"; requested = none; idle_micros = 61000000 }

abbrev fresh : Desired
fresh = record { topic = ascii "/tf"; requested = none; idle_micros = 0 }

abbrev live_topics : List (Text × ℕ)
live_topics = (ascii "/chatter", 1) ∷ []

abbrev stored : MessageTables Text
stored = record {
  messages =
      record {
        topic_name = ascii "/chatter";
        row_sequence = pos 4;
        received_at = 70;
        message = ascii "y";
      }
      ∷ [];
  subscriptions = [];
}

-- `/chatter` expires and `/tf` is subscribed to.
reconciles :
    (reconcile accept 60 (some 16384) (ok (stale ∷ fresh ∷ [])) live_topics stored).0.0
    ≡ (ascii "/tf", 0) ∷ []
unfolding reconcile finish_plan plan_rows plan_row retained same_topic decide Text-discrete
    ℕ_discrete
reconciles = refl

chatter_dropped :
    contains_key
      (ascii "/chatter")
      (reconcile accept 60 (some 16384) (ok (stale ∷ fresh ∷ [])) live_topics stored).0.0
    ≡ false
unfolding reconcile finish_plan plan_rows plan_row retained same_topic decide Text-discrete
    ℕ_discrete
chatter_dropped = refl

chatter_live : contains_key (ascii "/chatter") live_topics ≡ true
unfolding same_topic decide Text-discrete ℕ_discrete
chatter_live = refl

tf_live :
    contains_key
      (ascii "/tf")
      (reconcile accept 60 (some 16384) (ok (stale ∷ fresh ∷ [])) live_topics stored).0.0
    ≡ true
unfolding reconcile finish_plan plan_rows plan_row retained same_topic decide Text-discrete
    ℕ_discrete
tf_live = refl

reconcile-dropped_example :
    find_message
      (ascii "/chatter")
      (reconcile accept 60 (some 16384) (ok (stale ∷ fresh ∷ [])) live_topics stored).0.1.messages
    ≡ none
reconcile-dropped_example =
    reconcile-dropped accept 60 16384 (stale ∷ fresh ∷ []) live_topics stored (ascii "/chatter")
      chatter_live chatter_dropped

reconcile-wanted_example : is_wanted 60 (ascii "/tf") (stale ∷ fresh ∷ []) ≡ true
reconcile-wanted_example =
    reconcile-wanted accept 60 (some 16384) (stale ∷ fresh ∷ []) live_topics stored (ascii "/tf")
      tf_live

-- The query's answer with a row whose topic is no text: the row is left out. The ages are microseconds.
abbrev answer : Json ℕ
answer = array (
    item (object (member (ascii "topic") null no_members)) (
      item
        (object (
          member (ascii "topic") (string (ascii "/tf"))
            (member (ascii "idle_seconds") (number 250) no_members)))
        no_items))

reads_desired :
    read_desired some (some 16384) (ok (some answer))
    ≡ ok (record { topic = ascii "/tf"; requested = none; idle_micros = 250 } ∷ [])
unfolding read_desired desired_answer desired_rows desired_row get_value as_str idle_of
    Text-discrete ℕ_discrete
reads_desired = refl
