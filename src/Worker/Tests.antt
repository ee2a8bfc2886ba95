-- ===== src/Worker/Tests.antt =====
-- Runs of the worker of src/lib.rs, and its theorems at them.
use native.Mathlib.Decide.{ℕ_discrete}
use mathlib.Core.Bool.{decide}
use pg_ros.Base.{
  ℕ, ◌*◌, ◌^◌, ◌≡◌, refl, false, Option, none, some, List, [], ◌∷◌, Text, Text-discrete, ascii,
  Result, ok, err, arith,
}
use pg_ros.Worker.Backoff.{after_empty, configured_reinit_after, after_empty_lem, max_reinit_after}
use pg_ros.Worker.Persist.{
  GraphSnapshot, GraphTables, Shows, persist_snapshot, persist_snapshot-Shows,
  persist_snapshot_failed, persist_snapshot_again, only_checked, rows,
}
use mathlib.Core.List.{Permᴰ}
use mathlib.Core.List.Permᴰ
use pg_ros.Worker.Snapshot.{read, is_other, is_other_dec, read-Perm}
use pg_ros.Worker.Session.{State, Round, discover}
use pg_ros.Worker.Session.Memory.{discover-Shows, discover_stale}
use Prim.Native.Nat.{min}

after_empty_lem_example :
    after_empty 45 5 (configured_reinit_after 45) ≡ some (min (45 * 2 ^ 5) max_reinit_after)
after_empty_lem_example = after_empty_lem 45 4 (omega arith)

abbrev talker : GraphSnapshot
talker = record {
  nodes = (ascii "talker", ascii "/") ∷ [];
  topics = (ascii "/chatter", ascii "std_msgs/msg/String") ∷ [];
}

abbrev blank : GraphSnapshot
blank = record { nodes = []; topics = [] }

abbrev new_tables : GraphTables
new_tables = record { nodes = []; topics = []; worker_status = none }

abbrev talker_tables : GraphTables
talker_tables = record {
  nodes = rows 5 talker.nodes;
  topics = rows 5 talker.topics;
  worker_status = none;
}

persist_snapshot-Shows_example :
    Shows (persist_snapshot (some 16384) 71 9 (ok talker) none none new_tables).1 talker
persist_snapshot-Shows_example =
    persist_snapshot-Shows 16384 71 9 talker none none new_tables (λ v p q. ground arith)

persist_snapshot_failed_example :
    persist_snapshot (some 16384) 71 9 (err (ascii "gone")) (some talker) (some 16384) talker_tables
    ≡ (some 16384, only_checked 71 9 (some (ascii "gone")) talker_tables)
persist_snapshot_failed_example =
    persist_snapshot_failed 16384 71 9 (ascii "gone") (some talker) (some 16384) talker_tables

persist_snapshot_again_example :
    persist_snapshot (some 16384) 71 9 (ok talker) (some talker) (some 16384) talker_tables
    ≡ (some 16384, only_checked 71 9 none talker_tables)
persist_snapshot_again_example = persist_snapshot_again 16384 71 9 talker talker_tables

abbrev SessionState : Type 0
SessionState = State ℕ (List ℕ)

abbrev fresh_state : SessionState
fresh_state = record {
  previous = none;
  extension_oid = none;
  previous_parameters = none;
  parameter_extension = none;
  parameter_poll = none;
  next_parameters = 0;
  last_error = none;
  waiting_logged = false;
  empty_since = none;
  saw_graph = false;
}

abbrev round_at : ℕ → Option ℕ → Result Text GraphSnapshot → Round ℕ
round_at now installed snapshot = record {
  snapshot = snapshot;
  installed = installed;
  pid = 71;
  transaction_time = now;
  now_empty = now;
  now_poll = now;
  now_failed = now;
  started = ok 0;
  persisted = none;
  now_end = now;
}

discover-Shows_example :
    let (s', db', _) =
      discover (some 20) (round_at 7 (some 16384) (ok talker)) fresh_state new_tables in
    (s'.previous ≡ some talker) × (s'.extension_oid ≡ some 16384) × Shows db' talker
discover-Shows_example =
    discover-Shows (some 20) (round_at 7 (some 16384) (ok talker)) fresh_state new_tables 16384
      talker refl refl (λ v p q. ground arith)

-- The extension was dropped and created again, with another OID and empty tables.
abbrev remembering : SessionState
remembering = record fresh_state { previous = some talker; extension_oid = some 16384 }

discover_stale_example :
    let (s', db', _) =
      discover (some 20) (round_at 7 (some 20001) (err (ascii "gone"))) remembering new_tables in
    let (_, db'', _) = discover (some 20) (round_at 8 (some 20001) (ok talker)) s' db' in
    (db''.nodes ≡ new_tables.nodes) × (db''.topics ≡ new_tables.topics)
discover_stale_example =
    discover_stale (some 20) (round_at 7 (some 20001) (err (ascii "gone")))
      (round_at 8 (some 20001) (ok talker)) remembering new_tables 20001 (ascii "gone") talker refl
      refl refl refl refl

abbrev observer : Text × Text
observer = (ascii "pg_ros2_observer", ascii "/")

abbrev seen : List (Text × Text)
seen = (ascii "talker", ascii "/") ∷ observer ∷ []

abbrev seen_again : List (Text × Text)
seen_again = observer ∷ (ascii "talker", ascii "/") ∷ []

abbrev topics_seen : List (Text × List Text)
topics_seen = (ascii "/chatter", ascii "std_msgs/msg/String" ∷ []) ∷ []

read-Perm_example :
    read {E = Text} observer (ok seen) (ok topics_seen)
    ≡ read observer (ok seen_again) (ok topics_seen)
read-Perm_example =
    read-Perm observer seen seen_again topics_seen topics_seen (Permᴰ.swap refl refl)
      (Permᴰ.refl topics_seen)

-- The observer itself is left out.
reads : read {E = Text} observer (ok seen) (ok topics_seen) ≡ ok talker
unfolding read is_other is_other_dec Text-discrete ℕ_discrete decide
reads = refl
