-- ===== src/Worker/PassTests.antt =====
-- A pass of `run_session` and an observer of src/lib.rs at work, and the theorems on passes.
use pg_ros.Base.{
  ℕ, ◌≤◌, ◌<◌, ◌≡◌, ◌⊎◌, refl, true, false, Option, none, some, List, [], ◌∷◌, Text, Text-discrete,
  ascii, Result, ok, err, arith,
}
use pg_ros.Base.Int.{pos}
use pg_ros.ErrorText.{Error}
use pg_ros.Worker.Persist.{GraphSnapshot, persist_snapshot}
use pg_ros.Worker.Session.{
  State, Round, goes_on, discover, after_persist, remember, watch_graph, start_poll, blind_outcome,
}
use pg_ros.Worker.Pass.{
  Pass, Locals, Database, one_pass, serve, flush_due, reconcile_due, tick_due, poll_ticked,
  poll_ended, discover_due, persist_failure, at_least,
}
use pg_ros.Worker.Sessions.{
  SessionRun, Kept, first_locals, run_observer, sessions, run_session, passes,
}
use pg_ros.Worker.Gate.{one_pass-dirty}
use pg_ros.Worker.Polling.{tick_due-shown, Rounds-rests}
use pg_ros.Worker.Session.Blindness.{begin, next}
use pg_ros.Messages.Reconcile.{reconcile, finish_plan, retained, plan_rows, removed_topics}
use pg_ros.Parameters.Value.{Parameter}
use pg_ros.Parameters.Persist.{shown_parameters, persist}

same_rows : Discrete (Option (List (Parameter Text)))
same_rows = hlevel Text-discrete

abbrev talker : GraphSnapshot
talker = record { nodes = (ascii "talker", ascii "/") ∷ []; topics = [] }

abbrev speed : Parameter Text
speed = record {
  node = ascii "talker";
  namespace = ascii "/";
  name = ascii "speed";
  kind = ascii "integer";
  value = ascii "3";
}

-- A poll is a number; a tick of it returns `speed`.
abbrev pass_at : ℕ → Pass ℕ Text
pass_at t = record {
  message_poll = pos 100;
  subscription_poll = pos 1000;
  subscription_ttl = pos 60;
  spun = λ bound. ok tt;
  graph_changed = false;
  now = t;
  from_str = λ s. ok s;
  flush_installed = some 16384;
  flush_time = t;
  now_flushed = t;
  desired = ok [];
  reconcile_installed = some 16384;
  subscribe = λ topic requested. err [];
  now_reconciled = t;
  tick = λ poll. (poll, ok (some (speed ∷ [])));
  parameter_installed = some 16384;
  pid = 71;
  parameter_time = t;
  now_ticked = t;
  now_startup = t;
  round = record {
    snapshot = ok talker;
    installed = some 16384;
    pid = 71;
    transaction_time = t;
    now_empty = t;
    now_poll = t;
    now_failed = t;
    started = ok 7;
    persisted = some 16384;
    now_end = t;
  };
  start_time = t;
}

abbrev new_database : Database Text
new_database = record {
  graph = record { nodes = []; topics = []; worker_status = none };
  parameters = record { parameters = []; parameter_status = none };
  messages = record { messages = []; subscriptions = [] };
}

abbrev session_run : SessionRun ℕ Text
session_run = record {
  created = ok tt;
  now_created = 0;
  now_flush = 0;
  now_poll = 0;
  passes = pass_at 500 ∷ pass_at 1500 ∷ pass_at 1600 ∷ [];
  reinit_setting = 20;
}

abbrev nothing_kept : Kept Text
nothing_kept = record {
  previous = none;
  extension_oid = none;
  previous_parameters = none;
  parameter_extension = none;
}

abbrev begun : Locals ℕ Text
begun = first_locals session_run nothing_kept

-- What the observer remembers in the end.
abbrev memory_of : Result Error (Kept Text × Database Text) → Option (Kept Text)
memory_of (ok (kept, db)) = some kept
memory_of (err e) = none

-- Half a second after the start, the discovery still waits.
early_pass :
    one_pass same_rows none (pass_at 500) begun new_database
    ≡ ok (record begun { next_subscription_poll = 1500 }, new_database, goes_on)
unfolding one_pass serve flush_due reconcile_due tick_due discover_due at_least reconcile
    finish_plan retained plan_rows removed_topics
early_pass = refl

one_pass-dirty_example :
    ((500 < 1000) × (true ≡ true) × (new_database.graph ≡ new_database.graph))
    ⊎ ((1000 ≤ 500)
        × (true ≡ false)
        × ((begun.session, new_database.graph, goes_on)
            ≡ discover none
                (pass_at 500).round
                (serve same_rows
                  (pass_at 500)
                  (record begun { dirty = true })
                  new_database).0.session
                new_database.graph))
one_pass-dirty_example =
    one_pass-dirty same_rows none (pass_at 500) begun
      (record begun { next_subscription_poll = 1500 }) new_database new_database goes_on early_pass
      refl

-- A tick returns the parameters, and the table shows them.
tick_shown :
    let (s', db') =
      tick_due same_rows (pass_at 1600) (some 7) begun.session new_database.parameters in
    (s'.previous_parameters ≡ some (speed ∷ []))
    × (s'.parameter_extension ≡ some 16384)
    × (shown_parameters db'.parameters ≡ speed ∷ [])
    × (s'.parameter_poll ≡ none)
    × (s'.next_parameters ≡ 6600)
tick_shown =
    tick_due-shown same_rows (pass_at 1600) 7 (speed ∷ []) begun.session new_database.parameters
      16384 refl refl (λ rows p q. ground (arith, p))

abbrev round_at : ℕ → GraphSnapshot → Round ℕ
round_at t snapshot = record (pass_at t).round { snapshot = ok snapshot }

abbrev blank : GraphSnapshot
blank = record { nodes = []; topics = [] }

-- The poll ends at 1.6 s with no answer, and with the parameters; a discovery comes at 3 s.
abbrev failing : Pass ℕ Text
failing = record (pass_at 1600) { tick = λ poll. (poll, err (ascii "timeout")) }

abbrev rested : State ℕ (List (Parameter Text))
rested = (tick_due same_rows failing (some 7) begun.session new_database.parameters).0

Rounds-rests_example :
    (discover none (round_at 3000 talker) rested new_database.graph).0.parameter_poll ≡ none
Rounds-rests_example =
    Rounds-rests same_rows none failing 7 begun.session new_database.parameters (ground arith)
      (next begin (round_at 3000 talker) new_database.graph) (omega arith, tt)

-- A session that sees a graph at 9 s and starts a poll, which ends at 9.5 s, is blind from 10 s on, and is
-- ended at 31 s.
abbrev sighted : State ℕ (List (Parameter Text))
sighted = (discover (some 20) (round_at 9000 talker) begun.session new_database.graph).0

abbrev polled : State ℕ (List (Parameter Text))
polled =
    (tick_due same_rows (pass_at 9500) sighted.parameter_poll sighted new_database.parameters).0

abbrev dark : State ℕ (List (Parameter Text))
dark = (discover (some 20) (round_at 10000 blank) polled new_database.graph).0

-- The tick has ended the poll.
poll_done : (sighted.parameter_poll ≡ some 7) × (polled.parameter_poll ≡ none)
unfolding discover after_persist remember watch_graph start_poll tick_due poll_ticked poll_ended
    persist blind_outcome persist_snapshot
poll_done = (refl, refl)

-- The worker finds the graph, then its parameters, and is asked to stop.
observes :
    memory_of (run_observer same_rows 20 (session_run ∷ []) new_database)
    ≡ some (record {
      previous = some talker;
      extension_oid = some 16384;
      previous_parameters = some (speed ∷ []);
      parameter_extension = some 16384;
    })
unfolding run_observer sessions run_session passes one_pass serve flush_due reconcile_due tick_due
    poll_ticked poll_ended discover_due discover after_persist remember watch_graph start_poll
    blind_outcome persist_snapshot persist_failure persist at_least reconcile finish_plan retained
    plan_rows removed_topics
observes = refl
