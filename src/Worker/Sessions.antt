-- ===== src/Worker/Sessions.antt =====
-- src/lib.rs: `run_session` and `run_observer`, given the passes that each session makes. A session
-- whose passes are over was asked to stop by the postmaster.
use pg_ros.Base.{ℕ, ◌+◌, Bool, true, false, Option, none, List, [], ◌∷◌, Result, ok, and_then}
use pg_ros.ErrorText.{Error}
use pg_ros.Worker.Backoff.{configured_reinit_after, next_reinit_after}
use pg_ros.Worker.Persist.{GraphSnapshot}
use pg_ros.Worker.Session.{Outcome, goes_on, terminated, reinitialize}
use pg_ros.Worker.Pass.{Pass, Locals, Database, one_pass}
use pg_ros.Parameters.Value.{Parameter}

-- What `run_observer` keeps over the sessions. It also keeps the map of subscriptions, which
-- `run_session` clears first.
pub record Kept (V : Type 0) : Type 0 where
  pub previous : Option GraphSnapshot
  pub extension_oid : Option ℕ
  pub previous_parameters : Option (List (Parameter V))
  pub parameter_extension : Option ℕ

-- What a session meets: whether `ros_context` and `create_node` succeed, the clock at its start and
-- at the two readings before the loop, its passes, and the setting `ros_reinit_after` at its end.
pub record SessionRun (Poll V : Type 0) : Type 0 where
  pub created : Result Error (Unit {0})
  pub now_created : ℕ
  pub now_flush : ℕ
  pub now_poll : ℕ
  pub passes : List (Pass Poll V)
  pub reinit_setting : ℕ

-- The match on the outcome of a session.
abbrev session_ended :
    {V : Type 0}
    → Outcome
    → Kept V
    → Database V
    → (Bool → Result Error (Kept V × Database V))
    → Result Error (Kept V × Database V)
session_ended (reinitialize saw_graph) kept db rebuild = rebuild saw_graph
session_ended terminated kept db rebuild = ok (kept, db)
session_ended goes_on kept db rebuild = ok (kept, db)

module _ {Poll V : Type 0} where
  -- The locals before the loop.
  abbrev pub first_locals : SessionRun Poll V → Kept V → Locals Poll V
  first_locals run kept = record {
    session = record {
      previous = kept.previous;
      extension_oid = kept.extension_oid;
      previous_parameters = kept.previous_parameters;
      parameter_extension = kept.parameter_extension;
      parameter_poll = none;
      next_parameters = run.now_created + 1000;
      last_error = none;
      waiting_logged = false;
      empty_since = none;
      saw_graph = false;
    };
    startup = run.now_created + 1000;
    next_message_flush = run.now_flush;
    next_subscription_poll = run.now_poll;
    last_subscription_error = none;
    dirty = true;
    subscriptions = [];
  }

  abbrev pub kept_of : Locals Poll V → Kept V
  kept_of l = record {
    previous = l.session.previous;
    extension_oid = l.session.extension_oid;
    previous_parameters = l.session.previous_parameters;
    parameter_extension = l.session.parameter_extension;
  }

  -- A pass that rebuilds returns; the others go on with the `rest`.
  abbrev pass_ended :
      Outcome
      → Locals Poll V
      → Database V
      → Result Error (Kept V × Database V × Outcome)
      → Result Error (Kept V × Database V × Outcome)
  pass_ended goes_on l db rest = rest
  pass_ended terminated l db rest = ok (kept_of l, db, terminated)
  pass_ended (reinitialize saw_graph) l db rest = ok (kept_of l, db, reinitialize saw_graph)

  module _ (same : Discrete (Option (List (Parameter V)))) where
    -- The loop of `run_session`.
    unfoldable pub passes :
        Option ℕ
        → List (Pass Poll V)
        → Locals Poll V
        → Database V
        → Result Error (Kept V × Database V × Outcome)
    passes reinit_after [] l db = ok (kept_of l, db, terminated)
    passes reinit_after (pass ∷ rest) l db =
        and_then (one_pass same reinit_after pass l db)
          λ (l', db', outcome). pass_ended outcome l' db' (passes reinit_after rest l' db')

    unfoldable pub run_session :
        Option ℕ
        → SessionRun Poll V
        → Kept V
        → Database V
        → Result Error (Kept V × Database V × Outcome)
    unfolding passes
    run_session reinit_after run kept db =
        and_then run.created λ u. passes reinit_after run.passes (first_locals run kept) db

    -- The loop of `run_observer`: the memory and the tables in which it ends.
    unfoldable pub sessions :
        Option ℕ
        → List (SessionRun Poll V)
        → Kept V
        → Database V
        → Result Error (Kept V × Database V)
    sessions reinit_after [] kept db = ok (kept, db)
    sessions reinit_after (run ∷ rest) kept db =
        and_then (run_session reinit_after run kept db) λ (kept', db', outcome).
          session_ended outcome kept' db' (λ saw_graph.
            sessions (next_reinit_after run.reinit_setting reinit_after saw_graph) rest kept' db')

    -- `run_observer`, with the setting at its start.
    unfoldable pub run_observer :
        ℕ → List (SessionRun Poll V) → Database V → Result Error (Kept V × Database V)
    unfolding sessions
    run_observer setting runs db =
        sessions (configured_reinit_after setting) runs
          (record {
            previous = none;
            extension_oid = none;
            previous_parameters = none;
            parameter_extension = none;
          })
          db
