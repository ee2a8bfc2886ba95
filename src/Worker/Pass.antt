-- ===== src/Worker/Pass.antt =====
-- src/lib.rs: a pass of the loop of `run_session`, with its calls of src/messages.rs and
-- src/parameters.rs, the sessions of `run_observer`, and the settings that they read. Logging is left
-- out, and the text of the last failed read is kept. Instants are milliseconds. What a tick of the
-- parameter poll returns is an argument; a panic in it, which ends the worker, is not modelled.
use Prim.Native.Nat.{min, max}
use pg_ros.Base.{
  ℕ, ◌+◌, Bool, true, false, not, ◌&&◌, ◌||◌, Option, none, some, List, Text, Result, ok, err,
  and_then, leb, ltb, if◌then◌else◌,
}
use pg_ros.Base.Int.{ℤ, pos, negsuc}
use pg_ros.ErrorText.{Error}
use pg_ros.Worker.Persist.{GraphSnapshot, GraphTables}
use pg_ros.Worker.Session.{State, Round, Outcome, goes_on, discover}
use pg_ros.Parameters.Value.{Parameter}
use pg_ros.Parameters.Persist.{ParameterTables, persist}
use pg_ros.Messages.Mailbox.{Mailbox}
use pg_ros.Messages.Flush.{MessageTables, flush, is_nil}
use pg_ros.Messages.Reconcile.{Desired, reconcile}

-- `.get().max(least)` of an integer setting.
unfoldable pub at_least : ℕ → ℤ → ℕ
at_least least (pos n) = max n least
at_least least (negsuc n) = least

abbrev pub message_poll_ms : ℤ → ℕ
message_poll_ms setting = at_least 1 setting

abbrev pub subscription_poll_ms : ℤ → ℕ
subscription_poll_ms setting = at_least 1 setting

abbrev pub subscription_ttl_seconds : ℤ → ℕ
subscription_ttl_seconds setting = at_least 0 setting

-- `GRAPH_SPIN`
abbrev pub graph_spin : ℕ
graph_spin = 100

-- The bound of the spin: tight only while there is a subscription.
abbrev pub spin_bound {ℓ} : {A : Type ℓ} → List A → ℕ → ℕ
spin_bound live message_poll = if is_nil live then graph_spin else min message_poll graph_spin

-- The tables that the worker writes.
pub record Database (V : Type 0) : Type 0 where
  pub graph : GraphTables
  pub parameters : ParameterTables V
  pub messages : MessageTables V

-- The locals of `run_session` and what its caller keeps for it.
pub record Locals (Poll V : Type 0) : Type 0 where
  pub session : State Poll (List (Parameter V))
  pub startup : ℕ
  pub next_message_flush : ℕ
  pub next_subscription_poll : ℕ
  pub last_subscription_error : Option Text
  pub dirty : Bool
  pub subscriptions : List (Text × Mailbox)

-- What a pass meets, in the order of the code: the settings, the spin with its bound and whether the
-- graph listener ran, and the clock and the answers at each step.
pub record Pass (Poll V : Type 0) : Type 0 where
  pub message_poll : ℤ
  pub subscription_poll : ℤ
  pub subscription_ttl : ℤ
  pub spun : ℕ → Result Error (Unit {0})
  pub graph_changed : Bool
  pub now : ℕ
  pub from_str : Text → Result Text V
  pub flush_installed : Option ℕ
  pub flush_time : ℕ
  pub now_flushed : ℕ
  pub desired : Result Text (List Desired)
  pub reconcile_installed : Option ℕ
  pub subscribe : Text → Option Text → Result Text (Text × Mailbox)
  pub now_reconciled : ℕ
  pub tick : Poll → Poll × Result Text (Option (List (Parameter V)))
  pub parameter_installed : Option ℕ
  pub pid : ℕ
  pub parameter_time : ℕ
  pub now_ticked : ℕ
  pub now_startup : ℕ
  pub round : Round Poll
  pub start_time : ℕ

-- The match on the result of `reconcile`.
abbrev read_error : Result Text (Unit {0}) → Option Text
read_error (ok u) = none
read_error (err e) = some e

-- `Ok(snapshot) => *previous_parameters = Some(snapshot)`
abbrev pub remembered {ℓ} : {Rows : Type ℓ} → Result Text Rows → Option Rows → Option Rows
remembered (ok rows) previous = some rows
remembered (err e) previous = previous

-- Why `Poll::start` failed, if the round reached it: the extension is installed, the graph was read, no
-- poll is running and the next one is due.
abbrev start_failure {ℓ} :
    {Poll : Type ℓ}
    → Option ℕ
    → Result Text GraphSnapshot
    → Option Poll
    → Bool
    → Result Text Poll
    → Option Text
start_failure (some oid) (ok value) none true (err e) = some e
start_failure _ _ _ _ _ = none

module _ {Poll V : Type 0} where
  -- `if !subscriptions.is_empty() && now >= next_message_flush`
  unfoldable pub flush_due : Pass Poll V → Locals Poll V → Database V → Locals Poll V × Database V
  flush_due pass l db =
      let (live, messages) =
        flush pass.from_str pass.flush_installed pass.flush_time l.subscriptions db.messages in
      if not (is_nil l.subscriptions) && leb l.next_message_flush pass.now
      then (
        record l {
          subscriptions = live;
          next_message_flush = pass.now_flushed + message_poll_ms pass.message_poll;
        },
        record db { messages = messages },
      )
      else (l, db)

  -- `if now >= next_subscription_poll`
  unfoldable pub reconcile_due :
      Pass Poll V → Locals Poll V → Database V → Locals Poll V × Database V
  reconcile_due pass l db =
      let ((live, messages), result) =
        reconcile pass.subscribe (subscription_ttl_seconds pass.subscription_ttl)
          pass.reconcile_installed pass.desired l.subscriptions db.messages in
      if leb l.next_subscription_poll pass.now
      then (
        record l {
          subscriptions = live;
          last_subscription_error = read_error result;
          next_subscription_poll =
              pass.now_reconciled + subscription_poll_ms pass.subscription_poll;
        },
        record db { messages = messages },
      )
      else (l, db)

  module _ (same : Discrete (Option (List (Parameter V)))) where
    -- The end of a poll: its result is persisted, and the next one is five seconds away.
    unfoldable pub poll_ended :
        Pass Poll V
        → Result Text (List (Parameter V))
        → State Poll (List (Parameter V))
        → ParameterTables V
        → State Poll (List (Parameter V)) × ParameterTables V
    poll_ended pass result s db =
        let (persisted, db') =
          persist same pass.parameter_installed pass.pid pass.parameter_time result
            s.previous_parameters s.parameter_extension db in
        (
          record s {
            parameter_extension = persisted;
            previous_parameters = remembered result s.previous_parameters;
            parameter_poll = none;
            next_parameters = pass.now_ticked + 5000;
          },
          db',
        )

    -- `if !matches!(result, Ok(None))`
    unfoldable pub poll_ticked :
        Pass Poll V
        → Poll
        → Result Text (Option (List (Parameter V)))
        → State Poll (List (Parameter V))
        → ParameterTables V
        → State Poll (List (Parameter V)) × ParameterTables V
    poll_ticked pass poll (ok none) s db = (record s { parameter_poll = some poll }, db)
    poll_ticked pass poll (ok (some rows)) s db = poll_ended pass (ok rows) s db
    poll_ticked pass poll (err e) s db = poll_ended pass (err e) s db

    -- `if let Some(poll) = &mut parameter_poll`
    unfoldable pub tick_due :
        Pass Poll V
        → Option Poll
        → State Poll (List (Parameter V))
        → ParameterTables V
        → State Poll (List (Parameter V)) × ParameterTables V
    tick_due pass none s db = (s, db)
    tick_due pass (some poll) s db =
        let (poll', result) = pass.tick poll in poll_ticked pass poll' result s db

    -- From the first reading of the clock to the parameter poll.
    unfoldable pub serve : Pass Poll V → Locals Poll V → Database V → Locals Poll V × Database V
    serve pass l db =
        let (l1, db1) = flush_due pass l db in
        let (l2, db2) = reconcile_due pass l1 db1 in
        let (s, parameters) = tick_due pass l2.session.parameter_poll l2.session db2.parameters in
        (record l2 { session = s }, record db2 { parameters = parameters })

    -- `parameters::persist` after a failed `Poll::start`.
    unfoldable pub persist_failure :
        Pass Poll V
        → Option Text
        → State Poll (List (Parameter V))
        → ParameterTables V
        → ParameterTables V
    persist_failure pass none s db = db
    persist_failure pass (some e) s db =
        (persist same pass.round.persisted pass.pid pass.start_time (err e) s.previous_parameters
          s.parameter_extension db).1

    -- `if Instant::now() < startup || !dirty.swap(false, …) { continue }` and the discovery. `||` leaves
    -- the flag alone before startup.
    unfoldable pub discover_due :
        Option ℕ → Pass Poll V → Locals Poll V → Database V → Locals Poll V × Database V × Outcome
    discover_due reinit_after pass l db =
        let (s, graph, outcome) = discover reinit_after pass.round l.session db.graph in
        let failure =
          start_failure pass.round.installed pass.round.snapshot l.session.parameter_poll
            (leb l.session.next_parameters pass.round.now_poll) pass.round.started in
        let parameters = persist_failure pass failure l.session db.parameters in
        if ltb pass.now_startup l.startup
        then (l, db, goes_on)
        else (if l.dirty
            then (
              record l { session = s; dirty = false },
              record db { graph = graph; parameters = parameters },
              outcome,
            )
            else (l, db, goes_on))

    -- The pass: an error of the spin ends the worker.
    unfoldable pub one_pass :
        Option ℕ
        → Pass Poll V
        → Locals Poll V
        → Database V
        → Result Error (Locals Poll V × Database V × Outcome)
    one_pass reinit_after pass l db =
        and_then (pass.spun (spin_bound l.subscriptions (message_poll_ms pass.message_poll))) λ u.
          let (l', db') = serve pass (record l { dirty = l.dirty || pass.graph_changed }) db in
          ok (discover_due reinit_after pass l' db')
