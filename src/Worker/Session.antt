-- ===== src/Worker/Session.antt =====
-- src/lib.rs: the discovery part of one round of `run_session`, from `GraphSnapshot::read` on, with
-- the transaction that it runs. Instants are milliseconds, durations seconds. Logging is left out,
-- and the flag `waiting_logged` is kept. A parameter poll and its rows are abstract types.
pub mod Memory
pub mod Watched
pub mod Blindness
use pg_ros.Base.{
  ℕ, ◌+◌, ◌*◌, ◌-◌, Bool, true, false, Option, none, some, List, [], ◌∷◌, Text, Result, ok, err,
  leb, ◌&&◌, if◌then◌else◌,
}
use pg_ros.Worker.Persist.{GraphSnapshot, GraphTables, persist_snapshot, error_of}

-- What `run_session` keeps from round to round.
pub record State (Poll Rows : Type 0) : Type 0 where
  pub previous : Option GraphSnapshot
  pub extension_oid : Option ℕ
  pub previous_parameters : Option Rows
  pub parameter_extension : Option ℕ
  pub parameter_poll : Option Poll
  pub next_parameters : ℕ
  pub last_error : Option Text
  pub waiting_logged : Bool
  pub empty_since : Option ℕ
  pub saw_graph : Bool

-- `SessionOutcome`, and a session that goes on.
pub data Outcome : Type 0 where
  goes_on : Outcome
  terminated : Outcome
  reinitialize : Bool → Outcome

-- What one round meets: what discovery returned, which extension the transaction found, and the
-- clock at each reading, in the order of the code.
pub record Round (Poll : Type 0) : Type 0 where
  pub snapshot : Result Text GraphSnapshot
  pub installed : Option ℕ
  pub pid : ℕ
  pub transaction_time : ℕ
  -- `Instant::now()` where `empty_since` is set, where a poll may start, and after a failed start.
  pub now_empty : ℕ
  pub now_poll : ℕ
  pub now_failed : ℕ
  -- `Poll::start`, and the extension that is looked up, and returned, by `parameters::persist` if the
  -- start failed; its transaction writes no table of the graph.
  pub started : Result Text Poll
  pub persisted : Option ℕ
  -- `Instant::now()` in `since.elapsed()`.
  pub now_end : ℕ

-- `value.nodes.is_empty() && value.topics.is_empty()`
abbrev is_empty {ℓ} : {A : Type ℓ} → List A → Bool
is_empty [] = true
is_empty (x ∷ xs) = false

abbrev pub is_blank : GraphSnapshot → Bool
is_blank value = is_empty value.nodes && is_empty value.topics

-- `if empty_since.is_none() { empty_since = Some(now) }`
abbrev pub since_or : Option ℕ → ℕ → Option ℕ
since_or none now = some now
since_or (some t) now = some t

abbrev is_none {ℓ} : {A : Type ℓ} → Option A → Bool
is_none none = true
is_none (some a) = false

-- `empty_since.zip(reinit_after)` and the test of `elapsed`.
unfoldable pub blind_outcome : Option ℕ → Option ℕ → ℕ → Bool → Outcome
blind_outcome (some since) (some threshold) now saw_graph =
    if leb (threshold * 1000) (now - since) then reinitialize saw_graph else goes_on
blind_outcome (some since) none now saw_graph = goes_on
blind_outcome none reinit_after now saw_graph = goes_on

module _ {Poll Rows : Type 0} where
  -- The match on the snapshot, with the extension installed.
  unfoldable pub watch_graph :
      Round Poll → Result Text GraphSnapshot → State Poll Rows → State Poll Rows
  watch_graph round (ok value) s =
      if is_blank value
      then record s { empty_since = since_or s.empty_since round.now_empty }
      else record s { empty_since = none; saw_graph = true }
  watch_graph round (err e) s = record s { empty_since = none }

  -- `match parameters::Poll::start(…)`
  unfoldable pub start_poll : Round Poll → Result Text Poll → State Poll Rows → State Poll Rows
  start_poll round (ok poll) s = record s { parameter_poll = some poll }
  start_poll round (err e) s = record s {
    parameter_extension = round.persisted;
    next_parameters = round.now_failed + 5000;
  }

  -- `if let Ok(snapshot) = snapshot { … }`
  unfoldable pub remember :
      Round Poll → Result Text GraphSnapshot → State Poll Rows → State Poll Rows
  remember round (ok value) s =
      let s' =
        if is_none s.parameter_poll && leb s.next_parameters round.now_poll
        then start_poll round round.started s
        else s in
      record s' { previous = some value }
  remember round (err e) s = s

  -- The two branches on `installed.is_some()`.
  unfoldable pub after_persist : Round Poll → Option ℕ → State Poll Rows → State Poll Rows
  after_persist round (some oid) s =
      let s' = remember round round.snapshot (watch_graph round round.snapshot s) in
      record s' { waiting_logged = false }
  after_persist round none s = record s {
    empty_since = none;
    previous = none;
    previous_parameters = none;
    parameter_extension = none;
    parameter_poll = none;
    waiting_logged = true;
  }

  -- The round: the state, the tables and the outcome.
  unfoldable pub discover :
      Option ℕ
      → Round Poll
      → State Poll Rows
      → GraphTables
      → State Poll Rows × GraphTables × Outcome
  unfolding after_persist blind_outcome
  discover reinit_after round s db =
      let (installed, db') =
        persist_snapshot round.installed round.pid round.transaction_time round.snapshot s.previous
          s.extension_oid db in
      let s' = record (after_persist round installed s) {
        extension_oid = installed;
        last_error = error_of round.snapshot;
      } in
      (s', db', blind_outcome s'.empty_since reinit_after round.now_end s'.saw_graph)
