-- ===== src/Worker/Polling.antt =====
-- src/lib.rs: the end of a parameter poll, against the table that it writes.
use pg_ros.Base.{
  ℕ, ◌+◌, ◌≡◌, ◌≢◌, ◌<◌, ◌≤◌, refl, ◌∙◌, Option, none, some, List, All, Text, Result, ok, err,
  arith, leb, false,
}
use pg_ros.Worker.Persist.{GraphSnapshot, GraphTables, persist_snapshot}
use pg_ros.Worker.Session.{State, Round, discover, after_persist, remember, watch_graph}
use pg_ros.Worker.Session.Blindness.{Rounds, begin, ticked, next}
use pg_ros.Worker.Pass.{Pass, poll_ended, poll_ticked, tick_due}
use pg_ros.Parameters.Value.{Parameter}
use pg_ros.Parameters.Persist.{ParameterTables, shown_parameters, persist, persist-shown}

module _ {Poll V : Type 0} (same : Discrete (Option (List (Parameter V)))) where
  -- What the worker remembers of the parameters is what the table shows, if it remembers them for this
  -- extension.
  abbrev pub Remembers : State Poll (List (Parameter V)) → ℕ → ParameterTables V → Type 0
  Remembers s oid db =
      (rows : List (Parameter V))
      → s.previous_parameters ≡ some rows
      → s.parameter_extension ≡ some oid
      → shown_parameters db.parameters ≡ rows

  poll_ended-shown :
      (pass : Pass Poll V) (installed : Option ℕ) (rows : List (Parameter V))
      (s : State Poll (List (Parameter V))) (db : ParameterTables V) (oid : ℕ)
      → installed ≡ some oid
      → Remembers s oid db
      → let (persisted, db') =
          persist same installed pass.pid pass.parameter_time
            (ok rows)
            s.previous_parameters
            s.parameter_extension
            db in
        (persisted ≡ some oid) × (shown_parameters db'.parameters ≡ rows)
  unfolding persist
  poll_ended-shown pass (some found) rows s db oid e h = (
    e,
    persist-shown same found pass.pid pass.parameter_time rows s.previous_parameters
        s.parameter_extension db (λ p q. h rows p (q ∙ e)),
  )
  poll_ended-shown pass none rows s db oid e h = cc

  -- When a tick returns the parameters and the extension is installed, the worker remembers them for that
  -- extension, the table shows them, the poll is over, and the next one is due five seconds later, if what
  -- the worker remembered before was what the table showed.
  pub tick_due-shown :
      (pass : Pass Poll V) (poll : Poll) (rows : List (Parameter V))
      (s : State Poll (List (Parameter V))) (db : ParameterTables V) (oid : ℕ)
      → pass.parameter_installed ≡ some oid
      → (pass.tick poll).1 ≡ ok (some rows)
      → Remembers s oid db
      → let (s', db') = tick_due same pass (some poll) s db in
        (s'.previous_parameters ≡ some rows)
        × (s'.parameter_extension ≡ some oid)
        × (shown_parameters db'.parameters ≡ rows)
        × (s'.parameter_poll ≡ none)
        × (s'.next_parameters ≡ pass.now_ticked + 5000)
  unfolding tick_due poll_ticked poll_ended
  tick_due-shown pass poll rows s db oid found returned h =
      let (extension, shown) =
        poll_ended-shown pass pass.parameter_installed rows s db oid found h in
      rw returned (refl, extension, shown, refl, refl)

-- No poll is running, and none is due before `due`.
abbrev Rests : {Poll Rows : Type 0} → ℕ → State Poll Rows → Type 0
Rests due s = (s.parameter_poll ≡ none) × (due ≤ s.next_parameters)

module _ {Poll Rows : Type 0} where
  watch_graph-Rests :
      (due : ℕ) (round : Round Poll) (snapshot : Result Text GraphSnapshot) (s : State Poll Rows)
      → Rests due s
      → Rests due (watch_graph round snapshot s)
  unfolding watch_graph
  watch_graph-Rests due round (ok value) s h = ground (arith, h)
  watch_graph-Rests due round (err e) s h = h

  remember-Rests :
      (due : ℕ) (round : Round Poll) (snapshot : Result Text GraphSnapshot) (s : State Poll Rows)
      → round.now_poll < due
      → Rests due s
      → Rests due (remember round snapshot s)
  unfolding remember
  remember-Rests due round (ok value) s early (idle, later) =
      let too_early : leb s.next_parameters round.now_poll ≡ false = ground (arith, early, later) in
      rw (idle, too_early) (refl, later)
  remember-Rests due round (err e) s early h = h

  after_persist-Rests :
      (due : ℕ) (round : Round Poll) (installed : Option ℕ) (s : State Poll Rows)
      → round.now_poll < due
      → Rests due s
      → Rests due (after_persist round installed s)
  unfolding after_persist
  after_persist-Rests due round none s early h = (refl, h.1)
  after_persist-Rests due round (some oid) s early h =
      remember-Rests due round round.snapshot (watch_graph round round.snapshot s) early
        (watch_graph-Rests due round round.snapshot s h)

  discover-Rests :
      (due : ℕ) (reinit_after : Option ℕ) (round : Round Poll) (s : State Poll Rows)
      (db : GraphTables)
      → round.now_poll < due
      → Rests due s
      → Rests due (discover reinit_after round s db).0
  unfolding discover
  discover-Rests due reinit_after round s db early h =
      after_persist-Rests due round
        (persist_snapshot round.installed round.pid round.transaction_time round.snapshot s.previous
          s.extension_oid db).0
        s early h

module _ {Poll V : Type 0} (same : Discrete (Option (List (Parameter V)))) where
  tick_due-Rests :
      (due : ℕ) (pass : Pass Poll V) (poll : Option Poll) (s : State Poll (List (Parameter V)))
      (db : ParameterTables V)
      → poll ≡ none
      → Rests due s
      → Rests due (tick_due same pass poll s db).0
  unfolding tick_due
  tick_due-Rests due pass none s db idle h = h
  tick_due-Rests due pass (some poll) s db idle h = cc

  Rounds-Rests :
      {reinit_after : Option ℕ} {start s : State Poll (List (Parameter V))}
      {rounds : List (Round Poll)} (due : ℕ)
      → Rests due start
      → All (λ round. round.now_poll < due) rounds
      → Rounds same reinit_after start rounds s
      → Rests due s
  Rounds-Rests due h early begin = h
  Rounds-Rests due h early (ticked {s} before pass db) =
      let rests = Rounds-Rests due h early before in
      tick_due-Rests due pass s.parameter_poll s db rests.0 rests
  Rounds-Rests {reinit_after} due h early (next {s} before round db) =
      discover-Rests due reinit_after round s db early.0 (Rounds-Rests due h early.1 before)

  poll_ticked-Rests :
      (pass : Pass Poll V) (poll : Poll) (result : Result Text (Option (List (Parameter V))))
      (s : State Poll (List (Parameter V))) (db : ParameterTables V)
      → result ≢ ok none
      → Rests (pass.now_ticked + 5000) (poll_ticked same pass poll result s db).0
  unfolding poll_ticked poll_ended
  poll_ticked-Rests pass poll (ok none) s db ended = absurd (ended refl)
  poll_ticked-Rests pass poll (ok (some rows)) s db ended = (refl, omega arith)
  poll_ticked-Rests pass poll (err e) s db ended = (refl, omega arith)

  -- A tick that ends its poll, with the parameters or with an error, is followed by a rest: whatever ticks
  -- and discoveries come next, no poll is running while the discoveries that came read the clock less than
  -- five seconds after the poll's end.
  pub Rounds-rests :
      {s : State Poll (List (Parameter V))} {rounds : List (Round Poll)} (reinit_after : Option ℕ)
      (pass : Pass Poll V) (poll : Poll) (before : State Poll (List (Parameter V)))
      (db : ParameterTables V)
      → (pass.tick poll).1 ≢ ok none
      → Rounds same reinit_after (tick_due same pass (some poll) before db).0 rounds s
      → All (λ round. round.now_poll < pass.now_ticked + 5000) rounds
      → s.parameter_poll ≡ none
  unfolding tick_due
  Rounds-rests reinit_after pass poll before db ended run early =
      (Rounds-Rests (pass.now_ticked + 5000)
        (poll_ticked-Rests pass (pass.tick poll).0 (pass.tick poll).1 before db ended) early run).0
