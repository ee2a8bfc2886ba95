-- ===== src/Worker/Session/Memory.antt =====
-- src/lib.rs: what `run_session` remembers against what the tables show.
use pg_ros.Base.{ℕ, ◌≡◌, ◌∙◌, ap, refl, Option, none, some, Text, Result, ok, err}
use pg_ros.Worker.Persist.{
  GraphSnapshot, GraphTables, Shows, Mirrors, persist_snapshot, persist_snapshot-Shows,
  persist_snapshot-installed, persist_snapshot_failed, persist_snapshot_again, only_checked,
}
use pg_ros.Worker.Session.{State, Round, discover, after_persist, remember, watch_graph}

shown :
    (installed : Option ℕ) (pid now : ℕ) (snapshot : Result Text GraphSnapshot)
    (previous : Option GraphSnapshot) (previous_extension : Option ℕ) (db : GraphTables) (oid : ℕ)
    (value : GraphSnapshot)
    → installed ≡ some oid
    → snapshot ≡ ok value
    → Mirrors previous previous_extension oid db
    → Shows (persist_snapshot installed pid now snapshot previous previous_extension db).1 value
shown installed pid now snapshot previous previous_extension db oid value found read mirror =
    rw (found, read)
      (persist_snapshot-Shows oid pid now value previous previous_extension db mirror)

failed_rows :
    (installed : Option ℕ) (pid now : ℕ) (snapshot : Result Text GraphSnapshot)
    (previous : Option GraphSnapshot) (previous_extension : Option ℕ) (db : GraphTables) (oid : ℕ)
    (e : Text)
    → installed ≡ some oid
    → snapshot ≡ err e
    → (persist_snapshot installed pid now snapshot previous previous_extension db).1
      ≡ only_checked pid now (some e) db
failed_rows installed pid now snapshot previous previous_extension db oid e found failed =
    rw (found, failed)
      (ap (λ (r : Option ℕ × GraphTables). r.1)
        (persist_snapshot_failed oid pid now e previous previous_extension db))

again_rows :
    (installed : Option ℕ) (pid now : ℕ) (snapshot : Result Text GraphSnapshot)
    (previous : Option GraphSnapshot) (previous_extension : Option ℕ) (db : GraphTables) (oid : ℕ)
    (value : GraphSnapshot)
    → installed ≡ some oid
    → snapshot ≡ ok value
    → previous ≡ some value
    → previous_extension ≡ some oid
    → (persist_snapshot installed pid now snapshot previous previous_extension db).1
      ≡ only_checked pid now none db
again_rows installed pid now snapshot previous previous_extension db oid value found read p q =
    rw (found, read, p, q)
      (ap (λ (r : Option ℕ × GraphTables). r.1) (persist_snapshot_again oid pid now value db))

module _ {Poll Rows : Type 0} where
  remember-ok :
      (round : Round Poll) (snapshot : Result Text GraphSnapshot) (s : State Poll Rows)
      (value : GraphSnapshot)
      → snapshot ≡ ok value
      → (remember round snapshot s).previous ≡ some value
  unfolding remember
  remember-ok round (ok v) s value e = cc
  remember-ok round (err x) s value e = cc

  remember-err :
      (round : Round Poll) (snapshot : Result Text GraphSnapshot) (s : State Poll Rows) (e : Text)
      → snapshot ≡ err e
      → (remember round snapshot (watch_graph round snapshot s)).previous ≡ s.previous
  unfolding remember watch_graph
  remember-err round (ok v) s e h = cc
  remember-err round (err x) s e h = refl

  after_persist-previous_err :
      (round : Round Poll) (installed : Option ℕ) (s : State Poll Rows) (oid : ℕ) (e : Text)
      → installed ≡ some oid
      → round.snapshot ≡ err e
      → (after_persist round installed s).previous ≡ s.previous
  unfolding after_persist
  after_persist-previous_err round installed s oid e found failed =
      rw found (remember-err round round.snapshot s e failed)

  after_persist-previous :
      (round : Round Poll) (installed : Option ℕ) (s : State Poll Rows) (oid : ℕ)
      (value : GraphSnapshot)
      → installed ≡ some oid
      → round.snapshot ≡ ok value
      → (after_persist round installed s).previous ≡ some value
  unfolding after_persist
  after_persist-previous round installed s oid value found read =
      rw found (remember-ok round round.snapshot (watch_graph round round.snapshot s) value read)

  -- After a round that found the extension and discovered a graph, the worker remembers that graph and
  -- that extension, and the tables show the graph, provided that its memory mirrored the tables.
  pub discover-Shows :
      (reinit_after : Option ℕ) (round : Round Poll) (s : State Poll Rows) (db : GraphTables)
      (oid : ℕ) (value : GraphSnapshot)
      → round.installed ≡ some oid
      → round.snapshot ≡ ok value
      → Mirrors s.previous s.extension_oid oid db
      → let (s', db', _) = discover reinit_after round s db in
        (s'.previous ≡ some value) × (s'.extension_oid ≡ some oid) × Shows db' value
  unfolding discover
  discover-Shows reinit_after round s db oid value found read mirror =
      let installed =
        persist_snapshot-installed round.installed round.pid round.transaction_time round.snapshot
          s.previous s.extension_oid db in
      (
        after_persist-previous round _ s oid value (installed ∙ found) read,
        installed ∙ found,
        shown round.installed round.pid round.transaction_time round.snapshot s.previous
            s.extension_oid db oid value found read mirror,
      )

  -- A failed discovery that first meets an extension makes the worker remember that extension with the
  -- graph of the one before. When the same graph is then discovered again, its tables are left as they
  -- are, whatever they hold.
  pub discover_stale :
      (reinit_after : Option ℕ) (first second : Round Poll) (s : State Poll Rows) (db : GraphTables)
      (oid : ℕ) (e : Text) (value : GraphSnapshot)
      → s.previous ≡ some value
      → first.installed ≡ some oid
      → first.snapshot ≡ err e
      → second.installed ≡ some oid
      → second.snapshot ≡ ok value
      → let (s', db', _) = discover reinit_after first s db in
        let (_, db'', _) = discover reinit_after second s' db' in
        (db''.nodes ≡ db.nodes) × (db''.topics ≡ db.topics)
  unfolding discover
  discover_stale reinit_after first second s db oid e value known found failed found' read =
      let installed =
        persist_snapshot-installed first.installed first.pid first.transaction_time first.snapshot
          s.previous s.extension_oid db in
      let untouched =
        failed_rows first.installed first.pid first.transaction_time first.snapshot s.previous
          s.extension_oid db oid e found failed in
      let rewritten =
        again_rows second.installed second.pid second.transaction_time second.snapshot _ _ _ oid
          value found' read
          (after_persist-previous_err first _ s oid e (installed ∙ found) failed ∙ known)
          (installed ∙ found) in
      (
        ap (λ (t : GraphTables). t.nodes) rewritten ∙ ap (λ (t : GraphTables). t.nodes) untouched,
        ap (λ (t : GraphTables). t.topics) rewritten ∙ ap (λ (t : GraphTables). t.topics) untouched,
      )
