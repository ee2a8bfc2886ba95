-- ===== src/Worker/Gate.antt =====
-- src/lib.rs: a change of the graph waits for the next discovery, and is not lost.
use pg_ros.Base.{
  ℕ, ◌≡◌, ◌<◌, ◌≤◌, ◌⊎◌, ◌∙◌, refl, Bool-cases, true, false, ◌||◌, Option, List, ok, Ensures, holds,
  Ensures-ok, Ensures-and_then, Ensures-any, ltb, ap, arith, inl, inr,
}
use pg_ros.Worker.Session.{Outcome, discover}
use pg_ros.Parameters.Value.{Parameter}
use pg_ros.Worker.Pass.{
  Pass, Locals, Database, flush_due, reconcile_due, serve, discover_due, one_pass,
}

module _ {Poll V : Type 0} (same : Discrete (Option (List (Parameter V)))) where
  -- What the steps before the discovery leave alone.
  serve-same :
      (pass : Pass Poll V) (l : Locals Poll V) (db : Database V)
      → let (l', db') = serve same pass l db in
        (l'.dirty ≡ l.dirty) × (l'.startup ≡ l.startup) × (db'.graph ≡ db.graph)
  unfolding serve flush_due reconcile_due
  serve-same pass l db = ground arith

  -- A change of the graph is kept for later, or handled now.
  abbrev Handled :
      Option ℕ
      → Pass Poll V
      → Locals Poll V
      → Database V
      → Locals Poll V × Database V × Outcome
      → Type 0
  Handled reinit_after pass l db (l', db', outcome) =
      ((pass.now_startup < l.startup) × (l'.dirty ≡ true) × (db'.graph ≡ db.graph))
      ⊎ ((l.startup ≤ pass.now_startup)
          × (l'.dirty ≡ false)
          × ((l'.session, db'.graph, outcome)
              ≡ discover reinit_after pass.round
                  (serve same pass (record l { dirty = true }) db).0.session db.graph))

  discover_due-Handled :
      (reinit_after : Option ℕ) (pass : Pass Poll V) (l l1 : Locals Poll V) (db db1 : Database V)
      → l1.dirty ≡ true
      → l1.startup ≡ l.startup
      → db1.graph ≡ db.graph
      → l1.session ≡ (serve same pass (record l { dirty = true }) db).0.session
      → Handled reinit_after pass l db (discover_due same reinit_after pass l1 db1)
  unfolding discover_due
  discover_due-Handled reinit_after pass l l1 db db1 d s g session =
      elim (Bool-cases (ltb pass.now_startup l1.startup)) [
        | inl early ↦ rw early (inl (ground (arith, early, s), d, g))
        | inr late ↦ rw (late, d) (inr (ground (arith, late, s), refl, rw (g, session) refl))
      ]

  one_pass-Handled :
      (reinit_after : Option ℕ) (pass : Pass Poll V) (l : Locals Poll V) (db : Database V)
      → (l.dirty || pass.graph_changed) ≡ true
      → Ensures (Handled reinit_after pass l db) (one_pass same reinit_after pass l db)
  unfolding one_pass
  one_pass-Handled reinit_after pass l db changed =
      Ensures-and_then (Ensures-any (pass.spun _)) λ u v.
        let noted : Locals Poll V = record l { dirty = l.dirty || pass.graph_changed } in
        let (dirty, startup, graph) = serve-same pass noted db in
        holds (
          discover_due-Handled reinit_after pass l (serve same pass noted db).0 db
            (serve same pass noted db).1 (dirty ∙ changed) startup graph
            (ap (λ d. (serve same pass (record l { dirty = d }) db).0.session) changed))

  -- Once the graph has changed, a pass before startup leaves the change noted and the graph tables
  -- alone, and a pass after startup clears the note and runs the discovery on the graph tables, with
  -- its session, tables and outcome.
  pub one_pass-dirty :
      (reinit_after : Option ℕ) (pass : Pass Poll V) (l l' : Locals Poll V) (db db' : Database V)
      (outcome : Outcome)
      → one_pass same reinit_after pass l db ≡ ok (l', db', outcome)
      → (l.dirty || pass.graph_changed) ≡ true
      → ((pass.now_startup < l.startup) × (l'.dirty ≡ true) × (db'.graph ≡ db.graph))
        ⊎ ((l.startup ≤ pass.now_startup)
            × (l'.dirty ≡ false)
            × ((l'.session, db'.graph, outcome)
                ≡ discover reinit_after pass.round
                    (serve same pass (record l { dirty = true }) db).0.session
                    db.graph))
  one_pass-dirty reinit_after pass l l' db db' outcome e changed =
      Ensures-ok (one_pass-Handled reinit_after pass l db changed) e
