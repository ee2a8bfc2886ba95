-- ===== src/Worker/Steps.antt =====
-- src/lib.rs: the passes of `run_session` as the steps that Worker.Session.Blindness counts.
use pg_ros.Base.{
  ℕ, ◌≡◌, ◌⊎◌, sym, Bool-cases, Option, List, ◌∷◌, Ensures, holds, Ensures-and_then, Ensures-any,
  ltb, inl, inr, arith, ◌||◌,
}
use mathlib.Core.Path.{subst}
use pg_ros.Worker.Session.{State, Round, Outcome}
use pg_ros.Worker.Session.Blindness.{Rounds, ticked, next}
use pg_ros.Parameters.Value.{Parameter}
use pg_ros.Worker.Pass.{
  Pass, Locals, Database, flush_due, reconcile_due, tick_due, serve, discover_due, one_pass,
}

module _ {Poll V : Type 0} (same : Discrete (Option (List (Parameter V)))) where
  -- Before the discovery, the pass changes the memory of the session by the tick alone.
  serve-tick_due :
      (pass : Pass Poll V) (l : Locals Poll V) (db : Database V)
      → (serve same pass l db).0.session
        ≡ (tick_due same pass l.session.parameter_poll l.session db.parameters).0
  unfolding serve flush_due reconcile_due
  serve-tick_due pass l db = ground arith

  -- A pass makes a tick, and after it no discovery or one.
  abbrev Stepped :
      (reinit_after : Option ℕ) (start : State Poll (List (Parameter V)))
      (rounds : List (Round Poll))
      → Pass Poll V
      → Locals Poll V × Database V × Outcome
      → Type 0
  Stepped reinit_after start rounds pass (l', db', outcome) =
      Rounds same reinit_after start rounds l'.session
      ⊎ Rounds same reinit_after start (pass.round ∷ rounds) l'.session

  discover_due-Stepped :
      (reinit_after : Option ℕ) (start : State Poll (List (Parameter V)))
      (rounds : List (Round Poll)) (pass : Pass Poll V) (l : Locals Poll V) (db : Database V)
      → Rounds same reinit_after start rounds l.session
      → Stepped reinit_after start rounds pass (discover_due same reinit_after pass l db)
  unfolding discover_due
  discover_due-Stepped reinit_after start rounds pass l db run =
      elim (Bool-cases (ltb pass.now_startup l.startup)) [
        | inl early ↦ rw early (inl run)
        | inr late ↦ elim (Bool-cases l.dirty) [
          | inl dirty ↦ rw (late, dirty) (inr (next run pass.round db.graph))
          | inr clean ↦ rw (late, clean) (inl run)
        ]
      ]

  -- Each pass of a session continues the ticks and discoveries that came before it.
  pub one_pass-Rounds :
      (reinit_after : Option ℕ) (start : State Poll (List (Parameter V)))
      (rounds : List (Round Poll)) (pass : Pass Poll V) (l : Locals Poll V) (db : Database V)
      → Rounds same reinit_after start rounds l.session
      → Ensures (Stepped reinit_after start rounds pass) (one_pass same reinit_after pass l db)
  unfolding one_pass
  one_pass-Rounds reinit_after start rounds pass l db run =
      Ensures-and_then (Ensures-any (pass.spun _)) λ u v.
        let noted : Locals Poll V = record l { dirty = l.dirty || pass.graph_changed } in
        holds (
          discover_due-Stepped reinit_after start rounds pass (serve same pass noted db).0
            (serve same pass noted db).1
            (subst (λ s. Rounds same reinit_after start rounds s)
              (sym (serve-tick_due pass noted db)) (ticked run pass db.parameters)))
