-- ===== src/Worker/Session/Watched.antt =====
-- src/lib.rs: what one round of `run_session` does to the locals that decide when it ends.
use pg_ros.Base.{
  ℕ, ◌≡◌, ◌∙◌, ap, refl, Bool, false, not, ◌||◌, Option, none, some, Text, Result, ok, err, arith,
  inl, inr, Bool-cases, if◌then◌else◌,
}
use pg_ros.Worker.Persist.{GraphSnapshot, GraphTables, persist_snapshot, persist_snapshot-installed}
use pg_ros.Worker.Session.{
  State, Round, is_blank, since_or, discover, after_persist, remember, watch_graph, start_poll,
}

abbrev blank_snapshot : Result Text GraphSnapshot → Bool
blank_snapshot (ok value) = is_blank value
blank_snapshot (err e) = false

abbrev seen_snapshot : Result Text GraphSnapshot → Bool
seen_snapshot (ok value) = not (is_blank value)
seen_snapshot (err e) = false

abbrev while_installed : Option ℕ → Bool → Bool
while_installed none b = false
while_installed (some oid) b = b

module _ {Poll : Type 0} where
  -- The extension was installed and discovery found nothing.
  abbrev pub is_blind : Round Poll → Bool
  is_blind round = while_installed round.installed (blank_snapshot round.snapshot)

  -- The extension was installed and discovery found something.
  abbrev pub sees_graph : Round Poll → Bool
  sees_graph round = while_installed round.installed (seen_snapshot round.snapshot)

module _ {Poll Rows : Type 0} where
  start_poll-kept :
      (round : Round Poll) (r : Result Text Poll) (s : State Poll Rows)
      → ((start_poll round r s).empty_since ≡ s.empty_since)
        × ((start_poll round r s).saw_graph ≡ s.saw_graph)
  unfolding start_poll
  start_poll-kept round (ok p) s = (refl, refl)
  start_poll-kept round (err e) s = (refl, refl)

  remember-kept :
      (round : Round Poll) (snapshot : Result Text GraphSnapshot) (s : State Poll Rows)
      → ((remember round snapshot s).empty_since ≡ s.empty_since)
        × ((remember round snapshot s).saw_graph ≡ s.saw_graph)
  unfolding remember
  remember-kept round (ok value) s = ground (arith, start_poll-kept round round.started s)
  remember-kept round (err e) s = (refl, refl)

  watch_graph-watched :
      (round : Round Poll) (snapshot : Result Text GraphSnapshot) (s : State Poll Rows)
      → ((watch_graph round snapshot s).empty_since
          ≡ (if blank_snapshot snapshot then since_or s.empty_since round.now_empty else none))
        × ((watch_graph round snapshot s).saw_graph ≡ (seen_snapshot snapshot || s.saw_graph))
  unfolding watch_graph
  watch_graph-watched round (ok value) s = elim (Bool-cases (is_blank value)) [
    | inl e ↦ rw e (refl, refl)
    | inr e ↦ rw e (refl, refl)
  ]
  watch_graph-watched round (err e) s = (refl, refl)

  after_persist-watched :
      (round : Round Poll) (installed : Option ℕ) (s : State Poll Rows)
      → ((after_persist round installed s).empty_since ≡ (
          if while_installed installed (blank_snapshot round.snapshot)
          then since_or s.empty_since round.now_empty
          else none))
        × ((after_persist round installed s).saw_graph
            ≡ (while_installed installed (seen_snapshot round.snapshot) || s.saw_graph))
  unfolding after_persist
  after_persist-watched round none s = (refl, refl)
  after_persist-watched round (some oid) s =
      let kept = remember-kept round round.snapshot (watch_graph round round.snapshot s) in
      let watched = watch_graph-watched round round.snapshot s in
      (kept.0 ∙ watched.0, kept.1 ∙ watched.1)

  pub discover-watched :
      (reinit_after : Option ℕ) (round : Round Poll) (s : State Poll Rows) (db : GraphTables)
      → let s' = (discover reinit_after round s db).0 in
        (s'.empty_since ≡ (if is_blind round then since_or s.empty_since round.now_empty else none))
        × (s'.saw_graph ≡ (sees_graph round || s.saw_graph))
  unfolding discover
  discover-watched reinit_after round s db =
      let installed =
        persist_snapshot-installed round.installed round.pid round.transaction_time round.snapshot
          s.previous s.extension_oid db in
      let written =
        persist_snapshot round.installed round.pid round.transaction_time round.snapshot s.previous
          s.extension_oid db in
      let watched = after_persist-watched round written.0 s in
      (
        watched.0
            ∙ ap
                (λ i.
                  if while_installed i (blank_snapshot round.snapshot)
                  then since_or s.empty_since round.now_empty
                  else none)
                installed,
        watched.1
            ∙ ap (λ i. while_installed i (seen_snapshot round.snapshot) || s.saw_graph) installed,
      )
