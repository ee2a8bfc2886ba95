-- ===== src/Worker/Persist.antt =====
-- src/lib.rs: `persist_snapshot`, on the graph tables. The extension's lookup is an argument: the OID
-- of the installed extension, if it is installed.
use mathlib.Core.Bool.{decide, decide_iff}
use native.Mathlib.Decide.{ℕ_discrete}
use pg_ros.Base.{
  ℕ, ◌≡◌, refl, ap, Bool, false, not, ◌||◌, Option, none, some, List, [], ◌∷◌, map, Text,
  Text-discrete, Result, ok, err, if◌then◌else◌, arith, inl, inr, Bool-cases, or_left, or_right,
}
use pg_ros.Tables.{Status, upsert_status}

-- `struct GraphSnapshot`
pub record GraphSnapshot : Type 0 where
  pub nodes : List (Text × Text)
  pub topics : List (Text × Text)

pub GraphSnapshot-discrete : Discrete GraphSnapshot
GraphSnapshot-discrete = hlevel Text-discrete

-- A row of `nodes` or `topics`.
pub record Row : Type 0 where
  pub names : Text × Text
  pub refreshed_at : ℕ

pub record GraphTables : Type 0 where
  pub nodes : List Row
  pub topics : List Row
  pub worker_status : Option Status

Option-discrete {ℓ} : {A : Type ℓ} → Discrete A → Discrete (Option A)
Option-discrete d = hlevel d

pub previous_dec : Discrete (Option GraphSnapshot)
previous_dec = Option-discrete GraphSnapshot-discrete

pub oid_dec : Discrete (Option ℕ)
oid_dec = Option-discrete ℕ_discrete

-- `snapshot.is_ok_and(|value| previous != Some(value) || previous_extension != Some(oid))`
unfoldable pub is_changed : ℕ → Result Text GraphSnapshot → Option GraphSnapshot → Option ℕ → Bool
is_changed oid (ok value) previous previous_extension =
    not (decide (previous_dec previous (some value)))
    || not (decide (oid_dec previous_extension (some oid)))
is_changed oid (err e) previous previous_extension = false

-- `INSERT INTO … SELECT n, ns, statement_timestamp() FROM unnest(…)`
abbrev pub rows : ℕ → List (Text × Text) → List Row
rows now = map (λ pair. record { names = pair; refreshed_at = now })

-- The names that a table shows.
abbrev pub names_of : List Row → List (Text × Text)
names_of = map (λ (r : Row). r.names)

-- Both tables deleted and filled again.
unfoldable pub replace_rows : ℕ → Result Text GraphSnapshot → GraphTables → GraphTables
replace_rows now (ok value) db = record db {
  nodes = rows now value.nodes;
  topics = rows now value.topics;
}
replace_rows now (err e) db = db

abbrev pub error_of : Result Text GraphSnapshot → Option Text
error_of (ok _) = none
error_of (err e) = some e

-- `persist_snapshot` in one transaction at time `now`: the OID that it returns, and the tables.
unfoldable pub persist_snapshot :
    Option ℕ
    → ℕ
    → ℕ
    → Result Text GraphSnapshot
    → Option GraphSnapshot
    → Option ℕ
    → GraphTables
    → Option ℕ × GraphTables
persist_snapshot none pid now snapshot previous previous_extension db = (none, db)
persist_snapshot (some oid) pid now snapshot previous previous_extension db =
    let changed = is_changed oid snapshot previous previous_extension in
    let written = if changed then replace_rows now snapshot db else db in
    (
      some oid,
      record written {
        worker_status = upsert_status pid now changed (error_of snapshot) db.worker_status;
      },
    )

-- The OID that is returned is the one that was looked up.
pub persist_snapshot-installed :
    (installed : Option ℕ) (pid now : ℕ) (snapshot : Result Text GraphSnapshot)
    (previous : Option GraphSnapshot) (previous_extension : Option ℕ) (db : GraphTables)
    → (persist_snapshot installed pid now snapshot previous previous_extension db).0 ≡ installed
unfolding persist_snapshot
persist_snapshot-installed none pid now snapshot previous previous_extension db = refl
persist_snapshot-installed (some oid) pid now snapshot previous previous_extension db = refl

-- The tables show `snapshot`.
pub record Shows (db : GraphTables) (snapshot : GraphSnapshot) : Type 0 where
  pub nodes_shown : names_of db.nodes ≡ snapshot.nodes
  pub topics_shown : names_of db.topics ≡ snapshot.topics

-- What the worker remembers is what the tables show, if they belong to the extension it remembers.
abbrev pub Mirrors : Option GraphSnapshot → Option ℕ → ℕ → GraphTables → Type 0
Mirrors previous previous_extension oid db =
    (value : GraphSnapshot) → previous ≡ some value → previous_extension ≡ some oid → Shows db value

names_of-rows : (now : ℕ) (pairs : List (Text × Text)) → names_of (rows now pairs) ≡ pairs
names_of-rows now [] = refl
names_of-rows now (p ∷ ps) = ap (λ rest. p ∷ rest) (names_of-rows now ps)

-- The negated test of an inequality.
pub same_of_test {ℓ} :
    {A : Type ℓ} (d : Discrete A) (x y : A) → not (decide (d x y)) ≡ false → x ≡ y
same_of_test d x y h = elim (Bool-cases (decide (d x y))) [
  | inl same ↦ (decide_iff (d x y)).0 same
  | inr other ↦ absurd (ground arith)
]

pub test_of_same {ℓ} :
    {A : Type ℓ} (d : Discrete A) (x y : A) → x ≡ y → not (decide (d x y)) ≡ false
test_of_same d x y e = rw ((decide_iff (d x y)).1 e)

is_changed-false :
    (oid : ℕ) (value : GraphSnapshot) (previous : Option GraphSnapshot)
    (previous_extension : Option ℕ)
    → is_changed oid (ok value) previous previous_extension ≡ false
    → (previous ≡ some value) × (previous_extension ≡ some oid)
unfolding is_changed
is_changed-false oid value previous previous_extension h = (
  same_of_test previous_dec previous (some value) (or_left _ _ h),
  same_of_test oid_dec previous_extension (some oid) (or_right _ _ h),
)

is_changed_same :
    (oid : ℕ) (value : GraphSnapshot) → is_changed oid (ok value) (some value) (some oid) ≡ false
unfolding is_changed
is_changed_same oid value = rw (
  test_of_same previous_dec (some value) (some value) refl,
  test_of_same oid_dec (some oid) (some oid) refl,
)

-- After a successful discovery the tables show the snapshot, whether they were written or left alone,
-- provided that the worker's memory mirrored the tables.
pub persist_snapshot-Shows :
    (oid pid now : ℕ) (value : GraphSnapshot) (previous : Option GraphSnapshot)
    (previous_extension : Option ℕ) (db : GraphTables)
    → Mirrors previous previous_extension oid db
    → Shows (persist_snapshot (some oid) pid now (ok value) previous previous_extension db).1 value
unfolding persist_snapshot replace_rows
persist_snapshot-Shows oid pid now value previous previous_extension db mirror =
    elim (Bool-cases (is_changed oid (ok value) previous previous_extension)) [
      | inl changed ↦ rw changed (record {
        nodes_shown = names_of-rows now value.nodes;
        topics_shown = names_of-rows now value.topics;
      })
      | inr same ↦
          let (p, q) = is_changed-false oid value previous previous_extension same in
          let shown = mirror value p q in
          rw same (record { nodes_shown = shown.nodes_shown; topics_shown = shown.topics_shown })
    ]

-- The time of the last refresh that a status table shows.
abbrev pub last_refresh : Option Status → Option ℕ
last_refresh none = none
last_refresh (some s) = s.last_refreshed

-- The tables after a transaction that wrote nothing but the status.
abbrev pub only_checked : ℕ → ℕ → Option Text → GraphTables → GraphTables
only_checked pid now error db = record db {
  worker_status = some (record {
    worker_pid = pid;
    last_checked = now;
    last_refreshed = last_refresh db.worker_status;
    last_error = error;
  });
}

pub upsert_status_unchanged :
    (pid now : ℕ) (error : Option Text) (status : Option Status)
    → upsert_status pid now false error status
      ≡ some (record {
        worker_pid = pid;
        last_checked = now;
        last_refreshed = last_refresh status;
        last_error = error;
      })
unfolding upsert_status
upsert_status_unchanged pid now error none = refl
upsert_status_unchanged pid now error (some s) = refl

-- A failed discovery, with the extension installed, leaves both tables and the time of their last
-- refresh alone, and records the check and the error.
pub persist_snapshot_failed :
    (oid pid now : ℕ) (e : Text) (previous : Option GraphSnapshot) (previous_extension : Option ℕ)
    (db : GraphTables)
    → persist_snapshot (some oid) pid now (err e) previous previous_extension db
      ≡ (some oid, only_checked pid now (some e) db)
unfolding persist_snapshot is_changed
persist_snapshot_failed oid pid now e previous previous_extension db =
    rw (upsert_status_unchanged pid now (some e) db.worker_status)

-- Discovering the remembered graph again, in the same extension, leaves both tables and the time of
-- their last refresh alone, records the check and clears the error.
pub persist_snapshot_again :
    (oid pid now : ℕ) (value : GraphSnapshot) (db : GraphTables)
    → persist_snapshot (some oid) pid now (ok value) (some value) (some oid) db
      ≡ (some oid, only_checked pid now none db)
unfolding persist_snapshot
persist_snapshot_again oid pid now value db =
    rw (is_changed_same oid value, upsert_status_unchanged pid now none db.worker_status)
