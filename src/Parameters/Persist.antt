-- ===== src/Parameters/Persist.antt =====
-- src/parameters.rs: `persist`. The lookup of the extension is an argument, and equality of JSON values
-- is a parameter, serde_json's.
use mathlib.Core.Bool.{decide}
use pg_ros.Base.{
  ℕ, ◌≡◌, refl, ap, Bool, false, not, ◌||◌, Option, none, some, List, [], ◌∷◌, map, Text, Result,
  ok, err, if◌then◌else◌, Bool-cases, inl, inr, or_left, or_right,
}
use pg_ros.Tables.{Status, upsert_status}
use pg_ros.Parameters.Value.{Parameter}
use pg_ros.Worker.Persist.{oid_dec, same_of_test}

-- A row of `parameters`: the columns of the parameter and the time.
pub record ParameterRow (V : Type 0) : Type 0 where
  pub parameter : Parameter V
  pub refreshed_at : ℕ

pub record ParameterTables (V : Type 0) : Type 0 where
  pub parameters : List (ParameterRow V)
  pub parameter_status : Option Status

-- The parameters that the table shows.
abbrev pub shown_parameters : {V : Type 0} → List (ParameterRow V) → List (Parameter V)
shown_parameters = map (λ row. row.parameter)

-- One `INSERT` for each parameter, into the emptied table.
abbrev pub inserted : {V : Type 0} → ℕ → List (Parameter V) → List (ParameterRow V)
inserted now = map (λ p. record { parameter = p; refreshed_at = now })

shown-inserted :
    {V : Type 0} (now : ℕ) (rows : List (Parameter V)) → shown_parameters (inserted now rows) ≡ rows
shown-inserted now [] = refl
shown-inserted now (p ∷ ps) = ap (λ rest. p ∷ rest) (shown-inserted now ps)

abbrev pub snapshot_error : {V : Type 0} → Result Text (List (Parameter V)) → Option Text
snapshot_error (ok rows) = none
snapshot_error (err e) = some e

module _ {V : Type 0} (same : Discrete (Option (List (Parameter V)))) where
  -- `snapshot.is_ok_and(|value| previous != Some(value) || previous_extension != Some(oid))`
  unfoldable pub is_new :
      ℕ → Result Text (List (Parameter V)) → Option (List (Parameter V)) → Option ℕ → Bool
  is_new oid (ok rows) previous previous_extension =
      not (decide (same previous (some rows)))
      || not (decide (oid_dec previous_extension (some oid)))
  is_new oid (err e) previous previous_extension = false

  unfoldable pub replace_parameters :
      ℕ → Result Text (List (Parameter V)) → ParameterTables V → ParameterTables V
  replace_parameters now (ok rows) db = record db { parameters = inserted now rows }
  replace_parameters now (err e) db = db

  -- `persist` in one transaction at time `now`: the OID that it returns, and the tables.
  unfoldable pub persist :
      Option ℕ
      → ℕ
      → ℕ
      → Result Text (List (Parameter V))
      → Option (List (Parameter V))
      → Option ℕ
      → ParameterTables V
      → Option ℕ × ParameterTables V
  persist none pid now snapshot previous previous_extension db = (none, db)
  persist (some oid) pid now snapshot previous previous_extension db =
      let changed = is_new oid snapshot previous previous_extension in
      let written = if changed then replace_parameters now snapshot db else db in
      (
        some oid,
        record written {
          parameter_status =
              upsert_status pid now changed (snapshot_error snapshot) db.parameter_status;
        },
      )

  -- After a successful poll the table shows the snapshot, whether it was written or left alone, if what
  -- the worker remembers for this extension is what the table showed.
  pub persist-shown :
      (oid pid now : ℕ) (rows : List (Parameter V)) (previous : Option (List (Parameter V)))
      (previous_extension : Option ℕ) (db : ParameterTables V)
      → (previous ≡ some rows
          → previous_extension ≡ some oid
          → shown_parameters db.parameters ≡ rows)
      → shown_parameters
          (persist (some oid) pid now (ok rows) previous previous_extension db).1.parameters
        ≡ rows
  unfolding persist replace_parameters is_new
  persist-shown oid pid now rows previous previous_extension db mirror =
      elim (Bool-cases (is_new oid (ok rows) previous previous_extension)) [
        | inl changed ↦ rw changed (shown-inserted now rows)
        | inr kept ↦ rw kept (
            mirror (same_of_test same previous (some rows) (or_left _ _ kept))
              (same_of_test oid_dec previous_extension (some oid) (or_right _ _ kept)))
      ]
