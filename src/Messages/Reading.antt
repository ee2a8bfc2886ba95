-- ===== src/Messages/Reading.antt =====
-- src/messages.rs: `read_desired`, which decodes the rows that `reconcile` works on. The query builds a
-- JSON array with an object for each row of the subscriptions; the lookup of the extension and what
-- PostgreSQL answers to the query are arguments. `micros` is `as_f64` of an age, in microseconds.
use mathlib.Core.Logic.{ite}
use native.Mathlib.Decide.{ℕ_discrete}
use pg_ros.Base.{
  ℕ, ◌≡◌, refl, ap, Option, none, some, List, [], ◌∷◌, Text, Text-discrete, ascii, Result, ok, err,
  Bool, true, false, if◌then◌else◌,
}
use pg_ros.Json.{
  Json, Items, Members, null, number, string, array, object, no_items, item, no_members, member,
}
use pg_ros.Messages.Flush.{MessageTables}
use pg_ros.Messages.Reconcile.{Desired, retained, finish_plan, plan_rows, apply_plan, reconcile}

module _ {J : Type 0} where
  abbrev pub get_member : Members J → Text → Option (Json J)
  get_member no_members key = none
  get_member (member name value members) key =
      ite (Text-discrete name key) (some value) (get_member members key)

  -- `Value::get`
  unfoldable pub get_value : Json J → Text → Option (Json J)
  get_value (object members) key = get_member members key
  get_value _ key = none

  -- `and_then(Value::as_str)`
  unfoldable pub as_str : Option (Json J) → Option Text
  as_str (some (string s)) = some s
  as_str _ = none

  module _ (micros : J → Option ℕ) where
    -- `and_then(Value::as_f64).unwrap_or(0.0)`
    abbrev pub age : Option ℕ → ℕ
    age none = 0
    age (some n) = n

    unfoldable pub idle_of : Option (Json J) → ℕ
    idle_of (some (number n)) = age (micros n)
    idle_of _ = 0

    -- The closure of `filter_map`: a row without a topic is left out.
    abbrev pub desired_of : Option Text → Option Text → ℕ → Option Desired
    desired_of none requested idle = none
    desired_of (some topic) requested idle =
        some (record { topic = topic; requested = requested; idle_micros = idle })

    unfoldable pub desired_row : Json J → Option Desired
    desired_row row =
        desired_of (as_str (get_value row (ascii "topic")))
          (as_str (get_value row (ascii "requested_type")))
          (idle_of (get_value row (ascii "idle_seconds")))

    abbrev pub onto : Option Desired → List Desired → List Desired
    onto none rest = rest
    onto (some entry) rest = entry ∷ rest

    unfoldable pub desired_rows : Items J → List Desired
    desired_rows no_items = []
    desired_rows (item row rows) = onto (desired_row row) (desired_rows rows)

    -- What is read of the query's answer.
    unfoldable pub desired_answer : Result Text (Option (Json J)) → Result Text (List Desired)
    desired_answer (err e) = err e
    desired_answer (ok (some (array rows))) = ok (desired_rows rows)
    desired_answer (ok _) = ok []

    unfoldable pub read_desired :
        Option ℕ → Result Text (Option (Json J)) → Result Text (List Desired)
    read_desired none answer = ok []
    read_desired (some oid) answer = desired_answer answer

-- The rows as the query writes them: `jsonb_build_object` with a null for no requested type.
module _ {J : Type 0} (micros : J → Option ℕ) (seconds : ℕ → J) where
  abbrev pub type_json : Option Text → Json J
  type_json none = null
  type_json (some kind) = string kind

  unfoldable pub row_json : Desired → Json J
  row_json entry = object (
      member (ascii "topic") (string entry.topic) (
        member (ascii "requested_type") (type_json entry.requested)
          (member (ascii "idle_seconds") (number (seconds entry.idle_micros)) no_members)))

  unfoldable pub rows_json : List Desired → Items J
  rows_json [] = no_items
  rows_json (entry ∷ desired) = item (row_json entry) (rows_json desired)

  as_str-type_json : (t : Option Text) → as_str (some (type_json t)) ≡ t
  unfolding as_str
  as_str-type_json none = refl
  as_str-type_json (some kind) = refl

  desired_row-row_json :
      (entry : Desired)
      → ((n : ℕ) → micros (seconds n) ≡ some n)
      → desired_row micros (row_json entry) ≡ some entry
  unfolding desired_row row_json get_value as_str idle_of Text-discrete ℕ_discrete
  desired_row-row_json entry h = rw (as_str-type_json entry.requested, h entry.idle_micros) refl

  desired_rows-rows_json :
      (desired : List Desired)
      → ((n : ℕ) → micros (seconds n) ≡ some n)
      → desired_rows micros (rows_json desired) ≡ desired
  unfolding desired_rows rows_json
  desired_rows-rows_json [] h = refl
  desired_rows-rows_json (entry ∷ desired) h =
      rw (desired_row-row_json entry h, desired_rows-rows_json desired h) refl

  -- The rows that the query writes as JSON objects are read as they are, in their order, if the number of
  -- an age reads back.
  pub read_desired-rows_json :
      (oid : ℕ) (desired : List Desired)
      → ((n : ℕ) → micros (seconds n) ≡ some n)
      → read_desired micros (some oid) (ok (some (array (rows_json desired)))) ≡ ok desired
  unfolding read_desired desired_answer
  read_desired-rows_json oid desired h = ap ok (desired_rows-rows_json desired h)

retained-nothing_wanted : {L : Type 0} → (topics : List (Text × L)) → retained [] topics ≡ []
unfolding retained
retained-nothing_wanted [] = refl
retained-nothing_wanted ((t, l) ∷ topics) = retained-nothing_wanted topics

if_same {ℓ} : {A : Type ℓ} → (b : Bool) (a : A) → (if b then a else a) ≡ a
if_same true a = refl
if_same false a = refl

-- Without the extension there are no desired rows, and this is no error: every live subscription is
-- dropped, nothing is subscribed, and no table changes.
pub reconcile-not_installed :
    {J L V : Type 0} (micros : J → Option ℕ)
    (subscribe : Text → Option Text → Result Text (Text × L)) (ttl : ℕ)
    (answer : Result Text (Option (Json J))) (topics : List (Text × L)) (db : MessageTables V)
    → reconcile subscribe ttl none (read_desired micros none answer) topics db ≡ (([], db), ok tt)
unfolding reconcile finish_plan plan_rows apply_plan read_desired
reconcile-not_installed micros subscribe ttl answer topics db =
    rw (retained-nothing_wanted topics, if_same _ db) refl
