-- ===== src/Tables.antt =====
-- The parts of the SQL tables that src/lib.rs and src/parameters.rs share: a status table of at most
-- one row. Times are what `statement_timestamp()` returns in the transaction.
use pg_ros.Base.{ℕ, Bool, Option, none, some, Text, if◌then◌else◌}

-- A row of `worker_status` or `parameter_status`.
pub record Status : Type 0 where
  pub worker_pid : ℕ
  pub last_checked : ℕ
  pub last_refreshed : Option ℕ
  pub last_error : Option Text

-- `INSERT … ON CONFLICT (singleton) DO UPDATE`, with `changed` for $1 and `error` for $2.
unfoldable pub upsert_status : ℕ → ℕ → Bool → Option Text → Option Status → Option Status
upsert_status pid now changed error none = some (record {
  worker_pid = pid;
  last_checked = now;
  last_refreshed = if changed then some now else none;
  last_error = error;
})
upsert_status pid now changed error (some s) = some (record {
  worker_pid = pid;
  last_checked = now;
  last_refreshed = if changed then some now else s.last_refreshed;
  last_error = error;
})
