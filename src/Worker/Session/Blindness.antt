-- ===== src/Worker/Session/Blindness.antt =====
-- src/lib.rs: when a session of `run_session` ends to rebuild its ROS context, in terms of the rounds
-- that it went through.
use pg_ros.Base.{ℕ, ◌≡◌, Bool, true, false, ◌||◌, Option, List, [], ◌∷◌}
use pg_ros.Worker.Persist.{GraphTables}
use pg_ros.Worker.Session.{State, Round, discover}
use pg_ros.Worker.Session.Watched.{is_blind, sees_graph}
use pg_ros.Worker.Pass.{Pass, tick_due}
use pg_ros.Parameters.Value.{Parameter}
use pg_ros.Parameters.Persist.{ParameterTables}

module _ {Poll : Type 0} where
  abbrev ends_blind : List (Round Poll) → Bool
  ends_blind [] = false
  ends_blind (round ∷ rounds) = is_blind round

  -- The last rounds are all blind, from the one at time `since` on, whose predecessor, if it has one,
  -- is not blind.
  pub data BlindSince (since : ℕ) : List (Round Poll) → Type 0 where
    starts :
        {rounds : List (Round Poll)} (round : Round Poll)
        → is_blind round ≡ true
        → round.now_empty ≡ since
        → ends_blind rounds ≡ false
        → BlindSince since (round ∷ rounds)
    continues :
        {rounds : List (Round Poll)} (round : Round Poll)
        → is_blind round ≡ true
        → BlindSince since rounds
        → BlindSince since (round ∷ rounds)

  -- Some round of the session found a graph.
  abbrev pub saw_any : List (Round Poll) → Bool
  saw_any [] = false
  saw_any (round ∷ rounds) = sees_graph round || saw_any rounds

module _ {Poll V : Type 0} (same : Discrete (Option (List (Parameter V)))) where
  -- The steps of `run_session` that change its memory: a tick of the parameter poll, if one is running,
  -- and a discovery that goes on. The tables may be changed by others in between. Worker.Steps has the
  -- passes that take these steps.
  pub data Rounds (reinit_after : Option ℕ) (start : State Poll (List (Parameter V)))
      : List (Round Poll) → State Poll (List (Parameter V)) → Type 0 where
    begin : Rounds reinit_after start [] start
    ticked :
        {rounds : List (Round Poll)} {s : State Poll (List (Parameter V))}
        → Rounds reinit_after start rounds s
        → (pass : Pass Poll V) (db : ParameterTables V)
        → Rounds reinit_after start rounds (tick_due same pass s.parameter_poll s db).0
    next :
        {rounds : List (Round Poll)} {s : State Poll (List (Parameter V))}
        → Rounds reinit_after start rounds s
        → (round : Round Poll) (db : GraphTables)
        → Rounds reinit_after start (round ∷ rounds) (discover reinit_after round s db).0
