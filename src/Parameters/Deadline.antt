-- ===== src/Parameters/Deadline.antt =====
-- src/parameters.rs: how long a poll may wait.
use pg_ros.Base.{
  ℕ, suc, ◌+◌, ◌<◌, ◌≡◌, refl, ◌⊎◌, inl, inr, Bool, true, false, Option, none, some, List, Text,
  Result, ok, err, map_ok, arith, Bool-cases, leb,
}
use pg_ros.Parameters.Value.{ParameterValue, JsonMacro, Parameter}
use pg_ros.Parameters.Poll.{Fault, Stage, ready, listing, getting, Poll, Answers}
use pg_ros.Parameters.Tick.{
  Ticked, list_called, ready_checked, tick_ready, get_called, ask_values, listed, tick_listing, got,
  tick_getting, tick_stage, tick,
}

-- The stages in their order.
abbrev pub stage_number : {PL PG : Type 0} → Stage PL PG → ℕ
stage_number ready = 0
stage_number (listing pending results) = 1
stage_number (getting pending results names) = 2

module _ {L G PL PG V : Type 0} (json : JsonMacro V) (answers : Answers L G PL PG) where
  -- The stage and its deadline stay, or the next stage begins with its own deadline.
  abbrev pub Waits : ℕ → ℕ → Ticked json answers → Type 0
  Waits stage deadline t =
      ((stage_number t.0.stage ≡ stage) × (t.0.deadline ≡ deadline))
      ⊎ ((stage_number t.0.stage ≡ suc stage) × (t.0.deadline ≡ answers.restarted + 3000))

  list_called-Waits :
      (poll : Poll L G PL PG) (r : Result Text (List PL))
      → (list_called json answers poll r).1 ≡ ok none
      → Waits 0 poll.deadline (list_called json answers poll r)
  unfolding list_called
  list_called-Waits poll (ok pending) e = inr (refl, refl)
  list_called-Waits poll (err x) e = cc

  ready_checked-Waits :
      (poll : Poll L G PL PG) (r : Result Text Bool)
      → stage_number poll.stage ≡ 0
      → (ready_checked json answers poll r).1 ≡ ok none
      → Waits 0 poll.deadline (ready_checked json answers poll r)
  unfolding ready_checked
  ready_checked-Waits poll (ok true) h e = list_called-Waits poll _ e
  ready_checked-Waits poll (ok false) h e = inl (h, refl)
  ready_checked-Waits poll (err x) h e = cc

  get_called-Waits :
      (poll : Poll L G PL PG) (pending : List PL) (results : List (Option (List Text)))
      (names : List (List Text)) (r : Result Text (List PG))
      → (get_called json answers poll pending results names r).1 ≡ ok none
      → Waits 1 poll.deadline (get_called json answers poll pending results names r)
  unfolding get_called
  get_called-Waits poll pending results names (ok calls) e = inr (refl, refl)
  get_called-Waits poll pending results names (err x) e = cc

  ask_values-Waits :
      (poll : Poll L G PL PG) (pending : List PL) (results : List (Option (List Text)))
      (r : Result Fault (List (List Text)))
      → (ask_values json answers poll pending results r).1 ≡ ok none
      → Waits 1 poll.deadline (ask_values json answers poll pending results r)
  unfolding ask_values
  ask_values-Waits poll pending results (ok lists) e = get_called-Waits poll pending results _ _ e
  ask_values-Waits poll pending results (err x) e = cc

  listed-Waits :
      (poll : Poll L G PL PG) (pending : List PL) (results : List (Option (List Text)))
      (r : Result Text Bool)
      → (listed json answers poll pending results r).1 ≡ ok none
      → Waits 1 poll.deadline (listed json answers poll pending results r)
  unfolding listed
  listed-Waits poll pending results (ok true) e = ask_values-Waits _ pending results _ e
  listed-Waits poll pending results (ok false) e = inl (refl, refl)
  listed-Waits poll pending results (err x) e = cc

  err-ok :
      (x : Fault) (o : Option (List (Parameter V)))
      → ◌≡◌ {A = Result Fault (Option (List (Parameter V)))} (err x) (ok o)
      → ⊥
  err-ok x o e = cc

  some-none : (r : Result Fault (List (Parameter V))) → map_ok some r ≡ ok none → ⊥
  some-none (ok rows) e = ground (arith, e)
  some-none (err x) e = cc

  got-Waits :
      (poll : Poll L G PL PG) (pending : List PG) (results : List (Option (List ParameterValue)))
      (names : List (List Text)) (r : Result Text Bool)
      → (got json answers poll pending results names r).1 ≡ ok none
      → Waits 2 poll.deadline (got json answers poll pending results names r)
  unfolding got
  got-Waits poll pending results names (ok true) e = absurd (some-none _ e)
  got-Waits poll pending results names (ok false) e = inl (refl, refl)
  got-Waits poll pending results names (err x) e = cc

  tick_stage-Waits :
      (poll : Poll L G PL PG) (stage : Stage PL PG)
      → stage_number poll.stage ≡ stage_number stage
      → (tick_stage json answers poll stage).1 ≡ ok none
      → Waits (stage_number stage) poll.deadline (tick_stage json answers poll stage)
  unfolding tick_stage tick_ready tick_listing tick_getting
  tick_stage-Waits poll ready h e = ready_checked-Waits poll _ h e
  tick_stage-Waits poll (listing pending results) h e = listed-Waits poll pending _ _ e
  tick_stage-Waits poll (getting pending results names) h e = got-Waits poll pending _ names _ e

  -- A tick that goes on waiting came before the deadline, and leaves the poll in its stage with the
  -- same deadline, or in the next of the three stages with a deadline three seconds after it began.
  pub tick-Waits :
      (poll : Poll L G PL PG)
      → (tick json answers poll).1 ≡ ok none
      → (answers.now < poll.deadline)
        × Waits (stage_number poll.stage) poll.deadline (tick json answers poll)
  unfolding tick
  tick-Waits poll e = elim (Bool-cases (leb poll.deadline answers.now)) [
    | inl late ↦ absurd (err-ok _ _ (rw late at e))
    | inr early ↦
        (ground (arith, early), rw early (tick_stage-Waits poll poll.stage refl (rw early at e)))
  ]
