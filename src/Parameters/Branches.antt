-- ===== src/Parameters/Branches.antt =====
-- src/parameters.rs: every branch of `tick` keeps the shape of the poll and returns the rows asked for.
use mathlib.Core.Path.{subst}
use pg_ros.Base.{
  ◌≡◌, refl, sym, ◌∙◌, Bool, true, false, Option, some, List, map, length, length-map, All, Text,
  Result, ok, err, Ensures, holds, rejected, Bool-cases, inl, inr, leb,
}
use pg_ros.Base.Distinct.{Distinct}
use pg_ros.Parameters.Value.{ParameterValue, JsonMacro}
use pg_ros.Parameters.Poll.{
  Fault, failed, panicked, all_some, collect_responses, sorted_names, Stage, ready, listing,
  getting, Poll, Answers, all_ready,
}
use pg_ros.Parameters.Tick.{
  Ticked, list_called, ready_checked, tick_ready, get_called, ask_values, listed, tick_listing, got,
  tick_getting, tick_stage, tick,
}
use pg_ros.Parameters.Keys.{
  asked_keys, Sound, gives, fails, Sound-map_ok, length-snapshot_rows, snapshot_rows-Sound,
}
use pg_ros.Parameters.Shapes.{
  IsShaped, stage_names, AreAsked, length-receive, collect_responses-all_some, take_all-Sound,
  collect_calls-Ensures, sorted_names-Distinct, call_get-Ensures,
}

-- The stage, its kind of list promise written out.
abbrev stage_of :
    {PG : Type 0} (PL : Type 0)
    → List PG
    → List (Option (List ParameterValue))
    → List (List Text)
    → Stage PL PG
stage_of PL pending results names = getting pending results names

module _ {L G PL PG V : Type 0} (json : JsonMacro V) (answers : Answers L G PL PG) where
  -- The clients stay, the stage fits them, and what is returned has the keys that were asked for.
  pub record IsGood (poll : Poll L G PL PG) (keys : List (Text × Text × Text))
      (t : Ticked json answers) : Type 0 where
    pub kept : t.0.clients ≡ poll.clients
    pub shaped : IsShaped (length poll.clients) t.0.stage
    pub sound : Sound (AreAsked keys) t.1

  list_called-IsGood :
      (poll : Poll L G PL PG) (keys : List (Text × Text × Text)) (r : Result Text (List PL))
      → IsShaped (length poll.clients) poll.stage
      → Ensures (λ pending. length pending ≡ length poll.clients) r
      → IsGood poll keys (list_called json answers poll r)
  unfolding list_called
  list_called-IsGood poll keys (ok pending) h (holds e) = record {
    kept = refl;
    shaped = (e, length-map _ poll.clients);
    sound = gives tt;
  }
  list_called-IsGood poll keys (err e) h rejected = record {
    kept = refl;
    shaped = h;
    sound = fails;
  }

  ready_checked-IsGood :
      (poll : Poll L G PL PG) (keys : List (Text × Text × Text)) (r : Result Text Bool)
      → IsShaped (length poll.clients) poll.stage
      → IsGood poll keys (ready_checked json answers poll r)
  unfolding ready_checked
  ready_checked-IsGood poll keys (ok true) h =
      list_called-IsGood poll keys _ h (collect_calls-Ensures _ poll.clients)
  ready_checked-IsGood poll keys (ok false) h = record { kept = refl; shaped = h; sound = gives tt }
  ready_checked-IsGood poll keys (err e) h = record { kept = refl; shaped = h; sound = fails }

  get_called-IsGood :
      (poll : Poll L G PL PG) (keys : List (Text × Text × Text)) (pending : List PL)
      (results : List (Option (List Text))) (names : List (List Text)) (r : Result Text (List PG))
      → length pending ≡ length poll.clients
      → length results ≡ length poll.clients
      → length names ≡ length poll.clients
      → All Distinct names
      → Ensures (λ calls. length calls ≡ length poll.clients) r
      → IsGood poll keys (get_called json answers poll pending results names r)
  unfolding get_called
  get_called-IsGood poll keys pending results names (ok calls) p q n d (holds e) = record {
    kept = refl;
    shaped = (e, length-map _ poll.clients, n, d);
    sound = gives tt;
  }
  get_called-IsGood poll keys pending results names (err e) p q n d rejected = record {
    kept = refl;
    shaped = (p, length-map _ results ∙ q);
    sound = fails;
  }

  ask_values-IsGood :
      (poll : Poll L G PL PG) (keys : List (Text × Text × Text)) (pending : List PL)
      (results : List (Option (List Text))) (r : Result Fault (List (List Text)))
      → length pending ≡ length poll.clients
      → length results ≡ length poll.clients
      → Sound (λ lists. length lists ≡ length results) r
      → IsShaped (length poll.clients) poll.stage
      → IsGood poll keys (ask_values json answers poll pending results r)
  unfolding ask_values
  ask_values-IsGood poll keys pending results (ok lists) p q (gives e) h =
      let n = length-map sorted_names lists ∙ e ∙ q in
      get_called-IsGood poll keys pending results (map sorted_names lists) _ p q n
        (sorted_names-Distinct lists)
        (call_get-Ensures answers poll.clients (map sorted_names lists) n)
  ask_values-IsGood poll keys pending results (err (failed e)) p q fails h = record {
    kept = refl;
    shaped = h;
    sound = fails;
  }
  ask_values-IsGood poll keys pending results (err panicked) p q h k = elim h [ ]

  listed-IsGood :
      (poll : Poll L G PL PG) (keys : List (Text × Text × Text)) (pending : List PL)
      (results : List (Option (List Text))) (complete : Result Text Bool)
      → length pending ≡ length poll.clients
      → length results ≡ length poll.clients
      → (complete ≡ ok true → all_some results ≡ true)
      → IsGood poll keys (listed json answers poll pending results complete)
  unfolding listed
  listed-IsGood poll keys pending results (ok true) p q full =
      let good =
        ask_values-IsGood (record poll { stage = listing pending results }) keys pending results _ p
          q (take_all-Sound results (full refl)) (p, q) in
      record { kept = good.kept; shaped = good.shaped; sound = good.sound }
  listed-IsGood poll keys pending results (ok false) p q full = record {
    kept = refl;
    shaped = (p, q);
    sound = gives tt;
  }
  listed-IsGood poll keys pending results (err e) p q full = record {
    kept = refl;
    shaped = (p, q);
    sound = fails;
  }

  got-IsGood :
      (poll : Poll L G PL PG) (pending : List PG) (results : List (Option (List ParameterValue)))
      (names : List (List Text)) (complete : Result Text Bool)
      → IsShaped (length poll.clients) (stage_of PL pending results names)
      → (complete ≡ ok true → all_some results ≡ true)
      → IsGood poll
          (asked_keys poll.clients names)
          (got json answers poll pending results names complete)
  unfolding got
  got-IsGood poll pending results names (ok true) (p, q, n, d) full = record {
    kept = refl;
    shaped = (p, length-snapshot_rows json poll.clients names results ∙ q, n, d);
    sound =
        Sound-map_ok some (snapshot_rows-Sound json poll.clients names results n q (full refl))
          (λ rows k. k);
  }
  got-IsGood poll pending results names (ok false) h full = record {
    kept = refl;
    shaped = h;
    sound = gives tt;
  }
  got-IsGood poll pending results names (err e) h full = record {
    kept = refl;
    shaped = h;
    sound = fails;
  }

  tick_stage-IsGood :
      (poll : Poll L G PL PG) (stage : Stage PL PG)
      → poll.stage ≡ stage
      → IsShaped (length poll.clients) stage
      → IsGood poll
          (asked_keys poll.clients (stage_names stage))
          (tick_stage json answers poll stage)
  unfolding tick_stage tick_ready tick_listing tick_getting collect_responses
  tick_stage-IsGood poll ready e h =
      ready_checked-IsGood poll _ (all_ready answers poll.clients) (subst (IsShaped _) (sym e) h)
  tick_stage-IsGood poll (listing pending results) e (p, q) =
      listed-IsGood poll _ pending _ _ p (length-receive answers.list_recv pending results ∙ q)
        (collect_responses-all_some answers.list_recv pending results)
  tick_stage-IsGood poll (getting pending results names) e (p, q, n, d) =
      got-IsGood poll pending _ names _
        (p, length-receive answers.get_recv pending results ∙ q, n, d)
        (collect_responses-all_some answers.get_recv pending results)

  pub tick-IsGood :
      (poll : Poll L G PL PG)
      → IsShaped (length poll.clients) poll.stage
      → IsGood poll (asked_keys poll.clients (stage_names poll.stage)) (tick json answers poll)
  unfolding tick
  tick-IsGood poll h = elim (Bool-cases (leb poll.deadline answers.now)) [
    | inl late ↦ rw late (record { kept = refl; shaped = h; sound = fails })
    | inr early ↦ rw early (tick_stage-IsGood poll poll.stage refl h)
  ]
