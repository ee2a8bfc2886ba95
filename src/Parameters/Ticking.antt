-- ===== src/Parameters/Ticking.antt =====
-- src/parameters.rs: what `tick` keeps of the poll, and which rows it returns.
use mathlib.Core.Path.{subst}
use pg_ros.Base.{
  ℕ, ◌≡◌, ◌≢◌, ap, sym, ◌∙◌, Option, none, some, List, [], map, length, Text, Result, ok, err,
  arith,
}
use pg_ros.Base.Distinct.{Distinct}
use pg_ros.Parameters.Value.{JsonMacro, Parameter}
use pg_ros.Parameters.Poll.{
  Fault, failed, panicked, Peer, Stage, ready, listing, getting, Poll, Answers,
}
use pg_ros.Parameters.Tick.{tick}
use pg_ros.Parameters.Keys.{row_key, peer_key, asked_keys, asked_keys-Distinct, Sound, gives}
use pg_ros.Parameters.Shapes.{IsShaped, IsWellFormed, stage_names, AreAsked}
use pg_ros.Parameters.Branches.{tick-IsGood}

module _ {L G PL PG V : Type 0} (json : JsonMacro V) (answers : Answers L G PL PG) where
  -- A tick keeps a poll well formed: clients with different names, one promise, one result and one list
  -- of names for each, and no name in a list twice.
  pub tick-IsWellFormed :
      (poll : Poll L G PL PG) → IsWellFormed poll → IsWellFormed (tick json answers poll).0
  tick-IsWellFormed poll (apart, shaped) =
      let good = tick-IsGood json answers poll shaped in
      (
        subst (λ cs. Distinct (map peer_key cs)) (sym good.kept) apart,
        subst (λ cs. IsShaped (length cs) (tick json answers poll).0.stage) (sym good.kept)
            good.shaped,
      )

  asked_keys-Distinct_stage :
      (cs : List (Peer L G)) (stage : Stage PL PG) (n : ℕ)
      → Distinct (map peer_key cs)
      → IsShaped n stage
      → Distinct (asked_keys cs (stage_names stage))
  asked_keys-Distinct_stage cs ready n h k = asked_keys-Distinct cs [] h tt
  asked_keys-Distinct_stage cs (listing pending results) n h k = asked_keys-Distinct cs [] h tt
  asked_keys-Distinct_stage cs (getting pending results names) n h k =
      asked_keys-Distinct cs names h k.3

  Sound-rows :
      (keys : List (Text × Text × Text)) (r : Result Fault (Option (List (Parameter V))))
      (rows : List (Parameter V))
      → Sound (AreAsked keys) r
      → r ≡ ok (some rows)
      → map row_key rows ≡ keys
  Sound-rows keys (ok none) rows (gives h) e = cc
  Sound-rows keys (ok (some found)) rows (gives h) e = ap (map row_key) (ground (arith, sym e)) ∙ h
  Sound-rows keys (err x) rows h e = cc

  -- A tick of a well-formed poll that returns a snapshot returns one row for each client and each of
  -- the names asked from it, in this order, and no two rows with the same node, namespace and name.
  pub tick-Distinct :
      (poll : Poll L G PL PG) (rows : List (Parameter V))
      → IsWellFormed poll
      → (tick json answers poll).1 ≡ ok (some rows)
      → (map row_key rows ≡ asked_keys poll.clients (stage_names poll.stage))
        × Distinct (map row_key rows)
  tick-Distinct poll rows (apart, shaped) e =
      let keys = Sound-rows _ _ rows (tick-IsGood json answers poll shaped).sound e in
      (
        keys,
        subst Distinct (sym keys)
            (asked_keys-Distinct_stage poll.clients poll.stage _ apart shaped),
      )

  Sound-panicked :
      (keys : List (Text × Text × Text)) (r : Result Fault (Option (List (Parameter V))))
      → Sound (AreAsked keys) r
      → r ≢ err panicked
  Sound-panicked keys (ok o) h e = cc
  Sound-panicked keys (err (failed x)) h e = ground (arith, e)
  Sound-panicked keys (err panicked) h e = elim h [ ]

  -- A tick of a well-formed poll panics in none of its `unwrap` calls.
  pub tick-panicked :
      (poll : Poll L G PL PG) → IsWellFormed poll → (tick json answers poll).1 ≢ err panicked
  tick-panicked poll (apart, shaped) =
      Sound-panicked _ _ (tick-IsGood json answers poll shaped).sound
