-- ===== src/Encoding/Output/Fails.antt =====
-- Runs of the writer of src/subscriptions/json.rs that end in an error whatever was written before.
use pg_ros.Base.{ℕ, ◌+◌, List, ◌∷◌, ascii, Result, ok, err, ltb, if◌then◌else◌}
use pg_ros.Encoding.Output.{
  EncodeError, Output, Action, pure, raise, ◌>>◌, continue_with, push, array, array_from,
}

abbrev pub IsError : Result EncodeError (Unit {0}) × Output → Type 0
IsError (ok _, o) = ⊥
IsError (err _, o) = Unit

pub record Fails (m : Action) : Type 0 where
  pub fails : (o : Output) → IsError (m o)

pub Fails-raise : (e : EncodeError) → Fails (raise e)
unfolding raise
Fails-raise e = record { fails = λ o. tt }

continue_with-first :
    (r : Result EncodeError (Unit {0}) × Output) (k : Action)
    → IsError r
    → IsError (continue_with r k)
continue_with-first (ok _, o) k h = absurd h
continue_with-first (err e, o) k h = tt

continue_with-second :
    (r : Result EncodeError (Unit {0}) × Output) (k : Action)
    → Fails k
    → IsError (continue_with r k)
continue_with-second (ok _, o) k h = h.fails o
continue_with-second (err e, o) k h = tt

pub Fails-first : {m : Action} (k : Action) → Fails m → Fails (m >> k)
unfolding ◌>>◌
Fails-first {m} k h = record { fails = λ o. continue_with-first (m o) k (h.fails o) }

pub Fails-second : (m : Action) {k : Action} → Fails k → Fails (m >> k)
unfolding ◌>>◌
Fails-second m {k} h = record { fails = λ o. continue_with-second (m o) k h }

module _ {ℓ} {T : Type ℓ} (encode : T → Action) where
  -- Some element fails.
  pub data FailsSome : List T → Type ℓ where
    at_head : {v : T} {vs : List T} → Fails (encode v) → FailsSome (v ∷ vs)
    in_tail : {v : T} {vs : List T} → FailsSome vs → FailsSome (v ∷ vs)

  Fails-array_from : (index : ℕ) {vs : List T} → FailsSome vs → Fails (array_from index vs encode)
  unfolding array_from
  Fails-array_from index (at_head {vs = vs} h) =
      Fails-second (if ltb 0 index then push (ascii ",") else pure)
        (Fails-first (array_from (index + 1) vs encode) h)
  Fails-array_from index (in_tail {v} h) =
      Fails-second (if ltb 0 index then push (ascii ",") else pure)
        (Fails-second (encode v) (Fails-array_from (index + 1) h))

  pub Fails-array : {vs : List T} → FailsSome vs → Fails (array vs encode)
  unfolding array
  Fails-array h =
      Fails-second (push (ascii "[")) (Fails-first (push (ascii "]")) (Fails-array_from 0 h))
