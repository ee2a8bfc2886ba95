-- ===== src/Parameters/Shapes.antt =====
-- src/parameters.rs: the shape of a poll, and that each loop of `tick` keeps lengths.
use pg_ros.Base.{
  ℕ, suc, ◌≡◌, refl, ap, Bool, true, Option, none, some, List, [], ◌∷◌, map, length, All, Text,
  Result, ok, err, map_ok, Ensures, holds, rejected, Ensures-map_ok, Result-cases, arith, inl, inr,
}
use pg_ros.Base.Order.{le_text-IsOrder, le_text}
use pg_ros.Base.Distinct.{Distinct, dedup-sort-Distinct}
use pg_ros.Parameters.Value.{Parameter}
use pg_ros.Parameters.Poll.{
  collect_calls, take_all, all_some, received, receive, collect_responses, sorted_names, Peer,
  Stage, ready, listing, getting, Poll, Answers, call_get,
}
use pg_ros.Parameters.Keys.{row_key, peer_key, Sound, gives, Sound-map_ok}

-- One promise, one result and one list of names for each client; no name is asked twice.
abbrev pub IsShaped : {PL PG : Type 0} → ℕ → Stage PL PG → Type 0
IsShaped n ready = Unit
IsShaped n (listing pending results) = (length pending ≡ n) × (length results ≡ n)
IsShaped n (getting pending results names) =
    (length pending ≡ n) × (length results ≡ n) × (length names ≡ n) × All Distinct names

abbrev pub IsWellFormed : {L G PL PG : Type 0} → Poll L G PL PG → Type 0
IsWellFormed poll = Distinct (map peer_key poll.clients) × IsShaped (length poll.clients) poll.stage

-- The names that the stage holds for the clients.
abbrev pub stage_names : {PL PG : Type 0} → Stage PL PG → List (List Text)
stage_names ready = []
stage_names (listing pending results) = []
stage_names (getting pending results names) = names

-- Nothing is returned yet, or rows with exactly the keys asked for.
abbrev pub AreAsked :
    {V : Type 0} → List (Text × Text × Text) → Option (List (Parameter V)) → Type 0
AreAsked keys none = Unit
AreAsked keys (some rows) = map row_key rows ≡ keys

pub length-received :
    {T : Type 0} (r : Result Text (Option T)) (results : List (Option T))
    (later : List (Option T) × Result Text (Unit {0}))
    → length later.0 ≡ length results
    → length (received r results later).0 ≡ suc (length results)
length-received (ok t) results later h = ap suc h
length-received (err e) results later h = refl

map_ok-eq-true :
    {A : Type 0} (b : Bool) (r : Result Text A) → map_ok (λ _. b) r ≡ ok true → b ≡ true
map_ok-eq-true b (ok a) h = cc
map_ok-eq-true b (err e) h = cc

module _ {P T : Type 0} (try_recv : P → Result Text (Option T)) where
  pub length-receive :
      (pending : List P) (results : List (Option T))
      → length (receive try_recv pending results).0 ≡ length results
  unfolding receive
  length-receive [] results = refl
  length-receive (p ∷ ps) [] = refl
  length-receive (p ∷ ps) (some t ∷ results) = ap suc (length-receive ps results)
  length-receive (p ∷ ps) (none ∷ results) =
      length-received (try_recv p) results _ (length-receive ps results)

  -- Whether `collect` reports that every result is there.
  pub collect_responses-all_some :
      (pending : List P) (results : List (Option T))
      → (collect_responses try_recv pending results).1 ≡ ok true
      → all_some (collect_responses try_recv pending results).0 ≡ true
  unfolding collect_responses
  collect_responses-all_some pending results e =
      map_ok-eq-true _ (receive try_recv pending results).1 e

pub take_all-Sound :
    {T : Type 0} (results : List (Option T))
    → all_some results ≡ true
    → Sound (λ values. length values ≡ length results) (take_all results)
take_all-Sound [] h = gives refl
take_all-Sound (none ∷ rs) h = absurd (ground (arith, h))
take_all-Sound (some t ∷ rs) h = Sound-map_ok _ (take_all-Sound rs h) (λ ts e. ap suc e)

pub collect_calls-Ensures :
    {A B : Type 0} (f : A → Result Text B) (xs : List A)
    → Ensures (λ ys. length ys ≡ length xs) (collect_calls f xs)
collect_calls-Ensures f [] = holds refl
collect_calls-Ensures f (x ∷ xs) = elim (Result-cases (f x)) [
  | inl (y, found) ↦ rw found (Ensures-map_ok _ (collect_calls-Ensures f xs) (λ ys e. ap suc e))
  | inr (e, bad) ↦ rw bad rejected
]

pub sorted_names-Distinct : (lists : List (List Text)) → All Distinct (map sorted_names lists)
sorted_names-Distinct [] = tt
sorted_names-Distinct (names ∷ lists) =
    (dedup-sort-Distinct le_text le_text-IsOrder names, sorted_names-Distinct lists)

module _ {L G PL PG : Type 0} (answers : Answers L G PL PG) where
  pub call_get-Ensures :
      (cs : List (Peer L G)) (names : List (List Text))
      → length names ≡ length cs
      → Ensures (λ calls. length calls ≡ length cs) (call_get answers cs names)
  unfolding call_get
  call_get-Ensures [] names e = holds refl
  call_get-Ensures (c ∷ cs) [] e = absurd (ground (arith, e))
  call_get-Ensures (c ∷ cs) (ns ∷ names) e =
      elim (Result-cases (answers.get_call c.get_client ns)) [
        | inl (p, found) ↦
            rw found
              (Ensures-map_ok _ (call_get-Ensures cs names (omega (arith, e))) (λ ps k. ap suc k))
        | inr (x, bad) ↦ rw bad rejected
      ]
