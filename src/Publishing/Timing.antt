-- ===== src/Publishing/Timing.antt =====
-- The loops of src/publish.rs against the clock: they end, and they last as long as they should.
pub mod Discovery
pub mod Run
use Prim.Native.Nat.{min}
use pg_ros.Base.{
  ℕ, zero, suc, ◌+◌, ◌-◌, ◌≤◌, ◌<◌, ◌≡◌, ◌≢◌, Option, none, some, List, [], ◌∷◌, Text, Result, ok,
  err, leb, ◌==◌, arith, Bool-cases, inl, inr, refl,
}
use pg_ros.Base.Actions.{Action, Ends, returned, raised, Ends-continue, Ends-weaken}
use pg_ros.ErrorText.{Error, describe}
use pg_ros.Publishing.Rcl.{Rcl, PublishError, failed, out_of_fuel, cancelled, with_error}
use pg_ros.Publishing.Loops.{
  spin_for, spin, spin_span, unique_type, discover_round, discover_loop, discover_type, discovery,
  wait_round, wait_loop, wait_for_subscriber, matching, flush_round, flush_loop, flush_executor,
}

-- What is the case in a world: the time, the types of each topic in the graph, and how many
-- subscriptions a publisher is matched with.
pub record Facts (W P : Type 0) : Type 0 where
  pub elapsed : W → ℕ
  pub advertised : W → Text → Option (List Text)
  pub subscribers : W → P → ℕ

-- The calls that the loops make report the facts, and time does not run backwards in them. A spin that
-- returns without an error took some time if its timeout is not zero.
pub record IsWorld {W C X N K P : Type 0} (rcl : Rcl W C X N K P) (facts : Facts W P) : Type 0 where
  pub now_reads : (w : W) → (rcl.now w).0 ≡ facts.elapsed (rcl.now w).1
  pub now_later : (w : W) → facts.elapsed w ≤ facts.elapsed (rcl.now w).1
  pub interrupted_later : (w : W) → facts.elapsed w ≤ facts.elapsed (rcl.interrupted w).1
  pub topics_read :
      (node : N) (w : W)
      → Ends
          (λ topics w'. (facts.elapsed w ≤ facts.elapsed w') × (topics ≡ facts.advertised w'))
          (λ e w'. Unit {0})
          (rcl.get_topic_names_and_types node w)
  pub count_read :
      (publisher : P) (w : W)
      → Ends
          (λ n w'. (facts.elapsed w ≤ facts.elapsed w') × (n ≡ facts.subscribers w' publisher))
          (λ e w'. Unit {0})
          (rcl.get_subscription_count publisher w)
  pub spin_lasts :
      (executor : X) (timeout : ℕ) (w : W)
      → 0 < timeout
      → Ends
          (λ u w'. facts.elapsed w < facts.elapsed w')
          (λ e w'. Unit {0})
          (rcl.spin executor timeout w)

-- An error of a call, or a cancellation: not one that the loops raise themselves.
abbrev pub IsOutside : PublishError → Type 0
IsOutside (failed text) = Unit
IsOutside (cancelled text) = Unit
IsOutside _ = ⊥

-- `Good` of what an action returns; it raises no error of its own.
abbrev pub Stops : {W A : Type 0} → (A → W → Type 0) → Result PublishError A × W → Type 0
Stops Good = Ends Good (λ e w. IsOutside e)

-- An error of the world is none of the loops' own.
pub Stops-with_error :
    {W A E : Type 0} {Good : A → W → Type 0} {Bad : E → W → Type 0} {r : Result E A × W}
    (f : E → PublishError)
    → ((e : E) → IsOutside (f e))
    → Ends Good Bad r
    → Stops Good (with_error f r)
Stops-with_error f h (returned g) = returned g
Stops-with_error f h (raised b) = raised (h _)

pub Stops-any :
    {W A E : Type 0} (f : E → PublishError) (r : Result E A × W) {Good : W → Type 0}
    → ((e : E) → IsOutside (f e))
    → Good r.1
    → Stops (λ a w. Good w) (with_error f r)
Stops-any f (ok a, w) h g = returned g
Stops-any f (err e, w) h g = raised (h e)

module _ {W C X N K P : Type 0} (rcl : Rcl W C X N K P) (facts : Facts W P)
    (laws : IsWorld rcl facts) where
  abbrev elapsed : W → ℕ
  elapsed = facts.elapsed

  abbrev Since : {A : Type 0} → ℕ → A → W → Type 0
  Since t a w = t ≤ elapsed w

  pub spin_for-Stops :
      (executor : X) (timeout : ℕ) (w : W)
      → 0 < timeout
      → Stops (λ u w'. facts.elapsed w < facts.elapsed w') (spin_for rcl executor timeout w)
  unfolding spin_for
  spin_for-Stops executor timeout w h =
      Ends-continue
        (Stops-any cancelled (rcl.interrupted w) {Good = λ w'. elapsed w ≤ elapsed w'} (λ e. tt)
          (laws.interrupted_later w))
        λ u w' later.
          Stops-with_error (λ e. failed (describe e)) (λ e. tt)
            (Ends-weaken (laws.spin_lasts executor timeout w' h) (λ v w'' l. omega arith)
              (λ e w'' l. l))

  -- A round of `flush`, if the loop after it is right.
  flush_round-Stops :
      (executor : X) (deadline : ℕ) (again : Action W PublishError (Unit {0})) (t : ℕ) (w : W)
      → t ≡ elapsed w
      → ((w' : W) → elapsed w < elapsed w' → t < deadline → Stops (Since deadline) (again w'))
      → Stops (Since deadline) (flush_round rcl executor (deadline - t) again w)
  unfolding flush_round
  flush_round-Stops executor deadline again t w e rest = elim (Bool-cases (deadline - t == 0)) [
    | inl over ↦ rw over (returned (ground (arith, over)))
    | inr left ↦ rw left (
        let some_left : 0 < min (deadline - t) spin_span = ground (arith, left) in
        Ends-continue (spin_for-Stops executor (min (deadline - t) spin_span) w some_left)
          λ u w' later. rest w' later (omega arith))
  ]

  flush_loop-Stops :
      (fuel : ℕ) (executor : X) (deadline : ℕ) (w : W)
      → deadline - elapsed w < fuel
      → Stops (Since deadline) (flush_loop rcl fuel executor deadline w)
  unfolding flush_loop
  flush_loop-Stops zero executor deadline w h = absurd (omega arith)
  flush_loop-Stops (suc fuel) executor deadline w h =
      let later = laws.now_later w in
      flush_round-Stops executor deadline _ (rcl.now w).0 (rcl.now w).1 (laws.now_reads w)
        λ w' l early.
          flush_loop-Stops fuel executor deadline w'
            (omega (arith, l, early, later, laws.now_reads w))

  -- With more fuel than its span, `flush` ends by itself, and if no spin failed it has drained the
  -- executor for the whole span.
  pub flush_executor-Stops :
      (fuel : ℕ) (executor : X) (span : ℕ) (w : W)
      → span < fuel
      → Stops
          (λ u w'. facts.elapsed w + span ≤ facts.elapsed w')
          (flush_executor rcl fuel executor span w)
  unfolding flush_executor
  flush_executor-Stops fuel executor span w h =
      let later = laws.now_later w in
      let reads = laws.now_reads w in
      Ends-weaken
        (flush_loop-Stops fuel executor ((rcl.now w).0 + span) (rcl.now w).1 (omega arith))
        (λ u w' l. omega arith) (λ e w' l. l)
