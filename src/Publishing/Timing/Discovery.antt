-- ===== src/Publishing/Timing/Discovery.antt =====
-- `discover` and `wait_for_subscriber` of src/publish.rs end, and say what was the case.
use pg_ros.Base.{
  ℕ, zero, suc, ◌+◌, ◌-◌, ◌≤◌, ◌<◌, ◌≡◌, ◌≢◌, ◌⊎◌, Option, none, some, List, [], ◌∷◌, Text, leb,
  arith, Bool-cases, inl, inr, sym, ap, length,
}
use pg_ros.Base.Actions.{Action, Ends, returned, raised, Ends-continue, Ends-weaken}
use pg_ros.ErrorText.{describe}
use pg_ros.Publishing.Rcl.{
  Rcl, PublishError, invalid_name, failed, bad_message, many_types, no_type, unresolved, cancelled,
  out_of_fuel,
}
use pg_ros.Publishing.Loops.{
  spin, spin_span, unique_type, discover_round, discover_loop, discover_type, discovery, wait_round,
  wait_loop, wait_for_subscriber, matching,
}
use pg_ros.Publishing.Timing.{Facts, IsWorld, IsOutside, Stops, Stops-with_error, spin_for-Stops}

module _ {W C X N K P : Type 0} (rcl : Rcl W C X N K P) (facts : Facts W P)
    (laws : IsWorld rcl facts) where
  spin-Stops :
      (executor : X) (w : W)
      → Stops (λ u w'. facts.elapsed w < facts.elapsed w') (spin rcl executor w)
  unfolding spin
  spin-Stops executor w = spin_for-Stops rcl facts laws executor spin_span w (omega arith)

  -- The publisher has a subscriber, or the time is over.
  abbrev Waited : P → ℕ → Unit {0} → W → Type 0
  Waited publisher deadline u w = (0 < facts.subscribers w publisher) ⊎ (deadline ≤ facts.elapsed w)

  wait_round-Stops :
      (executor : X) (publisher : P) (deadline n : ℕ) (again : Action W PublishError (Unit {0}))
      (w : W)
      → n ≡ facts.subscribers w publisher
      → ((w' : W)
          → facts.elapsed w < facts.elapsed w'
          → facts.elapsed w < deadline
          → Stops (Waited publisher deadline) (again w'))
      → Stops (Waited publisher deadline) (wait_round rcl executor deadline n again w)
  unfolding wait_round
  wait_round-Stops executor publisher deadline (suc n) again w e rest = returned (inl (omega arith))
  wait_round-Stops executor publisher deadline zero again w e rest =
      let t = (rcl.now w).0 in
      let w' = (rcl.now w).1 in
      let reads : t ≡ facts.elapsed w' = laws.now_reads w in
      let later = laws.now_later w in
      elim (Bool-cases (leb deadline t)) [
        | inl over ↦ rw over (returned (inr (ground (arith, over, reads))))
        | inr left ↦ rw left (
            Ends-continue (spin-Stops executor w')
              λ u w'' l. rest w'' (omega (arith, l, later)) (ground (arith, left, reads, later)))
      ]

  wait_loop-Stops :
      (fuel : ℕ) (publisher : P) (executor : X) (deadline : ℕ) (w : W)
      → deadline - facts.elapsed w < fuel
      → Stops (Waited publisher deadline) (wait_loop rcl fuel publisher executor deadline w)
  unfolding wait_loop
  wait_loop-Stops zero publisher executor deadline w h = absurd (omega arith)
  wait_loop-Stops (suc fuel) publisher executor deadline w h =
      Ends-continue
        (Stops-with_error (λ e. failed (describe e)) (λ e. tt) (laws.count_read publisher w))
        λ n w' counted. wait_round-Stops executor publisher deadline n _ w' counted.1 λ w'' l early.
          wait_loop-Stops fuel publisher executor deadline w'' (omega (arith, l, early, counted.0))

  -- With more fuel than two seconds, `wait_for_subscriber` ends by itself, and if no call failed, then
  -- a subscription matched or two seconds have passed.
  pub wait_for_subscriber-Stops :
      (fuel : ℕ) (publisher : P) (executor : X) (w : W)
      → matching < fuel
      → Stops
          (λ u w'.
            (0 < facts.subscribers w' publisher) ⊎ (facts.elapsed w + matching ≤ facts.elapsed w'))
          (wait_for_subscriber rcl fuel publisher executor w)
  unfolding wait_for_subscriber
  wait_for_subscriber-Stops fuel publisher executor w h =
      let later = laws.now_later w in
      let reads = laws.now_reads w in
      Ends-weaken
        (wait_loop-Stops fuel publisher executor ((rcl.now w).0 + matching) (rcl.now w).1
          (omega arith))
        (λ u w' l. elim l [ inl m ↦ inl m | inr late ↦ inr (omega arith) ]) (λ e w' l. l)

  -- What `discover` found when it returned.
  abbrev pub IsUnique : Text → Text → W → Type 0
  IsUnique topic kind w = facts.advertised w topic ≡ some (kind ∷ [])

  -- Why `discover` failed: the time is over, the graph has another number of types for the topic, or a
  -- call failed.
  abbrev pub Undiscovered : Text → ℕ → PublishError → W → Type 0
  Undiscovered topic deadline (no_type topic') w = deadline ≤ facts.elapsed w
  Undiscovered topic deadline many_types w =
      (types : List Text) × (facts.advertised w topic ≡ some types) × (length types ≢ 1)
  Undiscovered topic deadline e w = IsOutside e

  Outside-Undiscovered :
      (topic : Text) (deadline : ℕ) (e : PublishError) (w : W)
      → IsOutside e
      → Undiscovered topic deadline e w
  Outside-Undiscovered topic deadline (failed text) w h = h
  Outside-Undiscovered topic deadline (cancelled text) w h = h
  Outside-Undiscovered topic deadline (no_type topic') w h = absurd h
  Outside-Undiscovered topic deadline many_types w h = absurd h
  Outside-Undiscovered topic deadline (invalid_name e) w h = h
  Outside-Undiscovered topic deadline (bad_message e) w h = h
  Outside-Undiscovered topic deadline (unresolved e) w h = h
  Outside-Undiscovered topic deadline out_of_fuel w h = h

  Undiscovered-earlier :
      (topic : Text) (deadline earlier : ℕ)
      → earlier ≤ deadline
      → (e : PublishError) (w : W) → Undiscovered topic deadline e w
      → Undiscovered topic earlier e w
  Undiscovered-earlier topic deadline earlier l (no_type topic') w h = omega arith
  Undiscovered-earlier topic deadline earlier l (failed text) w h = h
  Undiscovered-earlier topic deadline earlier l (cancelled text) w h = h
  Undiscovered-earlier topic deadline earlier l many_types w h = h
  Undiscovered-earlier topic deadline earlier l (invalid_name e) w h = h
  Undiscovered-earlier topic deadline earlier l (bad_message e) w h = h
  Undiscovered-earlier topic deadline earlier l (unresolved e) w h = h
  Undiscovered-earlier topic deadline earlier l out_of_fuel w h = h

  unique_type-Ends :
      (topic : Text) (deadline : ℕ) (types : List Text) (w : W)
      → some types ≡ facts.advertised w topic
      → Ends (IsUnique topic) (Undiscovered topic deadline) (unique_type rcl types w)
  unique_type-Ends topic deadline [] w e = raised ([], sym e, λ n. omega arith)
  unique_type-Ends topic deadline (kind ∷ []) w e = returned (sym e)
  unique_type-Ends topic deadline (kind ∷ other ∷ kinds) w e =
      raised (kind ∷ other ∷ kinds, sym e, λ n. omega arith)

  discover_round-Ends :
      (executor : X) (topic : Text) (deadline : ℕ) (found : Option (List Text))
      (again : Action W PublishError Text) (w : W)
      → found ≡ facts.advertised w topic
      → ((w' : W)
          → facts.elapsed w < facts.elapsed w'
          → facts.elapsed w < deadline
          → Ends (IsUnique topic) (Undiscovered topic deadline) (again w'))
      → Ends
          (IsUnique topic)
          (Undiscovered topic deadline)
          (discover_round rcl executor topic deadline found again w)
  unfolding discover_round
  discover_round-Ends executor topic deadline (some types) again w e rest =
      unique_type-Ends topic deadline types w e
  discover_round-Ends executor topic deadline none again w e rest =
      let t = (rcl.now w).0 in
      let w' = (rcl.now w).1 in
      let reads : t ≡ facts.elapsed w' = laws.now_reads w in
      let later = laws.now_later w in
      elim (Bool-cases (leb deadline t)) [
        | inl over ↦ rw over (raised (ground (arith, over, reads)))
        | inr left ↦ rw left (
            Ends-continue
              (Ends-weaken (spin-Stops executor w') (λ u w'' l. l)
                (Outside-Undiscovered topic deadline))
              λ u w'' l. rest w'' (omega (arith, l, later)) (ground (arith, left, reads, later)))
      ]

  discover_loop-Ends :
      (fuel : ℕ) (node : N) (topic : Text) (executor : X) (deadline : ℕ) (w : W)
      → deadline - facts.elapsed w < fuel
      → Ends
          (IsUnique topic)
          (Undiscovered topic deadline)
          (discover_loop rcl fuel node topic executor deadline w)
  unfolding discover_loop
  discover_loop-Ends zero node topic executor deadline w h = absurd (omega arith)
  discover_loop-Ends (suc fuel) node topic executor deadline w h =
      Ends-continue
        (Ends-weaken
          (Stops-with_error (λ e. failed (describe e)) (λ e. tt) (laws.topics_read node w))
          (λ topics w' l. l) (Outside-Undiscovered topic deadline))
        λ topics w' read.
          discover_round-Ends executor topic deadline (topics topic) _ w'
            (ap (λ (f : Text → Option (List Text)). f topic) read.1)
            λ w'' l early.
              discover_loop-Ends fuel node topic executor deadline w''
                (omega (arith, l, early, read.0))

  -- With more fuel than five seconds, `discover` ends by itself: with the only type that the graph has
  -- for the topic at that time, or because the graph has another number of types for it, or after five
  -- seconds, or with the error of a call.
  pub discover_type-Ends :
      (fuel : ℕ) (node : N) (topic : Text) (executor : X) (w : W)
      → discovery < fuel
      → Ends
          (λ kind w'. facts.advertised w' topic ≡ some (kind ∷ []))
          (Undiscovered topic (facts.elapsed w + discovery))
          (discover_type rcl fuel node topic executor w)
  unfolding discover_type
  discover_type-Ends fuel node topic executor w h =
      let later = laws.now_later w in
      let reads = laws.now_reads w in
      Ends-weaken
        (discover_loop-Ends fuel node topic executor ((rcl.now w).0 + discovery) (rcl.now w).1
          (omega arith))
        (λ kind w' l. l) (Undiscovered-earlier topic _ _ (omega (arith, later, reads)))
