-- ===== src/Publishing/Loops.antt =====
-- src/publish.rs: `spin_for`, `spin`, `discover`, `wait_for_subscriber` and `flush`. The loops have
-- fuel for their rounds.
use Prim.Native.Nat.{min}
use pg_ros.Base.{
  ℕ, zero, suc, ◌+◌, ◌-◌, ◌*◌, Option, none, some, List, [], ◌∷◌, Text, leb, ◌==◌, if◌then◌else◌,
}
use pg_ros.Base.Actions.{Action, pure, raise, ◌>>=◌}
use pg_ros.Publishing.Rcl.{
  Rcl, PublishError, many_types, no_type, cancelled, out_of_fuel, map_err, described,
}

abbrev ms : ℕ → ℕ
ms n = n * 1_000_000

abbrev pub discovery : ℕ
discovery = ms 5000

abbrev pub matching : ℕ
matching = ms 2000

abbrev pub flush_span : ℕ
flush_span = ms 100

abbrev pub cached_flush_span : ℕ
cached_flush_span = ms 10

abbrev pub spin_span : ℕ
spin_span = ms 100

module _ {W C X N K P : Type 0} (rcl : Rcl W C X N K P) where
  -- `Instant::now()`, which cannot fail.
  abbrev pub clock : Action W PublishError ℕ
  clock w = let (t, w') = rcl.now w in pure t w'

  unfoldable pub spin_for : X → ℕ → Action W PublishError (Unit {0})
  spin_for executor timeout = do
    u ← map_err cancelled rcl.interrupted
    described (rcl.spin executor timeout)

  unfoldable pub spin : X → Action W PublishError (Unit {0})
  spin executor = spin_for executor spin_span

  -- `types.len() != 1` and `types[0].clone()`.
  abbrev pub unique_type : List Text → Action W PublishError Text
  unique_type [] = raise many_types
  unique_type (kind ∷ []) = pure kind
  unique_type (kind ∷ other ∷ kinds) = raise many_types

  -- A round of `discover` after the graph was read; `again` is the rest of the loop.
  unfoldable pub discover_round :
      X → Text → ℕ → Option (List Text) → Action W PublishError Text → Action W PublishError Text
  discover_round executor topic deadline (some types) again = unique_type types
  discover_round executor topic deadline none again = do
    t ← clock
    λ w. if leb deadline t then raise (no_type topic) w else (spin executor >>= λ u. again) w

  unfoldable pub discover_loop : ℕ → N → Text → X → ℕ → Action W PublishError Text
  discover_loop zero node topic executor deadline = raise out_of_fuel
  discover_loop (suc fuel) node topic executor deadline = do
    topics ← described (rcl.get_topic_names_and_types node)
    discover_round executor topic deadline (topics topic)
        (discover_loop fuel node topic executor deadline)

  unfoldable pub discover_type : ℕ → N → Text → X → Action W PublishError Text
  discover_type fuel node topic executor = do
    t ← clock
    discover_loop fuel node topic executor (t + discovery)

  -- A round of `wait_for_subscriber` after the count was read. `||` reads the clock only if nothing
  -- matched.
  unfoldable pub wait_round :
      X → ℕ → ℕ → Action W PublishError (Unit {0}) → Action W PublishError (Unit {0})
  wait_round executor deadline (suc matched) again = pure tt
  wait_round executor deadline zero again = do
    t ← clock
    λ w. if leb deadline t then pure tt w else (spin executor >>= λ u. again) w

  unfoldable pub wait_loop : ℕ → P → X → ℕ → Action W PublishError (Unit {0})
  wait_loop zero publisher executor deadline = raise out_of_fuel
  wait_loop (suc fuel) publisher executor deadline = do
    matched ← described (rcl.get_subscription_count publisher)
    wait_round executor deadline matched (wait_loop fuel publisher executor deadline)

  unfoldable pub wait_for_subscriber : ℕ → P → X → Action W PublishError (Unit {0})
  wait_for_subscriber fuel publisher executor = do
    t ← clock
    wait_loop fuel publisher executor (t + matching)

  -- A round of `flush` after the clock was read; ℕ's subtraction saturates as the code's does.
  unfoldable pub flush_round :
      X → ℕ → Action W PublishError (Unit {0}) → Action W PublishError (Unit {0})
  flush_round executor remaining again w =
      if remaining == 0
      then pure tt w
      else (spin_for executor (min remaining spin_span) >>= λ u. again) w

  unfoldable pub flush_loop : ℕ → X → ℕ → Action W PublishError (Unit {0})
  flush_loop zero executor deadline = raise out_of_fuel
  flush_loop (suc fuel) executor deadline = do
    t ← clock
    flush_round executor (deadline - t) (flush_loop fuel executor deadline)

  unfoldable pub flush_executor : ℕ → X → ℕ → Action W PublishError (Unit {0})
  flush_executor fuel executor total = do t ← clock; flush_loop fuel executor (t + total)
