-- ===== src/Worker/Backoff.antt =====
-- src/lib.rs: how long a graph may stay empty before the ROS context is rebuilt. Durations are whole
-- seconds. The setting `pg_ros2.ros_reinit_after` is registered with minimum 0, so it is a natural
-- number, and it is read afresh at each call.
use Prim.Native.Nat.{min}
use native.Mathlib.Nat.{pow-suc}
use pg_ros.Base.{
  ℕ, zero, suc, ◌*◌, ◌^◌, ◌<◌, ◌≡◌, ◌∙◌, ap, lt→ltb, Bool, false, Option, none, some, arith, ltb,
  if◌then◌else◌,
}

-- `MAX_REINIT_AFTER`
abbrev pub max_reinit_after : ℕ
max_reinit_after = 600

-- `configured_reinit_after`
unfoldable pub configured_reinit_after : ℕ → Option ℕ
configured_reinit_after seconds = if ltb 0 seconds then some seconds else none

abbrev grow : Option ℕ → ℕ → Option ℕ
grow (some value) configured = some (min (value * 2) max_reinit_after)
grow none configured = some configured

abbrev grow_if : Bool → Option ℕ → Option ℕ → Option ℕ
grow_if saw_graph current none = none
grow_if saw_graph current (some configured) =
    if saw_graph then some configured else grow current configured

-- `next_reinit_after`, with the setting's value at the call.
unfoldable pub next_reinit_after : ℕ → Option ℕ → Bool → Option ℕ
unfolding configured_reinit_after
next_reinit_after setting current saw_graph =
    grow_if saw_graph current (configured_reinit_after setting)

-- The interval after `n` more sessions that discovered nothing, the setting staying as it is.
abbrev pub after_empty : ℕ → ℕ → Option ℕ → Option ℕ
after_empty setting zero current = current
after_empty setting (suc n) current =
    next_reinit_after setting (after_empty setting n current) false

grow_step :
    (setting value : ℕ)
    → 0 < setting
    → next_reinit_after setting (some value) false ≡ some (min (value * 2) max_reinit_after)
unfolding next_reinit_after
grow_step setting value h = ground arith

double_capped :
    (setting n : ℕ)
    → min (min (setting * 2 ^ n) max_reinit_after * 2) max_reinit_after
      ≡ min (setting * 2 ^ suc n) max_reinit_after
double_capped setting n = omega (arith, pow-suc 2 n, ap (λ (t : ℕ). setting * t) (pow-suc 2 n))

-- From the configured interval on, it doubles with each session that discovers nothing and never
-- exceeds ten minutes; that also caps a configured interval of more than ten minutes.
pub after_empty_lem :
    (setting n : ℕ)
    → 0 < setting
    → after_empty setting (suc n) (configured_reinit_after setting)
      ≡ some (min (setting * 2 ^ suc n) max_reinit_after)
unfolding configured_reinit_after
after_empty_lem setting zero h = rw (lt→ltb 0 setting h) (grow_step setting setting h)
after_empty_lem setting (suc n) h =
    ap (λ current. next_reinit_after setting current false) (after_empty_lem setting n h)
    ∙ grow_step setting (min (setting * 2 ^ suc n) max_reinit_after) h
    ∙ ap some (double_capped setting (suc n))
