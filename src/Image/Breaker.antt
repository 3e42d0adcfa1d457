-- ===== src/Image/Breaker.antt =====
-- crates/image/src/breaker.rs: the circuit breaker of the external image converter.
-- The mutex makes each method one step; an `Instant` is a number, an argument of each call.
pub mod Pool
pub mod Phases
pub mod Streak
use y4p.Prelude.{
  ℕ, zero, suc, ◌+◌, ◌%◌, ◌^◌, min, Bool, true, false, Option, none, some, leb, ◌==◌, if◌then◌else◌,
}

pub data BreakerState : Type 0 where
  closed opened half_open : BreakerState

pub data Inner : Type 0 where
  closed : ℕ → Inner  -- failures, a u32
  opened : ℕ → Inner  -- until
  half_open : Bool → Inner  -- probe_in_flight

pub record CircuitBreaker : Type 0 where
  pub inner : Inner
  pub threshold : ℕ  -- u32
  pub cooldown : ℕ

pub data Outcome : Type 0 where
  success failure neutral : Outcome

pub data PermitOutcome : Type 0 where
  success failure release : PermitOutcome

-- The permit's breaker is the one that the call is handed.
pub record Permit : Type 0 where
  pub canary : Bool
  pub resolved : Bool

unfoldable pub new : ℕ → ℕ → CircuitBreaker
new threshold cooldown = record {
  inner = closed 0;
  threshold = if threshold == 0 then 1 else threshold;
  cooldown = cooldown;
}

state_of : Inner → BreakerState
state_of (Inner.closed failures) = BreakerState.closed
state_of (Inner.opened until) = BreakerState.opened
state_of (Inner.half_open probe) = BreakerState.half_open

unfoldable pub state : CircuitBreaker → BreakerState
unfolding state_of
state b = state_of b.inner

unfoldable pub new_permit : Bool → Permit
new_permit canary = record { canary = canary; resolved = false }

acquire_inner : Inner → ℕ → Inner × Option Permit
unfolding new_permit
acquire_inner (closed failures) now = (closed failures, some (new_permit false))
acquire_inner (opened until) now =
    if leb until now then (half_open true, some (new_permit true)) else (opened until, none)
acquire_inner (half_open false) now = (half_open true, some (new_permit true))
acquire_inner (half_open true) now = (half_open true, none)

unfoldable pub acquire_at : CircuitBreaker → ℕ → CircuitBreaker × Option Permit
unfolding acquire_inner
acquire_at b now = let (i, p) = acquire_inner b.inner now in (record b { inner = i }, p)

abbrev pub u32_mod : ℕ
u32_mod = 4294967296

-- `failures.saturating_add(1)` in a u32.
saturating_succ : ℕ → ℕ
saturating_succ n = min (n + 1) 4294967295

-- The match of `resolve`: the new state and `(tripped, recovered)`. The last clause is `_ => {}`.
resolve_inner : ℕ → ℕ → Inner → Bool → Outcome → ℕ → Inner × (Bool × Bool)
unfolding saturating_succ
resolve_inner threshold cooldown (closed failures) false success now = (closed 0, (false, false))
resolve_inner threshold cooldown (closed failures) false neutral now =
    (closed failures, (false, false))
resolve_inner threshold cooldown (closed failures) false failure now =
    if leb threshold (saturating_succ failures)
    then (opened (now + cooldown), (true, false))
    else (closed ((failures + 1) % u32_mod), (false, false))
resolve_inner threshold cooldown (half_open true) true success now = (closed 0, (false, true))
resolve_inner threshold cooldown (half_open true) true failure now =
    (opened (now + cooldown), (true, false))
resolve_inner threshold cooldown (half_open true) true neutral now =
    (half_open false, (false, false))
resolve_inner threshold cooldown inner canary outcome now = (inner, (false, false))

unfoldable pub resolve : CircuitBreaker → Bool → Outcome → ℕ → CircuitBreaker × (Bool × Bool)
unfolding resolve_inner
resolve b canary outcome now =
    let (i, r) = resolve_inner b.threshold b.cooldown b.inner canary outcome now in
    (record b { inner = i }, r)

-- `Drop for Permit`.
unfoldable pub drop_permit : CircuitBreaker → Permit → ℕ → CircuitBreaker
unfolding resolve
drop_permit b p now = if p.resolved then b else (resolve b p.canary failure now).0

-- `finish` marks the permit resolved, so that dropping it at the end does nothing.
unfoldable pub finish : CircuitBreaker → Permit → Outcome → ℕ → CircuitBreaker × (Bool × Bool)
unfolding resolve drop_permit
finish b p outcome now =
    let (b', r) = resolve b p.canary outcome now in
    (drop_permit b' (record p { resolved = true }) now, r)

internal : PermitOutcome → Outcome
internal PermitOutcome.success = Outcome.success
internal PermitOutcome.failure = Outcome.failure
internal PermitOutcome.release = Outcome.neutral

unfoldable pub resolve_at :
    CircuitBreaker → Permit → PermitOutcome → ℕ → CircuitBreaker × (Bool × Bool)
unfolding internal finish
resolve_at b p outcome now = finish b p (internal outcome) now

-- `Permit::success`, `failure_at` and `release`.
unfoldable pub report_success : CircuitBreaker → Permit → ℕ → CircuitBreaker × Bool
unfolding finish
report_success b p now = let (b', r) = finish b p success now in (b', r.1)

unfoldable pub failure_at : CircuitBreaker → Permit → ℕ → CircuitBreaker × Bool
unfolding finish
failure_at b p now = let (b', r) = finish b p failure now in (b', r.0)

unfoldable pub release_permit : CircuitBreaker → Permit → ℕ → CircuitBreaker
unfolding finish
release_permit b p now = (finish b p neutral now).0
