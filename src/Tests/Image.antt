-- ===== src/Tests/Image.antt =====
-- Runs of crates/image/src/breaker.rs and throttle.rs, and their properties at one input.
use y4p.Prelude.{
  ℕ, ◌+◌, ◌≤◌, ◌<◌, ◌≡◌, ◌↔◌, ◌⊎◌, refl, true, false, none, some, List, [], ◌∷◌, ◌++◌, arith,
  length,
}
use y4p.Image.Breaker
use y4p.Image.Breaker.{
  Inner, BreakerState, CircuitBreaker, Permit, PermitOutcome, state, acquire_at, resolve_at,
  drop_permit,
}
use y4p.Image.Breaker.Pool.{Inv, run-start-Inv, canaries}
use y4p.Image.Breaker.Pool
use y4p.Image.Breaker.Phases.{tripped_stays_shut, Cooling, refused_iff, never_wedged}
use y4p.Image.Breaker.Streak.{attempt, attempts, attempts_consecutive}
use y4p.Image.Throttle
use y4p.Image.Throttle.{Answer, acquire_woken}
use y4p.Image.Throttle.Room
use y4p.Image.Throttle.Room.{slots_bounded, capacity_kept, repeat_calls}

-- Three failures trip the breaker; after the cooldown one canary is let out.
abbrev trip : List Pool.Event
trip =
    Pool.asks 0
    ∷ Pool.settles 0 PermitOutcome.failure 1
    ∷ Pool.asks 2
    ∷ Pool.drops 0 3
    ∷ Pool.asks 4
    ∷ Pool.settles 0 PermitOutcome.failure 5
    ∷ Pool.asks 20
    ∷ Pool.asks 35
    ∷ Pool.asks 36
    ∷ []

trip_reached :
    (state (Pool.run (Pool.start 3 30) trip).breaker ≡ BreakerState.half_open)
    × (canaries (Pool.run (Pool.start 3 30) trip).live ≡ 1)
unfolding Pool.run Pool.start Pool.step state Breaker.new
trip_reached = (refl, refl)

run-start-Inv_example : Inv (Pool.run (Pool.start 3 30) trip)
run-start-Inv_example = run-start-Inv 3 30 trip (omega arith)

abbrev two_failures : CircuitBreaker
two_failures = record { inner = Inner.closed 2; threshold = 3; cooldown = 30 }

abbrev regular : Permit
regular = record { canary = false; resolved = false }

third_trips : (resolve_at two_failures regular PermitOutcome.failure 5).1.0 ≡ true
unfolding resolve_at
third_trips = refl

abbrev meanwhile : List Pool.Event
meanwhile = Pool.asks 6 ∷ Pool.settles 0 PermitOutcome.success 7 ∷ Pool.asks 34 ∷ []

tripped_stays_shut_example :
    let s =
      Pool.run
        (record {
          breaker = (resolve_at two_failures regular PermitOutcome.failure 5).0;
          live = regular ∷ [];
        })
        meanwhile in
    (s.breaker.inner ≡ Inner.opened (5 + 30)) × (length s.live ≤ 1)
tripped_stays_shut_example =
    tripped_stays_shut two_failures (regular ∷ []) regular PermitOutcome.failure 5 meanwhile
      third_trips (omega arith)

refused_iff_example : ((acquire_at (Pool.run (Pool.start 3 30) trip).breaker 40).1 ≡ none) ↔ (
    Cooling 40 (Pool.run (Pool.start 3 30) trip).breaker.inner
    ⊎ (canaries (Pool.run (Pool.start 3 30) trip).live ≡ 1))
refused_iff_example = refused_iff 3 30 trip 40 (omega arith)

abbrev dropped : List Pool.Event
dropped = Pool.asks 0 ∷ Pool.drops 0 3 ∷ []

dropped_live : (Pool.run (Pool.start 1 30) dropped).live ≡ []
unfolding Pool.run Pool.start Pool.step Breaker.new
dropped_live = refl

never_wedged_example :
    (t : ℕ) × ((now : ℕ)
      → t ≤ now
      → (p : Permit) × ((acquire_at (Pool.run (Pool.start 1 30) dropped).breaker now).1 ≡ some p))
never_wedged_example = never_wedged 1 30 dropped (omega arith) dropped_live

abbrev start : CircuitBreaker
start = record { inner = Inner.closed 0; threshold = 3; cooldown = 30 }

before_run :
    (attempts start (PermitOutcome.failure ∷ PermitOutcome.failure ∷ []) 9).inner ≡ Inner.closed 2
unfolding attempts attempt
before_run = refl

attempts_consecutive_example :
    let after =
      (attempts start
        ((PermitOutcome.failure ∷ PermitOutcome.failure ∷ [])
          ++ PermitOutcome.success ∷ PermitOutcome.failure ∷ PermitOutcome.release ∷ [])
        9).inner in
    (1 < 3 → after ≡ Inner.closed 1) × (3 ≤ 1 → after ≡ Inner.opened (9 + 30))
attempts_consecutive_example =
    attempts_consecutive start (PermitOutcome.failure ∷ PermitOutcome.failure ∷ [])
      (PermitOutcome.failure ∷ PermitOutcome.release ∷ []) 9 2 (omega arith) (omega arith)
      (omega arith) before_run refl

abbrev crowd : List Room.Event
crowd =
    Room.calls 0 ∷ Room.calls 1 ∷ Room.calls 2 ∷ Room.wakes 0 5 ∷ Room.frees ∷ Room.wakes 0 6 ∷ []

crowd_reached : (Room.run (Room.start 2 10) crowd).slots ≡ 2
unfolding Room.run Room.start Room.step Throttle.new
crowd_reached = refl

slots_bounded_example :
    ((Room.run (Room.start 2 10) crowd).throttle.in_use ≡ (Room.run (Room.start 2 10) crowd).slots)
    × ((Room.run (Room.start 2 10) crowd).slots ≤ (Throttle.new 2 10).limit)
    × (0 < (Throttle.new 2 10).limit)
slots_bounded_example = slots_bounded 2 10 crowd
