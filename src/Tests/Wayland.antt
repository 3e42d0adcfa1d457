-- ===== src/Tests/Wayland.antt =====
-- Runs of crates/wayland/src/ingest.rs, and its properties at one input.
use y4p.Prelude.{ℕ, ◌≤◌, ◌≡◌, refl, false, List, [], ◌∷◌, arith}
use y4p.Wayland.Ingest.{
  new, World, Event, turn, give_back, run, new_gate, GateEvent, gate_turn, leave, gate_run, queued,
  sent, full, Round, finished, enqueue_bounded,
}
use y4p.Wayland.Ingest.Bounds.{Inv, total, reserved_bytes_bounded, readers_bounded}
use y4p.Wayland.Ingest.Permits.{Permits}
use y4p.Wayland.Ingest.Queue.{held_apart, enqueue_bounded-Inv}

-- A reservation, one that does not fit, one that lost a race, and the first one given back.
abbrev crowd : List Event
crowd = turn false 0 7 ∷ turn false 7 4 ∷ turn false 0 2 ∷ turn false 7 2 ∷ give_back 1 ∷ []

crowd_counted : (run (record { budget = new 10; permits = [] }) crowd).budget.used ≡ 2
unfolding run
crowd_counted = refl

reserved_bytes_bounded_example :
    ((run (record { budget = new 10; permits = [] }) crowd).budget.used
      ≡ total (run (record { budget = new 10; permits = [] }) crowd).permits)
    × (total (run (record { budget = new 10; permits = [] }) crowd).permits ≤ 10)
reserved_bytes_bounded_example = reserved_bytes_bounded 10 crowd (omega arith)

abbrev visitors : List GateEvent
visitors = gate_turn false 0 ∷ gate_turn false 1 ∷ gate_turn false 2 ∷ leave ∷ []

readers_bounded_example :
    ((gate_run (new_gate 2, 0) visitors).0.active ≡ (gate_run (new_gate 2, 0) visitors).1)
    × ((gate_run (new_gate 2, 0) visitors).1 ≤ 2)
readers_bounded_example = readers_bounded 2 visitors (omega arith)

-- A full queue first, then a free slot.
abbrev two_rounds : List Round
two_rounds =
    record {
      attempts = record { others = []; spurious = false } ∷ [];
      others = [];
      answer = full;
      spent = false;
    }
    ∷ record { attempts = []; others = turn false 4 1 ∷ []; answer = sent; spent = false }
    ∷ []

abbrev fresh : World
fresh = record { budget = new 10; permits = [] }

two_rounds_queued : (enqueue_bounded 4 two_rounds fresh).1 ≡ finished queued
unfolding enqueue_bounded
two_rounds_queued = refl

-- The other threads reserve one byte at a time.
abbrev IsOne : ℕ → Type 0
IsOne n = n ≡ 1

enqueue_bounded-Inv_example :
    Inv
      (held_apart 4 (enqueue_bounded 4 two_rounds fresh).1)
      10
      (enqueue_bounded 4 two_rounds fresh).0
    × Permits IsOne 4 (enqueue_bounded 4 two_rounds fresh)
enqueue_bounded-Inv_example =
    enqueue_bounded-Inv IsOne 10 4 two_rounds fresh (omega arith)
      (record { exact = refl; within = omega arith; same_limit = refl }) tt
      ((((tt, tt), tt)), ((tt, (refl, tt)), tt))
