-- ===== src/Wayland/Ingest.antt =====
-- crates/wayland/src/ingest.rs: the bounds of the ingestion path. The counters are shared by
-- threads: one turn of a compare-and-swap loop is a step, with the value `current` that its thread
-- read at some time before, and the interleaving is a list of steps.
pub mod Bounds
pub mod Permits
pub mod Queue
use y4p.Prelude.{
  ℕ, zero, suc, ◌+◌, ◌-◌, ◌%◌, Bool, true, false, ◌&&◌, not, Option, none, some, List, [], ◌∷◌, ltb,
  leb, ◌==◌, if◌then◌else◌,
}

-- `usize` of a 64-bit target.
abbrev pub word : ℕ
word = 18446744073709551616

pub record ByteBudget : Type 0 where
  pub used : ℕ
  pub limit : ℕ

abbrev pub new : ℕ → ByteBudget
new limit = record { used = 0; limit = limit }

-- One turn of the loop of `try_reserve`: refused, reserved, or the value to go on with.
pub data Turn : Type 0 where
  refused : Turn
  reserved : ByteBudget → Turn
  again : ℕ → Turn

-- `compare_exchange_weak` may fail although the value is the expected one: `spurious`.
unfoldable pub try_reserve_turn : Bool → ℕ → ℕ → ByteBudget → Turn
try_reserve_turn spurious current bytes b =
    if ltb (current + bytes) word && leb (current + bytes) b.limit
    then (if not spurious && b.used == current
        then reserved (record { used = current + bytes; limit = b.limit })
        else again b.used)
    else refused

-- `fetch_sub` wraps.
unfoldable pub drop_permit : ℕ → ByteBudget → ByteBudget
drop_permit bytes b = record { used = (b.used + (word - bytes % word)) % word; limit = b.limit }

-- `ReaderGate`, whose permits are all of size 1.
pub record ReaderGate : Type 0 where
  pub active : ℕ
  pub limit : ℕ

abbrev pub new_gate : ℕ → ReaderGate
new_gate limit = record { active = 0; limit = limit }

pub data GateTurn : Type 0 where
  shut : GateTurn
  admitted : ReaderGate → GateTurn
  retry : ℕ → GateTurn

unfoldable pub try_acquire_turn : Bool → ℕ → ReaderGate → GateTurn
try_acquire_turn spurious current g =
    if leb g.limit current
    then shut
    else if not spurious && g.active == current
    then admitted (record { active = current + 1; limit = g.limit })
    else retry g.active

unfoldable pub drop_reader : ReaderGate → ReaderGate
drop_reader g = record { active = (g.active + (word - 1)) % word; limit = g.limit }

-- The budget with the permits that are out, and what any thread may do with it.
pub record World : Type 0 where
  pub budget : ByteBudget
  pub permits : List ℕ

pub data Event : Type 0 where
  turn : Bool → ℕ → ℕ → Event
  give_back : ℕ → Event

-- The permit at a place of the list, and the others.
unfoldable pub keep : ℕ → Option (ℕ × List ℕ) → Option (ℕ × List ℕ)
keep p none = none
keep p (some (q, rest)) = some (q, p ∷ rest)

unfoldable pub pick : ℕ → List ℕ → Option (ℕ × List ℕ)
unfolding keep
pick i [] = none
pick zero (p ∷ ps) = some (p, ps)
pick (suc i) (p ∷ ps) = keep p (pick i ps)

unfoldable pub after_turn : ℕ → World → Turn → World
after_turn bytes w refused = w
after_turn bytes w (again n) = w
after_turn bytes w (reserved b) = record { budget = b; permits = bytes ∷ w.permits }

unfoldable pub after_pick : World → Option (ℕ × List ℕ) → World
unfolding drop_permit
after_pick w none = w
after_pick w (some x) = record { budget = drop_permit x.0 w.budget; permits = x.1 }

unfoldable pub step : World → Event → World
unfolding after_turn after_pick try_reserve_turn pick
step w (turn spurious current bytes) =
    after_turn bytes w (try_reserve_turn spurious current bytes w.budget)
step w (give_back i) = after_pick w (pick i w.permits)

unfoldable pub run : World → List Event → World
unfolding step
run w [] = w
run w (e ∷ es) = run (step w e) es

pub data GateEvent : Type 0 where
  gate_turn : Bool → ℕ → GateEvent
  leave : GateEvent

-- The gate with the number of permits that are out.
unfoldable pub after_gate_turn : ReaderGate × ℕ → GateTurn → ReaderGate × ℕ
after_gate_turn (g, n) shut = (g, n)
after_gate_turn (g, n) (retry k) = (g, n)
after_gate_turn (g, n) (admitted g') = (g', n + 1)

unfoldable pub gate_step : ReaderGate × ℕ → GateEvent → ReaderGate × ℕ
unfolding after_gate_turn try_acquire_turn drop_reader
gate_step (g, n) (gate_turn spurious current) =
    after_gate_turn (g, n) (try_acquire_turn spurious current g)
gate_step (g, zero) leave = (g, zero)
gate_step (g, suc n) leave = (drop_reader g, n)

unfoldable pub gate_run : ReaderGate × ℕ → List GateEvent → ReaderGate × ℕ
unfolding gate_step
gate_run s [] = s
gate_run s (e ∷ es) = gate_run (gate_step s e) es

-- `Enqueue`.
pub data Enqueue : Type 0 where
  queued shed closed : Enqueue

-- The answers of `try_send` of `std::sync::mpsc`.
pub data Sent : Type 0 where
  sent disconnected full : Sent

-- One turn of a loop of `try_reserve`, behind what other threads do before it.
pub record Attempt : Type 0 where
  pub others : List Event
  pub spurious : Bool

-- One round of the loops of `enqueue` and `enqueue_bounded`: the turns of `try_reserve`, what other
-- threads do before the `try_send` and what that answers, and whether the patience is spent.
pub record Round : Type 0 where
  pub attempts : List Attempt
  pub others : List Event
  pub answer : Sent
  pub spent : Bool

-- Where a call is: it has returned, or still polls, with its reservation or without.
pub data Progress : Type 0 where
  finished : Enqueue → Progress
  polling : Bool → Progress

-- `enqueue`, as long as rounds are given.
unfoldable pub enqueue : List Round → Progress
enqueue [] = polling false
enqueue (r ∷ rs) =
    let rest = enqueue rs in
    elim r.answer [
      | sent ↦ finished queued
      | disconnected ↦ finished closed
      | full ↦ if r.spent then finished shed else rest
    ]

-- `try_reserve`: whether it reserved, or `none` while it spins. The permit is held apart from those
-- of the other threads.
unfoldable pub try_reserve : ℕ → ℕ → List Attempt → World → World × Option Bool
unfolding run try_reserve_turn
try_reserve bytes current [] w = (w, none)
try_reserve bytes current (a ∷ rest) w =
    let w' = run w a.others in
    elim (try_reserve_turn a.spurious current bytes w'.budget) [
      | refused ↦ (w', some false)
      | reserved b ↦ (record w' { budget = b }, some true)
      | again n ↦ try_reserve bytes n rest w'
    ]

-- `if job.permit.is_none() { job.permit = budget.try_reserve(bytes) }`.
unfoldable pub secure : ℕ → Bool → List Attempt → World → World × Option Bool
unfolding try_reserve
secure bytes true attempts w = (w, some true)
secure bytes false attempts w = try_reserve bytes w.budget.used attempts w

-- The job in the queue takes its permit along; a job that is dropped gives it back.
abbrev pub hand_over : ℕ → World → World
hand_over bytes w = record w { permits = bytes ∷ w.permits }

unfoldable pub let_go : ℕ → World → World
unfolding drop_permit
let_go bytes w = record w { budget = drop_permit bytes w.budget }

-- The rest of a round once the reservation is held: the `try_send` and the look at the clock.
unfoldable pub offer : ℕ → Sent → Bool → World → World × Progress
unfolding let_go
offer bytes sent spent w = (hand_over bytes w, finished queued)
offer bytes disconnected spent w = (let_go bytes w, finished closed)
offer bytes full true w = (let_go bytes w, finished shed)
offer bytes full false w = (w, polling true)

unfoldable pub round_end : ℕ → Round → World × Option Bool → World × Progress
unfolding run offer
round_end bytes r (w, none) = (w, polling false)
round_end bytes r (w, some true) = offer bytes r.answer r.spent (run w r.others)
round_end bytes r (w, some false) = (w, if r.spent then finished shed else polling false)

-- The loop of `enqueue_bounded`, as long as rounds are given.
unfoldable pub rounds : ℕ → List Round → World × Progress → World × Progress
unfolding secure round_end
rounds bytes rs (w, finished e) = (w, finished e)
rounds bytes [] (w, polling held) = (w, polling held)
rounds bytes (r ∷ rs) (w, polling held) =
    rounds bytes rs (round_end bytes r (secure bytes held r.attempts w))

unfoldable pub enqueue_bounded : ℕ → List Round → World → World × Progress
unfolding rounds
enqueue_bounded bytes rs w =
    if ltb w.budget.limit bytes then (w, finished shed) else rounds bytes rs (w, polling false)
