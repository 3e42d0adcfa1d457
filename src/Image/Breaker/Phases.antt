-- ===== src/Image/Breaker/Phases.antt =====
-- The phases of crates/image/src/breaker.rs: the diagram of its module comment, the cooldown,
-- and the way out of every state.
use y4p.Prelude.{
  ℕ, ◌+◌, ◌≤◌, ◌<◌, ◌≡◌, sym, ◌∙◌, ◌≢◌, ◌⊎◌, inl, inr, true, none, some, List, [], ◌∷◌, arith,
  length, All, Option-cases, ◌↔◌, ap,
}
use y4p.Image.Breaker.{
  Inner, BreakerState, CircuitBreaker, Permit, PermitOutcome, state, acquire_at, resolve_at,
  drop_permit, u32_mod,
}
use y4p.Image.Breaker.Pool.{
  Pool, Event, asks, settles, drops, pick, pick-Picks, hand_in_cases, step, run, start, canaries,
  probes, run-start-Inv,
}

-- The arrows of the diagram, and staying put.
pub data Edge : BreakerState → BreakerState → Type 0 where
  stay : {s : BreakerState} → Edge s s
  trip : Edge BreakerState.closed BreakerState.opened
  cooled : Edge BreakerState.opened BreakerState.half_open
  recover : Edge BreakerState.half_open BreakerState.closed
  retrip : Edge BreakerState.half_open BreakerState.opened

ruleset edges = (stay, trip, cooled, recover, retrip)

acquire-Edge : (b : CircuitBreaker) (now : ℕ) → Edge (state b) (state (acquire_at b now).0)
unfolding state acquire_at
acquire-Edge b now = grind (arith, edges)

resolve-Edge :
    (b : CircuitBreaker) (p : Permit) (o : PermitOutcome) (now : ℕ)
    → Edge (state b) (state (resolve_at b p o now).0)
unfolding state resolve_at
resolve-Edge b p o now = grind (arith, edges)

drop-Edge :
    (b : CircuitBreaker) (p : Permit) (now : ℕ) → Edge (state b) (state (drop_permit b p now))
unfolding state drop_permit
drop-Edge b p now = grind (arith, edges)

-- Each acquisition, report or dropped permit leaves the state of the breaker or follows an arrow
-- closed to open, open to half-open, half-open to closed or half-open to open.
pub step-Edge : (s : Pool) (e : Event) → Edge (state s.breaker) (state (step s e).breaker)
step-Edge s (asks now) = unfold step in acquire-Edge s.breaker now
step-Edge s (settles i o now) =
    unfold step in
    hand_in_cases (λ q. Edge (state s.breaker) (state q.breaker)) s (pick i s.live) _
      (pick-Picks i s.live) stay (λ p ps l. resolve-Edge s.breaker p o now)
step-Edge s (drops i now) =
    unfold step in
    hand_in_cases (λ q. Edge (state s.breaker) (state q.breaker)) s (pick i s.live) _
      (pick-Picks i s.live) stay (λ p ps l. drop-Edge s.breaker p now)

abbrev pub Before : ℕ → Event → Type 0
Before until (asks now) = now < until
Before until _ = Unit

-- Open until the given time, and no more permits out than `n`.
abbrev Shut : ℕ → ℕ → Pool → Type 0
Shut until n s = (s.breaker.inner ≡ Inner.opened until) × (length s.live ≤ n)

resolve_opened :
    (b : CircuitBreaker) (p : Permit) (o : PermitOutcome) (now until : ℕ)
    → b.inner ≡ Inner.opened until
    → (resolve_at b p o now).0.inner ≡ Inner.opened until
unfolding resolve_at
resolve_opened b p o now until h = ground arith

drop_opened :
    (b : CircuitBreaker) (p : Permit) (now until : ℕ)
    → b.inner ≡ Inner.opened until
    → (drop_permit b p now).inner ≡ Inner.opened until
unfolding drop_permit
drop_opened b p now until h = ground arith

acquire_opened :
    (b : CircuitBreaker) (now until : ℕ)
    → b.inner ≡ Inner.opened until
    → now < until
    → ((acquire_at b now).0.inner ≡ Inner.opened until) × ((acquire_at b now).1 ≡ none)
unfolding acquire_at
acquire_opened b now until h l = ground arith

step-Shut :
    (until n : ℕ) (s : Pool) (e : Event) → Shut until n s → Before until e → Shut until n (step s e)
step-Shut until n s (asks now) h b =
    unfold step in let a = acquire_opened s.breaker now until h.0 b in (a.0, rw a.1 h.1)
step-Shut until n s (settles i o now) h b =
    unfold step in
    hand_in_cases (Shut until n) s (pick i s.live) _ (pick-Picks i s.live) h
      (λ p ps l. (resolve_opened s.breaker p o now until h.0, omega arith))
step-Shut until n s (drops i now) h b =
    unfold step in
    hand_in_cases (Shut until n) s (pick i s.live) _ (pick-Picks i s.live) h
      (λ p ps l. (drop_opened s.breaker p now until h.0, omega arith))

run-Shut :
    (until n : ℕ) (s : Pool) (es : List Event)
    → Shut until n s
    → All (Before until) es
    → Shut until n (run s es)
unfolding run
run-Shut until n s [] h b = h
run-Shut until n s (e ∷ es) h b = run-Shut until n (step s e) es (step-Shut until n s e h b.0) b.1

trip_opens :
    (b : CircuitBreaker) (p : Permit) (o : PermitOutcome) (now : ℕ)
    → (resolve_at b p o now).1.0 ≡ true
    → (resolve_at b p o now).0.inner ≡ Inner.opened (now + b.cooldown)
unfolding resolve_at
trip_opens b p o now h = ground arith

-- A report that trips the breaker at `now` keeps it open through every later event, as long as
-- no permit is asked for at or after `now + cooldown`; nobody is admitted meanwhile.
pub tripped_stays_shut :
    (b : CircuitBreaker) (live : List Permit) (p : Permit) (o : PermitOutcome) (now : ℕ)
    (es : List Event)
    → (resolve_at b p o now).1.0 ≡ true
    → All (Before (now + b.cooldown)) es
    → let s = run (record { breaker = (resolve_at b p o now).0; live = live }) es in
      (s.breaker.inner ≡ Inner.opened (now + b.cooldown)) × (length s.live ≤ length live)
tripped_stays_shut b live p o now es h l =
    run-Shut (now + b.cooldown) (length live) _ es (trip_opens b p o now h, omega arith) l

abbrev pub Cooling : ℕ → Inner → Type 0
Cooling now (Inner.opened until) = now < until
Cooling now _ = ⊥

refused_Cooling :
    (b : CircuitBreaker) (now : ℕ)
    → (acquire_at b now).1 ≡ none
    → Cooling now b.inner ⊎ (probes b.inner ≡ 1)
unfolding acquire_at
refused_Cooling b now h = ground arith

Cooling-refused :
    (b : CircuitBreaker) (now : ℕ)
    → Cooling now b.inner ⊎ (probes b.inner ≡ 1)
    → (acquire_at b now).1 ≡ none
unfolding acquire_at
Cooling-refused b now h = ground arith

-- In any history a caller is refused exactly while the cooldown runs or while a canary is out.
pub refused_iff :
    (threshold cooldown : ℕ) (es : List Event) (now : ℕ)
    → threshold < u32_mod
    → let s = run (start threshold cooldown) es in
      ((acquire_at s.breaker now).1 ≡ none) ↔ (Cooling now s.breaker.inner ⊎ (canaries s.live ≡ 1))
refused_iff threshold cooldown es now h =
    let s = run (start threshold cooldown) es in
    let v = run-start-Inv threshold cooldown es h in
    rw v.canary_exact (refused_Cooling s.breaker now, Cooling-refused s.breaker now)

until_of : Inner → ℕ
until_of (Inner.opened until) = until
until_of _ = 0

free_not_refused :
    (b : CircuitBreaker) (now : ℕ)
    → probes b.inner ≡ 0
    → until_of b.inner ≤ now
    → (acquire_at b now).1 ≢ none
unfolding acquire_at until_of
free_not_refused b now z h e = ground arith

free_admits :
    (b : CircuitBreaker) (now : ℕ)
    → probes b.inner ≡ 0
    → until_of b.inner ≤ now
    → (p : Permit) × ((acquire_at b now).1 ≡ some p)
free_admits b now z h = elim (Option-cases (acquire_at b now).1) [
  | inl e ↦ absurd (free_not_refused b now z h e)
  | inr found ↦ found
]

-- No history wedges the breaker: after any sequence of events on a fresh breaker with a threshold
-- below 2^32 that leaves no permit out, there is a time such that the next caller, whenever it comes
-- from then on, is admitted.
pub never_wedged :
    (threshold cooldown : ℕ) (es : List Event)
    → threshold < u32_mod
    → (run (start threshold cooldown) es).live ≡ []
    → (t : ℕ) × ((now : ℕ)
        → t ≤ now
        → (p : Permit) × ((acquire_at (run (start threshold cooldown) es).breaker now).1 ≡ some p))
never_wedged threshold cooldown es h l =
    let b = (run (start threshold cooldown) es).breaker in
    let v = run-start-Inv threshold cooldown es h in
    (until_of b.inner, λ now k. free_admits b now (sym v.canary_exact ∙ ap canaries l) k)
