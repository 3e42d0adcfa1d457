-- ===== src/Image/Breaker/Pool.antt =====
-- Callers of crates/image/src/breaker.rs: the breaker with the permits that are out, and any
-- interleaving of acquisitions, reports and dropped permits on any threads.
use y4p.Prelude.{
  ℕ, zero, suc, ◌+◌, ◌<◌, ◌≡◌, refl, sym, ◌∙◌, Bool, true, false, Option, none, some, List, [], ◌∷◌,
  arith, length, All,
}
use y4p.Image.Breaker.{
  Inner, CircuitBreaker, Permit, PermitOutcome, new, acquire_at, resolve_at, drop_permit, u32_mod,
}

pub record Pool : Type 0 where
  pub breaker : CircuitBreaker
  pub live : List Permit

-- `settles i` and `drops i` take the i-th live permit; there is none past the end.
pub data Event : Type 0 where
  asks : ℕ → Event
  settles : ℕ → PermitOutcome → ℕ → Event
  drops : ℕ → ℕ → Event

abbrev pub keep : Option Permit → List Permit → List Permit
keep none ps = ps
keep (some p) ps = p ∷ ps

-- The i-th element and the others.
pub pick : ℕ → List Permit → Option (Permit × List Permit)
pick i [] = none
pick zero (p ∷ ps) = some (p, ps)
pick (suc i) (p ∷ ps) = elim (pick i ps) [ none ↦ none | some (q, qs) ↦ some (q, p ∷ qs) ]

abbrev pub hand_in : Pool → Option (Permit × List Permit) → (Permit → CircuitBreaker) → Pool
hand_in s none f = s
hand_in s (some (p, ps)) f = record { breaker = f p; live = ps }

unfoldable pub step : Pool → Event → Pool
unfolding acquire_at resolve_at drop_permit pick
step s (asks now) =
    let (b, p) = acquire_at s.breaker now in record { breaker = b; live = keep p s.live }
step s (settles i o now) = hand_in s (pick i s.live) (λ p. (resolve_at s.breaker p o now).0)
step s (drops i now) = hand_in s (pick i s.live) (λ p. drop_permit s.breaker p now)

unfoldable pub run : Pool → List Event → Pool
run s [] = s
run s (e ∷ es) = run (step s e) es

unfoldable pub start : ℕ → ℕ → Pool
start threshold cooldown = record { breaker = new threshold cooldown; live = [] }

abbrev pub bit : Bool → ℕ
bit true = 1
bit false = 0

abbrev pub canaries : List Permit → ℕ
canaries [] = 0
canaries (p ∷ ps) = bit p.canary + canaries ps

abbrev pub probes : Inner → ℕ
probes (Inner.half_open true) = 1
probes _ = 0

abbrev pub Counts : ℕ → Inner → Type 0
Counts threshold (Inner.closed failures) = failures < threshold
Counts threshold _ = Unit

abbrev pub IsPending : Permit → Type 0
IsPending p = p.resolved ≡ false

pub record Inv (s : Pool) : Type 0 where
  pub canary_exact : canaries s.live ≡ probes s.breaker.inner
  pub counts : Counts s.breaker.threshold s.breaker.inner
  pub positive : 0 < s.breaker.threshold
  pub u32 : s.breaker.threshold < u32_mod
  pub pending : All IsPending s.live

abbrev pub Picks : List Permit → Option (Permit × List Permit) → Type 0
Picks ps none = Unit
Picks ps (some (p, qs)) =
    (length ps ≡ suc (length qs))
    × (canaries ps ≡ bit p.canary + canaries qs)
    × (All IsPending ps → IsPending p × All IsPending qs)

pub pick-Picks : (i : ℕ) (ps : List Permit) → Picks ps (pick i ps)
unfolding pick
pick-Picks i [] = tt
pick-Picks zero (p ∷ ps) = (refl, refl, λ h. h)
pick-Picks (suc i) (p ∷ ps) = ground (arith, pick-Picks i ps)

acquire-Counts :
    (b : CircuitBreaker) (now : ℕ)
    → Counts b.threshold b.inner
    → Counts b.threshold (acquire_at b now).0.inner
unfolding acquire_at
acquire-Counts b now h = ground arith

ask-Inv : (s : Pool) (now : ℕ) → Inv s → Inv (step s (asks now))
unfolding step
ask-Inv s now v = ground arith

-- What a report does to the count of probes, with `n` canaries among the other permits.
report-Counts :
    (b : CircuitBreaker) (p : Permit) (o : PermitOutcome) (now : ℕ)
    → 0 < b.threshold
    → b.threshold < u32_mod
    → Counts b.threshold b.inner
    → Counts b.threshold (resolve_at b p o now).0.inner
unfolding resolve_at
report-Counts b p o now z u h = ground arith

report-probes :
    (b : CircuitBreaker) (p : Permit) (o : PermitOutcome) (now n : ℕ)
    → bit p.canary + n ≡ probes b.inner
    → n ≡ probes (resolve_at b p o now).0.inner
unfolding resolve_at
report-probes b p o now n h = ground arith

report-threshold :
    (b : CircuitBreaker) (p : Permit) (o : PermitOutcome) (now : ℕ)
    → (resolve_at b p o now).0.threshold ≡ b.threshold
unfolding resolve_at
report-threshold b p o now = ground arith

-- A permit that is dropped unresolved is a reported failure.
pub drop_permit-failure :
    (b : CircuitBreaker) (p : Permit) (now : ℕ)
    → IsPending p
    → drop_permit b p now ≡ (resolve_at b p PermitOutcome.failure now).0
unfolding drop_permit resolve_at
drop_permit-failure b p now h = ground arith

-- To prove something of the pool after a report or a drop.
pub hand_in_cases {ℓ} :
    (Q : Pool → Type ℓ) (s : Pool) (r : Option (Permit × List Permit)) (f : Permit → CircuitBreaker)
    → Picks s.live r
    → Q s
    → ((p : Permit) (ps : List Permit)
        → length s.live ≡ suc (length ps)
        → Q (record { breaker = f p; live = ps }))
    → Q (hand_in s r f)
hand_in_cases Q s none f k kept moved = kept
hand_in_cases Q s (some (p, ps)) f k kept moved = moved p ps k.0

hand_in-Inv :
    (s : Pool) (r : Option (Permit × List Permit)) (f : Permit → CircuitBreaker) (o : PermitOutcome)
    (now : ℕ)
    → Picks s.live r
    → ((p : Permit) → IsPending p → f p ≡ (resolve_at s.breaker p o now).0)
    → Inv s
    → Inv (hand_in s r f)
hand_in-Inv s none f o now k e v = v
hand_in-Inv s (some (p, ps)) f o now k e v =
    let h = k.2 v.pending in
    rw (e p h.0) (record {
      canary_exact = report-probes s.breaker p o now _ (sym k.1 ∙ v.canary_exact);
      counts =
          rw (report-threshold s.breaker p o now)
            (report-Counts s.breaker p o now v.positive v.u32 v.counts);
      positive = rw (report-threshold s.breaker p o now) v.positive;
      u32 = rw (report-threshold s.breaker p o now) v.u32;
      pending = h.1;
    })

pub step-Inv : (s : Pool) (e : Event) → Inv s → Inv (step s e)
step-Inv s (asks now) v = ask-Inv s now v
step-Inv s (settles i o now) v =
    unfold step in hand_in-Inv s (pick i s.live) _ o now (pick-Picks i s.live) (λ p h. refl) v
step-Inv s (drops i now) v =
    unfold step in
    hand_in-Inv s (pick i s.live) _ PermitOutcome.failure now (pick-Picks i s.live)
      (λ p h. drop_permit-failure s.breaker p now h) v

start-Inv : (threshold cooldown : ℕ) → threshold < u32_mod → Inv (start threshold cooldown)
unfolding start new
start-Inv threshold cooldown h = ground arith

run-Inv : (s : Pool) (es : List Event) → Inv s → Inv (run s es)
unfolding run
run-Inv s [] v = v
run-Inv s (e ∷ es) v = run-Inv (step s e) es (step-Inv s e v)

-- Whatever the interleaving of acquisitions, reports and dropped permits, the canaries that are
-- out are exactly the probe in flight (so at most one), and a closed breaker has counted fewer
-- failures than its threshold.
pub run-start-Inv :
    (threshold cooldown : ℕ) (es : List Event)
    → threshold < u32_mod
    → Inv (run (start threshold cooldown) es)
run-start-Inv threshold cooldown es h = run-Inv _ es (start-Inv threshold cooldown h)
