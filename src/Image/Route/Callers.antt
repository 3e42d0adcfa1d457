-- ===== src/Image/Route/Callers.antt =====
-- Many conversion attempts of crates/image/src/route.rs at once: each call of `attempt_guarded` is a
-- caller, and each of its critical sections is one turn of it, in any order.
use y4p.Prelude.{
  ℕ, zero, suc, ◌+◌, ◌≤◌, ◌≡◌, refl, ◌∙◌, Bool, Option, none, some, List, [], ◌∷◌, ◌⊎◌, arith, All,
}
use y4p.Image.Breaker.{
  CircuitBreaker, Inner, Permit, PermitOutcome, acquire_at, resolve_at, release_permit,
}
use y4p.Image.Breaker
use y4p.Image.Breaker.Pool.{bit, probes}
use y4p.Image.Throttle.{ProcessThrottle, Answer, admitted, refused, waiting, acquire_woken}
use y4p.Image.Throttle
use y4p.Image.Pipeline.{PipelineError}
use y4p.Image.Route.{Guards, acquire, concluded, outcome_of, attempt_guarded}

-- `asking p` has a permit and is about to ask for a slot, `permitted p deadline` waits for one,
-- `turned_away p` has been refused one, `running p` holds one, `ran p outcome` has given it back.
pub data Caller : Type 0 where
  begun settled : Caller
  permitted : Permit → ℕ → Caller
  asking turned_away running : Permit → Caller
  ran : Permit → PermitOutcome → Caller

unfoldable pub granted : Guards → CircuitBreaker × Option Permit → Guards × Caller
granted g (b, none) = (record g { breaker = b }, settled)
granted g (b, some p) = (record g { breaker = b }, asking p)

unfoldable pub answered : Guards → Permit → ℕ → ProcessThrottle × Answer → Guards × Caller
answered g p deadline (t, admitted) = (record g { throttle = t }, running p)
answered g p deadline (t, refused) = (record g { throttle = t }, turned_away p)
answered g p deadline (t, waiting) = (record g { throttle = t }, permitted p deadline)

-- One turn at `now`. `outcome` is what a conversion that ends is reported as; a panic in it drops the
-- slot and then the permit, which counts as a failure.
unfoldable pub turn : ℕ → PermitOutcome → Guards → Caller → Guards × Caller
unfolding granted answered acquire_at acquire_woken release_permit resolve_at Throttle.release
turn now outcome g begun = granted g (acquire_at g.breaker now)
turn now outcome g (asking p) =
    let deadline = now + g.throttle.wait in
    answered g p deadline (acquire_woken g.throttle deadline now)
turn now outcome g (permitted p deadline) =
    answered g p deadline (acquire_woken g.throttle deadline now)
turn now outcome g (turned_away p) =
    (record g { breaker = release_permit g.breaker p now }, settled)
turn now outcome g (running p) =
    (record g { throttle = Throttle.release g.throttle }, ran p outcome)
turn now outcome g (ran p o) = (record g { breaker = (resolve_at g.breaker p o now).0 }, settled)
turn now outcome g settled = (g, settled)

-- The i-th caller's turn; there is none past the end.
unfoldable pub turn_at : ℕ → PermitOutcome → ℕ → Guards → List Caller → Guards × List Caller
turn_at now outcome i g [] = (g, [])
turn_at now outcome zero g (w ∷ ws) = let (g', w') = turn now outcome g w in (g', w' ∷ ws)
turn_at now outcome (suc i) g (w ∷ ws) = let (g', ws') = turn_at now outcome i g ws in (g', w ∷ ws')

pub record Moment : Type 0 where
  pub caller : ℕ
  pub now : ℕ
  pub outcome : PermitOutcome

unfoldable pub interleave : List Moment → Guards → List Caller → Guards × List Caller
interleave [] g ws = (g, ws)
interleave (t ∷ ts) g ws =
    let (g', ws') = turn_at t.now t.outcome t.caller g ws in interleave ts g' ws'

-- The slots and the canary permits that a caller holds.
abbrev pub slots : Caller → ℕ
slots (running p) = 1
slots _ = 0

abbrev pub canary : Caller → ℕ
canary (asking p) = bit p.canary
canary (permitted p d) = bit p.canary
canary (turned_away p) = bit p.canary
canary (running p) = bit p.canary
canary (ran p o) = bit p.canary
canary _ = 0

abbrev pub total : (Caller → ℕ) → List Caller → ℕ
total weight [] = 0
total weight (w ∷ ws) = weight w + total weight ws

-- `n` slots and `m` canaries are held by others.
record Held (n m : ℕ) (g : Guards) (s c : ℕ) : Type 0 where
  pub exact : g.throttle.in_use ≡ n + s
  pub bounded : n + s ≤ g.throttle.limit
  pub probe : probes g.breaker.inner ≡ m + c

turn-Held :
    (now : ℕ) (o : PermitOutcome) (g : Guards) (w : Caller) (n m : ℕ)
    → Held n m g (slots w) (canary w)
    → let r = turn now o g w in
      Held n m r.0 (slots r.1) (canary r.1) × (r.0.throttle.limit ≡ g.throttle.limit)
unfolding turn
turn-Held now o g begun n m h = ground arith
turn-Held now o g (asking p) n m h = ground arith
turn-Held now o g (permitted p d) n m h = ground arith
turn-Held now o g (turned_away p) n m h = ground arith
turn-Held now o g (running p) n m h = ground arith
turn-Held now o g (ran p o') n m h = ground arith
turn-Held now o g settled n m h = ground arith

turn_at-Held :
    (now : ℕ) (o : PermitOutcome) (i : ℕ) (g : Guards) (ws : List Caller) (n m : ℕ)
    → Held n m g (total slots ws) (total canary ws)
    → let r = turn_at now o i g ws in
      Held n m r.0 (total slots r.1) (total canary r.1) × (r.0.throttle.limit ≡ g.throttle.limit)
unfolding turn_at
turn_at-Held now o i g [] n m h = (h, refl)
turn_at-Held now o zero g (w ∷ ws) n m h =
    let (h', l) =
      turn-Held now o g w (n + total slots ws) (m + total canary ws)
        (record { exact = omega arith; bounded = omega arith; probe = omega arith }) in
    (record { exact = omega arith; bounded = omega arith; probe = omega arith }, l)
turn_at-Held now o (suc i) g (w ∷ ws) n m h =
    let (h', l) =
      turn_at-Held now o i g ws (n + slots w) (m + canary w)
        (record { exact = omega arith; bounded = omega arith; probe = omega arith }) in
    (record { exact = omega arith; bounded = omega arith; probe = omega arith }, l)

interleave-Held :
    (ts : List Moment) (g : Guards) (ws : List Caller)
    → Held 0 0 g (total slots ws) (total canary ws)
    → let r = interleave ts g ws in
      Held 0 0 r.0 (total slots r.1) (total canary r.1) × (r.0.throttle.limit ≡ g.throttle.limit)
unfolding interleave
interleave-Held [] g ws h = (h, refl)
interleave-Held (t ∷ ts) g ws h =
    let r = turn_at t.now t.outcome t.caller g ws in
    let (h', l) = turn_at-Held t.now t.outcome t.caller g ws 0 0 h in
    let (h'', l') = interleave-Held ts r.0 r.1 h' in (h'', l' ∙ l)

-- `n` calls that have just begun.
abbrev pub calls : ℕ → List Caller
calls zero = []
calls (suc n) = begun ∷ calls n

calls_idle : (n : ℕ) → (total slots (calls n) ≡ 0) × (total canary (calls n) ≡ 0)
calls_idle zero = (refl, refl)
calls_idle (suc n) = let h = calls_idle n in (omega arith, omega arith)

abbrev pub fresh : ℕ → ℕ → ℕ → ℕ → Guards
fresh threshold cooldown limit wait = record {
  breaker = Breaker.new threshold cooldown;
  throttle = Throttle.new limit wait;
}

fresh-Held :
    (threshold cooldown limit wait n : ℕ)
    → Held 0 0
        (fresh threshold cooldown limit wait)
        (total slots (calls n))
        (total canary (calls n))
unfolding Throttle.new Breaker.new
fresh-Held threshold cooldown limit wait n =
    let (s, c) = calls_idle n in
    record { exact = omega arith; bounded = omega arith; probe = omega arith }

settled-idle :
    (ws : List Caller) → All (λ w. w ≡ settled) ws → (total slots ws ≡ 0) × (total canary ws ≡ 0)
settled-idle [] h = (refl, refl)
settled-idle (w ∷ ws) h =
    let (s, c) = settled-idle ws h.1 in (rw (h.0) (omega arith), rw (h.0) (omega arith))

probe_le : (i : Inner) → probes i ≤ 1
probe_le i = ground arith

-- In any interleaving of any number of conversion attempts, the converters that run are as many as
-- the throttle counts and at most its limit, and at most one canary permit is held, exactly while a
-- probe is in flight. Once all attempts are over, no slot is taken and no probe is in flight.
pub converters_bounded :
    (threshold cooldown limit wait n : ℕ) (ts : List Moment)
    → let r = interleave ts (fresh threshold cooldown limit wait) (calls n) in
      (r.0.throttle.in_use ≡ total slots r.1)
      × (total slots r.1 ≤ (Throttle.new limit wait).limit)
      × (total canary r.1 ≡ probes r.0.breaker.inner)
      × (total canary r.1 ≤ 1)
      × (All (λ w. w ≡ settled) r.1 → (r.0.throttle.in_use ≡ 0) × (probes r.0.breaker.inner ≡ 0))
converters_bounded threshold cooldown limit wait n ts =
    let g = fresh threshold cooldown limit wait in
    let r = interleave ts g (calls n) in
    let (h, l) = interleave-Held ts g (calls n) (fresh-Held threshold cooldown limit wait n) in
    (
      omega (arith, h.exact),
      omega (arith, h.bounded, l),
      omega (arith, h.probe),
      omega (arith, h.probe, probe_le r.0.breaker.inner),
      λ over.
          let (s, c) = settled-idle r.1 over in (omega (arith, h.exact), omega (arith, h.probe)),
    )

-- The turns of a caller that nobody overtakes: it asks for the permit and for a slot, asks again when
-- its patience ends, and is over at `later`.
abbrev alone : ℕ → ℕ → ℕ → PermitOutcome → List Moment
alone now later wait o =
    record { caller = 0; now = now; outcome = o }
    ∷ record { caller = 0; now = now; outcome = o }
    ∷ record { caller = 0; now = now + wait; outcome = o }
    ∷ record { caller = 0; now = later; outcome = o }
    ∷ record { caller = 0; now = later; outcome = o }
    ∷ []

-- `attempt_guarded` is an interleaving: that of one caller, which nobody overtakes.
attempt_guarded-interleave {ℓ} :
    {T : Type ℓ} (g : Guards) (now later : ℕ) (r : T ⊎ PipelineError) (usable : T → Bool)
    → interleave (alone now later g.throttle.wait (outcome_of usable r).0) g (begun ∷ [])
      ≡ ((attempt_guarded g now later r usable).0, settled ∷ [])
unfolding attempt_guarded interleave turn_at turn acquire concluded acquire_at acquire_woken
attempt_guarded-interleave g now later r usable = ground arith
