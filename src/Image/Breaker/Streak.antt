-- ===== src/Image/Breaker/Streak.antt =====
-- Consecutive failures in crates/image/src/breaker.rs: callers that take turns, each acquiring and
-- reporting at once.
use y4p.Prelude.{
  ℕ, suc, ◌+◌, ◌≤◌, ◌<◌, ◌≡◌, refl, ◌∙◌, Option, none, some, List, [], ◌∷◌, ◌++◌, arith, ap, dec_lt,
}
use native.Mathlib.Nat.{add-zero, add-suc, suc-add, zero-add}
use y4p.Image.Breaker.{
  Inner, CircuitBreaker, Permit, PermitOutcome, acquire_at, resolve_at, u32_mod,
}

abbrev report : CircuitBreaker → Option Permit → PermitOutcome → ℕ → CircuitBreaker
report b none o now = b
report b (some p) o now = (resolve_at b p o now).0

-- One caller's attempt at the time `now`: acquire, convert, report; a refused caller skips.
unfoldable pub attempt : CircuitBreaker → PermitOutcome → ℕ → CircuitBreaker
unfolding acquire_at resolve_at
attempt b o now = let (b', p) = acquire_at b now in report b' p o now

unfoldable pub attempts : CircuitBreaker → List PermitOutcome → ℕ → CircuitBreaker
attempts b [] now = b
attempts b (o ∷ os) now = attempts (attempt b o now) os now

abbrev pub failures : List PermitOutcome → ℕ
failures [] = 0
failures (PermitOutcome.failure ∷ os) = suc (failures os)
failures (_ ∷ os) = failures os

abbrev pub successes : List PermitOutcome → ℕ
successes [] = 0
successes (PermitOutcome.success ∷ os) = suc (successes os)
successes (_ ∷ os) = successes os

attempt-success :
    (b : CircuitBreaker) (now f : ℕ)
    → b.inner ≡ Inner.closed f
    → attempt b PermitOutcome.success now ≡ record b { inner = Inner.closed 0 }
unfolding attempt
attempt-success b now f h = ground arith

attempt-release :
    (b : CircuitBreaker) (now f : ℕ)
    → b.inner ≡ Inner.closed f
    → attempt b PermitOutcome.release now ≡ b
unfolding attempt
attempt-release b now f h = ground arith

attempt-failure :
    (b : CircuitBreaker) (now f : ℕ)
    → b.inner ≡ Inner.closed f
    → b.threshold < u32_mod
    → suc f < b.threshold
    → attempt b PermitOutcome.failure now ≡ record b { inner = Inner.closed (suc f) }
unfolding attempt
attempt-failure b now f h u l = ground arith

attempt_trip :
    (b : CircuitBreaker) (now f : ℕ)
    → b.inner ≡ Inner.closed f
    → b.threshold < u32_mod
    → b.threshold ≤ suc f
    → attempt b PermitOutcome.failure now ≡ record b { inner = Inner.opened (now + b.cooldown) }
unfolding attempt
attempt_trip b now f h u l = ground arith

-- The breaker with nothing but its state changed.
abbrev at : CircuitBreaker → Inner → CircuitBreaker
at b i = record b { inner = i }

attempts-append :
    (b : CircuitBreaker) (xs ys : List PermitOutcome) (now : ℕ)
    → attempts b (xs ++ ys) now ≡ attempts (attempts b xs now) ys now
unfolding attempts
attempts-append b [] ys now = refl
attempts-append b (x ∷ xs) ys now = attempts-append (attempt b x now) xs ys now

-- A run without success below the threshold.
quiet_run :
    (b : CircuitBreaker) (os : List PermitOutcome) (now f : ℕ)
    → b.threshold < u32_mod
    → successes os ≡ 0
    → f + failures os < b.threshold
    → attempts (at b (Inner.closed f)) os now ≡ at b (Inner.closed (f + failures os))
unfolding attempts
quiet_run b [] now f u z l = rw (add-zero f)
quiet_run b (PermitOutcome.success ∷ os) now f u z l = absurd (omega arith)
quiet_run b (PermitOutcome.release ∷ os) now f u z l =
    rw (attempt-release (at b (Inner.closed f)) now f refl) (quiet_run b os now f u z l)
quiet_run b (PermitOutcome.failure ∷ os) now f u z l =
    rw (attempt-failure (at b (Inner.closed f)) now f refl u (omega arith))
      (rw (add-suc, ← suc-add) (quiet_run b os now (suc f) u z (omega arith)))

attempt_shut :
    (b : CircuitBreaker) (o : PermitOutcome) (now : ℕ)
    → 0 < b.cooldown
    → attempt (at b (Inner.opened (now + b.cooldown))) o now
      ≡ at b (Inner.opened (now + b.cooldown))
unfolding attempt
attempt_shut b o now h = ground arith

shut_run :
    (b : CircuitBreaker) (os : List PermitOutcome) (now : ℕ)
    → 0 < b.cooldown
    → attempts (at b (Inner.opened (now + b.cooldown))) os now
      ≡ at b (Inner.opened (now + b.cooldown))
unfolding attempts
shut_run b [] now h = refl
shut_run b (o ∷ os) now h = rw (attempt_shut b o now h) (shut_run b os now h)

tripping_run :
    (b : CircuitBreaker) (os : List PermitOutcome) (now f : ℕ)
    → b.threshold < u32_mod
    → 0 < b.cooldown
    → successes os ≡ 0
    → f < b.threshold
    → b.threshold ≤ f + failures os
    → attempts (at b (Inner.closed f)) os now ≡ at b (Inner.opened (now + b.cooldown))
unfolding attempts
tripping_run b [] now f u c z l m = absurd (omega arith)
tripping_run b (PermitOutcome.success ∷ os) now f u c z l m = absurd (omega arith)
tripping_run b (PermitOutcome.release ∷ os) now f u c z l m =
    rw (attempt-release (at b (Inner.closed f)) now f refl) (tripping_run b os now f u c z l m)
tripping_run b (PermitOutcome.failure ∷ os) now f u c z l m = elim (dec_lt (suc f) b.threshold) [
  | yes q ↦
      rw (attempt-failure (at b (Inner.closed f)) now f refl u q)
        (tripping_run b os now (suc f) u c z q (omega arith))
  | no q ↦
      rw (attempt_trip (at b (Inner.closed f)) now f refl u (omega arith)) (shut_run b os now c)
]

attempt-threshold :
    (b : CircuitBreaker) (o : PermitOutcome) (now : ℕ)
    → ((attempt b o now).threshold ≡ b.threshold) × ((attempt b o now).cooldown ≡ b.cooldown)
unfolding attempt
attempt-threshold b o now = ground arith

attempts-threshold :
    (b : CircuitBreaker) (os : List PermitOutcome) (now : ℕ)
    → ((attempts b os now).threshold ≡ b.threshold) × ((attempts b os now).cooldown ≡ b.cooldown)
unfolding attempts
attempts-threshold b [] now = (refl, refl)
attempts-threshold b (o ∷ os) now =
    let h = attempts-threshold (attempt b o now) os now in
    let k = attempt-threshold b o now in (h.0 ∙ k.0, h.1 ∙ k.1)

-- Callers that take turns at a closed breaker. After a success, and then outcomes `ys` without
-- another one, the breaker has counted exactly the failures of `ys`, whatever was released in
-- between and whatever came before the success; and it opens for the cooldown exactly when these
-- failures reach the threshold.
pub attempts_consecutive :
    (b : CircuitBreaker) (xs ys : List PermitOutcome) (now g : ℕ)
    → 0 < b.threshold
    → b.threshold < u32_mod
    → 0 < b.cooldown
    → (attempts b xs now).inner ≡ Inner.closed g
    → successes ys ≡ 0
    → let after = (attempts b (xs ++ PermitOutcome.success ∷ ys) now).inner in
      (failures ys < b.threshold → after ≡ Inner.closed (failures ys))
      × (b.threshold ≤ failures ys → after ≡ Inner.opened (now + b.cooldown))
attempts_consecutive b xs ys now g p u c e z =
    let b' = attempts b xs now in
    let (t, d) = attempts-threshold b xs now in
    let u' : b'.threshold < u32_mod = omega arith in
    let split = attempts-append b xs (PermitOutcome.success ∷ ys) now in
    let first : attempts b' (PermitOutcome.success ∷ ys) now
        ≡ attempts (at b' (Inner.closed 0)) ys now =
      unfold attempts in ap (λ q. attempts q ys now) (attempt-success b' now g e) in
    (
      λ l.
          ap (λ (q : CircuitBreaker). q.inner)
            (split ∙ first ∙ quiet_run b' ys now 0 u' z (omega arith))
          ∙ ap Inner.closed (zero-add (failures ys)),
      λ l.
          ap (λ (q : CircuitBreaker). q.inner)
            (split
              ∙ first
              ∙ tripping_run b' ys now 0 u' (omega arith) z (omega arith) (omega arith))
          ∙ ap (λ t. Inner.opened (now + t)) d,
    )
