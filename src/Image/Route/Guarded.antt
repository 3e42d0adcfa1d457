-- ===== src/Image/Route/Guarded.antt =====
-- A single conversion attempt of crates/image/src/route.rs: what is stored, and what is left of the
-- breaker and the throttle.
use y4p.Prelude.{
  Option-cases, ℕ, ◌≤◌, ◌≡◌, ◌≢◌, refl, ap, Bool, true, false, Option, none, some, arith, ◌⊎◌, inl,
  inr,
}
use y4p.Core.Text.{Text, Bytes, list_eq_sound}
use y4p.Core.Mime.{detect_image_mime}
use y4p.Image.Breaker.{CircuitBreaker, Inner, Permit, acquire_at, resolve_at, release_permit}
use y4p.Image.Throttle.{ProcessThrottle, Answer, admitted, refused, waiting, acquire_woken}
use y4p.Image.Throttle
use y4p.Image.Pipeline.{PipelineError}
use y4p.Image.Transcode.{OutputFormat, output_mime, mime_is, Transcode}
use y4p.Image.Route.{
  plan, is_valid_output, is_converter_fault, Guards, acquire, outcome_of, concluded, under_slot,
  under_permit, attempt_guarded, routed, Convert, route_job, route_with,
}

module _ {ℓ} {T : Type ℓ} (usable : T → Bool) where
  outcome_of-some :
      (r : T ⊎ PipelineError) (t : T)
      → (outcome_of usable r).1 ≡ some t
      → (r ≡ inl t) × (usable t ≡ true)
  unfolding outcome_of
  outcome_of-some (inl c) t e = ground (arith, e)
  outcome_of-some (inr x) t e = cc

  under_slot-some :
      (b : CircuitBreaker) (p : Permit) (a : ProcessThrottle × Answer) (later : ℕ)
      (r : T ⊎ PipelineError) (t : T)
      → (under_slot b p a later usable r).1 ≡ some t
      → (r ≡ inl t) × (usable t ≡ true)
  unfolding under_slot
  under_slot-some b p (s, admitted) later r t e = outcome_of-some r t e
  under_slot-some b p (s, refused) later r t e = cc
  under_slot-some b p (s, waiting) later r t e = cc

  under_permit-some :
      (s : ProcessThrottle) (a : CircuitBreaker × Option Permit) (now later : ℕ)
      (r : T ⊎ PipelineError) (t : T)
      → (under_permit s a now later usable r).1 ≡ some t
      → (r ≡ inl t) × (usable t ≡ true)
  unfolding under_permit
  under_permit-some s (b, none) now later r t e = cc
  under_permit-some s (b, some p) now later r t e = under_slot-some b p (acquire s now) later r t e

  -- What an attempt keeps is what it answered, and it is usable.
  pub attempt_guarded-some :
      (g : Guards) (now later : ℕ) (r : T ⊎ PipelineError) (t : T)
      → (attempt_guarded g now later r usable).1 ≡ some t
      → (r ≡ inl t) × (usable t ≡ true)
  unfolding attempt_guarded
  attempt_guarded-some g now later r t e =
      under_permit-some g.throttle (acquire_at g.breaker now) now later r t e

mime_is-eq :
    (m : Option Text) (target : OutputFormat)
    → mime_is m target ≡ true
    → m ≡ some (output_mime target)
unfolding mime_is
mime_is-eq none target h = cc
mime_is-eq (some m) target h = ap some (list_eq_sound m (output_mime target) h)

is_valid_output-mime :
    (target : OutputFormat) (c : Bytes)
    → is_valid_output target c ≡ true
    → detect_image_mime c ≡ some (output_mime target)
unfolding is_valid_output
is_valid_output-mime target c h = mime_is-eq (detect_image_mime c) target (ground (arith, h))

-- `Stored`: what `route_with` may answer.
pub data Stored (mime : Text) (payload : Bytes) (convert : Convert) (pair : Text × Bytes)
    : Type 0 where
  kept : pair ≡ (mime, payload) → Stored mime payload convert pair
  made :
      (job : Transcode) (out : Bytes)
      → plan mime payload ≡ some job
      → convert job payload ≡ inl out
      → detect_image_mime out ≡ some (output_mime job.output)
      → pair ≡ (output_mime job.output, out)
      → Stored mime payload convert pair

route_job-Stored :
    (mime : Text) (payload : Bytes) (g : Guards) (now later : ℕ) (convert : Convert)
    (p : Option Transcode)
    → plan mime payload ≡ p
    → Stored mime payload convert (route_job mime payload g now later convert p).1
route_job-Stored mime payload g now later convert none e = kept refl
route_job-Stored mime payload g now later convert (some job) e =
    let usable = is_valid_output job.output in
    let answer = convert job payload in
    elim (Option-cases (attempt_guarded g now later answer usable).1) [
      | inl n ↦ kept (ap (routed mime payload job.output) n)
      | inr (out, m) ↦
          let h = attempt_guarded-some usable g now later answer out m in
          made job out e h.0 (is_valid_output-mime job.output out h.1)
            (ap (routed mime payload job.output) m)
    ]

-- `route_with` answers the original pair, byte for byte, or what the converter made of it for the
-- planned job, under that job's MIME type, and then its signature is of that type.
pub route_with-Stored :
    (mime : Text) (payload : Bytes) (g : Guards) (now later : ℕ) (convert : Convert)
    → Stored mime payload convert (route_with mime payload g now later convert).1
unfolding route_with
route_with-Stored mime payload g now later convert =
    route_job-Stored mime payload g now later convert (plan mime payload) refl

-- A breaker with no probe in flight.
abbrev pub IsIdle : CircuitBreaker → Type 0
IsIdle b = b.inner ≢ Inner.half_open true

module _ {ℓ} {T : Type ℓ} (usable : T → Bool) where
  pub attempt_guarded-throttle :
      (g : Guards) (now later : ℕ) (r : T ⊎ PipelineError)
      → (attempt_guarded g now later r usable).0.throttle ≡ g.throttle
  unfolding attempt_guarded acquire acquire_woken Throttle.release concluded
  attempt_guarded-throttle g now later r = ground arith

  pub attempt_guarded-IsIdle :
      (g : Guards) (now later : ℕ) (r : T ⊎ PipelineError)
      → IsIdle g.breaker
      → IsIdle (attempt_guarded g now later r usable).0.breaker
  unfolding attempt_guarded acquire acquire_woken acquire_at resolve_at release_permit
  attempt_guarded-IsIdle g now later r h = ground arith

  -- Errors that are no fault of the converter.
  abbrev pub IsHarmless : T ⊎ PipelineError → Type 0
  IsHarmless (inl converted) = ⊥
  IsHarmless (inr e) = is_converter_fault e ≡ false

  -- An attempt that meets a closed circuit, and then an error that is no fault of the converter, or
  -- no free slot, whatever the converter would answer, keeps nothing and leaves the breaker and the
  -- throttle as they were.
  pub attempt_guarded-harmless :
      (g : Guards) (now later n : ℕ) (r : T ⊎ PipelineError)
      → g.breaker.inner ≡ Inner.closed n
      → IsHarmless r ⊎ (g.throttle.limit ≤ g.throttle.in_use)
      → attempt_guarded g now later r usable ≡ (g, none)
  unfolding attempt_guarded acquire acquire_woken acquire_at resolve_at release_permit concluded
      outcome_of Throttle.release
  attempt_guarded-harmless g now later n (inl t) c (inl h) = absurd h
  attempt_guarded-harmless g now later n (inl t) c (inr h) = ground arith
  attempt_guarded-harmless g now later n (inr e) c h = ground arith

route_job-throttle :
    (mime : Text) (payload : Bytes) (g : Guards) (now later : ℕ) (convert : Convert)
    (p : Option Transcode)
    → let g' = (route_job mime payload g now later convert p).0 in
      (g'.throttle ≡ g.throttle) × (IsIdle g.breaker → IsIdle g'.breaker)
route_job-throttle mime payload g now later convert none = (refl, λ h. h)
route_job-throttle mime payload g now later convert (some job) =
    let usable = is_valid_output job.output in
    let answer = convert job payload in
    (
      attempt_guarded-throttle usable g now later answer,
      λ h. attempt_guarded-IsIdle usable g now later answer h,
    )

-- An ingestion that nobody interrupts gives its slot back, and ends its probe.
pub route_with-restores :
    (mime : Text) (payload : Bytes) (g : Guards) (now later : ℕ) (convert : Convert)
    → let g' = (route_with mime payload g now later convert).0 in
      (g'.throttle ≡ g.throttle) × (IsIdle g.breaker → IsIdle g'.breaker)
unfolding route_with
route_with-restores mime payload g now later convert =
    route_job-throttle mime payload g now later convert (plan mime payload)
