-- ===== src/Image/Route.antt =====
-- crates/image/src/route.rs: which payloads are converted, and a conversion attempt under the
-- breaker and the throttle. The converter is an argument: its answer is given, or a function of
-- what the code hands it.
pub mod Plan
pub mod Roads
pub mod Guarded
pub mod Callers
use y4p.Prelude.{
  ℕ, zero, suc, ◌+◌, min, ◌≡◌, Bool, true, false, ◌&&◌, not, Option, none, some, List, [], ◌∷◌,
  ◌++◌, ltb, leb, if◌then◌else◌, ◌⊎◌, inl, inr, length, take,
}
use y4p.Core.Text.{Text, Bytes, list_eq}
use y4p.Core.Mime.{detect_image_mime, is_animated_webp}
use y4p.Core.Constants.{image_output_hint_cap_bytes}
use y4p.Image.Breaker.{
  CircuitBreaker, Permit, PermitOutcome, success, failure, release, acquire_at, resolve_at,
  release_permit,
}
use y4p.Image.Throttle.{ProcessThrottle, Answer, admitted, refused, waiting, acquire_woken}
use y4p.Image.Throttle
use y4p.Image.Pipeline.{
  PipelineError, IoError, spawn, source, sink, child, isolation, failed, timeout, other,
}
use y4p.Image.Transcode.{
  InputFormat, png, jpeg, gif, webp, bmp, from_mime, OutputFormat, output_mime, mime_is, Transcode,
  Checked, passed, no_image, unreadable, check_signature,
}

abbrev pub sniff_head_bytes : ℕ
sniff_head_bytes = 512

abbrev pub ingest_target : InputFormat → Option OutputFormat
ingest_target png = some OutputFormat.png
ingest_target bmp = some OutputFormat.png
ingest_target jpeg = some OutputFormat.png
ingest_target webp = some OutputFormat.png
ingest_target gif = none

-- The match of `classify`.
abbrev pub outranked : Text → Option Text → Option InputFormat
outranked mime none = from_mime mime
outranked mime (some detected) = from_mime detected

-- `payload.get(..512).unwrap_or(payload)`.
unfoldable pub head_of : Bytes → Bytes
head_of payload =
    if leb sniff_head_bytes (length payload) then take sniff_head_bytes payload else payload

unfoldable pub classify : Text → Bytes → Option InputFormat
unfolding head_of
classify mime payload = outranked mime (detect_image_mime (head_of payload))

abbrev pub is_webp : InputFormat → Bool
is_webp webp = true
is_webp _ = false

-- `plan` behind `classify`.
abbrev pub job_of : Bool → Option InputFormat → Option Transcode
job_of animated none = none
job_of animated (some input) =
    if is_webp input && animated then none else elim (ingest_target input) [
      | none ↦ none
      | some output ↦ some (record { input = input; output = output })
    ]

unfoldable pub plan : Text → Bytes → Option Transcode
unfolding classify is_animated_webp
plan mime [] = none
plan mime (b ∷ bs) = job_of (is_animated_webp (b ∷ bs)) (classify mime (b ∷ bs))

unfoldable pub wants_transcode : Text → Bytes → Bool
unfolding plan
wants_transcode mime head = elim (plan mime head) [ none ↦ false | some job ↦ true ]

unfoldable pub is_valid_output : OutputFormat → Bytes → Bool
unfolding mime_is
is_valid_output target converted =
    ltb 0 (length converted) && mime_is (detect_image_mime converted) target

unfoldable pub is_converter_fault : PipelineError → Bool
is_converter_fault (spawn e) = false
is_converter_fault (source e) = false
is_converter_fault (sink e) = false
is_converter_fault (child e) = true
is_converter_fault (isolation e) = false
is_converter_fault (failed code stderr) = true
is_converter_fault (timeout limit) = true

unfoldable pub output_capacity_hint : ℕ → ℕ
output_capacity_hint input_len = min input_len image_output_hint_cap_bytes

-- The process-wide breaker and throttle.
pub record Guards : Type 0 where
  pub breaker : CircuitBreaker
  pub throttle : ProcessThrottle

-- `throttle.acquire` by a caller whom nobody overtakes: asked at `now`, and where it must wait,
-- asked again when its patience ends.
unfoldable pub acquire : ProcessThrottle → ℕ → ProcessThrottle × Answer
unfolding acquire_woken
acquire t now =
    let deadline = now + t.wait in
    let (t', a) = acquire_woken t deadline now in
    elim a [
      | waiting ↦ acquire_woken t' deadline deadline
      | admitted ↦ (t', admitted)
      | refused ↦ (t', refused)
    ]

module _ {ℓ} {T : Type ℓ} where
  -- The match on the attempt's result: what the breaker is told, and what is kept.
  unfoldable pub outcome_of : (T → Bool) → T ⊎ PipelineError → PermitOutcome × Option T
  unfolding is_converter_fault
  outcome_of usable (inl converted) =
      if usable converted then (success, some converted) else (failure, none)
  outcome_of usable (inr error) = (if is_converter_fault error then failure else release, none)

  -- `attempt` ends: the slot goes back first, then the permit is resolved.
  unfoldable pub concluded :
      Guards → Permit → ℕ → (T → Bool) → T ⊎ PipelineError → Guards × Option T
  unfolding outcome_of resolve_at Throttle.release
  concluded g permit now usable result =
      let (outcome, converted) = outcome_of usable result in
      (
        record {
          breaker = (resolve_at g.breaker permit outcome now).0;
          throttle = Throttle.release g.throttle;
        },
        converted,
      )

  unfoldable pub under_slot :
      CircuitBreaker
      → Permit
      → ProcessThrottle × Answer
      → ℕ
      → (T → Bool)
      → T ⊎ PipelineError
      → Guards × Option T
  unfolding concluded release_permit
  under_slot b permit (t, admitted) later usable result =
      concluded (record { breaker = b; throttle = t }) permit later usable result
  under_slot b permit (t, refused) later usable result =
      (record { breaker = release_permit b permit later; throttle = t }, none)
  under_slot b permit (t, waiting) later usable result =
      (record { breaker = release_permit b permit later; throttle = t }, none)

  unfoldable pub under_permit :
      ProcessThrottle
      → CircuitBreaker × Option Permit
      → ℕ
      → ℕ
      → (T → Bool)
      → T ⊎ PipelineError
      → Guards × Option T
  unfolding under_slot acquire
  under_permit t (b, none) now later usable result = (record { breaker = b; throttle = t }, none)
  under_permit t (b, some permit) now later usable result =
      under_slot b permit (acquire t now) later usable result

  -- One attempt by itself, that starts at `now` and is over at `later`. `Image.Route.Callers` lets
  -- many of them interleave.
  unfoldable pub attempt_guarded :
      Guards → ℕ → ℕ → T ⊎ PipelineError → (T → Bool) → Guards × Option T
  unfolding under_permit acquire_at
  attempt_guarded g now later result usable =
      under_permit g.throttle (acquire_at g.breaker now) now later usable result

-- The last match of `route_with`.
abbrev pub routed : Text → Bytes → OutputFormat → Option Bytes → Text × Bytes
routed mime payload output none = (mime, payload)
routed mime payload output (some converted) = (output_mime output, converted)

abbrev pub Convert : Type 0
Convert = Transcode → Bytes → Bytes ⊎ PipelineError

abbrev pub route_job :
    Text → Bytes → Guards → ℕ → ℕ → Convert → Option Transcode → Guards × (Text × Bytes)
route_job mime payload g now later convert none = (g, (mime, payload))
route_job mime payload g now later convert (some job) =
    let (g', converted) =
      attempt_guarded g now later (convert job payload) (is_valid_output job.output) in
    (g', routed mime payload job.output converted)

unfoldable pub route_with : Text → Bytes → Guards → ℕ → ℕ → Convert → Guards × (Text × Bytes)
unfolding plan attempt_guarded is_valid_output
route_with mime payload g now later convert =
    route_job mime payload g now later convert (plan mime payload)

pub data FileRoute {ℓ} (T : Type ℓ) : Type ℓ where
  original : FileRoute T
  converted : Text → T → FileRoute T

module _ {ℓ} {T : Type ℓ} where
  abbrev pub file_routed : OutputFormat → Option T → FileRoute T
  file_routed output none = original
  file_routed output (some t) = converted (output_mime output) t

  abbrev pub route_file_job :
      Guards → ℕ → ℕ → (Transcode → T ⊎ PipelineError) → Option Transcode → Guards × FileRoute T
  route_file_job g now later convert none = (g, original)
  route_file_job g now later convert (some job) =
      let (g', output) = attempt_guarded g now later (convert job) (λ t. true) in
      (g', file_routed job.output output)

  unfoldable pub route_file_with :
      Text → Bytes → Guards → ℕ → ℕ → (Transcode → T ⊎ PipelineError) → Guards × FileRoute T
  unfolding plan attempt_guarded
  route_file_with mime head g now later convert =
      route_file_job g now later convert (plan mime head)

-- How the calls of `transcode_file` on its file end: whether the converter's output can be written to
-- it, and whether it can be read back.
pub record FileRun : Type 0 where
  pub drains : Bool
  pub readable : Bool

-- What the converter's output becomes on its way into the file, of at most `limit` bytes.
abbrev pub drained_to_file : ℕ → Bool → Bytes ⊎ PipelineError → Bytes ⊎ PipelineError
drained_to_file limit drains (inr e) = inr e
drained_to_file limit drains (inl out) =
    if not drains
    then inr (sink other)
    else if ltb limit (length out)
    then inr (sink other)
    else inl out

-- The end of `transcode_file`: what the run left in the file is checked before it is answered.
-- `no_image_message` is the error's text.
module _ (no_image_message : OutputFormat → Text) where
  abbrev pub signature_result : OutputFormat → Bytes → Checked → Bytes ⊎ PipelineError
  signature_result target file passed = inl file
  signature_result target file no_image = inr (failed (some 0) (no_image_message target))
  signature_result target file unreadable = inr (sink other)

  abbrev pub file_checked : OutputFormat → Bool → Bytes ⊎ PipelineError → Bytes ⊎ PipelineError
  file_checked target readable (inr e) = inr e
  file_checked target readable (inl file) =
      signature_result target file (check_signature target (if readable then some file else none))

  unfoldable pub transcode_file_end :
      ℕ → FileRun → OutputFormat → Bytes ⊎ PipelineError → Bytes ⊎ PipelineError
  unfolding check_signature
  transcode_file_end limit run target answer =
      file_checked target run.readable (drained_to_file limit run.drains answer)

-- The two flags of the process, and the warnings that it has printed.
pub record Warned : Type 0 where
  pub warned : Bool
  pub warned_scratch : Bool
  pub printed : List Text

module _ {ℓ} {T : Type ℓ} (tool_missing : Text) (scratch_unavailable : IoError → Text) where
  -- The warning about a scratch directory.
  unfoldable pub after_run : Warned → T ⊎ PipelineError → Warned
  after_run w (inr (isolation reason)) = record w {
    warned_scratch = true;
    printed = if w.warned_scratch then w.printed else w.printed ++ scratch_unavailable reason ∷ [];
  }
  after_run w _ = w

  -- `is_available` is the answer of the probe, `run` what the conversion answers.
  unfoldable pub converter_call : Warned → Bool → T ⊎ PipelineError → Warned × (T ⊎ PipelineError)
  unfolding after_run
  converter_call w is_available run = if is_available then (after_run w run, run) else (
    record w {
      warned = true;
      printed = if w.warned then w.printed else w.printed ++ tool_missing ∷ [];
    },
    inr (spawn other),
  )
