-- ===== src/Image/Route/Roads.antt =====
-- The two roads of crates/image/src/route.rs: bytes in memory, and a file of which the first bytes
-- are read.
use y4p.Prelude.{
  ℕ, ◌≤◌, ◌≡◌, refl, sym, subst, ◌∙◌, Bool, true, false, Option, none, some, arith, ◌⊎◌, inl, inr,
  ltb, length, take, if◌then◌else◌, Bool-cases, length-take,
}
use y4p.Core.Text.{Text, Bytes, list_eq}
use y4p.Core.Mime.{detect_image_mime}
use y4p.Core.Mime.Prefix.{MaySvg, detect_image_mime-take}
use y4p.Image.Pipeline.{PipelineError}
use y4p.Image.Throttle.{ProcessThrottle, Answer, admitted, refused, waiting}
use y4p.Image.Breaker.{CircuitBreaker, Permit, acquire_at}
use y4p.Image.Transcode.{
  OutputFormat, png, webp_lossless, webp_lossy, mime_is, Transcode, check_signature,
  signature_probe_bytes, passed, no_image,
}
use y4p.Image.Route.{
  sniff_head_bytes, plan, is_valid_output, Guards, outcome_of, acquire, concluded, under_slot,
  under_permit, attempt_guarded, routed, Convert, route_job, route_with, FileRoute, original,
  converted, file_routed, route_file_job, route_file_with, transcode_file_end, FileRun,
}
use y4p.Image.Route.Plan.{plan-take}

mime_is-MaySvg : (m : Option Text) (target : OutputFormat) → MaySvg m → mime_is m target ≡ false
unfolding mime_is list_eq
mime_is-MaySvg m png (inl e) = rw e
mime_is-MaySvg m png (inr e) = rw e
mime_is-MaySvg m webp_lossless (inl e) = rw e
mime_is-MaySvg m webp_lossless (inr e) = rw e
mime_is-MaySvg m (webp_lossy q) (inl e) = rw e
mime_is-MaySvg m (webp_lossy q) (inr e) = rw e

mime_is-take :
    (n : ℕ) (c : Bytes) (target : OutputFormat)
    → 12 ≤ n
    → mime_is (detect_image_mime (take n c)) target ≡ mime_is (detect_image_mime c) target
mime_is-take n c target h = elim (detect_image_mime-take n c h) [
  | inl e ↦ rw e
  | inr (a, b) ↦ mime_is-MaySvg _ target a ∙ sym (mime_is-MaySvg _ target b)
]

-- The signature of a file and the judgement of a buffer are the same test.
check_signature-valid :
    (target : OutputFormat) (c : Bytes)
    → check_signature target (some c) ≡ (if is_valid_output target c then passed else no_image)
unfolding check_signature is_valid_output
check_signature-valid target c =
    let m = mime_is-take signature_probe_bytes c target (omega arith) in
    let l : ltb 0 (length (take signature_probe_bytes c)) ≡ ltb 0 (length c) =
      ground (arith, length-take signature_probe_bytes c) in
    rw (m, l)

-- An attempt depends on its answer by `outcome_of` only.
module _ {ℓ} {T : Type ℓ} (usable usable' : T → Bool) (r r' : T ⊎ PipelineError)
    (same : outcome_of usable r ≡ outcome_of usable' r') where
  concluded-same :
      (g : Guards) (p : Permit) (now : ℕ)
      → concluded g p now usable r ≡ concluded g p now usable' r'
  unfolding concluded
  concluded-same g p now = rw same

  under_slot-same :
      (b : CircuitBreaker) (p : Permit) (a : ProcessThrottle × Answer) (later : ℕ)
      → under_slot b p a later usable r ≡ under_slot b p a later usable' r'
  unfolding under_slot
  under_slot-same b p (t, admitted) later =
      concluded-same (record { breaker = b; throttle = t }) p later
  under_slot-same b p (t, refused) later = refl
  under_slot-same b p (t, waiting) later = refl

  under_permit-same :
      (t : ProcessThrottle) (a : CircuitBreaker × Option Permit) (now later : ℕ)
      → under_permit t a now later usable r ≡ under_permit t a now later usable' r'
  unfolding under_permit
  under_permit-same t (b, none) now later = refl
  under_permit-same t (b, some p) now later = under_slot-same b p (acquire t now) later

  attempt_guarded-same :
      (g : Guards) (now later : ℕ)
      → attempt_guarded g now later r usable ≡ attempt_guarded g now later r' usable'
  unfolding attempt_guarded
  attempt_guarded-same g now later =
      under_permit-same g.throttle (acquire_at g.breaker now) now later

-- What the daemon stores for the answer of the file's road.
abbrev pub stored : Text → Bytes → FileRoute Bytes → Text × Bytes
stored mime payload original = (mime, payload)
stored mime payload (converted m out) = (m, out)

stored-routed :
    (mime : Text) (payload : Bytes) (target : OutputFormat) (o : Option Bytes)
    → stored mime payload (file_routed target o) ≡ routed mime payload target o
stored-routed mime payload target none = refl
stored-routed mime payload target (some c) = refl

module _ (message : OutputFormat → Text) (convert : Convert) (limit : ℕ) (run : FileRun) where
  -- The converter of a file that holds the payload.
  abbrev pub file_convert : Bytes → Transcode → Bytes ⊎ PipelineError
  file_convert payload job = transcode_file_end message limit run job.output (convert job payload)

  outcome_of-file :
      (target : OutputFormat) (r : Bytes ⊎ PipelineError)
      → run.drains ≡ true
      → run.readable ≡ true
      → ((out : Bytes) → r ≡ inl out → length out ≤ limit)
      → outcome_of (λ t. true) (transcode_file_end message limit run target r)
        ≡ outcome_of (is_valid_output target) r
  unfolding transcode_file_end outcome_of
  outcome_of-file target (inr e) d o f = refl
  outcome_of-file target (inl c) d o f =
      let small : ltb limit (length c) ≡ false = ground (arith, f c refl) in
      rw (d, small, o, check_signature-valid target c)
        (elim (Bool-cases (is_valid_output target c)) [ inl e ↦ rw e | inr e ↦ rw e ])

  abbrev Agrees : Text → Bytes → Guards × FileRoute Bytes → Guards × (Text × Bytes) → Type 0
  Agrees mime payload file memory = (file.0 ≡ memory.0) × (stored mime payload file.1 ≡ memory.1)

  Agrees-routed :
      (mime : Text) (payload : Bytes) (target : OutputFormat) (a b : Guards × Option Bytes)
      → a ≡ b
      → Agrees mime payload (a.0, file_routed target a.1) (b.0, routed mime payload target b.1)
  Agrees-routed mime payload target a b e = rw e (refl, stored-routed mime payload target b.1)

  Agrees-job :
      (mime : Text) (payload : Bytes) (g : Guards) (now later : ℕ) (p : Option Transcode)
      → run.drains ≡ true
      → run.readable ≡ true
      → ((job : Transcode) (out : Bytes) → convert job payload ≡ inl out → length out ≤ limit)
      → Agrees mime payload
          (route_file_job g now later (file_convert payload) p)
          (route_job mime payload g now later convert p)
  Agrees-job mime payload g now later none d o f = (refl, refl)
  Agrees-job mime payload g now later (some job) d o f =
      Agrees-routed mime payload job.output
        (attempt_guarded g now later (file_convert payload job) (λ t. true))
        (attempt_guarded g now later (convert job payload) (is_valid_output job.output))
        (attempt_guarded-same (λ t. true) (is_valid_output job.output) (file_convert payload job)
          (convert job payload) (outcome_of-file job.output (convert job payload) d o (f job)) g now
          later)

  -- A payload in a file, decided by its first `n` bytes where `n` is at least 512, where the
  -- converter's output can be written to its file and read back and has at most `limit` bytes, is
  -- stored as it would be from memory, and leaves the breaker and the throttle as that would.
  pub route_file_with-memory :
      (mime : Text) (payload : Bytes) (g : Guards) (now later n : ℕ)
      → sniff_head_bytes ≤ n
      → run.drains ≡ true
      → run.readable ≡ true
      → ((job : Transcode) (out : Bytes) → convert job payload ≡ inl out → length out ≤ limit)
      → let file = route_file_with mime (take n payload) g now later (file_convert payload) in
        let memory = route_with mime payload g now later convert in
        (file.0 ≡ memory.0) × (stored mime payload file.1 ≡ memory.1)
  unfolding route_file_with route_with
  route_file_with-memory mime payload g now later n h d o f =
      subst
        (λ p.
          Agrees mime payload (route_file_job g now later (file_convert payload) p)
            (route_job mime payload g now later convert (plan mime payload)))
        (sym (plan-take mime payload n h))
        (Agrees-job mime payload g now later (plan mime payload) d o f)
