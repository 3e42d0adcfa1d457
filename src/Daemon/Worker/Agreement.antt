-- ===== src/Daemon/Worker/Agreement.antt =====
-- The image pipeline of crates/daemon/src/worker.rs on its two roads: a spool file is handed on as the
-- bytes in memory would be.
use y4p.Prelude.{
  ℕ, ◌≡◌, refl, sym, subst, ◌∙◌, ap, true, Option, none, some, [], ◌∷◌, arith, ◌⊎◌, inl, inr,
  length, take, append-nil, ◌≤◌,
}
use y4p.Core.Text.{Text, Bytes}
use y4p.Core.Payload.{SpooledFile, new_spooled}
use y4p.Core.Constants.{digest_len, max_payload_bytes}
use y4p.Image.Pipeline.{PipelineError}
use y4p.Image.Transcode.{OutputFormat, Transcode}
use y4p.Image.Route.{
  Guards, Convert, attempt_guarded, outcome_of, concluded, plan, FileRoute, original, converted,
  file_routed, route_file_job, route_file_with, route_with, sniff_head_bytes,
}
use y4p.Image.Route.Roads.{stored, file_convert, route_file_with-memory}
use y4p.Daemon.Spool.{finish, transcoded, transcode_spooled}
use y4p.Daemon.Worker.{Job, OnDisk, replaced, read_head, transcode_file_to, convert_if_wanted}
use y4p.Storage.Rows.{Host}

module _ {ℓ κ} {A : Type ℓ} {B : Type κ} (f : A → B) where
  abbrev map_ok : A ⊎ PipelineError → B ⊎ PipelineError
  map_ok (inl a) = inl (f a)
  map_ok (inr e) = inr e

  abbrev map_some : Option A → Option B
  map_some none = none
  map_some (some a) = some (f a)

  abbrev map_route : FileRoute A → FileRoute B
  map_route original = original
  map_route (converted mime a) = converted mime (f a)

  attempt_guarded-map_ok :
      (g : Guards) (now later : ℕ) (r : A ⊎ PipelineError)
      → attempt_guarded g now later (map_ok r) (λ b. true) ≡ (
        (attempt_guarded g now later r (λ a. true)).0,
        map_some (attempt_guarded g now later r (λ a. true)).1,
      )
  unfolding attempt_guarded outcome_of concluded
  attempt_guarded-map_ok g now later r = ground arith

  file_routed-map_some :
      (o : OutputFormat) (r : Option A) → file_routed o (map_some r) ≡ map_route (file_routed o r)
  file_routed-map_some o none = refl
  file_routed-map_some o (some a) = refl

  route_file_job-map_route :
      (g : Guards) (now later : ℕ) (h : Transcode → A ⊎ PipelineError)
      (k : Transcode → B ⊎ PipelineError) (p : Option Transcode)
      → ((job : Transcode) → k job ≡ map_ok (h job))
      → route_file_job g now later k p
        ≡ ((route_file_job g now later h p).0, map_route (route_file_job g now later h p).1)
  route_file_job-map_route g now later h k none e = refl
  route_file_job-map_route g now later h k (some job) e =
      let a = attempt_guarded g now later (h job) (λ x. true) in
      ap
        (λ r. (
          (attempt_guarded g now later r (λ b. true)).0,
          file_routed job.output (attempt_guarded g now later r (λ b. true)).1,
        ))
        (e job)
      ∙ ap (λ r. (r.0, file_routed job.output r.1)) (attempt_guarded-map_ok g now later (h job))
      ∙ ap (λ r. (a.0, r)) (file_routed-map_some job.output a.1)

-- A file on disk that holds `bytes`, with their length and digest.
abbrev pub Holds : (Bytes → Bytes) → Bytes → OnDisk → Type 0
Holds sha3 bytes f = (f.0 ≡ some bytes) × (f.1.len ≡ length bytes) × (f.1.digest ≡ sha3 bytes)

module _ (host : Host) (sha3 : Bytes → Bytes) (max_history : ℕ) (convert : Convert)
    (name : ℕ → Text) (message : OutputFormat → Text) (derived : Text)
    (digests : (b : Bytes) → length (sha3 b) ≡ digest_len) where
  abbrev hash : Bytes → Bytes × SpooledFile
  hash out = (out, new_spooled derived (length out) (sha3 out))

  finish-one : (out : Bytes) → finish sha3 name (out ∷ []) ≡ some (sha3 out)
  unfolding finish
  finish-one out = rw (append-nil out) (ground (arith, digests out))

  transcoded-hash : (r : Bytes ⊎ PipelineError) → transcoded sha3 name derived r ≡ map_ok hash r
  transcoded-hash (inl out) = rw (finish-one out) refl
  transcoded-hash (inr e) = refl

  -- What is handed on, next to what `route_with` answers in memory.
  abbrev pub Agrees : Guards × (Text × OnDisk) → Guards × (Text × Bytes) → Type 0
  Agrees (g, (mime, f)) (g', (mime', bytes)) = (g ≡ g') × (mime ≡ mime') × Holds sha3 bytes f

  replaced-Agrees :
      (mime : Text) (bytes : Bytes) (f : OnDisk) (g g' : Guards) (r : FileRoute Bytes)
      (pair : Text × Bytes)
      → Holds sha3 bytes f
      → g ≡ g'
      → stored mime bytes r ≡ pair
      → Agrees (g, replaced mime f (map_route hash r)) (g', pair)
  unfolding new_spooled
  replaced-Agrees mime bytes f g g' original (m, b) h e s =
      (e, ap (λ t. t.0) s, subst (λ (x : Bytes). Holds sha3 x f) (ap (λ t. t.1) s) h)
  replaced-Agrees mime bytes f g g' (converted mime' out) (m, b) h e s = (
    e,
    ap (λ t. t.0) s,
    subst (λ (x : Bytes). Holds sha3 x (some out, new_spooled derived (length out) (sha3 out)))
        (ap (λ t. t.1) s) (refl, refl, refl),
  )

  -- For a spool file that holds `bytes`, where the converter's output can be written to its new file
  -- and read back and is within the payload limit, `convert_if_wanted` leaves the breaker and the
  -- throttle as `route_with` does for the bytes, and hands on its MIME type and a file that holds its
  -- bytes.
  pub convert_if_wanted-Agrees :
      (j : Job) (g : Guards) (mime : Text) (bytes : Bytes) (f : SpooledFile)
      → Holds sha3 bytes (some bytes, f)
      → j.created ≡ true
      → j.file_run.drains ≡ true
      → j.file_run.readable ≡ true
      → ((job : Transcode) (out : Bytes)
          → convert job bytes ≡ inl out
          → length out ≤ max_payload_bytes)
      → Agrees
          (convert_if_wanted host sha3 max_history convert name message derived j g mime
            (some bytes, f))
          (route_with mime bytes g j.now j.later convert)
  unfolding convert_if_wanted read_head transcode_file_to transcode_spooled route_file_with
  convert_if_wanted-Agrees j g mime bytes f h c d o fits =
      let head = take sniff_head_bytes bytes in
      let files = file_convert message convert max_payload_bytes j.file_run bytes in
      let same =
        route_file_job-map_route hash g j.now j.later files
          (transcode_file_to host sha3 max_history convert name message derived j (some bytes, f))
          (plan mime head) (λ job. rw c (transcoded-hash (files job))) in
      let agree =
        route_file_with-memory message convert max_payload_bytes j.file_run mime bytes g j.now
          j.later sniff_head_bytes (omega arith) d o fits in
      subst
        (λ (r : Guards × FileRoute (Bytes × SpooledFile)).
          Agrees (r.0, replaced mime (some bytes, f) r.1)
            (route_with mime bytes g j.now j.later convert))
        (sym same)
        (replaced-Agrees mime bytes (some bytes, f) _ _
          (route_file_with mime head g j.now j.later files).1
          (route_with mime bytes g j.now j.later convert).1 h agree.0 agree.1)
