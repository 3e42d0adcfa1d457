-- ===== src/Daemon/Spool.antt =====
-- crates/daemon/src/spool.rs: a stream drained into a file of the spool directory, with its digest.
-- The directory is a list of files by path, each of which can be unlinked. How the other system calls
-- end are arguments, as are SHA3-256, and `format!` and the process id for the names. SHA3-256 fed in
-- pieces is that of their concatenation.
pub mod Whole
use y4p.Prelude.{
  ℕ, zero, suc, ◌+◌, ◌-◌, Bool, true, false, not, Option, none, some, List, [], ◌∷◌, ◌++◌, ltb,
  ◌==◌, if◌then◌else◌, ◌⊎◌, inl, inr, length,
}
use y4p.Core.Text.{Text, Bytes}
use y4p.Core.Payload.{PayloadError, empty, too_large, OsError, SpooledFile, new_spooled}
use y4p.Core.Splice.{CopyState, KernelRound}
use y4p.Core.Splice.Copy.{Pass, copy_to_file, opened}
use y4p.Core.Splice.Whole.{concat}
use y4p.Core.Constants.{digest_len}
use y4p.Wayland.Drain.{SpoolOutcome, spooled, rejected, unavailable}
use y4p.Storage.Cache.{Files, exists_at, remove}
use y4p.Image.Pipeline.{PipelineError, IoError, source, sink, other}
use y4p.Image.Transcode.{Transcode}

-- `next` is the counter behind the names.
pub record FileSpooler : Type 0 where
  pub next : ℕ
  pub files : Files

-- How `create` ends: at once; where the directory was missing, after making it or not; or refused.
pub data Created : Type 0 where
  at_once refused : Created
  remade : Bool → Bool → Created

abbrev pub is_created : Created → Bool
is_created at_once = true
is_created refused = false
is_created (remade made opens) = if made then opens else false

-- How the file of a `spool` ends, with what it holds: the guard unlinks it, nothing refers to it any
-- more, or the outcome owns it.
pub data FileEnd : Type 0 where
  unlinked : FileEnd
  abandoned : Bytes → FileEnd
  handed_on : Bytes → SpooledFile → FileEnd

-- The calls of one `spool`: creating the file, writing the head, and those of `copy_to_file`.
pub record Calls : Type 0 where
  pub created : Created
  pub head_written : Bool
  pub pipe : Bool ⊎ OsError
  pub scratch : Bool
  pub rounds : List KernelRound
  pub passes : List Pass

module _ (sha3 : Bytes → Bytes) (name : ℕ → Text) where
  -- `Sha3Tap::finish`.
  unfoldable pub finish : List Bytes → Option Bytes
  finish tap =
      let digest = sha3 (concat tap) in if length digest == digest_len then some digest else none

  -- `fresh_path` and `create`: a file is made only where there is none.
  unfoldable pub create : Created → FileSpooler → FileSpooler × Option Text
  unfolding exists_at
  create c s =
      let path = name s.next in
      let s' : FileSpooler = record s { next = s.next + 1 } in
      if is_created c
      then (if exists_at path s.files
          then (s', none)
          else (record s' { files = (path, []) ∷ s.files }, some path))
      else (s', none)

  -- The last `let` of `spool`: the guard is disarmed whether there is a digest or not.
  abbrev pub kept : Bytes → ℕ → Text → Bytes → Option Bytes → FileEnd
  kept head rest path body none = abandoned (head ++ body)
  kept head rest path body (some digest) =
      handed_on (head ++ body) (new_spooled path (length head + rest) digest)

  abbrev pub copied : Bytes → Text → CopyState × Option PayloadError → FileEnd
  copied head path (w, none) = kept head w.len path w.dst (finish (head ∷ w.tap))
  copied head path (w, some empty) = kept head 0 path w.dst (finish (head ∷ w.tap))
  copied head path (w, some (too_large limit)) = unlinked
  copied head path (w, some (PayloadError.io e)) = unlinked

  -- The guard, and the outcome.
  abbrev pub closed : Text → FileSpooler → FileEnd → FileSpooler × SpoolOutcome
  closed path s unlinked = (record s { files = remove path s.files }, rejected)
  closed path s (abandoned bytes) =
      (record s { files = (path, bytes) ∷ remove path s.files }, rejected)
  closed path s (handed_on bytes f) =
      (record s { files = (path, bytes) ∷ remove path s.files }, spooled f)

  abbrev pub drained :
      Bytes
      → Text
      → FileSpooler
      → Option (CopyState × Option PayloadError)
      → Option (FileSpooler × SpoolOutcome)
  drained head path s none = none
  drained head path s (some r) = some (closed path s (copied head path r))

  abbrev pub into_file :
      Calls → Bytes → Bytes → ℕ → FileSpooler × Option Text → Option (FileSpooler × SpoolOutcome)
  into_file calls head src limit (s, none) = some (s, unavailable src)
  into_file calls head src limit (s, some path) =
      if ltb limit (length head)
      then some (closed path s unlinked)
      else if not calls.head_written
      then some (closed path s unlinked)
      else drained head path s (
          copy_to_file calls.pipe true calls.scratch (limit - length head) calls.rounds calls.passes
            (opened src))

  -- `spool`; `none` still waits for the rest of the stream.
  unfoldable pub spool :
      Calls → Bytes → Bytes → ℕ → FileSpooler → Option (FileSpooler × SpoolOutcome)
  unfolding create finish copy_to_file opened new_spooled remove
  spool calls head src limit s = into_file calls head src limit (create calls.created s)

  -- `transcode_spooled`, but for the directory, where `input` and `output` say whether the two files open, `derived` is the
  -- new path and `ran` what `transcode_file` leaves in the new file.
  abbrev pub hashed : Text → Bytes → Option Bytes → (Bytes × SpooledFile) ⊎ PipelineError
  hashed derived out none = inr (sink other)
  hashed derived out (some digest) = inl (out, new_spooled derived (length out) digest)

  abbrev pub transcoded : Text → Bytes ⊎ PipelineError → (Bytes × SpooledFile) ⊎ PipelineError
  transcoded derived (inr e) = inr e
  transcoded derived (inl out) = hashed derived out (finish (out ∷ []))

  unfoldable pub transcode_spooled :
      Bool → Bool → Text → Bytes ⊎ PipelineError → (Bytes × SpooledFile) ⊎ PipelineError
  unfolding finish new_spooled
  transcode_spooled input output derived ran =
      if not input
      then inr (source other)
      else if not output
      then inr (sink other)
      else transcoded derived ran

-- `sweep_stale`: a file of the directory, by its extension and the process that its name names.
pub data Owner : Type 0 where
  unnamed : Owner
  process : ℕ → Owner

module _ (is_part : Text → Bool) (owner_of : Text → Owner) (process_exists : ℕ → Bool)
    (own : ℕ) where
  unfoldable pub orphaned : Owner → Bool
  orphaned unnamed = true
  orphaned (process pid) = if pid == own then false else not (process_exists pid)

  unfoldable pub sweep_stale : Files → Files
  unfolding orphaned
  sweep_stale [] = []
  sweep_stale (f ∷ fs) =
      let rest = sweep_stale fs in
      if not (is_part f.0) then f ∷ rest else if orphaned (owner_of f.0) then rest else f ∷ rest
