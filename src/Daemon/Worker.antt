-- ===== src/Daemon/Worker.antt =====
-- crates/daemon/src/worker.rs: what the database worker does with one job, on both roads. SHA3-256
-- and the converter are arguments, as are the ends of the calls below (`Storage.Facade`).
pub mod Agreement
pub mod Rows
use y4p.Prelude.{
  ℕ, Bool, true, false, Option, none, some, List, [], ◌∷◌, ◌⊎◌, inl, inr, length, take,
}
use y4p.Core.Text.{Text, Bytes}
use y4p.Core.Payload.{PayloadError, OpenFiles, Payload, SpooledFile, read_payload, to_hex}
use y4p.Core.Constants.{max_payload_bytes}
use y4p.Image.Pipeline.{PipelineError}
use y4p.Image.Transcode.{OutputFormat, Transcode}
use y4p.Image.Route.{
  Guards, Convert, route_with, FileRoute, original, converted, route_file_with, sniff_head_bytes,
  transcode_file_end, FileRun,
}
use y4p.Storage.Rows.{Host}
use y4p.Storage.Db.{Result, ok, err}
use y4p.Storage.Cache.{Written, Moved}
use y4p.Storage.Facade.{ClipboardDb, InsertResult, insert_with_hash, insert_spooled}
use y4p.Storage.Facade
use y4p.Daemon.Spool.{transcode_spooled}

-- What the worker thread changes.
pub record State : Type 0 where
  pub guards : Guards
  pub db : ClipboardDb

-- `Saved`, where something was saved.
abbrev pub Stored : Type 0
Stored = Result (Option (Text × ℕ))

-- How the calls of one job end: when the routing starts and is over, the file of the converter, the
-- transaction, the cache.
pub record Job : Type 0 where
  pub now : ℕ
  pub later : ℕ
  pub created : Bool
  pub file_run : FileRun
  pub ts : ℕ
  pub commits : Bool
  pub written : Written
  pub moved : Moved

abbrev pub saved : Text → ℕ → Guards → ClipboardDb × InsertResult → State × Stored
saved mime len g (db, ok id) = (record { guards = g; db = db }, ok (some (mime, len)))
saved mime len g (db, err) = (record { guards = g; db = db }, err)

-- A spool file with what reading it gives; `none` cannot be read.
abbrev pub OnDisk : Type 0
OnDisk = Option Bytes × SpooledFile

unfoldable pub read_head : OnDisk → Bytes
read_head (none, f) = []
read_head (some bytes, f) = take sniff_head_bytes bytes

abbrev pub replaced : Text → OnDisk → FileRoute (Bytes × SpooledFile) → Text × OnDisk
replaced mime f original = (mime, f)
replaced mime f (converted mime' (bytes, f')) = (mime', (some bytes, f'))

abbrev pub source_bytes : OnDisk → Bytes
source_bytes (none, f) = []
source_bytes (some bytes, f) = bytes

abbrev pub opens : OnDisk → Bool
opens (none, f) = false
opens (some bytes, f) = true

module _ (host : Host) (sha3 : Bytes → Bytes) (max_history : ℕ) (convert : Convert) where
  unfoldable pub fingerprint : Bytes → Text
  fingerprint bytes = to_hex (sha3 bytes)

  -- `process_job`: the image pipeline first, then the hash of what is stored.
  unfoldable pub process_job : Job → Guards → Text → Bytes → Guards × (Text × (Bytes × Text))
  unfolding fingerprint route_with
  process_job j g mime bytes =
      let (g', (mime', bytes')) = route_with mime bytes g j.now j.later convert in
      (g', (mime', (bytes', fingerprint bytes')))

  -- `insert_with_hash` on what `process_job` answers.
  abbrev pub insert_processed :
      Job → ClipboardDb → Guards × (Text × (Bytes × Text)) → State × Stored
  insert_processed j db (g, (mime, (bytes, hash))) =
      saved mime (length bytes) g
        (insert_with_hash host j.commits j.written j.ts mime bytes hash max_history db)

  -- `materialise` and what follows.
  abbrev pub materialised : Job → Text → State → Bytes ⊎ PayloadError → State × Stored
  materialised j mime s (inr e) = (s, ok none)
  materialised j mime s (inl bytes) = insert_processed j s.db (process_job j s.guards mime bytes)

  unfoldable pub store_materialised : OpenFiles → Job → Text → Payload → State → State × Stored
  unfolding process_job read_payload insert_with_hash
  store_materialised files j mime payload s =
      materialised j mime s (read_payload files payload max_payload_bytes)

  -- The converter between two spool files. `derived` names the new one, and `message` is the text of
  -- its error.
  module _ (name : ℕ → Text) (message : OutputFormat → Text) (derived : Text) where
    unfoldable pub transcode_file_to :
        Job → OnDisk → Transcode → (Bytes × SpooledFile) ⊎ PipelineError
    unfolding transcode_spooled transcode_file_end
    transcode_file_to j f job = transcode_spooled sha3 name (opens f) j.created derived (
        transcode_file_end message max_payload_bytes j.file_run job.output
          (convert job (source_bytes f)))

    unfoldable pub convert_if_wanted : Job → Guards → Text → OnDisk → Guards × (Text × OnDisk)
    unfolding route_file_with transcode_file_to read_head
    convert_if_wanted j g mime f =
        let (g', routed) =
          route_file_with mime (read_head f) g j.now j.later (transcode_file_to j f) in
        (g', replaced mime f routed)

    -- `insert_spooled` on what `convert_if_wanted` answers.
    abbrev pub insert_converted : Job → ClipboardDb → Guards × (Text × OnDisk) → State × Stored
    insert_converted j db (g, (mime, (bytes, f))) = saved mime f.len g (
        insert_spooled host j.commits j.written j.moved j.ts mime
          (record { file = bytes; len = f.len; hex_digest = to_hex f.digest }) max_history db)

    unfoldable pub store_spooled : Job → Text → OnDisk → State → State × Stored
    unfolding convert_if_wanted insert_spooled
    store_spooled j mime f s = insert_converted j s.db (convert_if_wanted j s.guards mime f)
