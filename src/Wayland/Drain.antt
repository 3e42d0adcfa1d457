-- ===== src/Wayland/Drain.antt =====
-- Draining the compositor's pipe: `drain_pipe`, `normalise_payload` and what they call in
-- crates/wayland/src/handlers/data_control/device.rs, and the outcome of a spooler,
-- crates/wayland/src/spool.rs. The spooler is an argument, with what its trait promises.
pub mod Whole
use y4p.Prelude.{
  ℕ, Bool, true, false, Option, none, some, List, [], ◌∷◌, ◌++◌, ltb, if◌then◌else◌, ◌⊎◌, inl, inr,
  length, take, drop,
}
use y4p.Core.Text.{Text, Bytes, codes}
use y4p.Core.Mime.{mime_base_eq, detect_image_mime}
use y4p.Core.Uri.{normalize_uri_list}
use y4p.Core.Payload.{
  PayloadError, OsError, Source, SpooledFile, Payload, len_hint, read_bounded, take_to_end,
  PayloadRoute, inline, route_payload,
}
use y4p.Core.Constants.{inline_payload_threshold_bytes}

pub data SpoolOutcome : Type 0 where
  spooled : SpooledFile → SpoolOutcome
  rejected : SpoolOutcome
  unavailable : Bytes → SpoolOutcome

-- `PayloadSpooler::spool` on the head, the rest of the stream and the limit.
abbrev pub Spooler : Type 0
Spooler = Bytes → Bytes → ℕ → SpoolOutcome

pub data Drained : Type 0 where
  in_memory : Bytes → Drained
  on_disk : SpooledFile → Bytes → Drained

abbrev pub ok_memory : Bytes ⊎ PayloadError → Option Drained
ok_memory (inl bytes) = some (in_memory bytes)
ok_memory (inr e) = none

-- `read_pipe_payload` and the `map` behind it.
unfoldable pub read_pipe_payload : Source → ℕ → Option Drained
unfolding read_bounded
read_pipe_payload reader limit = ok_memory (read_bounded reader limit)

-- The match on the spooler's outcome; what comes back is read behind the head.
abbrev pub after_spool : Bytes → Option OsError → ℕ → SpoolOutcome → Option Drained
after_spool head fault limit (spooled f) = some (on_disk f head)
after_spool head fault limit rejected = none
after_spool head fault limit (unavailable rest) =
    ok_memory (read_bounded (record { bytes = head ++ rest; fault = fault }) limit)

abbrev pub small_or_none : Bytes → Option Drained
small_or_none [] = none
small_or_none (b ∷ head) = some (in_memory (b ∷ head))

abbrev pub behind_head : Spooler → Source → ℕ → Bytes ⊎ OsError → Option Drained
behind_head spool reader limit (inr e) = none
behind_head spool reader limit (inl head) =
    if ltb (length head) inline_payload_threshold_bytes
    then small_or_none head
    else after_spool head reader.fault limit
        (spool head (drop inline_payload_threshold_bytes reader.bytes) limit)

abbrev pub drain_by : PayloadRoute → Option Spooler → Source → ℕ → Option Drained
drain_by inline spooler reader limit = read_pipe_payload reader limit
drain_by PayloadRoute.stream none reader limit = read_pipe_payload reader limit
drain_by PayloadRoute.stream (some spool) reader limit =
    behind_head spool reader limit (take_to_end inline_payload_threshold_bytes reader)

unfoldable pub drain_pipe : Source → Text → ℕ → Option Spooler → Option Drained
unfolding route_payload read_pipe_payload take_to_end
drain_pipe reader mime limit spooler = drain_by (route_payload mime none) spooler reader limit

unfoldable pub relabel_by_magic : Text → Bytes → Text
unfolding detect_image_mime
relabel_by_magic announced head = elim (detect_image_mime head) [
  | some detected ↦ detected
  | none ↦ announced
]

abbrev pub mime_uri_list : Text
mime_uri_list = codes "text/uri-list"

abbrev pub unless_empty : Text → Bytes → Option (Text × Bytes)
unless_empty mime [] = none
unless_empty mime (b ∷ bytes) = some (mime, b ∷ bytes)

module _ (percent_decode : Bytes → Bytes) where
  unfoldable pub normalise_payload : Text → Bytes → Option (Text × Bytes)
  unfolding normalize_uri_list mime_base_eq relabel_by_magic
  normalise_payload mime payload =
      if mime_base_eq mime mime_uri_list
      then unless_empty mime (normalize_uri_list percent_decode payload)
      else some (relabel_by_magic mime payload, payload)

  -- What `ingest_and_send` hands over: the MIME type and the payload of the job.
  abbrev pub memory_job : Option (Text × Bytes) → Option (Text × Payload)
  memory_job none = none
  memory_job (some (mime, bytes)) = some (mime, Payload.memory bytes)

  abbrev pub job_for : Text → Option Drained → Option (Text × Payload)
  job_for mime none = none
  job_for mime (some (in_memory bytes)) = memory_job (normalise_payload mime bytes)
  job_for mime (some (on_disk f head)) = some (relabel_by_magic mime head, Payload.spooled f)

  unfoldable pub ingested_job : Source → Text → ℕ → Option Spooler → Option (Text × Payload)
  unfolding drain_pipe normalise_payload
  ingested_job reader mime limit spooler = job_for mime (drain_pipe reader mime limit spooler)

-- `accounted_bytes` of crates/wayland/src/state.rs, where a `usize` holds every length.
unfoldable pub accounted_bytes : Payload → ℕ
unfolding len_hint
accounted_bytes payload = elim (len_hint payload) [ none ↦ 0 | some len ↦ len ]
