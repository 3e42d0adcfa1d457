-- ===== src/Wayland/Drain/Whole.antt =====
-- `drain_pipe` of crates/wayland/src/handlers/data_control/device.rs against the stream of the pipe.
use y4p.Prelude.{
  ℕ, ◌≤◌, ◌<◌, ◌≡◌, refl, sym, subst, ◌∙◌, ap, Option, none, some, [], ◌∷◌, ◌++◌, arith, ltb, ◌⊎◌,
  inl, inr, length, take, drop, u64_max, take-append-drop, Bool-cases, take_all, length-take,
  ltb→lt,
}
use y4p.Core.Text.{Text, Bytes}
use y4p.Core.Payload.{
  PayloadError, OsError, Source, SpooledFile, read_bounded, take_to_end, PayloadRoute, inline,
  route_payload,
}
use y4p.Core.Payload.Reading.{Complete, read_bounded-Complete}
use y4p.Core.Constants.{inline_payload_threshold_bytes}
use y4p.Wayland.Drain.{
  SpoolOutcome, spooled, rejected, unavailable, Spooler, Drained, in_memory, on_disk, ok_memory,
  read_pipe_payload, after_spool, small_or_none, behind_head, drain_by, drain_pipe,
}

-- What the trait promises of one `spool`, where `Holds f s` says that the file of `f` holds the stream
-- `s`: a spooled file holds the head and the rest, and a pipe that comes back is as it was.
abbrev pub Keeps : (SpooledFile → Bytes → Type 0) → Bytes → Bytes → SpoolOutcome → Type 0
Keeps Holds head rest (spooled f) = Holds f (head ++ rest)
Keeps Holds head rest rejected = Unit
Keeps Holds head rest (unavailable back) = back ≡ rest

-- What reading the first page answers: where it is shorter, the stream has ended.
head_of_read :
    (bytes : Bytes) (fault : Option OsError) (head : Bytes)
    → take_to_end inline_payload_threshold_bytes (record { bytes = bytes; fault = fault })
      ≡ inl head
    → (head ≡ take inline_payload_threshold_bytes bytes)
      × (length head < inline_payload_threshold_bytes → (head ≡ bytes) × (fault ≡ none))
unfolding take_to_end
head_of_read bytes none head e =
    elim (Bool-cases (ltb (length bytes) inline_payload_threshold_bytes)) [
      | inl t ↦
          let same : head ≡ bytes = ground (arith, t, e) in
          (
            same ∙ sym (take_all inline_payload_threshold_bytes bytes (ground (arith, t))),
            λ h. (same, refl),
          )
      | inr t ↦
          let same : head ≡ take inline_payload_threshold_bytes bytes = ground (arith, t, e) in
          (
            same,
            λ h. absurd (
                ground
                  (arith, t, h, ap length same, length-take inline_payload_threshold_bytes bytes)),
          )
    ]
head_of_read bytes (some x) head e =
    elim (Bool-cases (ltb (length bytes) inline_payload_threshold_bytes)) [
      | inl t ↦ ground (arith, t, e)
      | inr t ↦
          let same : head ≡ take inline_payload_threshold_bytes bytes = ground (arith, t, e) in
          (
            same,
            λ h. absurd (
                ground
                  (arith, t, h, ap length same, length-take inline_payload_threshold_bytes bytes)),
          )
    ]

module _ (Holds : SpooledFile → Bytes → Type 0) (reader : Source) (limit : ℕ)
    (small : limit < u64_max) (page : inline_payload_threshold_bytes ≤ limit) where
  -- What a drain may answer.
  abbrev pub IsWhole : Option Drained → Type 0
  IsWhole none = Unit
  IsWhole (some (in_memory bytes)) = Complete limit bytes reader
  IsWhole (some (on_disk f head)) =
      Holds f reader.bytes × (head ≡ take inline_payload_threshold_bytes reader.bytes)

  ok_memory-IsWhole :
      (s : Source) (r : Bytes ⊎ PayloadError)
      → s ≡ reader
      → read_bounded s limit ≡ r
      → IsWhole (ok_memory r)
  ok_memory-IsWhole s (inl bytes) e r =
      subst (λ (x : Source). Complete limit bytes x) e (read_bounded-Complete s limit bytes small r)
  ok_memory-IsWhole s (inr x) e r = tt

  after_spool-IsWhole :
      (head : Bytes) (o : SpoolOutcome)
      → head ≡ take inline_payload_threshold_bytes reader.bytes
      → Keeps Holds head (drop inline_payload_threshold_bytes reader.bytes) o
      → IsWhole (after_spool head reader.fault limit o)
  after_spool-IsWhole head rejected e k = tt
  after_spool-IsWhole head (spooled f) e k =
      let whole : head ++ drop inline_payload_threshold_bytes reader.bytes ≡ reader.bytes =
        ap (λ h. h ++ drop inline_payload_threshold_bytes reader.bytes) e
        ∙ take-append-drop inline_payload_threshold_bytes reader.bytes in
      (subst (Holds f) whole k, e)
  after_spool-IsWhole head (unavailable back) e k =
      let whole : head ++ back ≡ reader.bytes =
        ap (◌++◌ head) k
        ∙ ap (λ h. h ++ drop inline_payload_threshold_bytes reader.bytes) e
        ∙ take-append-drop inline_payload_threshold_bytes reader.bytes in
      ok_memory-IsWhole (record { bytes = head ++ back; fault = reader.fault }) _
        (ap (λ (b : Bytes). let s : Source = record { bytes = b; fault = reader.fault } in s) whole)
        refl

  small_or_none-IsWhole :
      (head : Bytes)
      → head ≡ reader.bytes
      → reader.fault ≡ none
      → length head ≤ limit
      → IsWhole (small_or_none head)
  small_or_none-IsWhole [] e f l = tt
  small_or_none-IsWhole (b ∷ head) e f l = record {
    whole = sym e;
    ends = f;
    not_empty = omega arith;
    fits = l;
  }

  behind_head-IsWhole :
      (spool : Spooler) (r : Bytes ⊎ OsError)
      → take_to_end inline_payload_threshold_bytes reader ≡ r
      → ((head rest : Bytes) → Keeps Holds head rest (spool head rest limit))
      → IsWhole (behind_head spool reader limit r)
  behind_head-IsWhole spool (inr e) r k = tt
  behind_head-IsWhole spool (inl head) r k =
      let (start, short) = head_of_read reader.bytes reader.fault head r in
      elim (Bool-cases (ltb (length head) inline_payload_threshold_bytes)) [
        | inl t ↦
            let (e, f) = short (ltb→lt _ _ t) in
            rw t (small_or_none-IsWhole head e f (ground (arith, page, t)))
        | inr t ↦ rw t (
            after_spool-IsWhole head _ start
              (k head (drop inline_payload_threshold_bytes reader.bytes)))
      ]

  drain_by-IsWhole :
      (route : PayloadRoute) (spooler : Option Spooler)
      → ((spool : Spooler)
          → spooler ≡ some spool
          → (head rest : Bytes) → Keeps Holds head rest (spool head rest limit))
      → IsWhole (drain_by route spooler reader limit)
  unfolding read_pipe_payload
  drain_by-IsWhole inline spooler k = ok_memory-IsWhole reader (read_bounded reader limit) refl refl
  drain_by-IsWhole PayloadRoute.stream none k =
      ok_memory-IsWhole reader (read_bounded reader limit) refl refl
  drain_by-IsWhole PayloadRoute.stream (some spool) k =
      behind_head-IsWhole spool (take_to_end inline_payload_threshold_bytes reader) refl
        (k spool refl)

  -- Under a limit of at least a page and below the largest `u64`, with a spooler that keeps what its trait
  -- promises: a payload that `drain_pipe` answers in memory is the whole stream up to its proper end, not
  -- empty and within the limit, and one that it answers on disk is a file that holds the whole stream, with
  -- the first page as its head.
  pub drain_pipe-IsWhole :
      (mime : Text) (spooler : Option Spooler)
      → ((spool : Spooler)
          → spooler ≡ some spool
          → (head rest : Bytes) → Keeps Holds head rest (spool head rest limit))
      → IsWhole (drain_pipe reader mime limit spooler)
  unfolding drain_pipe
  drain_pipe-IsWhole mime spooler k = drain_by-IsWhole (route_payload mime none) spooler k
