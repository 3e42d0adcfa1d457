-- ===== src/Core/Payload/Reading.antt =====
-- `read_bounded` of crates/core/src/payload.rs against the stream that it reads.
use y4p.Prelude.{
  ℕ, ◌+◌, ◌≤◌, ◌<◌, min, ◌≡◌, refl, sym, ◌∙◌, ap, Option, none, some, [], ◌∷◌, arith, ltb,
  if◌then◌else◌, ◌⊎◌, inl, inr, length, take, u64_max, length-take, Bool-cases, dec_le, ◌==◌,
}
use y4p.Core.Text.{Bytes}
use y4p.Core.Payload.{
  PayloadError, empty, too_large, io, OsError, Source, Payload, memory, stream, file, spooled,
  probe_limit, take_to_end, within_limit, read_of, read_bounded, Opened, OpenFiles, read_opened,
  read_stated, read_payload, exceeds,
}

pub within_limit-length :
    (limit : ℕ) (b : Bytes)
    → within_limit limit b ≡ (
        if length b == 0
        then inr empty
        else if ltb limit (length b)
        then inr (too_large limit)
        else inl b)
within_limit-length limit [] = refl
within_limit-length limit (x ∷ b) = ground arith

-- What `read_bounded` answers for a stream, by its length and how it ends.
abbrev pub expected : ℕ → Bytes → Option OsError → Bytes ⊎ PayloadError
expected limit bytes none = within_limit limit bytes
expected limit bytes (some e) =
    if ltb limit (length bytes) then inr (too_large limit) else inr (io e)

over :
    (limit : ℕ) (bytes : Bytes)
    → limit < length bytes
    → within_limit limit (take (limit + 1) bytes) ≡ inr (too_large limit)
over limit bytes h =
    within_limit-length limit (take (limit + 1) bytes)
    ∙ ground (arith, length-take (limit + 1) bytes)

short :
    (limit : ℕ) (bytes : Bytes) (f : Option OsError)
    → length bytes ≤ limit
    → read_of limit (take_to_end (limit + 1) (record { bytes = bytes; fault = f }))
      ≡ expected limit bytes f
unfolding take_to_end
short limit bytes none h = ground arith
short limit bytes (some e) h = ground arith

long :
    (limit : ℕ) (bytes : Bytes) (f : Option OsError)
    → limit < length bytes
    → read_of limit (take_to_end (limit + 1) (record { bytes = bytes; fault = f }))
      ≡ expected limit bytes f
unfolding take_to_end
long limit bytes none h = ground (arith, over limit bytes h, within_limit-length limit bytes)
long limit bytes (some e) h = ground (arith, over limit bytes h)

-- `read_bounded` under a limit below the largest `u64`: a stream that is longer is refused, whether it
-- ends or fails behind that; a shorter one is an error if it fails or is empty, and else is whole.
pub read_bounded_exact :
    (s : Source) (limit : ℕ)
    → limit < u64_max
    → read_bounded s limit ≡ expected limit s.bytes s.fault
unfolding read_bounded probe_limit
read_bounded_exact s limit h =
    let n : min (limit + 1) u64_max ≡ limit + 1 = omega arith in
    ap (λ k. read_of limit (take_to_end k s)) n ∙ elim (dec_le (length s.bytes) limit) [
      | yes le ↦ short limit s.bytes s.fault le
      | no gt ↦ long limit s.bytes s.fault (omega arith)
    ]

-- What a payload holds, where it can be opened.
abbrev held : Opened ⊎ OsError → Option Source
held (inl o) = some o.source
held (inr e) = none

unfoldable pub content : OpenFiles → Payload → Option Source
unfolding held
content files (memory bytes) = some (record { bytes = bytes; fault = none })
content files (stream s) = some s.source
content files (file path) = held (files path)
content files (spooled f) = held (files f.path)

-- A source that is read to its end, within the limit.
pub record Complete (limit : ℕ) (out : Bytes) (s : Source) : Type 0 where
  pub whole : s.bytes ≡ out
  pub ends : s.fault ≡ none
  pub not_empty : 0 < length out
  pub fits : length out ≤ limit

within_limit-Complete :
    (limit : ℕ) (bytes out : Bytes)
    → within_limit limit bytes ≡ inl out
    → (bytes ≡ out) × (0 < length out) × (length out ≤ limit)
within_limit-Complete limit [] out e = cc
within_limit-Complete limit (b ∷ bytes) out e = ground (arith, e)

expected-Complete :
    (limit : ℕ) (s : Source) (f : Option OsError) (out : Bytes)
    → s.fault ≡ f
    → expected limit s.bytes f ≡ inl out
    → Complete limit out s
expected-Complete limit s none out e h =
    let (w, n, l) = within_limit-Complete limit s.bytes out h in
    record { whole = w; ends = e; not_empty = n; fits = l }
expected-Complete limit s (some x) out e h = ground (arith, h)

pub read_bounded-Complete :
    (s : Source) (limit : ℕ) (out : Bytes)
    → limit < u64_max
    → read_bounded s limit ≡ inl out
    → Complete limit out s
read_bounded-Complete s limit out h e =
    expected-Complete limit s s.fault out refl (sym (read_bounded_exact s limit h) ∙ e)

read_stated-Complete :
    (limit : ℕ) (o : Opened ⊎ OsError) (out : Bytes)
    → limit < u64_max
    → read_stated limit o ≡ inl out
    → (s : Source) × (held o ≡ some s) × Complete limit out s
read_stated-Complete limit (inr x) out h e = cc
read_stated-Complete limit (inl o) out h e = elim (Bool-cases (exceeds limit o.size)) [
  | inl t ↦ ground (arith, t, e)
  | inr t ↦ (o.source, refl, read_bounded-Complete o.source limit out h (ground (arith, t, e)))
]

read_opened-Complete :
    (limit : ℕ) (o : Opened ⊎ OsError) (out : Bytes)
    → limit < u64_max
    → read_opened limit o ≡ inl out
    → (s : Source) × (held o ≡ some s) × Complete limit out s
read_opened-Complete limit (inr x) out h e = cc
read_opened-Complete limit (inl o) out h e =
    (o.source, refl, read_bounded-Complete o.source limit out h e)

-- A payload that is read under a limit below the largest `u64`, wherever its bytes live, is all that
-- the stream held up to its proper end: it is not empty, not longer than the limit and never cut.
pub read_payload-Complete :
    (files : OpenFiles) (p : Payload) (limit : ℕ) (out : Bytes)
    → limit < u64_max
    → read_payload files p limit ≡ inl out
    → (s : Source) × (content files p ≡ some s) × Complete limit out s
unfolding read_payload content
read_payload-Complete files (memory bytes) limit out h e = (
  record { bytes = bytes; fault = none },
  refl,
  expected-Complete limit (record { bytes = bytes; fault = none }) none out refl e,
)
read_payload-Complete files (stream s) limit out h e =
    (s.source, refl, read_bounded-Complete s.source limit out h e)
read_payload-Complete files (file path) limit out h e =
    read_stated-Complete limit (files path) out h e
read_payload-Complete files (spooled f) limit out h e = elim (Bool-cases (ltb limit f.len)) [
  | inl t ↦ ground (arith, t, e)
  | inr t ↦ read_opened-Complete limit (files f.path) out h (rw t at e)
]
