-- ===== src/Image/Pipeline/Relay.antt =====
-- The copying loops of crates/image/src/pipeline.rs against the streams that they copy.
use y4p.Prelude.{
  ℕ, ◌+◌, ◌-◌, ◌≤◌, min, ◌≡◌, refl, sym, ◌∙◌, ap, some, List, [], ◌∷◌, ◌++◌, arith, length, take,
  length-append, append_assoc, append-nil, take-append, take-append_ge, take_all, length-take,
  dec_le,
}
use y4p.Core.Text.{Bytes}
use y4p.Image.Pipeline.{
  interrupted, broken_pipe, other, ReadResult, got, unread, WriteResult, wrote, unwritten, relayed,
  flushed, relay_from, relay, drain_from, drain_capped,
}

-- The bytes that come out of a stream up to its end or its first error.
abbrev pub stream_bytes : List ReadResult → Bytes
stream_bytes [] = []
stream_bytes (got [] ∷ rs) = []
stream_bytes (got (b ∷ bs) ∷ rs) = b ∷ bs ++ stream_bytes rs
stream_bytes (unread interrupted ∷ rs) = stream_bytes rs
stream_bytes (unread broken_pipe ∷ rs) = []
stream_bytes (unread other ∷ rs) = []

-- Cutting a chunk to the room that is left cuts the whole stream.
take-chunk :
    (room : ℕ) (c s : Bytes)
    → take (min (length c) room) c ++ take (room - min (length c) room) s ≡ take room (c ++ s)
unfolding take
take-chunk room c s = elim (dec_le room (length c)) [
  | yes h ↦
      let m : min (length c) room ≡ room = omega arith in
      let z : room - min (length c) room ≡ 0 = omega arith in
      ap (λ k. take k c ++ take (room - min (length c) room) s) m
      ∙ ap (λ k. take room c ++ take k s) z
      ∙ append-nil (take room c)
      ∙ sym (take-append room c s h)
  | no h ↦
      let m : min (length c) room ≡ length c = omega arith in
      ap (λ k. take k c ++ take (room - k) s) m
      ∙ ap (λ t. t ++ take (room - length c) s) (take_all (length c) c (omega arith))
      ∙ sym (take-append_ge room c s (omega arith))
]

kept_whole : (kept : Bytes) (k : ℕ) → kept ≡ kept ++ take k []
kept_whole kept k = sym (ap (◌++◌ kept) (take_all k [] (omega arith)) ∙ append-nil kept)

drain_from-take :
    (cap : ℕ) (kept : Bytes) (rs : List ReadResult)
    → length kept ≤ cap
    → drain_from cap kept rs ≡ kept ++ take (cap - length kept) (stream_bytes rs)
unfolding drain_from
drain_from-take cap kept [] h = kept_whole kept (cap - length kept)
drain_from-take cap kept (got [] ∷ rs) h = kept_whole kept (cap - length kept)
drain_from-take cap kept (got (b ∷ bs) ∷ rs) h =
    let room = cap - length kept in
    let piece = take (min (length (b ∷ bs)) room) (b ∷ bs) in
    let l : length (kept ++ piece) ≡ length kept + min (length (b ∷ bs)) room =
      omega (arith, length-append kept piece, length-take (min (length (b ∷ bs)) room) (b ∷ bs)) in
    let left : cap - length (kept ++ piece) ≡ room - min (length (b ∷ bs)) room =
      omega (arith, l) in
    drain_from-take cap (kept ++ piece) rs (omega (arith, l, h))
    ∙ ap (λ k. (kept ++ piece) ++ take k (stream_bytes rs)) left
    ∙ append_assoc kept piece (take (room - min (length (b ∷ bs)) room) (stream_bytes rs))
    ∙ ap (◌++◌ kept) (take-chunk room (b ∷ bs) (stream_bytes rs))
drain_from-take cap kept (unread interrupted ∷ rs) h = drain_from-take cap kept rs h
drain_from-take cap kept (unread broken_pipe ∷ rs) h = kept_whole kept (cap - length kept)
drain_from-take cap kept (unread other ∷ rs) h = kept_whole kept (cap - length kept)

-- `drain_capped` keeps exactly the first `cap` bytes of what comes out, however it is cut into reads.
pub drain_capped-take :
    (cap : ℕ) (rs : List ReadResult) → drain_capped cap rs ≡ take cap (stream_bytes rs)
unfolding drain_capped
drain_capped-take cap rs =
    let all : cap - length {A = ℕ} [] ≡ cap = omega arith in
    drain_from-take cap [] rs (omega arith) ∙ ap (λ k. take k (stream_bytes rs)) all

relay_from-count :
    (total : ℕ) (out : Bytes) (ts : List (ReadResult × WriteResult)) (n : ℕ)
    → length out ≡ total
    → (relay_from total out ts).1 ≡ some (relayed n)
    → length (relay_from total out ts).0 ≡ n
unfolding relay_from flushed
relay_from-count total out [] n l e = cc
relay_from-count total out ((got [], wrote) ∷ ts) n l e = ground (arith, l, e)
relay_from-count total out ((got [], unwritten x) ∷ ts) n l e = cc
relay_from-count total out ((unread interrupted, w) ∷ ts) n l e =
    relay_from-count total out ts n l e
relay_from-count total out ((unread broken_pipe, w) ∷ ts) n l e = cc
relay_from-count total out ((unread other, w) ∷ ts) n l e = cc
relay_from-count total out ((got (b ∷ bs), wrote) ∷ ts) n l e =
    relay_from-count (total + length (b ∷ bs)) (out ++ b ∷ bs) ts n
      (omega (arith, length-append out (b ∷ bs), l)) e
relay_from-count total out ((got (b ∷ bs), unwritten x) ∷ ts) n l e = cc

-- The reads of the turns.
abbrev pub reads : List (ReadResult × WriteResult) → List ReadResult
reads [] = []
reads (t ∷ ts) = t.0 ∷ reads ts

relay_from-whole :
    (total : ℕ) (out : Bytes) (ts : List (ReadResult × WriteResult)) (n : ℕ)
    → (relay_from total out ts).1 ≡ some (relayed n)
    → (relay_from total out ts).0 ≡ out ++ stream_bytes (reads ts)
unfolding relay_from flushed
relay_from-whole total out [] n e = cc
relay_from-whole total out ((got [], w) ∷ ts) n e = sym (append-nil out)
relay_from-whole total out ((unread interrupted, w) ∷ ts) n e = relay_from-whole total out ts n e
relay_from-whole total out ((unread broken_pipe, w) ∷ ts) n e = cc
relay_from-whole total out ((unread other, w) ∷ ts) n e = cc
relay_from-whole total out ((got (b ∷ bs), wrote) ∷ ts) n e =
    relay_from-whole (total + length (b ∷ bs)) (out ++ b ∷ bs) ts n e
    ∙ append_assoc out (b ∷ bs) (stream_bytes (reads ts))
relay_from-whole total out ((got (b ∷ bs), unwritten x) ∷ ts) n e = cc

-- A `relay` that succeeds has given the sink every byte that the child wrote, in order, and counts
-- them.
pub relay_whole :
    (ts : List (ReadResult × WriteResult)) (n : ℕ)
    → (relay ts).1 ≡ some (relayed n)
    → ((relay ts).0 ≡ stream_bytes (reads ts)) × (length (stream_bytes (reads ts)) ≡ n)
unfolding relay
relay_whole ts n e =
    let whole = relay_from-whole 0 [] ts n e in
    (whole, ap length (sym whole) ∙ relay_from-count 0 [] ts n refl e)
