-- ===== src/Core/Splice/Counts.antt =====
-- How many bytes the copies of crates/core/src/splice.rs say that the kernel has moved.
use y4p.Prelude.{
  ℕ, zero, suc, ◌+◌, ◌<◌, min, ◌≡◌, refl, Bool, true, false, Option, none, some, List, [], ◌∷◌,
  arith, ◌⊎◌, inl, inr, length, u64_max,
}
use y4p.Core.Text.{Bytes}
use y4p.Core.Payload.{PayloadError, OsError}
use y4p.Core.Splice.{
  KernelAnswer, moves, interrupted, fails, CopyState, KernelRound, KernelStop, eof, unsupported_end,
  stopped, wanted,
}
use y4p.Core.Splice.Copy.{
  Write, written, cut, Pass, write_pass, Passed, go_on, read_pass, one_pass, next_pass,
  buffered_loop, finish, awaited, copy_to_file_buffered, kernel_loop, fall_back, copy_to_file,
  opened,
}
use y4p.Core.Splice.KernelCounts.{LoopCounts, kernel_loop-LoopCounts}
use y4p.Core.Splice.Rounds.{LoopEnded}
use y4p.Core.Constants.{splice_chunk_bytes}

-- The buffered turns leave the kernel's count alone.
module _ (k : ℕ) where
  abbrev CopyCounts : Option (CopyState × Option PayloadError) → Type 0
  CopyCounts none = Unit
  CopyCounts (some (w, e)) = w.kernel_bytes ≡ k

  abbrev PassCounts : Passed → Type 0
  PassCounts (inl w) = w.kernel_bytes ≡ k
  PassCounts (inr r) = r.0.kernel_bytes ≡ k

  go_on-PassCounts :
      (r : CopyState × Option PayloadError) → r.0.kernel_bytes ≡ k → PassCounts (go_on r)
  go_on-PassCounts (w, none) h = h
  go_on-PassCounts (w, some e) h = h

  read_pass-PassCounts :
      (observes : Bool) (limit n : ℕ) (writing : Write) (w : CopyState)
      → w.kernel_bytes ≡ k
      → PassCounts (read_pass observes limit n writing w)
  unfolding write_pass
  read_pass-PassCounts observes limit zero writing w h = h
  read_pass-PassCounts observes limit (suc n) written w h =
      go_on-PassCounts (write_pass observes limit (suc n) written w) h
  read_pass-PassCounts observes limit (suc n) (cut m e) w h = h

  one_pass-PassCounts :
      (observes : Bool) (limit : ℕ) (reading : KernelAnswer) (writing : Write) (w : CopyState)
      → w.kernel_bytes ≡ k
      → PassCounts (one_pass observes limit reading writing w)
  unfolding one_pass
  one_pass-PassCounts observes limit interrupted writing w h = h
  one_pass-PassCounts observes limit (fails e) writing w h = h
  one_pass-PassCounts observes limit (moves m) writing w h =
      read_pass-PassCounts observes limit
        (min (suc m) (min (wanted splice_chunk_bytes limit w) (length w.src))) writing w h

  next_pass-CopyCounts :
      (on : CopyState → Option (CopyState × Option PayloadError)) (p : Passed)
      → PassCounts p
      → ((w : CopyState) → w.kernel_bytes ≡ k → CopyCounts (on w))
      → CopyCounts (next_pass on p)
  next_pass-CopyCounts on (inl w) h f = f w h
  next_pass-CopyCounts on (inr r) h f = h

  buffered_loop-CopyCounts :
      (observes : Bool) (limit : ℕ) (ps : List Pass) (w : CopyState)
      → w.kernel_bytes ≡ k
      → CopyCounts (buffered_loop observes limit ps w)
  unfolding buffered_loop
  buffered_loop-CopyCounts observes limit [] w h = tt
  buffered_loop-CopyCounts observes limit (p ∷ ps) w h =
      next_pass-CopyCounts (buffered_loop observes limit ps)
        (one_pass observes limit p.reading p.writing w)
        (one_pass-PassCounts observes limit p.reading p.writing w h)
        (λ w' h'. buffered_loop-CopyCounts observes limit ps w' h')

  awaited-CopyCounts :
      (r : Option (CopyState × Option PayloadError)) → CopyCounts r → CopyCounts (awaited r)
  awaited-CopyCounts none h = tt
  awaited-CopyCounts (some (w, some e)) h = h
  awaited-CopyCounts (some (w, none)) h = h

  buffered-CopyCounts :
      (observes : Bool) (limit : ℕ) (ps : List Pass) (w : CopyState)
      → w.kernel_bytes ≡ k
      → CopyCounts (copy_to_file_buffered observes limit ps w)
  unfolding copy_to_file_buffered
  buffered-CopyCounts observes limit ps w h =
      awaited-CopyCounts (buffered_loop observes limit ps w)
        (buffered_loop-CopyCounts observes limit ps w h)

-- What of the stream the kernel's loop has left, where it ran at all.
abbrev left_by : Option (CopyState × KernelStop) → Bytes
left_by none = []
left_by (some (w, stop)) = w.src

abbrev pub left_by_kernel : Bool ⊎ OsError → Bool → Bool → ℕ → List KernelRound → Bytes → Bytes
left_by_kernel (inl true) observes scratch limit rs src =
    left_by (kernel_loop observes scratch limit rs (opened src))
left_by_kernel (inl false) observes scratch limit rs src = src
left_by_kernel (inr e) observes scratch limit rs src = src

-- On success `kernel_bytes` is what the kernel has taken off the stream `c`, of which it left `left`.
abbrev pub Counted : Bytes → Bytes → Option (CopyState × Option PayloadError) → Type 0
Counted left c (some (w, none)) = w.kernel_bytes + length left ≡ length c
Counted left c _ = Unit

end_of_success :
    (left c : Bytes) (w : CopyState) (e : Option PayloadError)
    → w.kernel_bytes + length left ≡ length c
    → Counted left c (some (w, e))
end_of_success left c w none h = h
end_of_success left c w (some e) h = tt

CopyCounts-Counted :
    (left c : Bytes) (k : ℕ) (r : Option (CopyState × Option PayloadError))
    → k + length left ≡ length c
    → CopyCounts k r
    → Counted left c r
CopyCounts-Counted left c k none h f = tt
CopyCounts-Counted left c k (some (w, e)) h f = end_of_success left c w e (omega (arith, h, f))

module _ (observes : Bool) (limit : ℕ) (c : Bytes) (small : limit < u64_max) where
  fall_back-Counted :
      (ps : List Pass) (r : Option (CopyState × KernelStop))
      → LoopEnded observes limit c small r
      → LoopCounts r
      → Counted (left_by r) c (fall_back observes limit ps r)
  fall_back-Counted ps none h k = tt
  fall_back-Counted ps (some (w, eof)) h k =
      end_of_success w.src c w (finish w) (omega (arith, h.0.counts, k))
  fall_back-Counted ps (some (w, stopped e)) h k = tt
  fall_back-Counted ps (some (w, unsupported_end)) h k =
      CopyCounts-Counted w.src c w.kernel_bytes (copy_to_file_buffered observes limit ps w)
        (omega (arith, h.counts, k)) (buffered-CopyCounts w.kernel_bytes observes limit ps w refl)

pub copy_to_file-Counted :
    (pipe : Bool ⊎ OsError) (observes scratch : Bool) (limit : ℕ) (rs : List KernelRound)
    (ps : List Pass) (src : Bytes) (small : limit < u64_max)
    → LoopEnded observes limit src small (kernel_loop observes scratch limit rs (opened src))
    → Counted
        (left_by_kernel pipe observes scratch limit rs src)
        src
        (copy_to_file pipe observes scratch limit rs ps (opened src))
unfolding copy_to_file opened
copy_to_file-Counted (inr e) observes scratch limit rs ps src small h = tt
copy_to_file-Counted (inl true) observes scratch limit rs ps src small h =
    fall_back-Counted observes limit src small ps
      (kernel_loop observes scratch limit rs (opened src)) h
      (kernel_loop-LoopCounts observes scratch limit rs (opened src) refl)
copy_to_file-Counted (inl false) observes scratch limit rs ps src small h =
    CopyCounts-Counted src src 0 (copy_to_file_buffered observes limit ps (opened src))
      (omega arith) (buffered-CopyCounts 0 observes limit ps (opened src) refl)
