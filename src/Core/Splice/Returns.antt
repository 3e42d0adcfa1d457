-- ===== src/Core/Splice/Returns.antt =====
-- The copies of crates/core/src/splice.rs against `read_bounded`, and when the buffered one returns.
use y4p.Prelude.{
  ℕ, zero, suc, ◌+◌, ◌≤◌, ◌<◌, ◌≡◌, ◌≢◌, refl, sym, subst, ◌∙◌, ap, Bool, Option, none, some, List,
  [], ◌∷◌, arith, ltb, ◌⊎◌, inl, inr, length, length-drop, Bool-cases, u64_max,
}
use y4p.Core.Text.{Bytes}
use y4p.Core.Payload.{PayloadError, empty, too_large, OsError, within_limit, read_bounded}
use y4p.Core.Payload.Reading.{read_bounded_exact, within_limit-length}
use y4p.Core.Splice.{KernelAnswer, moves, interrupted, fails, CopyState, KernelRound}
use y4p.Core.Splice.Copy.{
  Write, written, cut, Pass, write_pass, Passed, read_pass, one_pass, next_pass, buffered_loop,
  awaited, copy_to_file_buffered, copy_to_file, opened,
}
use y4p.Core.Splice.Ends.{Copied, copy_to_file_whole}

-- The answer of a copy, with the bytes that it has put in the file.
abbrev pub copied_bytes : CopyState × Option PayloadError → Bytes ⊎ PayloadError
copied_bytes (w, none) = inl w.dst
copied_bytes (w, some e) = inr e

abbrev pub IsIo : Option PayloadError → Type 0
IsIo (some (PayloadError.io e)) = Unit
IsIo _ = ⊥

Copied-within_limit :
    (observes : Bool) (limit : ℕ) (c : Bytes) (small : limit < u64_max)
    (r : CopyState × Option PayloadError)
    → Copied observes limit c small (some r)
    → ¬ IsIo r.1
    → copied_bytes r ≡ within_limit limit c
Copied-within_limit observes limit c small (w, none) h n =
    ap inl h.0 ∙ sym (within_limit-length limit c ∙ ground (arith, h))
Copied-within_limit observes limit c small (w, some empty) h n = rw (h.0) refl
Copied-within_limit observes limit c small (w, some (too_large l)) h n =
    rw (h.0) (sym (within_limit-length limit c ∙ ground (arith, h.1)))
Copied-within_limit observes limit c small (w, some (PayloadError.io e)) h n = absurd (n tt)

-- A copy under a limit below the largest `u64` that returns without an I/O error answers as
-- `read_bounded` does for the same stream, and on success the file holds the bytes that it reads.
pub copy_to_file-read_bounded :
    (pipe : Bool ⊎ OsError) (observes scratch : Bool) (limit : ℕ) (rs : List KernelRound)
    (ps : List Pass) (src : Bytes) (r : CopyState × Option PayloadError)
    → limit < u64_max
    → copy_to_file pipe observes scratch limit rs ps (opened src) ≡ some r
    → ¬ IsIo r.1
    → copied_bytes r ≡ read_bounded (record { bytes = src; fault = none }) limit
copy_to_file-read_bounded pipe observes scratch limit rs ps src r small e n =
    Copied-within_limit observes limit src small r
      (subst (Copied observes limit src small) e
        (copy_to_file_whole pipe observes scratch limit rs ps src small))
      n
    ∙ sym (read_bounded_exact (record { bytes = src; fault = none }) limit small)

-- The reads that a signal does not interrupt.
abbrev read_count : KernelAnswer → ℕ
read_count (moves k) = 1
read_count interrupted = 0
read_count (fails e) = 1

abbrev pub reads : List Pass → ℕ
reads [] = 0
reads (p ∷ ps) = read_count p.reading + reads ps

-- A turn that goes on has used up a byte, or was interrupted.
abbrev Shrinks : ℕ → KernelAnswer → Passed → Type 0
Shrinks n a (inl w) = length w.src + read_count a ≤ n
Shrinks n a (inr r) = Unit

read_pass-Shrinks :
    (observes : Bool) (limit n k : ℕ) (writing : Write) (w : CopyState)
    → n ≤ length w.src
    → Shrinks (length w.src) (moves k) (read_pass observes limit n writing w)
unfolding write_pass
read_pass-Shrinks observes limit zero k writing w h = tt
read_pass-Shrinks observes limit (suc n) k (cut j e) w h = tt
read_pass-Shrinks observes limit (suc n) k written w h =
    elim (Bool-cases (ltb limit (w.len + suc n))) [
      | inl t ↦ rw t tt
      | inr t ↦ rw t (omega (arith, length-drop (suc n) w.src))
    ]

one_pass-Shrinks :
    (observes : Bool) (limit : ℕ) (a : KernelAnswer) (writing : Write) (w : CopyState)
    → Shrinks (length w.src) a (one_pass observes limit a writing w)
unfolding one_pass
one_pass-Shrinks observes limit interrupted writing w = omega arith
one_pass-Shrinks observes limit (fails e) writing w = tt
one_pass-Shrinks observes limit (moves k) writing w =
    read_pass-Shrinks observes limit _ k writing w (omega arith)

next_pass-returns :
    (on : CopyState → Option (CopyState × Option PayloadError)) (n m : ℕ) (a : KernelAnswer)
    (p : Passed)
    → Shrinks n a p
    → n < read_count a + m
    → ((w : CopyState) → length w.src < m → on w ≢ none)
    → next_pass on p ≢ none
next_pass-returns on n m a (inl w) s h f = f w (omega arith)
next_pass-returns on n m a (inr r) s h f = λ e. cc

buffered_loop-returns :
    (observes : Bool) (limit : ℕ) (ps : List Pass) (w : CopyState)
    → length w.src < reads ps
    → buffered_loop observes limit ps w ≢ none
unfolding buffered_loop
buffered_loop-returns observes limit [] w h = absurd (omega arith)
buffered_loop-returns observes limit (p ∷ ps) w h =
    next_pass-returns (buffered_loop observes limit ps) (length w.src) (reads ps) p.reading
      (one_pass observes limit p.reading p.writing w)
      (one_pass-Shrinks observes limit p.reading p.writing w) h
      (λ w' h'. buffered_loop-returns observes limit ps w' h')

awaited-returns : (r : Option (CopyState × Option PayloadError)) → r ≢ none → awaited r ≢ none
awaited-returns none h = λ e. h e
awaited-returns (some r) h = λ e. cc

-- The buffered copy returns once it has made more reads than the stream has bytes, not counting those
-- that a signal interrupts.
pub copy_to_file_buffered-returns :
    (observes : Bool) (limit : ℕ) (ps : List Pass) (w : CopyState)
    → length w.src < reads ps
    → copy_to_file_buffered observes limit ps w ≢ none
unfolding copy_to_file_buffered
copy_to_file_buffered-returns observes limit ps w h =
    awaited-returns (buffered_loop observes limit ps w)
      (buffered_loop-returns observes limit ps w h)
