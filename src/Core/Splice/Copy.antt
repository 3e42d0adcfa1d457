-- ===== src/Core/Splice/Copy.antt =====
-- The buffered path of crates/core/src/splice.rs, and the copies made of both.
use y4p.Prelude.{
  ℕ, zero, suc, ◌+◌, min, Bool, true, false, Option, none, some, List, [], ◌∷◌, ◌++◌, ltb, ◌==◌,
  if◌then◌else◌, ◌⊎◌, inl, inr, length, take, drop,
}
use y4p.Core.Text.{Bytes}
use y4p.Core.Payload.{PayloadError, empty, too_large, OsError, other}
use y4p.Core.Splice.{
  KernelAnswer, moves, interrupted, fails, Call, try_splice, CopyState, KernelStop, eof,
  unsupported_end, stopped, KernelRound, kernel_rounds, wanted,
}
use y4p.Core.Constants.{splice_chunk_bytes, pipeline_chunk_bytes}

-- How `write_all` of a chunk ends; `cut k e` has written the first `k` bytes, at most.
pub data Write : Type 0 where
  written : Write
  cut : ℕ → OsError → Write

-- One turn of the loop of `buffered_loop`: a `read`, and the `write_all` behind it.
pub record Pass : Type 0 where
  pub reading : KernelAnswer
  pub writing : Write

-- The chunk of `n` bytes that was read, once it is written: on, or how the loop ends.
unfoldable pub write_pass : Bool → ℕ → ℕ → Write → CopyState → CopyState × Option PayloadError
write_pass observes limit n written w =
    let chunk = take n w.src in
    let w' : CopyState = record w {
      src = drop n w.src;
      dst = w.dst ++ chunk;
      tap = if observes then w.tap ++ chunk ∷ [] else w.tap;
      len = w.len + n;
    } in
    (w', if ltb limit w'.len then some (too_large limit) else none)
write_pass observes limit n (cut k e) w =
    (record w { src = drop n w.src; dst = w.dst ++ take (min k n) w.src }, some (PayloadError.io e))

-- The turn, by what the `read` answered; `inl` goes on.
abbrev pub Passed : Type 0
Passed = CopyState ⊎ CopyState × Option PayloadError

abbrev pub go_on : CopyState × Option PayloadError → Passed
go_on (w, none) = inl w
go_on (w, some e) = inr (w, some e)

abbrev pub read_pass : Bool → ℕ → ℕ → Write → CopyState → Passed
read_pass observes limit zero writing w = inr (w, none)
read_pass observes limit (suc n) writing w = go_on (write_pass observes limit (suc n) writing w)

unfoldable pub one_pass : Bool → ℕ → KernelAnswer → Write → CopyState → Passed
unfolding write_pass
one_pass observes limit interrupted writing w = inl w
one_pass observes limit (fails e) writing w = inr (w, some (PayloadError.io e))
one_pass observes limit (moves k) writing w =
    read_pass observes limit (min (suc k) (min (wanted splice_chunk_bytes limit w) (length w.src)))
      writing w

abbrev pub next_pass :
    (CopyState → Option (CopyState × Option PayloadError))
    → Passed
    → Option (CopyState × Option PayloadError)
next_pass on (inl w) = on w
next_pass on (inr r) = some r

-- `buffered_loop`; `none` behind the world is its `Ok`.
unfoldable pub buffered_loop :
    Bool → ℕ → List Pass → CopyState → Option (CopyState × Option PayloadError)
unfolding one_pass
buffered_loop observes limit [] w = none
buffered_loop observes limit (p ∷ ps) w =
    next_pass (buffered_loop observes limit ps) (one_pass observes limit p.reading p.writing w)

-- `finish`.
unfoldable pub finish : CopyState → Option PayloadError
finish w = if w.len == 0 then some empty else none

abbrev pub finish_loop : CopyState × Option PayloadError → CopyState × Option PayloadError
finish_loop (w, some e) = (w, some e)
finish_loop (w, none) = (w, finish w)

abbrev pub awaited :
    Option (CopyState × Option PayloadError) → Option (CopyState × Option PayloadError)
awaited none = none
awaited (some r) = some (finish_loop r)

-- `copy_to_file_buffered`.
unfoldable pub copy_to_file_buffered :
    Bool → ℕ → List Pass → CopyState → Option (CopyState × Option PayloadError)
unfolding buffered_loop finish
copy_to_file_buffered observes limit ps w = awaited (buffered_loop observes limit ps w)

-- `kernel_loop`; `scratch` says whether the pipe for the tap could be made.
unfoldable pub kernel_loop :
    Bool → Bool → ℕ → List KernelRound → CopyState → Option (CopyState × KernelStop)
unfolding kernel_rounds
kernel_loop true false limit rs w = some (w, unsupported_end)
kernel_loop true true limit rs w = kernel_rounds true limit rs w
kernel_loop false scratch limit rs w = kernel_rounds false limit rs w

abbrev pub fall_back :
    Bool
    → ℕ
    → List Pass
    → Option (CopyState × KernelStop)
    → Option (CopyState × Option PayloadError)
fall_back observes limit ps none = none
fall_back observes limit ps (some (w, eof)) = some (w, finish w)
fall_back observes limit ps (some (w, stopped e)) = some (w, some e)
fall_back observes limit ps (some (w, unsupported_end)) = copy_to_file_buffered observes limit ps w

-- `copy_to_file`; the first argument is what `is_pipe` answers.
unfoldable pub copy_to_file :
    Bool ⊎ OsError
    → Bool
    → Bool
    → ℕ
    → List KernelRound
    → List Pass
    → CopyState
    → Option (CopyState × Option PayloadError)
unfolding kernel_loop copy_to_file_buffered
copy_to_file (inr e) observes scratch limit rs ps w = some (w, some (PayloadError.io e))
copy_to_file (inl true) observes scratch limit rs ps w =
    fall_back observes limit ps (kernel_loop observes scratch limit rs w)
copy_to_file (inl false) observes scratch limit rs ps w = copy_to_file_buffered observes limit ps w

-- `Copied::default()`, a file and a tap that have received nothing yet.
unfoldable pub opened : Bytes → CopyState
opened src = record { src = src; dst = []; tap = []; len = 0; kernel_bytes = 0 }

-- The loop of `splice_all`, with what is left of the source and what the target has received.
abbrev pub spliced :
    ℕ
    → (ℕ → Option (Bytes × (Option ℕ ⊎ OsError)))
    → Bytes
    → Option (Option ℕ ⊎ OsError)
    → Option (Bytes × (Option ℕ ⊎ OsError))
spliced total on dst none = none
spliced total on dst (some (inr e)) = some (dst, inr e)
spliced total on dst (some (inl (some zero))) = some (dst, inl (some total))
spliced total on dst (some (inl (some (suc n)))) = on (suc n)
spliced total on dst (some (inl none)) = some (dst, if total == 0 then inl none else inr other)

unfoldable pub splice_from : ℕ → Bytes → Bytes → List Call → Option (Bytes × (Option ℕ ⊎ OsError))
unfolding try_splice
splice_from total src dst [] = none
splice_from total src dst (call ∷ calls) =
    spliced total (λ n. splice_from (total + n) (drop n src) (dst ++ take n src) calls) dst
      (try_splice pipeline_chunk_bytes (length src) call)

unfoldable pub splice_all : Bytes → List Call → Option (Bytes × (Option ℕ ⊎ OsError))
unfolding splice_from
splice_all src calls = splice_from 0 src [] calls
