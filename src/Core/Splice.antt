-- ===== src/Core/Splice.antt =====
-- crates/core/src/splice.rs: copying a stream to a file under a limit, by the kernel or by a buffer.
-- The kernel is outside the repository. Each call of it has an answer: how much of what it may move
-- it moves, at least one byte where there is one, as `splice(2)`, `tee(2)` and `read(2)` document; or
-- an error. A copy whose answers run out still waits: `none`.
pub mod Copy
pub mod KernelCounts
pub mod Counts
pub mod Whole
pub mod Rounds
pub mod Ends
pub mod All
pub mod Returns
use y4p.Prelude.{
  ℕ, zero, suc, ◌+◌, ◌-◌, ◌≤◌, min, ◌≡◌, Bool, true, false, ◌&&◌, not, Option, none, some, List, [],
  ◌∷◌, ◌++◌, ltb, leb, ◌==◌, if◌then◌else◌, ◌⊎◌, inl, inr, length, take, drop,
}
use y4p.Core.Text.{Bytes}
use y4p.Core.Payload.{
  PayloadError, empty, too_large, OsError, einval, enosys, eopnotsupp, unexpected_eof, unsupported,
  not_found, other, probe_limit,
}
use y4p.Core.Constants.{splice_chunk_bytes, splice_round_bytes}

-- `moves k`: at most `k + 1` bytes.
pub data KernelAnswer : Type 0 where
  moves : ℕ → KernelAnswer
  interrupted : KernelAnswer
  fails : OsError → KernelAnswer

-- One call with its retries after `EINTR`.
abbrev pub Call : Type 0
Call = List KernelAnswer

unfoldable pub is_unsupported : OsError → Bool
is_unsupported einval = true
is_unsupported enosys = true
is_unsupported eopnotsupp = true
is_unsupported unexpected_eof = false
is_unsupported unsupported = false
is_unsupported not_found = false
is_unsupported other = false

-- `splice_once`, and `tee_once`: of `len` bytes asked for and `available` ones.
unfoldable pub splice_once : ℕ → ℕ → Call → Option (ℕ ⊎ OsError)
splice_once len available [] = none
splice_once len available (moves k ∷ as') = some (inl (min (suc k) (min len available)))
splice_once len available (interrupted ∷ as') = splice_once len available as'
splice_once len available (fails e ∷ as') = some (inr e)

pub data SpliceFailure : Type 0 where
  refused : SpliceFailure
  io : OsError → SpliceFailure

-- `try_splice`, and its match.
abbrev pub tried : Option (ℕ ⊎ OsError) → Option (Option ℕ ⊎ OsError)
tried none = none
tried (some (inl moved)) = some (inl (some moved))
tried (some (inr e)) = some (if is_unsupported e then inl none else inr e)

unfoldable pub try_splice : ℕ → ℕ → Call → Option (Option ℕ ⊎ OsError)
unfolding splice_once
try_splice zero available call = some (inl (some 0))
try_splice (suc len) available call = tried (splice_once (suc len) available call)

-- The loop of `splice_exact`: how many of the `n` bytes it has moved in all, and how it failed.
abbrev pub Exact : Type 0
Exact = ℕ × Option SpliceFailure

abbrev pub failure_of : ℕ → OsError → SpliceFailure
failure_of moved e = if is_unsupported e && (moved == 0) then refused else SpliceFailure.io e

-- The match on one call, where `on` is the loop from another number of bytes.
abbrev pub exact_step : ℕ → (ℕ → Option Exact) → Option (ℕ ⊎ OsError) → Option Exact
exact_step moved on none = none
exact_step moved on (some (inl zero)) = some (moved, some (SpliceFailure.io unexpected_eof))
exact_step moved on (some (inl (suc m))) = on (moved + suc m)
exact_step moved on (some (inr e)) = some (moved, some (failure_of moved e))

unfoldable pub splice_exact : ℕ → ℕ → ℕ → List Call → Option Exact
unfolding splice_once
splice_exact n available moved [] = if ltb moved n then none else some (moved, none)
splice_exact n available moved (call ∷ calls) =
    if ltb moved n
    then exact_step moved (λ m. splice_exact n available m calls)
        (splice_once (n - moved) (available - moved) call)
    else some (moved, none)

-- What is left of the source, what the file and the tap have received, and `Copied`.
pub record CopyState : Type 0 where
  pub src : Bytes
  pub dst : Bytes
  pub tap : List Bytes
  pub len : ℕ
  pub kernel_bytes : ℕ

-- The loop that shows the scratch pipe's `left` bytes to the tap, a chunk at a time; `reads` says for
-- each number of bytes left whether reading the scratch pipe succeeds then.
unfoldable pub show_tap : ℕ → (ℕ → Bool) → ℕ → Bytes → List Bytes → List Bytes × Bool
show_tap zero reads left bytes tap = (tap, true)
show_tap (suc fuel) reads left bytes tap =
    let n = min left splice_chunk_bytes in
    let rest = show_tap fuel reads (left - n) (drop n bytes) (tap ++ take n bytes ∷ []) in
    if left == 0 then (tap, true) else if reads left then rest else (tap, false)

-- The calls of one round of `kernel_loop`.
pub record KernelRound : Type 0 where
  pub first : Call
  pub moving : List Call
  pub reads : ℕ → Bool

-- `Ok(KernelEnd)`, or an error.
pub data KernelStop : Type 0 where
  eof unsupported_end : KernelStop
  stopped : PayloadError → KernelStop

-- `n` bytes leave the source for the file.
abbrev pub moved_to : ℕ → CopyState → CopyState
moved_to n w = record w { src = drop n w.src; dst = w.dst ++ take n w.src }

-- The end of a round: the counters, and the test of the limit. `inl`: the loop goes on.
abbrev pub count_bytes : ℕ → CopyState → CopyState
count_bytes n w = record w { len = w.len + n; kernel_bytes = w.kernel_bytes + n }

unfoldable pub checked : ℕ → CopyState → CopyState × Option KernelStop
checked limit w = (w, if ltb limit w.len then some (stopped (too_large limit)) else none)

-- A round behind a `tee` of `n` bytes, once `splice_exact` has ended.
unfoldable pub observed : ℕ → KernelRound → ℕ → CopyState → Exact → CopyState × Option KernelStop
unfolding checked show_tap
observed limit r n w (m, some refused) = (w, some unsupported_end)
observed limit r n w (m, some (SpliceFailure.io e)) =
    (moved_to m w, some (stopped (PayloadError.io e)))
observed limit r n w (m, none) =
    let (tap, read) = show_tap n r.reads n (take n w.src) w.tap in
    let w' = record (moved_to m w) { tap = tap } in
    if read then checked limit (count_bytes n w') else (w', some (stopped (PayloadError.io other)))

abbrev pub refusal : OsError → KernelStop
refusal e = if is_unsupported e then unsupported_end else stopped (PayloadError.io e)

-- One round with the tap's `tee`, and one of a bare `splice`, by what the first call answers.
abbrev pub exactly :
    ℕ → KernelRound → ℕ → CopyState → Option Exact → Option (CopyState × Option KernelStop)
exactly limit r n w none = none
exactly limit r n w (some x) = some (observed limit r n w x)

unfoldable pub round_observed :
    ℕ → KernelRound → CopyState → Option (ℕ ⊎ OsError) → Option (CopyState × Option KernelStop)
unfolding splice_exact observed
round_observed limit r w none = none
round_observed limit r w (some (inr e)) = some (w, some (refusal e))
round_observed limit r w (some (inl zero)) = some (w, some eof)
round_observed limit r w (some (inl (suc n))) =
    exactly limit r (suc n) w (splice_exact (suc n) (length w.src) 0 r.moving)

unfoldable pub round_bare :
    ℕ → CopyState → Option (ℕ ⊎ OsError) → Option (CopyState × Option KernelStop)
unfolding checked
round_bare limit w none = none
round_bare limit w (some (inr e)) = some (w, some (refusal e))
round_bare limit w (some (inl zero)) = some (w, some eof)
round_bare limit w (some (inl (suc n))) =
    some (checked limit (count_bytes (suc n) (moved_to (suc n) w)))

-- The `want` of a round.
abbrev pub wanted : ℕ → ℕ → CopyState → ℕ
wanted unit limit w = min (probe_limit limit - w.len) unit

unfoldable pub kernel_round :
    Bool → ℕ → KernelRound → CopyState → Option (CopyState × Option KernelStop)
unfolding round_observed round_bare splice_once
kernel_round true limit r w =
    round_observed limit r w
      (splice_once (wanted splice_round_bytes limit w) (length w.src) r.first)
kernel_round false limit r w =
    round_bare limit w (splice_once (wanted splice_round_bytes limit w) (length w.src) r.first)

abbrev pub next_round :
    (CopyState → Option (CopyState × KernelStop))
    → Option (CopyState × Option KernelStop)
    → Option (CopyState × KernelStop)
next_round on none = none
next_round on (some (w, some stop)) = some (w, stop)
next_round on (some (w, none)) = on w

-- The loop of `kernel_loop`, behind the scratch pipe.
unfoldable pub kernel_rounds :
    Bool → ℕ → List KernelRound → CopyState → Option (CopyState × KernelStop)
unfolding kernel_round
kernel_rounds observes limit [] w = none
kernel_rounds observes limit (r ∷ rs) w =
    next_round (kernel_rounds observes limit rs) (kernel_round observes limit r w)
