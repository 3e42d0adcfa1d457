-- ===== src/Core/Splice/KernelCounts.antt =====
-- In the kernel rounds of crates/core/src/splice.rs every byte that is counted is the kernel's.
use y4p.Prelude.{
  ℕ, zero, suc, ◌≡◌, Bool, true, false, Option, none, some, List, [], ◌∷◌, arith, if◌then◌else◌,
  ◌⊎◌, inl, inr, length, take,
}
use y4p.Core.Payload.{PayloadError, OsError}
use y4p.Core.Splice.{
  CopyState, KernelRound, KernelStop, stopped, splice_once, SpliceFailure, refused, splice_exact,
  Exact, show_tap, checked, observed, exactly, round_observed, round_bare, wanted, kernel_round,
  next_round, kernel_rounds, moved_to, count_bytes,
}
use y4p.Core.Splice.Copy.{kernel_loop}
use y4p.Core.Constants.{splice_round_bytes}

-- In the kernel's rounds all bytes counted are the kernel's.
abbrev pub AllKernel : CopyState → Type 0
AllKernel w = w.kernel_bytes ≡ w.len

abbrev RoundCounts : Option (CopyState × Option KernelStop) → Type 0
RoundCounts none = Unit
RoundCounts (some (w, stop)) = AllKernel w

abbrev pub LoopCounts : Option (CopyState × KernelStop) → Type 0
LoopCounts none = Unit
LoopCounts (some (w, stop)) = AllKernel w

either_counts :
    (b : Bool) (x y : CopyState × Option KernelStop)
    → AllKernel x.0
    → AllKernel y.0
    → RoundCounts (some (if b then x else y))
either_counts true x y h k = h
either_counts false x y h k = k

round_bare-RoundCounts :
    (limit : ℕ) (w : CopyState) (r : Option (ℕ ⊎ OsError))
    → AllKernel w
    → RoundCounts (round_bare limit w r)
unfolding round_bare checked
round_bare-RoundCounts limit w none h = tt
round_bare-RoundCounts limit w (some (inr e)) h = h
round_bare-RoundCounts limit w (some (inl zero)) h = h
round_bare-RoundCounts limit w (some (inl (suc n))) h = omega (arith, h)

exactly-RoundCounts :
    (limit : ℕ) (r : KernelRound) (n : ℕ) (w : CopyState) (x : Option Exact)
    → AllKernel w
    → RoundCounts (exactly limit r n w x)
unfolding observed checked
exactly-RoundCounts limit r n w none h = tt
exactly-RoundCounts limit r n w (some (m, some refused)) h = h
exactly-RoundCounts limit r n w (some (m, some (SpliceFailure.io e))) h = h
exactly-RoundCounts limit r n w (some (m, none)) h =
    let t = show_tap n r.reads n (take n w.src) w.tap in
    let w' = record (moved_to m w) { tap = t.0 } in
    either_counts t.1 (checked limit (count_bytes n w'))
      (w', some (stopped (PayloadError.io OsError.other))) (omega (arith, h)) h

round_observed-RoundCounts :
    (limit : ℕ) (r : KernelRound) (w : CopyState) (x : Option (ℕ ⊎ OsError))
    → AllKernel w
    → RoundCounts (round_observed limit r w x)
unfolding round_observed
round_observed-RoundCounts limit r w none h = tt
round_observed-RoundCounts limit r w (some (inr e)) h = h
round_observed-RoundCounts limit r w (some (inl zero)) h = h
round_observed-RoundCounts limit r w (some (inl (suc n))) h =
    exactly-RoundCounts limit r (suc n) w (splice_exact (suc n) (length w.src) 0 r.moving) h

kernel_round-RoundCounts :
    (observes : Bool) (limit : ℕ) (r : KernelRound) (w : CopyState)
    → AllKernel w
    → RoundCounts (kernel_round observes limit r w)
unfolding kernel_round
kernel_round-RoundCounts true limit r w h =
    round_observed-RoundCounts limit r w
      (splice_once (wanted splice_round_bytes limit w) (length w.src) r.first) h
kernel_round-RoundCounts false limit r w h =
    round_bare-RoundCounts limit w
      (splice_once (wanted splice_round_bytes limit w) (length w.src) r.first) h

next_round-LoopCounts :
    (on : CopyState → Option (CopyState × KernelStop)) (r : Option (CopyState × Option KernelStop))
    → RoundCounts r
    → ((w : CopyState) → AllKernel w → LoopCounts (on w))
    → LoopCounts (next_round on r)
next_round-LoopCounts on none h f = tt
next_round-LoopCounts on (some (w, some stop)) h f = h
next_round-LoopCounts on (some (w, none)) h f = f w h

kernel_rounds-LoopCounts :
    (observes : Bool) (limit : ℕ) (rs : List KernelRound) (w : CopyState)
    → AllKernel w
    → LoopCounts (kernel_rounds observes limit rs w)
unfolding kernel_rounds
kernel_rounds-LoopCounts observes limit [] w h = tt
kernel_rounds-LoopCounts observes limit (r ∷ rs) w h =
    next_round-LoopCounts (kernel_rounds observes limit rs) (kernel_round observes limit r w)
      (kernel_round-RoundCounts observes limit r w h)
      (λ w' h'. kernel_rounds-LoopCounts observes limit rs w' h')

pub kernel_loop-LoopCounts :
    (observes scratch : Bool) (limit : ℕ) (rs : List KernelRound) (w : CopyState)
    → AllKernel w
    → LoopCounts (kernel_loop observes scratch limit rs w)
unfolding kernel_loop
kernel_loop-LoopCounts true false limit rs w h = h
kernel_loop-LoopCounts true true limit rs w h = kernel_rounds-LoopCounts true limit rs w h
kernel_loop-LoopCounts false scratch limit rs w h = kernel_rounds-LoopCounts false limit rs w h
