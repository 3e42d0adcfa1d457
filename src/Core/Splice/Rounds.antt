-- ===== src/Core/Splice/Rounds.antt =====
-- The rounds of crates/core/src/splice.rs and its buffered turns keep `Conserved`.
use y4p.Prelude.{
  ℕ, zero, suc, ◌+◌, ◌≤◌, ◌<◌, min, ◌≡◌, refl, sym, ◌∙◌, ap, Bool, true, false, Option, none, some,
  List, [], ◌∷◌, ◌++◌, arith, ltb, if◌then◌else◌, ◌⊎◌, inl, inr, length, take, drop, length-drop,
  take-take, Bool-cases, u64_max,
}
use y4p.Core.Text.{Bytes}
use y4p.Core.Payload.{PayloadError, empty, too_large, OsError, other}
use y4p.Core.Splice.{
  splice_once, SpliceFailure, refused, splice_exact, Exact, CopyState, show_tap, KernelRound,
  KernelStop, eof, unsupported_end, stopped, moved_to, count_bytes, checked, observed, refusal,
  exactly, round_observed, round_bare, wanted, kernel_round, next_round, kernel_rounds,
  is_unsupported,
}
use y4p.Core.Splice.Whole.{
  concat, Conserved, moved_bytes, Once, splice_once-Once, AllMoved, splice_exact-AllMoved,
  show_tap-concat,
}
use y4p.Core.Constants.{splice_round_bytes}

module _ (observes : Bool) (limit : ℕ) (c : Bytes) (small : limit < u64_max) where
  -- `Conserved` but for the limit.
  abbrev pub Kept : CopyState → Type 0
  Kept w =
      (w.dst ++ w.src ≡ c)
      × (observes ≡ true → concat w.tap ++ w.src ≡ c)
      × (w.len + length w.src ≡ length c)
      × (w.kernel_bytes ≤ w.len)

  abbrev pub Ended : CopyState → KernelStop → Type 0
  Ended w eof = Conserved observes limit c w × (w.src ≡ [])
  Ended w unsupported_end = Conserved observes limit c w
  Ended w (stopped empty) = ⊥
  Ended w (stopped (too_large l)) = (l ≡ limit) × (limit < length c)
  Ended w (stopped (PayloadError.io e)) = Unit

  abbrev pub RoundEnded : Option (CopyState × Option KernelStop) → Type 0
  RoundEnded none = Unit
  RoundEnded (some (w, none)) = Conserved observes limit c w
  RoundEnded (some (w, some stop)) = Ended w stop

  checked-RoundEnded : (w : CopyState) → Kept w → RoundEnded (some (checked limit w))
  unfolding checked
  checked-RoundEnded w k = elim (Bool-cases (ltb limit w.len)) [
    | inl t ↦ rw t (refl, ground (arith, k.2, t))
    | inr t ↦ rw t (record {
      in_file = k.0;
      in_tap = k.1;
      counts = k.2;
      kernel = k.3;
      within = ground (arith, t);
    })
  ]

  -- `n` bytes leave for the file and, shown in `tap`, for the tap.
  moved-Kept :
      (w : CopyState) (n : ℕ) (tap : List Bytes)
      → Conserved observes limit c w
      → n ≤ length w.src
      → (observes ≡ true → concat tap ≡ concat w.tap ++ take n w.src)
      → Kept (count_bytes n (record (moved_to n w) { tap = tap }))
  moved-Kept w n tap v h t = (
    moved_bytes n w.dst w.src ∙ v.in_file,
    λ o. ap (λ x. x ++ drop n w.src) (t o) ∙ moved_bytes n (concat w.tap) w.src ∙ v.in_tap o,
    omega (arith, length-drop n w.src, v.counts),
    omega (arith, v.kernel),
  )

  pub wanted_pos :
      (unit : ℕ) (w : CopyState) → Conserved observes limit c w → 0 < unit → 0 < wanted unit limit w
  wanted_pos unit w v u = omega (arith, v.within)

  pub no_bytes : (s : Bytes) (want : ℕ) → 0 < want → min want (length s) ≡ 0 → s ≡ []
  no_bytes [] want p e = refl
  no_bytes (b ∷ s) want p e = absurd (omega arith)

  refusal-Ended : (w : CopyState) (e : OsError) → Conserved observes limit c w → Ended w (refusal e)
  refusal-Ended w e v = elim (Bool-cases (is_unsupported e)) [ inl t ↦ rw t v | inr t ↦ rw t tt ]

  round_bare-RoundEnded :
      (w : CopyState) (want : ℕ) (r : Option (ℕ ⊎ OsError))
      → observes ≡ false
      → Conserved observes limit c w
      → 0 < want
      → Once want (length w.src) r
      → RoundEnded (round_bare limit w r)
  unfolding round_bare
  round_bare-RoundEnded w want none o v p a = tt
  round_bare-RoundEnded w want (some (inr e)) o v p a = refusal-Ended w e v
  round_bare-RoundEnded w want (some (inl zero)) o v p a = (v, no_bytes w.src want p a)
  round_bare-RoundEnded w want (some (inl (suc n))) o v p a =
      checked-RoundEnded (count_bytes (suc n) (moved_to (suc n) w))
        (moved-Kept w (suc n) w.tap v (omega arith) (λ t. cc))

  observed_tap :
      (w : CopyState) (r : KernelRound) (n : ℕ)
      → Conserved observes limit c w
      → n ≤ length w.src
      → (tap : List Bytes) (read : Bool) → show_tap n r.reads n (take n w.src) w.tap ≡ (tap, read)
      → let w' = record (moved_to n w) { tap = tap } in
        RoundEnded (
          some (
            if read
            then checked limit (count_bytes n w')
            else (w', some (stopped (PayloadError.io other)))))
  observed_tap w r n v h tap false e = tt
  observed_tap w r n v h tap true e =
      let shown =
        show_tap-concat n r.reads n (take n w.src) w.tap (omega arith) (ap (λ t. t.1) e) in
      checked-RoundEnded (count_bytes n (record (moved_to n w) { tap = tap })) (
        moved-Kept w n tap v h (λ o.
          sym (ap (λ t. concat t.0) e)
          ∙ shown
          ∙ ap (◌++◌ (concat w.tap)) (take-take n n w.src (omega arith))))

  observed-RoundEnded :
      (w : CopyState) (r : KernelRound) (n : ℕ) (x : Exact)
      → Conserved observes limit c w
      → n ≤ length w.src
      → AllMoved n (some x)
      → RoundEnded (some (observed limit r n w x))
  unfolding observed
  observed-RoundEnded w r n (m, some refused) v h a = v
  observed-RoundEnded w r n (m, some (SpliceFailure.io e)) v h a = tt
  observed-RoundEnded w r n (m, none) v h a =
      let t = show_tap n r.reads n (take n w.src) w.tap in
      rw a (observed_tap w r n v h t.0 t.1 refl)

  exactly-RoundEnded :
      (w : CopyState) (r : KernelRound) (n : ℕ) (x : Option Exact)
      → Conserved observes limit c w
      → n ≤ length w.src
      → AllMoved n x
      → RoundEnded (exactly limit r n w x)
  exactly-RoundEnded w r n none v h a = tt
  exactly-RoundEnded w r n (some x) v h a = observed-RoundEnded w r n x v h a

  round_observed-RoundEnded :
      (w : CopyState) (r : KernelRound) (want : ℕ) (x : Option (ℕ ⊎ OsError))
      → Conserved observes limit c w
      → 0 < want
      → Once want (length w.src) x
      → RoundEnded (round_observed limit r w x)
  unfolding round_observed
  round_observed-RoundEnded w r want none v p a = tt
  round_observed-RoundEnded w r want (some (inr e)) v p a = refusal-Ended w e v
  round_observed-RoundEnded w r want (some (inl zero)) v p a = (v, no_bytes w.src want p a)
  round_observed-RoundEnded w r want (some (inl (suc n))) v p a =
      exactly-RoundEnded w r (suc n) (splice_exact (suc n) (length w.src) 0 r.moving) v
        (omega arith)
        (splice_exact-AllMoved (suc n) (length w.src) 0 r.moving (omega arith) (omega arith))

  abbrev pub LoopEnded : Option (CopyState × KernelStop) → Type 0
  LoopEnded none = Unit
  LoopEnded (some (w, stop)) = Ended w stop

  next_round-LoopEnded :
      (on : CopyState → Option (CopyState × KernelStop))
      (r : Option (CopyState × Option KernelStop))
      → RoundEnded r
      → ((w : CopyState) → Conserved observes limit c w → LoopEnded (on w))
      → LoopEnded (next_round on r)
  next_round-LoopEnded on none h f = tt
  next_round-LoopEnded on (some (w, some stop)) h f = h
  next_round-LoopEnded on (some (w, none)) h f = f w h

kernel_round-RoundEnded :
    (observes : Bool) (limit : ℕ) (c : Bytes) (small : limit < u64_max) (r : KernelRound)
    (w : CopyState)
    → Conserved observes limit c w
    → RoundEnded observes limit c small (kernel_round observes limit r w)
unfolding kernel_round
kernel_round-RoundEnded true limit c small r w v =
    round_observed-RoundEnded true limit c small w r (wanted splice_round_bytes limit w)
      (splice_once (wanted splice_round_bytes limit w) (length w.src) r.first) v
      (wanted_pos true limit c small splice_round_bytes w v (omega arith))
      (splice_once-Once (wanted splice_round_bytes limit w) (length w.src) r.first)
kernel_round-RoundEnded false limit c small r w v =
    round_bare-RoundEnded false limit c small w (wanted splice_round_bytes limit w)
      (splice_once (wanted splice_round_bytes limit w) (length w.src) r.first) refl v
      (wanted_pos false limit c small splice_round_bytes w v (omega arith))
      (splice_once-Once (wanted splice_round_bytes limit w) (length w.src) r.first)

pub kernel_rounds-LoopEnded :
    (observes : Bool) (limit : ℕ) (c : Bytes) (small : limit < u64_max) (rs : List KernelRound)
    (w : CopyState)
    → Conserved observes limit c w
    → LoopEnded observes limit c small (kernel_rounds observes limit rs w)
unfolding kernel_rounds
kernel_rounds-LoopEnded observes limit c small [] w v = tt
kernel_rounds-LoopEnded observes limit c small (r ∷ rs) w v =
    next_round-LoopEnded observes limit c small (kernel_rounds observes limit rs)
      (kernel_round observes limit r w) (kernel_round-RoundEnded observes limit c small r w v)
      (λ w' v'. kernel_rounds-LoopEnded observes limit c small rs w' v')
