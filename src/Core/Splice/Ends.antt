-- ===== src/Core/Splice/Ends.antt =====
-- What the copies of crates/core/src/splice.rs answer, and that the buffered one ends.
use y4p.Prelude.{
  ℕ, zero, suc, ◌+◌, ◌≤◌, ◌<◌, min, ◌≡◌, refl, sym, ◌∙◌, ap, Bool, true, false, Option, none, some,
  List, [], ◌∷◌, ◌++◌, arith, ltb, ◌==◌, ◌⊎◌, inl, inr, length, take, drop, append-nil, length-drop,
  Bool-cases, u64_max,
}
use y4p.Core.Text.{Bytes}
use y4p.Core.Payload.{PayloadError, empty, too_large, OsError}
use y4p.Core.Splice.{
  KernelAnswer, moves, interrupted, fails, CopyState, KernelRound, KernelStop, eof, unsupported_end,
  stopped, wanted,
}
use y4p.Core.Splice.Copy.{
  Write, written, cut, Pass, write_pass, Passed, go_on, read_pass, one_pass, next_pass,
  buffered_loop, finish, finish_loop, awaited, copy_to_file_buffered, kernel_loop, fall_back,
  copy_to_file, opened,
}
use y4p.Core.Splice.Whole.{concat, concat-append, Conserved, moved_bytes}
use y4p.Core.Splice.Rounds.{LoopEnded, kernel_rounds-LoopEnded, wanted_pos, no_bytes}
use y4p.Core.Splice.Counts.{left_by_kernel, Counted, copy_to_file-Counted}
use y4p.Core.Constants.{splice_chunk_bytes}

nil_of_length : (s : Bytes) → length s ≡ 0 → s ≡ []
nil_of_length [] e = refl
nil_of_length (b ∷ s) e = absurd (omega arith)

module _ (observes : Bool) (limit : ℕ) (c : Bytes) (small : limit < u64_max) where
  -- How the loops may end.
  abbrev Stops : CopyState × Option PayloadError → Type 0
  Stops (w, none) = Conserved observes limit c w × (w.src ≡ [])
  Stops (w, some empty) = ⊥
  Stops (w, some (too_large l)) = (l ≡ limit) × (limit < length c)
  Stops (w, some (PayloadError.io e)) = Unit

  abbrev PassEnded : Passed → Type 0
  PassEnded (inl w) = Conserved observes limit c w
  PassEnded (inr r) = Stops r

  write_pass-PassEnded :
      (w : CopyState) (n : ℕ) (writing : Write)
      → Conserved observes limit c w
      → n ≤ length w.src
      → PassEnded (go_on (write_pass observes limit n writing w))
  unfolding write_pass
  write_pass-PassEnded w n (cut k e) v h = tt
  write_pass-PassEnded w n written v h = elim (Bool-cases (ltb limit (w.len + n))) [
    | inl t ↦ rw t (refl, ground (arith, v.counts, h, t))
    | inr t ↦ rw t (record {
      in_file = moved_bytes n w.dst w.src ∙ v.in_file;
      in_tap = λ o. rw o (
          ap (λ x. x ++ drop n w.src) (concat-append w.tap (take n w.src))
          ∙ moved_bytes n (concat w.tap) w.src
          ∙ v.in_tap o);
      counts = omega (arith, length-drop n w.src, v.counts);
      kernel = omega (arith, v.kernel);
      within = ground (arith, t);
    })
  ]

  read_pass-PassEnded :
      (w : CopyState) (n : ℕ) (writing : Write)
      → Conserved observes limit c w
      → n ≤ length w.src
      → (n ≡ 0 → w.src ≡ [])
      → PassEnded (read_pass observes limit n writing w)
  read_pass-PassEnded w zero writing v h z = (v, z refl)
  read_pass-PassEnded w (suc n) writing v h z = write_pass-PassEnded w (suc n) writing v h

  one_pass-PassEnded :
      (w : CopyState) (reading : KernelAnswer) (writing : Write)
      → Conserved observes limit c w
      → PassEnded (one_pass observes limit reading writing w)
  unfolding one_pass
  one_pass-PassEnded w interrupted writing v = v
  one_pass-PassEnded w (fails e) writing v = tt
  one_pass-PassEnded w (moves k) writing v =
      let want = wanted splice_chunk_bytes limit w in
      let p = wanted_pos observes limit c small splice_chunk_bytes w v (omega arith) in
      read_pass-PassEnded w (min (suc k) (min want (length w.src))) writing v (omega arith)
        (λ e. no_bytes observes limit c small w.src want p (omega (arith, e)))

  abbrev WaitsOrStops : Option (CopyState × Option PayloadError) → Type 0
  WaitsOrStops none = Unit
  WaitsOrStops (some r) = Stops r

  next_pass-Stops :
      (on : CopyState → Option (CopyState × Option PayloadError)) (p : Passed)
      → PassEnded p
      → ((w : CopyState) → Conserved observes limit c w → WaitsOrStops (on w))
      → WaitsOrStops (next_pass on p)
  next_pass-Stops on (inl w) h f = f w h
  next_pass-Stops on (inr r) h f = h

  -- What `copy_to_file` may answer for the stream `c`.
  abbrev pub Copied : Option (CopyState × Option PayloadError) → Type 0
  Copied none = Unit
  Copied (some (w, none)) =
      (w.dst ≡ c)
      × (observes ≡ true → concat w.tap ≡ c)
      × (w.len ≡ length c)
      × (w.kernel_bytes ≤ w.len)
      × (0 < length c)
      × (length c ≤ limit)
  Copied (some (w, some empty)) = (c ≡ []) × (w.dst ≡ []) × (observes ≡ true → concat w.tap ≡ [])
  Copied (some (w, some (too_large l))) = (l ≡ limit) × (limit < length c)
  Copied (some (w, some (PayloadError.io e))) = Unit

  finish-Copied :
      (w : CopyState) → Conserved observes limit c w → w.src ≡ [] → Copied (some (w, finish w))
  unfolding finish
  finish-Copied w v e =
      let l : w.len ≡ length c = omega (arith, v.counts, ap length e) in
      let whole : w.dst ≡ c = sym (append-nil w.dst) ∙ ap (◌++◌ w.dst) (sym e) ∙ v.in_file in
      let shown : observes ≡ true → concat w.tap ≡ c =
        λ o. sym (append-nil (concat w.tap)) ∙ ap (◌++◌ (concat w.tap)) (sym e) ∙ v.in_tap o in
      elim (Bool-cases (w.len == 0)) [
        | inl z ↦
            let nil = nil_of_length c (ground (arith, z, l)) in
            rw z (nil, whole ∙ nil, λ o. shown o ∙ nil)
        | inr z ↦ rw z (whole, shown, l, v.kernel, ground (arith, z, l), omega (arith, l, v.within))
      ]

  finish_loop-Copied :
      (r : CopyState × Option PayloadError) → Stops r → Copied (some (finish_loop r))
  finish_loop-Copied (w, none) h = finish-Copied w h.0 h.1
  finish_loop-Copied (w, some empty) h = absurd h
  finish_loop-Copied (w, some (too_large l)) h = h
  finish_loop-Copied (w, some (PayloadError.io e)) h = tt

  awaited-Copied :
      (r : Option (CopyState × Option PayloadError)) → WaitsOrStops r → Copied (awaited r)
  awaited-Copied none h = tt
  awaited-Copied (some r) h = finish_loop-Copied r h

  buffered_loop-Stops :
      (ps : List Pass) (w : CopyState)
      → Conserved observes limit c w
      → WaitsOrStops (buffered_loop observes limit ps w)
  unfolding buffered_loop
  buffered_loop-Stops [] w v = tt
  buffered_loop-Stops (p ∷ ps) w v =
      next_pass-Stops (buffered_loop observes limit ps)
        (one_pass observes limit p.reading p.writing w) (one_pass-PassEnded w p.reading p.writing v)
        (λ w' v'. buffered_loop-Stops ps w' v')

  buffered-Copied :
      (ps : List Pass) (w : CopyState)
      → Conserved observes limit c w
      → Copied (copy_to_file_buffered observes limit ps w)
  unfolding copy_to_file_buffered
  buffered-Copied ps w v =
      awaited-Copied (buffered_loop observes limit ps w) (buffered_loop-Stops ps w v)

  fall_back-Copied :
      (ps : List Pass) (r : Option (CopyState × KernelStop))
      → LoopEnded observes limit c small r
      → Copied (fall_back observes limit ps r)
  fall_back-Copied ps none h = tt
  fall_back-Copied ps (some (w, eof)) h = finish-Copied w h.0 h.1
  fall_back-Copied ps (some (w, unsupported_end)) h = buffered-Copied ps w h
  fall_back-Copied ps (some (w, stopped empty)) h = absurd h
  fall_back-Copied ps (some (w, stopped (too_large l))) h = h
  fall_back-Copied ps (some (w, stopped (PayloadError.io e))) h = tt

  opened-Conserved : Conserved observes limit c (opened c)
  unfolding opened
  opened-Conserved = record {
    in_file = refl;
    in_tap = λ o. refl;
    counts = omega arith;
    kernel = omega arith;
    within = omega arith;
  }

kernel_loop-LoopEnded :
    (observes scratch : Bool) (limit : ℕ) (c : Bytes) (small : limit < u64_max)
    (rs : List KernelRound) (w : CopyState)
    → Conserved observes limit c w
    → LoopEnded observes limit c small (kernel_loop observes scratch limit rs w)
unfolding kernel_loop
kernel_loop-LoopEnded true false limit c small rs w v = v
kernel_loop-LoopEnded true true limit c small rs w v =
    kernel_rounds-LoopEnded true limit c small rs w v
kernel_loop-LoopEnded false scratch limit c small rs w v =
    kernel_rounds-LoopEnded false limit c small rs w v

-- On both roads.
pub copy_to_file_whole :
    (pipe : Bool ⊎ OsError) (observes scratch : Bool) (limit : ℕ) (rs : List KernelRound)
    (ps : List Pass) (src : Bytes) (small : limit < u64_max)
    → Copied observes limit src small (copy_to_file pipe observes scratch limit rs ps (opened src))
unfolding copy_to_file
copy_to_file_whole (inr e) observes scratch limit rs ps src small = tt
copy_to_file_whole (inl true) observes scratch limit rs ps src small =
    fall_back-Copied observes limit src small ps
      (kernel_loop observes scratch limit rs (opened src))
      (kernel_loop-LoopEnded observes scratch limit src small rs (opened src)
        (opened-Conserved observes limit src small))
copy_to_file_whole (inl false) observes scratch limit rs ps src small =
    buffered-Copied observes limit src small ps (opened src)
      (opened-Conserved observes limit src small)

-- A copy under a limit below the largest `u64`, whatever road it takes and wherever the kernel refuses
-- to go on: when it succeeds, the file and a tap that observes have received the whole stream, each
-- byte once and in order, which is not empty and within the limit, `len` is its length, and
-- `kernel_bytes` is what the kernel's loop has taken off it; when it calls the stream empty or too
-- large, it is, and then nothing has been received of an empty one.
pub copy_to_file-Copied :
    (pipe : Bool ⊎ OsError) (observes scratch : Bool) (limit : ℕ) (rs : List KernelRound)
    (ps : List Pass) (src : Bytes) (small : limit < u64_max)
    → let r = copy_to_file pipe observes scratch limit rs ps (opened src) in
      Copied observes limit src small r
      × Counted (left_by_kernel pipe observes scratch limit rs src) src r
copy_to_file-Copied pipe observes scratch limit rs ps src small = (
  copy_to_file_whole pipe observes scratch limit rs ps src small,
  copy_to_file-Counted pipe observes scratch limit rs ps src small (
      kernel_loop-LoopEnded observes scratch limit src small rs (opened src)
        (opened-Conserved observes limit src small)),
)
