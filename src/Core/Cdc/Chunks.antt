-- ===== src/Core/Cdc/Chunks.antt =====
-- The chunks that `FastCdc` of crates/core/src/cdc.rs yields.
use mathlib.Core.List.{flatten}
use y4p.Prelude.{
  ℕ, zero, suc, ◌-◌, ◌*◌, ◌≤◌, ◌<◌, ◌≡◌, refl, sym, subst, ◌∙◌, ap, some, List, [], ◌∷◌, ◌++◌,
  arith, length, take, drop, length-take_le, length-drop, dec_lt, take-append-drop,
}
use y4p.Core.Constants.{cdc_min_chunk_bytes, cdc_max_chunk_bytes}
use y4p.Core.Cdc.{cut_point, next, collect, chunks, size_hint}
use y4p.Core.Cdc.Cut.{cut_point_bounds}

pub cut_point_pos : (b : ℕ) (bytes : List ℕ) → 0 < cut_point (b ∷ bytes)
cut_point_pos b bytes =
    let h = cut_point_bounds (b ∷ bytes) in
    elim (dec_lt 4096 (length (b ∷ bytes))) [
      | yes p ↦ omega (arith, h.3 p)
      | no p ↦ omega (arith, h.2 (omega arith))
    ]

next-cons :
    (b : ℕ) (bytes : List ℕ)
    → let d = b ∷ bytes in next d ≡ some (take (cut_point d) d, drop (cut_point d) d)
unfolding next
next-cons b bytes = ground (arith, (cut_point_bounds (b ∷ bytes)).0)

collect-cons :
    (f b : ℕ) (bytes : List ℕ)
    → let d = b ∷ bytes in
      collect (suc f) d ≡ take (cut_point d) d ∷ collect f (drop (cut_point d) d)
unfolding collect
collect-cons f b bytes = rw (next-cons b bytes, collect) refl

collect-nil : (f : ℕ) → collect f [] ≡ []
unfolding collect next
collect-nil zero = refl
collect-nil (suc f) = refl

-- Each round takes a byte at least, so fuel as long as the input is enough.
collect_enough : (f g : ℕ) (d : List ℕ) → length d ≤ f → length d ≤ g → collect f d ≡ collect g d
collect_enough f g [] h k = collect-nil f ∙ sym (collect-nil g)
collect_enough zero g (b ∷ d) h k = absurd (omega arith)
collect_enough (suc f) zero (b ∷ d) h k = absurd (omega arith)
collect_enough (suc f) (suc g) (b ∷ d) h k =
    let s = length-drop (cut_point (b ∷ d)) (b ∷ d) in
    let p = cut_point_pos b d in
    collect-cons f b d
    ∙ ap (◌∷◌ (take (cut_point (b ∷ d)) (b ∷ d)))
        (collect_enough f g (drop (cut_point (b ∷ d)) (b ∷ d)) (omega arith) (omega arith))
    ∙ sym (collect-cons g b d)

-- The iterator's equation: the first chunk, and the chunks of what is left.
pub chunks-cons :
    (b : ℕ) (bytes : List ℕ)
    → let d = b ∷ bytes in chunks d ≡ take (cut_point d) d ∷ chunks (drop (cut_point d) d)
unfolding chunks
chunks-cons b bytes =
    let d = b ∷ bytes in
    let s = length-drop (cut_point d) d in
    let p = cut_point_pos b bytes in
    collect-cons (length bytes) b bytes
    ∙ ap (◌∷◌ (take (cut_point d) d)) (
        collect_enough (length bytes) (length (drop (cut_point d) d)) (drop (cut_point d) d)
          (omega arith) (omega arith))

pub chunks-nil : chunks [] ≡ []
unfolding chunks collect next
chunks-nil = refl

-- Induction over the chunks of an input.
pub chunks_induction {ℓ} :
    (P : List ℕ → List (List ℕ) → Type ℓ)
    → P [] []
    → ((b : ℕ) (bytes : List ℕ)
        → let d = b ∷ bytes in
          P (drop (cut_point d) d) (chunks (drop (cut_point d) d))
          → P d (take (cut_point d) d ∷ chunks (drop (cut_point d) d)))
    → (f : ℕ) (d : List ℕ) → length d ≤ f
    → P d (chunks d)
chunks_induction P base step f [] h = subst (P []) (sym chunks-nil) base
chunks_induction P base step zero (b ∷ d) h = absurd (omega arith)
chunks_induction P base step (suc f) (b ∷ d) h =
    let s = length-drop (cut_point (b ∷ d)) (b ∷ d) in
    let p = cut_point_pos b d in
    subst (P (b ∷ d)) (sym (chunks-cons b d))
      (step b d (chunks_induction P base step f (drop (cut_point (b ∷ d)) (b ∷ d)) (omega arith)))

-- Concatenated, the chunks are the input.
pub flatten-chunks : (d : List ℕ) → flatten (chunks d) ≡ d
unfolding flatten
flatten-chunks d =
    chunks_induction (λ d cs. flatten cs ≡ d) refl
      (λ b bytes ih.
        ap (◌++◌ (take (cut_point (b ∷ bytes)) (b ∷ bytes))) ih
        ∙ take-append-drop (cut_point (b ∷ bytes)) (b ∷ bytes))
      (length d) d (omega arith)

-- Every chunk holds a byte and at most the maximum; every chunk but the last exceeds the minimum.
abbrev pub SizesIn : List (List ℕ) → Type 0
SizesIn [] = Unit
SizesIn (c ∷ []) = (0 < length c) × (length c ≤ cdc_max_chunk_bytes)
SizesIn (c ∷ c' ∷ cs) =
    (cdc_min_chunk_bytes < length c) × (length c ≤ cdc_max_chunk_bytes) × SizesIn (c' ∷ cs)

SizesIn-cons :
    (d rest : List ℕ)
    → 0 < length d
    → drop (cut_point d) d ≡ rest
    → SizesIn (chunks rest)
    → SizesIn (take (cut_point d) d ∷ chunks rest)
SizesIn-cons d [] h e s =
    let b = cut_point_bounds d in
    let l = length-take_le (cut_point d) d b.0 in
    let n = length-drop (cut_point d) d in
    let z = ap length e in rw chunks-nil (omega arith, omega arith)
SizesIn-cons d (x ∷ xs) h e s =
    let b = cut_point_bounds d in
    let l = length-take_le (cut_point d) d b.0 in
    let n = length-drop (cut_point d) d in
    let z = ap length e in
    rw (chunks-cons x xs) (
      subst (λ k. cdc_min_chunk_bytes < k) (sym l) (above d z n),
      subst (λ k. k ≤ cdc_max_chunk_bytes) (sym l) b.1,
      rw (chunks-cons x xs) at s,
    )
  where
    above :
        (d : List ℕ)
        → length (drop (cut_point d) d) ≡ suc (length xs)
        → length (drop (cut_point d) d) ≡ length d - cut_point d
        → cdc_min_chunk_bytes < cut_point d
    above d z n = elim (dec_lt 4096 (length d)) [
      | yes p ↦ (cut_point_bounds d).3 p
      | no p ↦ absurd (omega (arith, (cut_point_bounds d).2 (omega arith)))
    ]

-- Every chunk but the last is longer than the minimum and at most the maximum; the last one is not
-- empty and at most the maximum.
pub SizesIn-chunks : (d : List ℕ) → SizesIn (chunks d)
SizesIn-chunks d =
    chunks_induction (λ d cs. SizesIn cs) tt
      (λ b bytes ih.
        SizesIn-cons (b ∷ bytes) (drop (cut_point (b ∷ bytes)) (b ∷ bytes)) (omega arith) refl ih)
      (length d) d (omega arith)

count_bounds :
    (d : List ℕ) → (length d ≤ 65536 * length (chunks d)) × (length (chunks d) ≤ length d)
count_bounds d =
    chunks_induction (λ d cs. (length d ≤ 65536 * length cs) × (length cs ≤ length d)) (omega arith)
      (λ b bytes ih.
        let h = cut_point_bounds (b ∷ bytes) in
        let p = cut_point_pos b bytes in
        let n = length-drop (cut_point (b ∷ bytes)) (b ∷ bytes) in (omega arith, omega arith))
      (length d) d (omega arith)

-- `size_hint` brackets the number of chunks.
pub size_hint_bounds :
    (d : List ℕ) → ((size_hint d).0 ≤ length (chunks d)) × (length (chunks d) ≤ (size_hint d).1)
unfolding size_hint
size_hint_bounds d = omega (arith, count_bounds d)
