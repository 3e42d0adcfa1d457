-- ===== src/Core/Cdc/Cut.antt =====
-- `cut_point` of crates/core/src/cdc.rs: its bounds, and that it looks at no byte behind the cut.
use y4p.Prelude.{
  ℕ, ◌-◌, ◌≤◌, ◌<◌, min, ◌≡◌, refl, subst, ◌∙◌, ap, ◌⊎◌, inl, inr, List, arith, length, dec_lt,
}
use y4p.Core.Constants.{cdc_min_chunk_bytes, cdc_max_chunk_bytes}
use y4p.Core.Cdc.{
  Scan, hit, miss, scan, get_range, second_pass, cut_above, cut_point, mask_strict, mask_loose,
}
use y4p.Core.Cdc.Boundary.{Within, scan-Within, length-get_range}

-- What `second_pass` answers, with the scan that it makes named.
abbrev pub passed : ℕ → Scan → ℕ
passed limit (hit p) = p
passed limit (miss fp p) = limit

second_pass-miss :
    (limit fp pos : ℕ) (d : List ℕ)
    → second_pass limit d (miss fp pos)
      ≡ passed limit (scan mask_loose fp pos (get_range pos limit d))
unfolding second_pass
second_pass-miss limit fp pos d = ground arith

-- Both scans of a cut above the minimum, with what they returned.
pub data Trace (limit : ℕ) (d : List ℕ) (c : ℕ) : Type 0 where
  strict : scan mask_strict 0 4096 (get_range 4096 (min 16384 limit) d) ≡ hit c → Trace limit d c
  loose :
      (fp : ℕ)
      → scan mask_strict 0 4096 (get_range 4096 (min 16384 limit) d) ≡ miss fp (min 16384 limit)
      → scan mask_loose fp (min 16384 limit) (get_range (min 16384 limit) limit d) ≡ hit c
      → Trace limit d c
  forced :
      (fp fp' p : ℕ)
      → scan mask_strict 0 4096 (get_range 4096 (min 16384 limit) d) ≡ miss fp (min 16384 limit)
      → scan mask_loose fp (min 16384 limit) (get_range (min 16384 limit) limit d) ≡ miss fp' p
      → c ≡ limit
      → Trace limit d c

Scan-cases : (r : Scan) → ((p : ℕ) × (r ≡ hit p)) ⊎ ((fp : ℕ) × (p : ℕ) × (r ≡ miss fp p))
Scan-cases (hit p) = inl (p, refl)
Scan-cases (miss fp p) = inr (fp, p, refl)

-- A scan of a whole range ends at its end if it finds nothing.
range-Within :
    (mask fp pos end : ℕ) (d : List ℕ)
    → pos ≤ end
    → end ≤ length d
    → Within pos (end - pos) (scan mask fp pos (get_range pos end d))
range-Within mask fp pos end d h g =
    subst (λ n. Within pos n (scan mask fp pos (get_range pos end d)))
      (length-get_range pos end d h g) (scan-Within mask fp pos (get_range pos end d))

pub cut_above-hit :
    (limit p : ℕ) (d : List ℕ)
    → scan mask_strict 0 4096 (get_range 4096 (min 16384 limit) d) ≡ hit p
    → cut_above limit d ≡ p
unfolding cut_above
cut_above-hit limit p d e = rw e

pub cut_above-miss :
    (limit fp pos : ℕ) (d : List ℕ)
    → scan mask_strict 0 4096 (get_range 4096 (min 16384 limit) d) ≡ miss fp pos
    → cut_above limit d ≡ passed limit (scan mask_loose fp pos (get_range pos limit d))
unfolding cut_above
cut_above-miss limit fp pos d e = rw e (second_pass-miss limit fp pos d)

module _ (limit : ℕ) (d : List ℕ) (above : 4096 < limit) (fits : limit ≤ length d) where
  loose-Trace :
      (fp : ℕ) (r : Scan)
      → scan mask_strict 0 4096 (get_range 4096 (min 16384 limit) d) ≡ miss fp (min 16384 limit)
      → scan mask_loose fp (min 16384 limit) (get_range (min 16384 limit) limit d) ≡ r
      → Trace limit d (passed limit r)
  loose-Trace fp (hit p) s l = loose fp s l
  loose-Trace fp (miss fp' p) s l = forced fp fp' p s l refl

  pub cut_above-Trace : Trace limit d (cut_above limit d)
  cut_above-Trace =
      elim (Scan-cases (scan mask_strict 0 4096 (get_range 4096 (min 16384 limit) d))) [
        | inl (p, e) ↦ rw (cut_above-hit limit p d e) (strict e)
        | inr (fp, p, e) ↦
            let w =
              subst (Within 4096 (min 16384 limit - 4096)) e
                (range-Within mask_strict 0 4096 (min 16384 limit) d (omega arith) (omega arith)) in
            let end : p ≡ min 16384 limit = omega arith in
            let e' = e ∙ ap (miss fp) end in
            rw (cut_above-miss limit fp (min 16384 limit) d e') (
              loose-Trace fp
                (scan mask_loose fp (min 16384 limit) (get_range (min 16384 limit) limit d)) e'
                refl)
      ]

  -- A strict hit lies below the average, a loose one above it.
  pub strict_le :
      (c : ℕ)
      → scan mask_strict 0 4096 (get_range 4096 (min 16384 limit) d) ≡ hit c
      → c ≤ min 16384 limit
  strict_le c e =
      let w =
        subst (Within 4096 (min 16384 limit - 4096)) e
          (range-Within mask_strict 0 4096 (min 16384 limit) d (omega arith) (omega arith)) in
      omega arith

  pub lt_loose :
      (fp c : ℕ)
      → scan mask_loose fp (min 16384 limit) (get_range (min 16384 limit) limit d) ≡ hit c
      → (min 16384 limit < c) × (c ≤ limit)
  lt_loose fp c e =
      let w =
        subst (Within (min 16384 limit) (limit - min 16384 limit)) e
          (range-Within mask_loose fp (min 16384 limit) limit d (omega arith) fits) in
      (omega arith, omega arith)

  pub Trace-bounds : (c : ℕ) → Trace limit d c → (4096 < c) × (c ≤ limit)
  Trace-bounds c (strict e) =
      let w =
        subst (Within 4096 (min 16384 limit - 4096)) e
          (range-Within mask_strict 0 4096 (min 16384 limit) d (omega arith) (omega arith)) in
      (omega arith, omega arith)
  Trace-bounds c (loose fp s e) =
      let w =
        subst (Within (min 16384 limit) (limit - min 16384 limit)) e
          (range-Within mask_loose fp (min 16384 limit) limit d (omega arith) fits) in
      (omega arith, omega arith)
  Trace-bounds c (forced fp fp' p s l e) = (omega arith, omega arith)

abbrev pub limit_of : List ℕ → ℕ
limit_of d = min (length d) 65536

pub cut_point-small : (d : List ℕ) → limit_of d ≤ 4096 → cut_point d ≡ limit_of d
unfolding cut_point
cut_point-small d h = ground arith

pub cut_point-above : (d : List ℕ) → 4096 < limit_of d → cut_point d ≡ cut_above (limit_of d) d
unfolding cut_point
cut_point-above d h = ground arith

-- The first chunk never exceeds the input nor the maximum; an input within the minimum is one
-- chunk; and above the minimum the cut lies behind it.
pub cut_point_bounds :
    (d : List ℕ)
    → (cut_point d ≤ length d)
      × (cut_point d ≤ cdc_max_chunk_bytes)
      × (length d ≤ cdc_min_chunk_bytes → cut_point d ≡ length d)
      × (cdc_min_chunk_bytes < length d → cdc_min_chunk_bytes < cut_point d)
cut_point_bounds d = elim (dec_lt 4096 (limit_of d)) [
  | yes h ↦
      let e = cut_point-above d h in
      let b =
        Trace-bounds (limit_of d) d h (omega arith) (cut_above (limit_of d) d)
          (cut_above-Trace (limit_of d) d h (omega arith)) in
      (omega arith, omega arith, λ k. omega arith, λ k. omega arith)
  | no h ↦
      let e = cut_point-small d (omega arith) in
      (omega arith, omega arith, λ k. omega arith, λ k. omega arith)
]
