-- ===== src/Core/Cdc/Local.antt =====
-- `cut_point` of crates/core/src/cdc.rs is content-defined: the cut is a function of the bytes of
-- the chunk alone.
use y4p.Prelude.{
  ℕ, ◌+◌, ◌-◌, ◌≤◌, ◌<◌, min, ◌≡◌, sym, subst, ◌∙◌, ap, ◌⊎◌, List, ◌++◌, arith, length, take, drop,
  length-take_le, length-append, dec_lt, take-take,
}
use y4p.Core.Constants.{cdc_max_chunk_bytes}
use y4p.Core.Cdc.{hit, miss, scan, get_range, cut_above, cut_point, mask_strict, mask_loose}
use y4p.Core.Cdc.Boundary.{scan-hit_local, window, window_past, get_range_in}
use y4p.Core.Cdc.Cut.{
  Trace, strict, loose, forced, cut_above-Trace, Trace-bounds, cut_above-hit, cut_above-miss,
  passed, limit_of, strict_le, lt_loose, cut_point-small, cut_point-above, cut_point_bounds,
}

forced_full : (limit : ℕ) {c : ℕ} → (limit ≡ 65536) ⊎ (c < limit) → c ≡ limit → limit ≡ 65536
forced_full limit o q = omega arith

limit_above :
    (d : List ℕ)
    → (cut_point d < length d) ⊎ (cut_point d ≡ cdc_max_chunk_bytes)
    → 4096 < limit_of d
limit_above d o = elim (dec_lt 4096 (limit_of d)) [
  | yes h ↦ h
  | no h ↦ absurd (omega (arith, cut_point-small d (omega arith)))
]

full_or_short :
    (d : List ℕ)
    → (cut_point d < length d) ⊎ (cut_point d ≡ cdc_max_chunk_bytes)
    → (limit_of d ≡ 65536) ⊎ (cut_point d < limit_of d)
full_or_short d o = omega (arith, (cut_point_bounds d).0, (cut_point_bounds d).1)

module _ (d e : List ℕ) (c : ℕ) (fits : c ≤ length d) where
  abbrev edited : List ℕ
  edited = take c d ++ e

  length-edited : length edited ≡ c + length e
  length-edited = omega (arith, length-append (take c d) e, length-take_le c d fits)

  same_range : (pos end : ℕ) → pos ≤ end → end ≤ c → get_range pos end edited ≡ get_range pos end d
  same_range pos end h g =
      get_range_in pos end edited h (omega (arith, length-edited))
      ∙ window pos (end - pos) c d e (omega arith) fits
      ∙ sym (get_range_in pos end d h (omega arith))

  hit_range :
      (mask fp pos end end' : ℕ)
      → pos ≤ c
      → c ≤ end
      → end ≤ length d
      → c ≤ end'
      → end' ≤ length edited
      → scan mask fp pos (get_range pos end d) ≡ hit c
      → scan mask fp pos (get_range pos end' edited) ≡ hit c
  hit_range mask fp pos end end' p q r s t h =
      let more = take (end' - pos - (c - pos)) e in
      let before : get_range pos end' edited ≡ take (c - pos) (drop pos d) ++ more =
        get_range_in pos end' edited (omega arith) t
        ∙ window_past pos (end' - pos) c d e p (omega arith) fits in
      let found = scan-hit_local mask fp pos c (get_range pos end d) more h in
      let same : take (c - pos) (get_range pos end d) ≡ take (c - pos) (drop pos d) =
        ap (take (c - pos)) (get_range_in pos end d (omega arith) r)
        ∙ take-take (c - pos) (end - pos) (drop pos d) (omega arith) in
      ap (scan mask fp pos) (before ∙ ap (λ t. t ++ more) (sym same)) ∙ found

  Trace-local :
      (limit limit' : ℕ)
      → 4096 < limit
      → limit ≤ length d
      → limit ≤ 65536
      → (limit ≡ 65536) ⊎ (c < limit)
      → limit' ≡ min (c + length e) 65536
      → Trace limit d c
      → cut_above limit' edited ≡ c
  Trace-local limit limit' h f m o l (strict s) =
      let b = Trace-bounds limit d h f c (strict s) in
      let b' = strict_le limit d h f c s in
      cut_above-hit limit' c edited (
        hit_range mask_strict 0 4096 (min 16384 limit) (min 16384 limit') (omega arith) b'
          (omega arith) (omega arith) (omega (arith, length-edited)) s)
  Trace-local limit limit' h f m o l (loose fp s e') =
      let b = lt_loose limit d h f fp c e' in
      let n : min 16384 limit ≡ 16384 = omega arith in
      let n' : min 16384 limit' ≡ 16384 = omega arith in
      let s' : scan mask_strict 0 4096 (get_range 4096 16384 edited) ≡ miss fp 16384 =
        ap (scan mask_strict 0 4096) (same_range 4096 16384 (omega arith) (omega arith))
        ∙ subst (λ t. scan mask_strict 0 4096 (get_range 4096 t d) ≡ miss fp t) n s in
      let l' : scan mask_loose fp 16384 (get_range 16384 limit' edited) ≡ hit c =
        hit_range mask_loose fp 16384 limit limit' (omega arith) (omega arith) f (omega arith)
          (omega (arith, length-edited))
          (subst (λ t. scan mask_loose fp t (get_range t limit d) ≡ hit c) n e') in
      cut_above-miss limit' fp 16384 edited
        (subst (λ t. scan mask_strict 0 4096 (get_range 4096 t edited) ≡ miss fp 16384) (sym n') s')
      ∙ ap (passed limit') l'
  Trace-local limit limit' h f m o l (forced fp fp' p s e' q) =
      let full : limit ≡ 65536 = forced_full limit o q in
      let full' : limit' ≡ limit = omega arith in
      let n : min 16384 limit ≡ 16384 = omega arith in
      let n' : min 16384 limit' ≡ 16384 = omega arith in
      let s' : scan mask_strict 0 4096 (get_range 4096 16384 edited) ≡ miss fp 16384 =
        ap (scan mask_strict 0 4096) (same_range 4096 16384 (omega arith) (omega arith))
        ∙ subst (λ t. scan mask_strict 0 4096 (get_range 4096 t d) ≡ miss fp t) n s in
      let l' : scan mask_loose fp 16384 (get_range 16384 limit' edited) ≡ miss fp' p =
        ap (λ t. scan mask_loose fp 16384 (get_range 16384 t edited)) full'
        ∙ ap (scan mask_loose fp 16384) (same_range 16384 limit (omega arith) (omega arith))
        ∙ subst (λ t. scan mask_loose fp t (get_range t limit d) ≡ miss fp' p) n e' in
      cut_above-miss limit' fp 16384 edited
        (subst (λ t. scan mask_strict 0 4096 (get_range 4096 t edited) ≡ miss fp 16384) (sym n') s')
      ∙ ap (passed limit') l'
      ∙ full'
      ∙ sym q

-- A cut that is not merely the end of the input is found again, whatever bytes follow the chunk.
pub cut_point_local :
    (d e : List ℕ)
    → (cut_point d < length d) ⊎ (cut_point d ≡ cdc_max_chunk_bytes)
    → cut_point (take (cut_point d) d ++ e) ≡ cut_point d
cut_point_local d e o =
    let b = cut_point_bounds d in
    let c = cut_point d in
    let h : 4096 < limit_of d = limit_above d o in
    let k = cut_point-above d h in
    let big : 4096 < c = b.3 (omega arith) in
    let len = length-edited d e c b.0 in
    let tr =
      subst (Trace (limit_of d) d) (sym k) (cut_above-Trace (limit_of d) d h (omega arith)) in
    let o' : (limit_of d ≡ 65536) ⊎ (c < limit_of d) = full_or_short d o in
    cut_point-above (take c d ++ e) (omega arith)
    ∙ Trace-local d e c b.0 (limit_of d) (limit_of (take c d ++ e)) h (omega arith) (omega arith) o'
        (ap (λ n. min n 65536) len) tr
