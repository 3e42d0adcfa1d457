-- ===== src/Core/Cdc/Boundary.antt =====
-- The inner loop of `cut_point` in crates/core/src/cdc.rs: where it can stop, and what it has read.
use y4p.Prelude.{
  ℕ, suc, ◌+◌, ◌-◌, ◌≤◌, ◌<◌, ◌≡◌, subst, ◌∙◌, ap, inl, inr, List, [], ◌∷◌, ◌++◌, arith, length,
  take, drop, ◌==◌, length-take, length-drop, take-append_ge, take-append, drop-append, drop-take,
  take-take, length-take_le, Bool-cases,
}
use Prim.Native.Nat.{bit_and}
use y4p.Core.Cdc.{Scan, hit, miss, scan, roll, get_range}

-- A boundary lies behind the start, within the range; a miss has read all of the range.
abbrev pub Within : ℕ → ℕ → Scan → Type 0
Within pos n (hit p) = (pos < p) × (p ≤ pos + n)
Within pos n (miss fp p) = p ≡ pos + n

Within-suc : (pos n : ℕ) (r : Scan) → Within (pos + 1) n r → Within pos (suc n) r
Within-suc pos n (hit p) h = omega arith
Within-suc pos n (miss fp p) h = omega arith

pub scan-Within :
    (mask fp pos : ℕ) (bytes : List ℕ) → Within pos (length bytes) (scan mask fp pos bytes)
unfolding scan
scan-Within mask fp pos [] = omega arith
scan-Within mask fp pos (b ∷ bytes) = elim (Bool-cases (bit_and (roll fp b) mask == 0)) [
  | inl e ↦ rw e (omega arith)
  | inr e ↦ rw e (Within-suc pos (length bytes) _ (scan-Within mask (roll fp b) (pos + 1) bytes))
]

-- A boundary depends on the bytes before it only.
pub scan-hit_local :
    (mask fp pos p : ℕ) (bytes more : List ℕ)
    → scan mask fp pos bytes ≡ hit p
    → scan mask fp pos (take (p - pos) bytes ++ more) ≡ hit p
unfolding scan take
scan-hit_local mask fp pos p [] more h = cc
scan-hit_local mask fp pos p (b ∷ bytes) more h =
    let w = subst (Within pos (length (b ∷ bytes))) h (scan-Within mask fp pos (b ∷ bytes)) in
    let e : p - pos ≡ suc (p - (pos + 1)) = omega arith in
    elim (Bool-cases (bit_and (roll fp b) mask == 0)) [
      | inl t ↦ rw (e, t) (rw t at h)
      | inr t ↦ rw (e, t) (scan-hit_local mask (roll fp b) (pos + 1) p bytes more (rw t at h))
    ]

-- The bytes of a range within the first `c` bytes are the same whatever follows these.
pub window :
    (m k c : ℕ) (d e : List ℕ)
    → m + k ≤ c
    → c ≤ length d
    → take k (drop m (take c d ++ e)) ≡ take k (drop m d)
window m k c d e h l =
    ap (take k) (drop-append m (take c d) e (omega (arith, length-take c d)))
    ∙ take-append k (drop m (take c d)) e (omega (arith, length-take c d, length-drop m (take c d)))
    ∙ ap (take k) (drop-take m c d)
    ∙ take-take k (c - m) (drop m d) (omega arith)

-- A range that reaches past the first `c` bytes.
pub window_past :
    (m k c : ℕ) (d e : List ℕ)
    → m ≤ c
    → c ≤ m + k
    → c ≤ length d
    → take k (drop m (take c d ++ e)) ≡ take (c - m) (drop m d) ++ take (k - (c - m)) e
window_past m k c d e h g l =
    ap (take k) (
      drop-append m (take c d) e (omega (arith, length-take c d))
      ∙ ap (λ t. t ++ e) (drop-take m c d))
    ∙ take-append_ge k (take (c - m) (drop m d)) e (omega (arith, length-take (c - m) (drop m d)))
    ∙ ap (λ t. take (c - m) (drop m d) ++ take (k - t) e)
        (length-take_le (c - m) (drop m d) (omega (arith, length-drop m d)))

pub get_range_in :
    (pos end : ℕ) (bytes : List ℕ)
    → pos ≤ end
    → end ≤ length bytes
    → get_range pos end bytes ≡ take (end - pos) (drop pos bytes)
unfolding get_range
get_range_in pos end bytes h g = ground arith

pub length-get_range :
    (pos end : ℕ) (bytes : List ℕ)
    → pos ≤ end
    → end ≤ length bytes
    → length (get_range pos end bytes) ≡ end - pos
length-get_range pos end bytes h g =
    ap length (get_range_in pos end bytes h g)
    ∙ length-take_le (end - pos) (drop pos bytes) (omega (arith, length-drop pos bytes))
