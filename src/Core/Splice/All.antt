-- ===== src/Core/Splice/All.antt =====
-- `splice_all` of crates/core/src/splice.rs against the stream that it moves.
use y4p.Prelude.{
  ℕ, zero, suc, ◌+◌, ◌≤◌, ◌≡◌, refl, sym, ◌∙◌, ap, Option, none, some, List, [], ◌∷◌, ◌++◌, arith,
  ◌==◌, ◌⊎◌, inl, inr, length, take, drop, append-nil, length-append, length-take, Bool-cases,
}
use y4p.Core.Text.{Bytes}
use y4p.Core.Payload.{OsError}
use y4p.Core.Splice.{Call, is_unsupported, splice_once, tried, try_splice}
use y4p.Core.Splice.Copy.{splice_from, spliced, splice_all}
use y4p.Core.Splice.Whole.{Once, splice_once-Once, moved_bytes}
use y4p.Core.Constants.{pipeline_chunk_bytes}

-- What one `try_splice` of a positive length may answer where `available` bytes are left.
abbrev Tried : ℕ → Option (Option ℕ ⊎ OsError) → Type 0
Tried available none = Unit
Tried available (some (inr e)) = Unit
Tried available (some (inl none)) = Unit
Tried available (some (inl (some zero))) = available ≡ 0
Tried available (some (inl (some (suc n)))) = suc n ≤ available

tried-Tried :
    (len available : ℕ) (r : Option (ℕ ⊎ OsError))
    → Once (suc len) available r
    → Tried available (tried r)
tried-Tried len available none o = tt
tried-Tried len available (some (inl zero)) o = omega arith
tried-Tried len available (some (inl (suc n))) o = omega arith
tried-Tried len available (some (inr e)) o = elim (Bool-cases (is_unsupported e)) [
  | inl t ↦ rw t tt
  | inr t ↦ rw t tt
]

try_splice-Tried :
    (len available : ℕ) (call : Call) → Tried available (try_splice (suc len) available call)
unfolding try_splice
try_splice-Tried len available call =
    tried-Tried len available (splice_once (suc len) available call)
      (splice_once-Once (suc len) available call)

-- How a splice of the stream `c` may end.
abbrev pub Spliced : Bytes → Option (Bytes × (Option ℕ ⊎ OsError)) → Type 0
Spliced c none = Unit
Spliced c (some (dst, inl (some n))) = (dst ≡ c) × (n ≡ length c)
Spliced c (some (dst, inl none)) = dst ≡ []
Spliced c (some (dst, inr e)) = Unit

nothing_yet : (total : ℕ) (dst : Bytes) → total ≡ length dst → total ≡ 0 → dst ≡ []
nothing_yet total [] l z = refl
nothing_yet total (b ∷ dst) l z = absurd (omega arith)

nothing_left : (src : Bytes) → length src ≡ 0 → src ≡ []
nothing_left [] e = refl
nothing_left (b ∷ src) e = absurd (omega arith)

spliced-Spliced :
    (c : Bytes) (total : ℕ) (on : ℕ → Option (Bytes × (Option ℕ ⊎ OsError))) (src dst : Bytes)
    (r : Option (Option ℕ ⊎ OsError))
    → dst ++ src ≡ c
    → total ≡ length dst
    → Tried (length src) r
    → ((n : ℕ) → suc n ≤ length src → Spliced c (on (suc n)))
    → Spliced c (spliced total on dst r)
spliced-Spliced c total on src dst none e l t f = tt
spliced-Spliced c total on src dst (some (inr x)) e l t f = tt
spliced-Spliced c total on src dst (some (inl (some zero))) e l t f =
    let whole : dst ≡ c = sym (append-nil dst) ∙ ap (◌++◌ dst) (sym (nothing_left src t)) ∙ e in
    (whole, l ∙ ap length whole)
spliced-Spliced c total on src dst (some (inl (some (suc n)))) e l t f = f n t
spliced-Spliced c total on src dst (some (inl none)) e l t f = elim (Bool-cases (total == 0)) [
  | inl z ↦ rw z (nothing_yet total dst l (ground (arith, z)))
  | inr z ↦ rw z tt
]

splice_from-Spliced :
    (c : Bytes) (total : ℕ) (src dst : Bytes) (calls : List Call)
    → dst ++ src ≡ c
    → total ≡ length dst
    → Spliced c (splice_from total src dst calls)
unfolding splice_from
splice_from-Spliced c total src dst [] e l = tt
splice_from-Spliced c total src dst (call ∷ calls) e l =
    spliced-Spliced c total (λ n. splice_from (total + n) (drop n src) (dst ++ take n src) calls)
      src dst (try_splice pipeline_chunk_bytes (length src) call) e l
      (try_splice-Tried 65535 (length src) call)
      (λ n h.
        splice_from-Spliced c (total + suc n) (drop (suc n) src) (dst ++ take (suc n) src) calls
          (moved_bytes (suc n) dst src ∙ e)
          (omega (arith, l, length-append dst (take (suc n) src), length-take (suc n) src)))

-- A `splice_all` that answers a number has moved the whole stream, in order, and the number is its
-- length; where it answers that the kernel cannot splice, nothing has been moved.
pub splice_all-Spliced : (src : Bytes) (calls : List Call) → Spliced src (splice_all src calls)
unfolding splice_all
splice_all-Spliced src calls = splice_from-Spliced src 0 src [] calls refl refl
