-- ===== src/Core/Splice/Whole.antt =====
-- What a copy of crates/core/src/splice.rs keeps, round by round: no byte of the stream is lost,
-- doubled or out of order, in the file and for the tap.
use y4p.Prelude.{
  ℕ, zero, suc, ◌+◌, ◌-◌, ◌≤◌, min, ◌≡◌, refl, sym, ◌∙◌, ap, Bool, true, Option, none, some, List,
  [], ◌∷◌, ◌++◌, arith, ltb, ◌==◌, ◌⊎◌, inl, inr, length, take, drop, append-nil, append_assoc,
  take-append-drop, take-take, drop-take, Bool-cases,
}
use y4p.Core.Text.{Bytes}
use y4p.Core.Payload.{OsError}
use y4p.Core.Splice.{
  moves, interrupted, fails, Call, splice_once, exact_step, splice_exact, Exact, CopyState,
  show_tap,
}
use y4p.Core.Constants.{splice_chunk_bytes}

abbrev pub concat : List Bytes → Bytes
concat [] = []
concat (c ∷ cs) = c ++ concat cs

pub concat-append : (cs : List Bytes) (c : Bytes) → concat (cs ++ c ∷ []) ≡ concat cs ++ c
concat-append [] c = append-nil c
concat-append (d ∷ cs) c = ap (◌++◌ d) (concat-append cs c) ∙ sym (append_assoc d (concat cs) c)

-- What a copy of the stream `c` keeps.
pub record Conserved (observes : Bool) (limit : ℕ) (c : Bytes) (w : CopyState) : Type 0 where
  pub in_file : w.dst ++ w.src ≡ c
  pub in_tap : observes ≡ true → concat w.tap ++ w.src ≡ c
  pub counts : w.len + length w.src ≡ length c
  pub kernel : w.kernel_bytes ≤ w.len
  pub within : w.len ≤ limit

pub moved_bytes : (n : ℕ) (out src : Bytes) → (out ++ take n src) ++ drop n src ≡ out ++ src
moved_bytes n out src =
    append_assoc out (take n src) (drop n src) ∙ ap (◌++◌ out) (take-append-drop n src)

-- What a call may answer.
abbrev pub Once : ℕ → ℕ → Option (ℕ ⊎ OsError) → Type 0
Once len available none = Unit
Once len available (some (inr e)) = Unit
Once len available (some (inl zero)) = min len available ≡ 0
Once len available (some (inl (suc n))) = suc n ≤ min len available

Once-at :
    (len available m : ℕ)
    → m ≤ min len available
    → (m ≡ 0 → min len available ≡ 0)
    → Once len available (some (inl m))
Once-at len available zero h z = z refl
Once-at len available (suc m) h z = h

Once-min : (k len available : ℕ) → Once len available (some (inl (min (suc k) (min len available))))
Once-min k len available =
    Once-at len available (min (suc k) (min len available)) (omega arith) (λ e. omega arith)

pub splice_once-Once :
    (len available : ℕ) (call : Call) → Once len available (splice_once len available call)
unfolding splice_once
splice_once-Once len available [] = tt
splice_once-Once len available (moves k ∷ as') = Once-min k len available
splice_once-Once len available (interrupted ∷ as') = splice_once-Once len available as'
splice_once-Once len available (fails e ∷ as') = tt

-- `splice_exact` that does not fail has moved all `n` bytes.
abbrev pub AllMoved : ℕ → Option Exact → Type 0
AllMoved n none = Unit
AllMoved n (some (m, none)) = m ≡ n
AllMoved n (some (m, some f)) = Unit

exact_step-AllMoved :
    (n available moved : ℕ) (on : ℕ → Option Exact) (r : Option (ℕ ⊎ OsError))
    → moved ≤ n
    → Once (n - moved) (available - moved) r
    → ((m : ℕ) → m ≤ n → AllMoved n (on m))
    → AllMoved n (exact_step moved on r)
exact_step-AllMoved n available moved on none h o f = tt
exact_step-AllMoved n available moved on (some (inr e)) h o f = tt
exact_step-AllMoved n available moved on (some (inl zero)) h o f = tt
exact_step-AllMoved n available moved on (some (inl (suc m))) h o f =
    f (moved + suc m) (omega arith)

pub splice_exact-AllMoved :
    (n available moved : ℕ) (calls : List Call)
    → moved ≤ n
    → n ≤ available
    → AllMoved n (splice_exact n available moved calls)
unfolding splice_exact
splice_exact-AllMoved n available moved [] h a = elim (Bool-cases (ltb moved n)) [
  | inl t ↦ rw t tt
  | inr t ↦ rw t (ground (arith, t))
]
splice_exact-AllMoved n available moved (call ∷ calls) h a = elim (Bool-cases (ltb moved n)) [
  | inl t ↦ rw t (
      exact_step-AllMoved n available moved (λ m. splice_exact n available m calls)
        (splice_once (n - moved) (available - moved) call) h
        (splice_once-Once (n - moved) (available - moved) call)
        (λ m le. splice_exact-AllMoved n available m calls le a))
  | inr t ↦ rw t (ground (arith, t))
]

take-split :
    (n left : ℕ) (b : Bytes) → n ≤ left → take n b ++ take (left - n) (drop n b) ≡ take left b
take-split n left b h =
    ap (λ t. t ++ take (left - n) (drop n b)) (sym (take-take n left b h))
    ∙ ap (λ t. take n (take left b) ++ t) (sym (drop-take n left b))
    ∙ take-append-drop n (take left b)

none_left :
    (tap : List Bytes) (left : ℕ) (bytes : Bytes)
    → left ≡ 0
    → concat tap ≡ concat tap ++ take left bytes
unfolding take
none_left tap left bytes z = rw z (sym (append-nil (concat tap)))

pub show_tap-concat :
    (fuel : ℕ) (reads : ℕ → Bool) (left : ℕ) (bytes : Bytes) (tap : List Bytes)
    → left ≤ fuel
    → (show_tap fuel reads left bytes tap).1 ≡ true
    → concat (show_tap fuel reads left bytes tap).0 ≡ concat tap ++ take left bytes
unfolding show_tap
show_tap-concat zero reads left bytes tap h e = none_left tap left bytes (omega arith)
show_tap-concat (suc fuel) reads left bytes tap h e = elim (Bool-cases (left == 0)) [
  | inl z ↦ rw z (none_left tap left bytes (ground arith))
  | inr z ↦ elim (Bool-cases (reads left)) [
    | inl ok ↦
        let n = min left splice_chunk_bytes in
        let e' : (show_tap fuel reads (left - n) (drop n bytes) (tap ++ take n bytes ∷ [])).1
            ≡ true =
          rw (z, ok) at e in
        rw (z, ok)
          (show_tap-concat fuel reads (left - n) (drop n bytes) (tap ++ take n bytes ∷ [])
              (ground (arith, z)) e'
            ∙ ap (λ t. t ++ take (left - n) (drop n bytes)) (concat-append tap (take n bytes))
            ∙ append_assoc (concat tap) (take n bytes) (take (left - n) (drop n bytes))
            ∙ ap (◌++◌ (concat tap)) (take-split n left bytes (omega arith)))
    | inr bad ↦ ground (arith, z, bad, e)
  ]
]
