-- ===== src/Core/Cdc/Stable.antt =====
-- What an edit leaves of the chunks of crates/core/src/cdc.rs: deduplication rests on this.
use mathlib.Core.List.{flatten}
use y4p.Prelude.{
  ℕ, ◌<◌, ◌≡◌, refl, sym, ◌∙◌, ap, inl, List, [], ◌∷◌, ◌++◌, arith, length, take, drop,
  length-take_le, length-append, length-drop, append_assoc, take-append, drop-append, take_all,
}
use y4p.Core.Cdc.{cut_point, chunks}
use y4p.Core.Cdc.Local.{cut_point_local}
use y4p.Core.Cdc.Chunks.{chunks-cons, chunks-nil, cut_point_pos}

chunks_step :
    (d : List ℕ) → 0 < length d → chunks d ≡ take (cut_point d) d ∷ chunks (drop (cut_point d) d)
chunks_step [] h = absurd (omega arith)
chunks_step (b ∷ bytes) h = chunks-cons b bytes

drop_all : (xs : List ℕ) → drop (length xs) xs ≡ []
unfolding drop
drop_all [] = refl
drop_all (x ∷ xs) = drop_all xs

-- A first chunk that is not the last is the first chunk of every input that begins with it.
chunks_keep :
    (d e : List ℕ)
    → cut_point d < length d
    → chunks (take (cut_point d) d ++ e) ≡ take (cut_point d) d ∷ chunks e
chunks_keep d e h =
    let c = cut_point d in
    let p = take c d in
    let k = cut_point_local d e (inl h) in
    let l = length-take_le c d (omega arith) in
    let pos : 0 < c = cut_pos d h in
    let n = length-append p e in
    chunks_step (p ++ e) (omega arith)
    ∙ ap (λ t. take t (p ++ e) ∷ chunks (drop t (p ++ e))) (k ∙ sym l)
    ∙ ap (λ t. t ∷ chunks (drop (length p) (p ++ e)))
        (take-append (length p) p e (omega arith) ∙ take_all (length p) p (omega arith))
    ∙ ap (λ t. p ∷ chunks t)
        (drop-append (length p) p e (omega arith) ∙ ap (λ t. t ++ e) (drop_all p))
  where
    cut_pos : (d : List ℕ) → cut_point d < length d → 0 < cut_point d
    cut_pos [] h = absurd (omega arith)
    cut_pos (b ∷ bytes) h = cut_point_pos b bytes

nonempty : (d c : List ℕ) (cs : List (List ℕ)) → chunks d ≡ cs ++ c ∷ [] → 0 < length d
nonempty [] c [] h = let k = sym chunks-nil ∙ h in cc
nonempty [] c (x ∷ cs) h = let k = sym chunks-nil ∙ h in cc
nonempty (b ∷ d) c cs h = omega arith

cons_inj {ℓ} : {A : Type ℓ} {x y : A} {xs ys : List A} → x ∷ xs ≡ y ∷ ys → (x ≡ y) × (xs ≡ ys)
cons_inj h = (cc, cc)

-- All chunks but the last survive any change of what follows them: the bytes that they cover,
-- followed by any `e`, are cut into the same chunks, and then those of `e`.
pub chunks_tail_edit :
    (d e last : List ℕ) (cs : List (List ℕ))
    → chunks d ≡ cs ++ last ∷ []
    → chunks (flatten cs ++ e) ≡ cs ++ chunks e
unfolding flatten
chunks_tail_edit d e last [] h = refl
chunks_tail_edit d e last (c ∷ cs) h =
    let k = cons_inj (sym (chunks_step d (nonempty d last (c ∷ cs) h)) ∙ h) in
    let rest = drop (cut_point d) d in
    let n = length-drop (cut_point d) d in
    let pos = nonempty rest last cs k.1 in
    let ih = chunks_tail_edit rest e last cs k.1 in
    ap chunks (append_assoc c (flatten cs) e)
    ∙ ap (λ t. chunks (t ++ (flatten cs ++ e))) (sym k.0)
    ∙ chunks_keep d (flatten cs ++ e) (omega arith)
    ∙ ap (λ t. t ∷ chunks (flatten cs ++ e)) k.0
    ∙ ap (◌∷◌ c) ih
