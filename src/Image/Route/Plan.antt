-- ===== src/Image/Route/Plan.antt =====
-- The decision of crates/image/src/route.rs, from the first bytes and from the whole payload.
use y4p.Prelude.{
  ℕ, zero, suc, ◌≤◌, ◌≡◌, refl, sym, ◌∙◌, ap, [], ◌∷◌, arith, inl, inr, leb, length, take, take_all,
  take-take, Bool-cases,
}
use y4p.Core.Text.{Text, Bytes}
use y4p.Core.Mime.{is_animated_webp, detect_image_mime}
use y4p.Core.Mime.Prefix.{is_animated_webp-take}
use y4p.Image.Route.{sniff_head_bytes, head_of, classify, job_of, plan, outranked}

head_of-eq-take : (payload : Bytes) → head_of payload ≡ take sniff_head_bytes payload
unfolding head_of
head_of-eq-take payload = elim (Bool-cases (leb sniff_head_bytes (length payload))) [
  | inl long ↦ rw long
  | inr short ↦ rw short (sym (take_all sniff_head_bytes payload (ground arith)))
]

classify-take :
    (mime : Text) (payload : Bytes) (n : ℕ)
    → sniff_head_bytes ≤ n
    → classify mime (take n payload) ≡ classify mime payload
unfolding classify
classify-take mime payload n h =
    ap (λ b. outranked mime (detect_image_mime b))
      (head_of-eq-take (take n payload)
        ∙ take-take sniff_head_bytes n payload h
        ∙ sym (head_of-eq-take payload))

-- A payload's first bytes decide the same conversion as the whole payload, where they are at least
-- the 512 bytes that are sniffed.
pub plan-take :
    (mime : Text) (payload : Bytes) (n : ℕ)
    → sniff_head_bytes ≤ n
    → plan mime (take n payload) ≡ plan mime payload
plan-take mime [] n h = ap (plan mime) (take_all n [] (omega arith))
plan-take mime (b ∷ bs) zero h = absurd (omega arith)
plan-take mime (b ∷ bs) (suc n) h =
    let whole : plan mime (b ∷ bs) ≡ job_of (is_animated_webp (b ∷ bs)) (classify mime (b ∷ bs)) =
      unfold plan in refl in
    let start : plan mime (take (suc n) (b ∷ bs))
        ≡ job_of (is_animated_webp (take (suc n) (b ∷ bs)))
            (classify mime (take (suc n) (b ∷ bs))) =
      unfold plan take in refl in
    start
    ∙ rw (is_animated_webp-take (suc n) (b ∷ bs) (omega arith))
        (rw (classify-take mime (b ∷ bs) (suc n) h))
    ∙ sym whole
