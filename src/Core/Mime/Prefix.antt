-- ===== src/Core/Mime/Prefix.antt =====
-- What `is_animated_webp` and the signatures of crates/core/src/utils.rs look at: the first 21 bytes
-- and the first 12.
use y4p.Prelude.{
  ℕ, zero, suc, ◌+◌, ◌≤◌, ◌≡◌, refl, Bool, true, false, ◌||◌, if◌then◌else◌, List, [], ◌∷◌, arith,
  leb, length, take, drop, Option, none, some, ◌⊎◌, inl, inr, get_elem?, length-take, take-take,
}
use y4p.Core.Text.{Bytes, Text, codes, trim_ascii_start, starts_with}
use y4p.Core.Mime.{slice_is, is_animated_webp, match_head, detect_image_mime}

take-drop-take {ℓ} :
    {A : Type ℓ} (k m n : ℕ) (xs : List A)
    → k + m ≤ n
    → take m (drop k (take n xs)) ≡ take m (drop k xs)
unfolding take drop
take-drop-take zero m n xs h = take-take m n xs (omega arith)
take-drop-take (suc k) m zero xs h = absurd (omega arith)
take-drop-take (suc k) m (suc n) [] h = refl
take-drop-take (suc k) m (suc n) (x ∷ xs) h = take-drop-take k m n xs (omega arith)

get_elem?-take {ℓ} :
    {A : Type ℓ} (n i : ℕ) (xs : List A) → i + 1 ≤ n → get_elem? (take n xs) i ≡ get_elem? xs i
unfolding take
get_elem?-take zero i xs h = absurd (omega arith)
get_elem?-take (suc n) i [] h = refl
get_elem?-take (suc n) zero (x ∷ xs) h = refl
get_elem?-take (suc n) (suc i) (x ∷ xs) h = get_elem?-take n i xs (omega arith)

leb-length-take :
    (k n : ℕ) (bytes : Bytes) → k ≤ n → leb k (length (take n bytes)) ≡ leb k (length bytes)
leb-length-take k n bytes h = ground (arith, length-take n bytes)

slice_is-take :
    (k n : ℕ) (word : Text) (bytes : Bytes)
    → k + length word ≤ n
    → slice_is k word (take n bytes) ≡ slice_is k word bytes
unfolding slice_is
slice_is-take k n word bytes h =
    rw (leb-length-take (k + length word) n bytes h) (rw (take-drop-take k (length word) n bytes h))

-- Any prefix of at least 21 bytes is judged as the whole.
pub is_animated_webp-take :
    (n : ℕ) (bytes : Bytes) → 21 ≤ n → is_animated_webp (take n bytes) ≡ is_animated_webp bytes
unfolding is_animated_webp
is_animated_webp-take n bytes h = rw (leb-length-take 21 n bytes h) (
    rw (slice_is-take 0 n (codes "RIFF") bytes (omega arith)) (
      rw (slice_is-take 8 n (codes "WEBP") bytes (omega arith)) (
        rw (slice_is-take 12 n (codes "VP8X") bytes (omega arith))
          (rw (get_elem?-take n 20 bytes (omega arith))))))

match_head-take : (n : ℕ) (bytes : Bytes) → 12 ≤ n → match_head (take n bytes) ≡ match_head bytes
unfolding match_head
match_head-take n bytes h =
    rw (slice_is-take 0 n (0x89 ∷ 0x50 ∷ 0x4E ∷ 0x47 ∷ []) bytes (omega arith)) (
      rw (slice_is-take 0 n (0xFF ∷ 0xD8 ∷ 0xFF ∷ []) bytes (omega arith)) (
        rw (slice_is-take 0 n (0x47 ∷ 0x49 ∷ 0x46 ∷ 0x38 ∷ []) bytes (omega arith)) (
          rw (slice_is-take 0 n (codes "RIFF") bytes (omega arith)) (
            rw (slice_is-take 8 n (codes "WEBP") bytes (omega arith)) (
              rw (slice_is-take 4 n (codes "ftyp") bytes (omega arith)) (
                rw (slice_is-take 8 n (codes "avif") bytes (omega arith))
                  (rw (slice_is-take 8 n (codes "avis") bytes (omega arith)))))))))

abbrev pub MaySvg : Option Text → Type 0
MaySvg o = (o ≡ none) ⊎ (o ≡ some (codes "image/svg+xml"))

abbrev svg_of : Bytes → Option Text
svg_of bytes =
    let head = trim_ascii_start bytes in
    if starts_with head (codes "<?xml") || starts_with head (codes "<svg")
    then some (codes "image/svg+xml")
    else none

abbrev judged : Bool → Option Text → Option Text → Option Text
judged false m svg = svg
judged true none svg = svg
judged true (some m) svg = some m

detect_image_mime-judged :
    (bytes : Bytes)
    → detect_image_mime bytes ≡ judged (leb 4 (length bytes)) (match_head bytes) (svg_of bytes)
unfolding detect_image_mime
detect_image_mime-judged bytes = ground arith

svg_of-MaySvg : (bytes : Bytes) → MaySvg (svg_of bytes)
svg_of-MaySvg bytes = ground arith

judged-MaySvg :
    (long : Bool) (m s s' : Option Text)
    → MaySvg s
    → MaySvg s'
    → (judged long m s ≡ judged long m s') ⊎ (MaySvg (judged long m s) × MaySvg (judged long m s'))
judged-MaySvg false m s s' h h' = inr (h, h')
judged-MaySvg true none s s' h h' = inr (h, h')
judged-MaySvg true (some m) s s' h h' = inl refl

-- The first 12 bytes tell which raster format it is, if any.
pub detect_image_mime-take :
    (n : ℕ) (bytes : Bytes)
    → 12 ≤ n
    → (detect_image_mime (take n bytes) ≡ detect_image_mime bytes)
      ⊎ (MaySvg (detect_image_mime (take n bytes)) × MaySvg (detect_image_mime bytes))
detect_image_mime-take n bytes h =
    rw
      (
        detect_image_mime-judged (take n bytes),
        detect_image_mime-judged bytes,
        leb-length-take 4 n bytes (omega arith),
        match_head-take n bytes h,
      )
      (judged-MaySvg (leb 4 (length bytes)) (match_head bytes) _ _ (svg_of-MaySvg (take n bytes))
        (svg_of-MaySvg bytes))
