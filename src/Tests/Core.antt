-- ===== src/Tests/Core.antt =====
-- Runs of crates/core/src/cdc.rs, and its properties at one input.
use mathlib.Core.List.{flatten}
use y4p.Prelude.{ℕ, zero, suc, ◌≤◌, ◌<◌, ◌≡◌, refl, List, [], ◌∷◌, ◌++◌, take, drop, length}
use y4p.Core.Constants.{cdc_min_chunk_bytes, cdc_max_chunk_bytes}
use y4p.Core.Cdc.{gear, mask_strict, mask_loose, cut_point, next, chunks}
use y4p.Core.Cdc.Cut.{cut_point_bounds}
use y4p.Core.Cdc.Chunks.{flatten-chunks, SizesIn, SizesIn-chunks}
use y4p.Core.Cdc.Stable.{chunks_tail_edit}
use y4p.Core.Text.{codes}
use y4p.Core.Mime.{strip_html_tags}

abbrev replicate : ℕ → ℕ → List ℕ
replicate zero a = []
replicate (suc n) a = a ∷ replicate n a

gear_run : gear 1 ≡ 487617019471545679
unfolding gear
gear_run = refl

mask_strict_run : mask_strict ≡ 18446462598732840960
unfolding mask_strict
mask_strict_run = refl

mask_loose_run : mask_loose ≡ 18442240474082181120
unfolding mask_loose
mask_loose_run = refl

-- The hash of the three bytes behind the minimum meets the strict mask.
head_chunk : List ℕ
head_chunk = replicate 4096 0 ++ 5 ∷ 232 ∷ 220 ∷ []

sample : List ℕ
unfolding head_chunk
sample = head_chunk ++ 7 ∷ 8 ∷ []

cut_point_run : cut_point sample ≡ 4099
unfolding sample cut_point gear take drop mask_strict
cut_point_run = refl

length_run : length sample ≡ 4101
unfolding sample
length_run = refl

chunks_run : chunks sample ≡ head_chunk ∷ (7 ∷ 8 ∷ []) ∷ []
unfolding sample chunks next cut_point gear take drop mask_strict mask_loose
chunks_run = refl

cut_point_bounds_example :
    (cut_point sample ≤ length sample)
    × (cut_point sample ≤ cdc_max_chunk_bytes)
    × (length sample ≤ cdc_min_chunk_bytes → cut_point sample ≡ length sample)
    × (cdc_min_chunk_bytes < length sample → cdc_min_chunk_bytes < cut_point sample)
cut_point_bounds_example = cut_point_bounds sample

flatten-chunks_example : flatten (chunks sample) ≡ sample
flatten-chunks_example = flatten-chunks sample

SizesIn-chunks_example : SizesIn (chunks sample)
SizesIn-chunks_example = SizesIn-chunks sample

chunks_tail_edit_example :
    chunks (flatten (head_chunk ∷ []) ++ 9 ∷ []) ≡ (head_chunk ∷ []) ++ chunks (9 ∷ [])
chunks_tail_edit_example =
    chunks_tail_edit sample (9 ∷ []) (7 ∷ 8 ∷ []) (head_chunk ∷ []) chunks_run

stripped_markup : strip_html_tags (codes "<b>a</b> > c") ≡ codes "a > c"
unfolding strip_html_tags
stripped_markup = refl
