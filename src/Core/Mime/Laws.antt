-- ===== src/Core/Mime/Laws.antt =====
-- `strip_html_tags` of crates/core/src/utils.rs against what its comment says of tags.
use y4p.Prelude.{◌≡◌, ◌≢◌, refl, Bool, true, false, [], ◌∷◌, arith, All}
use y4p.Core.Text.{Bytes}
use y4p.Core.Mime.{strip_from, strip_html_tags}

untagged : (in_tag : Bool) (bytes : Bytes) → All (λ b. b ≢ 60) (strip_from in_tag bytes)
unfolding strip_from
untagged in_tag [] = tt
untagged in_tag (b ∷ bs) = ground (arith, untagged true bs, untagged false bs)

unchanged : (bytes : Bytes) → All (λ b. b ≢ 60) bytes → strip_from false bytes ≡ bytes
unfolding strip_from
unchanged [] h = refl
unchanged (b ∷ bs) h = ground (arith, h.0, unchanged bs h.1)

-- What `strip_html_tags` leaves has no `<`, and stripping it again changes nothing.
pub strip_html_tags_idempotent :
    (bytes : Bytes)
    → All (λ b. b ≢ 60) (strip_html_tags bytes)
      × (strip_html_tags (strip_html_tags bytes) ≡ strip_html_tags bytes)
unfolding strip_html_tags
strip_html_tags_idempotent bytes =
    (untagged false bytes, unchanged (strip_from false bytes) (untagged false bytes))
