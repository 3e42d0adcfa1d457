-- ===== src/Core/Mime.antt =====
-- The MIME helpers of crates/core/src/utils.rs, and the tables of crates/core/src/constants.rs that
-- they read.
pub mod Laws
pub mod Prefix
use y4p.Prelude.{
  ℕ, zero, suc, ◌+◌, ◌-◌, Bool, true, false, ◌&&◌, ◌||◌, not, Option, none, some, List, [], ◌∷◌,
  ◌≡◌, leb, ◌==◌, if◌then◌else◌, length, take, drop, get_elem?,
}
use Prim.Native.Nat.{bit_and}
use y4p.Core.Text.{
  Text, Bytes, codes, list_eq, starts_with, eq_ignore_ascii_case, trim, trim_ascii_start, before,
  any,
}

abbrev pub text_like_mime_hints : List Text
text_like_mime_hints =
    codes "text"
    ∷ codes "json"
    ∷ codes "xml"
    ∷ codes "xhtml"
    ∷ codes "utf8"
    ∷ codes "string"
    ∷ codes "uri-list"
    ∷ []

unfoldable pub mime_base : Text → Text
unfolding before trim
mime_base mime = trim (before b';' mime)

unfoldable pub mime_base_eq : Text → Text → Bool
unfolding mime_base
mime_base_eq a b = eq_ignore_ascii_case (mime_base a) (mime_base b)

-- `s.get(..prefix.len()).is_some_and(|head| head.eq_ignore_ascii_case(prefix))`.
unfoldable pub starts_with_ignore_ascii_case : Text → Text → Bool
unfolding take
starts_with_ignore_ascii_case s prefix =
    leb (length prefix) (length s) && eq_ignore_ascii_case (take (length prefix) s) prefix

unfoldable pub is_html_mime : Text → Bool
is_html_mime mime =
    let base = mime_base mime in
    eq_ignore_ascii_case base (codes "text/html")
    || eq_ignore_ascii_case base (codes "application/xhtml+xml")

unfoldable pub is_rtf_mime : Text → Bool
is_rtf_mime mime =
    let base = mime_base mime in
    eq_ignore_ascii_case base (codes "text/rtf")
    || eq_ignore_ascii_case base (codes "application/rtf")

-- `base_bytes.windows(n).any(|w| w.eq_ignore_ascii_case(hint_bytes))`, for a hint of n bytes.
windows_any : Text → Text → Bool
unfolding starts_with_ignore_ascii_case
windows_any [] hint = starts_with_ignore_ascii_case [] hint
windows_any (c ∷ base) hint = starts_with_ignore_ascii_case (c ∷ base) hint || windows_any base hint

unfoldable pub is_text_like_mime : Text → Bool
unfolding windows_any starts_with_ignore_ascii_case
is_text_like_mime mime =
    let base = mime_base mime in
    if starts_with_ignore_ascii_case base (codes "image/")
      || starts_with_ignore_ascii_case base (codes "audio/")
      || starts_with_ignore_ascii_case base (codes "video/")
    then false
    else any (λ hint. leb (length hint) (length base) && windows_any base hint) text_like_mime_hints

-- `data.len() >= 12 && &data[8..12] == word`, and so for other ranges.
slice_is : ℕ → Text → Bytes → Bool
slice_is at word bytes =
    leb (at + length word) (length bytes) && list_eq (take (length word) (drop at bytes)) word

-- The four-byte match, in the order of its arms.
match_head : Bytes → Option Text
unfolding slice_is
match_head bytes =
    if slice_is 0 (0x89 ∷ 0x50 ∷ 0x4E ∷ 0x47 ∷ []) bytes
    then some (codes "image/png")
    else if slice_is 0 (0xFF ∷ 0xD8 ∷ 0xFF ∷ []) bytes
    then some (codes "image/jpeg")
    else if slice_is 0 (0x47 ∷ 0x49 ∷ 0x46 ∷ 0x38 ∷ []) bytes
    then some (codes "image/gif")
    else if slice_is 0 (codes "RIFF") bytes && slice_is 8 (codes "WEBP") bytes
    then some (codes "image/webp")
    else if slice_is 4 (codes "ftyp") bytes
        && (slice_is 8 (codes "avif") bytes || slice_is 8 (codes "avis") bytes)
    then some (codes "image/avif")
    else none

unfoldable pub detect_image_mime : Bytes → Option Text
unfolding match_head
detect_image_mime bytes =
    let head = trim_ascii_start bytes in
    let svg =
      if starts_with head (codes "<?xml") || starts_with head (codes "<svg")
      then some (codes "image/svg+xml")
      else none in
    if leb 4 (length bytes) then elim (match_head bytes) [ some m ↦ some m | none ↦ svg ] else svg

-- The flag of byte 20 is bit 1.
unfoldable pub is_animated_webp : Bytes → Bool
unfolding slice_is
is_animated_webp bytes =
    leb 21 (length bytes)
    && slice_is 0 (codes "RIFF") bytes
    && slice_is 8 (codes "WEBP") bytes
    && slice_is 12 (codes "VP8X") bytes
    && elim (get_elem? bytes 20) [ none ↦ false | some b ↦ not (bit_and b 2 == 0) ]

-- `strip_html_tags`, from inside or outside a tag.
strip_from : Bool → Bytes → Bytes
strip_from in_tag [] = []
strip_from in_tag (b ∷ bytes) =
    let rest = strip_from (if b == b'<' then true else if b == b'>' then false else in_tag) bytes in
    if b == b'<'
    then rest
    else if b == b'>' && in_tag
    then rest
    else if in_tag
    then rest
    else b ∷ rest

unfoldable pub strip_html_tags : Bytes → Bytes
unfolding strip_from
strip_html_tags bytes = strip_from false bytes
