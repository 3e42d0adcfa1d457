-- ===== src/Storage/Rows.antt =====
-- crates/storage/src/db.rs: storage classes, and the parts of a row built from a payload.
use y4p.Prelude.{
  ℕ, Bool, true, false, ◌&&◌, ◌||◌, not, Option, none, some, List, ltb, ◌==◌, if◌then◌else◌, length,
  map, take,
}
use y4p.Core.Text.{Text, Bytes, codes, starts_with, contains, any}
use y4p.Core.Mime.{is_html_mime, is_text_like_mime, strip_html_tags}
use y4p.Core.Constants.{cdc_min_chunk_bytes, preview_chars, sensitive_mime_hints}
use y4p.Storage.Tables.{Column, null, text_class, blob_class, Row}

-- What the code takes from outside the repository: SHA3-256, the UTF-8 decoding of `std`, and the
-- order in which SQLite answers `ORDER BY timestamp DESC`, which leaves ties open.
pub record Host : Type 0 where
  pub digest : Bytes → Bytes
  pub is_utf8 : Bytes → Bool
  pub lossy : Bytes → Text
  pub newest : List Row → List Row

pub data Body : Type 0 where
  bytes : Bytes → Body
  detached : ℕ → Body

-- `as i64` keeps a length below 2^63, and a payload has at most `max_payload_bytes`.
unfoldable pub body_len : Body → ℕ
body_len (bytes b) = length b
body_len (detached len) = len

pub data Content : Type 0 where
  text blob chunked : Bytes → Content
  no_content : Content

unfoldable pub is_cache_class : Text → Bool
is_cache_class mime = starts_with mime (codes "image/") || contains mime (codes "gif")

unfoldable pub is_detachable : Text → Bool
is_detachable mime = is_cache_class mime && not (is_text_like_mime mime)

unfoldable pub is_chunkable : Text → ℕ → Bool
is_chunkable mime len = not (is_cache_class mime) && ltb cdc_min_chunk_bytes len

unfoldable pub is_skipped : Text → ℕ → Bool
is_skipped mime len = len == 0 || any (λ hint. contains mime hint) sensitive_mime_hints

-- `replace('\n', " ")`.
unfoldable pub newline_to_space : Text → Text
newline_to_space = map (λ c. if c == 10 then 32 else c)

unfoldable pub preview_of : Host → Text → Bytes → Option Text
unfolding newline_to_space
preview_of host mime payload =
    let text_data = if is_html_mime mime then strip_html_tags payload else payload in
    if is_text_like_mime mime
    then some (newline_to_space (take preview_chars (host.lossy text_data)))
    else none

unfoldable pub content_of : Host → Text → Bytes → Bool → Content
content_of host mime payload is_image =
    if is_chunkable mime (length payload)
    then chunked payload
    else if host.is_utf8 payload && is_text_like_mime mime
    then text payload
    else if is_image
    then no_content
    else blob payload

unfoldable pub row_parts : Host → Text → Bytes → Bool → Option Text × Content
unfolding preview_of content_of
row_parts host mime payload is_image =
    (preview_of host mime payload, content_of host mime payload is_image)

unfoldable pub parts_of : Host → Text → Body → Bool → Option Text × Content
unfolding row_parts
parts_of host mime (detached len) is_image = (none, no_content)
parts_of host mime (bytes b) is_image = row_parts host mime b is_image

-- What the three INSERT statements bind to `content` and `is_chunked`.
abbrev pub column : Content → Column
column (text b) = text_class b
column (blob b) = blob_class b
column (chunked b) = null
column no_content = null

abbrev pub is_chunked_content : Content → Bool
is_chunked_content (chunked b) = true
is_chunked_content _ = false
