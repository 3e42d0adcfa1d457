-- ===== src/Image/Transcode.antt =====
-- crates/image/src/transcode.rs: formats, and the argument vector of a conversion. Running it is
-- `Image.Pipeline`; the converter itself is outside the repository.
pub mod Arguments
use y4p.Prelude.{
  u64_max, ℕ, zero, suc, ◌+◌, ◌-◌, ◌*◌, ◌/◌, ◌%◌, min, max, Bool, true, false, ◌&&◌, not, Option,
  none, some, List, [], ◌∷◌, ◌++◌, ltb, leb, ◌==◌, if◌then◌else◌, length, take,
}
use y4p.Core.Text.{Text, Bytes, codes, list_eq, eq_ignore_ascii_case}
use y4p.Core.Mime.{mime_base, detect_image_mime}
use y4p.Core.Constants.{
  image_limit_width_px, image_limit_height_px, image_limit_memory, image_limit_map,
  image_limit_disk, image_limit_time_secs, image_quality_min, image_quality_max,
  image_quality_default, image_transcode_timeout_secs,
}

pub data InputFormat : Type 0 where
  png jpeg gif webp bmp : InputFormat

abbrev pub pinned_input : InputFormat → Text
pinned_input png = codes "png:-[0]"
pinned_input jpeg = codes "jpeg:-[0]"
pinned_input gif = codes "gif:-[0]"
pinned_input webp = codes "webp:-[0]"
pinned_input bmp = codes "bmp:-[0]"

abbrev pub input_mimes : List (Text × InputFormat)
input_mimes =
    (codes "image/png", png)
    ∷ (codes "image/jpeg", jpeg)
    ∷ (codes "image/jpg", jpeg)
    ∷ (codes "image/gif", gif)
    ∷ (codes "image/webp", webp)
    ∷ (codes "image/bmp", bmp)
    ∷ (codes "image/x-ms-bmp", bmp)
    ∷ []

-- The `find` and `map` of `from_mime`.
unfoldable pub find_format : Text → List (Text × InputFormat) → Option InputFormat
find_format base [] = none
find_format base (m ∷ ms) = if eq_ignore_ascii_case base m.0 then some m.1 else find_format base ms

unfoldable pub from_mime : Text → Option InputFormat
unfolding find_format
from_mime mime = find_format (mime_base mime) input_mimes

abbrev from_detected : Option Text → Option InputFormat
from_detected none = none
from_detected (some mime) = from_mime mime

unfoldable pub sniff : Bytes → Option InputFormat
unfolding from_mime
sniff header = from_detected (detect_image_mime header)

-- A `u8` that `new` has clamped.
pub record Quality : Type 0 where
  pub value : ℕ

abbrev pub new_quality : ℕ → Quality
new_quality raw = record { value = min (max raw image_quality_min) image_quality_max }

abbrev pub default_quality : Quality
default_quality = new_quality image_quality_default

pub data OutputFormat : Type 0 where
  png webp_lossless : OutputFormat
  webp_lossy : Quality → OutputFormat

abbrev pub output_mime : OutputFormat → Text
output_mime OutputFormat.png = codes "image/png"
output_mime webp_lossless = codes "image/webp"
output_mime (webp_lossy q) = codes "image/webp"

pub record Transcode : Type 0 where
  pub input : InputFormat
  pub output : OutputFormat

-- The loop of `parse_secs`, from the seconds read so far.
unfoldable pub secs_from : ℕ → Text → ℕ
secs_from secs [] = secs
secs_from secs (c ∷ cs) =
    let rest = secs_from (min u64_max (min u64_max (secs * 10) + (c - 48))) cs in
    if leb 48 c && leb c 57 then rest else u64_max

unfoldable pub parse_secs : Text → ℕ
unfolding secs_from
parse_secs [] = u64_max
parse_secs (c ∷ cs) = secs_from 0 (c ∷ cs)

-- The assertion that the crate compiles under.
unfoldable pub time_limit_is_safe : Bool
unfolding parse_secs
time_limit_is_safe =
    leb 1 (parse_secs image_limit_time_secs)
    && ltb (parse_secs image_limit_time_secs) image_transcode_timeout_secs

abbrev pub limits : List (Text × Text)
limits =
    (codes "width", image_limit_width_px)
    ∷ (codes "height", image_limit_height_px)
    ∷ (codes "memory", image_limit_memory)
    ∷ (codes "map", image_limit_map)
    ∷ (codes "disk", image_limit_disk)
    ∷ (codes "time", image_limit_time_secs)
    ∷ []

abbrev pub args_capacity : ℕ
args_capacity = length limits * 3 + 3 + 5

-- `to_string` of a number below 256.
unfoldable pub decimal : ℕ → Text
decimal n =
    if ltb n 10
    then (48 + n) ∷ []
    else if ltb n 100
    then (48 + n / 10) ∷ (48 + n % 10) ∷ []
    else (48 + n / 100) ∷ (48 + n / 10 % 10) ∷ (48 + n % 10) ∷ []

unfoldable pub limit_args : List (Text × Text) → List Text
limit_args [] = []
limit_args (l ∷ ls) = codes "-limit" ∷ l.0 ∷ l.1 ∷ limit_args ls

unfoldable pub encoder_args : OutputFormat → List Text
unfolding decimal
encoder_args OutputFormat.png =
    codes "-define"
    ∷ codes "png:compression-level=1"
    ∷ codes "-define"
    ∷ codes "png:exclude-chunk=tIME"
    ∷ codes "png:-"
    ∷ []
encoder_args webp_lossless =
    codes "-define"
    ∷ codes "webp:lossless=true"
    ∷ codes "-quality"
    ∷ codes "100"
    ∷ codes "webp:-"
    ∷ []
encoder_args (webp_lossy quality) =
    codes "-define"
    ∷ codes "webp:lossless=false"
    ∷ codes "-quality"
    ∷ decimal quality.value
    ∷ codes "webp:-"
    ∷ []

unfoldable pub args : Transcode → List Text
unfolding limit_args encoder_args
args job =
    limit_args limits
    ++ pinned_input job.input ∷ codes "-auto-orient" ∷ codes "-strip" ∷ encoder_args job.output

abbrev pub signature_probe_bytes : ℕ
signature_probe_bytes = 32

unfoldable pub mime_is : Option Text → OutputFormat → Bool
mime_is none target = false
mime_is (some m) target = list_eq m (output_mime target)

-- `check_signature` on what the file holds, `none` if reading it back fails.
pub data Checked : Type 0 where
  passed no_image unreadable : Checked

unfoldable pub check_signature : OutputFormat → Option Bytes → Checked
unfolding mime_is
check_signature target none = unreadable
check_signature target (some file) =
    let head = take signature_probe_bytes file in
    if ltb 0 (length head) && mime_is (detect_image_mime head) target then passed else no_image
