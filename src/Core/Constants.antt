-- ===== src/Core/Constants.antt =====
-- crates/core/src/constants.rs: the bounds that the modelled code uses.
use y4p.Prelude.{ℕ, List, [], ◌∷◌}
use y4p.Core.Text.{Text, codes}

abbrev pub cdc_min_chunk_bytes : ℕ
cdc_min_chunk_bytes = 4096

abbrev pub cdc_avg_chunk_bytes : ℕ
cdc_avg_chunk_bytes = 16384

abbrev pub cdc_max_chunk_bytes : ℕ
cdc_max_chunk_bytes = 65536

abbrev pub max_payload_bytes : ℕ
max_payload_bytes = 268435456

abbrev pub preview_chars : ℕ
preview_chars = 100

abbrev pub default_max_history : ℕ
default_max_history = 256

abbrev pub sensitive_mime_hints : List Text
sensitive_mime_hints =
    codes "x-kde-passwordManagerHint"
    ∷ codes "password"
    ∷ codes "secret"
    ∷ codes "x-gnome-cliptrace"
    ∷ codes "keepass"
    ∷ codes "1password"
    ∷ codes "bitwarden"
    ∷ codes "concealed"
    ∷ []

-- `IMAGE_LIMIT_*`, the ceilings of one conversion.
abbrev pub image_limit_width_px : Text
image_limit_width_px = codes "16384"

abbrev pub image_limit_height_px : Text
image_limit_height_px = codes "16384"

abbrev pub image_limit_memory : Text
image_limit_memory = codes "256MiB"

abbrev pub image_limit_map : Text
image_limit_map = codes "512MiB"

abbrev pub image_limit_disk : Text
image_limit_disk = codes "1GiB"

abbrev pub image_limit_time_secs : Text
image_limit_time_secs = codes "10"

abbrev pub image_quality_min : ℕ
image_quality_min = 1

abbrev pub image_quality_max : ℕ
image_quality_max = 100

abbrev pub image_quality_default : ℕ
image_quality_default = 80

abbrev pub image_transcode_timeout_secs : ℕ
image_transcode_timeout_secs = 15

abbrev pub image_output_hint_cap_bytes : ℕ
image_output_hint_cap_bytes = 16777216

abbrev pub inline_payload_threshold_bytes : ℕ
inline_payload_threshold_bytes = 4096

abbrev pub digest_len : ℕ
digest_len = 32

abbrev pub splice_chunk_bytes : ℕ
splice_chunk_bytes = 65536

abbrev pub splice_round_bytes : ℕ
splice_round_bytes = 1048576

abbrev pub pipeline_chunk_bytes : ℕ
pipeline_chunk_bytes = 65536
