-- ===== src/Tests/Route.antt =====
-- Tests and instances for crates/image/src/route.rs, pipeline.rs and transcode.rs.
use y4p.Prelude.{
  u64_max, ℕ, zero, suc, ◌+◌, ◌≤◌, min, ◌≡◌, ◌≢◌, refl, Bool, true, false, Option, none, some, List,
  [], ◌∷◌, ◌++◌, arith, All, ◌⊎◌, inl, inr, length, take,
}
use y4p.Core.Text.{Text, Bytes, codes}
use y4p.Image.Breaker.{CircuitBreaker, Inner, PermitOutcome}
use y4p.Image.Breaker
use y4p.Image.Breaker.Pool.{probes}
use y4p.Image.Throttle.{ProcessThrottle}
use y4p.Image.Throttle
use y4p.Image.Pipeline.{IoError, ReadResult, WriteResult, relay}
use y4p.Image.Pipeline.Relay.{relay_whole, reads, stream_bytes}
use y4p.Image.Pipeline.Watchdog
use y4p.Image.Pipeline.Watchdog.{kills_before_reaping}
use y4p.Image.Transcode.{
  OutputFormat, Transcode, InputFormat, parse_secs, time_limit_is_safe, args, args_capacity,
}
use y4p.Image.Route.{
  Guards, Convert, plan, route_with, route_file_with, attempt_guarded, outcome_of, is_valid_output,
  sniff_head_bytes, FileRun,
}
use y4p.Image.Route.Guarded.{Stored, route_with-Stored, attempt_guarded-harmless}
use y4p.Image.Route.Roads.{route_file_with-memory, stored, file_convert}
use y4p.Image.Route.Callers.{
  Caller, Moment, interleave, calls, fresh, total, slots, canary, settled, begun,
  converters_bounded,
}

abbrev png_bytes : Bytes
png_bytes = 0x89 ∷ 0x50 ∷ 0x4E ∷ 0x47 ∷ 1 ∷ 2 ∷ []

abbrev jpeg_bytes : Bytes
jpeg_bytes = 0xFF ∷ 0xD8 ∷ 0xFF ∷ 9 ∷ 8 ∷ []

abbrev to_png : Convert
to_png job payload = inl png_bytes

abbrev both : Guards
both = fresh 3 30 2 1000

converts_a_jpeg :
    (route_with (codes "image/webp") jpeg_bytes both 5 9 to_png).1 ≡ (codes "image/png", png_bytes)
unfolding route_with y4p.Core.Mime.detect_image_mime y4p.Core.Text.list_eq take y4p.Prelude.drop
    y4p.Image.Transcode.from_mime y4p.Core.Text.eq_ignore_ascii_case y4p.Core.Mime.mime_base
    Breaker.new Throttle.new
converts_a_jpeg = refl

bypasses_svg : plan (codes "image/png") (codes "<svg></svg>") ≡ none
unfolding plan y4p.Core.Mime.detect_image_mime y4p.Core.Text.list_eq take y4p.Prelude.drop
    y4p.Core.Text.starts_with y4p.Core.Text.trim_ascii_start y4p.Image.Transcode.from_mime
    y4p.Core.Text.eq_ignore_ascii_case y4p.Core.Mime.mime_base
bypasses_svg = refl

route_with-Stored_example :
    Stored
      (codes "image/jpeg")
      jpeg_bytes
      to_png
      (route_with (codes "image/jpeg") jpeg_bytes both 5 9 to_png).1
route_with-Stored_example = route_with-Stored (codes "image/jpeg") jpeg_bytes both 5 9 to_png

abbrev no_text : OutputFormat → Text
no_text o = []

abbrev writable : FileRun
writable = record { drains = true; readable = true }

png_fits : (job : Transcode) (out : Bytes) → to_png job jpeg_bytes ≡ inl out → length out ≤ 100
png_fits job out e = ground (arith, e)

route_file_with-memory_example :
    let file =
      route_file_with
        (codes "image/jpeg")
        (take 600 jpeg_bytes)
        both
        5
        9
        (file_convert no_text to_png 100 writable jpeg_bytes) in
    let memory = route_with (codes "image/jpeg") jpeg_bytes both 5 9 to_png in
    (file.0 ≡ memory.0) × (stored (codes "image/jpeg") jpeg_bytes file.1 ≡ memory.1)
route_file_with-memory_example =
    route_file_with-memory no_text to_png 100 writable (codes "image/jpeg") jpeg_bytes both 5 9 600
      (omega arith) refl refl png_fits

abbrev at : ℕ → ℕ → Moment
at i t = record { caller = i; now = t; outcome = PermitOutcome.failure }

abbrev rush : List Moment
rush = at 0 1 ∷ at 1 1 ∷ at 2 1 ∷ at 0 2 ∷ at 1 2 ∷ at 2 3 ∷ at 2 4 ∷ at 0 5 ∷ []

rush_runs_one : total slots (interleave rush (fresh 3 30 2 1000) (calls 3)).1 ≡ 1
unfolding interleave Breaker.new Throttle.new y4p.Image.Route.Callers.turn_at
    y4p.Image.Route.Callers.turn
rush_runs_one = refl

converters_bounded_example :
    let r = interleave rush (fresh 3 30 2 1000) (calls 3) in
    (r.0.throttle.in_use ≡ total slots r.1)
    × (total slots r.1 ≤ (Throttle.new 2 1000).limit)
    × (total canary r.1 ≡ probes r.0.breaker.inner)
    × (total canary r.1 ≤ 1)
    × (All (λ w. w ≡ settled) r.1 → (r.0.throttle.in_use ≡ 0) × (probes r.0.breaker.inner ≡ 0))
converters_bounded_example = converters_bounded 3 30 2 1000 3 rush

abbrev keep_any : Bytes → Bool
keep_any b = true

-- A throttle of which all slots are taken.
abbrev crowded : Guards
crowded = record both { throttle = record { limit = 1; wait = 50; in_use = 1 } }

attempt_guarded-harmless_example :
    attempt_guarded crowded 5 9 (inl jpeg_bytes) keep_any ≡ (crowded, none)
unfolding Breaker.new
attempt_guarded-harmless_example =
    attempt_guarded-harmless keep_any crowded 5 9 0 (inl jpeg_bytes) refl (inr (omega arith))

abbrev overrun : List Watchdog.Event
overrun =
    Watchdog.drained true
    ∷ Watchdog.wakes
    ∷ Watchdog.goes_on
    ∷ Watchdog.goes_on
    ∷ Watchdog.goes_on
    ∷ Watchdog.wakes
    ∷ []

overrun_is_killed : (Watchdog.run (Watchdog.spawned true) overrun).said ≡ true
unfolding Watchdog.run Watchdog.spawned
overrun_is_killed = refl

kills_before_reaping_example :
    All (λ p. p ≢ Watchdog.reaped) (Watchdog.run (Watchdog.spawned true) overrun).kills
kills_before_reaping_example = kills_before_reaping true overrun

abbrev chunks_out : List (ReadResult × WriteResult)
chunks_out =
    (ReadResult.got (1 ∷ 2 ∷ []), WriteResult.wrote)
    ∷ (ReadResult.unread IoError.interrupted, WriteResult.wrote)
    ∷ (ReadResult.got (3 ∷ []), WriteResult.wrote)
    ∷ (ReadResult.got [], WriteResult.wrote)
    ∷ []

relay_whole_example :
    ((relay chunks_out).0 ≡ stream_bytes (reads chunks_out))
    × (length (stream_bytes (reads chunks_out)) ≡ 3)
unfolding relay
relay_whole_example = relay_whole chunks_out 3 refl

limit_is_safe : time_limit_is_safe ≡ true
unfolding time_limit_is_safe
limit_is_safe = refl
