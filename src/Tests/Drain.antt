-- ===== src/Tests/Drain.antt =====
-- Runs of crates/wayland/src/handlers/data_control/device.rs on a pipe, and its property at one input.
use y4p.Prelude.{
  ℕ, zero, suc, ◌≡◌, refl, true, subst, ap, Option, none, some, [], ◌∷◌, ◌++◌, length, arith,
}
use y4p.Core.Text.{Bytes, codes}
use y4p.Core.Payload.{Source, SpooledFile}
use y4p.Core.Uri.{normalize_uri_list}
use y4p.Wayland.Drain.{Spooler, spooled, in_memory, drain_pipe}
use y4p.Wayland.Drain.Whole.{Keeps, IsWhole, drain_pipe-IsWhole}

-- A stream of `n` bytes.
abbrev long : ℕ → Bytes
long zero = []
long (suc n) = 7 ∷ long n

abbrev pipe : Source
pipe = record { bytes = long 4100; fault = none }

-- A spooler that keeps everything, and what its files hold: their length says it.
abbrev keeper : Spooler
keeper head rest limit =
    spooled
      (record { path = codes "spool"; len = length (head ++ rest); digest = []; owned = true })

abbrev HasLength : SpooledFile → Bytes → Type 0
HasLength f s = f.len ≡ length s

abbrev or_keeper : Option Spooler → Spooler
or_keeper none = keeper
or_keeper (some s) = s

keeper-Keeps :
    (spool : Spooler)
    → some keeper ≡ some spool
    → (head rest : Bytes) → Keeps HasLength head rest (spool head rest 5000)
keeper-Keeps spool e =
    subst (λ (s : Spooler). (head rest : Bytes) → Keeps HasLength head rest (s head rest 5000))
      (ap or_keeper e) (λ head rest. refl)

drain_pipe-IsWhole_example :
    IsWhole HasLength pipe 5000
      (omega arith)
      (omega arith)
      (drain_pipe pipe (codes "image/png") 5000 (some keeper))
drain_pipe-IsWhole_example =
    drain_pipe-IsWhole HasLength pipe 5000 (omega arith) (omega arith) (codes "image/png")
      (some keeper) (λ spool e. keeper-Keeps spool e)

-- A short stream never reaches the spooler.
short_in_memory :
    drain_pipe (record { bytes = 1 ∷ 2 ∷ []; fault = none }) (codes "image/png") 5000 (some keeper)
    ≡ some (in_memory (1 ∷ 2 ∷ []))
unfolding drain_pipe y4p.Core.Mime.is_text_like_mime y4p.Core.Mime.mime_base
    y4p.Core.Text.eq_ignore_ascii_case
short_in_memory = refl

-- The comment and the blank line go, the scheme and the host are stripped.
uris_normalised :
    normalize_uri_list (λ bytes. bytes) (codes "#c\nfile:///a\n\nfile://host/b\n") ≡ codes "/a\n/b"
unfolding normalize_uri_list
uris_normalised = refl
