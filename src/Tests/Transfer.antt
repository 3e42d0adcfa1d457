-- ===== src/Tests/Transfer.antt =====
-- Tests and instances for crates/core/src/payload.rs and splice.rs.
use y4p.Prelude.{
  ℕ, zero, suc, ◌+◌, ◌*◌, ◌≡◌, ◌≢◌, refl, Bool, true, false, Option, none, some, List, [], ◌∷◌,
  arith, ◌⊎◌, inl, inr, length, u64_max,
}
use y4p.Core.Text.{Text, Bytes, codes}
use y4p.Core.Payload.{
  PayloadError, OsError, Source, Payload, OpenFiles, read_payload, read_bounded, to_hex, into_path,
  new_spooled, drop_spooled,
}
use y4p.Core.Payload.Reading.{Complete, content, read_payload-Complete}
use y4p.Core.Payload.Hex.{from_hex, from_hex-to_hex}
use y4p.Core.Splice.{KernelAnswer, CopyState, KernelRound, Call}
use y4p.Core.Splice.Copy.{Pass, Write, copy_to_file, copy_to_file_buffered, opened, splice_all}
use y4p.Core.Splice.Counts.{left_by_kernel, Counted}
use y4p.Core.Splice.Ends.{Copied, copy_to_file-Copied}
use y4p.Core.Splice.Returns.{copied_bytes, copy_to_file-read_bounded, copy_to_file_buffered-returns}
use y4p.Core.Splice.All.{Spliced, splice_all-Spliced}

abbrev no_files : OpenFiles
no_files path = inr OsError.not_found

abbrev streamed : Payload
streamed =
    Payload.stream
      (record { source = record { bytes = 5 ∷ 6 ∷ 7 ∷ []; fault = none }; len_hint = none })

read_payload-Complete_example :
    (s : Source) × (content no_files streamed ≡ some s) × Complete 3 (5 ∷ 6 ∷ 7 ∷ []) s
unfolding read_payload
read_payload-Complete_example =
    read_payload-Complete no_files streamed 3 (5 ∷ 6 ∷ 7 ∷ []) (omega arith) refl

over_the_limit : read_payload no_files streamed 2 ≡ inr (PayloadError.too_large 2)
unfolding read_payload y4p.Prelude.take
over_the_limit = refl

from_hex-to_hex_example :
    (from_hex (to_hex (0x0A ∷ 0xFF ∷ [])) ≡ some (0x0A ∷ 0xFF ∷ []))
    × (length (to_hex (0x0A ∷ 0xFF ∷ [])) ≡ 2 * length {A = ℕ} (0x0A ∷ 0xFF ∷ []))
from_hex-to_hex_example = from_hex-to_hex (0x0A ∷ 0xFF ∷ []) (omega arith)

lowercase : to_hex (0x0A ∷ 0xFF ∷ []) ≡ codes "0aff"
unfolding to_hex
lowercase = refl

kept_when_renamed :
    into_path (new_spooled (codes "a") 1 []) (codes "a" ∷ []) ≡ (codes "a", codes "a" ∷ [])
unfolding into_path new_spooled
kept_when_renamed = refl

removed_when_dropped :
    drop_spooled (new_spooled (codes "a") 1 []) (codes "a" ∷ codes "b" ∷ []) ≡ codes "b" ∷ []
unfolding drop_spooled new_spooled y4p.Core.Text.list_eq
removed_when_dropped = refl

-- A round of two bytes by the kernel, which then refuses.
abbrev two_rounds : List KernelRound
two_rounds =
    record {
      first = KernelAnswer.interrupted ∷ KernelAnswer.moves 1 ∷ [];
      moving = (KernelAnswer.moves 0 ∷ []) ∷ (KernelAnswer.moves 5 ∷ []) ∷ [];
      reads = λ left. true;
    }
    ∷ record { first = KernelAnswer.fails OsError.einval ∷ []; moving = []; reads = λ left. true }
    ∷ []

abbrev passes : List Pass
passes =
    record { reading = KernelAnswer.moves 0; writing = Write.written }
    ∷ record { reading = KernelAnswer.interrupted; writing = Write.written }
    ∷ record { reading = KernelAnswer.moves 9; writing = Write.written }
    ∷ record { reading = KernelAnswer.moves 9; writing = Write.written }
    ∷ record { reading = KernelAnswer.moves 9; writing = Write.written }
    ∷ record { reading = KernelAnswer.moves 9; writing = Write.written }
    ∷ []

abbrev stream_of_four : Bytes
stream_of_four = 1 ∷ 2 ∷ 3 ∷ 4 ∷ []

abbrev copied_world : CopyState
copied_world = record {
  src = [];
  dst = stream_of_four;
  tap = (1 ∷ 2 ∷ []) ∷ (3 ∷ []) ∷ (4 ∷ []) ∷ [];
  len = 4;
  kernel_bytes = 2;
}

goes_on_by_buffer :
    copy_to_file (inl true) true true 4 two_rounds passes (opened stream_of_four)
    ≡ some (copied_world, none)
unfolding copy_to_file opened y4p.Core.Splice.is_unsupported y4p.Prelude.drop y4p.Prelude.take
goes_on_by_buffer = refl

copy_to_file-Copied_example :
    Copied true 4 stream_of_four
      (omega arith)
      (copy_to_file (inl true) true true 4 two_rounds passes (opened stream_of_four))
    × Counted
        (left_by_kernel (inl true) true true 4 two_rounds stream_of_four)
        stream_of_four
        (copy_to_file (inl true) true true 4 two_rounds passes (opened stream_of_four))
copy_to_file-Copied_example =
    copy_to_file-Copied (inl true) true true 4 two_rounds passes stream_of_four (omega arith)

copy_to_file-read_bounded_example :
    copied_bytes (copied_world, none)
    ≡ read_bounded (record { bytes = stream_of_four; fault = none }) 4
copy_to_file-read_bounded_example =
    copy_to_file-read_bounded (inl true) true true 4 two_rounds passes stream_of_four
      (copied_world, none) (omega arith) goes_on_by_buffer (λ h. h)

copy_to_file_buffered-returns_example :
    copy_to_file_buffered true 4 passes (opened stream_of_four) ≢ none
unfolding opened
copy_to_file_buffered-returns_example =
    copy_to_file_buffered-returns true 4 passes (opened stream_of_four) (omega arith)

splice_all-Spliced_example : Spliced stream_of_four (
    splice_all stream_of_four (
      (KernelAnswer.moves 1 ∷ []) ∷ (KernelAnswer.moves 9 ∷ []) ∷ (KernelAnswer.moves 0 ∷ []) ∷ []))
splice_all-Spliced_example =
    splice_all-Spliced stream_of_four
      ((KernelAnswer.moves 1 ∷ []) ∷ (KernelAnswer.moves 9 ∷ []) ∷ (KernelAnswer.moves 0 ∷ []) ∷ [])
