-- ===== src/Core/Payload.antt =====
-- crates/core/src/payload.rs: where a payload's bytes live, and reading them under a bound. OpenFiles and
-- descriptors are the kernel's: what reading one yields is a `Source`, and the files are a function
-- from paths.
pub mod Reading
pub mod Hex
use y4p.Prelude.{
  ℕ, zero, suc, ◌+◌, ◌-◌, ◌*◌, ◌/◌, ◌%◌, min, ◌≡◌, Bool, true, false, ◌&&◌, not, Option, none, some,
  List, [], ◌∷◌, ◌++◌, ltb, leb, ◌==◌, if◌then◌else◌, ◌⊎◌, inl, inr, length, take, u64_max,
}
use y4p.Core.Text.{Text, Bytes, codes, list_eq}
use y4p.Core.Mime.{is_text_like_mime}
use y4p.Core.Constants.{inline_payload_threshold_bytes}

-- The errors that the code tells apart.
pub data OsError : Type 0 where
  einval enosys eopnotsupp unexpected_eof unsupported not_found other : OsError

pub data PayloadError : Type 0 where
  empty : PayloadError
  too_large : ℕ → PayloadError
  io : OsError → PayloadError

-- What a reader yields: bytes, and then its end or an error that is not `Interrupted`.
pub record Source : Type 0 where
  pub bytes : Bytes
  pub fault : Option OsError

pub record StreamDescriptor : Type 0 where
  pub source : Source
  pub len_hint : Option ℕ

pub record SpooledFile : Type 0 where
  pub path : Text
  pub len : ℕ
  pub digest : Bytes
  pub owned : Bool

pub data Payload : Type 0 where
  memory : Bytes → Payload
  stream : StreamDescriptor → Payload
  file : Text → Payload
  spooled : SpooledFile → Payload

-- `Payload::len_hint` and `Payload::as_bytes`.
unfoldable pub len_hint : Payload → Option ℕ
len_hint (memory bytes) = some (length bytes)
len_hint (stream s) = s.len_hint
len_hint (file path) = none
len_hint (spooled f) = some f.len

unfoldable pub as_bytes : Payload → Option Bytes
as_bytes (memory bytes) = some bytes
as_bytes (stream s) = none
as_bytes (file path) = none
as_bytes (spooled f) = none

-- `Payload::try_clone`; `dup` is how `dup(2)` ends.
unfoldable pub try_clone : Option OsError → Payload → Payload ⊎ OsError
try_clone dup (memory bytes) = inl (memory bytes)
try_clone none (stream s) = inl (stream s)
try_clone (some e) (stream s) = inr e
try_clone dup (file path) = inl (file path)
try_clone dup (spooled f) = inr unsupported

-- `limit.saturating_add(1)`.
abbrev pub probe_limit : ℕ → ℕ
probe_limit limit = min (limit + 1) u64_max

-- `reader.take(n).read_to_end(..)`, as documented: what fails is met only before the `n`-th byte.
unfoldable pub take_to_end : ℕ → Source → Bytes ⊎ OsError
take_to_end n s =
    if ltb (length s.bytes) n
    then elim s.fault [ none ↦ inl s.bytes | some e ↦ inr e ]
    else inl (take n s.bytes)

-- The tests behind the read.
abbrev pub within_limit : ℕ → Bytes → Bytes ⊎ PayloadError
within_limit limit [] = inr empty
within_limit limit (b ∷ bytes) =
    if ltb limit (length (b ∷ bytes)) then inr (too_large limit) else inl (b ∷ bytes)

abbrev pub read_of : ℕ → Bytes ⊎ OsError → Bytes ⊎ PayloadError
read_of limit (inl bytes) = within_limit limit bytes
read_of limit (inr e) = inr (io e)

-- `read_bounded`; the capacity that it reserves is not seen in its answer.
unfoldable pub read_bounded : Source → ℕ → Bytes ⊎ PayloadError
unfolding take_to_end
read_bounded reader limit = read_of limit (take_to_end (probe_limit limit) reader)

-- A path: how opening it ends, and the size that `fstat` then answers.
pub record Opened : Type 0 where
  pub source : Source
  pub size : Option ℕ

abbrev pub OpenFiles : Type 0
OpenFiles = Text → Opened ⊎ OsError

abbrev pub exceeds : ℕ → Option ℕ → Bool
exceeds limit none = false
exceeds limit (some len) = ltb limit len

abbrev pub read_opened : ℕ → Opened ⊎ OsError → Bytes ⊎ PayloadError
read_opened limit (inr e) = inr (io e)
read_opened limit (inl o) = read_bounded o.source limit

abbrev pub read_stated : ℕ → Opened ⊎ OsError → Bytes ⊎ PayloadError
read_stated limit (inr e) = inr (io e)
read_stated limit (inl o) =
    if exceeds limit o.size then inr (too_large limit) else read_bounded o.source limit

-- `Payload::read_bounded`.
unfoldable pub read_payload : OpenFiles → Payload → ℕ → Bytes ⊎ PayloadError
unfolding read_bounded
read_payload files (memory bytes) limit = within_limit limit bytes
read_payload files (stream s) limit = read_bounded s.source limit
read_payload files (file path) limit = read_stated limit (files path)
read_payload files (spooled f) limit =
    if ltb limit f.len then inr (too_large limit) else read_opened limit (files f.path)

pub data PayloadReader : Type 0 where
  memory : Bytes → PayloadReader
  stream : StreamDescriptor → PayloadReader
  file : Source → Option ℕ → PayloadReader

abbrev pub opened_reader : Option ℕ → Opened ⊎ OsError → PayloadReader ⊎ OsError
opened_reader known (inr e) = inr e
opened_reader (some len) (inl o) = inl (PayloadReader.file o.source (some len))
opened_reader none (inl o) = inl (PayloadReader.file o.source o.size)

unfoldable pub into_reader : OpenFiles → Payload → PayloadReader ⊎ OsError
into_reader files (memory bytes) = inl (PayloadReader.memory bytes)
into_reader files (stream s) = inl (PayloadReader.stream s)
into_reader files (file path) = opened_reader none (files path)
into_reader files (spooled f) = opened_reader (some f.len) (files f.path)

-- What reading the reader to its end yields, and its `len_hint`.
unfoldable pub reader_source : PayloadReader → Source
reader_source (memory bytes) = record { bytes = bytes; fault = none }
reader_source (stream s) = s.source
reader_source (file source len) = source

unfoldable pub reader_len_hint : PayloadReader → Option ℕ
reader_len_hint (memory bytes) = some (length bytes)
reader_len_hint (stream s) = s.len_hint
reader_len_hint (file source len) = len

unfoldable pub new_spooled : Text → ℕ → Bytes → SpooledFile
new_spooled path len digest = record { path = path; len = len; digest = digest; owned = true }

-- The paths that there are.
unfoldable pub remove_path : Text → List Text → List Text
remove_path path [] = []
remove_path path (p ∷ ps) = if list_eq p path then remove_path path ps else p ∷ remove_path path ps

-- `Drop for SpooledFile`.
unfoldable pub drop_spooled : SpooledFile → List Text → List Text
unfolding remove_path
drop_spooled f paths = if f.owned then remove_path f.path paths else paths

-- `into_path`: the path, and the paths that are left once the value is dropped.
unfoldable pub into_path : SpooledFile → List Text → Text × List Text
unfolding drop_spooled
into_path f paths = (f.path, drop_spooled (record f { owned = false; path = [] }) paths)

-- The digit of a nibble, and `to_hex`.
unfoldable pub digit_of : ℕ → ℕ
digit_of n = if ltb n 10 then n + 48 else n + 87

unfoldable pub to_hex : Bytes → Text
unfolding digit_of
to_hex [] = []
to_hex (b ∷ bytes) = digit_of (b / 16) ∷ digit_of (b % 16) ∷ to_hex bytes

pub data PayloadRoute : Type 0 where
  inline stream : PayloadRoute

unfoldable pub route_payload : Text → Option ℕ → PayloadRoute
route_payload mime (some len) =
    if leb len inline_payload_threshold_bytes then inline else PayloadRoute.stream
route_payload mime none = if is_text_like_mime mime then inline else PayloadRoute.stream
