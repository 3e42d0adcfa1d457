-- ===== src/Core/Cdc.antt =====
-- crates/core/src/cdc.rs: content-defined chunking. A byte slice is a list of numbers below 256, a
-- 64-bit word is a number with `% 2 ^ 64` written out.
pub mod Boundary
pub mod Cut
pub mod Local
pub mod Chunks
pub mod Stable
use Prim.Native.Nat.{bit_and, bit_xor}
use y4p.Prelude.{
  ℕ, zero, suc, ◌+◌, ◌-◌, ◌*◌, ◌/◌, ◌%◌, ◌^◌, ◌≤◌, ◌<◌, min, Bool, true, false, ◌&&◌, Option, none,
  some, List, [], ◌∷◌, ltb, leb, ◌==◌, if◌then◌else◌, length, take, drop, get_elem?,
}
use y4p.Core.Constants.{cdc_min_chunk_bytes, cdc_avg_chunk_bytes, cdc_max_chunk_bytes}

abbrev pub word : ℕ
word = 18446744073709551616

abbrev pub normalisation_level : ℕ
normalisation_level = 2

-- `CDC_AVG_CHUNK_BYTES.trailing_zeros()` of 16384.
abbrev pub avg_bits : ℕ
avg_bits = 14

-- `(!0u64) << (64 - bits)`.
top_mask : ℕ → ℕ
top_mask bits = ((word - 1) * 2 ^ (64 - bits)) % word

unfoldable pub mask_strict : ℕ
unfolding top_mask
mask_strict = top_mask (avg_bits + normalisation_level)

unfoldable pub mask_loose : ℕ
unfolding top_mask
mask_loose = top_mask (avg_bits - normalisation_level)

abbrev golden : ℕ
golden = 0x9E3779B97F4A7C15

-- The body of the `while`: one SplitMix64 output from the state.
splitmix : ℕ → ℕ
splitmix state =
    let z1 = (bit_xor state (state / 2 ^ 30) * 0xBF58476D1CE4E5B9) % word in
    let z2 = (bit_xor z1 (z1 / 2 ^ 27) * 0x94D049BB133111EB) % word in bit_xor z2 (z2 / 2 ^ 31)

-- The rounds of the `while` that are left, from the state reached.
gear_table : ℕ → ℕ → List ℕ
unfolding splitmix
gear_table zero state = []
gear_table (suc n) state = let next = (state + golden) % word in splitmix next ∷ gear_table n next

-- `GEAR`.
gear_words : List ℕ
unfolding gear_table
gear_words = gear_table 256 golden

abbrev or_zero : Option ℕ → ℕ
or_zero none = 0
or_zero (some w) = w

-- `GEAR[usize::from(byte)]`; a byte is below 256, so the index is in range.
unfoldable pub gear : ℕ → ℕ
unfolding gear_words
gear byte = or_zero (get_elem? gear_words byte)

-- `(fp << 1).wrapping_add(GEAR[byte])`.
unfoldable pub roll : ℕ → ℕ → ℕ
unfolding gear
roll fp byte = ((fp * 2) % word + gear byte) % word

-- What the loop over one range leaves: a boundary, or the hash and the position to go on from.
pub data Scan : Type 0 where
  hit : ℕ → Scan
  miss : ℕ → ℕ → Scan

-- The inner `for` over the bytes of `data.get(pos..end)`.
unfoldable pub scan : ℕ → ℕ → ℕ → List ℕ → Scan
unfolding roll
scan mask fp pos [] = miss fp pos
scan mask fp pos (byte ∷ bytes) =
    let fp' = roll fp byte in
    let rest = scan mask fp' (pos + 1) bytes in
    if bit_and fp' mask == 0 then hit (pos + 1) else rest

-- `data.get(pos..end).unwrap_or_default()`.
unfoldable pub get_range : ℕ → ℕ → List ℕ → List ℕ
get_range pos end bytes =
    if leb pos end && leb end (length bytes) then take (end - pos) (drop pos bytes) else []

-- The second round of the outer `for`, over the loose mask, and the `limit` behind the loop.
pub second_pass : ℕ → List ℕ → Scan → ℕ
unfolding scan get_range mask_loose
second_pass limit bytes (hit pos) = pos
second_pass limit bytes (miss fp pos) = elim (scan mask_loose fp pos (get_range pos limit bytes)) [
  | hit p ↦ p
  | miss _ _ ↦ limit
]

-- The code above the minimum, once `limit` is known.
pub cut_above : ℕ → List ℕ → ℕ
unfolding second_pass
cut_above limit bytes =
    let normal = min cdc_avg_chunk_bytes limit in
    second_pass limit bytes
      (scan mask_strict 0 cdc_min_chunk_bytes (get_range cdc_min_chunk_bytes normal bytes))

unfoldable pub cut_point : List ℕ → ℕ
unfolding cut_above
cut_point bytes =
    let limit = min (length bytes) cdc_max_chunk_bytes in
    if leb limit cdc_min_chunk_bytes then limit else cut_above limit bytes

-- `FastCdc::next`: the chunk and what is left; `split_at_checked` fails past the end only.
unfoldable pub next : List ℕ → Option (List ℕ × List ℕ)
unfolding cut_point
next [] = none
next (b ∷ bytes) =
    let rest = b ∷ bytes in
    let cut = cut_point rest in
    some (if leb cut (length rest) then (take cut rest, drop cut rest) else (rest, []))

-- The iterator run to its end, on fuel: each chunk takes at least one byte off.
unfoldable pub collect : ℕ → List ℕ → List (List ℕ)
collect zero bytes = []
collect (suc fuel) bytes = elim (next bytes) [
  | none ↦ []
  | some (chunk, rest) ↦ chunk ∷ collect fuel rest
]

unfoldable pub chunks : List ℕ → List (List ℕ)
unfolding collect
chunks bytes = collect (length bytes) bytes

-- `len.div_ceil(CDC_MAX_CHUNK_BYTES)` and `len`.
unfoldable pub size_hint : List ℕ → ℕ × ℕ
size_hint bytes = ((length bytes + (cdc_max_chunk_bytes - 1)) / cdc_max_chunk_bytes, length bytes)
