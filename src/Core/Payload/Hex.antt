-- ===== src/Core/Payload/Hex.antt =====
-- `to_hex` of crates/core/src/payload.rs against a reader of hexadecimal text.
use y4p.Prelude.{
  ℕ, ◌+◌, ◌-◌, ◌*◌, ◌/◌, ◌%◌, ◌<◌, ◌≡◌, refl, ap, Option, none, some, [], ◌∷◌, arith, All, leb,
  ◌&&◌, if◌then◌else◌, length,
}
use y4p.Core.Text.{Text, Bytes}
use y4p.Core.Payload.{digit_of, to_hex}

-- The value of a lowercase hexadecimal digit.
unfoldable pub value_of : ℕ → Option ℕ
value_of c =
    if leb 48 c && leb c 57
    then some (c - 48)
    else if leb 97 c && leb c 102
    then some (c - 87)
    else none

abbrev joined : Option ℕ → Option ℕ → Option Bytes → Option Bytes
joined (some h) (some l) (some bytes) = some ((h * 16 + l) ∷ bytes)
joined _ _ _ = none

unfoldable pub from_hex : Text → Option Bytes
unfolding value_of
from_hex [] = some []
from_hex (h ∷ []) = none
from_hex (h ∷ l ∷ t) = joined (value_of h) (value_of l) (from_hex t)

value_of-digit_of : (n : ℕ) → n < 16 → value_of (digit_of n) ≡ some n
unfolding value_of digit_of
value_of-digit_of n h = ground arith

-- The lowercase hexadecimal text of bytes has two digits for each, and can be read back.
pub from_hex-to_hex :
    (bytes : Bytes)
    → All (λ b. b < 256) bytes
    → (from_hex (to_hex bytes) ≡ some bytes) × (length (to_hex bytes) ≡ 2 * length bytes)
unfolding to_hex from_hex
from_hex-to_hex [] h = (refl, refl)
from_hex-to_hex (b ∷ bytes) h =
    let (r, l) = from_hex-to_hex bytes h.1 in
    let back : b / 16 * 16 + b % 16 ≡ b = omega arith in
    (
      rw
          (
            value_of-digit_of (b / 16) (omega (arith, h.0)),
            value_of-digit_of (b % 16) (omega arith),
            r,
          )
          (ap (λ k. some (k ∷ bytes)) back),
      omega (arith, l),
    )
