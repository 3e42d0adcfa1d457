-- ===== src/Core/Text.antt =====
-- What the crates use of `str`, `[u8]` and `char` of the standard library. A text is the list of its
-- code points and a byte slice the list of its bytes; the needles and prefixes of the source are
-- ASCII, so comparing code points is comparing bytes.
use Prim.Native.Char.{code}
use Prim.Native.String.{String}
use y4p.Prelude.{
  ◌≤◌, ap, ◌∙◌, ℕ, ◌+◌, ◌≡◌, refl, Bool, true, false, ◌&&◌, ◌||◌, List, [], ◌∷◌, leb, ◌==◌,
  if◌then◌else◌, arith,
}

abbrev pub Text : Type 0
Text = List ℕ

abbrev pub Bytes : Type 0
Bytes = List ℕ

-- A literal.
abbrev pub codes : String → Text
codes String.[] = []
codes (String.◌∷◌ c s) = code c ∷ codes s

-- Equality of texts and of byte slices.
unfoldable pub list_eq : List ℕ → List ℕ → Bool
list_eq [] [] = true
list_eq [] (b ∷ bs) = false
list_eq (a ∷ as') [] = false
list_eq (a ∷ as') (b ∷ bs) = (a == b) && list_eq as' bs

pub list_eq_sound : (a b : List ℕ) → list_eq a b ≡ true → a ≡ b
unfolding list_eq
list_eq_sound [] [] h = refl
list_eq_sound [] (b ∷ bs) h = cc
list_eq_sound (a ∷ as') [] h = cc
list_eq_sound (a ∷ as') (b ∷ bs) h = ground (arith, list_eq_sound as' bs)

pub list_eq_refl : (a : List ℕ) → list_eq a a ≡ true
unfolding list_eq
list_eq_refl [] = refl
list_eq_refl (a ∷ as') = ground (arith, list_eq_refl as')

-- `starts_with`.
unfoldable pub starts_with : List ℕ → List ℕ → Bool
starts_with s [] = true
starts_with [] (p ∷ ps) = false
starts_with (c ∷ s) (p ∷ ps) = (c == p) && starts_with s ps

-- `contains`.
unfoldable pub contains : List ℕ → List ℕ → Bool
unfolding starts_with
contains [] needle = starts_with [] needle
contains (c ∷ s) needle = starts_with (c ∷ s) needle || contains s needle

-- `to_ascii_lowercase` of one character.
unfoldable pub lower : ℕ → ℕ
lower c = if leb 65 c && leb c 90 then c + 32 else c

unfoldable pub eq_ignore_ascii_case : List ℕ → List ℕ → Bool
unfolding lower
eq_ignore_ascii_case [] [] = true
eq_ignore_ascii_case [] (b ∷ bs) = false
eq_ignore_ascii_case (a ∷ as') [] = false
eq_ignore_ascii_case (a ∷ as') (b ∷ bs) = (lower a == lower b) && eq_ignore_ascii_case as' bs

-- `char::is_whitespace`.
is_whitespace : ℕ → Bool
is_whitespace c =
    (leb 9 c && leb c 13)
    || c == 32
    || c == 133
    || c == 160
    || c == 5760
    || (leb 8192 c && leb c 8202)
    || c == 8232
    || c == 8233
    || c == 8239
    || c == 8287
    || c == 12288

-- `u8::is_ascii_whitespace`.
is_ascii_whitespace : ℕ → Bool
is_ascii_whitespace c = c == 9 || c == 10 || c == 12 || c == 13 || c == 32

trim_start_by : (ℕ → Bool) → List ℕ → List ℕ
trim_start_by ws [] = []
trim_start_by ws (c ∷ s) = if ws c then trim_start_by ws s else c ∷ s

keep_end : (ℕ → Bool) → ℕ → List ℕ → List ℕ
keep_end ws c [] = if ws c then [] else c ∷ []
keep_end ws c (d ∷ s) = c ∷ d ∷ s

trim_end_by : (ℕ → Bool) → List ℕ → List ℕ
unfolding keep_end
trim_end_by ws [] = []
trim_end_by ws (c ∷ s) = keep_end ws c (trim_end_by ws s)

unfoldable pub trim : Text → Text
unfolding is_whitespace trim_start_by trim_end_by
trim s = trim_end_by is_whitespace (trim_start_by is_whitespace s)

letter_stays : (c : ℕ) → 65 ≤ c → c ≤ 122 → is_whitespace c ≡ false
unfolding is_whitespace
letter_stays c l u = ground (arith, l, u)

keep_first :
    (c : ℕ) (s : List ℕ)
    → is_whitespace c ≡ false
    → (x : List ℕ) × (keep_end is_whitespace c s ≡ c ∷ x)
unfolding keep_end
keep_first c [] h = ([], ap (λ b. if b then [] else c ∷ []) h)
keep_first c (d ∷ s) h = (d ∷ s, refl)

-- A text that starts with a letter is not trimmed there.
pub trim-letter : (c : ℕ) (s : List ℕ) → 65 ≤ c → c ≤ 122 → (x : List ℕ) × (trim (c ∷ s) ≡ c ∷ x)
unfolding trim trim_start_by trim_end_by
trim-letter c s l u =
    let h = letter_stays c l u in
    let k = keep_first c (trim_end_by is_whitespace s) h in
    (
      k.0,
      ap (λ b. trim_end_by is_whitespace (if b then trim_start_by is_whitespace s else c ∷ s)) h
          ∙ k.1,
    )

unfoldable pub trim_ascii_start : Bytes → Bytes
unfolding is_ascii_whitespace trim_start_by
trim_ascii_start s = trim_start_by is_ascii_whitespace s

unfoldable pub trim_ascii : Bytes → Bytes
unfolding is_ascii_whitespace trim_start_by trim_end_by
trim_ascii s = trim_end_by is_ascii_whitespace (trim_start_by is_ascii_whitespace s)

-- Up to the first separator: `split(sep).next()`.
unfoldable pub before : ℕ → List ℕ → List ℕ
before sep [] = []
before sep (c ∷ s) = if c == sep then [] else c ∷ before sep s

-- `iter().any(p)`.
unfoldable pub any {ℓ} : {A : Type ℓ} → (A → Bool) → List A → Bool
any p [] = false
any p (x ∷ xs) = p x || any p xs
