-- ===== src/Image/Transcode/Arguments.antt =====
-- The argument vector of crates/image/src/transcode.rs.
use y4p.Prelude.{
  u64_max, ℕ, ◌+◌, ◌-◌, ◌*◌, ◌≤◌, min, ◌≡◌, refl, ◌∙◌, ap, true, ◌&&◌, [], ◌∷◌, arith, All, length,
  leb, if◌then◌else◌,
}
use y4p.Core.Text.{Text}
use y4p.Image.Transcode.{
  OutputFormat, webp_lossless, webp_lossy, Transcode, args, args_capacity, secs_from, parse_secs,
}

-- The number that a text of digits stands for.
abbrev pub value_from : ℕ → Text → ℕ
value_from n [] = n
value_from n (c ∷ cs) = value_from (n * 10 + (c - 48)) cs

abbrev pub IsDigit : ℕ → Type 0
IsDigit c = (48 ≤ c) × (c ≤ 57)

secs_from-value :
    (n : ℕ) (cs : Text)
    → All IsDigit cs
    → secs_from (min u64_max n) cs ≡ min u64_max (value_from n cs)
unfolding secs_from
secs_from-value n [] h = refl
secs_from-value n (c ∷ cs) h =
    let digit : (leb 48 c && leb c 57) ≡ true = ground (arith, h.0) in
    let next : min u64_max (min u64_max (min u64_max n * 10) + (c - 48))
        ≡ min u64_max (n * 10 + (c - 48)) =
      omega (arith, h.0) in
    ap
      (λ b.
        if b
        then secs_from (min u64_max (min u64_max (min u64_max n * 10) + (c - 48))) cs
        else u64_max)
      digit
    ∙ ap (λ m. secs_from m cs) next
    ∙ secs_from-value (n * 10 + (c - 48)) cs h.1

-- On a text of digits, `parse_secs` is the number that it stands for, cut off at `u64::MAX`, although
-- every step of its loop saturates.
pub parse_secs-value :
    (c : ℕ) (cs : Text)
    → All IsDigit (c ∷ cs)
    → parse_secs (c ∷ cs) ≡ min u64_max (value_from 0 (c ∷ cs))
unfolding parse_secs
parse_secs-value c cs h = secs_from-value 0 (c ∷ cs) h

-- No argument vector outgrows the capacity that is reserved for it.
pub length-args : (job : Transcode) → length (args job) ≤ args_capacity
unfolding args
length-args job = go job.output
  where
    go :
        (o : OutputFormat)
        → length (args (record { input = job.input; output = o })) ≤ args_capacity
    go OutputFormat.png = omega arith
    go webp_lossless = omega arith
    go (webp_lossy q) = omega arith
