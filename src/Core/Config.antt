-- ===== src/Core/Config.antt =====
-- crates/core/src/config.rs: the parser of `y4p.toml`. Finding and reading the file is not modelled.
pub mod Lines
use y4p.Prelude.{
  ℕ, zero, suc, ◌+◌, ◌-◌, ◌*◌, Bool, true, false, ◌&&◌, not, Option, none, some, List, [], ◌∷◌, ltb,
  leb, ◌==◌, if◌then◌else◌, length, take, drop,
}
use y4p.Core.Text.{Text, codes, list_eq, contains, starts_with, trim}
use y4p.Core.Constants.{default_max_history}

pub record GeneralConfig : Type 0 where
  pub max_history : ℕ

pub record MimeConfig : Type 0 where
  pub drop_rtf : Bool

pub record Config : Type 0 where
  pub general : GeneralConfig
  pub mime : MimeConfig

abbrev pub default_config : Config
default_config = record {
  general = record { max_history = default_max_history };
  mime = record { drop_rtf = true };
}

-- `str::lines`: a line ends before `\n` or `\r\n`.
push_char : ℕ → List Text → List Text
push_char c [] = (c ∷ []) ∷ []
push_char c (l ∷ ls) = (c ∷ l) ∷ ls

newline_next : Text → Bool
newline_next [] = false
newline_next (c ∷ cs) = c == 10

unfoldable pub lines : Text → List Text
unfolding push_char newline_next
lines [] = []
lines (c ∷ cs) =
    let rest = lines cs in
    if c == 10 then [] ∷ rest else if c == 13 && newline_next cs then rest else push_char c rest

-- The loop of `strip_comment`, from inside or outside a string.
unfoldable pub uncomment_from : Bool → Text → Text
uncomment_from in_string [] = []
uncomment_from in_string (b ∷ bs) =
    let rest = uncomment_from (if b == 34 then not in_string else in_string) bs in
    if b == 35 && not in_string then [] else b ∷ rest

unfoldable pub strip_comment : Text → Text
unfolding uncomment_from
strip_comment line = uncomment_from false line

abbrev parse_bool : Text → Option Bool
parse_bool value =
    if list_eq value (codes "true")
    then some true
    else if list_eq value (codes "false")
    then some false
    else none

-- The digits of `usize::from_str`.
digits : ℕ → Text → Option ℕ
digits n [] = some n
digits n (c ∷ cs) =
    let rest = digits (n * 10 + (c - 48)) cs in if leb 48 c && leb c 57 then rest else none

-- `usize::from_str`: an optional `+`, at least one digit, and no overflow.
unsigned : Text → Option ℕ
unfolding digits
unsigned [] = none
unsigned (c ∷ []) = digits 0 (c ∷ [])
unsigned (c ∷ d ∷ cs) = if c == 43 then digits 0 (d ∷ cs) else digits 0 (c ∷ d ∷ cs)

positive_word : Option ℕ → Option ℕ
positive_word none = none
positive_word (some n) = if ltb 0 n && ltb n 18446744073709551616 then some n else none

unfoldable pub parse_usize : Text → Option ℕ
unfolding unsigned positive_word
parse_usize value = positive_word (unsigned value)

unfoldable pub set_max_history : Option ℕ → Config → Config
set_max_history none config = config
set_max_history (some n) config = record config { general = record { max_history = n } }

unfoldable pub set_drop_rtf : Option Bool → Config → Config
set_drop_rtf none config = config
set_drop_rtf (some b) config = record config { mime = record { drop_rtf = b } }

unfoldable pub apply_kv : Text → Text → Text → Config → Config
unfolding set_max_history set_drop_rtf parse_usize
apply_kv section key value config =
    if list_eq section (codes "general") && list_eq key (codes "max_history")
    then set_max_history (parse_usize value) config
    else if list_eq section (codes "mime") && list_eq key (codes "drop_rtf")
    then set_drop_rtf (parse_bool value) config
    else config

-- `split_once('=')`.
before_char : ℕ → Option (Text × Text) → Option (Text × Text)
before_char c none = none
before_char c (some (k, v)) = some (c ∷ k, v)

unfoldable pub split_once : ℕ → Text → Option (Text × Text)
unfolding before_char
split_once sep [] = none
split_once sep (c ∷ cs) =
    let rest = split_once sep cs in if c == sep then some ([], cs) else before_char c rest

ends_with : ℕ → Text → Bool
ends_with c [] = false
ends_with c (d ∷ []) = d == c
ends_with c (d ∷ e ∷ cs) = ends_with c (e ∷ cs)

unfoldable pub is_header : Text → Bool
unfolding ends_with
is_header line =
    starts_with line (codes "[") && ends_with 93 line && not (contains line (codes "="))

unfoldable pub apply_pair : Text → Option (Text × Text) → Config → Config
unfolding apply_kv
apply_pair section none config = config
apply_pair section (some (key, value)) config = apply_kv section (trim key) (trim value) config

-- The body of the loop of `parse`, on a line without its comment and spaces.
unfoldable pub parse_line : Text → Config × Text → Config × Text
unfolding is_header apply_pair split_once
parse_line line (config, section) =
    if length line == 0
    then (config, section)
    else if is_header line
    then (config, trim (take (length line - 2) (drop 1 line)))
    else (apply_pair section (split_once 61 line) config, section)

unfoldable pub parse_lines : List Text → Config × Text → Config × Text
unfolding parse_line strip_comment
parse_lines [] s = s
parse_lines (l ∷ ls) s = parse_lines ls (parse_line (trim (strip_comment l)) s)

unfoldable pub parse : Text → Config
unfolding parse_lines lines
parse content = (parse_lines (lines content) (default_config, [])).0

unfoldable pub should_drop_rtf : Config → Bool
should_drop_rtf config = config.mime.drop_rtf
