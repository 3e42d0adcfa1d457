-- ===== src/Core/Uri.antt =====
-- `normalize_uri_list` of crates/core/src/utils.rs. `percent_decode` is that of the crate
-- percent_encoding.
use y4p.Prelude.{Bool, true, false, Option, none, some, List, [], ◌∷◌, ◌++◌, ◌==◌, if◌then◌else◌}
use y4p.Core.Text.{Bytes, codes, trim_ascii}

-- `strip_prefix`.
unfoldable pub strip_prefix : Bytes → Bytes → Option Bytes
strip_prefix [] s = some s
strip_prefix (p ∷ ps) [] = none
strip_prefix (p ∷ ps) (c ∷ s) = if c == p then strip_prefix ps s else none

-- From the first `/` on, or nothing.
unfoldable pub from_slash : Bytes → Bytes
from_slash [] = []
from_slash (c ∷ s) = if c == b'/' then c ∷ s else from_slash s

-- Behind `file:`, with what `strip_prefix("//")` gives. A path that begins with `/` is its own
-- `from_slash`.
abbrev pub path_of : Bytes → Option Bytes → Bytes
path_of rest none = rest
path_of rest (some after) = from_slash after

unfoldable pub strip_file_scheme : Bytes → Bytes
unfolding strip_prefix from_slash
strip_file_scheme line = elim (strip_prefix (codes "file:") line) [
  | none ↦ line
  | some rest ↦ path_of rest (strip_prefix (codes "//") rest)
]

-- `split(|&b| b == b'\n')`: the line that is being read, and the lines behind it.
unfoldable pub split_lines : Bytes → Bytes × List Bytes
split_lines [] = ([], [])
split_lines (b ∷ bytes) =
    let (line, ls) = split_lines bytes in if b == 10 then ([], line ∷ ls) else (b ∷ line, ls)

abbrev pub is_comment : Bytes → Bool
is_comment [] = true
is_comment (b ∷ line) = b == b'#'

module _ (percent_decode : Bytes → Bytes) where
  -- What one line adds to the output.
  abbrev pub joined_path : Bool → Bytes → Bytes → Bytes × Bool
  joined_path wrote_any out [] = (out, wrote_any)
  joined_path wrote_any out (d ∷ decoded) =
      ((if wrote_any then out ++ 10 ∷ [] else out) ++ d ∷ decoded, true)

  unfoldable pub add_line : Bytes × Bool → Bytes → Bytes × Bool
  unfolding strip_file_scheme trim_ascii
  add_line (out, wrote_any) raw_line =
      let line = trim_ascii raw_line in
      if is_comment line
      then (out, wrote_any)
      else joined_path wrote_any out (percent_decode (strip_file_scheme line))

  unfoldable pub add_lines : Bytes × Bool → List Bytes → Bytes × Bool
  unfolding add_line
  add_lines s [] = s
  add_lines s (l ∷ ls) = add_lines (add_line s l) ls

  unfoldable pub normalize_uri_list : Bytes → Bytes
  unfolding add_lines split_lines
  normalize_uri_list bytes =
      let (line, ls) = split_lines bytes in (add_lines ([], false) (line ∷ ls)).0
