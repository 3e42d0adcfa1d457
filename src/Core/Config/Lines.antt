-- ===== src/Core/Config/Lines.antt =====
-- What the parser of crates/core/src/config.rs accepts.
use y4p.Prelude.{
  ℕ, ◌-◌, ◌<◌, ◌≡◌, ◌≢◌, refl, sym, subst, Bool, ◌&&◌, Option, none, some, List, [], ◌∷◌, ◌++◌, ltb,
  ◌==◌, if◌then◌else◌, arith, Bool-cases, inl, inr, All, length, take, drop,
}
use y4p.Core.Text.{Text, list_eq, codes, trim}
use y4p.Core.Config.{
  Config, default_config, lines, uncomment_from, strip_comment, parse_usize, positive_word,
  unsigned, set_max_history, set_drop_rtf, apply_kv, apply_pair, split_once, is_header, parse_line,
  parse_lines, parse, parse_bool,
}

-- What a `usize` that is not 0 may be.
abbrev pub IsHistory : Config → Type 0
IsHistory config =
    (0 < config.general.max_history) × (config.general.max_history < 18446744073709551616)

set_max_history-IsHistory :
    (o : Option ℕ) (config : Config)
    → IsHistory config
    → IsHistory (set_max_history (positive_word o) config)
unfolding set_max_history positive_word
set_max_history-IsHistory none config h = h
set_max_history-IsHistory (some n) config h =
    let after = λ (b : Bool). IsHistory (set_max_history (if b then some n else none) config) in
    elim (Bool-cases (ltb 0 n && ltb n 18446744073709551616)) [
      | inl t ↦ subst after (sym t) (ground (arith, t), ground (arith, t))
      | inr t ↦ subst after (sym t) h
    ]

set_drop_rtf-IsHistory :
    (o : Option Bool) (config : Config) → IsHistory config → IsHistory (set_drop_rtf o config)
unfolding set_drop_rtf
set_drop_rtf-IsHistory none config h = h
set_drop_rtf-IsHistory (some b) config h = h

apply_kv-IsHistory :
    (section key value : Text) (config : Config)
    → IsHistory config
    → IsHistory (apply_kv section key value config)
unfolding apply_kv parse_usize
apply_kv-IsHistory section key value config h =
    let inner = λ (b : Bool). if b then set_drop_rtf (parse_bool value) config else config in
    let outer = λ (b : Bool).
      if b
      then set_max_history (parse_usize value) config
      else inner (list_eq section (codes "mime") && list_eq key (codes "drop_rtf")) in
    elim (Bool-cases (list_eq section (codes "general") && list_eq key (codes "max_history"))) [
      | inl t ↦
          subst (λ b. IsHistory (outer b)) (sym t)
            (set_max_history-IsHistory (unsigned value) config h)
      | inr t ↦
          subst (λ b. IsHistory (outer b)) (sym t)
            (elim (Bool-cases (list_eq section (codes "mime") && list_eq key (codes "drop_rtf"))) [
              | inl u ↦
                  subst (λ b. IsHistory (inner b)) (sym u)
                    (set_drop_rtf-IsHistory (parse_bool value) config h)
              | inr u ↦ subst (λ b. IsHistory (inner b)) (sym u) h
            ])
    ]

apply_pair-IsHistory :
    (section : Text) (o : Option (Text × Text)) (config : Config)
    → IsHistory config
    → IsHistory (apply_pair section o config)
unfolding apply_pair
apply_pair-IsHistory section none config h = h
apply_pair-IsHistory section (some (k, v)) config h =
    apply_kv-IsHistory section (trim k) (trim v) config h

parse_line-IsHistory :
    (line : Text) (config : Config) (section : Text)
    → IsHistory config
    → IsHistory (parse_line line (config, section)).0
unfolding parse_line
parse_line-IsHistory line config section h =
    let header : Config × Text = (config, trim (take (length line - 2) (drop 1 line))) in
    let pair : Config × Text = (apply_pair section (split_once 61 line) config, section) in
    let inner : Bool → Config × Text = λ b. if b then header else pair in
    let outer : Bool → Config × Text =
      λ b. if b then (config, section) else inner (is_header line) in
    elim (Bool-cases (length line == 0)) [
      | inl t ↦ subst (λ b. IsHistory (outer b).0) (sym t) h
      | inr t ↦
          subst (λ b. IsHistory (outer b).0) (sym t)
            (elim (Bool-cases (is_header line)) [
              | inl u ↦ subst (λ b. IsHistory (inner b).0) (sym u) h
              | inr u ↦
                  subst (λ b. IsHistory (inner b).0) (sym u)
                    (apply_pair-IsHistory section (split_once 61 line) config h)
            ])
    ]

parse_lines-IsHistory :
    (ls : List Text) (s : Config × Text) → IsHistory s.0 → IsHistory (parse_lines ls s).0
unfolding parse_lines
parse_lines-IsHistory [] s h = h
parse_lines-IsHistory (l ∷ ls) s h =
    parse_lines-IsHistory ls (parse_line (trim (strip_comment l)) s)
      (parse_line-IsHistory (trim (strip_comment l)) s.0 s.1 h)

-- Whatever text the file has, the history bound that is parsed is positive and fits a `usize`.
pub parse-IsHistory : (content : Text) → IsHistory (parse content)
unfolding parse
parse-IsHistory content =
    parse_lines-IsHistory (lines content) (default_config, []) (omega arith, omega arith)

-- A comment behind text without quotes and `#` is dropped, and nothing else.
pub strip_comment-append :
    (line comment : Text)
    → All (λ c. (c ≢ 34) × (c ≢ 35)) line
    → strip_comment (line ++ 35 ∷ comment) ≡ line
unfolding strip_comment uncomment_from
strip_comment-append [] comment h = refl
strip_comment-append (c ∷ cs) comment h = ground (arith, h.0, strip_comment-append cs comment h.1)
