-- ===== src/Tests/Selection.antt =====
-- Runs of `select_mime` and `is_sensitive` of crates/wayland/src, and their properties at one input.
use y4p.Prelude.{◌≡◌, refl, true, false, List, [], ◌∷◌, some, none}
use y4p.Core.Text.{Text, codes, eq_ignore_ascii_case}
use y4p.Core.Mime.{is_rtf_mime, mime_base_eq, starts_with_ignore_ascii_case}
use y4p.Wayland.Selection.{select_mime}
use y4p.Wayland.Selection.Rtf.{select_mime_no_rtf}

abbrev rich : List Text
rich = codes "text/rtf" ∷ codes "TEXT/Plain; charset=x" ∷ []

abbrev only_rtf : List Text
only_rtf = codes "text/rtf" ∷ codes "application/rtf" ∷ []

plain_chosen : select_mime rich none true ≡ some (codes "TEXT/Plain; charset=x")
unfolding select_mime mime_base_eq eq_ignore_ascii_case
plain_chosen = refl

nothing_chosen : select_mime only_rtf none true ≡ none
unfolding select_mime mime_base_eq eq_ignore_ascii_case starts_with_ignore_ascii_case is_rtf_mime
nothing_chosen = refl

select_mime_no_rtf_example : is_rtf_mime (codes "TEXT/Plain; charset=x") ≡ false
select_mime_no_rtf_example = select_mime_no_rtf rich (codes "TEXT/Plain; charset=x") plain_chosen
