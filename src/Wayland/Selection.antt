-- ===== src/Wayland/Selection.antt =====
-- What the Wayland crate asks a compositor for: `select_mime` of
-- crates/wayland/src/handlers/data_control/device.rs and `is_sensitive` of mod.rs beside it.
pub mod Rtf
use y4p.Prelude.{
  ℕ, Bool, true, false, ◌&&◌, ◌||◌, not, Option, none, some, List, [], ◌∷◌, map, if◌then◌else◌,
}
use y4p.Core.Text.{Text, codes, contains, lower, any}
use y4p.Core.Mime.{mime_base_eq, starts_with_ignore_ascii_case, is_rtf_mime}
use y4p.Core.Constants.{sensitive_mime_hints}

abbrev pub mime_priority_order : List Text
mime_priority_order =
    codes "image/png"
    ∷ codes "image/webp"
    ∷ codes "image/jpeg"
    ∷ codes "image/gif"
    ∷ codes "image/svg+xml"
    ∷ codes "image/avif"
    ∷ codes "image/bmp"
    ∷ codes "text/uri-list"
    ∷ codes "text/plain;charset=utf-8"
    ∷ codes "text/plain"
    ∷ codes "UTF8_STRING"
    ∷ codes "STRING"
    ∷ codes "TEXT"
    ∷ codes "text/html"
    ∷ codes "application/xhtml+xml"
    ∷ codes "text/markdown"
    ∷ codes "application/json"
    ∷ codes "application/xml"
    ∷ []

-- `iter().find(p)`.
unfoldable pub find : (Text → Bool) → List Text → Option Text
find p [] = none
find p (m ∷ ms) = if p m then some m else find p ms

abbrev pub or_else : Option Text → Option Text → Option Text
or_else none b = b
or_else (some a) b = some a

-- The `find_map` over the priority order.
unfoldable pub find_priority : List Text → List Text → Option Text
unfolding find
find_priority [] mimes = none
find_priority (p ∷ ps) mimes = or_else (find (λ m. mime_base_eq m p) mimes) (find_priority ps mimes)

unfoldable pub is_kept : Bool → Text → Bool
is_kept drop_rtf m = not drop_rtf || not (is_rtf_mime m)

unfoldable pub best_mime : List Text → Bool → Option Text
unfolding find find_priority is_kept
best_mime mimes drop_rtf = or_else (find_priority mime_priority_order mimes) (
    or_else (find (λ m. starts_with_ignore_ascii_case m (codes "image/")) mimes) (
      or_else
        (find (λ m. starts_with_ignore_ascii_case m (codes "text/") && is_kept drop_rtf m) mimes)
        (find (is_kept drop_rtf) mimes)))

unfoldable pub select_mime : List Text → Option Text → Bool → Option Text
unfolding best_mime find
select_mime mimes (some target) drop_rtf = find (λ m. mime_base_eq m target) mimes
select_mime mimes none drop_rtf = best_mime mimes drop_rtf

-- Both sides are lowered.
unfoldable pub is_sensitive : List Text → Bool
is_sensitive mimes =
    any (λ hint. any (λ m. contains (map lower m) (map lower hint)) mimes) sensitive_mime_hints
