-- ===== src/Wayland/Selection/Rtf.antt =====
-- `drop_rtf` in `select_mime` of crates/wayland/src/handlers/data_control/device.rs.
use y4p.Prelude.{
  ℕ, ◌≡◌, ◌≢◌, ◌≤◌, refl, sym, ◌∙◌, ap, Bool, true, false, ◌&&◌, ◌||◌, Option, none, some, List, [],
  ◌∷◌, arith, All, Bool-cases, inl, inr, ◌⊎◌, All-map, if◌then◌else◌, ◌==◌,
}
use y4p.Core.Text.{Text, codes, eq_ignore_ascii_case, lower, before, trim, trim-letter}
use y4p.Core.Mime.{mime_base, mime_base_eq, starts_with_ignore_ascii_case, is_rtf_mime}
use y4p.Wayland.Selection.{
  mime_priority_order, find, or_else, find_priority, is_kept, best_mime, select_mime,
}

eq_ignore_left :
    (a b c : Text)
    → eq_ignore_ascii_case a b ≡ true
    → eq_ignore_ascii_case a c ≡ eq_ignore_ascii_case b c
unfolding eq_ignore_ascii_case
eq_ignore_left [] [] c h = refl
eq_ignore_left [] (y ∷ b) c h = cc
eq_ignore_left (x ∷ a) [] c h = cc
eq_ignore_left (x ∷ a) (y ∷ b) [] h = refl
eq_ignore_left (x ∷ a) (y ∷ b) (z ∷ c) h = ground (arith, h, eq_ignore_left a b c)

-- MIME types with the same base are both RTF or neither.
same_base : (m p : Text) → mime_base_eq m p ≡ true → is_rtf_mime m ≡ is_rtf_mime p
unfolding mime_base_eq is_rtf_mime
same_base m p h =
    ap (λ b. b || eq_ignore_ascii_case (mime_base m) (codes "application/rtf"))
      (eq_ignore_left (mime_base m) (mime_base p) (codes "text/rtf") h)
    ∙ ap (λ b. eq_ignore_ascii_case (mime_base p) (codes "text/rtf") || b)
        (eq_ignore_left (mime_base m) (mime_base p) (codes "application/rtf") h)

find_meets : (p : Text → Bool) (ms : List Text) (m : Text) → find p ms ≡ some m → p m ≡ true
unfolding find
find_meets p [] m e = cc
find_meets p (k ∷ ks) m e = elim (Bool-cases (p k)) [
  | inl t ↦ let same : k ≡ m = ground (arith, e, t) in ap p (sym same) ∙ t
  | inr t ↦ find_meets p ks m (ground (arith, e, t))
]

find_misses : (p : Text → Bool) (ms : List Text) → find p ms ≡ none → All (λ m. p m ≡ false) ms
unfolding find
find_misses p [] e = tt
find_misses p (k ∷ ks) e = elim (Bool-cases (p k)) [
  | inl t ↦ absurd (ground (arith, e, t))
  | inr t ↦ (t, find_misses p ks (ground (arith, e, t)))
]

image_first :
    (c : ℕ) (m : Text)
    → starts_with_ignore_ascii_case (c ∷ m) (codes "image/") ≡ true
    → lower c ≡ 105
unfolding starts_with_ignore_ascii_case eq_ignore_ascii_case
image_first c m h = ground (arith, h)

empty_prefix : starts_with_ignore_ascii_case [] (codes "image/") ≢ true
unfolding starts_with_ignore_ascii_case
empty_prefix h = cc

-- An image type is no RTF.
image_kept :
    (m : Text) → starts_with_ignore_ascii_case m (codes "image/") ≡ true → is_rtf_mime m ≡ false
unfolding is_rtf_mime mime_base before eq_ignore_ascii_case lower
image_kept [] h = absurd (empty_prefix h)
image_kept (c ∷ m) h =
    let e : lower c ≡ 105 = image_first c m h in
    let l : 65 ≤ c = ground (arith, e) in
    let u : c ≤ 122 = ground (arith, e) in
    let sep : (c == 59) ≡ false = ground (arith, e) in
    let t = trim-letter c (before 59 m) l u in
    let base : mime_base (c ∷ m) ≡ c ∷ t.0 =
      ap (λ b. trim (if b then [] else c ∷ before 59 m)) sep ∙ t.1 in
    ap
      (λ b.
        eq_ignore_ascii_case b (codes "text/rtf")
        || eq_ignore_ascii_case b (codes "application/rtf"))
      base
    ∙ ground (arith, e)

first_kept :
    (p : Text) (mimes : List Text) (m : Text) (rest o : Option Text)
    → find (λ k. mime_base_eq k p) mimes ≡ o
    → is_rtf_mime p ≡ false
    → (rest ≡ some m → is_rtf_mime m ≡ false)
    → or_else o rest ≡ some m
    → is_rtf_mime m ≡ false
first_kept p mimes m rest none f h ih g = ih g
first_kept p mimes m rest (some k) f h ih g =
    same_base m p (find_meets (λ k. mime_base_eq k p) mimes m (f ∙ g)) ∙ h

priority_kept :
    (ps mimes : List Text) (m : Text)
    → All (λ p. is_rtf_mime p ≡ false) ps
    → find_priority ps mimes ≡ some m
    → is_rtf_mime m ≡ false
unfolding find_priority
priority_kept [] mimes m h e = cc
priority_kept (p ∷ ps) mimes m h e =
    first_kept p mimes m (find_priority ps mimes) (find (λ k. mime_base_eq k p) mimes) refl h.0
      (priority_kept ps mimes m h.1) e

either : (a b : Option Text) (m : Text) → or_else a b ≡ some m → (a ≡ some m) ⊎ (b ≡ some m)
either none b m e = inr e
either (some a) b m e = inl e

no_second : (a b : Option Text) → or_else a b ≡ none → b ≡ none
no_second none b e = e
no_second (some a) b e = cc

kept_not_rtf : (m : Text) → is_kept true m ≡ true → is_rtf_mime m ≡ false
unfolding is_kept
kept_not_rtf m h = ground (arith, h)

dropped_rtf :
    (drop_rtf : Bool) (m : Text)
    → is_kept drop_rtf m ≡ false
    → (drop_rtf ≡ true) × (is_rtf_mime m ≡ true)
unfolding is_kept
dropped_rtf drop_rtf m h = (ground (arith, h), ground (arith, h))

no_priority_rtf : All (λ p. is_rtf_mime p ≡ false) mime_priority_order
unfolding is_rtf_mime mime_base eq_ignore_ascii_case
no_priority_rtf = (
  refl,
  (
    refl,
    (
      refl,
      (
        refl,
        (
          refl,
          (
            refl,
            (
              refl,
              (
                refl,
                (refl, (refl, (refl, (refl, (refl, (refl, (refl, (refl, (refl, (refl, tt)))))))))),
              ),
            ),
          ),
        ),
      ),
    ),
  ),
)

-- With `drop_rtf` and no explicit request, the MIME type chosen is never RTF.
pub select_mime_no_rtf :
    (mimes : List Text) (m : Text) → select_mime mimes none true ≡ some m → is_rtf_mime m ≡ false
unfolding select_mime best_mime
select_mime_no_rtf mimes m e = elim (either _ _ m e) [
  | inl a ↦ priority_kept mime_priority_order mimes m no_priority_rtf a
  | inr r ↦ elim (either _ _ m r) [
    | inl a ↦
        image_kept m (find_meets (λ k. starts_with_ignore_ascii_case k (codes "image/")) mimes m a)
    | inr q ↦ elim (either _ _ m q) [
      | inl a ↦
          let both =
            find_meets (λ k. starts_with_ignore_ascii_case k (codes "text/") && is_kept true k)
              mimes m a in
          kept_not_rtf m (ground (arith, both))
      | inr a ↦ kept_not_rtf m (find_meets (is_kept true) mimes m a)
    ]
  ]
]

-- With no explicit request, nothing is chosen only if every offer is RTF and `drop_rtf` is set.
pub select_mime_gives_up :
    (mimes : List Text) (drop_rtf : Bool)
    → select_mime mimes none drop_rtf ≡ none
    → All (λ m. (drop_rtf ≡ true) × (is_rtf_mime m ≡ true)) mimes
unfolding select_mime best_mime
select_mime_gives_up mimes drop_rtf e =
    let image = find (λ m. starts_with_ignore_ascii_case m (codes "image/")) mimes in
    let text =
      find (λ m. starts_with_ignore_ascii_case m (codes "text/") && is_kept drop_rtf m) mimes in
    let last = find (is_kept drop_rtf) mimes in
    All-map (dropped_rtf drop_rtf) mimes (
      find_misses (is_kept drop_rtf) mimes (
        no_second text last (
          no_second image (or_else text last) (
            no_second (find_priority mime_priority_order mimes) (or_else image (or_else text last))
              e))))
