-- ===== src/Tests/Order.antt =====
-- An order that SQLite may answer `ORDER BY timestamp DESC` in: insertion, newest first.
use y4p.Prelude.{
  ◌+◌, ◌≤◌, ◌≡◌, refl, sym, ◌∙◌, ap, subst, Bool, List, [], ◌∷◌, arith, leb, if◌then◌else◌, All,
  All-map, Bool-cases, inl, inr,
}
use y4p.Storage.Tables.{Row}
use y4p.Storage.Db.Counting.{count, Descending, IsNewest}

unfoldable pub put : Row → List Row → List Row
put r [] = r ∷ []
put r (k ∷ ks) = if leb k.timestamp r.timestamp then r ∷ k ∷ ks else k ∷ put r ks

unfoldable pub newest_first : List Row → List Row
unfolding put
newest_first [] = []
newest_first (r ∷ rs) = put r (newest_first rs)

count-put :
    (p : Row → Bool) (r : Row) (rs : List Row)
    → count p (put r rs) ≡ (if p r then 1 else 0) + count p rs
unfolding count put
count-put p r [] = refl
count-put p r (k ∷ ks) = elim (Bool-cases (leb k.timestamp r.timestamp)) [
  | inl t ↦ ap (λ b. count p (if b then r ∷ k ∷ ks else k ∷ put r ks)) t
  | inr t ↦
      ap (λ b. count p (if b then r ∷ k ∷ ks else k ∷ put r ks)) t ∙ omega (arith, count-put p r ks)
]

count-newest_first : (p : Row → Bool) (rs : List Row) → count p (newest_first rs) ≡ count p rs
unfolding count newest_first
count-newest_first p [] = refl
count-newest_first p (r ∷ rs) =
    omega (arith, count-put p r (newest_first rs), count-newest_first p rs)

All-put {ℓ} : (P : Row → Type ℓ) (r : Row) (rs : List Row) → P r → All P rs → All P (put r rs)
unfolding put
All-put P r [] p h = (p, tt)
All-put P r (k ∷ ks) p h = elim (Bool-cases (leb k.timestamp r.timestamp)) [
  | inl t ↦ subst (λ b. All P (if b then r ∷ k ∷ ks else k ∷ put r ks)) (sym t) (p, h)
  | inr t ↦
      subst (λ b. All P (if b then r ∷ k ∷ ks else k ∷ put r ks)) (sym t)
        (h.0, All-put P r ks p h.1)
]

put-Descending : (r : Row) (rs : List Row) → Descending rs → Descending (put r rs)
unfolding put
put-Descending r [] d = (tt, tt)
put-Descending r (k ∷ ks) d = elim (Bool-cases (leb k.timestamp r.timestamp)) [
  | inl t ↦
      let le : k.timestamp ≤ r.timestamp = ground (arith, t) in
      subst (λ b. Descending (if b then r ∷ k ∷ ks else k ∷ put r ks)) (sym t)
        ((le, All-map (λ x h. omega (arith, h, le)) ks d.0), d)
  | inr t ↦
      let le : r.timestamp ≤ k.timestamp = ground (arith, t) in
      subst (λ b. Descending (if b then r ∷ k ∷ ks else k ∷ put r ks)) (sym t)
        (All-put (λ x. x.timestamp ≤ k.timestamp) r ks le d.0, put-Descending r ks d.1)
]

newest_first-Descending : (rs : List Row) → Descending (newest_first rs)
unfolding newest_first
newest_first-Descending [] = tt
newest_first-Descending (r ∷ rs) = put-Descending r (newest_first rs) (newest_first-Descending rs)

pub newest_first-IsNewest : IsNewest newest_first
newest_first-IsNewest = record { keeps = count-newest_first; descends = newest_first-Descending }
