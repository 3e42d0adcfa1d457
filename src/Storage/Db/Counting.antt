-- ===== src/Storage/Db/Counting.antt =====
-- Counting the rows of a table that meet a test: what the proofs on rotation use of SQLite's order.
use y4p.Prelude.{
  ℕ, zero, suc, ◌+◌, ◌≤◌, ◌<◌, ◌≡◌, refl, Bool, true, false, ◌&&◌, not, List, [], ◌∷◌, ◌++◌, arith,
  ◌==◌, if◌then◌else◌, All, length, take, drop,
}
use y4p.Storage.Tables.{Row}
use y4p.Storage.Db.{unpinned, has_id, delete_rows}

unfoldable pub count : (Row → Bool) → List Row → ℕ
count p [] = 0
count p (r ∷ rs) = (if p r then 1 else 0) + count p rs

abbrev pub Descending : List Row → Type 0
Descending [] = Unit
Descending (r ∷ rs) = All (λ k. k.timestamp ≤ r.timestamp) rs × Descending rs

-- What `ORDER BY timestamp DESC` promises: the same rows, none before a newer one.
pub record IsNewest (newest : List Row → List Row) : Type 0 where
  pub keeps : (p : Row → Bool) (rs : List Row) → count p (newest rs) ≡ count p rs
  pub descends : (rs : List Row) → Descending (newest rs)

module _ (p : Row → Bool) where
  pub count-take : (n : ℕ) (rs : List Row) → count p (take n rs) ≤ n
  unfolding count take
  count-take zero rs = omega arith
  count-take (suc n) [] = omega arith
  count-take (suc n) (r ∷ rs) = ground (arith, count-take n rs)

  pub count-take-drop :
      (n : ℕ) (rs : List Row) → count p rs ≡ count p (take n rs) + count p (drop n rs)
  unfolding count take drop
  count-take-drop zero rs = omega arith
  count-take-drop (suc n) [] = refl
  count-take-drop (suc n) (r ∷ rs) = omega (arith, count-take-drop n rs)

  pub count_none : (rs : List Row) → All (λ r. p r ≡ false) rs → count p rs ≡ 0
  unfolding count
  count_none [] h = refl
  count_none (r ∷ rs) h = ground (arith, count_none rs h.1, h.0)

  pub count-append : (rs ks : List Row) → count p (rs ++ ks) ≡ count p rs + count p ks
  unfolding count
  count-append [] ks = omega arith
  count-append (r ∷ rs) ks = omega (arith, count-append rs ks)

  pub count-unpinned :
      (rs : List Row) → count p (unpinned rs) ≡ count (λ r. not r.is_pinned && p r) rs
  unfolding count unpinned
  count-unpinned [] = refl
  count-unpinned (r ∷ rs) = ground (arith, count-unpinned rs)

  pub count-delete_rows :
      (gone rs : List Row)
      → count p (delete_rows gone rs) ≡ count (λ r. not (has_id r.id gone) && p r) rs
  unfolding count delete_rows
  count-delete_rows gone [] = refl
  count-delete_rows gone (r ∷ rs) = ground (arith, count-delete_rows gone rs)

pub length-unpinned : (rs : List Row) → length (unpinned rs) ≡ count (λ r. not r.is_pinned) rs
unfolding count unpinned
length-unpinned [] = refl
length-unpinned (r ∷ rs) = ground (arith, length-unpinned rs)

has_id_within :
    (ks rs : List Row)
    → ((id : ℕ) → has_id id ks ≡ true → has_id id rs ≡ true)
    → All (λ r. has_id r.id rs ≡ true) ks
unfolding has_id
has_id_within [] rs f = tt
has_id_within (k ∷ ks) rs f =
    (f k.id (ground arith), has_id_within ks rs (λ id h. f id (ground (arith, h))))

module _ (p q : Row → Bool) where
  pub count_le : ((r : Row) → p r ≡ true → q r ≡ true) → (rs : List Row) → count p rs ≤ count q rs
  unfolding count
  count_le f [] = omega arith
  count_le f (r ∷ rs) = ground (arith, count_le f rs, f r)

  pub count_ext : ((r : Row) → p r ≡ q r) → (rs : List Row) → count p rs ≡ count q rs
  unfolding count
  count_ext e [] = refl
  count_ext e (r ∷ rs) = ground (arith, count_ext e rs, e r)

  pub count_split :
      (rs : List Row) → count p rs ≡ count (λ r. p r && q r) rs + count (λ r. p r && not (q r)) rs
  unfolding count
  count_split [] = omega arith
  count_split (r ∷ rs) = ground (arith, count_split rs)

pub count-has_id : (id : ℕ) (rs : List Row) → has_id id rs ≡ true → 0 < count (λ r. r.id == id) rs
unfolding count has_id
count-has_id id [] h = cc
count-has_id id (r ∷ rs) h = ground (arith, count-has_id id rs)

pub count-has_not : (id : ℕ) (rs : List Row) → has_id id rs ≡ false → count (λ r. r.id == id) rs ≡ 0
unfolding count has_id
count-has_not id [] h = refl
count-has_not id (r ∷ rs) h = ground (arith, count-has_not id rs)

-- Every row of a list is found in it.
pub All-has_id : (rs : List Row) → All (λ r. has_id r.id rs ≡ true) rs
All-has_id rs = has_id_within rs rs (λ id h. h)

pub All-take {ℓ} : (P : Row → Type ℓ) (n : ℕ) (rs : List Row) → All P rs → All P (take n rs)
unfolding take
All-take P zero rs h = tt
All-take P (suc n) [] h = tt
All-take P (suc n) (r ∷ rs) h = (h.0, All-take P n rs h.1)

pub All-drop {ℓ} : (P : Row → Type ℓ) (n : ℕ) (rs : List Row) → All P rs → All P (drop n rs)
unfolding drop
All-drop P zero rs h = h
All-drop P (suc n) [] h = tt
All-drop P (suc n) (r ∷ rs) h = All-drop P n rs h.1
