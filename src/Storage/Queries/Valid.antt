-- ===== src/Storage/Queries/Valid.antt =====
-- The other writing statements of crates/storage/src/db.rs preserve the invariant of the tables.
use y4p.Prelude.{
  ℕ, ◌≤◌, ◌≡◌, ◌≢◌, refl, sym, ◌∙◌, ap, subst, Bool, true, false, ◌&&◌, List, [], ◌∷◌, arith, ltb,
  ◌==◌, if◌then◌else◌, Bool-cases, inl, inr, Option, some, none, ℕ_discrete,
}
use y4p.Core.Text.{Bytes}
use y4p.Storage.Tables.{Row, Store, links}
use y4p.Storage.Chunked.{release_chunks}
use y4p.Storage.Chunked.Counts.{Counted}
use y4p.Storage.Chunked.Release.{release_chunks-Counted}
use y4p.Storage.Chunked.Reading.{links-delete_links, links-delete_self}
use y4p.Storage.Db.{hash_is}
use y4p.Storage.Db.Counting.{count, count_le}
use y4p.Storage.Db.Valid.{Valid, updated-Valid}
use y4p.Storage.Queries.{find_row, delete_id, delete_by_id, wipe, set_pinned, pin_row, freed}

module _ (p : Row → Bool) where
  fewer-delete_id : (id : ℕ) (rows : List Row) → count p (delete_id id rows) ≤ count p rows
  unfolding count delete_id
  fewer-delete_id id [] = omega arith
  fewer-delete_id id (r ∷ rs) = ground (arith, fewer-delete_id id rs)

  kept-delete_id :
      (id k : ℕ) (rows : List Row)
      → id ≢ k
      → count (λ r. r.id == k && p r) (delete_id id rows) ≡ count (λ r. r.id == k && p r) rows
  unfolding count delete_id
  kept-delete_id id k [] n = refl
  kept-delete_id id k (r ∷ rs) n = ground (arith, n, kept-delete_id id k rs n)

  none-find_row :
      (id : ℕ) (rows : List Row) → find_row id rows ≡ none → count (λ r. r.id == id && p r) rows ≡ 0
  unfolding count find_row
  none-find_row id [] e = refl
  none-find_row id (r ∷ rs) e = ground (arith, none-find_row id rs)

-- The row that a lookup finds is the one that its id counts.
one-find_row :
    (id : ℕ) (r : Row) (rows : List Row)
    → find_row id rows ≡ some r
    → r.is_chunked ≡ false
    → count (λ r. r.id == id) rows ≤ 1
    → count (λ r. r.id == id && r.is_chunked) rows ≡ 0
unfolding count find_row
one-find_row id r [] e c h = refl
one-find_row id r (k ∷ ks) e c h = elim (Bool-cases (k.id == id)) [
  | inl t ↦
      let same : k ≡ r = ground (arith, e, t) in
      let plain : k.is_chunked ≡ false = ap (λ r. r.is_chunked) same ∙ c in
      ground (
        arith,
        t,
        h,
        plain,
        count_le (λ r. r.id == id && r.is_chunked) (λ r. r.id == id) (λ r h. ground (arith, h)) ks,
      )
  | inr t ↦ ground (arith, one-find_row id r ks, e, c, h, t)
]

deleted-Valid :
    (digest : Bytes → Bytes) (id : ℕ) (s s' : Store)
    → s'.clipboard ≡ s.clipboard
    → s'.last_id ≡ s.last_id
    → Counted digest s'
    → ((k : ℕ) → id ≢ k → links k s'.manifest ≡ links k s.manifest)
    → links id s'.manifest ≡ []
    → Valid digest s
    → Valid digest (record s' { clipboard = delete_id id s'.clipboard })
deleted-Valid digest id s s' rows last c others none_left v =
    subst (λ rs. Valid digest (record s' { clipboard = delete_id id rs })) (sym rows)
      record {
        counted = record { exact = c.exact; unique = c.unique; named = c.named };
        bound =
            ap (λ n. count (λ r. ltb n r.id) (delete_id id s.clipboard)) last
            ∙ omega (arith, v.bound, fewer-delete_id (λ r. ltb s.last_id r.id) id s.clipboard);
        id_once = λ k. omega (arith, v.id_once k, fewer-delete_id (λ r. r.id == k) id s.clipboard);
        hash_once = λ k.
            omega (arith, v.hash_once k, fewer-delete_id (λ r. hash_is k r.hash) id s.clipboard);
        owned = λ k e. elim (ℕ_discrete id k) [
          | yes q ↦ ap (λ n. links n s'.manifest) (sym q) ∙ none_left
          | no q ↦
              others k q
              ∙ v.owned k (sym (kept-delete_id (λ r. r.is_chunked) id k s.clipboard q) ∙ e)
        ];
      }

-- `delete_by_id` preserves the invariant of the tables: a chunked row takes its references along.
pub delete_by_id-Valid :
    (digest : Bytes → Bytes) (commits : Bool) (id : ℕ) (s : Store)
    → Valid digest s
    → Valid digest (delete_by_id commits id s).0
unfolding delete_by_id release_chunks
delete_by_id-Valid digest false id s v = v
delete_by_id-Valid digest true id s v = go (find_row id s.clipboard) refl
  where
    plain :
        links id s.manifest ≡ [] → Valid digest (record s { clipboard = delete_id id s.clipboard })
    plain e = deleted-Valid digest id s s refl refl v.counted (λ k n. refl) e v

    released :
        (r : Row)
        → Valid digest (record (release_chunks id s) { clipboard = delete_id id s.clipboard })
    released r =
        deleted-Valid digest id s (release_chunks id s) refl refl
          (release_chunks-Counted digest id s v.counted)
          (λ k n. links-delete_links id k s.manifest n) (links-delete_self id s.manifest) v

    go :
        (o : Option Row)
        → find_row id s.clipboard ≡ o
        → Valid digest (record (freed id o s) { clipboard = delete_id id (freed id o s).clipboard })
    go none e = plain (v.owned id (none-find_row (λ r. r.is_chunked) id s.clipboard e))
    go (some r) e = elim (Bool-cases r.is_chunked) [
      | inl t ↦
          subst
            (λ b. Valid digest (record (if b then release_chunks id s else s) {
              clipboard = delete_id id (if b then release_chunks id s else s).clipboard;
            }))
            (sym t) (released r)
      | inr t ↦
          subst
            (λ b. Valid digest (record (if b then release_chunks id s else s) {
              clipboard = delete_id id (if b then release_chunks id s else s).clipboard;
            }))
            (sym t) (plain (v.owned id (one-find_row id r s.clipboard e t (v.id_once id))))
    ]

-- `wipe` preserves the invariant of the tables.
pub wipe-Valid :
    (digest : Bytes → Bytes) (commits : Bool) (s : Store)
    → Valid digest s
    → Valid digest (wipe commits s).0
unfolding wipe count links
wipe-Valid digest false s v = v
wipe-Valid digest true s v = record {
  counted = record { exact = λ h. refl; unique = λ h. omega arith; named = tt };
  bound = refl;
  id_once = λ k. omega arith;
  hash_once = λ k. omega arith;
  owned = λ k e. refl;
}

-- `set_pinned` preserves the invariant of the tables.
pub set_pinned-Valid :
    (digest : Bytes → Bytes) (commits : Bool) (id : ℕ) (is_pinned : Bool) (s : Store)
    → Valid digest s
    → Valid digest (set_pinned commits id is_pinned s).0
unfolding set_pinned pin_row
set_pinned-Valid digest false id is_pinned s v = v
set_pinned-Valid digest true id is_pinned s v =
    updated-Valid digest id (pin_row is_pinned) s (λ r. refl) (λ r. refl) (λ r. refl) v
