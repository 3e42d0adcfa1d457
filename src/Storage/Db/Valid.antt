-- ===== src/Storage/Db/Valid.antt =====
-- The invariant of the tables of crates/storage/src/schema.rs, and that `upsert` and the other
-- writing statements of crates/storage/src/db.rs preserve it.
use y4p.Prelude.{
  ℕ, ◌≤◌, ◌<◌, ◌≡◌, refl, sym, ◌∙◌, ap, subst, Bool, true, false, ◌&&◌, not, List, [], ◌∷◌, arith,
  ltb, ◌==◌, if◌then◌else◌, Bool-cases, inl, inr, ℕ_discrete,
}
use y4p.Core.Text.{Text, Bytes}
use y4p.Storage.Tables.{Row, Store, links, delete_links}
use y4p.Storage.Rows.{Host}
use y4p.Storage.Chunked.{release_chunks}
use y4p.Storage.Chunked.Counts.{Counted}
use y4p.Storage.Chunked.Release.{release_chunks-Counted}
use y4p.Storage.Chunked.Reading.{links-delete_links, links-delete_self}
use y4p.Storage.Db.{update_row, has_id, delete_rows, expiring, release_all, rotate, hash_is}
use y4p.Storage.Db.Counting.{
  count, count_le, count_ext, count_split, count-delete_rows, count-has_id, IsNewest,
}
use y4p.Storage.Db.Rotation.{clipboard-rotate, count-expiring}

-- The reference counts are exact; ids stay below the counter, and no id or hash occurs twice; and
-- only a chunked row has entries in the manifest.
pub record Valid (digest : Bytes → Bytes) (s : Store) : Type 0 where
  pub counted : Counted digest s
  pub bound : count (λ r. ltb s.last_id r.id) s.clipboard ≡ 0
  pub id_once : (id : ℕ) → count (λ r. r.id == id) s.clipboard ≤ 1
  pub hash_once : (h : Text) → count (λ r. hash_is h r.hash) s.clipboard ≤ 1
  pub owned :
      (id : ℕ) → count (λ r. r.id == id && r.is_chunked) s.clipboard ≡ 0 → links id s.manifest ≡ []

pub count-update_row :
    (p : Row → Bool) (id : ℕ) (f : Row → Row) (rs : List Row)
    → ((r : Row) → p (f r) ≡ p r)
    → count p (update_row id f rs) ≡ count p rs
unfolding count update_row
count-update_row p id f [] e = refl
count-update_row p id f (r ∷ rs) e = ground (arith, count-update_row p id f rs e, e r)

-- A statement that updates rows but none of the columns that the invariant reads.
pub updated-Valid :
    (digest : Bytes → Bytes) (id : ℕ) (f : Row → Row) (s : Store)
    → ((r : Row) → (f r).id ≡ r.id)
    → ((r : Row) → (f r).hash ≡ r.hash)
    → ((r : Row) → (f r).is_chunked ≡ r.is_chunked)
    → Valid digest s
    → Valid digest (record s { clipboard = update_row id f s.clipboard })
updated-Valid digest id f s i h c v = record {
  counted = record { exact = v.counted.exact; unique = v.counted.unique; named = v.counted.named };
  bound =
      count-update_row (λ r. ltb s.last_id r.id) id f s.clipboard (λ r. ap (ltb s.last_id) (i r))
      ∙ v.bound;
  id_once = λ k.
      subst (λ n. n ≤ 1)
        (sym (count-update_row (λ r. r.id == k) id f s.clipboard (λ r. ap (λ n. n == k) (i r))))
        (v.id_once k);
  hash_once = λ k.
      subst (λ n. n ≤ 1)
        (sym
          (count-update_row (λ r. hash_is k r.hash) id f s.clipboard (λ r. ap (hash_is k) (h r))))
        (v.hash_once k);
  owned = λ k e. v.owned k (
      sym (count-update_row (λ r. r.id == k && r.is_chunked) id f s.clipboard (λ r. same k r)) ∙ e);
}
  where
    same : (k : ℕ) (r : Row) → ((f r).id == k && (f r).is_chunked) ≡ (r.id == k && r.is_chunked)
    same k r = ap (λ n. n == k && (f r).is_chunked) (i r) ∙ ap (λ b. r.id == k && b) (c r)

-- Release of the chunks of a list of rows.
pub release_all-Counted :
    (digest : Bytes → Bytes) (gone : List Row) (s : Store)
    → Counted digest s
    → Counted digest (release_all gone s)
unfolding release_all
release_all-Counted digest [] s v = v
release_all-Counted digest (r ∷ rs) s v = elim (Bool-cases r.is_chunked) [
  | inl t ↦
      subst (λ b. Counted digest (release_all rs (if b then release_chunks r.id s else s))) (sym t)
        (release_all-Counted digest rs (release_chunks r.id s)
          (release_chunks-Counted digest r.id s v))
  | inr t ↦
      subst (λ b. Counted digest (release_all rs (if b then release_chunks r.id s else s))) (sym t)
        (release_all-Counted digest rs s v)
]

links_none-release_all :
    (id : ℕ) (gone : List Row) (s : Store)
    → links id s.manifest ≡ []
    → links id (release_all gone s).manifest ≡ []
unfolding release_all release_chunks
links_none-release_all id [] s e = e
links_none-release_all id (r ∷ rs) s e =
    let d : links id (delete_links r.id s.manifest) ≡ [] = elim (ℕ_discrete r.id id) [
      | yes q ↦
          subst (λ n. links n (delete_links r.id s.manifest) ≡ []) q
            (links-delete_self r.id s.manifest)
      | no q ↦ links-delete_links r.id id s.manifest q ∙ e
    ] in
    let after =
      λ (b : Bool). links id (release_all rs (if b then release_chunks r.id s else s)).manifest in
    elim (Bool-cases r.is_chunked) [
      | inl t ↦ ap after t ∙ links_none-release_all id rs (release_chunks r.id s) d
      | inr t ↦ ap after t ∙ links_none-release_all id rs s e
    ]

links_released-release_all :
    (id : ℕ) (gone : List Row) (s : Store)
    → 0 < count (λ r. r.id == id && r.is_chunked) gone
    → links id (release_all gone s).manifest ≡ []
unfolding count release_all release_chunks
links_released-release_all id [] s h = absurd (omega (arith, h))
links_released-release_all id (r ∷ rs) s h = elim (Bool-cases (r.id == id && r.is_chunked)) [
  | inl t ↦
      let q : r.id ≡ id = ground (arith, t) in
      let c : r.is_chunked ≡ true = ground (arith, t) in
      ap (λ b. links id (release_all rs (if b then release_chunks r.id s else s)).manifest) c
      ∙ links_none-release_all id rs (release_chunks r.id s) (
          subst (λ n. links n (delete_links r.id s.manifest) ≡ []) q
            (links-delete_self r.id s.manifest))
  | inr t ↦ links_released-release_all id rs _ (ground (arith, h, t))
]

last_id-release_all : (gone : List Row) (s : Store) → (release_all gone s).last_id ≡ s.last_id
unfolding release_all release_chunks
last_id-release_all [] s = refl
last_id-release_all (r ∷ rs) s =
    let after = λ (b : Bool). (release_all rs (if b then release_chunks r.id s else s)).last_id in
    elim (Bool-cases r.is_chunked) [
      | inl t ↦ ap after t ∙ last_id-release_all rs (release_chunks r.id s)
      | inr t ↦ ap after t ∙ last_id-release_all rs s
    ]

pub fewer-delete_rows :
    (p : Row → Bool) (gone rows : List Row) → count p (delete_rows gone rows) ≤ count p rows
fewer-delete_rows p gone rows =
    subst (λ n. n ≤ count p rows) (sym (count-delete_rows p gone rows))
      (count_le (λ r. not (has_id r.id gone) && p r) p (λ r h. ground (arith, h)) rows)

-- Deleting rows by id leaves the others: those of an id that is not deleted are all kept.
pub kept-delete_rows :
    (id : ℕ) (p : Row → Bool) (gone rows : List Row)
    → has_id id gone ≡ false
    → count (λ r. r.id == id && p r) (delete_rows gone rows) ≡ count (λ r. r.id == id && p r) rows
kept-delete_rows id p gone rows h =
    count-delete_rows (λ r. r.id == id && p r) gone rows
    ∙ count_ext _ (λ r. r.id == id && p r) same rows
  where
    same : (r : Row) → (not (has_id r.id gone) && (r.id == id && p r)) ≡ (r.id == id && p r)
    same r = elim (ℕ_discrete r.id id) [
      | yes q ↦ ap (λ b. not b && (r.id == id && p r)) (ap (λ n. has_id n gone) q ∙ h)
      | no q ↦ ground (arith, q)
    ]

-- A chunked row that is deleted expires as a chunked row: its id belongs to no other.
owned-rotate :
    (host : Host) (n : ℕ) (s : Store) (id : ℕ)
    → IsNewest host.newest
    → Valid host.digest s
    → count
        (λ r. r.id == id && r.is_chunked)
        (delete_rows (expiring host n s.clipboard) s.clipboard)
      ≡ 0
    → links id (release_all (expiring host n s.clipboard) s).manifest ≡ []
owned-rotate host n s id laws v e =
    let gone = expiring host n s.clipboard in
    elim (ℕ_discrete (count (λ r. r.id == id && r.is_chunked) gone) 0) [
      | no some_chunked ↦ links_released-release_all id gone s (omega (arith, some_chunked))
      | yes none_chunked ↦ links_none-release_all id gone s (
          v.owned id (elim (Bool-cases (has_id id gone)) [
            | inr h ↦ sym (kept-delete_rows id (λ r. r.is_chunked) gone s.clipboard h) ∙ e
            | inl h ↦ omega (
              arith,
              count-has_id id gone h,
              none_chunked,
              v.id_once id,
              count_split (λ r. r.id == id) (λ r. r.is_chunked) gone,
              count_split (λ r. r.id == id) (λ r. r.is_chunked) s.clipboard,
              count-expiring host n s.clipboard (λ r. r.id == id && not r.is_chunked) laws,
              count_le (λ r. not r.is_pinned && (r.id == id && not r.is_chunked))
                  (λ r. r.id == id && not r.is_chunked) (λ r k. ground (arith, k)) s.clipboard,
            )
          ]))
    ]

-- A rotation, with the rows that the DELETE leaves written out.
pub shape :
    (host : Host) (n : ℕ) (s : Store)
    → rotate host n s ≡ record (release_all (expiring host n s.clipboard) s) {
      clipboard = delete_rows (expiring host n s.clipboard) s.clipboard;
    }
unfolding rotate
shape host n s =
    let s' = release_all (expiring host n s.clipboard) s in
    ap (λ rows. record s' { clipboard = rows }) (clipboard-rotate host n s)

-- A rotation preserves the invariant: it gives back the chunks of the rows that it deletes.
pub rotate-Valid :
    (host : Host) (n : ℕ) (s : Store)
    → IsNewest host.newest
    → Valid host.digest s
    → Valid host.digest (rotate host n s)
rotate-Valid host n s laws v = subst (Valid host.digest) (sym (shape host n s)) record {
  counted = record { exact = all.exact; unique = all.unique; named = all.named };
  bound =
      let last = last_id-release_all (expiring host n s.clipboard) s in
      ap (λ k. count (λ r. ltb k r.id) (delete_rows (expiring host n s.clipboard) s.clipboard)) last
      ∙ none (fewer-delete_rows (λ r. ltb s.last_id r.id) (expiring host n s.clipboard) s.clipboard)
          v.bound;
  id_once = λ k. omega (
    arith,
    fewer-delete_rows (λ r. r.id == k) (expiring host n s.clipboard) s.clipboard,
    v.id_once k,
  );
  hash_once = λ k. omega (
    arith,
    fewer-delete_rows (λ r. hash_is k r.hash) (expiring host n s.clipboard) s.clipboard,
    v.hash_once k,
  );
  owned = λ k e. owned-rotate host n s k laws v e;
}
  where
    all : Counted host.digest (release_all (expiring host n s.clipboard) s)
    all = release_all-Counted host.digest (expiring host n s.clipboard) s v.counted

    none : {a b : ℕ} → a ≤ b → b ≡ 0 → a ≡ 0
    none h e = omega (arith, h, e)
