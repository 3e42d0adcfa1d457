-- ===== src/Storage/Db/Upsert.antt =====
-- `upsert` of crates/storage/src/db.rs as a whole: the invariant of the tables.
use y4p.Prelude.{
  ℕ, ◌+◌, ◌≤◌, ◌≡◌, ◌≢◌, refl, sym, ◌∙◌, ap, subst, Bool, true, false, ◌&&◌, List, [], ◌∷◌, ◌++◌,
  arith, ltb, ◌==◌, if◌then◌else◌, Option, some, none, ℕ_discrete,
}
use y4p.Core.Text.{Text, Bytes, list_eq_sound}
use y4p.Storage.Tables.{Row, Store, links}
use y4p.Storage.Rows.{
  Host, Body, Content, text, blob, chunked, no_content, is_chunked_content, is_cache_class,
  parts_of, body_len,
}
use y4p.Core.Cdc.{chunks}
use y4p.Storage.Chunked.{store_chunk, store_from, store_chunks}
use y4p.Storage.Chunked.Counts.{Counted, store_chunks-Counted}
use y4p.Storage.Chunked.Reading.{links-store_other}
use y4p.Storage.Db.{touch, hash_is, id_of_hash, store_content, new_row, insert_row, place, upsert}
use y4p.Storage.Db.Counting.{count, count_le, count-append, IsNewest}
use y4p.Storage.Db.Valid.{Valid, updated-Valid, rotate-Valid}

hash_unused :
    (h : Text) (rs : List Row) → id_of_hash h rs ≡ none → count (λ r. hash_is h r.hash) rs ≡ 0
unfolding id_of_hash count
hash_unused h [] e = refl
hash_unused h (r ∷ rs) e = ground (arith, hash_unused h rs)

clipboard-store_from :
    (digest : Bytes → Bytes) (id seq : ℕ) (ds : List Bytes) (s : Store)
    → (store_from digest id seq ds s).clipboard ≡ s.clipboard
unfolding store_from store_chunk
clipboard-store_from digest id seq [] s = refl
clipboard-store_from digest id seq (d ∷ ds) s =
    clipboard-store_from digest id (seq + 1) ds (store_chunk digest id seq d s)

last_id-store_from :
    (digest : Bytes → Bytes) (id seq : ℕ) (ds : List Bytes) (s : Store)
    → (store_from digest id seq ds s).last_id ≡ s.last_id
unfolding store_from store_chunk
last_id-store_from digest id seq [] s = refl
last_id-store_from digest id seq (d ∷ ds) s =
    last_id-store_from digest id (seq + 1) ds (store_chunk digest id seq d s)

-- Storing chunks leaves the table of rows and its counter alone.
clipboard-store_chunks :
    (digest : Bytes → Bytes) (id : ℕ) (b : Bytes) (s : Store)
    → (store_chunks digest id b s).clipboard ≡ s.clipboard
unfolding store_chunks
clipboard-store_chunks digest id b s = clipboard-store_from digest id 0 (chunks b) s

last_id-store_chunks :
    (digest : Bytes → Bytes) (id : ℕ) (b : Bytes) (s : Store)
    → (store_chunks digest id b s).last_id ≡ s.last_id
unfolding store_chunks
last_id-store_chunks digest id b s = last_id-store_from digest id 0 (chunks b) s

pub clipboard-store_content :
    (host : Host) (id : ℕ) (c : Content) (s : Store)
    → (store_content host id c s).clipboard ≡ s.clipboard
unfolding store_content
clipboard-store_content host id (chunked b) s = clipboard-store_chunks host.digest id b s
clipboard-store_content host id (text b) s = refl
clipboard-store_content host id (blob b) s = refl
clipboard-store_content host id no_content s = refl

-- The table with a row appended, and what a chunked row brings along.
abbrev with_row : ℕ → Row → Store → Store
with_row id row s = record s { clipboard = s.clipboard ++ row ∷ []; last_id = id }

module _ (host : Host) (row : Row) (s : Store) (v : Valid host.digest s)
    (i : row.id ≡ s.last_id + 1) where
  count_one :
      (p : Row → Bool)
      → count p (s.clipboard ++ row ∷ []) ≡ count p s.clipboard + (if p row then 1 else 0)
  unfolding count
  count_one p = omega (arith, count-append p s.clipboard (row ∷ []))

  row-Valid :
      (s' : Store)
      → s'.clipboard ≡ s.clipboard ++ row ∷ []
      → s'.last_id ≡ s.last_id + 1
      → Counted host.digest s'
      → ((h : Text) → hash_is h row.hash ≡ true → count (λ r. hash_is h r.hash) s.clipboard ≡ 0)
      → ((id : ℕ) → id ≢ s.last_id + 1 → links id s'.manifest ≡ links id s.manifest)
      → (row.is_chunked ≡ false → s'.manifest ≡ s.manifest)
      → Valid host.digest s'
  row-Valid s' rows last c unused others inline = record {
    counted = record { exact = c.exact; unique = c.unique; named = c.named };
    bound =
        ap (count (λ r. ltb s'.last_id r.id)) rows
        ∙ ap (λ k. count (λ r. ltb k r.id) (s.clipboard ++ row ∷ [])) last
        ∙ ground (
          arith,
          i,
          count_one (λ r. ltb (s.last_id + 1) r.id),
          v.bound,
          count_le (λ r. ltb (s.last_id + 1) r.id) (λ r. ltb s.last_id r.id)
              (λ r h. ground (arith, h)) s.clipboard,
        );
    id_once = λ k. subst (λ rs. count (λ r. r.id == k) rs ≤ 1) (sym rows) (once k);
    hash_once = λ k.
        subst (λ rs. count (λ r. hash_is k r.hash) rs ≤ 1) (sym rows)
          (ground (arith, count_one (λ r. hash_is k r.hash), v.hash_once k, unused k));
    owned = λ k e. own k (ap (count (λ r. r.id == k && r.is_chunked)) (sym rows) ∙ e);
  }
    where
      once : (k : ℕ) → count (λ r. r.id == k) (s.clipboard ++ row ∷ []) ≤ 1
      once k = elim (ℕ_discrete row.id k) [
        | no q ↦ ground (arith, q, count_one (λ r. r.id == k), v.id_once k)
        | yes q ↦
            let none_yet : count (λ r. r.id == k) s.clipboard ≡ 0 = omega (
              arith,
              v.bound,
              count_le (λ r. r.id == k) (λ r. ltb s.last_id r.id) (λ r h. ground (arith, h, i, q))
                  s.clipboard,
            ) in
            ground (arith, q, count_one (λ r. r.id == k), none_yet)
      ]

      own :
          (k : ℕ)
          → count (λ r. r.id == k && r.is_chunked) (s.clipboard ++ row ∷ []) ≡ 0
          → links k s'.manifest ≡ []
      own k e = elim (ℕ_discrete k (s.last_id + 1)) [
        | no q ↦
            others k q ∙ v.owned k (omega (arith, count_one (λ r. r.id == k && r.is_chunked), e))
        | yes q ↦
            let c : row.is_chunked ≡ false =
              ground (arith, e, i, q, count_one (λ r. r.id == k && r.is_chunked)) in
            ap (links k) (inline c)
            ∙ v.owned k (omega (arith, count_one (λ r. r.id == k && r.is_chunked), e))
      ]

  -- A row that brings no chunks.
  plain :
      ((h : Text) → hash_is h row.hash ≡ true → count (λ r. hash_is h r.hash) s.clipboard ≡ 0)
      → Valid host.digest (with_row (s.last_id + 1) row s)
  plain unused =
      row-Valid (with_row (s.last_id + 1) row s) refl refl
        (record { exact = v.counted.exact; unique = v.counted.unique; named = v.counted.named })
        unused (λ id n. refl) (λ f. refl)

  -- The row and its chunks are stored together.
  stored-Valid :
      (c : Content)
      → row.is_chunked ≡ is_chunked_content c
      → ((h : Text) → hash_is h row.hash ≡ true → count (λ r. hash_is h r.hash) s.clipboard ≡ 0)
      → Valid host.digest (store_content host (s.last_id + 1) c (with_row (s.last_id + 1) row s))
  unfolding store_content store_chunks
  stored-Valid (chunked b) e unused =
      let start : Counted host.digest (with_row (s.last_id + 1) row s) = record {
        exact = v.counted.exact;
        unique = v.counted.unique;
        named = v.counted.named;
      } in
      row-Valid (store_chunks host.digest (s.last_id + 1) b (with_row (s.last_id + 1) row s))
        (clipboard-store_chunks host.digest (s.last_id + 1) b _)
        (last_id-store_chunks host.digest (s.last_id + 1) b _)
        (store_chunks-Counted host.digest (s.last_id + 1) b (with_row (s.last_id + 1) row s) start)
        unused
        (λ id n.
          links-store_other host.digest (s.last_id + 1) id b (with_row (s.last_id + 1) row s)
            (λ q. n (sym q)))
        (λ f. absurd (ground (arith, e, f)))
  stored-Valid (text b) e unused = plain unused
  stored-Valid (blob b) e unused = plain unused
  stored-Valid no_content e unused = plain unused

-- The insert-or-touch half of `upsert` preserves the invariant.
pub place-Valid :
    (host : Host) (ts : ℕ) (mime : Text) (body : Body) (hash : Text) (s : Store)
    → Valid host.digest s
    → Valid host.digest (place host ts mime body hash s (id_of_hash hash s.clipboard)).0
unfolding place insert_row new_row touch hash_is
place-Valid host ts mime body hash s v = go (id_of_hash hash s.clipboard) refl
  where
    go :
        (o : Option ℕ)
        → id_of_hash hash s.clipboard ≡ o
        → Valid host.digest (place host ts mime body hash s o).0
    go (some id) e = updated-Valid host.digest id (touch ts) s (λ r. refl) (λ r. refl) (λ r. refl) v
    go none e =
        let parts = parts_of host mime body (is_cache_class mime) in
        stored-Valid host (new_row (s.last_id + 1) ts mime (body_len body) parts hash) s v refl
          parts.1 refl
          (λ h q.
            subst (λ k. count (λ r. hash_is k r.hash) s.clipboard ≡ 0) (list_eq_sound hash h q)
              (hash_unused hash s.clipboard e))

-- `upsert` preserves the invariant of the tables, whether or not its transaction commits.
pub upsert-Valid :
    (host : Host) (commits : Bool) (ts : ℕ) (mime : Text) (body : Body) (hash : Text)
    (max_history : ℕ) (s : Store)
    → IsNewest host.newest
    → Valid host.digest s
    → Valid host.digest (upsert host commits ts mime body hash max_history s).0
unfolding upsert
upsert-Valid host true ts mime body hash max_history s laws v =
    rotate-Valid host max_history (place host ts mime body hash s (id_of_hash hash s.clipboard)).0
      laws (place-Valid host ts mime body hash s v)
upsert-Valid host false ts mime body hash max_history s laws v = v
