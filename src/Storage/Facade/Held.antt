-- ===== src/Storage/Facade/Held.antt =====
-- The file cache against the tables (crates/storage/src/lib.rs): a row whose bytes are in a file has
-- that file, whatever way `insert_spooled` ends.
use y4p.Prelude.{
  ℕ, ◌+◌, ◌<◌, ◌≡◌, refl, ◌∙◌, ap, subst, Bool, true, false, ◌&&◌, not, List, [], ◌∷◌, ◌++◌, arith,
  Option, some, none, if◌then◌else◌, Bool-cases, inl, inr, All-map,
}
use y4p.Core.Text.{Text, Bytes, list_eq, list_eq_sound, list_eq_refl}
use y4p.Storage.Tables.{null, text_class, blob_class, Row, Store}
use y4p.Storage.Rows.{Host, Body, is_cache_class, parts_of, body_len}
use y4p.Storage.Db.{
  hash_is, touch, has_id, delete_rows, hashes, expiring, rotate, place, insert_row, new_row,
}
use y4p.Storage.Db.Counting.{
  count, count_le, count_ext, count_split, count-append, count-delete_rows, count_none, IsNewest,
  All-has_id,
}
use y4p.Storage.Db.Rotation.{clipboard-rotate, count-expiring}
use y4p.Storage.Db.Valid.{Valid, count-update_row, fewer-delete_rows}
use y4p.Storage.Db.Upsert.{clipboard-store_content}
use y4p.Storage.Cache.{Files, exists_at, remove, remove_many}

-- A row whose bytes are neither inline nor in chunks.
abbrev pub needs_file : Row → Bool
needs_file r = elim r.content [
  | null ↦ not r.is_chunked
  | text_class b ↦ false
  | blob_class b ↦ false
]

-- Every row that needs its file has it.
abbrev pub HasFiles : List Row → Files → Type 0
HasFiles rows fs =
    (h : Text) → 0 < count (λ r. hash_is h r.hash && needs_file r) rows → exists_at h fs ≡ true

abbrev is_listed : Text → List Text → Bool
is_listed h [] = false
is_listed h (k ∷ ks) = if list_eq k h then true else is_listed h ks

exists_at-remove :
    (h k : Text) (fs : Files)
    → list_eq k h ≡ false
    → exists_at h fs ≡ true
    → exists_at h (remove k fs) ≡ true
unfolding exists_at remove
exists_at-remove h k [] n e = e
exists_at-remove h k (f ∷ fs) n e = ground (
  arith,
  n,
  e,
  exists_at-remove h k fs n,
  list_eq_sound f.0 h,
  list_eq_sound f.0 k,
  list_eq_refl h,
  list_eq_refl k,
)

exists_at-remove_many :
    (h : Text) (ks : List Text) (fs : Files)
    → is_listed h ks ≡ false
    → exists_at h fs ≡ true
    → exists_at h (remove_many ks fs) ≡ true
unfolding remove_many
exists_at-remove_many h [] fs n e = e
exists_at-remove_many h (k ∷ ks) fs n e =
    exists_at-remove_many h ks (remove k fs) (ground (arith, n))
      (exists_at-remove h k fs (ground (arith, n)) e)

listed_case :
    (h : Text) (o : Option Text) (rs : List Row)
    → (is_listed h (hashes rs) ≡ true → 0 < count (λ r. hash_is h r.hash) rs)
    → is_listed h (elim o as (λ _. List Text) [ some k ↦ k ∷ hashes rs | none ↦ hashes rs ]) ≡ true
    → 0 < (if hash_is h o then 1 else 0) + count (λ r. hash_is h r.hash) rs
unfolding hash_is
listed_case h none rs f e = omega (arith, f e)
listed_case h (some k) rs f e = ground (arith, f, e)

is_listed-hashes :
    (h : Text) (gone : List Row)
    → is_listed h (hashes gone) ≡ true
    → 0 < count (λ r. hash_is h r.hash) gone
unfolding hashes count hash_is
is_listed-hashes h [] e = cc
is_listed-hashes h (r ∷ rs) e = listed_case h r.hash rs (is_listed-hashes h rs) e

-- A hash that a kept row has is not among those that expire with the others.
kept_unlisted :
    (host : Host) (n : ℕ) (h : Text) (s : Store)
    → IsNewest host.newest
    → Valid host.digest s
    → 0 < count (λ r. hash_is h r.hash) (delete_rows (expiring host n s.clipboard) s.clipboard)
    → is_listed h (hashes (expiring host n s.clipboard)) ≡ false
kept_unlisted host n h s laws v k = elim (Bool-cases (is_listed h (hashes gone))) [
  | inr f ↦ f
  | inl t ↦ absurd (
      omega (
        arith,
        k,
        v.hash_once h,
        is_listed-hashes h gone t,
        count-delete_rows (λ r. hash_is h r.hash) gone rows,
        count_split (λ r. hash_is h r.hash) (λ r. has_id r.id gone) gone,
        count_none (λ r. hash_is h r.hash && not (has_id r.id gone)) gone
            (All-map (λ r e. ground (arith, e)) gone (All-has_id gone)),
        count-expiring host n rows (λ r. hash_is h r.hash && has_id r.id gone) laws,
        count_le (λ r. not r.is_pinned && (hash_is h r.hash && has_id r.id gone))
            (λ r. hash_is h r.hash && has_id r.id gone) (λ r e. ground (arith, e)) rows,
        count_split (λ r. hash_is h r.hash) (λ r. has_id r.id gone) rows,
        count_ext (λ r. hash_is h r.hash && not (has_id r.id gone))
            (λ r. not (has_id r.id gone) && hash_is h r.hash) (λ r. ground arith) rows,
      ))
]
  where
    rows : List Row
    rows = s.clipboard

    gone : List Row
    gone = expiring host n s.clipboard

-- A rotation, with the files of the expired hashes removed, takes no file from a row that is left.
pub rotate-HasFiles :
    (host : Host) (n : ℕ) (s : Store) (fs : Files)
    → IsNewest host.newest
    → Valid host.digest s
    → HasFiles s.clipboard fs
    → HasFiles (rotate host n s).clipboard (remove_many (hashes (expiring host n s.clipboard)) fs)
rotate-HasFiles host n s fs laws v held h k =
    let left = delete_rows (expiring host n s.clipboard) s.clipboard in
    let q = λ (r : Row). hash_is h r.hash && needs_file r in
    let k' : 0 < count q left = subst (λ rows. 0 < count q rows) (clipboard-rotate host n s) k in
    exists_at-remove_many h (hashes (expiring host n s.clipboard)) fs
      (kept_unlisted host n h s laws v
        (omega (arith, k', count_le q (λ r. hash_is h r.hash) (λ r e. ground (arith, e)) left)))
      (held h (omega (arith, k', fewer-delete_rows q (expiring host n s.clipboard) s.clipboard)))

clipboard-insert_row :
    (host : Host) (ts : ℕ) (mime : Text) (body : Body) (hash : Text) (s : Store)
    → (insert_row host ts mime body hash s).clipboard
      ≡ s.clipboard
        ++ new_row
            (s.last_id + 1)
            ts
            mime
            (body_len body)
            (parts_of host mime body (is_cache_class mime))
            hash
          ∷ []
unfolding insert_row
clipboard-insert_row host ts mime body hash s =
    clipboard-store_content host (s.last_id + 1) (parts_of host mime body (is_cache_class mime)).1 _

appended_file :
    (host : Host) (ts : ℕ) (mime : Text) (body : Body) (hash : Text) (s : Store) (fs : Files)
    → exists_at hash fs ≡ true
    → HasFiles s.clipboard fs
    → (h : Text)
    → 0
      < count
          (λ r. hash_is h r.hash && needs_file r)
          (s.clipboard
            ++ new_row
                (s.last_id + 1)
                ts
                mime
                (body_len body)
                (parts_of host mime body (is_cache_class mime))
                hash
              ∷ [])
    → exists_at h fs ≡ true
unfolding count new_row hash_is
appended_file host ts mime body hash s fs e held h k =
    let q = λ (r : Row). hash_is h r.hash && needs_file r in
    let row =
      new_row (s.last_id + 1) ts mime (body_len body)
        (parts_of host mime body (is_cache_class mime)) hash in
    elim (Bool-cases (list_eq hash h)) [
      | inl t ↦ subst (λ g. exists_at g fs ≡ true) (list_eq_sound hash h t) e
      | inr t ↦ held h (ground (arith, k, t, count-append q s.clipboard (row ∷ [])))
    ]

-- Once the file of a hash is there, its row may be placed.
pub place-HasFiles :
    (host : Host) (ts : ℕ) (mime : Text) (body : Body) (hash : Text) (s : Store) (o : Option ℕ)
    (fs : Files)
    → exists_at hash fs ≡ true
    → HasFiles s.clipboard fs
    → HasFiles (place host ts mime body hash s o).0.clipboard fs
unfolding place touch
place-HasFiles host ts mime body hash s (some id) fs e held h k = held h (
    subst (λ n. 0 < n)
      (count-update_row (λ r. hash_is h r.hash && needs_file r) id (touch ts) s.clipboard
        (λ r. refl))
      k)
place-HasFiles host ts mime body hash s none fs e held h k =
    let q = λ (r : Row). hash_is h r.hash && needs_file r in
    appended_file host ts mime body hash s fs e held h
      (subst (λ rows. 0 < count q rows) (clipboard-insert_row host ts mime body hash s) k)

remove_absent : (h : Text) (fs : Files) → exists_at h fs ≡ false → remove h fs ≡ fs
unfolding remove exists_at
remove_absent h [] e = refl
remove_absent h (f ∷ fs) e = ground (arith, e, remove_absent h fs)

pub remove_placed :
    (h : Text) (b : Bytes) (fs : Files) → exists_at h fs ≡ false → remove h ((h, b) ∷ fs) ≡ fs
unfolding remove
remove_placed h b fs e =
    ap (λ t. if t then remove h fs else (h, b) ∷ remove h fs) (list_eq_refl h)
    ∙ remove_absent h fs e
