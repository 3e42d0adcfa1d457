-- ===== src/Storage/Queries/Kept.antt =====
-- What `get_row_content` of crates/storage/src/db.rs answers after an `upsert`: the payload just
-- stored, and the same as before for every other row that is left.
use y4p.Prelude.{
  ℕ, ◌+◌, ◌≡◌, ◌≢◌, refl, sym, ◌∙◌, ap, subst, Bool, true, false, List, [], ◌∷◌, ◌++◌, arith, ltb,
  ◌==◌, if◌then◌else◌, Bool-cases, inl, inr, Option, some, none, ℕ_discrete,
}
use y4p.Core.Text.{Text, Bytes}
use y4p.Storage.Tables.{Row, Store}
use y4p.Storage.Rows.{
  Host, Body, Content, text, blob, chunked, no_content, is_cache_class, parts_of, body_len,
}
use y4p.Storage.Chunked.{release_chunks, reassemble}
use y4p.Storage.Chunked.Counts.{Counted}
use y4p.Storage.Chunked.Release.{release_chunks-Counted}
use y4p.Storage.Chunked.Reading.{reassemble-store_other, reassemble-release_other}
use y4p.Storage.Db.{
  has_id, delete_rows, expiring, release_all, rotate, update_row, touch, id_of_hash, store_content,
  new_row, insert_row, place, upsert,
}
use y4p.Storage.Db.Counting.{count-has_id, count_le, IsNewest}
use y4p.Storage.Db.Valid.{Valid, shape}
use y4p.Storage.Db.Upsert.{place-Valid, clipboard-store_content}
use y4p.Storage.Queries.{
  find_row, row_content, get_row_content, inline_content, content_tuple, chunked_tuple,
}

has_id-delete_rows :
    (id : ℕ) (gone rows : List Row)
    → has_id id (delete_rows gone rows) ≡ true
    → has_id id gone ≡ false
unfolding has_id delete_rows
has_id-delete_rows id gone [] h = cc
has_id-delete_rows id gone (r ∷ rs) h = elim (Bool-cases (has_id r.id gone)) [
  | inl t ↦ has_id-delete_rows id gone rs (ground (arith, h, t))
  | inr t ↦ elim (ℕ_discrete r.id id) [
    | yes q ↦ ap (λ k. has_id k gone) (sym q) ∙ t
    | no q ↦ has_id-delete_rows id gone rs (ground (arith, h, t, q))
  ]
]

find_row-delete_rows :
    (id : ℕ) (gone rows : List Row)
    → has_id id gone ≡ false
    → find_row id (delete_rows gone rows) ≡ find_row id rows
unfolding find_row delete_rows
find_row-delete_rows id gone [] h = refl
find_row-delete_rows id gone (r ∷ rs) h = elim (ℕ_discrete r.id id) [
  | yes q ↦ ground (arith, ap (λ k. has_id k gone) q ∙ h, q)
  | no q ↦ ground (arith, q, find_row-delete_rows id gone rs h)
]

-- Releasing the chunks of other rows changes nothing that is read from a row.
reassemble-release_all :
    (digest : Bytes → Bytes) (id size : ℕ) (gone : List Row) (s : Store)
    → has_id id gone ≡ false
    → Counted digest s
    → reassemble id size (release_all gone s) ≡ reassemble id size s
unfolding release_all has_id
reassemble-release_all digest id size [] s h v = refl
reassemble-release_all digest id size (r ∷ rs) s h v =
    let n : r.id ≢ id = ground (arith, h) in
    let rest : has_id id rs ≡ false = ground (arith, h) in
    let after =
      λ (b : Bool). reassemble id size (release_all rs (if b then release_chunks r.id s else s)) in
    elim (Bool-cases r.is_chunked) [
      | inl t ↦
          ap after t
          ∙ reassemble-release_all digest id size rs (release_chunks r.id s) rest
              (release_chunks-Counted digest r.id s v)
          ∙ reassemble-release_other digest r.id id size s n v
      | inr t ↦ ap after t ∙ reassemble-release_all digest id size rs s rest v
    ]

-- The answer for a row, by what it reads.
unfoldable pub answer :
    Option Row → (Row → Option (Text × Option Bytes × Text)) → Option (Text × Option Bytes × Text)
answer none f = none
answer (some r) f = f r

pub get_row_content-cases :
    (id : ℕ) (s : Store) → get_row_content id s ≡ answer (find_row id s.clipboard) (row_content s)
unfolding get_row_content answer
get_row_content-cases id s = go (find_row id s.clipboard)
  where
    go :
        (o : Option Row)
        → elim o as (λ _. Option (Text × Option Bytes × Text)) [
          | none ↦ none
          | some r ↦ row_content s r
        ]
          ≡ answer o (row_content s)
    go none = refl
    go (some r) = refl

find_row-id : (id : ℕ) (r : Row) (rows : List Row) → find_row id rows ≡ some r → r.id ≡ id
unfolding find_row
find_row-id id r [] e = cc
find_row-id id r (k ∷ ks) e = ground (arith, e, find_row-id id r ks)

row_content-agree :
    (s s' : Store) (r : Row)
    → reassemble r.id r.size s' ≡ reassemble r.id r.size s
    → row_content s' r ≡ row_content s r
unfolding row_content
row_content-agree s s' r e =
    ap
      (λ t.
        if r.is_chunked
        then chunked_tuple r.mime t r.hash
        else content_tuple r.mime (inline_content r.content) r.hash)
      e

-- Two stores whose lookups agree up to the timestamp, and whose chunks read alike, answer alike.
answers_agree :
    (id : ℕ) (s s' : Store)
    → find_row id s'.clipboard ≡ find_row id s.clipboard
    → ((size : ℕ) → reassemble id size s' ≡ reassemble id size s)
    → get_row_content id s' ≡ get_row_content id s
unfolding answer
answers_agree id s s' e c =
    get_row_content-cases id s'
    ∙ ap (λ o. answer o (row_content s')) e
    ∙ go (find_row id s.clipboard) refl
    ∙ sym (get_row_content-cases id s)
  where
    go :
        (o : Option Row)
        → find_row id s.clipboard ≡ o
        → answer o (row_content s') ≡ answer o (row_content s)
    go none f = refl
    go (some r) f = row_content-agree s s' r (
        subst (λ k. reassemble k r.size s' ≡ reassemble k r.size s)
          (sym (find_row-id id r s.clipboard f)) (c r.size))

-- Reassembly does not read the table of rows.
clipboard_unread :
    (id size : ℕ) (s : Store) (rows : List Row)
    → reassemble id size (record s { clipboard = rows }) ≡ reassemble id size s
unfolding reassemble
clipboard_unread id size s rows = refl

pub last_unread :
    (id size : ℕ) (s : Store) (rows : List Row) (last : ℕ)
    → reassemble id size (record s { clipboard = rows; last_id = last }) ≡ reassemble id size s
unfolding reassemble
last_unread id size s rows last = refl

-- A row that a rotation leaves is read as before.
pub rotate-kept :
    (host : Host) (n : ℕ) (id : ℕ) (s : Store)
    → Valid host.digest s
    → has_id id (rotate host n s).clipboard ≡ true
    → get_row_content id (rotate host n s) ≡ get_row_content id s
rotate-kept host n id s v h =
    let gone = expiring host n s.clipboard in
    let left : has_id id gone ≡ false =
      has_id-delete_rows id gone s.clipboard
        (ap (λ t. has_id id t.clipboard) (sym (shape host n s)) ∙ h) in
    ap (get_row_content id) (shape host n s)
    ∙ answers_agree id s _ (find_row-delete_rows id gone s.clipboard left) (λ size.
      clipboard_unread id size (release_all gone s) _
      ∙ reassemble-release_all host.digest id size gone s left v.counted)

find_row-append :
    (id : ℕ) (row : Row) (rows : List Row)
    → has_id id rows ≡ true
    → find_row id (rows ++ row ∷ []) ≡ find_row id rows
unfolding find_row has_id
find_row-append id row [] h = cc
find_row-append id row (r ∷ rs) h = ground (arith, h, find_row-append id row rs)

pub find_row-append_new :
    (row : Row) (rows : List Row)
    → has_id row.id rows ≡ false
    → find_row row.id (rows ++ row ∷ []) ≡ some row
unfolding find_row has_id
find_row-append_new row [] h = ground arith
find_row-append_new row (r ∷ rs) h = ground (arith, h, find_row-append_new row rs)

found_alike :
    (f : Row → Option (Text × Option Bytes × Text)) (c : Bool) (r k : Row) (x y : Option Row)
    → f r ≡ f k
    → answer x f ≡ answer y f
    → answer (if c then some r else x) f ≡ answer (if c then some k else y) f
unfolding answer
found_alike f true r k x y e d = e
found_alike f false r k x y e d = d

touched_alike :
    (id ts : ℕ) (s : Store) (b : Bool) (r : Row) (x y : Option Row)
    → answer x (row_content s) ≡ answer y (row_content s)
    → answer
        (if (if b then touch ts r else r).id == id then some (if b then touch ts r else r) else x)
        (row_content s)
      ≡ answer (if r.id == id then some r else y) (row_content s)
unfolding row_content touch
touched_alike id ts s true r x y d =
    found_alike (row_content s) (r.id == id) (touch ts r) r x y refl d
touched_alike id ts s false r x y d = found_alike (row_content s) (r.id == id) r r x y refl d

-- The rows with a touched timestamp answer as before.
touched-kept :
    (id k ts : ℕ) (s : Store) (rows : List Row)
    → answer (find_row id (update_row k (touch ts) rows)) (row_content s)
      ≡ answer (find_row id rows) (row_content s)
unfolding find_row update_row
touched-kept id k ts s [] = refl
touched-kept id k ts s (r ∷ rs) =
    touched_alike id ts s (r.id == k) r _ (find_row id rs) (touched-kept id k ts s rs)

reassemble-store_content :
    (host : Host) (id other size : ℕ) (c : Content) (s : Store)
    → id ≢ other
    → Counted host.digest s
    → reassemble other size (store_content host id c s) ≡ reassemble other size s
unfolding store_content
reassemble-store_content host id other size (chunked b) s n v =
    reassemble-store_other host.digest id other size b s n v
reassemble-store_content host id other size (text b) s n v = refl
reassemble-store_content host id other size (blob b) s n v = refl
reassemble-store_content host id other size no_content s n v = refl

pub known_id :
    (digest : Bytes → Bytes) (id : ℕ) (s : Store)
    → Valid digest s
    → has_id id s.clipboard ≡ true
    → s.last_id + 1 ≢ id
known_id digest id s v h q = omega (
  arith,
  v.bound,
  count-has_id id s.clipboard h,
  count_le (λ r. r.id == id) (λ r. ltb s.last_id r.id) (λ r e. ground (arith, e, q)) s.clipboard,
)

get_row_content-touched :
    (id k ts : ℕ) (s : Store)
    → get_row_content id (record s { clipboard = update_row k (touch ts) s.clipboard })
      ≡ get_row_content id s
unfolding row_content reassemble
get_row_content-touched id k ts s =
    get_row_content-cases id (record s { clipboard = update_row k (touch ts) s.clipboard })
    ∙ touched-kept id k ts s s.clipboard
    ∙ sym (get_row_content-cases id s)

-- Inserting or touching a row leaves what is read from the rows that were there.
place-kept :
    (host : Host) (ts : ℕ) (mime : Text) (body : Body) (hash : Text) (id : ℕ) (s : Store)
    (o : Option ℕ)
    → Valid host.digest s
    → has_id id s.clipboard ≡ true
    → get_row_content id (place host ts mime body hash s o).0 ≡ get_row_content id s
unfolding place insert_row
place-kept host ts mime body hash id s (some k) v h = get_row_content-touched id k ts s
place-kept host ts mime body hash id s none v h =
    let parts = parts_of host mime body (is_cache_class mime) in
    let row = new_row (s.last_id + 1) ts mime (body_len body) parts hash in
    let s' : Store = record s { clipboard = s.clipboard ++ row ∷ []; last_id = s.last_id + 1 } in
    let n = known_id host.digest id s v h in
    let counted : Counted host.digest s' = record {
      exact = v.counted.exact;
      unique = v.counted.unique;
      named = v.counted.named;
    } in
    answers_agree id s (store_content host (s.last_id + 1) parts.1 s')
      (ap (find_row id) (clipboard-store_content host (s.last_id + 1) parts.1 s')
        ∙ find_row-append id row s.clipboard h)
      (λ size.
        reassemble-store_content host (s.last_id + 1) id size parts.1 s' n counted
        ∙ last_unread id size s (s.clipboard ++ row ∷ []) (s.last_id + 1))

-- On tables that meet the invariant, after an `upsert` every row that was there and is left is read
-- as before.
pub content_kept :
    (host : Host) (commits : Bool) (ts : ℕ) (mime : Text) (body : Body) (hash : Text)
    (max_history id : ℕ) (s : Store)
    → IsNewest host.newest
    → Valid host.digest s
    → has_id id s.clipboard ≡ true
    → has_id id (upsert host commits ts mime body hash max_history s).0.clipboard ≡ true
    → get_row_content id (upsert host commits ts mime body hash max_history s).0
      ≡ get_row_content id s
unfolding upsert
content_kept host false ts mime body hash max_history id s laws v h l = refl
content_kept host true ts mime body hash max_history id s laws v h l =
    rotate-kept host max_history id (place host ts mime body hash s (id_of_hash hash s.clipboard)).0
      (place-Valid host ts mime body hash s v) l
    ∙ place-kept host ts mime body hash id s (id_of_hash hash s.clipboard) v h
