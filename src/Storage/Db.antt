-- ===== src/Storage/Db.antt =====
-- crates/storage/src/db.rs: `upsert` of `SqliteStore` on the tables of `Storage.Tables`.
-- A transaction is one step: `commits` says whether SQLite carries it out, and if not the tables
-- stay as they were. The clock is the argument `ts`.
pub mod Counting
pub mod Valid
pub mod Upsert
pub mod Pinned
pub mod Rotation
use y4p.Prelude.{
  ℕ, zero, suc, ◌+◌, ◌*◌, Bool, true, false, ◌&&◌, ◌||◌, not, Option, none, some, List, [], ◌∷◌,
  ◌++◌, ltb, leb, ◌==◌, if◌then◌else◌, length, map, take, drop,
}
use y4p.Core.Text.{Text, Bytes, list_eq}
use y4p.Storage.Tables.{Row, Store}
use y4p.Storage.Rows.{
  Host, Body, bytes, detached, body_len, Content, chunked, is_cache_class, is_skipped, parts_of,
  column, is_chunked_content,
}
use y4p.Storage.Chunked.{store_chunks, release_chunks}

pub data Result {ℓ} (A : Type ℓ) : Type ℓ where
  ok : A → Result A
  err : Result A

-- `real_id` is `none` where the source has -1: the payload was skipped.
pub record UpsertOutcome : Type 0 where
  pub real_id : Option ℕ
  pub is_image : Bool
  pub expired_hashes : List Text

abbrev pub skipped : UpsertOutcome
skipped = record { real_id = none; is_image = false; expired_hashes = [] }

-- SELECT id FROM clipboard WHERE hash = ?1 LIMIT 1
unfoldable pub hash_is : Text → Option Text → Bool
hash_is h none = false
hash_is h (some k) = list_eq k h

unfoldable pub id_of_hash : Text → List Row → Option ℕ
unfolding hash_is
id_of_hash h [] = none
id_of_hash h (r ∷ rs) = if hash_is h r.hash then some r.id else id_of_hash h rs

-- UPDATE clipboard SET ... WHERE id = ?
unfoldable pub update_row : ℕ → (Row → Row) → List Row → List Row
update_row id f [] = []
update_row id f (r ∷ rs) = (if r.id == id then f r else r) ∷ update_row id f rs

unfoldable pub touch : ℕ → Row → Row
touch ts r = record r { timestamp = ts }

-- `store_chunks` runs only for a chunked row.
unfoldable pub store_content : Host → ℕ → Content → Store → Store
store_content host id (chunked b) s = store_chunks host.digest id b s
store_content host id _ s = s

unfoldable pub new_row : ℕ → ℕ → Text → ℕ → Option Text × Content → Text → Row
new_row id ts mime size parts hash = record {
  id = id;
  timestamp = ts;
  mime = mime;
  size = size;
  preview = parts.0;
  content = column parts.1;
  hash = some hash;
  is_pinned = false;
  is_chunked = is_chunked_content parts.1;
}

unfoldable pub insert_row : Host → ℕ → Text → Body → Text → Store → Store
unfolding store_content new_row parts_of body_len
insert_row host ts mime body hash s =
    let id = s.last_id + 1 in
    let parts = parts_of host mime body (is_cache_class mime) in
    let row = new_row id ts mime (body_len body) parts hash in
    store_content host id parts.1 (record s { clipboard = s.clipboard ++ row ∷ []; last_id = id })

-- The insert-or-touch half of `upsert`, with the row's id.
unfoldable pub place : Host → ℕ → Text → Body → Text → Store → Option ℕ → Store × ℕ
unfolding insert_row touch
place host ts mime body hash s (some id) =
    (record s { clipboard = update_row id (touch ts) s.clipboard }, id)
place host ts mime body hash s none = (insert_row host ts mime body hash s, s.last_id + 1)

-- WHERE is_pinned = 0
unfoldable pub unpinned : List Row → List Row
unpinned [] = []
unpinned (r ∷ rs) = if r.is_pinned then unpinned rs else r ∷ unpinned rs

-- `max_history as i64`, as SQLite reads an OFFSET: a negative one is 0.
unfoldable pub offset : ℕ → ℕ
offset max_history = if ltb max_history 9223372036854775808 then max_history else 0

-- SELECT ... WHERE is_pinned = 0 ORDER BY timestamp DESC LIMIT -1 OFFSET ?1
unfoldable pub expiring : Host → ℕ → List Row → List Row
unfolding offset
expiring host max_history rows = drop (offset max_history) (host.newest (unpinned rows))

-- The loop that gives back the chunks of the expiring rows.
unfoldable pub release_all : List Row → Store → Store
release_all [] s = s
release_all (r ∷ rs) s = release_all rs (if r.is_chunked then release_chunks r.id s else s)

unfoldable pub hashes : List Row → List Text
hashes [] = []
hashes (r ∷ rs) = elim r.hash [ some h ↦ h ∷ hashes rs | none ↦ hashes rs ]

unfoldable pub has_id : ℕ → List Row → Bool
has_id id [] = false
has_id id (r ∷ rs) = if r.id == id then true else has_id id rs

-- DELETE FROM clipboard WHERE id IN (...)
unfoldable pub delete_rows : List Row → List Row → List Row
delete_rows gone [] = []
delete_rows gone (r ∷ rs) =
    if has_id r.id gone then delete_rows gone rs else r ∷ delete_rows gone rs

-- The rotation half of `upsert`; the DELETE evaluates the same query on the same table.
unfoldable pub rotate : Host → ℕ → Store → Store
unfolding expiring release_all delete_rows
rotate host max_history s =
    let s' = release_all (expiring host max_history s.clipboard) s in
    record s' { clipboard = delete_rows (expiring host max_history s'.clipboard) s'.clipboard }

abbrev pub outcome : ℕ → Bool → List Text → UpsertOutcome
outcome id is_image expired = record {
  real_id = some id;
  is_image = is_image;
  expired_hashes = expired;
}

unfoldable pub upsert :
    Host → Bool → ℕ → Text → Body → Text → ℕ → Store → Store × Result UpsertOutcome
unfolding place rotate expiring hashes id_of_hash
upsert host commits ts mime body hash max_history s =
    let (placed, id) = place host ts mime body hash s (id_of_hash hash s.clipboard) in
    let expired = hashes (expiring host max_history placed.clipboard) in
    if commits
    then (rotate host max_history placed, ok (outcome id (is_cache_class mime) expired))
    else (s, err)

unfoldable pub upsert_record :
    Host → Bool → ℕ → Text → Bytes → Text → ℕ → Store → Store × Result UpsertOutcome
unfolding upsert
upsert_record host commits ts mime payload hash max_history s =
    if is_skipped mime (length payload)
    then (s, ok skipped)
    else upsert host commits ts mime (bytes payload) hash max_history s

unfoldable pub upsert_detached :
    Host → Bool → ℕ → Text → ℕ → Text → ℕ → Store → Store × Result UpsertOutcome
unfolding upsert
upsert_detached host commits ts mime len hash max_history s =
    if is_skipped mime len
    then (s, ok skipped)
    else upsert host commits ts mime (detached len) hash max_history s
