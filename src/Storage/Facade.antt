-- ===== src/Storage/Facade.antt =====
-- crates/storage/src/lib.rs: `ClipboardDb`, which joins the tables and the file cache. `commits` and
-- `ts` are as in `Storage.Db`, and the ends of the file system's calls as in `Storage.Cache`.
pub mod Detached
pub mod Held
pub mod Named
pub mod Spooled
use y4p.Prelude.{
  ℕ, zero, suc, ◌+◌, Bool, true, false, not, Option, none, some, List, [], ◌∷◌, ltb, ◌==◌,
  if◌then◌else◌, length, take,
}
use y4p.Core.Text.{Text, Bytes}
use y4p.Core.Constants.{max_payload_bytes}
use y4p.Storage.Tables.{Row, Store}
use y4p.Storage.Rows.{Host, is_skipped, is_detachable}
use y4p.Storage.Db.{Result, ok, err, UpsertOutcome, upsert_record, upsert_detached}
use y4p.Storage.Queries.{get_row_content, get_row_location}
use y4p.Storage.Queries
use y4p.Storage.Cache.{
  Files, Written, Moved, Adoption, placed, present, read, remove, remove_many, store, adopt, clear,
}

pub record ClipboardDb : Type 0 where
  pub tables : Store
  pub cache : Files

-- A spool file: what opening and reading it gives (`none` is an error), the length recorded, and its
-- digest in hex.
pub record SpooledFile : Type 0 where
  pub file : Option Bytes
  pub len : ℕ
  pub hex_digest : Text

-- The source's -1 for a payload that is deliberately not stored.
abbrev pub InsertResult : Type 0
InsertResult = Result (Option ℕ)

read_checked : ℕ → Option Bytes → Result Bytes
read_checked len none = err
read_checked len (some b) = if length (take (len + 1) b) == len then ok (take (len + 1) b) else err

unfoldable pub read_spooled : SpooledFile → Result Bytes
unfolding read_checked
read_spooled spooled =
    if ltb max_payload_bytes spooled.len then err else read_checked spooled.len spooled.file

-- What `insert_with_hash` does with the outcome of `upsert_record`.
unfoldable pub cached :
    Written → Bytes → Text → Files → Store × Result UpsertOutcome → ClipboardDb × InsertResult
unfolding store remove_many
cached written payload hash fs (s, err) = (record { tables = s; cache = fs }, err)
cached written payload hash fs (s, ok outcome) =
    let fs' = if outcome.is_image then (store written hash payload fs).0 else fs in
    elim outcome.real_id [
      | none ↦ (record { tables = s; cache = fs }, ok none)
      | some id ↦
          (record { tables = s; cache = remove_many outcome.expired_hashes fs' }, ok (some id))
    ]

unfoldable pub insert_with_hash :
    Host → Bool → Written → ℕ → Text → Bytes → Text → ℕ → ClipboardDb → ClipboardDb × InsertResult
unfolding cached upsert_record
insert_with_hash host commits written ts mime payload hash max_history db =
    cached written payload hash db.cache
      (upsert_record host commits ts mime payload hash max_history db.tables)

-- What `insert_spooled` does with the outcome of `upsert_detached`: a file that this call placed is
-- taken out again if the row did not commit.
unfoldable pub settled :
    Adoption → Text → Files → Store × Result UpsertOutcome → ClipboardDb × InsertResult
unfolding remove remove_many
settled placed hash fs (s, err) = (record { tables = s; cache = remove hash fs }, err)
settled present hash fs (s, err) = (record { tables = s; cache = fs }, err)
settled adoption hash fs (s, ok outcome) =
    (record { tables = s; cache = remove_many outcome.expired_hashes fs }, ok outcome.real_id)

-- The bytes of the spool file, where `adopt` moves it.
abbrev pub spool_bytes : SpooledFile → Bytes
spool_bytes spooled = elim spooled.file [ some b ↦ b | none ↦ [] ]

abbrev pub adopted :
    Host
    → Bool
    → ℕ
    → Text
    → ℕ
    → Text
    → ℕ
    → Store
    → Files × Result Adoption
    → ClipboardDb × InsertResult
adopted host commits ts mime len hash max_history s (fs, err) =
    (record { tables = s; cache = fs }, err)
adopted host commits ts mime len hash max_history s (fs, ok adoption) =
    settled adoption hash fs (upsert_detached host commits ts mime len hash max_history s)

abbrev pub loaded :
    Host
    → Bool
    → Written
    → ℕ
    → Text
    → Text
    → ℕ
    → ClipboardDb
    → Result Bytes
    → ClipboardDb × InsertResult
loaded host commits written ts mime hash max_history db err = (db, err)
loaded host commits written ts mime hash max_history db (ok payload) =
    insert_with_hash host commits written ts mime payload hash max_history db

unfoldable pub insert_spooled :
    Host
    → Bool
    → Written
    → Moved
    → ℕ
    → Text
    → SpooledFile
    → ℕ
    → ClipboardDb
    → ClipboardDb × InsertResult
unfolding read_spooled settled insert_with_hash adopt upsert_detached
insert_spooled host commits written moved ts mime spooled max_history db =
    if is_skipped mime spooled.len
    then (db, ok none)
    else if not (is_detachable mime)
    then loaded host commits written ts mime spooled.hex_digest max_history db
        (read_spooled spooled)
    else adopted host commits ts mime spooled.len spooled.hex_digest max_history db.tables
        (adopt moved spooled.hex_digest (spool_bytes spooled) db.cache)

-- `get_content_by_id`, from the row's answer on.
abbrev pub from_cache : Text → Option Bytes → Option (Text × Bytes)
from_cache mime none = none
from_cache mime (some b) = some (mime, b)

abbrev pub with_cache : Files → Option (Text × Option Bytes × Text) → Option (Text × Bytes)
with_cache fs none = none
with_cache fs (some (mime, some b, hash)) = some (mime, b)
with_cache fs (some (mime, none, hash)) = from_cache mime (read hash fs)

unfoldable pub get_content_by_id : ℕ → ClipboardDb → Option (Text × Bytes)
unfolding get_row_content read
get_content_by_id id db = with_cache db.cache (get_row_content id db.tables)

-- A cache file is known by its hash.
pub data ContentLocation : Type 0 where
  inline_blob : ℕ → ContentLocation
  cache_file : Text → ContentLocation

abbrev pub place_of : ℕ → Option (Text × Bool × Text) → Option (Text × ContentLocation)
place_of id none = none
place_of id (some (mime, true, hash)) = some (mime, inline_blob id)
place_of id (some (mime, false, hash)) = some (mime, cache_file hash)

unfoldable pub locate_content : ℕ → ClipboardDb → Option (Text × ContentLocation)
unfolding get_row_location
locate_content id db = place_of id (get_row_location id db.tables)

abbrev pub uncached : Files → Store × Result (Bool × Option Text) → ClipboardDb × Result Bool
uncached fs (s, err) = (record { tables = s; cache = fs }, err)
uncached fs (s, ok (deleted, none)) = (record { tables = s; cache = fs }, ok deleted)
uncached fs (s, ok (deleted, some h)) = (record { tables = s; cache = remove h fs }, ok deleted)

unfoldable pub delete_by_id : Bool → ℕ → ClipboardDb → ClipboardDb × Result Bool
unfolding remove y4p.Storage.Queries.delete_by_id
delete_by_id commits id db = uncached db.cache (Queries.delete_by_id commits id db.tables)

abbrev pub cleared : Files → Store × Result (Unit {0}) → Files → ClipboardDb × Result (Unit {0})
cleared fs (s, err) fs' = (record { tables = s; cache = fs }, err)
cleared fs (s, ok tt) fs' = (record { tables = s; cache = fs' }, ok tt)

-- The end of `FileCache::clear` is not looked at; giving memory back has no effect on the state.
unfoldable pub wipe :
    Bool → Bool → Bool → (Text → Bool) → ClipboardDb → ClipboardDb × Result (Unit {0})
unfolding clear y4p.Storage.Queries.wipe
wipe commits removed recreated left db =
    cleared db.cache (Queries.wipe commits db.tables) (clear removed recreated left db.cache).0
