-- ===== src/Storage/Queries.antt =====
-- crates/storage/src/db.rs: the other statements of `SqliteStore`. `commits` and `ts` are as in
-- `Storage.Db`.
pub mod Valid
pub mod Kept
pub mod Stored
use y4p.Prelude.{
  ℕ, zero, suc, Bool, true, false, ◌&&◌, not, ◌||◌, Option, none, some, List, [], ◌∷◌, ltb, ◌==◌,
  if◌then◌else◌, length, take, map,
}
use y4p.Core.Text.{Text, Bytes}
use y4p.Storage.Tables.{Column, null, text_class, blob_class, Row, Store}
use y4p.Storage.Rows.{Host}
use y4p.Storage.Chunked.{release_chunks, reassemble}
use y4p.Storage.Db.{Result, ok, err, update_row, touch, has_id, delete_rows}

-- SELECT ... FROM clipboard WHERE id = ?1
unfoldable pub find_row : ℕ → List Row → Option Row
find_row id [] = none
find_row id (r ∷ rs) = if r.id == id then some r else find_row id rs

unfoldable pub inline_content : Column → Option Bytes
inline_content null = none
inline_content (text_class b) = some b
inline_content (blob_class b) = some b

-- The tuple that `get_row_content` returns; reading a NULL `hash` as `String` is an error.
abbrev content_tuple : Text → Option Bytes → Option Text → Option (Text × Option Bytes × Text)
content_tuple mime content none = none
content_tuple mime content (some h) = some (mime, content, h)

abbrev chunked_tuple : Text → Option Bytes → Option Text → Option (Text × Option Bytes × Text)
chunked_tuple mime none h = none
chunked_tuple mime (some b) h = content_tuple mime (some b) h

unfoldable pub row_content : Store → Row → Option (Text × Option Bytes × Text)
unfolding inline_content
row_content s r =
    if r.is_chunked
    then chunked_tuple r.mime (reassemble r.id r.size s) r.hash
    else content_tuple r.mime (inline_content r.content) r.hash

unfoldable pub get_row_content : ℕ → Store → Option (Text × Option Bytes × Text)
unfolding find_row row_content
get_row_content id s = elim (find_row id s.clipboard) [ none ↦ none | some r ↦ row_content s r ]

abbrev has_content : Column → Bool
has_content null = false
has_content (text_class b) = true
has_content (blob_class b) = true

abbrev location_tuple : Text → Bool → Option Text → Option (Text × Bool × Text)
location_tuple mime inline none = none
location_tuple mime inline (some h) = some (mime, inline, h)

unfoldable pub get_row_location : ℕ → Store → Option (Text × Bool × Text)
unfolding find_row
get_row_location id s = elim (find_row id s.clipboard) [
  | none ↦ none
  | some r ↦ location_tuple r.mime (has_content r.content || r.is_chunked) r.hash
]

-- LIMIT ?1, a `usize` as i64: SQLite reads a negative limit as none.
unfoldable pub limit_to : ℕ → List Row → List Row
limit_to limit rows = if ltb limit 9223372036854775808 then take limit rows else rows

abbrev pub MetaRow : Type 0
MetaRow = ℕ × ℕ × Text × ℕ × Option Text × Bool

abbrev pub meta : Row → MetaRow
meta r = (r.id, r.timestamp, r.mime, r.size, r.preview, r.is_pinned)

unfoldable pub fetch_metadata : Host → ℕ → Store → List MetaRow
unfolding limit_to
fetch_metadata host limit s = map meta (limit_to limit (host.newest s.clipboard))

unfoldable pub update_timestamp : ℕ → ℕ → Store → Store
unfolding update_row touch
update_timestamp ts id s = record s { clipboard = update_row id (touch ts) s.clipboard }

-- `unwrap_or((None, false))`.
abbrev hash_and_class : Option Row → Option Text × Bool
hash_and_class none = (none, false)
hash_and_class (some r) = (r.hash, r.is_chunked)

unfoldable pub delete_id : ℕ → List Row → List Row
delete_id id [] = []
delete_id id (r ∷ rs) = if r.id == id then delete_id id rs else r ∷ delete_id id rs

-- The release that a chunked row needs first.
abbrev pub freed : ℕ → Option Row → Store → Store
freed id o s = if (hash_and_class o).1 then release_chunks id s else s

unfoldable pub delete_by_id : Bool → ℕ → Store → Store × Result (Bool × Option Text)
unfolding find_row delete_id
delete_by_id commits id s =
    let found = find_row id s.clipboard in
    let s' = freed id found s in
    if commits
    then (
      record s' { clipboard = delete_id id s'.clipboard },
      ok (has_id id s'.clipboard, (hash_and_class found).0),
    )
    else (s, err)

unfoldable pub wipe : Bool → Store → Store × Result (Unit {0})
wipe commits s =
    if commits then (record s { clipboard = []; chunks = []; manifest = [] }, ok tt) else (s, err)

unfoldable pub pin_row : Bool → Row → Row
pin_row is_pinned r = record r { is_pinned = is_pinned }

unfoldable pub set_pinned : Bool → ℕ → Bool → Store → Store × Result Bool
unfolding update_row pin_row
set_pinned commits id is_pinned s =
    if commits
    then (
      record s { clipboard = update_row id (pin_row is_pinned) s.clipboard },
      ok (has_id id s.clipboard),
    )
    else (s, err)

unfoldable pub get_total_count : Store → ℕ
get_total_count s = length s.clipboard
