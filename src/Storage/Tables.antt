-- ===== src/Storage/Tables.antt =====
-- The tables of crates/storage/src/schema.rs (version 4) and the statements of
-- crates/storage/src/db.rs on `chunks` and `manifest`. SQLite itself is not modelled: a table is a
-- list of rows, and a statement is what its text says of them.
use y4p.Prelude.{
  ℕ, ◌+◌, ◌-◌, Bool, true, false, ◌&&◌, Option, none, some, List, [], ◌∷◌, ◌++◌, ltb, leb, ◌==◌,
  if◌then◌else◌,
}
use y4p.Core.Text.{Text, Bytes, list_eq}

-- The `content` column: NULL, TEXT or BLOB storage class.
pub data Column : Type 0 where
  null : Column
  text_class : Bytes → Column
  blob_class : Bytes → Column

pub record Row : Type 0 where
  pub id : ℕ
  pub timestamp : ℕ
  pub mime : Text
  pub size : ℕ
  pub preview : Option Text
  pub content : Column
  pub hash : Option Text
  pub is_pinned : Bool
  pub is_chunked : Bool

pub record Chunk : Type 0 where
  pub hash : Bytes
  pub bytes : Bytes
  pub refcount : ℕ

pub record Link : Type 0 where
  pub clipboard_id : ℕ
  pub seq : ℕ
  pub chunk_hash : Bytes

pub record Store : Type 0 where
  pub clipboard : List Row
  pub chunks : List Chunk
  pub manifest : List Link
  pub last_id : ℕ  -- the AUTOINCREMENT counter

-- UPDATE chunks SET refcount = refcount + 1 WHERE hash = ?1
unfoldable pub reuse : Bytes → List Chunk → List Chunk
reuse h [] = []
reuse h (c ∷ cs) =
    (if list_eq c.hash h then record c { refcount = c.refcount + 1 } else c) ∷ reuse h cs

-- Whether that statement changed a row.
unfoldable pub has_chunk : Bytes → List Chunk → Bool
has_chunk h [] = false
has_chunk h (c ∷ cs) = if list_eq c.hash h then true else has_chunk h cs

-- INSERT INTO chunks (hash, data, refcount) VALUES (?1, ?2, 1)
unfoldable pub add_chunk : Bytes → Bytes → List Chunk → List Chunk
add_chunk h bytes cs = cs ++ record { hash = h; bytes = bytes; refcount = 1 } ∷ []

-- INSERT INTO manifest (clipboard_id, seq, chunk_hash) VALUES (?1, ?2, ?3)
unfoldable pub link_chunk : ℕ → ℕ → Bytes → List Link → List Link
link_chunk id seq h ls = ls ++ record { clipboard_id = id; seq = seq; chunk_hash = h } ∷ []

-- SELECT COUNT(*) FROM manifest m WHERE m.clipboard_id = ?1 AND m.chunk_hash = h
unfoldable pub links_of : ℕ → Bytes → List Link → ℕ
links_of id h [] = 0
links_of id h (l ∷ ls) =
    (if l.clipboard_id == id && list_eq l.chunk_hash h then 1 else 0) + links_of id h ls

-- The first statement of `release_chunks`: the rows whose hash the manifest of `id` names are those
-- with a positive count. On these the difference is exact, see `Storage.Chunked`.
unfoldable pub unreference : ℕ → List Link → List Chunk → List Chunk
unreference id ls [] = []
unreference id ls (c ∷ cs) =
    (if ltb 0 (links_of id c.hash ls)
      then record c { refcount = c.refcount - links_of id c.hash ls }
      else c)
    ∷ unreference id ls cs

-- The second: DELETE FROM chunks WHERE refcount <= 0 AND hash IN (...)
unfoldable pub sweep_chunks : ℕ → List Link → List Chunk → List Chunk
sweep_chunks id ls [] = []
sweep_chunks id ls (c ∷ cs) =
    if c.refcount == 0 && ltb 0 (links_of id c.hash ls)
    then sweep_chunks id ls cs
    else c ∷ sweep_chunks id ls cs

-- The third: DELETE FROM manifest WHERE clipboard_id = ?1
unfoldable pub delete_links : ℕ → List Link → List Link
delete_links id [] = []
delete_links id (l ∷ ls) =
    if l.clipboard_id == id then delete_links id ls else l ∷ delete_links id ls

-- SELECT ... FROM manifest m WHERE m.clipboard_id = ?1
unfoldable pub links : ℕ → List Link → List Link
links id [] = []
links id (l ∷ ls) = if l.clipboard_id == id then l ∷ links id ls else links id ls

unfoldable pub insert_by_seq : Link → List Link → List Link
insert_by_seq l [] = l ∷ []
insert_by_seq l (k ∷ ks) = if leb l.seq k.seq then l ∷ k ∷ ks else k ∷ insert_by_seq l ks

-- ORDER BY m.seq
unfoldable pub order_by_seq : List Link → List Link
unfolding insert_by_seq
order_by_seq [] = []
order_by_seq (l ∷ ls) = insert_by_seq l (order_by_seq ls)

-- The chunk that a link joins: `hash` is the primary key of `chunks`.
unfoldable pub chunk_data : Bytes → List Chunk → Option Bytes
chunk_data h [] = none
chunk_data h (c ∷ cs) = if list_eq c.hash h then some c.bytes else chunk_data h cs

-- An inner join leaves out a link that meets no chunk.
unfoldable pub push_row : Option Bytes → List Bytes → List Bytes
push_row (some d) rows = d ∷ rows
push_row none rows = rows

-- FROM manifest m JOIN chunks ch ON ch.hash = m.chunk_hash, from the links on.
unfoldable pub join_chunks : List Chunk → List Link → List Bytes
join_chunks cs [] = []
join_chunks cs (l ∷ ls) = push_row (chunk_data l.chunk_hash cs) (join_chunks cs ls)
