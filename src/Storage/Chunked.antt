-- ===== src/Storage/Chunked.antt =====
-- Chunk storage of crates/storage/src/db.rs: `store_chunks`, `release_chunks` and `reassemble`.
-- SHA3-256 is not part of the repository: `digest` is a parameter.
pub mod Counts
pub mod Release
pub mod Contents
pub mod Reading
use y4p.Prelude.{
  ℕ, zero, suc, ◌+◌, Bool, true, false, Option, none, some, List, [], ◌∷◌, ◌++◌, ltb, ◌==◌,
  if◌then◌else◌, length,
}
use y4p.Core.Text.{Bytes}
use y4p.Core.Cdc.{chunks}
use y4p.Storage.Tables.{
  Chunk, Link, Store, reuse, has_chunk, add_chunk, link_chunk, unreference, sweep_chunks,
  delete_links, links, order_by_seq, join_chunks,
}

-- The body of the loop of `store_chunks`.
unfoldable pub store_chunk : (Bytes → Bytes) → ℕ → ℕ → Bytes → Store → Store
store_chunk digest id seq chunk s =
    let h = digest chunk in
    record s {
      chunks = if has_chunk h s.chunks then reuse h s.chunks else add_chunk h chunk s.chunks;
      manifest = link_chunk id seq h s.manifest;
    }

-- The loop, from the sequence number reached.
unfoldable pub store_from : (Bytes → Bytes) → ℕ → ℕ → List Bytes → Store → Store
unfolding store_chunk
store_from digest id seq [] s = s
store_from digest id seq (c ∷ cs) s =
    store_from digest id (seq + 1) cs (store_chunk digest id seq c s)

unfoldable pub store_chunks : (Bytes → Bytes) → ℕ → Bytes → Store → Store
unfolding store_from
store_chunks digest id bytes s = store_from digest id 0 (chunks bytes) s

unfoldable pub release_chunks : ℕ → Store → Store
release_chunks id s = record s {
  chunks = sweep_chunks id s.manifest (unreference id s.manifest s.chunks);
  manifest = delete_links id s.manifest;
}

-- The loop over the rows of the join, and the check behind it.
unfoldable pub gather : ℕ → Bytes → List Bytes → Option Bytes
gather expected out [] = if length out == expected then some out else none
gather expected out (d ∷ ds) =
    let rest = gather expected (out ++ d) ds in
    if ltb expected (length (out ++ d)) then none else rest

unfoldable pub reassemble : ℕ → ℕ → Store → Option Bytes
unfolding gather
reassemble id size s = gather size [] (join_chunks s.chunks (order_by_seq (links id s.manifest)))
