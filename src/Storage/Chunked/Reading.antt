-- ===== src/Storage/Chunked/Reading.antt =====
-- `reassemble` of crates/storage/src/db.rs against `store_chunks` and `release_chunks`.
use mathlib.Core.List.{flatten}
use y4p.Prelude.{
  ℕ, ◌<◌, ◌≡◌, ◌≢◌, refl, sym, ◌∙◌, ap, subst, List, [], ◌∷◌, ◌++◌, arith, ◌==◌, All, All-map,
  Bool-cases, inl, inr, some, length, length-append, append_assoc, append-nil, leb,
}
use y4p.Core.Text.{Bytes, list_eq, list_eq_refl}
use y4p.Core.Cdc.{chunks}
use y4p.Core.Cdc.Chunks.{flatten-chunks}
use y4p.Storage.Tables.{
  Chunk, Link, Store, sweep_chunks, unreference, delete_links, links, chunk_data, join_chunks,
  push_row, order_by_seq, insert_by_seq,
}
use y4p.Storage.Chunked.{store_from, store_chunks, release_chunks, gather, reassemble}
use y4p.Storage.Chunked.Counts.{refs, uses, Counted}
use y4p.Storage.Chunked.Release.{uses-delete_links, chunk_data-release}
use y4p.Storage.Chunked.Contents.{
  chunk_data-store_from, manifest-store_from, numbered, links-numbered, links_other-numbered,
  order_by_seq-numbered, join_chunks-store_from,
}

gather-flatten :
    (expected : ℕ) (out : Bytes) (ds : List Bytes)
    → length (out ++ flatten ds) ≡ expected
    → gather expected out ds ≡ some (out ++ flatten ds)
unfolding gather flatten
gather-flatten expected out [] e = ground (arith, append-nil out)
gather-flatten expected out (d ∷ ds) e =
    let k = ap length (append_assoc out d (flatten ds)) in
    let l = length-append (out ++ d) (flatten ds) in
    let r = gather-flatten expected (out ++ d) ds (k ∙ e) in
    ground (arith, r, k, append_assoc out d (flatten ds))

links-append : (id : ℕ) (xs ys : List Link) → links id (xs ++ ys) ≡ links id xs ++ links id ys
unfolding links
links-append id [] ys = refl
links-append id (x ∷ xs) ys = ground (arith, links-append id xs ys)

-- The bytes of a payload just stored under a row with no chunks are read back whole.
pub reassemble-store_chunks :
    (digest : Bytes → Bytes) (id : ℕ) (bytes : Bytes) (s : Store)
    → ((a b : Bytes) → digest a ≡ digest b → a ≡ b)
    → Counted digest s
    → links id s.manifest ≡ []
    → reassemble id (length bytes) (store_chunks digest id bytes s) ≡ some bytes
unfolding reassemble store_chunks
reassemble-store_chunks digest id bytes s injective v fresh =
    let s' = store_from digest id 0 (chunks bytes) s in
    let own : links id s'.manifest ≡ numbered digest id 0 (chunks bytes) =
      ap (links id) (manifest-store_from digest id 0 (chunks bytes) s)
      ∙ links-append id s.manifest (numbered digest id 0 (chunks bytes))
      ∙ ap (λ t. t ++ links id (numbered digest id 0 (chunks bytes))) fresh
      ∙ links-numbered digest id 0 (chunks bytes) in
    let rows : join_chunks s'.chunks (order_by_seq (links id s'.manifest)) ≡ chunks bytes =
      ap (λ t. join_chunks s'.chunks (order_by_seq t)) own
      ∙ ap (join_chunks s'.chunks) (order_by_seq-numbered digest id 0 (chunks bytes))
      ∙ join_chunks-store_from digest id injective 0 (chunks bytes) s v in
    ap (gather (length bytes) []) rows
    ∙ gather-flatten (length bytes) [] (chunks bytes) (ap length (flatten-chunks bytes))
    ∙ ap some (flatten-chunks bytes)

-- Rows join the same chunks in two tables that agree on their hashes.
join_chunks-agree :
    (cs cs' : List Chunk) (ls : List Link)
    → All (λ l. chunk_data l.chunk_hash cs' ≡ chunk_data l.chunk_hash cs) ls
    → join_chunks cs' ls ≡ join_chunks cs ls
unfolding join_chunks
join_chunks-agree cs cs' [] h = refl
join_chunks-agree cs cs' (l ∷ ls) h =
    ap (λ t. push_row t (join_chunks cs' ls)) h.0
    ∙ ap (push_row (chunk_data l.chunk_hash cs)) (join_chunks-agree cs cs' ls h.1)

module _ {ℓ} (P : Link → Type ℓ) where
  All-links : (id : ℕ) (ls : List Link) → All P ls → All P (links id ls)
  unfolding links
  All-links id [] h = tt
  All-links id (l ∷ ls) h = elim (Bool-cases (l.clipboard_id == id)) [
    | inl t ↦ rw t (h.0, All-links id ls h.1)
    | inr t ↦ rw t (All-links id ls h.1)
  ]

All-uses : (ls : List Link) → All (λ l. 0 < uses l.chunk_hash ls) ls
All-uses [] = tt
All-uses (l ∷ ls) =
    (ground (arith, list_eq_refl l.chunk_hash), All-map (λ k h. omega arith) ls (All-uses ls))

module _ {ℓ} (P : Link → Type ℓ) where
  All-insert_by_seq : (l : Link) (ls : List Link) → P l → All P ls → All P (insert_by_seq l ls)
  unfolding insert_by_seq
  All-insert_by_seq l [] p h = (p, tt)
  All-insert_by_seq l (k ∷ ks) p h = elim (Bool-cases (leb l.seq k.seq)) [
    | inl t ↦ rw t (p, h)
    | inr t ↦ rw t (h.0, All-insert_by_seq l ks p h.1)
  ]

module _ {ℓ} (P : Link → Type ℓ) where
  All-order_by_seq : (ls : List Link) → All P ls → All P (order_by_seq ls)
  unfolding order_by_seq
  All-order_by_seq [] h = tt
  All-order_by_seq (l ∷ ls) h =
      All-insert_by_seq P l (order_by_seq ls) h.0 (All-order_by_seq ls h.1)

chunk_data-refs :
    (k : Bytes) (cs : List Chunk) → 0 < refs k cs → (e : Bytes) × (chunk_data k cs ≡ some e)
unfolding chunk_data
chunk_data-refs k [] h = absurd (omega arith)
chunk_data-refs k (c ∷ cs) h = elim (Bool-cases (list_eq c.hash k)) [
  | inl t ↦ (c.bytes, rw t)
  | inr t ↦ let r = chunk_data-refs k cs (ground (arith, h, t)) in (r.0, rw t r.1)
]

-- Two stores with the same entries for a row, whose chunks agree on these, read it alike.
reassemble-agree :
    (id size : ℕ) (s s' : Store)
    → links id s'.manifest ≡ links id s.manifest
    → All
        (λ l. chunk_data l.chunk_hash s'.chunks ≡ chunk_data l.chunk_hash s.chunks)
        (links id s.manifest)
    → reassemble id size s' ≡ reassemble id size s
unfolding reassemble
reassemble-agree id size s s' same agree =
    let P = λ (l : Link). chunk_data l.chunk_hash s'.chunks ≡ chunk_data l.chunk_hash s.chunks in
    ap (λ t. gather size [] (join_chunks s'.chunks (order_by_seq t))) same
    ∙ ap (gather size []) (
        join_chunks-agree s.chunks s'.chunks (order_by_seq (links id s.manifest))
          (All-order_by_seq P (links id s.manifest) agree))

pub links-store_other :
    (digest : Bytes → Bytes) (id other : ℕ) (bytes : Bytes) (s : Store)
    → id ≢ other
    → links other (store_chunks digest id bytes s).manifest ≡ links other s.manifest
unfolding store_chunks
links-store_other digest id other bytes s n =
    ap (links other) (manifest-store_from digest id 0 (chunks bytes) s)
    ∙ links-append other s.manifest (numbered digest id 0 (chunks bytes))
    ∙ ap (◌++◌ (links other s.manifest)) (links_other-numbered digest id other 0 (chunks bytes) n)
    ∙ append-nil (links other s.manifest)

-- Storing the chunks of one row changes nothing that is read from another.
pub reassemble-store_other :
    (digest : Bytes → Bytes) (id other size : ℕ) (bytes : Bytes) (s : Store)
    → id ≢ other
    → Counted digest s
    → reassemble other size (store_chunks digest id bytes s) ≡ reassemble other size s
unfolding store_chunks
reassemble-store_other digest id other size bytes s n v =
    let s' = store_from digest id 0 (chunks bytes) s in
    reassemble-agree other size s s' (links-store_other digest id other bytes s n) (
      All-map kept (links other s.manifest)
        (All-links (λ l. 0 < uses l.chunk_hash s.manifest) other s.manifest (All-uses s.manifest)))
  where
    kept :
        (l : Link)
        → 0 < uses l.chunk_hash s.manifest
        → chunk_data l.chunk_hash (store_from digest id 0 (chunks bytes) s).chunks
          ≡ chunk_data l.chunk_hash s.chunks
    kept l h =
        let r = chunk_data-refs l.chunk_hash s.chunks (omega (arith, v.exact l.chunk_hash)) in
        chunk_data-store_from digest id 0 (chunks bytes) l.chunk_hash r.0 s r.1 ∙ sym r.1

pub links-delete_links :
    (id other : ℕ) (ls : List Link) → id ≢ other → links other (delete_links id ls) ≡ links other ls
unfolding links delete_links
links-delete_links id other [] n = refl
links-delete_links id other (l ∷ ls) n = ground (arith, links-delete_links id other ls n)

pub links-delete_self : (id : ℕ) (ls : List Link) → links id (delete_links id ls) ≡ []
unfolding links delete_links
links-delete_self id [] = refl
links-delete_self id (l ∷ ls) = ground (arith, links-delete_self id ls)

-- Releasing the chunks of one row changes nothing that is read from another.
pub reassemble-release_other :
    (digest : Bytes → Bytes) (id other size : ℕ) (s : Store)
    → id ≢ other
    → Counted digest s
    → reassemble other size (release_chunks id s) ≡ reassemble other size s
unfolding release_chunks
reassemble-release_other digest id other size s n v =
    reassemble-agree other size s _ (links-delete_links id other s.manifest n) (
      subst (All _) (links-delete_links id other s.manifest n) (
        All-map kept (links other (delete_links id s.manifest)) (
          All-links (λ l. 0 < uses l.chunk_hash (delete_links id s.manifest)) other
            (delete_links id s.manifest) (All-uses (delete_links id s.manifest)))))
  where
    kept :
        (l : Link)
        → 0 < uses l.chunk_hash (delete_links id s.manifest)
        → chunk_data l.chunk_hash (sweep_chunks id s.manifest (unreference id s.manifest s.chunks))
          ≡ chunk_data l.chunk_hash s.chunks
    kept l h =
        chunk_data-release id s.manifest l.chunk_hash s.chunks (v.unique l.chunk_hash)
          (omega (arith, v.exact l.chunk_hash, uses-delete_links id l.chunk_hash s.manifest))
