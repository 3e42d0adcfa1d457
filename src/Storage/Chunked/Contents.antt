-- ===== src/Storage/Chunked/Contents.antt =====
-- What `reassemble` of crates/storage/src/db.rs reads back: after `store_chunks` of the same row,
-- and after chunks of other rows were stored or released.
use y4p.Prelude.{
  ℕ, ◌+◌, ◌≡◌, ◌≢◌, refl, sym, ◌∙◌, ap, true, false, List, [], ◌∷◌, ◌++◌, arith, All, Bool-cases,
  inl, inr, some, append_assoc, append-nil,
}
use y4p.Core.Text.{Bytes, list_eq, list_eq_sound, list_eq_refl}
use y4p.Storage.Tables.{
  Chunk, Link, Store, reuse, has_chunk, add_chunk, link_chunk, links, chunk_data, join_chunks,
  push_row, order_by_seq,
}
use y4p.Storage.Chunked.{store_chunk, store_from}
use y4p.Storage.Chunked.Counts.{IsNamed, Counted, store_chunk-Counted}

-- A chunk that is there keeps its bytes while others are stored.
chunk_data-reuse : (h k : Bytes) (cs : List Chunk) → chunk_data k (reuse h cs) ≡ chunk_data k cs
unfolding reuse chunk_data
chunk_data-reuse h k [] = refl
chunk_data-reuse h k (c ∷ cs) = ground (arith, chunk_data-reuse h k cs)

chunk_data-add_chunk :
    (h k d e : Bytes) (cs : List Chunk)
    → chunk_data k cs ≡ some e
    → chunk_data k (add_chunk h d cs) ≡ some e
unfolding add_chunk chunk_data
chunk_data-add_chunk h k d e [] q = cc
chunk_data-add_chunk h k d e (c ∷ cs) q = ground (arith, chunk_data-add_chunk h k d e cs)

chunk_data-add_self :
    (h d : Bytes) (cs : List Chunk)
    → has_chunk h cs ≡ false
    → chunk_data h (add_chunk h d cs) ≡ some d
unfolding add_chunk chunk_data has_chunk
chunk_data-add_self h d [] q = ground (arith, list_eq_refl h)
chunk_data-add_self h d (c ∷ cs) q = ground (arith, chunk_data-add_self h d cs)

-- A chunk that is there is the one with that digest.
chunk_data-has :
    (digest : Bytes → Bytes) (h : Bytes) (cs : List Chunk)
    → All (IsNamed digest) cs
    → has_chunk h cs ≡ true
    → (e : Bytes) × (chunk_data h cs ≡ some e) × (h ≡ digest e)
unfolding chunk_data has_chunk
chunk_data-has digest h [] v q = cc
chunk_data-has digest h (c ∷ cs) v q = elim (Bool-cases (list_eq c.hash h)) [
  | inl t ↦ (c.bytes, rw t, sym (list_eq_sound c.hash h t) ∙ v.0.0)
  | inr t ↦ let r = chunk_data-has digest h cs v.1 (rw t at q) in (r.0, rw t r.1, r.2)
]

module _ (digest : Bytes → Bytes) (id : ℕ) where
  chunk_data-store_chunk :
      (seq : ℕ) (d k e : Bytes) (s : Store)
      → chunk_data k s.chunks ≡ some e
      → chunk_data k (store_chunk digest id seq d s).chunks ≡ some e
  unfolding store_chunk
  chunk_data-store_chunk seq d k e s q = ground (
    arith,
    chunk_data-reuse (digest d) k s.chunks,
    chunk_data-add_chunk (digest d) k d e s.chunks,
  )

  pub chunk_data-store_from :
      (seq : ℕ) (ds : List Bytes) (k e : Bytes) (s : Store)
      → chunk_data k s.chunks ≡ some e
      → chunk_data k (store_from digest id seq ds s).chunks ≡ some e
  unfolding store_from
  chunk_data-store_from seq [] k e s q = q
  chunk_data-store_from seq (d ∷ ds) k e s q =
      chunk_data-store_from (seq + 1) ds k e _ (chunk_data-store_chunk seq d k e s q)

  -- The manifest entries that the loop writes.
  pub numbered : ℕ → List Bytes → List Link
  numbered seq [] = []
  numbered seq (d ∷ ds) =
      record { clipboard_id = id; seq = seq; chunk_hash = digest d } ∷ numbered (seq + 1) ds

  pub manifest-store_from :
      (seq : ℕ) (ds : List Bytes) (s : Store)
      → (store_from digest id seq ds s).manifest ≡ s.manifest ++ numbered seq ds
  unfolding store_from store_chunk link_chunk numbered
  manifest-store_from seq [] s = sym (append-nil s.manifest)
  manifest-store_from seq (d ∷ ds) s =
      manifest-store_from (seq + 1) ds (store_chunk digest id seq d s)
      ∙ append_assoc s.manifest _ (numbered (seq + 1) ds)

  pub links-numbered : (seq : ℕ) (ds : List Bytes) → links id (numbered seq ds) ≡ numbered seq ds
  unfolding links numbered
  links-numbered seq [] = refl
  links-numbered seq (d ∷ ds) = ground (arith, links-numbered (seq + 1) ds)

  pub links_other-numbered :
      (other seq : ℕ) (ds : List Bytes) → id ≢ other → links other (numbered seq ds) ≡ []
  unfolding links numbered
  links_other-numbered other seq [] n = refl
  links_other-numbered other seq (d ∷ ds) n =
      ground (arith, links_other-numbered other (seq + 1) ds n)

  pub order_by_seq-numbered :
      (seq : ℕ) (ds : List Bytes) → order_by_seq (numbered seq ds) ≡ numbered seq ds
  unfolding order_by_seq numbered
  order_by_seq-numbered seq [] = refl
  order_by_seq-numbered seq (d ∷ []) = refl
  order_by_seq-numbered seq (d ∷ d' ∷ ds) =
      rw (order_by_seq-numbered (seq + 1) (d' ∷ ds)) (ground arith)

  module _ (injective : (a b : Bytes) → digest a ≡ digest b → a ≡ b) where
    chunk_data-store_self :
        (seq : ℕ) (d : Bytes) (s : Store)
        → Counted digest s
        → chunk_data (digest d) (store_chunk digest id seq d s).chunks ≡ some d
    unfolding store_chunk
    chunk_data-store_self seq d s v = elim (Bool-cases (has_chunk (digest d) s.chunks)) [
      | inl q ↦
          let r = chunk_data-has digest (digest d) s.chunks v.named q in
          rw q (
            chunk_data-reuse (digest d) (digest d) s.chunks
            ∙ r.1
            ∙ ap some (sym (injective d r.0 r.2)))
      | inr q ↦ rw q (chunk_data-add_self (digest d) d s.chunks q)
    ]

    pub join_chunks-store_from :
        (seq : ℕ) (ds : List Bytes) (s : Store)
        → Counted digest s
        → join_chunks (store_from digest id seq ds s).chunks (numbered seq ds) ≡ ds
    unfolding store_from join_chunks numbered push_row
    join_chunks-store_from seq [] s v = refl
    join_chunks-store_from seq (d ∷ ds) s v =
        let s' = store_chunk digest id seq d s in
        ap
          (λ t.
            push_row t
              (join_chunks (store_from digest id (seq + 1) ds s').chunks (numbered (seq + 1) ds)))
          (chunk_data-store_from (seq + 1) ds (digest d) d s' (chunk_data-store_self seq d s v))
        ∙ (ap (push_row (some d))
            (join_chunks-store_from (seq + 1) ds s' (store_chunk-Counted digest id seq d s v)))
