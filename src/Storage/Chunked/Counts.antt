-- ===== src/Storage/Chunked/Counts.antt =====
-- Reference counts of crates/storage/src/db.rs: the invariants that its test probe `chunk_usage`
-- checks, and more.
use y4p.Prelude.{
  ℕ, ◌+◌, ◌≤◌, ◌<◌, ◌≡◌, refl, sym, subst, true, false, List, [], ◌∷◌, arith, if◌then◌else◌, All,
  Bool-cases, inl, inr,
}
use y4p.Core.Text.{Bytes, list_eq, list_eq_sound, list_eq_refl}
use y4p.Core.Cdc.{chunks}
use y4p.Storage.Tables.{Chunk, Link, Store, reuse, has_chunk, add_chunk, link_chunk}
use y4p.Storage.Chunked.{store_chunk, store_from, store_chunks}

-- The references that the chunks with hash `h` are counted for, and those of the manifest.
abbrev pub refs : Bytes → List Chunk → ℕ
refs h [] = 0
refs h (c ∷ cs) = (if list_eq c.hash h then c.refcount else 0) + refs h cs

abbrev pub uses : Bytes → List Link → ℕ
uses h [] = 0
uses h (l ∷ ls) = (if list_eq l.chunk_hash h then 1 else 0) + uses h ls

-- How many chunks have the hash `h`.
abbrev pub copies : Bytes → List Chunk → ℕ
copies h [] = 0
copies h (c ∷ cs) = (if list_eq c.hash h then 1 else 0) + copies h cs

-- What a digest collision would break, the chunk under a hash being the one that has it.
abbrev pub IsNamed : (Bytes → Bytes) → Chunk → Type 0
IsNamed digest c = (c.hash ≡ digest c.bytes) × (0 < c.refcount)

-- Every count is exact, no chunk is unreferenced, no entry dangles, no hash occurs twice, and every
-- chunk is stored under its own digest.
pub record Counted (digest : Bytes → Bytes) (s : Store) : Type 0 where
  pub exact : (h : Bytes) → refs h s.chunks ≡ uses h s.manifest
  pub unique : (h : Bytes) → copies h s.chunks ≤ 1
  pub named : All (IsNamed digest) s.chunks

refs-reuse :
    (h k : Bytes) (cs : List Chunk)
    → refs k (reuse h cs) ≡ refs k cs + (if list_eq h k then copies h cs else 0)
unfolding reuse
refs-reuse h k [] = ground arith
refs-reuse h k (c ∷ cs) =
    ground
      (arith, refs-reuse h k cs, list_eq_sound c.hash h, list_eq_sound c.hash k, list_eq_refl k)

refs-add_chunk :
    (h k d : Bytes) (cs : List Chunk)
    → refs k (add_chunk h d cs) ≡ refs k cs + (if list_eq h k then 1 else 0)
unfolding add_chunk
refs-add_chunk h k d [] = ground arith
refs-add_chunk h k d (c ∷ cs) = omega (arith, refs-add_chunk h k d cs)

copies-add_chunk :
    (h k d : Bytes) (cs : List Chunk)
    → copies k (add_chunk h d cs) ≡ copies k cs + (if list_eq h k then 1 else 0)
unfolding add_chunk
copies-add_chunk h k d [] = ground arith
copies-add_chunk h k d (c ∷ cs) = omega (arith, copies-add_chunk h k d cs)

copies-reuse : (h k : Bytes) (cs : List Chunk) → copies k (reuse h cs) ≡ copies k cs
unfolding reuse
copies-reuse h k [] = refl
copies-reuse h k (c ∷ cs) = ground (arith, copies-reuse h k cs)

copies-has : (h : Bytes) (cs : List Chunk) → has_chunk h cs ≡ true → 0 < copies h cs
unfolding has_chunk
copies-has h [] e = cc
copies-has h (c ∷ cs) e = ground (arith, copies-has h cs)

copies-has_not : (h : Bytes) (cs : List Chunk) → has_chunk h cs ≡ false → copies h cs ≡ 0
unfolding has_chunk
copies-has_not h [] e = refl
copies-has_not h (c ∷ cs) e = ground (arith, copies-has_not h cs)

pub refs-copies : (h : Bytes) (cs : List Chunk) → copies h cs ≡ 0 → refs h cs ≡ 0
refs-copies h [] e = refl
refs-copies h (c ∷ cs) e = ground (arith, refs-copies h cs)

uses-link_chunk :
    (id seq : ℕ) (h k : Bytes) (ls : List Link)
    → uses k (link_chunk id seq h ls) ≡ uses k ls + (if list_eq h k then 1 else 0)
unfolding link_chunk
uses-link_chunk id seq h k [] = ground arith
uses-link_chunk id seq h k (l ∷ ls) = omega (arith, uses-link_chunk id seq h k ls)

IsNamed-reuse :
    (digest : Bytes → Bytes) (h : Bytes) (cs : List Chunk)
    → All (IsNamed digest) cs
    → All (IsNamed digest) (reuse h cs)
unfolding reuse
IsNamed-reuse digest h [] v = tt
IsNamed-reuse digest h (c ∷ cs) v = ground (arith, IsNamed-reuse digest h cs v.1)

IsNamed-add_chunk :
    (digest : Bytes → Bytes) (d : Bytes) (cs : List Chunk)
    → All (IsNamed digest) cs
    → All (IsNamed digest) (add_chunk (digest d) d cs)
unfolding add_chunk
IsNamed-add_chunk digest d [] v = ((refl, omega arith), tt)
IsNamed-add_chunk digest d (c ∷ cs) v = (v.0, IsNamed-add_chunk digest d cs v.1)

pub store_chunk-Counted :
    (digest : Bytes → Bytes) (id seq : ℕ) (d : Bytes) (s : Store)
    → Counted digest s
    → Counted digest (store_chunk digest id seq d s)
unfolding store_chunk
store_chunk-Counted digest id seq d s v = elim (Bool-cases (has_chunk (digest d) s.chunks)) [
  | inl e ↦ rw e (record {
    exact = λ k. again k e;
    unique = λ k. subst (λ n. n ≤ 1) (sym (copies-reuse (digest d) k s.chunks)) (v.unique k);
    named = IsNamed-reuse digest (digest d) s.chunks v.named;
  })
  | inr e ↦ rw e (record {
    exact = λ k. ground (
      arith,
      v.exact k,
      refs-add_chunk (digest d) k d s.chunks,
      uses-link_chunk id seq (digest d) k s.manifest,
    );
    unique = λ k. once k e;
    named = IsNamed-add_chunk digest d s.chunks v.named;
  })
]
  where
    again :
        (k : Bytes)
        → has_chunk (digest d) s.chunks ≡ true
        → refs k (reuse (digest d) s.chunks) ≡ uses k (link_chunk id seq (digest d) s.manifest)
    again k e = ground (
      arith,
      v.exact k,
      v.unique (digest d),
      copies-has (digest d) s.chunks,
      refs-reuse (digest d) k s.chunks,
      uses-link_chunk id seq (digest d) k s.manifest,
    )

    once :
        (k : Bytes)
        → has_chunk (digest d) s.chunks ≡ false
        → copies k (add_chunk (digest d) d s.chunks) ≤ 1
    once k e = ground (
      arith,
      v.unique k,
      copies-has_not (digest d) s.chunks,
      list_eq_sound (digest d) k,
      copies-add_chunk (digest d) k d s.chunks,
    )

store_from-Counted :
    (digest : Bytes → Bytes) (id seq : ℕ) (ds : List Bytes) (s : Store)
    → Counted digest s
    → Counted digest (store_from digest id seq ds s)
unfolding store_from
store_from-Counted digest id seq [] s v = v
store_from-Counted digest id seq (d ∷ ds) s v =
    store_from-Counted digest id (seq + 1) ds (store_chunk digest id seq d s)
      (store_chunk-Counted digest id seq d s v)

pub store_chunks-Counted :
    (digest : Bytes → Bytes) (id : ℕ) (bytes : Bytes) (s : Store)
    → Counted digest s
    → Counted digest (store_chunks digest id bytes s)
unfolding store_chunks
store_chunks-Counted digest id bytes s v = store_from-Counted digest id 0 (chunks bytes) s v
