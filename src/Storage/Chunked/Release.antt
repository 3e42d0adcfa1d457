-- ===== src/Storage/Chunked/Release.antt =====
-- `release_chunks` of crates/storage/src/db.rs.
use y4p.Prelude.{ℕ, ◌+◌, ◌-◌, ◌≤◌, ◌<◌, ◌≡◌, refl, List, [], ◌∷◌, arith, All}
use y4p.Core.Text.{Bytes, list_eq_sound}
use y4p.Storage.Tables.{
  Chunk, Link, Store, links_of, unreference, sweep_chunks, delete_links, chunk_data,
}
use y4p.Storage.Chunked.{release_chunks}
use y4p.Storage.Chunked.Counts.{refs, uses, copies, refs-copies, IsNamed, Counted}

pub uses-delete_links :
    (id : ℕ) (h : Bytes) (ls : List Link)
    → uses h (delete_links id ls) + links_of id h ls ≡ uses h ls
unfolding delete_links links_of
uses-delete_links id h [] = omega arith
uses-delete_links id h (l ∷ ls) = ground (arith, uses-delete_links id h ls)

module _ (id : ℕ) (ls : List Link) where
  refs-unreference :
      (h : Bytes) (cs : List Chunk)
      → copies h cs ≤ 1
      → refs h (unreference id ls cs) ≡ refs h cs - links_of id h ls
  unfolding unreference
  refs-unreference h [] u = omega arith
  refs-unreference h (c ∷ cs) u =
      ground (arith, refs-unreference h cs, list_eq_sound c.hash h, refs-copies h cs)

  refs-sweep_chunks : (h : Bytes) (cs : List Chunk) → refs h (sweep_chunks id ls cs) ≡ refs h cs
  unfolding sweep_chunks
  refs-sweep_chunks h [] = refl
  refs-sweep_chunks h (c ∷ cs) = ground (arith, refs-sweep_chunks h cs)

  copies-release :
      (h : Bytes) (cs : List Chunk)
      → copies h (sweep_chunks id ls (unreference id ls cs)) ≤ copies h cs
  unfolding sweep_chunks unreference
  copies-release h [] = omega arith
  copies-release h (c ∷ cs) = ground (arith, copies-release h cs)

  IsNamed-release :
      (digest : Bytes → Bytes) (cs : List Chunk)
      → All (IsNamed digest) cs
      → All (IsNamed digest) (sweep_chunks id ls (unreference id ls cs))
  unfolding sweep_chunks unreference
  IsNamed-release digest [] v = tt
  IsNamed-release digest (c ∷ cs) v = ground (arith, IsNamed-release digest cs v.1)

  -- A chunk with more references than the row gives back keeps its bytes.
  pub chunk_data-release :
      (k : Bytes) (cs : List Chunk)
      → copies k cs ≤ 1
      → links_of id k ls < refs k cs
      → chunk_data k (sweep_chunks id ls (unreference id ls cs)) ≡ chunk_data k cs
  unfolding sweep_chunks unreference chunk_data
  chunk_data-release k [] u h = absurd (omega arith)
  chunk_data-release k (c ∷ cs) u h =
      ground (arith, chunk_data-release k cs, list_eq_sound c.hash k, refs-copies k cs)

-- Releasing a row's chunks keeps every count exact, and leaves no chunk without a reference.
pub release_chunks-Counted :
    (digest : Bytes → Bytes) (id : ℕ) (s : Store)
    → Counted digest s
    → Counted digest (release_chunks id s)
unfolding release_chunks
release_chunks-Counted digest id s v = record {
  exact = λ h. omega (
    arith,
    refs-sweep_chunks id s.manifest h (unreference id s.manifest s.chunks),
    refs-unreference id s.manifest h s.chunks (v.unique h),
    uses-delete_links id h s.manifest,
    v.exact h,
  );
  unique = λ h. omega (arith, copies-release id s.manifest h s.chunks, v.unique h);
  named = IsNamed-release id s.manifest digest s.chunks v.named;
}
