-- ===== src/Storage/Queries/Stored.antt =====
-- The round trip through `upsert_record` and `get_row_content` of crates/storage/src/db.rs.
use y4p.Prelude.{
  ℕ, ◌+◌, ◌≡◌, refl, sym, ◌∙◌, ap, subst, Bool, true, false, ◌&&◌, [], ◌∷◌, ◌++◌, arith, ltb, ◌==◌,
  if◌then◌else◌, Bool-cases, inl, inr, Option, some, none, length,
}
use y4p.Core.Text.{Text, Bytes}
use y4p.Core.Mime.{is_text_like_mime}
use y4p.Storage.Tables.{Store, links}
use y4p.Storage.Rows.{
  Host, bytes, Content, text, blob, chunked, no_content, is_cache_class, is_skipped, is_chunkable,
  parts_of, body_len, row_parts, content_of,
}
use y4p.Storage.Chunked.{store_chunks, reassemble}
use y4p.Storage.Chunked.Counts.{Counted}
use y4p.Storage.Chunked.Reading.{reassemble-store_chunks}
use y4p.Storage.Db.{
  UpsertOutcome, ok, hashes, expiring, has_id, rotate, id_of_hash, store_content, new_row,
  insert_row, place, upsert, upsert_record, skipped,
}
use y4p.Storage.Db.Counting.{count_le, IsNewest}
use y4p.Storage.Db.Valid.{Valid}
use y4p.Storage.Db.Upsert.{place-Valid, clipboard-store_content}
use y4p.Storage.Queries.{find_row, row_content, get_row_content, inline_content, chunked_tuple}
use y4p.Storage.Queries.Kept.{
  answer, get_row_content-cases, find_row-append_new, rotate-kept, known_id,
}

-- The bytes that a row keeps of a payload: all of them, unless they go to the file cache.
abbrev kept_bytes : Content → Option Bytes
kept_bytes (text b) = some b
kept_bytes (blob b) = some b
kept_bytes (chunked b) = some b
kept_bytes no_content = none

-- The content that `row_parts` gives is the payload whole, or for an image nothing.
content_of-whole :
    (host : Host) (mime : Text) (payload : Bytes) (is_image : Bool)
    → is_image ≡ false
    → kept_bytes (content_of host mime payload is_image) ≡ some payload
unfolding content_of
content_of-whole host mime payload is_image e =
    elim (Bool-cases (is_chunkable mime (length payload))) [
      | inl t ↦ rw t refl
      | inr t ↦ rw t (elim (Bool-cases (host.is_utf8 payload && is_text_like_mime mime)) [
        | inl u ↦ rw u refl
        | inr u ↦ rw u (rw e refl)
      ])
    ]

-- A row stored with its content reads back what the content keeps.
stored_row :
    (host : Host) (id ts : ℕ) (mime payload hash : Text) (parts : Option Text × Content) (s : Store)
    → ((a b : Bytes) → host.digest a ≡ host.digest b → a ≡ b)
    → Counted host.digest s
    → links id s.manifest ≡ []
    → kept_bytes parts.1 ≡ some payload
    → row_content (store_content host id parts.1 s) (new_row id ts mime (length payload) parts hash)
      ≡ some (mime, some payload, hash)
unfolding row_content store_content new_row inline_content
stored_row host id ts mime payload hash (p, text b) s injective v fresh e =
    ap (λ o. some (mime, o, hash)) e
stored_row host id ts mime payload hash (p, blob b) s injective v fresh e =
    ap (λ o. some (mime, o, hash)) e
stored_row host id ts mime payload hash (p, chunked b) s injective v fresh e =
    let same : b ≡ payload = cc in
    ap (λ o. chunked_tuple mime o (some hash))
      (ap (λ d. reassemble id (length payload) (store_chunks host.digest id d s)) same
        ∙ reassemble-store_chunks host.digest id payload s injective v fresh)
stored_row host id ts mime payload hash (p, no_content) s injective v fresh e = cc

module _ (host : Host) (ts : ℕ) (mime payload hash : Text) (s : Store)
    (injective : (a b : Bytes) → host.digest a ≡ host.digest b → a ≡ b) (v : Valid host.digest s)
    (inline : is_cache_class mime ≡ false) where
  -- No row and no manifest entry has the next id yet.
  next_unused : has_id (s.last_id + 1) s.clipboard ≡ false
  next_unused = elim (Bool-cases (has_id (s.last_id + 1) s.clipboard)) [
    | inr f ↦ f
    | inl t ↦ absurd (known_id host.digest (s.last_id + 1) s v t refl)
  ]

  next_unlinked : links (s.last_id + 1) s.manifest ≡ []
  next_unlinked = v.owned (s.last_id + 1) (
      omega (
        arith,
        v.bound,
        count_le (λ r. r.id == s.last_id + 1 && r.is_chunked) (λ r. ltb s.last_id r.id)
            (λ r h. ground (arith, h)) s.clipboard,
      ))

  read_back :
      get_row_content (s.last_id + 1) (place host ts mime (bytes payload) hash s none).0
      ≡ some (mime, some payload, hash)
  unfolding place insert_row answer parts_of row_parts body_len
  read_back =
      let parts = parts_of host mime (bytes payload) (is_cache_class mime) in
      let row = new_row (s.last_id + 1) ts mime (length payload) parts hash in
      let s' : Store = record s { clipboard = s.clipboard ++ row ∷ []; last_id = s.last_id + 1 } in
      let counted : Counted host.digest s' = record {
        exact = v.counted.exact;
        unique = v.counted.unique;
        named = v.counted.named;
      } in
      get_row_content-cases (s.last_id + 1) (store_content host (s.last_id + 1) parts.1 s')
      ∙ ap (λ o. answer o (row_content (store_content host (s.last_id + 1) parts.1 s')))
          (ap (find_row (s.last_id + 1)) (clipboard-store_content host (s.last_id + 1) parts.1 s')
            ∙ find_row-append_new row s.clipboard next_unused)
      ∙ stored_row host (s.last_id + 1) ts mime payload hash parts s' injective counted
          next_unlinked (content_of-whole host mime payload (is_cache_class mime) inline)

upserted :
    (host : Host) (ts : ℕ) (mime payload hash : Text) (max_history : ℕ) (s : Store)
    → is_skipped mime (length payload) ≡ false
    → id_of_hash hash s.clipboard ≡ none
    → (upsert_record host true ts mime payload hash max_history s).0
      ≡ rotate host max_history (place host ts mime (bytes payload) hash s none).0
unfolding upsert_record upsert
upserted host ts mime payload hash max_history s stored unused =
    ap
      (λ b.
        (if b
          then (s, ok skipped)
          else upsert host true ts mime (bytes payload) hash max_history s).0)
      stored
    ∙ ap (λ o. rotate host max_history (place host ts mime (bytes payload) hash s o).0) unused

-- The id that a new row is answered under.
answered :
    (host : Host) (ts : ℕ) (mime payload hash : Text) (max_history : ℕ) (s : Store)
    → is_skipped mime (length payload) ≡ false
    → id_of_hash hash s.clipboard ≡ none
    → (o : UpsertOutcome) × ((upsert_record host true ts mime payload hash max_history s).1 ≡ ok o)
      × (o.real_id ≡ some (s.last_id + 1))
unfolding upsert_record upsert place
answered host ts mime payload hash max_history s stored unused =
    let placed = (place host ts mime (bytes payload) hash s none).0 in
    let o : UpsertOutcome = record {
      real_id = some (s.last_id + 1);
      is_image = is_cache_class mime;
      expired_hashes = hashes (expiring host max_history placed.clipboard);
    } in
    (o, rw (stored, unused) refl, refl)

-- On tables that meet the invariant, with a digest without collisions: a payload with a new hash
-- that is not skipped and not cache class, once stored, is answered the next id, and is read back
-- whole under it, with its MIME type and hash, unless the rotation evicted it at once.
pub get_row_content-upsert_record :
    (host : Host) (ts : ℕ) (mime payload hash : Text) (max_history : ℕ) (s : Store)
    → IsNewest host.newest
    → ((a b : Bytes) → host.digest a ≡ host.digest b → a ≡ b)
    → Valid host.digest s
    → is_cache_class mime ≡ false
    → is_skipped mime (length payload) ≡ false
    → id_of_hash hash s.clipboard ≡ none
    → has_id
        (s.last_id + 1)
        (upsert_record host true ts mime payload hash max_history s).0.clipboard
      ≡ true
    → (o : UpsertOutcome) × ((upsert_record host true ts mime payload hash max_history s).1 ≡ ok o)
      × (o.real_id ≡ some (s.last_id + 1))
      × (get_row_content
            (s.last_id + 1)
            (upsert_record host true ts mime payload hash max_history s).0
          ≡ some (mime, some payload, hash))
get_row_content-upsert_record host ts mime payload hash max_history s laws injective v inline stored
      unused left =
    let e = upserted host ts mime payload hash max_history s stored unused in
    let (o, answers, id) = answered host ts mime payload hash max_history s stored unused in
    (
      o,
      answers,
      id,
      ap (get_row_content (s.last_id + 1)) e
          ∙ rotate-kept host max_history (s.last_id + 1)
              (place host ts mime (bytes payload) hash s none).0
              (subst (λ o. Valid host.digest (place host ts mime (bytes payload) hash s o).0) unused
                (place-Valid host ts mime (bytes payload) hash s v))
              (ap (λ t. has_id (s.last_id + 1) t.clipboard) (sym e) ∙ left)
          ∙ read_back host ts mime payload hash s injective v inline,
    )
