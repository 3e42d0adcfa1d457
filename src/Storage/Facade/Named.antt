-- ===== src/Storage/Facade/Named.antt =====
-- The file cache of crates/storage/src: files that hold bytes of the hash that names them, through
-- `insert_spooled`.
use y4p.Prelude.{
  ℕ, ◌<◌, ◌≡◌, refl, ◌∙◌, Bool, true, ◌&&◌, List, [], ◌∷◌, some, Bool-cases, inl, inr,
}
use y4p.Core.Text.{Text, Bytes, list_eq, list_eq_sound}
use y4p.Storage.Tables.{Row, Store}
use y4p.Storage.Rows.{Host, is_detachable, is_skipped}
use y4p.Storage.Db.{Result, ok, err, UpsertOutcome, hash_is, upsert_detached}
use y4p.Storage.Db.Counting.{count}
use y4p.Storage.Cache.{
  Files, Written, Moved, renamed, copied, neither, Adoption, placed, present, read, exists_at,
  remove, remove_many, adopt, move,
}
use y4p.Storage.Facade.{ClipboardDb, SpooledFile, insert_spooled, settled, adopted, spool_bytes}
use y4p.Storage.Facade.Held.{HasFiles, needs_file}

module _ (hash_of : Bytes → Text) where
  -- Every file holds bytes of the hash that names it.
  abbrev pub Named : Files → Type 0
  Named [] = Unit
  Named ((h, b) ∷ fs) = (hash_of b ≡ h) × Named fs

  -- For every row whose bytes are in a file, that file is there and holds bytes of the row's hash.
  abbrev pub HoldsFiles : List Row → Files → Type 0
  HoldsFiles rows fs =
      (h : Text)
      → 0 < count (λ r. hash_is h r.hash && needs_file r) rows
      → (b : Bytes) × (read h fs ≡ some b) × (hash_of b ≡ h)

  read-Named :
      (h : Text) (fs : Files)
      → Named fs
      → exists_at h fs ≡ true
      → (b : Bytes) × (read h fs ≡ some b) × (hash_of b ≡ h)
  unfolding read exists_at
  read-Named h [] n e = cc
  read-Named h ((k, b) ∷ fs) n e = elim (Bool-cases (list_eq k h)) [
    | inl t ↦ (b, rw t refl, n.0 ∙ list_eq_sound k h t)
    | inr t ↦ let (c, r, m) = read-Named h fs n.1 (rw t at e) in (c, rw t r, m)
  ]

  pub HoldsFiles-Named :
      (rows : List Row) (fs : Files) → HasFiles rows fs → Named fs → HoldsFiles rows fs
  HoldsFiles-Named rows fs held n h k = read-Named h fs n (held h k)

  Named-remove : (h : Text) (fs : Files) → Named fs → Named (remove h fs)
  unfolding remove
  Named-remove h [] n = tt
  Named-remove h ((k, b) ∷ fs) n = elim (Bool-cases (list_eq k h)) [
    | inl t ↦ rw t (Named-remove h fs n.1)
    | inr t ↦ rw t (n.0, Named-remove h fs n.1)
  ]

  Named-remove_many : (hs : List Text) (fs : Files) → Named fs → Named (remove_many hs fs)
  unfolding remove_many
  Named-remove_many [] fs n = n
  Named-remove_many (h ∷ hs) fs n = Named-remove_many hs (remove h fs) (Named-remove h fs n)

  settled-Named :
      (a : Adoption) (hash : Text) (fs : Files) (s : Store) (r : Result UpsertOutcome)
      → Named fs
      → Named (settled a hash fs (s, r)).0.cache
  unfolding settled
  settled-Named placed hash fs s err n = Named-remove hash fs n
  settled-Named present hash fs s err n = n
  settled-Named placed hash fs s (ok o) n = Named-remove_many o.expired_hashes fs n
  settled-Named present hash fs s (ok o) n = Named-remove_many o.expired_hashes fs n

  module _ (host : Host) (commits : Bool) (ts : ℕ) (mime : Text) (len : ℕ) (hash : Text)
      (max_history : ℕ) (s : Store) where
    adopted-Named :
        (fs : Files) (a : Adoption)
        → Named fs
        → Named (adopted host commits ts mime len hash max_history s (fs, ok a)).0.cache
    adopted-Named fs a n =
        let r = upsert_detached host commits ts mime len hash max_history s in
        settled-Named a hash fs r.0 r.1 n

    moved-Named :
        (moved : Moved) (bytes : Bytes) (fs : Files)
        → hash_of bytes ≡ hash
        → Named fs
        → Named
            (adopted host commits ts mime len hash max_history s (move moved hash bytes fs)).0.cache
    moved-Named renamed bytes fs e n = adopted-Named ((hash, bytes) ∷ fs) placed (e, n)
    moved-Named copied bytes fs e n = adopted-Named ((hash, bytes) ∷ fs) placed (e, n)
    moved-Named neither bytes fs e n = n

    adopt-Named :
        (moved : Moved) (bytes : Bytes) (fs : Files)
        → hash_of bytes ≡ hash
        → Named fs
        → Named
            (adopted host commits ts mime len hash max_history s
              (adopt moved hash bytes fs)).0.cache
    unfolding adopt
    adopt-Named moved bytes fs e n = elim (Bool-cases (exists_at hash fs)) [
      | inl t ↦ rw t (adopted-Named fs present n)
      | inr t ↦ rw t (moved-Named moved bytes fs e n)
    ]

  pub insert_spooled-Named :
      (host : Host) (commits : Bool) (written : Written) (moved : Moved) (ts : ℕ) (mime : Text)
      (spooled : SpooledFile) (max_history : ℕ) (db : ClipboardDb)
      → is_detachable mime ≡ true
      → hash_of (spool_bytes spooled) ≡ spooled.hex_digest
      → Named db.cache
      → Named (insert_spooled host commits written moved ts mime spooled max_history db).0.cache
  unfolding insert_spooled
  insert_spooled-Named host commits written moved ts mime spooled max_history db d e n =
      elim (Bool-cases (is_skipped mime spooled.len)) [
        | inl t ↦ rw t n
        | inr t ↦
            rw (t, d)
              (adopt-Named host commits ts mime spooled.len spooled.hex_digest max_history db.tables
                moved (spool_bytes spooled) db.cache e n)
      ]
