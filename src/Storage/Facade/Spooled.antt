-- ===== src/Storage/Facade/Spooled.antt =====
-- `insert_spooled` of crates/storage/src/lib.rs: its comment says that a row never points at a
-- missing file.
use y4p.Prelude.{
  ℕ, ◌≡◌, refl, sym, ap, subst, Bool, true, false, not, ◌∷◌, none, if◌then◌else◌, Bool-cases, inl,
  inr, arith,
}
use y4p.Core.Text.{Text, Bytes, list_eq_refl}
use y4p.Storage.Tables.{Store}
use y4p.Storage.Rows.{Host, detached, is_detachable, is_skipped}
use y4p.Storage.Db.{ok, id_of_hash, place, upsert_detached, upsert, skipped}
use y4p.Storage.Db.Counting.{IsNewest}
use y4p.Storage.Db.Valid.{Valid}
use y4p.Storage.Db.Upsert.{place-Valid}
use y4p.Storage.Cache.{
  Files, Written, Moved, renamed, copied, neither, Adoption, placed, present, exists_at, remove,
  adopt, move,
}
use y4p.Storage.Facade.{
  ClipboardDb, InsertResult, SpooledFile, insert_spooled, settled, adopted, loaded, spool_bytes,
  read_spooled,
}
use y4p.Storage.Facade.Held.{HasFiles, rotate-HasFiles, place-HasFiles, remove_placed}
use y4p.Storage.Facade.Named.{Named, HoldsFiles, HoldsFiles-Named, insert_spooled-Named}

-- The state after a call.
abbrev Held : ClipboardDb × InsertResult → Type 0
Held (db, r) = HasFiles db.tables.clipboard db.cache

-- What the error path of `insert_spooled` needs of the cache: taking the file out again, where this
-- call placed it, gives the cache back.
abbrev Undoes : Adoption → Text → Files → Files → Type 0
Undoes placed hash fs before = remove hash fs ≡ before
Undoes present hash fs before = fs ≡ before

exists_at-head : (h : Text) (b : Bytes) (fs : Files) → exists_at h ((h, b) ∷ fs) ≡ true
unfolding exists_at
exists_at-head h b fs = ap (λ t. if t then true else exists_at h fs) (list_eq_refl h)

exists_at-tail :
    (h k : Text) (b : Bytes) (fs : Files) → exists_at h fs ≡ true → exists_at h ((k, b) ∷ fs) ≡ true
unfolding exists_at
exists_at-tail h k b fs e = ground (arith, e)

module _ (host : Host) (commits : Bool) (ts : ℕ) (mime : Text) (len : ℕ) (hash : Text) (n : ℕ)
    (s : Store) (before : Files) (laws : IsNewest host.newest) (v : Valid host.digest s)
    (held : HasFiles s.clipboard before) (stored : is_skipped mime len ≡ false) where
  settled-Held :
      (commits : Bool) (adoption : Adoption) (fs : Files)
      → Undoes adoption hash fs before
      → exists_at hash fs ≡ true
      → HasFiles s.clipboard fs
      → Held (settled adoption hash fs (upsert host commits ts mime (detached len) hash n s))
  unfolding settled upsert
  settled-Held true placed fs u e h =
      rotate-HasFiles host n
        (place host ts mime (detached len) hash s (id_of_hash hash s.clipboard)).0 fs laws
        (place-Valid host ts mime (detached len) hash s v)
        (place-HasFiles host ts mime (detached len) hash s (id_of_hash hash s.clipboard) fs e h)
  settled-Held true present fs u e h =
      rotate-HasFiles host n
        (place host ts mime (detached len) hash s (id_of_hash hash s.clipboard)).0 fs laws
        (place-Valid host ts mime (detached len) hash s v)
        (place-HasFiles host ts mime (detached len) hash s (id_of_hash hash s.clipboard) fs e h)
  settled-Held false placed fs u e h = subst (HasFiles s.clipboard) (sym u) held
  settled-Held false present fs u e h = h

  detached-Held :
      (adoption : Adoption) (fs : Files)
      → Undoes adoption hash fs before
      → exists_at hash fs ≡ true
      → HasFiles s.clipboard fs
      → Held (settled adoption hash fs (upsert_detached host commits ts mime len hash n s))
  unfolding upsert_detached
  detached-Held adoption fs u e h =
      subst
        (λ b. Held (
          settled adoption hash fs
            (if b then (s, ok skipped) else upsert host commits ts mime (detached len) hash n s)))
        (sym stored) (settled-Held commits adoption fs u e h)

  placed-Held :
      (b : Bytes)
      → exists_at hash before ≡ false
      → Held (
          settled placed hash
            ((hash, b) ∷ before)
            (upsert_detached host commits ts mime len hash n s))
  placed-Held b f =
      detached-Held placed ((hash, b) ∷ before) (remove_placed hash b before f)
        (exists_at-head hash b before) (λ h k. exists_at-tail h hash b before (held h k))

  moved-Held :
      (moved : Moved) (b : Bytes)
      → exists_at hash before ≡ false
      → Held (adopted host commits ts mime len hash n s (move moved hash b before))
  moved-Held renamed b f = placed-Held b f
  moved-Held copied b f = placed-Held b f
  moved-Held neither b f = held

insert_spooled-HasFiles :
    (host : Host) (commits : Bool) (written : Written) (moved : Moved) (ts : ℕ) (mime : Text)
    (spooled : SpooledFile) (n : ℕ) (db : ClipboardDb)
    → IsNewest host.newest
    → Valid host.digest db.tables
    → is_detachable mime ≡ true
    → HasFiles db.tables.clipboard db.cache
    → HasFiles
        (insert_spooled host commits written moved ts mime spooled n db).0.tables.clipboard
        (insert_spooled host commits written moved ts mime spooled n db).0.cache
unfolding insert_spooled adopt
insert_spooled-HasFiles host commits written moved ts mime spooled n db laws v d held =
    elim (Bool-cases (is_skipped mime spooled.len)) [
      | inl t ↦ subst (λ b. Held (if b then (db, ok none) else stored)) (sym t) held
      | inr t ↦
          subst (λ b. Held (if b then (db, ok none) else stored)) (sym t)
            (subst (λ b. Held (if not b then inline else streamed)) (sym d)
              (elim (Bool-cases (exists_at spooled.hex_digest db.cache)) [
                | inl e ↦
                    subst (λ b. Held (after b)) (sym e)
                      (detached-Held host commits ts mime spooled.len spooled.hex_digest n db.tables
                        db.cache laws v held t present db.cache refl e held)
                | inr e ↦
                    subst (λ b. Held (after b)) (sym e)
                      (moved-Held host commits ts mime spooled.len spooled.hex_digest n db.tables
                        db.cache laws v held t moved (spool_bytes spooled) e)
              ]))
    ]
  where
    after : Bool → ClipboardDb × InsertResult
    after b = adopted host commits ts mime spooled.len spooled.hex_digest n db.tables (
        if b
        then (db.cache, ok present)
        else move moved spooled.hex_digest (spool_bytes spooled) db.cache)

    inline : ClipboardDb × InsertResult
    inline = loaded host commits written ts mime spooled.hex_digest n db (read_spooled spooled)

    streamed : ClipboardDb × InsertResult
    streamed = after (exists_at spooled.hex_digest db.cache)

    stored : ClipboardDb × InsertResult
    stored = if not (is_detachable mime) then inline else streamed

-- On tables that meet the invariant, where every row that needs its file has one and every file of
-- the cache holds bytes of the hash that names it: after an `insert_spooled` of an image whose spool
-- file has the hash that it says, however its transaction and its moves end, every row that needs its
-- file has one that holds bytes of the row's hash, and every file still does of its own.
pub insert_spooled-HoldsFiles :
    (hash_of : Bytes → Text) (host : Host) (commits : Bool) (written : Written) (moved : Moved)
    (ts : ℕ) (mime : Text) (spooled : SpooledFile) (n : ℕ) (db : ClipboardDb)
    → IsNewest host.newest
    → Valid host.digest db.tables
    → is_detachable mime ≡ true
    → hash_of (spool_bytes spooled) ≡ spooled.hex_digest
    → HasFiles db.tables.clipboard db.cache
    → Named hash_of db.cache
    → let db' = (insert_spooled host commits written moved ts mime spooled n db).0 in
      HoldsFiles hash_of db'.tables.clipboard db'.cache × Named hash_of db'.cache
insert_spooled-HoldsFiles hash_of host commits written moved ts mime spooled n db laws v d e held
      m =
    let db' = (insert_spooled host commits written moved ts mime spooled n db).0 in
    let m' = insert_spooled-Named hash_of host commits written moved ts mime spooled n db d e m in
    let held' =
      insert_spooled-HasFiles host commits written moved ts mime spooled n db laws v d held in
    (HoldsFiles-Named hash_of db'.tables.clipboard db'.cache held' m', m')
