-- ===== src/Daemon/Worker/Rows.antt =====
-- The two roads of crates/daemon/src/worker.rs store the same row.
use y4p.Prelude.{
  ℕ, ◌+◌, ◌<◌, ◌≤◌, ◌≡◌, ◌≢◌, refl, sym, subst, ◌∙◌, Bool, true, Option, none, some, ◌∷◌, arith,
  inl, inr, length, take_all, Bool-cases,
}
use y4p.Core.Text.{Text, Bytes}
use y4p.Core.Payload.{SpooledFile, OpenFiles, memory, to_hex, within_limit}
use y4p.Core.Payload.Reading.{within_limit-length}
use y4p.Core.Constants.{max_payload_bytes, digest_len}
use y4p.Image.Transcode.{OutputFormat, Transcode}
use y4p.Image.Route.{Guards, Convert, route_with}
use y4p.Image.Route.Guarded
use y4p.Image.Route.Guarded.{kept, made, route_with-Stored}
use y4p.Storage.Tables.{Store}
use y4p.Storage.Rows.{Host, is_skipped, is_detachable}
use y4p.Storage.Db.{Result, ok, err, UpsertOutcome, skipped, upsert_record}
use y4p.Storage.Cache.{
  Files, Written, Moved, renamed, copied, neither, Adoption, placed, present, adopt, move,
  exists_at,
}
use y4p.Storage.Facade.{
  ClipboardDb, InsertResult, cached, insert_with_hash, settled, adopted, loaded, read_spooled,
  insert_spooled,
}
use y4p.Storage.Facade
use y4p.Storage.Facade.Detached.{upsert_detached-upsert_record}
use y4p.Daemon.Worker.{
  State, Job, Stored, OnDisk, saved, store_materialised, process_job, store_spooled,
  convert_if_wanted, insert_converted, insert_processed,
}
use y4p.Daemon.Worker.Agreement.{Holds, Agrees, convert_if_wanted-Agrees}

-- What both roads answer for the outcome of the row.
abbrev answer : Result UpsertOutcome → InsertResult
answer err = err
answer (ok o) = ok o.real_id

-- A result that has the tables `s` and the answer `a`.
abbrev IsRow : Store → InsertResult → ClipboardDb × InsertResult → Type 0
IsRow s a (db, r) = (db.tables ≡ s) × (r ≡ a)

cached-IsRow :
    (written : Written) (payload : Bytes) (hash : Text) (fs : Files) (s : Store)
    (r : Result UpsertOutcome)
    → IsRow s (answer r) (cached written payload hash fs (s, r))
unfolding cached
cached-IsRow written payload hash fs s err = (refl, refl)
cached-IsRow written payload hash fs s (ok o) = ground arith

settled-IsRow :
    (a : Adoption) (hash : Text) (fs : Files) (s : Store) (r : Result UpsertOutcome)
    → IsRow s (answer r) (settled a hash fs (s, r))
unfolding settled
settled-IsRow placed hash fs s err = (refl, refl)
settled-IsRow present hash fs s err = (refl, refl)
settled-IsRow placed hash fs s (ok o) = (refl, refl)
settled-IsRow present hash fs s (ok o) = (refl, refl)

-- The spool file that storage is handed.
abbrev handed : Bytes → Text → Facade.SpooledFile
handed bytes hash = record { file = some bytes; len = length bytes; hex_digest = hash }

adopt-ok :
    (moved : Moved) (hash : Text) (bytes : Bytes) (fs : Files)
    → moved ≢ neither
    → (a : Adoption) × (fs' : Files) × (adopt moved hash bytes fs ≡ (fs', ok a))
unfolding adopt
adopt-ok moved hash bytes fs h = elim (Bool-cases (exists_at hash fs)) [
  | inl e ↦ (present, fs, rw e refl)
  | inr e ↦ rw e (moves moved h)
]
  where
    moves :
        (m : Moved)
        → m ≢ neither
        → (a : Adoption) × (fs' : Files) × (move m hash bytes fs ≡ (fs', ok a))
    moves renamed n = (placed, (hash, bytes) ∷ fs, refl)
    moves copied n = (placed, (hash, bytes) ∷ fs, refl)
    moves neither n = absurd (n refl)

read_spooled-handed :
    (bytes : Bytes) (hash : Text)
    → length bytes ≤ max_payload_bytes
    → read_spooled (handed bytes hash) ≡ ok bytes
unfolding read_spooled
read_spooled-handed bytes hash h =
    rw (take_all (length bytes + 1) bytes (omega arith)) (ground arith)

module _ (host : Host) (c : Bool) (written : Written) (ts : ℕ) (mime : Text) (bytes : Bytes)
    (hash : Text) (max_history : ℕ) (db : ClipboardDb) where
  abbrev row : Store × Result UpsertOutcome
  row = upsert_record host c ts mime bytes hash max_history db.tables

  insert_with_hash-IsRow :
      (q : Store × Result UpsertOutcome)
      → row ≡ q
      → IsRow q.0 (answer q.1) (insert_with_hash host c written ts mime bytes hash max_history db)
  unfolding insert_with_hash
  insert_with_hash-IsRow q e =
      subst
        (λ (x : Store × Result UpsertOutcome).
          IsRow x.0 (answer x.1)
            (insert_with_hash host c written ts mime bytes hash max_history db))
        e (cached-IsRow written bytes hash db.cache row.0 row.1)

  skipped-row : is_skipped mime (length bytes) ≡ true → row ≡ (db.tables, ok skipped)
  unfolding upsert_record
  skipped-row e = rw e refl

  adopted-IsRow :
      (a : Adoption) (fs : Files) (q : Store × Result UpsertOutcome)
      → row ≡ q
      → is_detachable mime ≡ true
      → IsRow q.0
          (answer q.1)
          (adopted host c ts mime (length bytes) hash max_history db.tables (fs, ok a))
  adopted-IsRow a fs q e d =
      subst (λ (r : Store × Result UpsertOutcome). IsRow q.0 (answer q.1) (settled a hash fs r))
        (sym (upsert_detached-upsert_record host c ts mime bytes hash max_history db.tables d ∙ e))
        (settled-IsRow a hash fs q.0 q.1)

  insert_spooled-IsRow :
      (moved : Moved) (q : Store × Result UpsertOutcome)
      → row ≡ q
      → moved ≢ neither
      → length bytes ≤ max_payload_bytes
      → IsRow q.0
          (answer q.1)
          (insert_spooled host c written moved ts mime (handed bytes hash) max_history db)
  unfolding insert_spooled
  insert_spooled-IsRow moved q r m h = elim (Bool-cases (is_skipped mime (length bytes))) [
    | inl e ↦ rw e (
        subst (λ (x : Store × Result UpsertOutcome). IsRow x.0 (answer x.1) (db, ok none))
          (sym (skipped-row e) ∙ r) (refl, refl))
    | inr e ↦ elim (Bool-cases (is_detachable mime)) [
      | inr d ↦ rw (e, d, read_spooled-handed bytes hash h) (insert_with_hash-IsRow q r)
      | inl d ↦
          let (a, fs, ad) = adopt-ok moved hash bytes db.cache m in
          rw (e, d, ad) (adopted-IsRow a fs q r d)
    ]
  ]

-- What the worker answers and has stored, but for the files of the cache.
abbrev pub Same : State × Stored → State × Stored → Type 0
Same (s, r) (s', r') = (s.guards ≡ s'.guards) × (s.db.tables ≡ s'.db.tables) × (r ≡ r')

saved-Same :
    (mime : Text) (len : ℕ) (g : Guards) (s : Store) (a : InsertResult)
    (x y : ClipboardDb × InsertResult)
    → IsRow s a x
    → IsRow s a y
    → Same (saved mime len g x) (saved mime len g y)
saved-Same mime len g s a (d, ok i) (d', ok i') h k = (refl, h.0 ∙ sym k.0, refl)
saved-Same mime len g s a (d, err) (d', err) h k = (refl, h.0 ∙ sym k.0, refl)
saved-Same mime len g s a (d, ok i) (d', err) h k = absurd (ok-ne-err i (h.1 ∙ sym k.1))
  where
    ok-ne-err : (i : Option ℕ) → ◌≢◌ {A = InsertResult} (ok i) err
    ok-ne-err i e = cc
saved-Same mime len g s a (d, err) (d', ok i') h k = absurd (err-ne-ok i' (h.1 ∙ sym k.1))
  where
    err-ne-ok : (i : Option ℕ) → ◌≢◌ {A = InsertResult} err (ok i)
    err-ne-ok i e = cc

module _ (host : Host) (sha3 : Bytes → Bytes) (max_history : ℕ) (convert : Convert)
    (name : ℕ → Text) (message : OutputFormat → Text) (derived : Text)
    (digests : (b : Bytes) → length (sha3 b) ≡ digest_len)
    (bounded_output : (job : Transcode) (bytes out : Bytes)
      → convert job bytes ≡ inl out
      → length out ≤ max_payload_bytes) where
  routed-fits :
      (mime : Text) (bytes : Bytes) (pair : Text × Bytes)
      → length bytes ≤ max_payload_bytes
      → Guarded.Stored mime bytes convert pair
      → length pair.1 ≤ max_payload_bytes
  routed-fits mime bytes pair h (kept e) =
      subst (λ (p : Text × Bytes). length p.1 ≤ max_payload_bytes) (sym e) h
  routed-fits mime bytes pair h (made job out p c m e) =
      subst (λ (p : Text × Bytes). length p.1 ≤ max_payload_bytes) (sym e)
        (bounded_output job bytes out c)

  inserted-Same :
      (j : Job) (db : ClipboardDb) (x : Guards × (Text × OnDisk)) (y : Guards × (Text × Bytes))
      → Agrees host sha3 max_history convert name message derived digests x y
      → j.moved ≢ neither
      → length y.1.1 ≤ max_payload_bytes
      → Same (insert_converted host sha3 max_history convert name message derived j db x) (
          insert_processed host sha3 max_history convert j db
            (y.0, (y.1.0, (y.1.1, to_hex (sha3 y.1.1)))))
  inserted-Same j db (g, (mime, (b, f))) (g', (mime', bytes)) a m h =
      let digest = to_hex (sha3 bytes) in
      let r = upsert_record host j.commits j.ts mime' bytes digest max_history db.tables in
      let same =
        saved-Same mime' (length bytes) g' r.0 (answer r.1)
          (insert_spooled host j.commits j.written j.moved j.ts mime' (handed bytes digest)
            max_history db)
          (insert_with_hash host j.commits j.written j.ts mime' bytes digest max_history db)
          (insert_spooled-IsRow host j.commits j.written j.ts mime' bytes digest max_history db
            j.moved r refl m h)
          (insert_with_hash-IsRow host j.commits j.written j.ts mime' bytes digest max_history db r
            refl) in
      rw (a.0, a.1, a.2.0, a.2.1, a.2.2) same

  -- With a 32-byte digest, a converter whose output is within the payload limit and can be written to
  -- its new file and read back, and a cache that takes the file: for a spool file that holds `bytes` with their length and digest, neither empty nor over
  -- the limit, the worker leaves the breaker, the throttle and the tables as for the bytes in memory,
  -- and answers the same.
  pub store_spooled-Same :
      (files : OpenFiles) (j : Job) (mime : Text) (bytes : Bytes) (f : SpooledFile) (s : State)
      → Holds sha3 bytes (some bytes, f)
      → 0 < length bytes
      → length bytes ≤ max_payload_bytes
      → j.created ≡ true
      → j.file_run.drains ≡ true
      → j.file_run.readable ≡ true
      → j.moved ≢ neither
      → Same
          (store_spooled host sha3 max_history convert name message derived j mime
            (some bytes, f)
            s)
          (store_materialised host sha3 max_history convert files j mime (memory bytes) s)
  unfolding store_spooled store_materialised process_job
  store_spooled-Same files j mime bytes f s h p l c d o m =
      let read : within_limit max_payload_bytes bytes ≡ inl bytes =
        within_limit-length max_payload_bytes bytes ∙ ground arith in
      rw read (
        inserted-Same j s.db
          (convert_if_wanted host sha3 max_history convert name message derived j s.guards mime
            (some bytes, f))
          (route_with mime bytes s.guards j.now j.later convert)
          (convert_if_wanted-Agrees host sha3 max_history convert name message derived digests j
            s.guards mime bytes f h c d o (λ job. bounded_output job bytes))
          m
          (routed-fits mime bytes _ l
            (route_with-Stored mime bytes s.guards j.now j.later convert)))
