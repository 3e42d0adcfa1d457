-- ===== src/Daemon/Spool/Whole.antt =====
-- `spool` of crates/daemon/src/spool.rs: what is in the directory when it returns.
use y4p.Prelude.{
  ℕ, ◌+◌, ◌-◌, ◌≤◌, ◌<◌, ◌≡◌, ◌≢◌, refl, sym, ◌∙◌, ap, true, false, Option, none, some, List, [],
  ◌∷◌, ◌++◌, arith, ltb, inl, inr, length, length-append, Bool-cases, u64_max,
}
use y4p.Core.Text.{Text, Bytes, list_eq_refl}
use y4p.Core.Payload.{PayloadError, empty, too_large, new_spooled}
use y4p.Core.Splice.{CopyState}
use y4p.Core.Splice.Whole.{concat}
use y4p.Core.Splice.Ends.{Copied, copy_to_file_whole}
use y4p.Storage.Cache.{Files, exists_at, remove, read}
use y4p.Wayland.Drain.{SpoolOutcome, spooled, rejected, unavailable}
use y4p.Core.Constants.{digest_len}
use y4p.Daemon.Spool.{
  FileSpooler, is_created, Calls, finish, create, kept, closed, drained, into_file, spool,
}

remove-absent : (p : Text) (fs : Files) → exists_at p fs ≡ false → remove p fs ≡ fs
unfolding remove exists_at
remove-absent p [] h = refl
remove-absent p (f ∷ fs) h = ground (arith, h, remove-absent p fs)

remove-head :
    (p : Text) (b : Bytes) (fs : Files) → exists_at p fs ≡ false → remove p ((p, b) ∷ fs) ≡ fs
unfolding remove
remove-head p b fs h = ground (arith, list_eq_refl p, remove-absent p fs h)

read-head : (p : Text) (b : Bytes) (fs : Files) → read p ((p, b) ∷ fs) ≡ some b
unfolding read
read-head p b fs = ground (arith, list_eq_refl p)

-- What `spool` may leave of the files `fs`, for the stream `whole`.
abbrev pub Spools :
    (Bytes → Bytes) → Files → Bytes → ℕ → Option (FileSpooler × SpoolOutcome) → Type 0
Spools sha3 fs whole limit none = Unit
Spools sha3 fs whole limit (some (s, spooled f)) =
    (read f.path s.files ≡ some whole)
    × (f.len ≡ length whole)
    × (f.len ≤ limit)
    × (f.digest ≡ sha3 whole)
    × (f.owned ≡ true)
    × (exists_at f.path fs ≡ false)
    × (remove f.path s.files ≡ fs)
Spools sha3 fs whole limit (some (s, rejected)) = s.files ≡ fs
Spools sha3 fs whole limit (some (s, unavailable src)) = s.files ≡ fs

module _ (sha3 : Bytes → Bytes) (name : ℕ → Text)
    (digests : (b : Bytes) → length (sha3 b) ≡ digest_len) where
  finish-some : (tap : List Bytes) → finish sha3 name tap ≢ none
  unfolding finish
  finish-some tap e = ground (arith, e, digests (concat tap))

  finish-sha3 :
      (tap : List Bytes) (d : Bytes) → finish sha3 name tap ≡ some d → d ≡ sha3 (concat tap)
  unfolding finish
  finish-sha3 tap d e = ground (arith, e)

  kept-Spools :
      (head src : Bytes) (limit rest : ℕ) (path : Text) (body : Bytes) (n : ℕ) (fs : Files)
      → exists_at path fs ≡ false
      → body ≡ src
      → rest ≡ length src
      → length head + length src ≤ limit
      → (o : Option Bytes) → o ≢ none
      → ((d : Bytes) → o ≡ some d → d ≡ sha3 (head ++ src))
      → Spools sha3 fs (head ++ src) limit (
          some (
            closed sha3 name path
              (record { next = n; files = (path, []) ∷ fs })
              (kept sha3 name head rest path body o)))
  unfolding new_spooled
  kept-Spools head src limit rest path body n fs x b r l none some_digest t =
      absurd (some_digest refl)
  kept-Spools head src limit rest path body n fs x b r l (some d) some_digest t = (
    read-head path (head ++ body) (remove path ((path, []) ∷ fs)) ∙ ap (λ z. some (head ++ z)) b,
    omega (arith, r, length-append head src),
    omega (arith, r, l),
    t d refl,
    refl,
    x,
    ap (λ z. remove path ((path, head ++ body) ∷ z)) (remove-head path [] fs x)
        ∙ remove-head path (head ++ body) fs x,
  )

  shown :
      (head src : Bytes) (tap : List Bytes)
      → concat tap ≡ src
      → (d : Bytes) → finish sha3 name (head ∷ tap) ≡ some d
      → d ≡ sha3 (head ++ src)
  shown head src tap t d e = finish-sha3 (head ∷ tap) d e ∙ ap (λ z. sha3 (head ++ z)) t

  drained-Spools :
      (head src : Bytes) (limit : ℕ) (small : limit - length head < u64_max) (path : Text) (n : ℕ)
      (fs : Files)
      → exists_at path fs ≡ false
      → length head ≤ limit
      → (r : Option (CopyState × Option PayloadError))
      → Copied true (limit - length head) src small r
      → Spools sha3 fs
          (head ++ src)
          limit
          (drained sha3 name head path (record { next = n; files = (path, []) ∷ fs }) r)
  drained-Spools head src limit small path n fs x h none c = tt
  drained-Spools head src limit small path n fs x h (some (w, none)) c =
      kept-Spools head src limit w.len path w.dst n fs x (c.0) (c.2) (omega (arith, c.5, h))
        (finish sha3 name (head ∷ w.tap)) (finish-some (head ∷ w.tap))
        (shown head src w.tap (c.1 refl))
  drained-Spools head src limit small path n fs x h (some (w, some empty)) c =
      kept-Spools head src limit 0 path w.dst n fs x (c.1 ∙ sym c.0) (sym (ap length c.0))
        (omega (arith, ap length c.0, h)) (finish sha3 name (head ∷ w.tap))
        (finish-some (head ∷ w.tap)) (shown head src w.tap (c.2 refl ∙ sym c.0))
  drained-Spools head src limit small path n fs x h (some (w, some (too_large l))) c =
      remove-head path [] fs x
  drained-Spools head src limit small path n fs x h (some (w, some (PayloadError.io e))) c =
      remove-head path [] fs x

  into_file-Spools :
      (calls : Calls) (head src : Bytes) (limit n : ℕ) (path : Text) (fs : Files)
      → limit < u64_max
      → exists_at path fs ≡ false
      → Spools sha3 fs (head ++ src) limit (
          into_file sha3 name calls head src limit
            (record { next = n; files = (path, []) ∷ fs }, some path))
  into_file-Spools calls head src limit n path fs small x =
      elim (Bool-cases (ltb limit (length head))) [
        | inl t ↦ rw t (remove-head path [] fs x)
        | inr t ↦ elim (Bool-cases calls.head_written) [
          | inr b ↦ rw (t, b) (remove-head path [] fs x)
          | inl b ↦
              let s : limit - length head < u64_max = omega (arith, small) in
              rw (t, b)
                (drained-Spools head src limit s path n fs x (ground (arith, t)) _ (
                  copy_to_file_whole calls.pipe true calls.scratch (limit - length head)
                    calls.rounds calls.passes src s))
        ]
      ]

  -- `spool` under a limit below the largest `u64`, with a 32-byte SHA3-256, the names given, and files
  -- that can be unlinked, on every path: a spooled payload is the whole stream, head included, in a
  -- file of its own that was not there before, its length is right and within the limit, its digest is
  -- that of the stream, and all other files are as they were; where nothing is spooled, no file is left
  -- behind.
  pub spool-Spools :
      (calls : Calls) (head src : Bytes) (limit : ℕ) (s : FileSpooler)
      → limit < u64_max
      → Spools sha3 s.files (head ++ src) limit (spool sha3 name calls head src limit s)
  unfolding spool create
  spool-Spools calls head src limit s small = elim (Bool-cases (is_created calls.created)) [
    | inr c ↦ rw c refl
    | inl c ↦ elim (Bool-cases (exists_at (name s.next) s.files)) [
      | inl x ↦ rw (c, x) refl
      | inr x ↦
          rw (c, x)
            (into_file-Spools calls head src limit (s.next + 1) (name s.next) s.files small x)
    ]
  ]
