-- ===== src/Storage/Cache.antt =====
-- crates/storage/src/cache.rs: `FileCache`, the files `<hash>.cache` of one directory by their hash.
-- The file system is outside the repository: how each call on it ended is an argument.
use y4p.Prelude.{ℕ, Bool, true, false, not, Option, none, some, List, [], ◌∷◌, if◌then◌else◌, take}
use y4p.Core.Text.{Text, Bytes, list_eq}
use y4p.Storage.Db.{Result, ok, err}

abbrev pub Files : Type 0
Files = List (Text × Bytes)

-- How `fs::write` ended: in full, after a prefix of some length, or before it made the file.
pub data Written : Type 0 where
  in_full not_at_all : Written
  after : ℕ → Written

-- How the two moves of `adopt` ended.
pub data Moved : Type 0 where
  renamed copied neither : Moved

pub data Adoption : Type 0 where
  placed present : Adoption

unfoldable pub read : Text → Files → Option Bytes
read h [] = none
read h (f ∷ fs) = if list_eq f.0 h then some f.1 else read h fs

unfoldable pub exists_at : Text → Files → Bool
exists_at h [] = false
exists_at h (f ∷ fs) = if list_eq f.0 h then true else exists_at h fs

unfoldable pub remove : Text → Files → Files
remove h [] = []
remove h (f ∷ fs) = if list_eq f.0 h then remove h fs else f ∷ remove h fs

unfoldable pub remove_many : List Text → Files → Files
unfolding remove
remove_many [] fs = fs
remove_many (h ∷ hs) fs = remove_many hs (remove h fs)

-- `fs::write`.
abbrev pub write : Written → Text → Bytes → Files → Files × Result (Unit {0})
write in_full h payload fs = ((h, payload) ∷ fs, ok tt)
write (after n) h payload fs = ((h, take n payload) ∷ fs, err)
write not_at_all h payload fs = (fs, err)

unfoldable pub store : Written → Text → Bytes → Files → Files × Result (Unit {0})
unfolding exists_at
store written h payload fs = if exists_at h fs then (fs, ok tt) else write written h payload fs

-- The move of a file that holds `source`; a copy that fails is taken out again.
abbrev pub move : Moved → Text → Bytes → Files → Files × Result Adoption
move renamed h source fs = ((h, source) ∷ fs, ok placed)
move copied h source fs = ((h, source) ∷ fs, ok placed)
move neither h source fs = (fs, err)

unfoldable pub adopt : Moved → Text → Bytes → Files → Files × Result Adoption
unfolding exists_at
adopt moved h source fs = if exists_at h fs then (fs, ok present) else move moved h source fs

-- What is left where `remove_dir_all` failed part of the way.
unfoldable pub spared : (Text → Bool) → Files → Files
spared left [] = []
spared left (f ∷ fs) = if left f.0 then f ∷ spared left fs else spared left fs

unfoldable pub clear : Bool → Bool → (Text → Bool) → Files → Files × Result (Unit {0})
unfolding spared
clear removed recreated left fs =
    if not removed then (spared left fs, err) else if recreated then ([], ok tt) else ([], err)
