-- ===== src/Storage/Db/Pinned.antt =====
-- Pinned rows under the rotation of crates/storage/src/db.rs.
use y4p.Prelude.{
  ℕ, ◌+◌, ◌≡◌, refl, ◌∙◌, ap, Bool, true, false, ◌&&◌, not, [], ◌∷◌, arith, ◌==◌, Bool-cases, inl,
  inr, Option, some, none,
}
use y4p.Core.Text.{Text}
use y4p.Storage.Tables.{Store}
use y4p.Storage.Rows.{Host, Body, is_cache_class, parts_of, body_len}
use y4p.Storage.Db.{has_id, expiring, rotate, touch, place, insert_row, new_row, id_of_hash, upsert}
use y4p.Storage.Db.Counting.{count, count_le, count_split, count-append, count-has_id, IsNewest}
use y4p.Storage.Db.Rotation.{clipboard-rotate, count-expiring}
use y4p.Storage.Db.Valid.{Valid, count-update_row, fewer-delete_rows, kept-delete_rows}
use y4p.Storage.Db.Upsert.{place-Valid, clipboard-store_content}

-- Whether the table has a pinned row with this id: as ids are unique, 0 or 1.
unfoldable pub pinned_rows : ℕ → Store → ℕ
unfolding count
pinned_rows id s = count (λ r. r.id == id && r.is_pinned) s.clipboard

rotate-pinned_rows :
    (host : Host) (n id : ℕ) (s : Store)
    → IsNewest host.newest
    → Valid host.digest s
    → pinned_rows id (rotate host n s) ≡ pinned_rows id s
unfolding pinned_rows
rotate-pinned_rows host n id s laws v =
    let gone = expiring host n s.clipboard in
    ap (count (λ r. r.id == id && r.is_pinned)) (clipboard-rotate host n s)
    ∙ elim (Bool-cases (has_id id gone)) [
      | inr h ↦ kept-delete_rows id (λ r. r.is_pinned) gone s.clipboard h
      | inl h ↦ omega (
        arith,
        count-has_id id gone h,
        v.id_once id,
        fewer-delete_rows (λ r. r.id == id && r.is_pinned) gone s.clipboard,
        count_split (λ r. r.id == id) (λ r. r.is_pinned) s.clipboard,
        count-expiring host n s.clipboard (λ r. r.id == id) laws,
        count_le (λ r. not r.is_pinned && r.id == id) (λ r. r.id == id && not r.is_pinned)
            (λ r e. ground (arith, e)) s.clipboard,
      )
    ]

place-pinned_rows :
    (host : Host) (ts : ℕ) (mime : Text) (body : Body) (hash : Text) (id : ℕ) (s : Store)
    (o : Option ℕ)
    → pinned_rows id (place host ts mime body hash s o).0 ≡ pinned_rows id s
unfolding pinned_rows place touch insert_row new_row count
place-pinned_rows host ts mime body hash id s (some k) =
    count-update_row (λ r. r.id == id && r.is_pinned) k (touch ts) s.clipboard (λ r. refl)
place-pinned_rows host ts mime body hash id s none =
    let parts = parts_of host mime body (is_cache_class mime) in
    let row = new_row (s.last_id + 1) ts mime (body_len body) parts hash in
    ap (count (λ r. r.id == id && r.is_pinned))
      (clipboard-store_content host (s.last_id + 1) parts.1 _)
    ∙ ground (arith, count-append (λ r. r.id == id && r.is_pinned) s.clipboard (row ∷ []))

-- On tables that meet the invariant, an `upsert` neither evicts nor unpins a pinned row, and pins
-- none.
pub upsert-pinned_rows :
    (host : Host) (commits : Bool) (ts : ℕ) (mime : Text) (body : Body) (hash : Text)
    (max_history id : ℕ) (s : Store)
    → IsNewest host.newest
    → Valid host.digest s
    → pinned_rows id (upsert host commits ts mime body hash max_history s).0 ≡ pinned_rows id s
unfolding upsert
upsert-pinned_rows host false ts mime body hash max_history id s laws v = refl
upsert-pinned_rows host true ts mime body hash max_history id s laws v =
    rotate-pinned_rows host max_history id
      (place host ts mime body hash s (id_of_hash hash s.clipboard)).0 laws
      (place-Valid host ts mime body hash s v)
    ∙ place-pinned_rows host ts mime body hash id s (id_of_hash hash s.clipboard)
