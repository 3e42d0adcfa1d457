-- ===== src/Storage/Db/Rotation.antt =====
-- Rotation of crates/storage/src/db.rs: what the history bound keeps and what it evicts.
use y4p.Prelude.{
  ℕ, zero, suc, ◌≤◌, ◌<◌, ◌≡◌, refl, sym, ◌∙◌, ap, Bool, true, ◌&&◌, not, List, [], ◌∷◌, arith, ltb,
  All, All-map, length, take, drop, Bool-cases, inl, inr,
}
use y4p.Storage.Tables.{Row, Store}
use y4p.Storage.Rows.{Host}
use y4p.Storage.Db.{unpinned, has_id, delete_rows, offset, expiring, release_all, rotate}
use y4p.Storage.Chunked.{release_chunks}
use y4p.Storage.Db.Counting.{
  count, count_ext, IsNewest, Descending, count-take, count-take-drop, count_none, count-unpinned,
  count-delete_rows, length-unpinned, All-has_id, All-drop,
}

-- Releasing chunks leaves the table of rows alone.
pub clipboard-release_all :
    (gone : List Row) (s : Store) → (release_all gone s).clipboard ≡ s.clipboard
unfolding release_all release_chunks
clipboard-release_all [] s = refl
clipboard-release_all (r ∷ rs) s = elim (Bool-cases r.is_chunked) [
  | inl t ↦ rw t (clipboard-release_all rs (release_chunks r.id s))
  | inr t ↦ rw t (clipboard-release_all rs s)
]

-- The table after a rotation: the DELETE sees the query's first answer again.
pub clipboard-rotate :
    (host : Host) (n : ℕ) (s : Store)
    → (rotate host n s).clipboard ≡ delete_rows (expiring host n s.clipboard) s.clipboard
unfolding rotate
clipboard-rotate host n s =
    ap (λ rows. delete_rows (expiring host n rows) rows)
      (clipboard-release_all (expiring host n s.clipboard) s)

and_swap : (a b c : Bool) → (a && (b && c)) ≡ (b && (a && c))
and_swap a b c = ground arith

-- The rows that a rotation leaves and that meet a test are among the first of the query's order.
module _ (host : Host) (n : ℕ) (laws : IsNewest host.newest) (p : Row → Bool) where
  unpinned_left :
      (rows : List Row)
      → count (λ r. not r.is_pinned && p r) (delete_rows (expiring host n rows) rows)
        ≡ count (λ r. not (has_id r.id (expiring host n rows)) && p r) (host.newest (unpinned rows))
  unpinned_left rows =
      let gone = expiring host n rows in
      count-delete_rows (λ r. not r.is_pinned && p r) gone rows
      ∙ count_ext _ (λ r. not r.is_pinned && (not (has_id r.id gone) && p r))
          (λ r. and_swap (not (has_id r.id gone)) (not r.is_pinned) (p r)) rows
      ∙ sym (count-unpinned (λ r. not (has_id r.id gone) && p r) rows)
      ∙ sym (laws.keeps (λ r. not (has_id r.id gone) && p r) (unpinned rows))

  left_is_kept :
      (rows : List Row)
      → count (λ r. not r.is_pinned && p r) (delete_rows (expiring host n rows) rows)
        ≡ count
            (λ r. not (has_id r.id (expiring host n rows)) && p r)
            (take (offset n) (host.newest (unpinned rows)))
  unfolding expiring
  left_is_kept rows =
      let newest = host.newest (unpinned rows) in
      let q = λ (r : Row). not (has_id r.id (expiring host n rows)) && p r in
      let none_gone : count q (drop (offset n) newest) ≡ 0 = count_none q (drop (offset n) newest) (
        All-map (λ r h. ground (arith, h)) (drop (offset n) newest)
          (All-has_id (drop (offset n) newest))) in
      omega (arith, unpinned_left rows, count-take-drop q (offset n) newest, none_gone)

-- What expires is among the rows of the table.
pub count-expiring :
    (host : Host) (n : ℕ) (rows : List Row) (p : Row → Bool)
    → IsNewest host.newest
    → count p (expiring host n rows) ≤ count (λ r. not r.is_pinned && p r) rows
unfolding expiring
count-expiring host n rows p laws = omega (
  arith,
  count-take-drop p (offset n) (host.newest (unpinned rows)),
  laws.keeps p (unpinned rows),
  count-unpinned p rows,
)

-- After a rotation with a bound that an `i64` holds, at most that many unpinned rows are left.
pub history_bounded :
    (host : Host) (n : ℕ) (s : Store)
    → IsNewest host.newest
    → n < 9223372036854775808
    → length (unpinned (rotate host n s).clipboard) ≤ n
unfolding offset
history_bounded host n s laws small =
    let rows = s.clipboard in
    let gone = expiring host n rows in
    let all = λ (r : Row). true in
    let e =
      ap (λ rs. length (unpinned rs)) (clipboard-rotate host n s)
      ∙ length-unpinned (delete_rows gone rows)
      ∙ count_ext (λ r. not r.is_pinned) (λ r. not r.is_pinned && true) (λ r. ground arith)
          (delete_rows gone rows)
      ∙ left_is_kept host n laws all rows in
    let o : offset n ≡ n = ground (arith, small) in
    omega (
      arith,
      e,
      o,
      count-take (λ r. not (has_id r.id gone) && true) (offset n) (host.newest (unpinned rows)),
    )

descends-split :
    (n : ℕ) (rs : List Row)
    → Descending rs
    → All (λ g. All (λ r. g.timestamp ≤ r.timestamp) (take n rs)) (drop n rs)
unfolding take drop
descends-split zero rs d = All-map (λ g h. tt) rs (All-has_id rs)
descends-split (suc n) [] d = tt
descends-split (suc n) (r ∷ rs) d = both (drop n rs) (All-drop _ n rs d.0) (descends-split n rs d.1)
  where
    both :
        (gs : List Row)
        → All (λ g. g.timestamp ≤ r.timestamp) gs
        → All (λ g. All (λ k. g.timestamp ≤ k.timestamp) (take n rs)) gs
        → All (λ g. All (λ k. g.timestamp ≤ k.timestamp) (r ∷ take n rs)) gs
    both [] a b = tt
    both (g ∷ gs) a b = ((a.0, b.0), both gs a.1 b.1)

-- No unpinned row that a rotation leaves is older than one that it evicts.
pub oldest_evicted :
    (host : Host) (n : ℕ) (s : Store)
    → IsNewest host.newest
    → All
        (λ g.
          count (λ r. not r.is_pinned && ltb r.timestamp g.timestamp) (rotate host n s).clipboard
          ≡ 0)
        (expiring host n s.clipboard)
unfolding expiring
oldest_evicted host n s laws = All-map none_older (expiring host n s.clipboard) (
    descends-split (offset n) (host.newest (unpinned s.clipboard))
      (laws.descends (unpinned s.clipboard)))
  where
    none_older :
        (g : Row)
        → All
            (λ r. g.timestamp ≤ r.timestamp)
            (take (offset n) (host.newest (unpinned s.clipboard)))
        → count (λ r. not r.is_pinned && ltb r.timestamp g.timestamp) (rotate host n s).clipboard
          ≡ 0
    none_older g h =
        let older = λ (r : Row). ltb r.timestamp g.timestamp in
        let q = λ (r : Row). not (has_id r.id (expiring host n s.clipboard)) && older r in
        ap (count (λ r. not r.is_pinned && older r)) (clipboard-rotate host n s)
        ∙ left_is_kept host n laws older s.clipboard
        ∙ count_none q (take (offset n) (host.newest (unpinned s.clipboard))) (
            All-map (λ r l. ground (arith, l))
              (take (offset n) (host.newest (unpinned s.clipboard))) h)

-- A bound that an `i64` does not hold is read as a negative offset, so a rotation under it evicts
-- every unpinned row.
pub huge_bound_evicts :
    (host : Host) (n : ℕ) (s : Store)
    → IsNewest host.newest
    → 9223372036854775808 ≤ n
    → unpinned (rotate host n s).clipboard ≡ []
unfolding offset
huge_bound_evicts host n s laws huge =
    let rows = s.clipboard in
    let gone = expiring host n rows in
    let e =
      ap (λ rs. length (unpinned rs)) (clipboard-rotate host n s)
      ∙ length-unpinned (delete_rows gone rows)
      ∙ count_ext (λ r. not r.is_pinned) (λ r. not r.is_pinned && true) (λ r. ground arith)
          (delete_rows gone rows)
      ∙ left_is_kept host n laws (λ r. true) rows in
    let o : offset n ≡ 0 = ground (arith, huge) in
    empty (unpinned (rotate host n s).clipboard) (
      omega (
        arith,
        e,
        o,
        count-take (λ r. not (has_id r.id gone) && true) (offset n) (host.newest (unpinned rows)),
      ))
  where
    empty : (rs : List Row) → length rs ≡ 0 → rs ≡ []
    empty [] h = refl
    empty (r ∷ rs) h = absurd (omega (arith, h))
