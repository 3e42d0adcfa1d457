-- ===== src/Tests/Storage.antt =====
-- Runs of crates/storage/src, and its properties at one input. Here a digest is the bytes
-- themselves.
use y4p.Prelude.{
  if◌then◌else◌, ◌≤◌, ◌≡◌, refl, true, false, ◌&&◌, not, [], ◌∷◌, some, none, arith, length, ltb,
  All, drop,
}
use y4p.Core.Text.{Text, Bytes, codes, list_eq, starts_with, contains, any, eq_ignore_ascii_case}
use y4p.Core.Mime.{is_text_like_mime, mime_base}
use y4p.Storage.Tables.{Store, links}
use y4p.Storage.Rows.{Host, bytes, is_cache_class, is_detachable, is_skipped, is_chunkable}
use y4p.Storage.Db.{
  UpsertOutcome, ok, upsert, upsert_record, upsert_detached, has_id, id_of_hash, unpinned, expiring,
  rotate,
}
use y4p.Storage.Db.Counting.{count}
use y4p.Storage.Db.Valid.{Valid}
use y4p.Storage.Db.Rotation.{history_bounded, oldest_evicted, huge_bound_evicts}
use y4p.Storage.Db.Upsert.{upsert-Valid}
use y4p.Storage.Db.Pinned.{pinned_rows, upsert-pinned_rows}
use y4p.Storage.Queries.{get_row_content, delete_by_id}
use y4p.Storage.Queries.Valid.{delete_by_id-Valid}
use y4p.Storage.Queries.Kept.{content_kept}
use y4p.Storage.Queries.Stored.{get_row_content-upsert_record}
use y4p.Storage.Cache.{in_full, renamed}
use y4p.Storage.Facade.{ClipboardDb, SpooledFile, insert_spooled}
use y4p.Storage.Facade.Held.{HasFiles}
use y4p.Storage.Facade.Named.{HoldsFiles, Named}
use y4p.Storage.Facade.Spooled.{insert_spooled-HoldsFiles}
use y4p.Storage.Facade.Detached.{upsert_detached-upsert_record}
use y4p.Tests.Order.{newest_first, newest_first-IsNewest}

abbrev host : Host
host = record { digest = λ b. b; is_utf8 = λ b. true; lossy = λ b. b; newest = newest_first }

abbrev empty : Store
empty = record { clipboard = []; chunks = []; manifest = []; last_id = 0 }

empty-Valid : Valid host.digest empty
unfolding count links
empty-Valid = record {
  counted = record { exact = λ h. refl; unique = λ h. omega arith; named = tt };
  bound = refl;
  id_once = λ k. omega arith;
  hash_once = λ k. omega arith;
  owned = λ k e. refl;
}

abbrev plain : Text
plain = codes "text/plain"

abbrev png : Text
png = codes "image/png"

-- One text row, stored at time 5.
abbrev one_row : Store
one_row = (upsert host true 5 plain (bytes (codes "hello")) (codes "h1") 10 empty).0

one_row-Valid : Valid host.digest one_row
one_row-Valid =
    upsert-Valid host true 5 plain (bytes (codes "hello")) (codes "h1") 10 empty
      newest_first-IsNewest empty-Valid

plain_is_inline : is_cache_class plain ≡ false
unfolding is_cache_class starts_with contains
plain_is_inline = refl

hello_is_stored : is_skipped plain 5 ≡ false
unfolding is_skipped any contains
hello_is_stored = refl

image_detaches : is_detachable png ≡ true
unfolding is_detachable is_cache_class starts_with is_text_like_mime mime_base eq_ignore_ascii_case
image_detaches = refl

hello_is_left :
    has_id 1 (upsert_record host true 5 plain (codes "hello") (codes "h1") 10 empty).0.clipboard
    ≡ true
unfolding upsert_record has_id newest_first is_skipped any contains drop unpinned is_chunkable
    is_cache_class is_text_like_mime mime_base eq_ignore_ascii_case
hello_is_left = refl

first_is_left :
    has_id 1 (upsert host true 6 plain (bytes (codes "bye")) (codes "h2") 10 one_row).0.clipboard
    ≡ true
unfolding upsert has_id newest_first drop unpinned is_chunkable is_cache_class is_text_like_mime
    mime_base eq_ignore_ascii_case starts_with contains any list_eq
first_is_left = refl

first_is_there : has_id 1 one_row.clipboard ≡ true
unfolding upsert has_id newest_first drop unpinned is_chunkable is_cache_class is_text_like_mime
    mime_base eq_ignore_ascii_case starts_with contains any list_eq
first_is_there = refl

hash_is_new : id_of_hash (codes "h1") empty.clipboard ≡ none
unfolding id_of_hash
hash_is_new = refl

no_files_needed : HasFiles empty.clipboard []
unfolding count
no_files_needed h k = absurd (omega (arith, k))

get_row_content-upsert_record_example :
    (o : UpsertOutcome) × ((upsert_record host true 5 plain (codes "hello") (codes "h1") 10 empty).1
      ≡ ok o)
    × (o.real_id ≡ some 1)
    × (get_row_content 1 (upsert_record host true 5 plain (codes "hello") (codes "h1") 10 empty).0
        ≡ some (plain, some (codes "hello"), codes "h1"))
get_row_content-upsert_record_example =
    get_row_content-upsert_record host 5 plain (codes "hello") (codes "h1") 10 empty
      newest_first-IsNewest (λ a b e. e) empty-Valid plain_is_inline hello_is_stored hash_is_new
      hello_is_left

content_kept_example :
    get_row_content 1 (upsert host true 6 plain (bytes (codes "bye")) (codes "h2") 10 one_row).0
    ≡ get_row_content 1 one_row
content_kept_example =
    content_kept host true 6 plain (bytes (codes "bye")) (codes "h2") 10 1 one_row
      newest_first-IsNewest one_row-Valid first_is_there first_is_left

upsert-Valid_example :
    Valid host.digest (upsert host true 6 plain (bytes (codes "bye")) (codes "h2") 10 one_row).0
upsert-Valid_example =
    upsert-Valid host true 6 plain (bytes (codes "bye")) (codes "h2") 10 one_row
      newest_first-IsNewest one_row-Valid

upsert-pinned_rows_example :
    pinned_rows 1 (upsert host true 6 plain (bytes (codes "bye")) (codes "h2") 0 one_row).0
    ≡ pinned_rows 1 one_row
upsert-pinned_rows_example =
    upsert-pinned_rows host true 6 plain (bytes (codes "bye")) (codes "h2") 0 1 one_row
      newest_first-IsNewest one_row-Valid

delete_by_id-Valid_example : Valid host.digest (delete_by_id true 1 one_row).0
delete_by_id-Valid_example = delete_by_id-Valid host.digest true 1 one_row one_row-Valid

history_bounded_example : length (unpinned (rotate host 0 one_row).clipboard) ≤ 0
history_bounded_example = history_bounded host 0 one_row newest_first-IsNewest (omega arith)

oldest_evicted_example :
    All
      (λ g.
        count
          (λ r. not r.is_pinned && ltb r.timestamp g.timestamp)
          (rotate host 0 one_row).clipboard
        ≡ 0)
      (expiring host 0 one_row.clipboard)
oldest_evicted_example = oldest_evicted host 0 one_row newest_first-IsNewest

huge_bound_evicts_example : unpinned (rotate host 9223372036854775808 one_row).clipboard ≡ []
huge_bound_evicts_example =
    huge_bound_evicts host 9223372036854775808 one_row newest_first-IsNewest (omega arith)

upsert_detached-upsert_record_example :
    upsert_detached host true 5 png 4 (codes "h3") 10 one_row
    ≡ upsert_record host true 5 png (137 ∷ 80 ∷ 78 ∷ 71 ∷ []) (codes "h3") 10 one_row
upsert_detached-upsert_record_example =
    upsert_detached-upsert_record host true 5 png (137 ∷ 80 ∷ 78 ∷ 71 ∷ []) (codes "h3") 10 one_row
      image_detaches

abbrev spooled : SpooledFile
spooled = record { file = some (137 ∷ 80 ∷ 78 ∷ 71 ∷ []); len = 4; hex_digest = codes "h3" }

abbrev db : ClipboardDb
db = record { tables = empty; cache = [] }

-- The hash of the one image.
abbrev image_hash : Bytes → Text
image_hash b = if list_eq b (137 ∷ 80 ∷ 78 ∷ 71 ∷ []) then codes "h3" else []

insert_spooled-HoldsFiles_example :
    HoldsFiles image_hash
      (insert_spooled host true in_full renamed 5 png spooled 10 db).0.tables.clipboard
      (insert_spooled host true in_full renamed 5 png spooled 10 db).0.cache
    × Named image_hash (insert_spooled host true in_full renamed 5 png spooled 10 db).0.cache
unfolding list_eq
insert_spooled-HoldsFiles_example =
    insert_spooled-HoldsFiles image_hash host true in_full renamed 5 png spooled 10 db
      newest_first-IsNewest empty-Valid image_detaches refl no_files_needed tt
