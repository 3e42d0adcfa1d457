-- ===== src/Storage/Facade/Detached.antt =====
-- A spooled image is stored from its length alone (crates/storage/src/lib.rs, `insert_spooled`): the
-- tables end up as if its bytes had been at hand, and the file cache holds them.
use y4p.Prelude.{
  ℕ, ◌+◌, ◌≡◌, refl, sym, ◌∙◌, ap, Bool, true, false, [], ◌∷◌, ◌++◌, take, arith, Option, some,
  none, if◌then◌else◌, length,
}
use y4p.Core.Text.{Text, Bytes}
use y4p.Core.Mime.{is_text_like_mime, is_html_mime, strip_html_tags}
use y4p.Core.Constants.{preview_chars}
use y4p.Storage.Tables.{Store}
use y4p.Storage.Rows.{
  Host, bytes, detached, is_cache_class, is_detachable, is_skipped, is_chunkable, parts_of,
  row_parts, content_of, preview_of, newline_to_space, body_len,
}
use y4p.Storage.Db.{
  ok, err, skipped, new_row, store_content, insert_row, place, id_of_hash, expiring, rotate,
  outcome, hashes, upsert, upsert_record, upsert_detached,
}

detached_parts :
    (host : Host) (mime : Text) (payload : Bytes)
    → is_detachable mime ≡ true
    → parts_of host mime (bytes payload) (is_cache_class mime)
      ≡ parts_of host mime (detached (length payload)) (is_cache_class mime)
unfolding is_detachable parts_of row_parts content_of preview_of is_chunkable
detached_parts host mime payload d =
    let c : is_cache_class mime ≡ true = ground (arith, d) in
    let t : is_text_like_mime mime ≡ false = ground (arith, d) in
    ap (λ p. (p, content_of host mime payload (is_cache_class mime)))
      (ap
        (λ b.
          if b
          then some (
              newline_to_space (
                take preview_chars
                  (host.lossy (if is_html_mime mime then strip_html_tags payload else payload))))
          else none)
        t)
    ∙ ap (λ k. (none, k)) (ground (arith, c, t))

detached_place :
    (host : Host) (ts : ℕ) (mime : Text) (payload : Bytes) (hash : Text) (s : Store) (o : Option ℕ)
    → is_detachable mime ≡ true
    → place host ts mime (bytes payload) hash s o
      ≡ place host ts mime (detached (length payload)) hash s o
unfolding place insert_row body_len
detached_place host ts mime payload hash s (some id) d = refl
detached_place host ts mime payload hash s none d =
    ap
      (λ parts. (
        store_content host (s.last_id + 1) parts.1 (record s {
          clipboard =
              s.clipboard ++ new_row (s.last_id + 1) ts mime (length payload) parts hash ∷ [];
          last_id = s.last_id + 1;
        }),
        s.last_id + 1,
      ))
      (detached_parts host mime payload d)

-- For a detachable MIME type, `upsert_detached` on the length of a payload does to the tables, and
-- answers, what `upsert_record` does on its bytes.
pub upsert_detached-upsert_record :
    (host : Host) (commits : Bool) (ts : ℕ) (mime : Text) (payload : Bytes) (hash : Text)
    (max_history : ℕ) (s : Store)
    → is_detachable mime ≡ true
    → upsert_detached host commits ts mime (length payload) hash max_history s
      ≡ upsert_record host commits ts mime payload hash max_history s
unfolding upsert_detached upsert_record upsert
upsert_detached-upsert_record host commits ts mime payload hash max_history s d =
    ap
      (λ p.
        if is_skipped mime (length payload)
        then (s, ok skipped)
        else (if commits
            then (
              rotate host max_history p.0,
              ok (
                  outcome p.1 (is_cache_class mime)
                    (hashes (expiring host max_history p.0.clipboard))),
            )
            else (s, err)))
      (sym (detached_place host ts mime payload hash s (id_of_hash hash s.clipboard) d))
