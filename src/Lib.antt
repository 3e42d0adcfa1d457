-- ===== src/Lib.antt =====
-- y4p keeps a history of the Wayland clipboard. A reader thread drains each selection from its pipe,
-- the worker of the daemon converts images and stores the payload, and the command line reads the
-- history back. This library models the parts that decide what is kept and what is refused.
--
-- The parts, their files, and the source that each translates (paths from the repository's root):
--   * Core/Cdc: content-defined chunking, crates/core/src/cdc.rs (`FastCdc::next`, `cut_point`,
--     `size_hint`, the gear table and the masks). The iterator is `next` on the bytes left.
--   * Core/Constants: the numbers and hints used, crates/core/src/constants.rs.
--   * Core/Config: the parser of `y4p.toml`, crates/core/src/config.rs.
--   * Core/Mime: the MIME predicates, image signatures and `strip_html_tags`,
--     crates/core/src/utils.rs; Core/Text has what these use of the standard library's strings.
--   * Image/Breaker: the circuit breaker around image conversion, crates/image/src/breaker.rs; each
--     call that takes the mutex is one step, and a permit is a value that is used or dropped once.
--   * Core/Payload: where a payload's bytes live and `read_bounded`, crates/core/src/payload.rs.
--   * Core/Splice: copying a stream to a file, crates/core/src/splice.rs; Core/Splice/Copy has the
--     buffered path, `copy_to_file` and `splice_all`.
--   * Image/Throttle: the bound on conversions that run at once, crates/image/src/throttle.rs; each
--     check of the predicate under the mutex is one step.
--   * Image/Transcode: formats, the argument vector of a conversion and the signature check,
--     crates/image/src/transcode.rs.
--   * Image/Pipeline: the copying loops and the verdict of crates/image/src/pipeline.rs;
--     Image/Pipeline/Watchdog is the child with its deadline as a state machine.
--   * Image/Route: `classify`, `plan`, `attempt_guarded`, `route_with`, `route_file_with` and
--     `converter_call`, crates/image/src/route.rs; Image/Route/Callers interleaves the critical
--     sections of many attempts.
--   * Daemon/Spool: `FileSpooler`, `transcode_spooled` and `sweep_stale`,
--     crates/daemon/src/spool.rs. Daemon/Worker: what the worker does with one job on both roads,
--     crates/daemon/src/worker.rs.
--   * Storage/Tables, Storage/Rows, Storage/Chunked, Storage/Db and Storage/Queries: the tables of
--     crates/storage/src/schema.rs and the statements of crates/storage/src/db.rs on them
--     (`upsert`, `store_chunks`, `release_chunks`, `reassemble`, rotation, reads and deletes).
--   * Storage/Cache: `FileCache`, crates/storage/src/cache.rs.
--   * Storage/Facade: `ClipboardDb`, crates/storage/src/lib.rs, which joins tables and cache.
--   * Wayland/Ingest: the reader gate, the byte budget and the enqueue loops,
--     crates/wayland/src/ingest.rs; each turn of a compare-and-swap loop is one step.
--   * Wayland/Selection: `select_mime` and `is_sensitive`,
--     crates/wayland/src/handlers/data_control/device.rs and mod.rs.
--   * Wayland/Drain: `drain_pipe`, `read_pipe_payload`, `relabel_by_magic`, `normalise_payload` and
--     the job that `ingest_and_send` makes of them, in the same device.rs; `SpoolOutcome` of
--     crates/wayland/src/spool.rs and `accounted_bytes` of crates/wayland/src/state.rs.
--     Core/Uri: `normalize_uri_list` of
--     crates/core/src/utils.rs, over a percent decoding that is given.
--   * Prelude: names of the libraries and lists over native numbers. Tests: runs at fixed inputs and
--     each property at an input that meets its hypotheses.
-- Storage chunks a long payload with Core/Cdc, classifies it with Core/Mime and keeps images in
-- Storage/Cache; Wayland/Ingest bounds what waits for the worker that calls Storage. Daemon/Spool
-- drains a stream with Core/Splice; Daemon/Worker routes it by Image/Route, which stands behind
-- Image/Breaker and Image/Throttle, and hands it to Storage/Facade.
--
-- What the code takes from outside the repository is a parameter: SHA3-256 (`Host.digest`, assumed
-- injective only where bytes are read back, and 32 bytes long where a spool file is handed on), UTF-8
-- decoding, and the order in which SQLite answers
-- `ORDER BY timestamp DESC` (`Host.newest`, with the laws `IsNewest`). SQLite itself is not
-- modelled: a table is a list, a statement a function on it, and a transaction either commits or
-- leaves the tables alone (`commits`). How a file-system call or a `try_send` ended is an argument,
-- and so is the clock. A `read`, `splice` or `tee` moves at least one byte where there is one to move
-- and room is left; how many more is an argument. The image converter is a function of the job and
-- the bytes, and the names of spool files one of their counter; whether its output can be written to a
-- file and read back is an argument, and that file has a limit. Percent decoding is a function of the
-- bytes, and to `drain_pipe` the spooler is one too, with the promise `Keeps` of its trait.
--
-- Bounds: numbers are unbounded but where the source wraps: the gear hash and the counters of the
-- ingestion path are taken modulo 2^64, the breaker's count saturates at 2^32 - 1, and the history
-- bound is read as an `i64`; a row's length, which the source casts to `i64`, is within the payload
-- limit. Chunking recurses with the input's length as fuel, which is enough since
-- each chunk is not empty; showing `n` bytes to a tap takes `n` as fuel, since each chunk shown has a
-- byte. The loops of the ingestion path and the copying loops run as long as rounds are given, and
-- answer `none` while they still wait.
--
-- Not modelled: the text search of db.rs (SQL LIKE), the schema migrations, growing a pipe and other
-- tuning system calls, the start of a child process with the cases where a thread or a pipe handle is
-- refused, its sandbox (crates/image/src/sandbox.rs), the image codecs, the Wayland protocol objects,
-- the worker's queue loop, log lines and the command line's output.
pub mod Prelude
pub mod Core
pub mod Storage
pub mod Wayland
pub mod Daemon
pub mod Image
pub mod Tests
