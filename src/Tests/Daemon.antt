-- ===== src/Tests/Daemon.antt =====
-- Tests and instances for crates/daemon/src. SHA3-256 is stood in for by its length alone.
use y4p.Prelude.{ℕ, ◌≤◌, ◌≡◌, refl, true, false, some, [], ◌∷◌, ◌++◌, arith, inl, inr, length}
use y4p.Core.Text.{Text, Bytes, codes}
use y4p.Core.Payload.{Payload, OpenFiles, OsError, SpooledFile}
use y4p.Core.Constants.{max_payload_bytes}
use y4p.Core.Splice.{KernelAnswer}
use y4p.Core.Splice.Copy.{Write}
use y4p.Image.Transcode.{OutputFormat, Transcode}
use y4p.Image.Route.{Convert}
use y4p.Image.Route.Callers.{fresh}
use y4p.Storage.Rows.{Host}
use y4p.Storage.Cache.{in_full, renamed}
use y4p.Daemon.Spool.{FileSpooler, Created, Calls, spool}
use y4p.Daemon.Spool.Whole.{Spools, spool-Spools}
use y4p.Daemon.Worker.{State, Job, store_spooled, store_materialised}
use y4p.Daemon.Worker.Rows.{Same, store_spooled-Same}
use y4p.Tests.Order.{newest_first}

abbrev zeros : Bytes
zeros =
    0 ∷ 0 ∷ 0 ∷ 0 ∷ 0 ∷ 0 ∷ 0 ∷ 0 ∷ 0 ∷ 0 ∷ 0 ∷ 0 ∷ 0 ∷ 0 ∷ 0 ∷ 0 ∷ 0 ∷ 0 ∷ 0 ∷ 0 ∷ 0 ∷ 0 ∷ 0 ∷ 0
    ∷ 0 ∷ 0 ∷ 0 ∷ 0 ∷ 0 ∷ 0 ∷ 0 ∷ 0 ∷ []

abbrev digest : Bytes → Bytes
digest bytes = zeros

abbrev part : ℕ → Text
part n = n ∷ codes ".part"

abbrev drains : Calls
drains = record {
  created = Created.remade true true;
  head_written = true;
  pipe = inl false;
  scratch = false;
  rounds = [];
  passes =
      record { reading = KernelAnswer.moves 9; writing = Write.written }
      ∷ record { reading = KernelAnswer.moves 9; writing = Write.written }
      ∷ [];
}

abbrev idle_spooler : FileSpooler
idle_spooler = record { next = 4; files = [] }

spool-Spools_example :
    Spools digest []
      ((1 ∷ 2 ∷ []) ++ 3 ∷ [])
      3
      (spool digest part drains (1 ∷ 2 ∷ []) (3 ∷ []) 3 idle_spooler)
spool-Spools_example =
    spool-Spools digest part (λ b. refl) drains (1 ∷ 2 ∷ []) (3 ∷ []) 3 idle_spooler (omega arith)

-- A JPEG that the converter makes a PNG of.
abbrev photo : Bytes
photo = 0xFF ∷ 0xD8 ∷ 0xFF ∷ 9 ∷ []

abbrev converter : Convert
converter job bytes = inl (0x89 ∷ 0x50 ∷ 0x4E ∷ 0x47 ∷ [])

converter_fits :
    (job : Transcode) (bytes out : Bytes)
    → converter job bytes ≡ inl out
    → length out ≤ max_payload_bytes
converter_fits job bytes out e = ground (arith, e)

abbrev db_host : Host
db_host = record { digest = λ b. b; is_utf8 = λ b. true; lossy = λ b. b; newest = newest_first }

abbrev idle : State
idle = record {
  guards = fresh 3 30 2 1000;
  db = record {
    tables = record { clipboard = []; chunks = []; manifest = []; last_id = 0 };
    cache = [];
  };
}

abbrev one_job : Job
one_job = record {
  now = 5;
  later = 9;
  created = true;
  file_run = record { drains = true; readable = true };
  ts = 7;
  commits = true;
  written = in_full;
  moved = renamed;
}

abbrev no_message : OutputFormat → Text
no_message o = []

abbrev no_files : OpenFiles
no_files path = inr OsError.not_found

abbrev photo_file : SpooledFile
photo_file = record { path = codes "4.part"; len = 4; digest = zeros; owned = true }

store_spooled-Same_example :
    Same
      (store_spooled db_host digest 10 converter part no_message
        (codes "4-t.part")
        one_job
        (codes "image/jpeg")
        (some photo, photo_file)
        idle)
      (store_materialised db_host digest 10 converter no_files one_job
        (codes "image/jpeg")
        (Payload.memory photo)
        idle)
store_spooled-Same_example =
    store_spooled-Same db_host digest 10 converter part no_message (codes "4-t.part") (λ b. refl)
      converter_fits no_files one_job (codes "image/jpeg") photo photo_file idle (refl, refl, refl)
      (omega arith) (omega arith) refl refl refl (λ e. cc)
