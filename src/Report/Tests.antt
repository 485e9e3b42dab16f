-- ===== src/Report/Tests.antt =====
-- Runs of the ledger, and the theorems at concrete inputs.
use utilities.Base.{
  ◌+◌, ◌≡◌, refl, String, true, false, Bool, not, none, some, List, [], ◌∷◌, length, lookup, insert,
  string_keyed, nat_keyed, pos, Option, map,
}
use utilities.Report.Record.{FileRecord, DownloadResult, empty?, has_verdict, apply_download}
use utilities.Report.Store.{
  Store, new_store, set_stream, add_upload, attach_row, attach_download_by_basename, snapshot,
}
use utilities.Report.Flush.{stamp_pending_downloads, Flushed, flush_finalized, commit, collect}
use utilities.Report.Attach.{attach_row_verdict, verdict_error}
use utilities.Report.Settle.{finals, others, flush_finalized-Settles}
use utilities.Report.Pending.{pending, stamp_pending_downloads-Clears}
use utilities.Report.History.{
  Ledger, Event, uploaded, downloaded_name, collects, writes, releases, start, step, run,
  begin_flush, write_flush, end_flush, pick,
}

abbrev row : String → String → FileRecord
row user filename = record {
  user = user;
  kind = "normal";
  filename = filename;
  start_time = 63_900_000_000_000_000_000;
  end_time = 63_900_000_001_000_000_000;
  size_bytes = 1024;
  expected_size = 1024;
  incomplete = false;
  speed_mbps = 0;
  track_id = "t1";
  track_id_at = 63_900_000_002_000_000_000;
  track_id_wait = pos 1_000_000_000;
  in_slowdown = false;
  error = "";
  error_code = "";
  filename_id = "";
  download_user = "";
  download_available_at = 0;
  download_start_time = 0;
  download_end_time = 0;
  download_size_bytes = 0;
  download_speed_mbps = 0;
  download_wait = pos 0;
  download_error = "";
  upload_sha256 = "aa";
  download_sha256 = "";
  hash_match = false;
}

abbrev result : String → DownloadResult
result sha = record {
  user = "dl";
  start_time = 63_900_000_003_000_000_000;
  end_time = 63_900_000_004_000_000_000;
  size_bytes = 1024;
  speed_mbps = 0;
  available_at = 63_900_000_002_000_000_000;
  error = "";
  sha256 = sha;
}

abbrev ended : FileRecord → FileRecord × Bool
ended r = (r, not (empty? r.download_user))

abbrev one_row : Store
one_row = set_stream (add_upload new_store (row "u" "a.txt")) true

-- The flush of the teardown overlaps the one of the ticker, whose write stops after a row.
abbrev history : List Event
history =
    uploaded (row "u" "a.txt")
    ∷ uploaded (row "u" "b.txt")
    ∷ downloaded_name "a.txt" (result "aa")
    ∷ collects ended
    ∷ uploaded (row "v" "c.txt")
    ∷ collects ended
    ∷ writes 0 (some 1)
    ∷ writes 0 none
    ∷ releases 0
    ∷ []

abbrev disk_files : Option Ledger → List String
disk_files none = []
disk_files (some l) = map (λ entry. entry.1.filename) l.disk

-- The row with a download is on the disk twice, and the upload during the flush is not lost.
history_runs : disk_files (run start history) ≡ "a.txt" ∷ "a.txt" ∷ []
unfolding run start step attach_download_by_basename lookup add_upload insert set_stream new_store
    commit collect attach_row apply_download begin_flush write_flush end_flush pick
history_runs = refl

test_attach_row_verdict :
    (apply_download (row "u" "a.txt") (result "bb")).download_error
    ≡ verdict_error (row "u" "a.txt") (result "bb")
unfolding has_verdict
test_attach_row_verdict = (attach_row_verdict one_row 0 (row "u" "a.txt") (result "bb") refl).1

flush_finalized-Settles_example :
    (t : Flushed) × (flush_finalized one_row ended (λ rows. none) ≡ some t)
    × (t.rows ≡ finals ended (snapshot one_row))
    × (snapshot t.store ≡ others ended (snapshot one_row))
    × (t.store.flushed ≡ one_row.flushed + length t.rows)
unfolding set_stream
flush_finalized-Settles_example = flush_finalized-Settles one_row ended (λ rows. none) refl refl

abbrev all_final : FileRecord → FileRecord × Bool
all_final r = (r, true)

abbrev two_rows : Store
two_rows = set_stream (add_upload (add_upload new_store (row "u" "a.txt")) (row "u" "b.txt")) true

test_stamp_pending_downloads_clears :
    pending (snapshot (stamp_pending_downloads one_row "DOWNLOAD_TIMEOUT_LOCAL").0) ≡ 0
test_stamp_pending_downloads_clears =
    (stamp_pending_downloads-Clears one_row "DOWNLOAD_TIMEOUT_LOCAL" refl).1
