-- ===== src/Report/Attach.antt =====
-- What an attach does: the row that it reaches, and the verdict on the hashes.
use utilities.Base.{ℕ, ◌+◌, ◌≡◌, String, true, string_keyed, arith, if◌then◌else◌}
use utilities.Report.Record.{
  FileRecord, DownloadResult, empty?, has_verdict, hashes_match, apply_download,
}
use utilities.Report.Store.{Store, attach_row}

-- What is written where an attach gives a verdict.
abbrev pub verdict_error : FileRecord → DownloadResult → String
verdict_error r d =
    if hashes_match r d then d.error else (if empty? d.error then "HASH_MISMATCH" else d.error)

-- When both hashes are known the row says whether they are equal, a mismatch shows in the error
-- column unless the download failed by itself, and exactly one of the two tallies grows, by one.
pub attach_row_verdict :
    (s : Store) (i : ℕ) (r : FileRecord) (d : DownloadResult)
    → has_verdict r d ≡ true
    → let t = attach_row s i r d in
      ((apply_download r d).hash_match ≡ hashes_match r d)
      × ((apply_download r d).download_error ≡ verdict_error r d)
      × (t.hash_verified ≡ s.hash_verified + (if hashes_match r d then 1 else 0))
      × (t.hash_mismatch ≡ s.hash_mismatch + (if hashes_match r d then 0 else 1))
unfolding attach_row apply_download has_verdict hashes_match
attach_row_verdict s i r d h = ground arith
