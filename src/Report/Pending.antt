-- ===== src/Report/Pending.antt =====
-- What StampPendingDownloads does to the rows in memory.
use utilities.Base.{
  ℕ, ◌+◌, ◌≡◌, refl, String, string_keyed, false, Option, none, some, List, [], ◌∷◌, arith, length,
  if◌then◌else◌,
}
use utilities.Report.Record.{FileRecord, empty?}
use utilities.Report.Store.{Store, live_rows, snapshot}
use utilities.Report.Flush.{is_pending, stamp_rows, stamp_pending_downloads}

-- The rows that wait for a download.
unfoldable pub pending : List FileRecord → ℕ
pending [] = 0
pending (r ∷ rs) = if is_pending r then pending rs + 1 else pending rs

pending-stamp_rows :
    (code : String) (rs : List (Option FileRecord))
    → empty? code ≡ false
    → ((stamp_rows code rs).1 ≡ pending (live_rows rs))
      × (pending (live_rows (stamp_rows code rs).0) ≡ 0)
      × (length (live_rows (stamp_rows code rs).0) ≡ length (live_rows rs))
unfolding stamp_rows live_rows pending is_pending
pending-stamp_rows code [] h = (refl, refl, refl)
pending-stamp_rows code (none ∷ rs) h = pending-stamp_rows code rs h
pending-stamp_rows code (some r ∷ rs) h = ground (arith, pending-stamp_rows code rs h)

-- With a non-empty code every waiting row is stamped and counted, none waits afterwards, and no row
-- is added or dropped.
pub stamp_pending_downloads-Clears :
    (s : Store) (code : String)
    → empty? code ≡ false
    → let t = stamp_pending_downloads s code in
      (t.1 ≡ pending (snapshot s))
      × (pending (snapshot t.0) ≡ 0)
      × (length (snapshot t.0) ≡ length (snapshot s))
unfolding stamp_pending_downloads snapshot
stamp_pending_downloads-Clears s code h = rw h (pending-stamp_rows code s.records h)
