-- ===== src/Runner/Final.antt =====
-- runner.go: `isRecordFinal`, by which the flush decides what to write.
use utilities.Base.{
  ℕ, ◌+◌, ◌*◌, ◌<◌, ◌≡◌, Bool, true, false, not, ◌&&◌, ltb, max, if◌then◌else◌, arith, string_keyed,
}
use utilities.Report.Record.{FileRecord, is_zero, empty?}

-- What of the run's configuration and of the clock it reads; durations are not negative.
pub record Deadline : Type 0 where
  pub has_download : Bool
  pub track_id_timeout : ℕ
  pub poll_interval : ℕ
  pub now : ℕ

abbrev pub grace : Deadline → ℕ
grace d =
    let timeout =
      if ltb d.track_id_timeout (d.poll_interval * 20)
      then d.poll_interval * 20
      else d.track_id_timeout in
    if ltb timeout 120_000_000_000 then 120_000_000_000 else timeout

abbrev pub stamp_timeout : FileRecord → FileRecord
stamp_timeout r =
    if empty? r.download_error then record r { download_error = "DOWNLOAD_TIMEOUT_LOCAL" } else r

-- The record after the call, which may stamp it, and the answer.
unfoldable pub is_record_final : Deadline → FileRecord → FileRecord × Bool
is_record_final d r =
    if not (empty? r.error_code) && empty? r.track_id
    then (r, true)
    else if empty? r.track_id
    then (r, false)
    else if not d.has_download
    then (r, true)
    else if not (is_zero r.download_end_time)
    then (r, true)
    else if not (is_zero r.track_id_at) && ltb (r.track_id_at + grace d) d.now
    then (stamp_timeout r, true)
    else (r, false)

-- The clock of a later call.
abbrev pub later : Deadline → ℕ → Deadline
later d t = record d { now = d.now + t }

-- A final record stays final when nothing but the clock changes, also with the stamp that the first
-- call may have left.
pub is_record_final-Stable :
    (d : Deadline) (r : FileRecord) (t : ℕ)
    → (is_record_final d r).1 ≡ true
    → (is_record_final (later d t) (is_record_final d r).0).1 ≡ true
unfolding is_record_final
is_record_final-Stable d r t final = ground arith

-- Every record whose track id is known, since an instant that is known, is final once the clock is
-- past the greatest of the track id timeout, twenty poll intervals and two minutes after it.
pub is_record_final-Expires :
    (d : Deadline) (r : FileRecord)
    → empty? r.track_id ≡ false
    → is_zero r.track_id_at ≡ false
    → r.track_id_at + max d.track_id_timeout (max (d.poll_interval * 20) 120_000_000_000) < d.now
    → (is_record_final d r).1 ≡ true
unfolding is_record_final
is_record_final-Expires d r known stamped past = ground arith
