-- ===== src/Report/Record.antt =====
-- report.go: the rows of the ledger and what a download result does to one.
use utilities.Base.{
  ℕ, ◌-◌, ◌/◌, String, str_append, Bool, not, ◌&&◌, ◌==◌, string_keyed, nat_keyed, if◌then◌else◌, ℤ,
  sub_ℕ,
}

abbrev pub Time : Type 0
Time = ℕ

abbrev pub is_zero : Time → Bool
is_zero t = t == 0

-- t.Unix() / 60, for a time from 1970 on.
pub unix_minute : Time → ℕ
unix_minute t = (t / 1_000_000_000 - 62_135_596_800) / 60

pub record FileRecord : Type 0 where
  pub user : String
  pub kind : String
  pub filename : String
  pub start_time : Time
  pub end_time : Time
  pub size_bytes : ℕ
  pub expected_size : ℕ
  pub incomplete : Bool
  pub speed_mbps : ℕ
  pub track_id : String
  pub track_id_at : Time
  pub track_id_wait : ℤ
  pub in_slowdown : Bool
  pub error : String
  pub error_code : String
  pub filename_id : String
  pub download_user : String
  pub download_available_at : Time
  pub download_start_time : Time
  pub download_end_time : Time
  pub download_size_bytes : ℕ
  pub download_speed_mbps : ℕ
  pub download_wait : ℤ
  pub download_error : String
  pub upload_sha256 : String
  pub download_sha256 : String
  pub hash_match : Bool

pub record DownloadResult : Type 0 where
  pub user : String
  pub start_time : Time
  pub end_time : Time
  pub size_bytes : ℕ
  pub speed_mbps : ℕ
  pub available_at : Time
  pub error : String
  pub sha256 : String

abbrev pub empty? : String → Bool
empty? s = s == ""

-- user + "|" + filename
abbrev pub record_key : String → String → String
record_key user filename = str_append user (str_append "|" filename)

-- Both hashes are present, so the attach gives a verdict.
unfoldable pub has_verdict : FileRecord → DownloadResult → Bool
has_verdict r d = not (empty? d.sha256) && not (empty? r.upload_sha256)

unfoldable pub hashes_match : FileRecord → DownloadResult → Bool
hashes_match r d = r.upload_sha256 == d.sha256

-- The fields that every attach copies.
abbrev pub copy_result : FileRecord → DownloadResult → FileRecord
copy_result r d = record r {
  download_user = d.user;
  download_available_at = d.available_at;
  download_start_time = d.start_time;
  download_end_time = d.end_time;
  download_size_bytes = d.size_bytes;
  download_speed_mbps = d.speed_mbps;
  download_error = d.error;
}

-- The hash comparison of an attach.
abbrev pub verify_hash : FileRecord → DownloadResult → FileRecord
verify_hash r d =
    if empty? d.sha256
    then r
    else (if empty? r.upload_sha256 then record r { download_sha256 = d.sha256 } else record r {
      download_sha256 = d.sha256;
      hash_match = hashes_match r d;
      download_error =
          if not (hashes_match r d) && empty? r.download_error
          then "HASH_MISMATCH"
          else r.download_error;
    })

abbrev pub stamp_wait : FileRecord → DownloadResult → FileRecord
stamp_wait r d =
    if not (is_zero d.available_at) && not (is_zero d.start_time)
    then record r { download_wait = sub_ℕ d.start_time d.available_at }
    else r

-- What an attach does to the row that it found.
unfoldable pub apply_download : FileRecord → DownloadResult → FileRecord
unfolding hashes_match
apply_download r d = stamp_wait (verify_hash (copy_result r d) d) d

-- The row of AttachTrackID.
unfoldable pub apply_track_id : FileRecord → String → Time → Bool → FileRecord
apply_track_id r track_id detected_at timed_out =
    let named =
      if timed_out
      then record r {
        track_id = "TRACKID_TIMEOUT";
        error_code = if empty? r.error_code then "TRACKID_TIMEOUT" else r.error_code;
      }
      else record r { track_id = track_id } in
    let dated = record named { track_id_at = detected_at } in
    if is_zero r.end_time
    then dated
    else record dated { track_id_wait = sub_ℕ detected_at r.end_time }
