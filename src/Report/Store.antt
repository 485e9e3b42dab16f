-- ===== src/Report/Store.antt =====
-- report.go: the store and its operations on single rows.
use utilities.Base.{
  ℕ, ◌+◌, String, Bool, true, false, not, ◌&&◌, Option, none, some, List, [], ◌∷◌, ◌++◌, Dict,
  lookup, insert, has, string_keyed, nat_keyed, length, get_elem?, set, if◌then◌else◌,
}
use utilities.Report.Record.{
  Time, FileRecord, DownloadResult, is_zero, empty?, unix_minute, record_key, has_verdict,
  hashes_match, apply_download, apply_track_id,
}

-- `none` is a slot that was flushed: `records[i] == nil`.
pub record Store : Type 0 where
  pub records : List (Option FileRecord)
  pub by_key : Dict String ℕ
  pub by_basename : Dict String ℕ
  pub by_filename_id : Dict String ℕ
  pub by_minute : Dict ℕ (List ℕ)
  pub has_stream : Bool
  pub flushed : ℕ
  pub hash_verified : ℕ
  pub hash_mismatch : ℕ
  pub recent_tail : List FileRecord
  pub recent_tail_cap : ℕ

abbrev pub recent_tail_cap_default : ℕ
recent_tail_cap_default = 256

unfoldable pub new_store : Store
new_store = record {
  records = [];
  by_key = [];
  by_basename = [];
  by_filename_id = [];
  by_minute = [];
  has_stream = false;
  flushed = 0;
  hash_verified = 0;
  hash_mismatch = 0;
  recent_tail = [];
  recent_tail_cap = recent_tail_cap_default;
}

unfoldable pub set_stream : Store → Bool → Store
set_stream s attached = record s { has_stream = attached }

abbrev pub indexes_at : Dict ℕ (List ℕ) → ℕ → List ℕ
indexes_at m k = elim (lookup k m) [ none ↦ [] | some is ↦ is ]

unfoldable pub add_upload : Store → FileRecord → Store
add_upload s r = record s {
  records = s.records ++ some r ∷ [];
  by_key = insert (record_key r.user r.filename) idx s.by_key;
  by_basename = insert r.filename idx s.by_basename;
  by_filename_id =
      if empty? r.filename_id then s.by_filename_id else insert r.filename_id idx s.by_filename_id;
  by_minute =
      if is_zero r.start_time
      then s.by_minute
      else insert (unix_minute r.start_time)
          (indexes_at s.by_minute (unix_minute r.start_time) ++ idx ∷ []) s.by_minute;
}
  where
    idx : ℕ
    idx = length s.records

abbrev pub bump : Bool → ℕ → ℕ
bump test n = if test then n + 1 else n

-- The store after an attach to the row `r` in slot `idx`.
unfoldable pub attach_row : Store → ℕ → FileRecord → DownloadResult → Store
attach_row s idx r d = record s {
  records = set s.records idx (some (apply_download r d));
  hash_verified = bump (has_verdict r d && hashes_match r d) s.hash_verified;
  hash_mismatch = bump (has_verdict r d && not (hashes_match r d)) s.hash_mismatch;
}

-- The part of the three AttachDownload methods below their index lookup.
unfoldable pub attach_at : Store → Option ℕ → DownloadResult → Option (Store × Bool)
attach_at s none d = some (s, false)
attach_at s (some idx) d = elim (get_elem? s.records idx) [
  | none ↦ none
  | some slot ↦ elim slot [ none ↦ some (s, false) | some r ↦ some (attach_row s idx r d, true) ]
]

unfoldable pub attach_download_by_filename_id :
    Store → String → DownloadResult → Option (Store × Bool)
unfolding attach_at
attach_download_by_filename_id s marker d = attach_at s (lookup marker s.by_filename_id) d

unfoldable pub attach_download_by_basename : Store → String → DownloadResult → Option (Store × Bool)
unfolding attach_at
attach_download_by_basename s basename d = attach_at s (lookup basename s.by_basename) d

unfoldable pub attach_download : Store → String → String → DownloadResult → Option (Store × Bool)
unfolding attach_at
attach_download s user filename d = attach_at s (lookup (record_key user filename) s.by_key) d

unfoldable pub track_at : Store → Option ℕ → (FileRecord → FileRecord) → Option Store
track_at s none change = some s
track_at s (some idx) change = elim (get_elem? s.records idx) [
  | none ↦ none
  | some slot ↦ elim slot [
    | none ↦ some s
    | some r ↦ some (record s { records = set s.records idx (some (change r)) })
  ]
]

unfoldable pub attach_track_id : Store → String → String → String → Time → Bool → Option Store
unfolding track_at
attach_track_id s user filename track_id detected_at timed_out =
    track_at s (lookup (record_key user filename) s.by_key)
      (λ r. apply_track_id r track_id detected_at timed_out)

unfoldable pub has_upload_by_filename_id : Store → String → Bool
has_upload_by_filename_id s marker = not (empty? marker) && has marker s.by_filename_id

unfoldable pub has_upload_by_basename : Store → String → Bool
has_upload_by_basename s basename = not (empty? basename) && has basename s.by_basename

-- The rows that are still in memory.
unfoldable pub live_rows : List (Option FileRecord) → List FileRecord
live_rows [] = []
live_rows (none ∷ rs) = live_rows rs
live_rows (some r ∷ rs) = r ∷ live_rows rs

unfoldable pub snapshot : Store → List FileRecord
unfolding live_rows
snapshot s = live_rows s.records

unfoldable pub live : List (Option FileRecord) → ℕ
live [] = 0
live (none ∷ rs) = live rs
live (some r ∷ rs) = live rs + 1

unfoldable pub live_count : Store → ℕ
unfolding live
live_count s = live s.records
