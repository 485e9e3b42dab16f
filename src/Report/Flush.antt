-- ===== src/Report/Flush.antt =====
-- report.go: FlushFinalized and StampPendingDownloads. A flush holds the mutex twice, and other
-- calls may run between `collect` and `commit`; `flush_finalized` is the flush that none interrupts.
use utilities.Base.{
  ℕ, suc, ◌+◌, ◌-◌, String, Bool, true, false, not, ◌&&◌, ◌||◌, Option, none, some, List, [], ◌∷◌,
  ◌++◌, string_keyed, nat_keyed, delete, length, get_elem?, set, drop, take, ltb, if◌then◌else◌,
}
use utilities.Report.Record.{FileRecord, is_zero, empty?, record_key}
use utilities.Report.Store.{Store}

-- `isFinal` may change the row that it is shown.
abbrev pub Finality : Type 0
Finality = FileRecord → FileRecord × Bool

pub record Batch : Type 0 where
  pub slots : List (Option FileRecord)
  pub rows : List FileRecord
  pub indices : List ℕ

-- One live row joins the batch if it is final.
abbrev pub take_row : Bool → ℕ → FileRecord → Batch → Batch
take_row true i r b = record {
  slots = some r ∷ b.slots;
  rows = r ∷ b.rows;
  indices = i ∷ b.indices;
}
take_row false i r b = record b { slots = some r ∷ b.slots }

-- The first half: the rows to write, and their indices from `i` on.
unfoldable pub collect : Finality → ℕ → List (Option FileRecord) → Batch
collect is_final i [] = record { slots = []; rows = []; indices = [] }
collect is_final i (none ∷ rs) =
    let b = collect is_final (suc i) rs in record b { slots = none ∷ b.slots }
collect is_final i (some r ∷ rs) =
    take_row (is_final r).1 i (is_final r).0 (collect is_final (suc i) rs)

-- No later call can change the row, so its index entries go.
unfoldable pub can_prune : FileRecord → Bool
can_prune r =
    (not (empty? r.error_code) && empty? r.track_id)
    || not (is_zero r.download_end_time)
    || not (empty? r.download_error)

abbrev pub keep_tail : ℕ → List FileRecord → List FileRecord
keep_tail cap rows = if ltb cap (length rows) then drop (length rows - cap) rows else rows

unfoldable pub release : Store → ℕ → FileRecord → Store
unfolding can_prune
release s i r = record s {
  records = set s.records i none;
  recent_tail = keep_tail s.recent_tail_cap (s.recent_tail ++ r ∷ []);
  by_key = if can_prune r then delete (record_key r.user r.filename) s.by_key else s.by_key;
  by_basename = if can_prune r then delete r.filename s.by_basename else s.by_basename;
  by_filename_id =
      if can_prune r && not (empty? r.filename_id)
      then delete r.filename_id s.by_filename_id
      else s.by_filename_id;
}

-- The second half, index by index.
unfoldable pub commit : Store → List ℕ → Option Store
commit s [] = some s
commit s (i ∷ is) = elim (get_elem? s.records i) [
  | none ↦ none
  | some slot ↦ elim slot [ none ↦ commit s is | some r ↦ commit (release s i r) is ]
]

abbrev pub count_flushed : ℕ → Store → Store
count_flushed n s = record s { flushed = s.flushed + n }

-- What a flush returns: the rows that reached the disk and whether the write failed.
pub record Flushed : Type 0 where
  pub store : Store
  pub rows : List FileRecord
  pub failed : Bool

-- The stream's WriteRowsBatch: `none` for a batch that is written, `some n` for an error after the
-- first `n` rows, which stay in the file.
abbrev pub Writer : Type 0
Writer = List FileRecord → Option ℕ

abbrev pub finish_flush : Option Store → List FileRecord → Option Flushed
finish_flush none rows = none
finish_flush (some s) rows =
    some (record { store = count_flushed (length rows) s; rows = rows; failed = false })

abbrev pub nothing : Store → Flushed
nothing s = record { store = s; rows = []; failed = false }

abbrev pub cut_short : Store → ℕ → List FileRecord → Flushed
cut_short s n rows = record { store = s; rows = take n rows; failed = true }

unfoldable pub flush_batch : Store → Writer → Batch → Option Flushed
flush_batch s write b = elim b.rows [
  | [] ↦ some (nothing (record s { records = b.slots }))
  | r ∷ rs ↦ elim (write (r ∷ rs)) [
    | none ↦ finish_flush (commit (record s { records = b.slots }) b.indices) (r ∷ rs)
    | some n ↦ some (cut_short (record s { records = b.slots }) n (r ∷ rs))
  ]
]

unfoldable pub flush_finalized : Store → Finality → Writer → Option Flushed
unfolding flush_batch
flush_finalized s is_final write =
    if s.has_stream then flush_batch s write (collect is_final 0 s.records) else some (nothing s)

-- A row whose upload resolved and whose download neither ended nor failed.
unfoldable pub is_pending : FileRecord → Bool
is_pending r = not (empty? r.track_id) && is_zero r.download_end_time && empty? r.download_error

unfoldable pub stamp_rows : String → List (Option FileRecord) → List (Option FileRecord) × ℕ
unfolding is_pending
stamp_rows code [] = ([], 0)
stamp_rows code (none ∷ rs) = let (rs', n) = stamp_rows code rs in (none ∷ rs', n)
stamp_rows code (some r ∷ rs) =
    let (rs', n) = stamp_rows code rs in
    if is_pending r
    then (some (record r { download_error = code }) ∷ rs', n + 1)
    else (some r ∷ rs', n)

unfoldable pub stamp_pending_downloads : Store → String → Store × ℕ
unfolding stamp_rows
stamp_pending_downloads s code =
    let (rs, n) = stamp_rows code s.records in
    if empty? code then (s, 0) else (record s { records = rs }, n)
