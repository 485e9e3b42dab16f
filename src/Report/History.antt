-- ===== src/Report/History.antt =====
-- report.go: the ledger over time. The calls of many goroutines are a sequence of events. A flush is
-- three of them, since the mutex is free between its parts: the rows are collected, the stream writes
-- them, and the slots are released. Flushes may overlap: runner.go's streamFlusher is not awaited
-- before the flush of the teardown. The file itself does not hold the index of a row.
pub mod Slots
pub mod Collect
pub mod Invariant
mod Calls
mod Flights
pub mod Conserve
use utilities.Base.{
  ℕ, zero, suc, String, Bool, true, false, Option, none, some, List, [], ◌∷◌, ◌++◌, length, take,
}
use utilities.Report.Record.{Time, FileRecord, DownloadResult}
use utilities.Report.Store.{
  Store, new_store, set_stream, add_upload, attach_download_by_filename_id,
  attach_download_by_basename, attach_download, attach_track_id,
}
use utilities.Report.Flush.{Finality, collect, commit, count_flushed, stamp_pending_downloads}

-- The rows of one flush, each with its index.
abbrev pub Flight : Type 0
Flight = List (ℕ × FileRecord)

pub record Ledger : Type 0 where
  pub store : Store
  pub collected : List Flight  -- flushes that are about to write
  pub written : List Flight  -- flushes that are about to release their slots
  pub disk : Flight  -- the rows of the CSV file, with the indices they had

-- A flush is named by its place among those at the same point. `writes place none` is a write that
-- succeeds, `writes place (some n)` one that fails when `n` of its rows are in the file.
pub data Event : Type 0 where
  uploaded : FileRecord → Event
  tracked : String → String → String → Time → Bool → Event
  downloaded_id : String → DownloadResult → Event
  downloaded_name : String → DownloadResult → Event
  downloaded : String → String → DownloadResult → Event
  stamped : String → Event
  collects : Finality → Event
  writes : ℕ → Option ℕ → Event
  releases : ℕ → Event

unfoldable pub start : Ledger
start = record { store = set_stream new_store true; collected = []; written = []; disk = [] }

abbrev pub with_store : Ledger → Store → Ledger
with_store l s = record l { store = s }

abbrev pub attached : Ledger → Option (Store × Bool) → Option Ledger
attached l none = none
attached l (some (s, done)) = some (with_store l s)

abbrev pub updated : Ledger → Option Store → Option Ledger
updated l none = none
updated l (some s) = some (with_store l s)

abbrev pub indices : Flight → List ℕ
indices [] = []
indices ((i, r) ∷ rows) = i ∷ indices rows

abbrev pub with_indices : List ℕ → List FileRecord → Flight
with_indices (i ∷ is) (r ∷ rs) = (i, r) ∷ with_indices is rs
with_indices _ _ = []

-- A flush that finds no final row ends here.
abbrev pub hold : Ledger → Flight → Ledger
hold l [] = l
hold l (row ∷ rows) = record l { collected = l.collected ++ (row ∷ rows) ∷ [] }

unfoldable pub begin_flush : Ledger → Finality → Ledger
begin_flush l is_final =
    let b = collect is_final 0 l.store.records in
    hold (with_store l (record l.store { records = b.slots })) (with_indices b.indices b.rows)

-- The element at a place, and the list without it.
unfoldable pub pick : ℕ → List Flight → Option (Flight × List Flight)
pick place [] = none
pick zero (f ∷ fs) = some (f, fs)
pick (suc place) (f ∷ fs) = elim (pick place fs) [
  | none ↦ none
  | some found ↦ some (found.0, f ∷ found.1)
]

abbrev pub land : Ledger → Flight → List Flight → Option ℕ → Ledger
land l f fs none = record l { collected = fs; written = l.written ++ f ∷ []; disk = l.disk ++ f }
land l f fs (some n) = record l { collected = fs; disk = l.disk ++ take n f }

-- WriteRowsBatch: an error ends the flush.
unfoldable pub write_flush : Ledger → ℕ → Option ℕ → Ledger
write_flush l place outcome = elim (pick place l.collected) [
  | none ↦ l
  | some found ↦ land l found.0 found.1 outcome
]

abbrev pub settle : Ledger → Flight → List Flight → Option Store → Option Ledger
settle l f fs none = none
settle l f fs (some s) =
    some (record l { store = count_flushed (length (indices f)) s; written = fs })

unfoldable pub end_flush : Ledger → ℕ → Option Ledger
end_flush l place = elim (pick place l.written) [
  | none ↦ some l
  | some found ↦ settle l found.0 found.1 (commit l.store (indices found.0))
]

unfoldable pub step : Ledger → Event → Option Ledger
unfolding begin_flush write_flush end_flush
step l (uploaded r) = some (with_store l (add_upload l.store r))
step l (tracked user file id at late) = updated l (attach_track_id l.store user file id at late)
step l (downloaded_id marker d) = attached l (attach_download_by_filename_id l.store marker d)
step l (downloaded_name name d) = attached l (attach_download_by_basename l.store name d)
step l (downloaded user file d) = attached l (attach_download l.store user file d)
step l (stamped code) = some (with_store l (stamp_pending_downloads l.store code).0)
step l (collects is_final) = some (begin_flush l is_final)
step l (writes place outcome) = some (write_flush l place outcome)
step l (releases place) = end_flush l place

-- `none` when some event panics.
unfoldable pub run : Ledger → List Event → Option Ledger
run l [] = some l
run l (e ∷ es) = elim (step l e) [ none ↦ none | some l' ↦ run l' es ]
