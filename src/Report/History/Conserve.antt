-- ===== src/Report/History/Conserve.antt =====
-- report.go: single events, and histories of them.
use utilities.Base.{ℕ, suc, ◌+◌, none, some, List, [], ◌∷◌}
use utilities.Report.Store.{Store}
use utilities.Report.History.{Flight, Event, uploaded}
use utilities.Report.History.Slots.{Slots}
use utilities.Report.History.Invariant.{IsOnDisk}

-- The slots that an event adds.
abbrev pub added : Event → ℕ
added (uploaded r) = 1
added _ = 0

abbrev pub uploads : List Event → ℕ
uploads [] = 0
uploads (e ∷ es) = added e + uploads es

-- Each slot from the index `i` on holds its row, or the row is on the disk.
abbrev pub IsLossless : Flight → ℕ → Slots → Type 0
IsLossless disk i [] = Unit
IsLossless disk i (none ∷ rs) = IsOnDisk disk i × IsLossless disk (suc i) rs
IsLossless disk i (some r ∷ rs) = IsLossless disk (suc i) rs
