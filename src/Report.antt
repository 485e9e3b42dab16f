-- ===== src/Report.antt =====
-- sftp-loadtest/internal/report/report.go: the per-file ledger of a run, `Store`.
-- A `time.Time` is the number of nanoseconds since Go's zero time, and 0 is the zero time. A
-- float64 is only copied here, so it is carried as its bit pattern. A method returns the new
-- store, and `none` where the code would index `records` out of range and panic.
pub mod Record
pub mod Store
pub mod Flush
pub mod Bounds
pub mod History
pub mod Attach
pub mod Settle
pub mod Pending
mod Tests
