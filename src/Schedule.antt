-- ===== src/Schedule.antt =====
-- sftp-loadtest/internal/web/schedule.go: future runs, kept as files, and the sweep that fires
-- them.
pub mod Entry
pub mod Sweep
pub mod Advance
pub mod Listed
pub mod Settled
pub mod Fire
mod Tests
