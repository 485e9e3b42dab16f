-- ===== src/Runner.antt =====
-- sftp-loadtest/internal/runner/runner.go: the parts of a run that decide whom to load, and when
-- to stop.
pub mod Disable
pub mod Rotation
pub mod Final
pub mod Pool
mod Tests
