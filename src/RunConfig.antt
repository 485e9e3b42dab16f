-- ===== src/RunConfig.antt =====
-- sftp-loadtest/internal/config/config.go: the configuration of a run and its checks.
pub mod Source
pub mod Run
pub mod Checked
pub mod Users
mod Tests
