-- ===== src/TrackIds.antt =====
-- sftp-loadtest/internal/trackid/watcher.go: the watcher that waits for the server to rename an upload.
pub mod Watcher
pub mod Kept
pub mod Answered
mod Tests
