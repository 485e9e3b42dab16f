-- ===== src/Guards.antt =====
-- sftp-loadtest/internal/web/security.go: what stands before the handlers of the web server.
pub mod Requests
pub mod Bucket
pub mod Limits
pub mod Sweep
mod Tests
