-- ===== src/HostKeys.antt =====
-- sftp-loadtest/internal/hostkeys: the store of trusted host keys and the callbacks of a dial.
pub mod Store
pub mod Callbacks
pub mod Certificates
pub mod Pinned
mod Tests
