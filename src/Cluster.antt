-- ===== src/Cluster.antt =====
-- sftp-loadtest/internal/cluster/cluster.go: the coordinator of a run that several workers share.
pub mod Fleet
pub mod Coordinator
pub mod Rollback
pub mod Stopped
pub mod Merge
pub mod Split
pub mod Steps
mod Tests
