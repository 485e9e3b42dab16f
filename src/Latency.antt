-- ===== src/Latency.antt =====
-- sftp-loadtest/internal/latency/histogram.go: the counts of latencies by bucket.
pub mod Histogram
pub mod Buckets
pub mod Counts
mod Tests
