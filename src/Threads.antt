-- ===== src/Threads.antt =====
-- threaddump-analyzer/internal: what is read off the thread dumps of a JVM, and off several of them.
pub mod Dump
pub mod Waits
pub mod Deadlocks
pub mod Runs
pub mod Lifelines
pub mod Predicted
pub mod Contended
mod Tests
