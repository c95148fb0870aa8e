-- ===== src/Tests.antt =====
-- The theorems at concrete inputs.
pub mod Data
pub mod Threads
pub mod Scheduling
pub mod Queues
pub mod Traces
pub mod Locks
pub mod Systems
pub mod Contexts
pub mod Waits
pub mod Memory
pub mod Recordings
