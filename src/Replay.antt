-- ===== src/Replay.antt =====
-- src/trace/replay.c in parts: the trace file and its events, and the choice of threads by them.
pub mod Events
pub mod Loaded
pub mod Recording
pub mod Ends
pub mod Session
pub mod RoundTrip
pub mod Rejects
pub mod Drive
pub mod Skip
pub mod Follow
pub mod Stats
