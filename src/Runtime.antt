-- ===== src/Runtime.antt =====
-- The tables of packages/dart_edge_http_server_runtime/rust/src/lib.rs that the HTTP side and the
-- Dart side share, and the operations on them.
pub mod Message
pub mod Channel
pub mod Statics
pub mod Pending
pub mod Calls
pub mod Transcript
pub mod History
pub mod Handover
pub mod Steps
pub mod Ledger
pub mod Stopping
pub mod Kept
pub mod Claimed
pub mod Endings
pub mod Sequential
pub mod Leaving
pub mod Gone
pub mod Stopped
mod Tests
