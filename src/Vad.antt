-- ===== src/Vad.antt =====
-- packages/dart_edge_vad/rust/src/lib.rs: voice activity detection, of a whole input and of a stream.
pub mod Request
pub mod Segment
pub mod Network
pub mod Batch
pub mod Stream
pub mod Windows
pub mod Simulation
pub mod Draining
pub mod Ending
pub mod Calls
pub mod Answers
pub mod Whole
pub mod Equivalence
mod Tests
pub mod Trim
pub mod Slices
pub mod Cutting
pub mod TrimCalls
pub mod TrimLife
