-- ===== src/JobPool.antt =====
-- crates/dart_edge_core/src/job_pool.rs, the bounded worker-thread pool.
pub mod Counters
pub mod Pool
pub mod Submit
pub mod Worker
pub mod System
pub mod Balance
pub mod Conservation
pub mod Quiescence
pub mod Activity
pub mod Identity
pub mod Shutdown
mod Tests
