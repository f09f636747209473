-- ===== src/Routing.antt =====
-- The routes of packages/dart_edge_http_server_runtime/rust/src/lib.rs.
pub mod Method
pub mod Manifest
pub mod Route
pub mod Compile
pub mod Match
pub mod Fits
pub mod Selection
pub mod HandlerPath
pub mod Sound
mod Tests
