-- ===== src/Http.antt =====
-- The HTTP side of packages/dart_edge_http_server_runtime/rust/src/lib.rs: from a request to the
-- response that the client gets.
pub mod Response
pub mod Body
pub mod BodyRead
pub mod Validate
pub mod Checked
pub mod Reason
pub mod Refusal
pub mod Composed
pub mod ByteStream
pub mod StreamLedger
pub mod Handle
pub mod Streaming
pub mod PartHeader
pub mod Multipart
pub mod PartRead
pub mod MultipartBounds
mod Tests
mod MultipartTests
