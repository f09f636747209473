-- ===== src/Realtime.antt =====
-- WebSocket and WebTransport sessions of
-- packages/dart_edge_http_server_runtime/rust/src/lib.rs.
pub mod WebSocket
pub mod SocketQueue
mod Tests
pub mod WebTransport
pub mod SharedBudget
pub mod Operation
pub mod Stream
pub mod Tasks
pub mod StreamCalls
pub mod StreamLife
pub mod StreamRun
pub mod Drain
