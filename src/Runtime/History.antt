-- ===== src/Runtime/History.antt =====
-- Where a history of the pending requests of lib.rs begins.
use dart_edge.Base.{ℕ, []}
use dart_edge.Base.Map.{Map}
use dart_edge.Runtime.Statics.{Statics, ServerState}

-- Without requests, from any servers on.
abbrev pub idle : ℕ → Map ℕ ServerState → Statics
idle next servers = record {
  next_request_id = next;
  pending_requests = [];
  response_channels = [];
  server_states = servers;
  events = [];
}
