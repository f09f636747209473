-- ===== src/Runtime/Statics.antt =====
-- lib.rs: the pending requests, the servers and the events. The two ends of a request's response
-- channel are known by the request's id, which is never given out twice.
use dart_edge.Base.{ℕ, Bool, true, false, List, [], ◌∷◌, ◌++◌, Option, none, some}
use dart_edge.Base.Keys.{nat_eq}
use dart_edge.Base.Map
use dart_edge.Base.Map.{Map}
use dart_edge.Runtime.Message.{TransportRequest, PendingResponseMessage, TransportEventKind}
use dart_edge.Runtime.Channel.{Channel}

pub record PendingRequest : Type 0 where
  pub server_id : ℕ
  pub request : Option TransportRequest

pub record ServerState : Type 0 where
  pub shutdown_sent : Bool

-- `events` is what the Dart callback has been called with, in order.
pub record Statics : Type 0 where
  pub next_request_id : ℕ
  pub pending_requests : Map ℕ PendingRequest
  pub response_channels : Map ℕ (Channel PendingResponseMessage)
  pub server_states : Map ℕ ServerState
  pub events : List (TransportEventKind × ℕ)

-- A server that has been stopped gets no events.
unfoldable pub notify_transport_event : ℕ → TransportEventKind → ℕ → Statics → Statics × Bool
notify_transport_event server_id kind event_id s = elim (Map.get server_id s.server_states) [
  | none ↦ (s, false)
  | some _ ↦ (record s { events = s.events ++ (kind, event_id) ∷ [] }, true)
]
