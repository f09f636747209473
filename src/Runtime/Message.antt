-- ===== src/Runtime/Message.antt =====
-- lib.rs: requests, response messages and events (lines 285 to 347, 816 to 831).
use dart_edge.Base.{ℕ, List, Option}
use dart_edge.Base.Map.{Map}
use dart_edge.Text.Bytes.{Bytes, Str}

pub data NativeBodyKind : Type 0 where
  none text json multipart : NativeBodyKind

pub data NativeRequestKind : Type 0 where
  http web_socket web_transport : NativeRequestKind

pub record TransportRequest : Type 0 where
  pub route_id : Str
  pub path_params : Map Str Str
  pub query : Map Str Str
  pub headers : Map Str Str
  pub body : Option Bytes
  pub request_kind : NativeRequestKind
  pub body_kind : NativeBodyKind

pub record TransportResponse : Type 0 where
  pub status : ℕ
  pub content_type : Str
  pub body : Bytes
  pub headers : List (Str × Str)

-- A native stream is known by its context. A binary chunk's `consumed_tx` is left to the reader.
pub data PendingResponseMessage : Type 0 where
  http_response : TransportResponse → PendingResponseMessage
  sse_start : ℕ → List (Str × Str) → PendingResponseMessage
  sse_chunk : Str → PendingResponseMessage
  binary_start : ℕ → Str → Option ℕ → List (Str × Str) → PendingResponseMessage
  binary_chunk : Bytes → PendingResponseMessage
  native_binary_start : ℕ → Str → Option ℕ → List (Str × Str) → ℕ → PendingResponseMessage
  web_socket_accept : List (Str × Str) → PendingResponseMessage
  close : PendingResponseMessage

pub data TransportEventKind : Type 0 where
  request_ready : TransportEventKind
  web_socket_opened web_socket_message_ready web_socket_closed : TransportEventKind
  web_transport_opened web_transport_datagram_ready web_transport_closed : TransportEventKind
  web_transport_stream_ready web_transport_persistent_stream_opened : TransportEventKind
  web_transport_stream_chunk_ready web_transport_stream_finished : TransportEventKind
  web_transport_operation_ready : TransportEventKind
