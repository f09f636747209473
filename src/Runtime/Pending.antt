-- ===== src/Runtime/Pending.antt =====
-- lib.rs: the life of a request between the HTTP side and the Dart side (lines 979 to 1250, 1826 to
-- 1854, 2833 to 2891). The arguments are those that the pointers stand for: a text that cannot be
-- read is `none`. A call is one step here, without another call between the locks that it takes one
-- after the other; Steps takes such calls apart. A call that sends a binary chunk then waits for the
-- reader; its result here is that of the send.
use dart_edge.Base.{
  ℕ, ◌%◌, Bool, true, false, List, [], ◌∷◌, Option, none, some, ltb, ◌==◌, if◌then◌else◌,
}
use dart_edge.Base.Keys.{nat_eq}
use dart_edge.Base.Map
use dart_edge.Base.Map.{Map}
use dart_edge.Base.Words.{wrapping_inc}
use dart_edge.Base.Result.{Result, ok, err}
use dart_edge.Text.Bytes.{Bytes, Str, text}
use dart_edge.Runtime.Message.{
  TransportRequest, TransportResponse, PendingResponseMessage, http_response, sse_start, sse_chunk,
  binary_start, binary_chunk, native_binary_start, web_socket_accept, close, request_ready,
}
use dart_edge.Runtime.Channel.{send}
use dart_edge.Runtime.Statics.{Statics, PendingRequest, notify_transport_event}

-- The response that `dispatch_request_to_dart` gives when the server is gone.
unfoldable pub no_callback : TransportResponse
no_callback = record {
  status = 500;
  content_type = text "text/plain; charset=utf-8";
  body = text "No Dart callback registered";
  headers = [];
}

unfoldable pub enqueue : ℕ → TransportRequest → Statics → Statics
enqueue server_id request s = record s {
  next_request_id = wrapping_inc s.next_request_id;
  pending_requests =
      Map.insert s.next_request_id (record { server_id = server_id; request = some request })
        s.pending_requests;
  response_channels =
      Map.insert s.next_request_id (record { sent = []; receiver = true }) s.response_channels;
}

abbrev pub forget : ℕ → Statics → Statics
forget request_id s = record s { pending_requests = Map.remove request_id s.pending_requests }

unfoldable pub dispatch_request_to_dart :
    ℕ → TransportRequest → Statics → Statics × Result ℕ TransportResponse
unfolding enqueue
dispatch_request_to_dart server_id request s =
    let request_id = s.next_request_id in
    let (t, notified) =
      notify_transport_event server_id request_ready request_id (enqueue server_id request s) in
    if notified then (t, ok request_id) else (forget request_id t, err no_callback)

unfoldable pub take_request : ℕ → Statics → Statics × Option TransportRequest
take_request request_id s = elim (Map.get request_id s.pending_requests) [
  | none ↦ (s, none)
  | some pending ↦ elim pending.request [
    | none ↦ (s, none)
    | some request ↦ (
      record s {
        pending_requests =
            Map.insert request_id (record pending { request = none }) s.pending_requests;
      },
      some request,
    )
  ]
]

-- `response_tx.send(message).is_ok()`.
unfoldable pub send_response_message : ℕ → PendingResponseMessage → Statics → Statics × Bool
send_response_message request_id message s = elim (Map.get request_id s.response_channels) [
  | none ↦ (s, false)
  | some channel ↦
      let (c, sent) = send channel message in
      (record s { response_channels = Map.insert request_id c s.response_channels }, sent)
]

unfoldable pub send_pending_response_message :
    ℕ → PendingResponseMessage → Bool → Statics → Statics × Bool
send_pending_response_message request_id message remove s =
    elim (Map.get request_id s.pending_requests) [
      | none ↦ (s, false)
      | some _ ↦
          let claimed : Statics = if remove then forget request_id s else s in
          let (t, sent) = send_response_message request_id message claimed in
          if sent then (t, true) else (if remove then t else forget request_id t, false)
    ]

-- `status as u16` of an `i32`, and `u64::try_from` of an `i64`, on the bit patterns.
unfoldable pub as_u16 : ℕ → ℕ
as_u16 status = status % 65536

unfoldable pub try_u64 : ℕ → Option ℕ
try_u64 length = if ltb length 9223372036854775808 then some length else none

-- The calls of the Dart side that answer a request. A native stream is `none` if its pointer is
-- null or its descriptor is not valid; `starts_native_binary` then releases it and sends nothing.
pub data Answer : Type 0 where
  accepts_web_socket : List (Str × Str) → Answer
  accepts_web_transport : List (Str × Str) → Answer
  starts_sse : ℕ → List (Str × Str) → Answer
  sends_sse_chunk : Option Str → Answer
  finishes_sse : Answer
  starts_binary : ℕ → Option Str → ℕ → List (Str × Str) → Answer
  sends_binary_chunk : Option Bytes → Answer
  finishes_binary : Answer
  starts_native_binary : ℕ → Option Str → ℕ → List (Str × Str) → Option ℕ → Answer
  sends_response : ℕ → Option Str → Option Bytes → List (Str × Str) → Answer

-- The message that a call sends, and whether it is the request's last; `none` if an argument cannot
-- be read.
unfoldable pub message_of : Answer → Option (PendingResponseMessage × Bool)
unfolding as_u16 try_u64
message_of (accepts_web_socket headers) = some (web_socket_accept headers, true)
message_of (accepts_web_transport headers) = some (web_socket_accept headers, true)
message_of (starts_sse status headers) = some (sse_start (as_u16 status) headers, false)
message_of (sends_sse_chunk none) = none
message_of (sends_sse_chunk (some chunk)) = some (sse_chunk chunk, false)
message_of finishes_sse = some (close, true)
message_of (starts_binary status none length headers) = none
message_of (starts_binary status (some content_type) length headers) =
    some (binary_start (as_u16 status) content_type (try_u64 length) headers, false)
message_of (sends_binary_chunk none) = none
message_of (sends_binary_chunk (some chunk)) = some (binary_chunk chunk, false)
message_of finishes_binary = some (close, true)
message_of (starts_native_binary status none length headers stream) = none
message_of (starts_native_binary status (some content_type) length headers none) = none
message_of (starts_native_binary status (some content_type) length headers (some stream)) =
    some (native_binary_start (as_u16 status) content_type (try_u64 length) headers stream, true)
message_of (sends_response status none body headers) = none
message_of (sends_response status (some content_type) none headers) = none
message_of (sends_response status (some content_type) (some body) headers) = some (
  http_response (record {
    status = as_u16 status;
    content_type = content_type;
    body = body;
    headers = headers;
  }),
  true,
)

unfoldable pub answer : ℕ → Answer → Statics → Statics × Bool
unfolding message_of
answer request_id a s = elim (message_of a) [
  | none ↦ (s, false)
  | some (message, remove) ↦ send_pending_response_message request_id message remove s
]

unfoldable pub server_stopped : TransportResponse
server_stopped = record {
  status = 503;
  content_type = text "text/plain; charset=utf-8";
  body = text "Server stopped";
  headers = [];
}

-- The body of the loop over the server's requests: the entry goes, and two messages are sent.
unfoldable pub stop_request : ℕ → Statics → Statics
stop_request request_id s =
    let t = send_response_message request_id (http_response server_stopped) (forget request_id s) in
    (send_response_message request_id close t.0).0

abbrev pub requests_of : ℕ → Map ℕ PendingRequest → List ℕ
requests_of server_id [] = []
requests_of server_id ((request_id, pending) ∷ m) =
    if pending.server_id == server_id
    then request_id ∷ requests_of server_id m
    else requests_of server_id m

unfoldable pub stop_requests : List ℕ → Statics → Statics
unfolding stop_request
stop_requests [] s = s
stop_requests (request_id ∷ ids) s =
    stop_requests ids (elim (Map.get request_id s.pending_requests) [
      | none ↦ s
      | some _ ↦ stop_request request_id s
    ])

-- What `stop_server_by_id` does under the lock of the pending requests.
unfoldable pub stop_pending : ℕ → Statics → Statics
unfolding stop_requests
stop_pending server_id s = stop_requests (requests_of server_id s.pending_requests) s

-- Under the lock of the servers, after two that are about sockets.
unfoldable pub remove_server : ℕ → Statics → Statics
remove_server server_id s = record s { server_states = Map.remove server_id s.server_states }

-- The part of `stop_server_by_id` on requests and on the server itself, when no other call comes
-- between the two; Steps has them apart.
unfoldable pub stop_server_by_id : ℕ → Statics → Statics
unfolding stop_pending remove_server
stop_server_by_id server_id s = remove_server server_id (stop_pending server_id s)
