-- ===== src/Http/Streaming.antt =====
-- A streamed response of lib.rs from the dispatch of its request to the body that the client gets.
use dart_edge.Base.{
  ℕ, ◌%◌, ◌≡◌, refl, ◌∙◌, ap, Bool, true, false, List, [], ◌∷◌, ◌++◌, map, Option, none, some,
  arith,
}
use mathlib.Core.List.{append_assoc}
use dart_edge.Base.Keys.{nat_eq}
use dart_edge.Base.Map
use dart_edge.Base.Map.{Map, get-insert, get-remove}
use dart_edge.Text.Bytes.{Bytes, Str, text}
use dart_edge.Runtime.Message.{
  TransportRequest, PendingResponseMessage, sse_start, sse_chunk, binary_start, binary_chunk, close,
}
use dart_edge.Runtime.Channel.{Channel, send}
use dart_edge.Runtime.Statics.{Statics, PendingRequest, ServerState, notify_transport_event}
use dart_edge.Runtime.Pending.{
  Answer, starts_sse, sends_sse_chunk, finishes_sse, starts_binary, sends_binary_chunk,
  finishes_binary, as_u16, try_u64, message_of, answer, send_pending_response_message,
  send_response_message, dispatch_request_to_dart, enqueue, take_request,
}
use dart_edge.Runtime.Calls.{Call, dispatches, takes, answers, call, call_all}
use dart_edge.Runtime.History.{idle}
use dart_edge.Http.Response.{HttpLibrary, Body, stream, are_headers, response_body_with_headers}
use dart_edge.Http.Handle.{event_stream, sse_body, binary_body, status_or, with_length, http_reply}

abbrev open_channel : List PendingResponseMessage → Channel PendingResponseMessage
open_channel sent = record { sent = sent; receiver = true }

-- The request is pending and its channel holds the messages.
record Holds (id : ℕ) (sent : List PendingResponseMessage) (s : Statics) : Type 0 where
  entry : PendingRequest
  pending : Map.get id s.pending_requests ≡ some entry
  channel : Map.get id s.response_channels ≡ some (open_channel sent)

get-channels-answer :
    (id : ℕ) (a : Answer) (m : PendingResponseMessage) (last : Bool)
    (sent : List PendingResponseMessage) (s : Statics)
    → message_of a ≡ some (m, last)
    → Holds id sent s
    → Map.get id (call (answers id a) s).response_channels ≡ some (open_channel (sent ++ m ∷ []))
unfolding call answer send_pending_response_message send_response_message send
get-channels-answer id a m false sent s e h = ground (
  arith,
  e,
  h.pending,
  h.channel,
  get-insert id id (open_channel (sent ++ m ∷ [])) s.response_channels,
)
get-channels-answer id a m true sent s e h = ground (
  arith,
  e,
  h.pending,
  h.channel,
  get-insert id id (open_channel (sent ++ m ∷ [])) s.response_channels,
)

get-pending-answer :
    (id : ℕ) (a : Answer) (m : PendingResponseMessage) (sent : List PendingResponseMessage)
    (s : Statics)
    → message_of a ≡ some (m, false)
    → (h : Holds id sent s) → Map.get id (call (answers id a) s).pending_requests ≡ some h.entry
unfolding call answer send_pending_response_message send_response_message send
get-pending-answer id a m sent s e h = ground (arith, e, h.pending, h.channel)

answer-Holds :
    (id : ℕ) (a : Answer) (m : PendingResponseMessage) (sent : List PendingResponseMessage)
    (s : Statics)
    → message_of a ≡ some (m, false)
    → Holds id sent s
    → Holds id (sent ++ m ∷ []) (call (answers id a) s)
answer-Holds id a m sent s e h = record {
  entry = h.entry;
  pending = get-pending-answer id a m sent s e h;
  channel = get-channels-answer id a m false sent s e h;
}

abbrev untaken : ℕ → TransportRequest → PendingRequest
untaken server_id request = record { server_id = server_id; request = some request }

dispatched :
    (next server_id : ℕ) (request : TransportRequest) (servers : Map ℕ ServerState)
    (server : ServerState)
    → Map.get server_id servers ≡ some server
    → let s = call (dispatches server_id request) (idle next servers) in
      (Map.get next s.pending_requests ≡ some (untaken server_id request))
      × (Map.get next s.response_channels ≡ some (open_channel []))
unfolding call dispatch_request_to_dart notify_transport_event enqueue
dispatched next server_id request servers server e = ground (
  arith,
  e,
  Map.get-insert_self next (untaken server_id request) [],
  Map.get-insert_self next (open_channel []) [],
)

take-Holds :
    (id server_id : ℕ) (request : TransportRequest) (s : Statics)
    → Map.get id s.pending_requests ≡ some (untaken server_id request)
    → Map.get id s.response_channels ≡ some (open_channel [])
    → Holds id [] (call (takes id) s)
unfolding call take_request
take-Holds id server_id request s e f = record {
  entry = record { server_id = server_id; request = none };
  pending = ground (
    arith,
    e,
    Map.get-insert_self id (record { server_id = server_id; request = none }) s.pending_requests,
  );
  channel = ground (arith, e, f);
}

-- Calls that each send an open message, and one that ends the request.
abbrev streams : ℕ → (Bytes → Answer) → Answer → List Bytes → List Call
streams id send_chunk finish chunks =
    map (λ chunk. answers id (send_chunk chunk)) chunks ++ answers id finish ∷ []

call_all-streams :
    (id : ℕ) (send_chunk : Bytes → Answer) (message : Bytes → PendingResponseMessage)
    (finish : Answer) (chunks : List Bytes) (sent : List PendingResponseMessage) (s : Statics)
    → ((chunk : Bytes) → message_of (send_chunk chunk) ≡ some (message chunk, false))
    → message_of finish ≡ some (close, true)
    → Holds id sent s
    → Map.get id (call_all (streams id send_chunk finish chunks) s).response_channels
      ≡ some (open_channel (sent ++ (map message chunks ++ close ∷ [])))
unfolding call_all
call_all-streams id send_chunk message finish [] sent s each last h =
    get-channels-answer id finish close true sent s last h
call_all-streams id send_chunk message finish (chunk ∷ chunks) sent s each last h =
    call_all-streams id send_chunk message finish chunks (sent ++ message chunk ∷ [])
      (call (answers id (send_chunk chunk)) s) each last
      (answer-Holds id (send_chunk chunk) (message chunk) sent s (each chunk) h)
    ∙ ap (λ ms. some (open_channel ms))
        (append_assoc sent (message chunk ∷ []) (map message chunks ++ close ∷ []))

sse_body-map : (chunks : List Bytes) → sse_body (map sse_chunk chunks ++ close ∷ []) ≡ chunks
unfolding sse_body
sse_body-map [] = refl
sse_body-map (chunk ∷ chunks) = ap (λ cs. chunk ∷ cs) (sse_body-map chunks)

binary_body-map :
    (chunks : List Bytes) → binary_body (map binary_chunk chunks ++ close ∷ []) ≡ chunks
unfolding binary_body
binary_body-map [] = refl
binary_body-map (chunk ∷ chunks) = ap (λ cs. chunk ∷ cs) (binary_body-map chunks)

-- The history of one request that is answered by a stream: it is dispatched and taken, the stream
-- starts, its chunks are sent, and it is finished.
abbrev pub streamed_history :
    ℕ → ℕ → TransportRequest → Answer → (Bytes → Answer) → Answer → List Bytes → List Call
streamed_history id server_id request start send_chunk finish chunks =
    dispatches server_id request ∷ takes id ∷ answers id start ∷ streams id send_chunk finish chunks

streamed-channel :
    (next server_id : ℕ) (request : TransportRequest) (servers : Map ℕ ServerState)
    (server : ServerState) (start : Answer) (first : PendingResponseMessage)
    (send_chunk : Bytes → Answer) (message : Bytes → PendingResponseMessage) (finish : Answer)
    (chunks : List Bytes)
    → Map.get server_id servers ≡ some server
    → message_of start ≡ some (first, false)
    → ((chunk : Bytes) → message_of (send_chunk chunk) ≡ some (message chunk, false))
    → message_of finish ≡ some (close, true)
    → Map.get next
        (call_all
          (streamed_history next server_id request start send_chunk finish chunks)
          (idle next servers)).response_channels
      ≡ some (open_channel (first ∷ map message chunks ++ close ∷ []))
unfolding call_all
streamed-channel next server_id request servers server start first send_chunk message finish chunks
      e f each last =
    let s = call (dispatches server_id request) (idle next servers) in
    let entered = dispatched next server_id request servers server e in
    call_all-streams next send_chunk message finish chunks (first ∷ []) _ each last (
      answer-Holds next start first [] (call (takes next) s) f
        (take-Holds next server_id request s entered.0 entered.1))

module _ (lib : HttpLibrary) (native_body : Option ℕ → ℕ → Body) where
  -- On a server that runs, and for headers that the http crate takes, a request whose Dart handler starts an event stream, sends any chunks and
  -- finishes it is answered by exactly one response: the status, as 16 bits, or 200 if it is none;
  -- the content type of event streams; the headers given; and as the body these chunks in order, to
  -- a regular end.
  pub sse-http_reply :
      (next server_id : ℕ) (request : TransportRequest) (servers : Map ℕ ServerState)
      (server : ServerState) (status : ℕ) (headers : List (Str × Str)) (chunks : List Str)
      → Map.get server_id servers ≡ some server
      → are_headers lib ((text "content-type", event_stream) ∷ headers) ≡ true
      → (c : Channel PendingResponseMessage) × (Map.get next
            (call_all
              (streamed_history next server_id request
                (starts_sse status headers)
                (λ chunk. sends_sse_chunk (some chunk))
                finishes_sse
                chunks)
              (idle next servers)).response_channels
          ≡ some c)
        × (http_reply lib native_body c.sent ≡ record {
          status = status_or lib (status % 65536) 200;
          headers = (text "content-type", event_stream) ∷ headers;
          body = stream chunks false;
        })
  unfolding http_reply response_body_with_headers message_of as_u16
  sse-http_reply next server_id request servers server status headers chunks e h = (
    open_channel (sse_start (status % 65536) headers ∷ map sse_chunk chunks ++ close ∷ []),
    streamed-channel next server_id request servers server (starts_sse status headers) _
        (λ chunk. sends_sse_chunk (some chunk)) sse_chunk finishes_sse chunks e refl (λ chunk. refl)
        refl,
    rw (h, sse_body-map chunks) refl,
  )

  -- The same for a stream of bytes, where the http crate takes the content type and the headers: the response has the content type that was given, the headers,
  -- and a content length after them if one was promised that is not negative; its body is the chunks
  -- in order, whatever the promised length.
  pub binary-http_reply :
      (next server_id : ℕ) (request : TransportRequest) (servers : Map ℕ ServerState)
      (server : ServerState) (status length : ℕ) (content_type : Str) (headers : List (Str × Str))
      (chunks : List Bytes)
      → Map.get server_id servers ≡ some server
      → are_headers lib ((text "content-type", content_type) ∷ with_length (try_u64 length) headers)
        ≡ true
      → (c : Channel PendingResponseMessage) × (Map.get next
            (call_all
              (streamed_history next server_id request
                (starts_binary status (some content_type) length headers)
                (λ chunk. sends_binary_chunk (some chunk))
                finishes_binary
                chunks)
              (idle next servers)).response_channels
          ≡ some c)
        × (http_reply lib native_body c.sent ≡ record {
          status = status_or lib (status % 65536) 200;
          headers = (text "content-type", content_type) ∷ with_length (try_u64 length) headers;
          body = stream chunks false;
        })
  unfolding http_reply response_body_with_headers message_of as_u16
  binary-http_reply next server_id request servers server status length content_type headers chunks
        e h =
      (
        open_channel (
            binary_start (status % 65536) content_type (try_u64 length) headers
              ∷ map binary_chunk chunks
            ++ close ∷ []),
        streamed-channel next server_id request servers server
            (starts_binary status (some content_type) length headers) _
            (λ chunk. sends_binary_chunk (some chunk)) binary_chunk finishes_binary chunks e refl
            (λ chunk. refl) refl,
        rw (h, binary_body-map chunks) refl,
      )
