-- ===== src/Http/Handle.antt =====
-- lib.rs: from a request that has been let through to its response (lines 1969 to 2292, 2334 to
-- 2400). What follows an upgrade of the connection is axum's.
use dart_edge.Base.{
  ℕ, false, List, [], ◌∷◌, ◌++◌, Option, none, some, all, not, ◌==◌, if◌then◌else◌,
}
use dart_edge.Base.Keys.{bytes_eq}
use dart_edge.Base.Map.{Map}
use dart_edge.Base.Result.{Result, ok, err}
use dart_edge.Text.Bytes.{Bytes, Str, text}
use dart_edge.Text.Decimal.{decimal}
use dart_edge.Routing.Method.{from_name, method_code}
use dart_edge.Routing.Manifest.{http, native_http, web_socket, web_transport}
use dart_edge.Routing.Route.{NativeRouteMatch, CompiledNativeHttpHandler}
use dart_edge.Routing.Match.{
  native_handler_path, missing_parameter, missing_wildcard, HandlerPathError,
}
use dart_edge.Runtime.Message.{
  TransportRequest, TransportResponse, PendingResponseMessage, http_response, sse_start, sse_chunk,
  binary_start, binary_chunk, native_binary_start, web_socket_accept, close,
}
use dart_edge.Runtime.Message
use dart_edge.Http.Response.{
  HttpLibrary, HttpResponse, Body, full, stream, response, response_body_with_headers, plain_text,
}
use dart_edge.Http.Body.{ValidatedBody, no_body}
use dart_edge.Http.Validate.{ValidatedRouteRequest}

abbrev pub event_stream : Str
event_stream = text "text/event-stream; charset=utf-8"

-- The bodies of the two streams: what is yielded for the messages that follow the start.
unfoldable pub sse_body : List PendingResponseMessage → List Bytes
sse_body (sse_chunk chunk ∷ rest) = chunk ∷ sse_body rest
sse_body _ = []

unfoldable pub binary_body : List PendingResponseMessage → List Bytes
binary_body (binary_chunk chunk ∷ rest) = chunk ∷ binary_body rest
binary_body _ = []

-- A status that is none is replaced.
abbrev pub status_or : HttpLibrary → ℕ → ℕ → ℕ
status_or lib status other = if lib.is_status status then status else other

abbrev pub with_length : Option ℕ → List (Str × Str) → List (Str × Str)
with_length none headers = headers
with_length (some length) headers = headers ++ (text "content-length", decimal length) ∷ []

-- `native_body` is what a native stream yields as a body, by its content length and its context.
module _ (lib : HttpLibrary) (native_body : Option ℕ → ℕ → Body) where
  abbrev pub failure : Str → HttpResponse
  failure message = response lib 500 plain_text message

  unfoldable pub transport_reply : TransportResponse → HttpResponse
  transport_reply r =
      response_body_with_headers lib (status_or lib r.status 500) r.content_type r.headers
        (full r.body)

  -- `handle_http_request`, after the dispatch: the answer to the messages of the response channel,
  -- up to the end of the channel.
  unfoldable pub http_reply : List PendingResponseMessage → HttpResponse
  unfolding transport_reply sse_body binary_body
  http_reply [] = failure (text "Request handling failed")
  http_reply (http_response r ∷ rest) = transport_reply r
  http_reply (sse_start status headers ∷ rest) =
      response_body_with_headers lib (status_or lib status 200) event_stream headers
        (stream (sse_body rest) false)
  http_reply (binary_start status content_type length headers ∷ rest) =
      response_body_with_headers lib (status_or lib status 200) content_type
        (with_length length headers) (stream (binary_body rest) false)
  http_reply (native_binary_start status content_type length headers context ∷ rest) =
      response_body_with_headers lib (status_or lib status 200) content_type
        (with_length length headers) (native_body length context)
  http_reply (close ∷ rest) = failure (text "Request handling failed")
  http_reply (sse_chunk chunk ∷ rest) = failure (text "Unexpected SSE chunk before SSE start")
  http_reply (binary_chunk chunk ∷ rest) =
      failure (text "Unexpected binary chunk before binary stream start")
  http_reply (web_socket_accept headers ∷ rest) =
      failure (text "Unexpected WebSocket response for HTTP request")

  -- `handle_web_socket_request`, after the dispatch: an accepted handshake goes on with the headers.
  unfoldable pub web_socket_reply :
      List PendingResponseMessage → Result (List (Str × Str)) HttpResponse
  unfolding transport_reply
  web_socket_reply (http_response r ∷ rest) = err (transport_reply r)
  web_socket_reply (web_socket_accept headers ∷ rest) = ok headers
  web_socket_reply _ = err (failure (text "WebSocket handshake failed"))

abbrev pub http_transport_request :
    {J : Type 0} → NativeRouteMatch → Map Str Str → Map Str Str → ValidatedBody J → TransportRequest
http_transport_request m query headers body = record {
  route_id = m.route_id;
  path_params = m.path_params;
  query = query;
  headers = headers;
  body = body.bytes;
  request_kind = Message.NativeRequestKind.http;
  body_kind = body.kind;
}

abbrev pub web_socket_transport_request :
    NativeRouteMatch → Map Str Str → Map Str Str → TransportRequest
web_socket_transport_request m query headers = record {
  route_id = m.route_id;
  path_params = m.path_params;
  query = query;
  headers = headers;
  body = none;
  request_kind = Message.NativeRequestKind.web_socket;
  body_kind = Message.none;
}

-- What a native handler is called with: its method code, and a path that is empty if it would hold
-- a byte zero.
pub record NativeHttpRequest : Type 0 where
  pub method : ℕ
  pub path : Str
  pub query : Map Str Str
  pub headers : Map Str Str
  pub body : Bytes

pub record NativeHttpResponse : Type 0 where
  pub status : ℕ
  pub content_type : Option Str
  pub body : Option Bytes
  pub headers : List (Str × Str)

abbrev pub c_string_or_empty : Str → Str
c_string_or_empty s = if all (λ b. not (b == 0)) s then s else []

abbrev pub path_error : HandlerPathError → Str
path_error (missing_parameter name) =
    text "Native route handler path references missing parameter '" ++ name ++ text "'."
path_error (missing_wildcard name) =
    text "Native route handler path references missing wildcard parameter '" ++ name ++ text "'."

abbrev pub or_else : {A : Type 0} → Option A → A → A
or_else none b = b
or_else (some a) b = a

unfoldable pub native_reply : HttpLibrary → Option NativeHttpResponse → HttpResponse
native_reply lib none = response lib 500 plain_text (text "Native route handler failed")
native_reply lib (some r) =
    response_body_with_headers lib (status_or lib r.status 500)
      (or_else r.content_type (text "application/octet-stream")) r.headers
      (full (or_else r.body []))

module _ {J : Type 0} (lib : HttpLibrary)
    (call : CompiledNativeHttpHandler → NativeHttpRequest → Option NativeHttpResponse) where
  -- `handle_native_http_request`; `call` is the handler behind the address.
  unfoldable pub handle_native_http_request : ValidatedRouteRequest J → HttpResponse
  unfolding native_reply
  handle_native_http_request v = elim v.route_match.native_handler [
    | none ↦ response lib 500 plain_text (text "Native route is missing handler metadata")
    | some handler ↦
        elim (native_handler_path v.path handler.handler_path_segments v.route_match.path_params) [
          | err e ↦ response lib 500 plain_text (path_error e)
          | ok path ↦ elim (from_name v.method) [
            | none ↦ response lib 405 plain_text (text "Unsupported HTTP method")
            | some method ↦ native_reply lib (
                call handler (record {
                  method = method_code method;
                  path = c_string_or_empty path;
                  query = v.query;
                  headers = v.headers;
                  body = or_else (or_else v.body no_body).bytes [];
                }))
          ]
        ]
  ]

-- `handle_validated_request`: which handler a request goes to. `missing` is the response to one that
-- the middleware has not seen.
pub data Handling (J : Type 0) : Type 0 where
  to_dart : TransportRequest → Handling J
  to_native : ValidatedRouteRequest J → Handling J
  to_socket : TransportRequest → Handling J
  replies : HttpResponse → Handling J

module _ {J : Type 0} (lib : HttpLibrary) where
  unfoldable pub handle_validated_request : Option (ValidatedRouteRequest J) → Handling J
  handle_validated_request none =
      replies (response lib 500 plain_text (text "Request validation context is missing"))
  handle_validated_request (some v) = elim v.route_match.kind [
    | native_http ↦ to_native v
    | http ↦
        to_dart (http_transport_request v.route_match v.query v.headers (or_else v.body no_body))
    | web_socket ↦ to_socket (web_socket_transport_request v.route_match v.query v.headers)
    | web_transport ↦ replies (
        response lib 501 plain_text
          (text "WebTransport routes require the HTTP/3 transport listener."))
  ]
