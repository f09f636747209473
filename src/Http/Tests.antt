-- ===== src/Http/Tests.antt =====
-- The middleware, the replies and the byte streams of lib.rs on concrete inputs, and the theorems at
-- these.
use dart_edge.Base.{
  ◌+◌, length, ℕ, ◌≡◌, refl, true, false, not, ◌&&◌, List, [], ◌∷◌, Option, none, some, ltb,
  is_empty,
}
use dart_edge.Base.Keys.{nat_eq, bytes_eq, bytes_beq}
use dart_edge.Base.Map
use dart_edge.Base.Map.{Map}
use dart_edge.Base.Result.{ok}
use dart_edge.Text.Bytes.{
  Bytes, Str, text, eq_ignore_ascii_case, to_ascii_lowercase, ascii_lower, trim, trim_start,
  trim_end_rev,
}
use dart_edge.Text.Split.{split, split_once, join}
use dart_edge.Routing.Method.{post, method_name}
use dart_edge.Routing.Manifest.{http, RouteManifestEntry}
use dart_edge.Routing.Route.{CompiledRoute, literal}
use dart_edge.Routing.Route
use dart_edge.Routing.Compile.{
  compile_routes, compile_route, compile_request_body, ensure_schema_exists, compile_route_segments,
  compile_native_handler, body_kind, content_type_essence,
}
use dart_edge.Routing.Match.{
  match_route, path_segments, route_match, match_from, route_segment_count_matches,
  route_kind_matches,
}
use dart_edge.Runtime.Message
use dart_edge.Http.Response.{
  HttpLibrary, HttpResponse, response, response_body_with_headers, plain_text,
  wants_web_socket_upgrade, Body, full, stream,
}
use dart_edge.Http.Body.{
  JsonLibrary, content_type_matches, validate_and_read_body, parse_json_body, read_declared_body,
  validate_request_body, validate_schema_value, validate_string_map, body_instance,
}
use dart_edge.Http.Validate.{
  Request, ValidatedRouteRequest, passed, answered, handed_on, validate_request, requested_kind,
  validate_matched, read_body, read_body_for, validate_declared_body,
}
use dart_edge.Http.Checked.{IsChecked, validate_request-IsChecked}
use dart_edge.Http.Reason.{Refusal}
use dart_edge.Http.Refusal.{validate_request-Refusal}
use dart_edge.Http.ByteStream.{
  NativeByteStream, is_valid, Delivery, joined, lost, not_started, consume, consume_and_leave,
}
use dart_edge.Http.StreamLedger.{IsAccounted, nulls, consume_lem}
use dart_edge.Runtime.Message.{TransportRequest, PendingResponseMessage}
use dart_edge.Runtime.Channel.{Channel}
use dart_edge.Runtime.Pending.{
  starts_sse, sends_sse_chunk, finishes_sse, starts_binary, sends_binary_chunk, finishes_binary,
  try_u64,
}
use dart_edge.Runtime.Statics.{ServerState}
use dart_edge.Runtime.Calls.{call_all}
use dart_edge.Runtime.History.{idle}
use dart_edge.Http.Handle.{event_stream, http_reply, with_length}
use dart_edge.Http.Streaming.{streamed_history, sse-http_reply, binary-http_reply}
use dart_edge.Http.Composed.{validate_request-not_500}

-- Header values are texts, names are not empty, and a status has three digits.
abbrev library : HttpLibrary
library = record {
  to_str = λ bytes. some bytes;
  is_header = λ name value. not (is_empty name);
  is_status = λ n. ltb 99 n && ltb n 1000;
}

-- A JSON value is its text, and a schema is the one text that it takes.
abbrev texts : JsonLibrary Str Str
texts = record {
  from_slice = λ bytes. some bytes;
  object_of_strings = λ m. [];
  string = λ s. s;
  null = [];
  is_valid = λ schema value. bytes_beq schema value;
  first_error = λ schema value. none;
}

abbrev schemas : Map Str Str
schemas = (text "new_user", text "{}") ∷ []

abbrev users : CompiledRoute
users = record {
  kind = http;
  route_id = text "users";
  method = post;
  path_segments = literal (text "users") ∷ [];
  params_schema_id = none;
  query_schema_id = none;
  headers_schema_id = none;
  request_body = some (record {
    content_type = text "application/json";
    kind = Route.json;
    schema_id = some (text "new_user");
  });
  native_handler = none;
  max_pending_messages = 8;
  max_pending_bytes = 100;
}

abbrev posted : Option Bytes → Request
posted body = record {
  method = text "POST";
  path = text "/users";
  query = none;
  headers = (text "content-type", text "application/json") ∷ [];
  body = body;
}

abbrev validated : ValidatedRouteRequest Str
validated =
    handed_on library texts schemas (posted (some (text "{}"))) (route_match users [])
      (some (record { bytes = some (text "{}"); kind = Message.json; json = some (text "{}") }))

takes_user :
    validate_request library texts schemas (users ∷ []) (posted (some (text "{}")))
    ≡ passed validated
unfolding validate_request validate_matched requested_kind read_body_for read_body
    validate_declared_body validate_and_read_body read_declared_body parse_json_body
    validate_request_body validate_schema_value validate_string_map body_instance
    content_type_matches content_type_essence wants_web_socket_upgrade match_route match_from
    route_segment_count_matches route_kind_matches method_name path_segments text split split_once
    join Map.get Map.insert bytes_beq eq_ignore_ascii_case to_ascii_lowercase ascii_lower trim
    trim_start trim_end_rev
takes_user = refl

validate_request-IsChecked_example :
    IsChecked library texts schemas (users ∷ []) (posted (some (text "{}"))) validated
validate_request-IsChecked_example =
    validate_request-IsChecked library texts schemas (users ∷ []) (posted (some (text "{}")))
      validated takes_user

-- A body that the schema does not take.
abbrev refused : HttpResponse
refused =
    response library 422 plain_text
      (text "Request body validation failed: Unknown schema validation error")

refuses_user :
    validate_request library texts schemas (users ∷ []) (posted (some (text "[]")))
    ≡ answered refused
unfolding validate_request validate_matched requested_kind read_body_for read_body
    validate_declared_body validate_and_read_body read_declared_body parse_json_body
    validate_request_body validate_schema_value validate_string_map body_instance
    content_type_matches content_type_essence wants_web_socket_upgrade match_route match_from
    route_segment_count_matches route_kind_matches method_name path_segments text split split_once
    join Map.get Map.insert bytes_beq eq_ignore_ascii_case to_ascii_lowercase ascii_lower trim
    trim_start trim_end_rev response response_body_with_headers
refuses_user = refl

is_plain : library.is_header (text "content-type") plain_text ≡ true
unfolding text
is_plain = refl

validate_request-Refusal_example :
    Refusal library texts schemas (users ∷ []) (posted (some (text "[]"))) refused.status
validate_request-Refusal_example =
    validate_request-Refusal library texts schemas is_plain (users ∷ []) (posted (some (text "[]")))
      refused refuses_user

abbrev users_entry : RouteManifestEntry
users_entry = record {
  kind = http;
  route_id = text "users";
  method = post;
  path_segments = record { value = text "users"; is_parameter = false; is_wildcard = false } ∷ [];
  handler_path_segments = none;
  params_schema_id = none;
  query_schema_id = none;
  headers_schema_id = none;
  request_body =
      some (record { content_type = text "application/json"; schema_id = some (text "new_user") });
  native_handle = none;
  native_handler_address = none;
  native_free_response_address = none;
  max_pending_messages = 8;
  max_pending_bytes = 100;
}

compiles_users : compile_routes schemas (users_entry ∷ []) ≡ ok (users ∷ [])
unfolding compile_routes compile_route compile_request_body ensure_schema_exists
    compile_route_segments compile_native_handler body_kind content_type_essence Map.get text
    bytes_beq split split_once trim trim_start trim_end_rev to_ascii_lowercase ascii_lower
    eq_ignore_ascii_case
compiles_users = refl

abbrev unread : HttpResponse
unread = response library 500 plain_text (text "Failed to read request body")

fails_to_read : validate_request library texts schemas (users ∷ []) (posted none) ≡ answered unread
unfolding validate_request validate_matched requested_kind read_body_for read_body
    validate_string_map wants_web_socket_upgrade match_route match_from route_segment_count_matches
    route_kind_matches method_name path_segments text split join Map.get Map.insert bytes_beq
fails_to_read = refl

is_500 : unread.status ≡ 500
unfolding response response_body_with_headers text
is_500 = refl

validate_request-not_500_example : (posted none).body ≡ none
validate_request-not_500_example =
    validate_request-not_500 library texts schemas is_plain (users_entry ∷ []) (users ∷ [])
      (posted none) unread compiles_users fails_to_read is_500

-- A header without a name makes a response of status 200, whatever the status that was asked for.
bad_header :
    response_body_with_headers library 404 plain_text (([], []) ∷ []) (full [])
    ≡ record { status = 200; headers = []; body = full (text "Internal Server Error") }
unfolding response_body_with_headers text
bad_header = refl

abbrev readable : NativeByteStream
readable = record {
  abi_version = 1;
  struct_size = 56;
  next = true;
  cancel = true;
  free_read = true;
  release = true;
}

readable_lem : is_valid readable ≡ true
unfolding is_valid
readable_lem = refl

abbrev one_chunk : List Delivery
one_chunk =
    joined (some (record { status = 0; bytes = some (1 ∷ 2 ∷ []); error = none })) ∷ lost ∷ []

-- The client leaves while a second piece is read.
abbrev a_piece : Delivery
a_piece = joined (some (record { status = 0; bytes = some (3 ∷ []); error = none }))

abbrev first_piece : List Delivery
first_piece = joined (some (record { status = 0; bytes = some (1 ∷ 2 ∷ []); error = none })) ∷ []

consume_lem_example :
    IsAccounted none (consume readable none not_started first_piece)
    × ((consume_and_leave readable none not_started first_piece a_piece).yielded
        ≡ (consume readable none not_started first_piece).yielded)
    × ((consume_and_leave readable none not_started first_piece a_piece).completed
        ≡ (consume readable none not_started first_piece).completed)
    × ((consume_and_leave readable none not_started first_piece a_piece).calls
        ≡ (consume_and_leave readable none not_started first_piece a_piece).freed
          + length (consume_and_leave readable none not_started first_piece a_piece).yielded
          + nulls (consume readable none not_started first_piece) a_piece)
consume_lem_example = consume_lem readable none first_piece a_piece readable_lem

abbrev get_events : TransportRequest
get_events = record {
  route_id = text "events";
  path_params = [];
  query = [];
  headers = [];
  body = none;
  request_kind = Message.NativeRequestKind.http;
  body_kind = Message.none;
}

abbrev two_texts : List Str
two_texts = text "data: 1" ∷ text "data: 2" ∷ []

-- A native stream has no pieces here.
abbrev no_pieces : Option ℕ → ℕ → Body
no_pieces length context = stream [] false

abbrev servers : Map ℕ ServerState
servers = (3, record { shutdown_sent = false }) ∷ []

runs : Map.get 3 servers ≡ some (record { shutdown_sent = false })
unfolding Map.get
runs = refl

sse-http_reply_example :
    (c : Channel PendingResponseMessage) × (Map.get 9
        (call_all
          (streamed_history 9 3 get_events
            (starts_sse 201 [])
            (λ chunk. sends_sse_chunk (some chunk))
            finishes_sse
            two_texts)
          (idle 9 servers)).response_channels
      ≡ some c)
    × (http_reply library no_pieces c.sent ≡ record {
      status = 201;
      headers = (text "content-type", event_stream) ∷ [];
      body = stream two_texts false;
    })
unfolding text
sse-http_reply_example =
    sse-http_reply library no_pieces 9 3 get_events servers (record { shutdown_sent = false }) 201
      [] two_texts runs refl

binary-http_reply_example :
    (c : Channel PendingResponseMessage) × (Map.get 9
        (call_all
          (streamed_history 9 3 get_events
            (starts_binary 0 (some plain_text) 2 [])
            (λ chunk. sends_binary_chunk (some chunk))
            finishes_binary
            two_texts)
          (idle 9 servers)).response_channels
      ≡ some c)
    × (http_reply library no_pieces c.sent ≡ record {
      status = 200;
      headers = (text "content-type", plain_text) ∷ with_length (try_u64 2) [];
      body = stream two_texts false;
    })
unfolding text try_u64
binary-http_reply_example =
    binary-http_reply library no_pieces 9 3 get_events servers (record { shutdown_sent = false }) 0
      2 plain_text [] two_texts runs refl
