-- ===== src/Http/Validate.antt =====
-- lib.rs: the middleware that every HTTP request goes through (lines 737 to 745, 1856 to 1967).
use dart_edge.Base.{List, Option, none, some, if◌then◌else◌}
use dart_edge.Base.Keys.{bytes_eq}
use dart_edge.Base.Map.{Map}
use dart_edge.Base.Result.{Result, ok, err, ◌>>=◌, ◌>>◌}
use dart_edge.Text.Bytes.{Bytes, Str, text}
use dart_edge.Query.{parse_query}
use dart_edge.Routing.Manifest.{RouteTransportKind, http, native_http, web_socket, web_transport}
use dart_edge.Routing.Route.{CompiledRoute, NativeRouteMatch, RequestBodyValidation}
use dart_edge.Routing.Match.{Routed, found, not_found, match_route}
use dart_edge.Routing.Match
use dart_edge.Http.Response.{
  HttpLibrary, HttpResponse, HeaderMap, response, plain_text, wants_web_socket_upgrade,
  collect_headers,
}
use dart_edge.Http.Body.{
  JsonLibrary, ValidatedBody, validate_and_read_body, validate_string_map, validate_request_body,
}

-- `body` is `none` if the body cannot be read.
pub record Request : Type 0 where
  pub method : Str
  pub path : Str
  pub query : Option Str
  pub headers : HeaderMap
  pub body : Option Bytes

pub record ValidatedRouteRequest (J : Type 0) : Type 0 where
  pub route_match : NativeRouteMatch
  pub method : Str
  pub path : Str
  pub query : Map Str Str
  pub headers : Map Str Str
  pub body : Option (ValidatedBody J)

-- What the middleware does: the next handler runs, or a response is sent at once.
pub data Verdict (J : Type 0) : Type 0 where
  passed : ValidatedRouteRequest J → Verdict J
  answered : HttpResponse → Verdict J
  panicked : Verdict J

abbrev pub verdict_of : {J : Type 0} → Result (ValidatedRouteRequest J) HttpResponse → Verdict J
verdict_of (ok v) = passed v
verdict_of (err r) = answered r

unfoldable pub requested_kind : HttpLibrary → HeaderMap → RouteTransportKind
requested_kind lib headers = if wants_web_socket_upgrade lib headers then web_socket else http

module _ {J V : Type 0} (lib : HttpLibrary) (json : JsonLibrary J V) (schemas : Map Str V) where
  unfoldable pub validate_declared_body :
      ValidatedBody J → Option RequestBodyValidation → Result (Unit {0}) HttpResponse
  validate_declared_body body none = ok tt
  validate_declared_body body (some declared) = validate_request_body lib json schemas body declared

  -- The body of a request for an HTTP route.
  unfoldable pub read_body : Request → NativeRouteMatch → Result (ValidatedBody J) HttpResponse
  unfolding validate_declared_body
  read_body request route_match = elim request.body [
    | none ↦ err (response lib 500 plain_text (text "Failed to read request body"))
    | some bytes ↦ do
      body ← validate_and_read_body lib json schemas request.headers bytes route_match.request_body
      validate_declared_body body route_match.request_body
      ok body
  ]

  unfoldable pub read_body_for :
      RouteTransportKind
      → Request
      → NativeRouteMatch
      → Result (Option (ValidatedBody J)) HttpResponse
  unfolding read_body
  read_body_for http request route_match = do body ← read_body request route_match; ok (some body)
  read_body_for native_http request route_match = do
    body ← read_body request route_match
    ok (some body)
  read_body_for web_socket request route_match = ok none
  read_body_for web_transport request route_match = ok none

  abbrev pub handed_on :
      Request → NativeRouteMatch → Option (ValidatedBody J) → ValidatedRouteRequest J
  handed_on request route_match body = record {
    route_match = route_match;
    method = request.method;
    path = request.path;
    query = parse_query request.query;
    headers = collect_headers lib request.headers;
    body = body;
  }

  -- What follows the match.
  unfoldable pub validate_matched :
      Request → NativeRouteMatch → Result (ValidatedRouteRequest J) HttpResponse
  unfolding read_body_for
  validate_matched request route_match =
      let query = parse_query request.query in
      let headers = collect_headers lib request.headers in
      do
        validate_string_map lib json schemas route_match.path_params route_match.params_schema_id
            (text "Path parameters")
        validate_string_map lib json schemas query route_match.query_schema_id
            (text "Query parameters")
        validate_string_map lib json schemas headers route_match.headers_schema_id (text "Headers")
        body ← read_body_for route_match.kind request route_match
        ok (handed_on request route_match body)

  unfoldable pub validate_request : List CompiledRoute → Request → Verdict J
  unfolding validate_matched requested_kind
  validate_request routes request =
      elim (match_route routes request.method request.path (requested_kind lib request.headers)) [
        | found route_match ↦ verdict_of (validate_matched request route_match)
        | not_found ↦ answered (response lib 404 plain_text (text "Not found"))
        | Match.panicked ↦ panicked
      ]
