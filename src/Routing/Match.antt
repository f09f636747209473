-- ===== src/Routing/Match.antt =====
-- lib.rs: matching a request path against the routes (lines 4076 to 4163, 4331 to 4339) and the
-- path that a native handler is given (lines 2294 to 2332).
use dart_edge.Base.{
  ℕ, ◌+◌, ◌-◌, Bool, true, false, ◌&&◌, List, [], ◌∷◌, ◌++◌, Option, none, some, length, get_elem?,
  drop, last, leb, ◌==◌, if◌then◌else◌,
}
use dart_edge.Base.Keys.{bytes_beq, bytes_eq}
use dart_edge.Base.Map
use dart_edge.Base.Map.{Map}
use dart_edge.Base.Result.{Result, ok, err}
use dart_edge.Text.Bytes.{Str}
use dart_edge.Text.Split.{join, pieces}
use dart_edge.Routing.Method.{method_name}
use dart_edge.Routing.Manifest.{RouteTransportKind, http, native_http, web_socket, web_transport}
use dart_edge.Routing.Route.{
  CompiledRouteSegment, literal, parameter, wildcard, CompiledRoute, NativeRouteMatch,
}

-- `fault` is the panic of a slice out of range.
pub data Matching : Type 0 where
  matched : Map Str Str → Matching
  mismatched : Matching
  fault : Matching

unfoldable pub path_segments : Str → List Str
path_segments path = if bytes_beq path (b'/' ∷ []) then [] else pieces b'/' path

unfoldable pub route_kind_matches : RouteTransportKind → RouteTransportKind → Bool
route_kind_matches http http = true
route_kind_matches native_http http = true
route_kind_matches web_socket http = false
route_kind_matches web_transport http = false
route_kind_matches route_kind native_http = false
route_kind_matches web_socket web_socket = true
route_kind_matches route_kind web_socket = false
route_kind_matches web_transport web_transport = true
route_kind_matches route_kind web_transport = false

unfoldable pub route_segment_count_matches : List CompiledRouteSegment → ℕ → Bool
route_segment_count_matches route_segments count = elim (last route_segments) [
  | some (wildcard _) ↦ leb (length route_segments - 1) count
  | _ ↦ length route_segments == count
]

-- `request_segments.get(index) == Some(literal)`.
abbrev pub segment_is : Option Str → Str → Bool
segment_is none l = false
segment_is (some s) l = bytes_beq s l

-- `request_segments[index..].join("/")`.
abbrev pub rest_joined : List Str → ℕ → Option Str
rest_joined request index =
    if leb index (length request) then some (join b'/' (drop index request)) else none

-- The loop over the route's segments, from `index` on.
unfoldable pub match_from : List Str → ℕ → List CompiledRouteSegment → Map Str Str → Matching
match_from request index [] params = matched params
match_from request index (literal l ∷ more) params =
    let rest = match_from request (index + 1) more params in
    if segment_is (get_elem? request index) l then rest else mismatched
match_from request index (parameter name ∷ more) params = elim (get_elem? request index) [
  | none ↦ mismatched
  | some s ↦ match_from request (index + 1) more (Map.insert name s params)
]
match_from request index (wildcard name ∷ more) params = elim (rest_joined request index) [
  | none ↦ fault
  | some s ↦ matched (Map.insert name s params)
]

abbrev pub route_match : CompiledRoute → Map Str Str → NativeRouteMatch
route_match route path_params = record {
  kind = route.kind;
  route_id = route.route_id;
  path_params = path_params;
  params_schema_id = route.params_schema_id;
  query_schema_id = route.query_schema_id;
  headers_schema_id = route.headers_schema_id;
  request_body = route.request_body;
  native_handler = route.native_handler;
  max_pending_messages = route.max_pending_messages;
  max_pending_bytes = route.max_pending_bytes;
}

pub data Routed : Type 0 where
  found : NativeRouteMatch → Routed
  not_found : Routed
  panicked : Routed

-- The tests before the loop over the segments.
unfoldable pub is_candidate : CompiledRoute → Str → List Str → RouteTransportKind → Bool
is_candidate route method request kind =
    route_kind_matches route.kind kind
    && bytes_beq (method_name route.method) method
    && route_segment_count_matches route.path_segments (length request)

unfoldable pub match_route_in : List CompiledRoute → Str → List Str → RouteTransportKind → Routed
unfolding is_candidate
match_route_in [] method request kind = not_found
match_route_in (route ∷ routes) method request kind =
    let rest = match_route_in routes method request kind in
    if is_candidate route method request kind
    then elim (match_from request 0 route.path_segments []) [
      | matched path_params ↦ found (route_match route path_params)
      | mismatched ↦ rest
      | fault ↦ panicked
    ]
    else rest

unfoldable pub match_route : List CompiledRoute → Str → Str → RouteTransportKind → Routed
unfolding match_route_in path_segments
match_route routes method path kind = match_route_in routes method (path_segments path) kind

-- The messages of `native_handler_path`, with the name that they quote.
pub data HandlerPathError : Type 0 where
  missing_parameter missing_wildcard : Str → HandlerPathError

-- The loop over the segments of the handler's path; `path` is what it has pushed so far.
unfoldable pub handler_path_from :
    Str → List CompiledRouteSegment → Map Str Str → Result Str HandlerPathError
handler_path_from path [] params = ok path
handler_path_from path (literal value ∷ more) params =
    handler_path_from (path ++ (b'/' ∷ value)) more params
handler_path_from path (parameter name ∷ more) params = elim (Map.get name params) [
  | none ↦ err (missing_parameter name)
  | some value ↦ handler_path_from (path ++ (b'/' ∷ value)) more params
]
handler_path_from path (wildcard name ∷ more) params = elim (Map.get name params) [
  | none ↦ err (missing_wildcard name)
  | some value ↦ handler_path_from (path ++ (b'/' ∷ value)) more params
]

unfoldable pub native_handler_path :
    Str → Option (List CompiledRouteSegment) → Map Str Str → Result Str HandlerPathError
unfolding handler_path_from
native_handler_path public_path none params = ok public_path
native_handler_path public_path (some []) params = ok (b'/' ∷ [])
native_handler_path public_path (some (s ∷ segments)) params =
    handler_path_from [] (s ∷ segments) params
