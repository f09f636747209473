-- ===== src/Routing/Tests.antt =====
-- Routes of lib.rs with a parameter and with a wildcard, and the theorems at these.
use dart_edge.Base.{ℕ, ◌≡◌, ◌≢◌, ◌↔◌, refl, List, [], ◌∷◌, none, some, All, length, arith}
use dart_edge.Base.Keys.{bytes_eq, bytes_beq}
use dart_edge.Base.Map
use dart_edge.Base.Map.{Map}
use dart_edge.Base.Result.{ok}
use dart_edge.Text.Bytes.{Str, text}
use dart_edge.Text.Split.{split, join}
use dart_edge.Routing.Method.{
  get, post, from_code, method_code, from_name, method_name, method_decoders,
}
use dart_edge.Routing.Manifest.{http, RouteManifestEntry}
use dart_edge.Routing.Route.{CompiledRoute, CompiledRouteSegment, literal, parameter, wildcard}
use dart_edge.Routing.Compile.{
  compile_routes, compile_route, compile_request_body, ensure_schema_exists, compile_route_segments,
  compile_native_handler,
}
use dart_edge.Routing.Match.{
  match_route, path_segments, found, panicked, route_match, native_handler_path, match_from,
  route_segment_count_matches, route_kind_matches,
}
use dart_edge.Routing.Fits.{Fits}
use dart_edge.Routing.Selection.{Selects, match_route-Selects, match_route-ne-panicked}
use dart_edge.Routing.HandlerPath.{HasDistinctNames, native_handler_path-path_segments}
use dart_edge.Routing.Sound.{IsSound, compile_routes-IsSound}

abbrev route : List CompiledRouteSegment → CompiledRoute
route segments = record {
  kind = http;
  route_id = text "r";
  method = get;
  path_segments = segments;
  params_schema_id = none;
  query_schema_id = none;
  headers_schema_id = none;
  request_body = none;
  native_handler = none;
  max_pending_messages = 8;
  max_pending_bytes = 100;
}

-- `/files/{id}/*rest` after `/files`.
abbrev segments : List CompiledRouteSegment
segments = literal (text "files") ∷ parameter (text "id") ∷ wildcard (text "rest") ∷ []

abbrev table : List CompiledRoute
table = route (literal (text "files") ∷ []) ∷ route segments ∷ []

abbrev params : Map Str Str
params = (text "id", text "7") ∷ (text "rest", text "a/b") ∷ []

selected :
    match_route table (text "GET") (text "/files/7/a/b") http
    ≡ found (route_match (route segments) params)
unfolding match_route match_from route_segment_count_matches route_kind_matches method_name text
    split join Map.insert bytes_beq
selected = refl

match_route-Selects_example :
    Selects
      (text "GET")
      (path_segments (text "/files/7/a/b"))
      http
      table
      (match_route table (text "GET") (text "/files/7/a/b") http)
match_route-Selects_example =
    match_route-Selects table (text "GET") (text "/files/7/a/b") http (tt, (tt, tt))

match_route-ne-panicked_example :
    match_route table (text "GET") (text "/files/7/a/b") http ≢ panicked
match_route-ne-panicked_example =
    match_route-ne-panicked table (text "GET") (text "/files/7/a/b") http

method_decoders_example :
    ((from_code 2 ≡ some post) ↔ (method_code post ≡ 2))
    × ((from_name (text "POST") ≡ some post) ↔ (method_name post ≡ text "POST"))
method_decoders_example = method_decoders post 2 (text "POST")

fits : Fits segments (path_segments (text "/files/7/a/b")) [] params
unfolding path_segments split text join Map.insert bytes_beq
fits = (refl, refl)

distinct : HasDistinctNames segments
unfolding text
distinct = ((λ e. ground arith, tt), (tt, tt))

native_handler_path-path_segments_example :
    (path : Str) × (native_handler_path (text "/files/7/a/b") (some segments) params ≡ ok path)
    × (path_segments path ≡ path_segments (text "/files/7/a/b"))
native_handler_path-path_segments_example =
    native_handler_path-path_segments segments (text "/files/7/a/b") params distinct fits

abbrev entry : RouteManifestEntry
entry = record {
  kind = http;
  route_id = text "r";
  method = get;
  path_segments = [];
  handler_path_segments = none;
  params_schema_id = none;
  query_schema_id = some (text "paging");
  headers_schema_id = none;
  request_body = none;
  native_handle = none;
  native_handler_address = none;
  native_free_response_address = none;
  max_pending_messages = 8;
  max_pending_bytes = 100;
}

abbrev schemas : Map Str ℕ
schemas = (text "paging", 0) ∷ []

abbrev compiled : CompiledRoute
compiled = record (route []) { query_schema_id = some (text "paging") }

entry_lem : compile_routes schemas (entry ∷ []) ≡ ok (compiled ∷ [])
unfolding compile_routes compile_route compile_request_body ensure_schema_exists
    compile_route_segments compile_native_handler Map.get text bytes_beq
entry_lem = refl

compile_routes-IsSound_example :
    All (IsSound schemas) (compiled ∷ []) × (length (compiled ∷ []) ≡ length (entry ∷ []))
compile_routes-IsSound_example =
    compile_routes-IsSound schemas (entry ∷ []) (compiled ∷ []) entry_lem
