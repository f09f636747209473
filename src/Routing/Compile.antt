-- ===== src/Routing/Compile.antt =====
-- lib.rs: compilation of the manifest's routes (lines 3624 to 3746, 4341 to 4360). A schema is
-- known by its id; the compiled validators are jsonschema's.
use dart_edge.Base.{List, [], ◌∷◌, map, Option, none, some, ◌==◌, if◌then◌else◌, is_some}
use dart_edge.Base.Keys.{bytes_beq, bytes_eq}
use dart_edge.Base.Map
use dart_edge.Base.Map.{Map}
use dart_edge.Base.Result.{Result, ok, err, ok_or, ◌>>=◌, ◌>>◌}
use dart_edge.Text.Bytes.{Str, text, trim}
use dart_edge.Text.Split.{split}
use dart_edge.Routing.Manifest.{
  RouteTransportKind, native_http, web_socket, web_transport, RouteSegmentManifest,
  RequestBodyManifest, RouteManifestEntry,
}
use dart_edge.Routing.Route.{
  CompiledRouteSegment, literal, parameter, wildcard, RequestBodyKind, RequestBodyValidation,
  CompiledNativeHttpHandler, CompiledRoute,
}
use dart_edge.Routing.Route

-- The messages of `compile_route` and `ensure_schema_exists`, with what they quote.
pub data RouteError : Type 0 where
  no_pending_messages no_pending_bytes : Str → RouteError
  missing_schema : Str → RouteError
  missing_native_handle missing_handler_address missing_free_response_address : Str → RouteError

abbrev first : List Str → Str
first [] = []
first (p ∷ ps) = p

-- `split(';').next().unwrap_or_default().trim()`.
unfoldable pub content_type_essence : Str → Str
content_type_essence value = trim (first (split b';' value))

unfoldable pub body_kind : Str → RequestBodyKind
body_kind content_type =
    let essence = content_type_essence content_type in
    if bytes_beq essence (text "application/json")
    then Route.json
    else if bytes_beq essence (text "multipart/form-data")
    then Route.multipart
    else if bytes_beq essence (text "text/plain")
    then Route.text
    else Route.other

unfoldable pub compile_segment : RouteSegmentManifest → CompiledRouteSegment
compile_segment s =
    if s.is_wildcard
    then wildcard s.value
    else if s.is_parameter
    then parameter s.value
    else literal s.value

unfoldable pub compile_route_segments : List RouteSegmentManifest → List CompiledRouteSegment
unfolding compile_segment
compile_route_segments = map compile_segment

unfoldable pub compile_request_body :
    RouteTransportKind → Option RequestBodyManifest → Option RequestBodyValidation
compile_request_body web_socket body = none
compile_request_body web_transport body = none
compile_request_body _ none = none
compile_request_body _ (some body) = some (record {
  content_type = body.content_type;
  kind = body_kind body.content_type;
  schema_id = body.schema_id;
})

unfoldable pub compile_native_handler :
    RouteManifestEntry → Result (Option CompiledNativeHttpHandler) RouteError
unfolding compile_route_segments
compile_native_handler route = elim route.kind [
  | native_http ↦ do
    handle ← ok_or route.native_handle (missing_native_handle route.route_id)
    handler ← ok_or route.native_handler_address (missing_handler_address route.route_id)
    free_response ←
        ok_or route.native_free_response_address (missing_free_response_address route.route_id)
    ok (
        some (record {
          handle = handle;
          handler = handler;
          free_response = free_response;
          handler_path_segments = elim route.handler_path_segments [
            | none ↦ none
            | some segments ↦ some (compile_route_segments segments)
          ];
        }))
  | _ ↦ ok none
]

abbrev pub body_schema : Option RequestBodyManifest → Option Str
body_schema none = none
body_schema (some body) = body.schema_id

module _ {V : Type 0} (schemas : Map Str V) where
  unfoldable pub ensure_schema_exists : Option Str → Result (Unit {0}) RouteError
  ensure_schema_exists none = ok tt
  ensure_schema_exists (some id) =
      if is_some (Map.get id schemas) then ok tt else err (missing_schema id)

  unfoldable pub compile_route : RouteManifestEntry → Result CompiledRoute RouteError
  compile_route route =
      if route.max_pending_messages == 0
      then err (no_pending_messages route.route_id)
      else if route.max_pending_bytes == 0
      then err (no_pending_bytes route.route_id)
      else do
        ensure_schema_exists route.params_schema_id
        ensure_schema_exists route.query_schema_id
        ensure_schema_exists route.headers_schema_id
        ensure_schema_exists (body_schema route.request_body)
        native_handler ← compile_native_handler route
        ok (record {
          kind = route.kind;
          route_id = route.route_id;
          method = route.method;
          path_segments = compile_route_segments route.path_segments;
          params_schema_id = route.params_schema_id;
          query_schema_id = route.query_schema_id;
          headers_schema_id = route.headers_schema_id;
          request_body = compile_request_body route.kind route.request_body;
          native_handler = native_handler;
          max_pending_messages = route.max_pending_messages;
          max_pending_bytes = route.max_pending_bytes;
        })

  -- `map(compile_route).collect::<Result<Vec<_>, _>>()`: the first error ends it.
  unfoldable pub compile_routes : List RouteManifestEntry → Result (List CompiledRoute) RouteError
  compile_routes [] = ok []
  compile_routes (r ∷ rs) =
      let rest = compile_routes rs in do route ← compile_route r; routes ← rest; ok (route ∷ routes)
