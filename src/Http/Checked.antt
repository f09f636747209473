-- ===== src/Http/Checked.antt =====
-- What the middleware of lib.rs lets through, and what it refuses.
use dart_edge.Base.{◌≡◌, refl, subst, true, List, Option, none, some, arith}
use dart_edge.Base.Keys.{bytes_eq}
use dart_edge.Base.Map
use dart_edge.Base.Map.{Map}
use dart_edge.Base.Result.{Result, ok, err, ◌>>=◌, ◌>>◌, >>=-eq-ok, >>-eq-ok}
use dart_edge.Text.Bytes.{Bytes, Str, text}
use dart_edge.Query.{parse_query}
use dart_edge.Routing.Manifest.{RouteTransportKind, http, native_http, web_socket, web_transport}
use dart_edge.Routing.Route.{CompiledRoute, NativeRouteMatch, RequestBodyValidation}
use dart_edge.Routing.Sound.{schema_of}
use dart_edge.Routing.Match.{Routed, found, not_found, match_route}
use dart_edge.Routing.Match
use dart_edge.Http.Response.{HttpLibrary, HttpResponse, collect_headers}
use dart_edge.Http.Body.{
  JsonLibrary, ValidatedBody, validate_and_read_body, validate_schema_value, validate_string_map,
  body_instance, validate_request_body,
}
use dart_edge.Http.BodyRead.{IsRead, validate_and_read_body-IsRead}
use dart_edge.Http.Validate.{
  Request, ValidatedRouteRequest, passed, requested_kind, validate_declared_body, read_body,
  read_body_for, validate_matched, validate_request, verdict_of, handed_on,
}

passed-ok :
    {J : Type 0} (r : Result (ValidatedRouteRequest J) HttpResponse) (v : ValidatedRouteRequest J)
    → verdict_of r ≡ passed v
    → r ≡ ok v
passed-ok (ok w) v h = ground arith
passed-ok (err r) v h = cc

module _ {J V : Type 0} (lib : HttpLibrary) (json : JsonLibrary J V) (schemas : Map Str V) where
  -- The schema, if there is one, takes the value.
  abbrev pub IsAccepted : Option Str → J → Type 0
  IsAccepted none value = Unit
  IsAccepted (some id) value =
      (v : V) × (Map.get id schemas ≡ some v) × (json.is_valid v value ≡ true)

  -- The body of the request, as it is handed on: what its bytes are read as, and a value that the
  -- schema takes.
  pub record IsBody (request : Request) (route_match : NativeRouteMatch) (body : ValidatedBody J)
      : Type 0 where
    pub read :
        (bytes : Bytes) × (request.body ≡ some bytes)
        × IsRead lib json request.headers bytes route_match.request_body body
    pub accepted :
        IsAccepted (schema_of route_match.request_body) (body_instance lib json schemas body)

  -- What is handed on for a route of the kind.
  abbrev pub HasBody :
      RouteTransportKind → Request → NativeRouteMatch → Option (ValidatedBody J) → Type 0
  HasBody http request m none = ⊥
  HasBody http request m (some body) = IsBody request m body
  HasBody native_http request m none = ⊥
  HasBody native_http request m (some body) = IsBody request m body
  HasBody web_socket request m body = body ≡ none
  HasBody web_transport request m body = body ≡ none

  pub record IsChecked (routes : List CompiledRoute) (request : Request)
      (v : ValidatedRouteRequest J) : Type 0 where
    pub selected :
        match_route routes request.method request.path (requested_kind lib request.headers)
        ≡ found v.route_match
    pub method_kept : v.method ≡ request.method
    pub path_kept : v.path ≡ request.path
    pub query_read : v.query ≡ parse_query request.query
    pub headers_read : v.headers ≡ collect_headers lib request.headers
    pub params_accepted :
        IsAccepted v.route_match.params_schema_id (json.object_of_strings v.route_match.path_params)
    pub query_accepted : IsAccepted v.route_match.query_schema_id (json.object_of_strings v.query)
    pub headers_accepted :
        IsAccepted v.route_match.headers_schema_id (json.object_of_strings v.headers)
    pub has_body : HasBody v.route_match.kind request v.route_match v.body

  validate_schema_value-IsAccepted :
      (id : Str) (value : J) (label : Str)
      → validate_schema_value lib json schemas id value label ≡ ok tt
      → IsAccepted (some id) value
  unfolding validate_schema_value
  validate_schema_value-IsAccepted id value label h = ground arith

  validate_string_map-IsAccepted :
      (values : Map Str Str) (id : Option Str) (label : Str)
      → validate_string_map lib json schemas values id label ≡ ok tt
      → IsAccepted id (json.object_of_strings values)
  unfolding validate_string_map
  validate_string_map-IsAccepted values none label h = tt
  validate_string_map-IsAccepted values (some id) label h =
      validate_schema_value-IsAccepted id (json.object_of_strings values) label h

  validate_declared_body-IsAccepted :
      (body : ValidatedBody J) (declared : Option RequestBodyValidation)
      → validate_declared_body lib json schemas body declared ≡ ok tt
      → IsAccepted (schema_of declared) (body_instance lib json schemas body)
  unfolding validate_declared_body validate_request_body
  validate_declared_body-IsAccepted body none h = tt
  validate_declared_body-IsAccepted body (some declared) h = go declared.schema_id refl
    where
      value : J
      value = body_instance lib json schemas body

      go : (id : Option Str) → declared.schema_id ≡ id → IsAccepted id value
      go none e = tt
      go (some id) e = validate_schema_value-IsAccepted id value (text "Request body") (rw e at h)

  read_body-IsBody :
      (request : Request) (m : NativeRouteMatch) (body : ValidatedBody J)
      → read_body lib json schemas request m ≡ ok body
      → IsBody request m body
  unfolding read_body
  read_body-IsBody request m body h = go request.body refl
    where
      go : (bytes : Option Bytes) → request.body ≡ bytes → IsBody request m body
      go none e = ground arith
      go (some bytes) e =
          let read = validate_and_read_body lib json schemas request.headers bytes m.request_body in
          let rest = λ (b : ValidatedBody J).
            validate_declared_body lib json schemas b m.request_body >> ok b in
          let (b, first, more) = >>=-eq-ok read rest (rw e at h) in
          let (second, same) =
            >>-eq-ok (validate_declared_body lib json schemas b m.request_body) (ok b) more in
          let f : b ≡ body = ground arith in
          let here : IsBody request m b = record {
            read = (
              bytes,
              e,
              validate_and_read_body-IsRead lib json schemas request.headers bytes m.request_body b
                  first,
            );
            accepted = validate_declared_body-IsAccepted b m.request_body second;
          } in
          subst (IsBody request m) f here

  read_body_for-HasBody :
      (kind : RouteTransportKind) (request : Request) (m : NativeRouteMatch)
      (body : Option (ValidatedBody J))
      → read_body_for lib json schemas kind request m ≡ ok body
      → HasBody kind request m body
  unfolding read_body_for
  read_body_for-HasBody http request m none h = absurd (ground arith)
  read_body_for-HasBody http request m (some b) h = read_body-IsBody request m b (ground arith)
  read_body_for-HasBody native_http request m none h = absurd (ground arith)
  read_body_for-HasBody native_http request m (some b) h =
      read_body-IsBody request m b (ground arith)
  read_body_for-HasBody web_socket request m body h = ground arith
  read_body_for-HasBody web_transport request m body h = ground arith

  matched-IsChecked :
      (routes : List CompiledRoute) (request : Request) (m : NativeRouteMatch)
      (v : ValidatedRouteRequest J)
      → match_route routes request.method request.path (requested_kind lib request.headers)
        ≡ found m
      → validate_matched lib json schemas request m ≡ ok v
      → IsChecked routes request v
  unfolding validate_matched
  matched-IsChecked routes request m v e h =
      let query = parse_query request.query in
      let headers = collect_headers lib request.headers in
      let whole = handed_on lib json schemas request m in
      let read = read_body_for lib json schemas m.kind request m in
      let fourth = read >>= λ b. ok (whole b) in
      let third =
        validate_string_map lib json schemas headers m.headers_schema_id (text "Headers")
        >> fourth in
      let second =
        validate_string_map lib json schemas query m.query_schema_id (text "Query parameters")
        >> third in
      let (params_ok, h2) =
        >>-eq-ok
          (validate_string_map lib json schemas m.path_params m.params_schema_id
            (text "Path parameters"))
          second h in
      let (query_ok, h3) =
        >>-eq-ok
          (validate_string_map lib json schemas query m.query_schema_id (text "Query parameters"))
          third h2 in
      let (headers_ok, h4) =
        >>-eq-ok (validate_string_map lib json schemas headers m.headers_schema_id (text "Headers"))
          fourth h3 in
      let (b, body_ok, same) = >>=-eq-ok read (λ b. ok (whole b)) h4 in
      let here : IsChecked routes request (whole b) = record {
        selected = e;
        method_kept = refl;
        path_kept = refl;
        query_read = refl;
        headers_read = refl;
        params_accepted =
            validate_string_map-IsAccepted m.path_params m.params_schema_id (text "Path parameters")
              params_ok;
        query_accepted =
            validate_string_map-IsAccepted query m.query_schema_id (text "Query parameters")
              query_ok;
        headers_accepted =
            validate_string_map-IsAccepted headers m.headers_schema_id (text "Headers") headers_ok;
        has_body = read_body_for-HasBody m.kind request m b body_ok;
      } in
      let f : whole b ≡ v = ground arith in subst (IsChecked routes request) f here

  -- If the middleware lets a request through, then what it hands on is the selected route, the
  -- method, the path, the query and the headers as they are read, and each schema that the route
  -- names for the path parameters, the query, the headers and the body is there and takes its value.
  -- The body has all bytes of the request: none are no body; others are of the declared content type
  -- and kind, which are JSON that is handed on as it is parsed, a form, or UTF-8 text, and UTF-8 text
  -- if nothing is declared. A route for a socket gets no body.
  pub validate_request-IsChecked :
      (routes : List CompiledRoute) (request : Request) (v : ValidatedRouteRequest J)
      → validate_request lib json schemas routes request ≡ passed v
      → IsChecked routes request v
  unfolding validate_request
  validate_request-IsChecked routes request v h =
      go (match_route routes request.method request.path (requested_kind lib request.headers)) refl
    where
      go :
          (r : Routed)
          → match_route routes request.method request.path (requested_kind lib request.headers) ≡ r
          → IsChecked routes request v
      go not_found e = ground arith
      go Match.panicked e = ground arith
      go (found m) e = matched-IsChecked routes request m v e (
          passed-ok (validate_matched lib json schemas request m) v (rw (e, validate_request) at h))
