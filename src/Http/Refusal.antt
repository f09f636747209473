-- ===== src/Http/Refusal.antt =====
-- Why the middleware of lib.rs answers a request itself, by the status that it answers with.
use dart_edge.Base.{
  ℕ, ◌≡◌, ◌≢◌, refl, sym, subst, ◌∙◌, ap, true, false, inl, inr, List, [], ◌∷◌, Option, none, some,
  arith, Bool-cases, Option-cases,
}
use dart_edge.Base.Keys.{bytes_eq}
use dart_edge.Base.Map
use dart_edge.Base.Map.{Map}
use dart_edge.Base.Result.{Result, ok, err, ◌>>=◌, ◌>>◌, >>=-eq-err, err-injective, ok-ne-err}
use dart_edge.Text.Bytes.{Bytes, Str, text}
use dart_edge.Text.Utf8.{is_utf8}
use dart_edge.Query.{parse_query}
use dart_edge.Runtime.Message.{NativeBodyKind}
use dart_edge.Runtime.Message
use dart_edge.Routing.Manifest.{RouteTransportKind, http, native_http, web_socket, web_transport}
use dart_edge.Routing.Route.{
  CompiledRoute, NativeRouteMatch, RequestBodyKind, RequestBodyValidation,
}
use dart_edge.Routing.Route
use dart_edge.Routing.Match.{Routed, found, not_found, match_route}
use dart_edge.Routing.Match
use dart_edge.Http.Response.{
  HttpLibrary, HttpResponse, response, response_body_with_headers, plain_text, header_str,
  collect_headers,
}
use dart_edge.Http.Body.{
  JsonLibrary, ValidatedBody, content_type_matches, parse_json_body, parse_utf8_body,
  read_declared_body, validate_and_read_body, validate_schema_value, validate_string_map,
  body_instance, validate_request_body,
}
use dart_edge.Http.BodyRead.{
  IsRead, IsUnfit, IsMalformed, validate_and_read_body-IsRead, body_instance-IsInstance,
}
use dart_edge.Http.Validate.{
  Request, ValidatedRouteRequest, Verdict, answered, requested_kind, validate_declared_body,
  read_body, read_body_for, validate_matched, validate_request, verdict_of, handed_on,
}
use dart_edge.Routing.Sound.{schema_of}
use dart_edge.Http.Reason.{
  Tries, Tries-Names, Refusal, no_route, unreadable, unknown_schema, invalid, other_content,
  malformed,
}

module _ {J V : Type 0} (lib : HttpLibrary) (json : JsonLibrary J V) (schemas : Map Str V)
    (takes_plain : lib.is_header (text "content-type") plain_text ≡ true)
    (routes : List CompiledRoute) (request : Request) (m : NativeRouteMatch)
    (e : match_route routes request.method request.path (requested_kind lib request.headers)
      ≡ found m) where
  abbrev Refused : HttpResponse → Type 0
  Refused r = Refusal lib json schemas routes request r.status

  refused :
      (status : ℕ) (body : Str)
      → Refusal lib json schemas routes request status
      → Refused (response lib status plain_text body)
  unfolding response response_body_with_headers
  refused status body h = rw takes_plain h

  validate_schema_value-Refused :
      (id : Str) (value : J) (label : Str) (r : HttpResponse)
      → Tries lib json request m id value
      → validate_schema_value lib json schemas id value label ≡ err r
      → Refused r
  unfolding validate_schema_value
  validate_schema_value-Refused id value label r n h = go (Map.get id schemas) refl
    where
      go : (o : Option V) → Map.get id schemas ≡ o → Refused r
      go none g =
          subst Refused (err-injective (rw (g, validate_schema_value) at h))
            (refused 500 _ (unknown_schema m id e (Tries-Names lib json request m id value n) g))
      go (some v) g = elim (Bool-cases (json.is_valid v value)) [
        | inl t ↦ absurd (ok-ne-err (rw (g, validate_schema_value, t) at h))
        | inr f ↦
            subst Refused (err-injective (rw (g, validate_schema_value, f) at h))
              (refused 422 _ (invalid m id v value e n g f))
      ]

  validate_string_map-Refused :
      (values : Map Str Str) (id : Option Str) (label : Str) (r : HttpResponse)
      → ((name : Str)
          → id ≡ some name
          → Tries lib json request m name (json.object_of_strings values))
      → validate_string_map lib json schemas values id label ≡ err r
      → Refused r
  unfolding validate_string_map
  validate_string_map-Refused values none label r n h = absurd (ok-ne-err h)
  validate_string_map-Refused values (some id) label r n h =
      validate_schema_value-Refused id (json.object_of_strings values) label r (n id refl) h

  parse_utf8_body-Refused :
      (c : ℕ) (bytes : Bytes) (kind : NativeBodyKind) (r : HttpResponse)
      → request.body ≡ some (c ∷ bytes)
      → (is_utf8 (c ∷ bytes) ≡ false → IsMalformed lib json (c ∷ bytes) m.request_body)
      → parse_utf8_body lib json schemas (c ∷ bytes) kind ≡ err r
      → Refused r
  unfolding parse_utf8_body
  parse_utf8_body-Refused c bytes kind r b u h = elim (Bool-cases (is_utf8 (c ∷ bytes))) [
    | inl t ↦ absurd (ok-ne-err (rw (t, parse_utf8_body) at h))
    | inr f ↦
        subst Refused (err-injective (rw (f, parse_utf8_body) at h))
          (refused 400 _ (malformed m c bytes e b (u f)))
  ]

  parse_json_body-Refused :
      (c : ℕ) (bytes : Bytes) (r : HttpResponse)
      → request.body ≡ some (c ∷ bytes)
      → (json.from_slice (c ∷ bytes) ≡ none → IsMalformed lib json (c ∷ bytes) m.request_body)
      → parse_json_body lib json schemas (c ∷ bytes) ≡ err r
      → Refused r
  unfolding parse_json_body
  parse_json_body-Refused c bytes r b u h = elim (Option-cases (json.from_slice (c ∷ bytes))) [
    | inl f ↦
        subst Refused (err-injective (rw (f, parse_json_body) at h))
          (refused 400 _ (malformed m c bytes e b (u f)))
    | inr (v, t) ↦ absurd (ok-ne-err (rw (t, parse_json_body) at h))
  ]

  read_declared_body-Refused :
      (kind : RequestBodyKind) (c : ℕ) (bytes : Bytes) (r : HttpResponse)
      → request.body ≡ some (c ∷ bytes)
      → (IsUnfit lib json kind (c ∷ bytes) → IsMalformed lib json (c ∷ bytes) m.request_body)
      → read_declared_body lib json schemas kind (c ∷ bytes) ≡ err r
      → Refused r
  unfolding read_declared_body
  read_declared_body-Refused Route.json c bytes r b u h = parse_json_body-Refused c bytes r b u h
  read_declared_body-Refused Route.multipart c bytes r b u h = absurd (ok-ne-err h)
  read_declared_body-Refused Route.text c bytes r b u h =
      parse_utf8_body-Refused c bytes Message.text r b u h
  read_declared_body-Refused Route.other c bytes r b u h =
      parse_utf8_body-Refused c bytes Message.text r b u h

  validate_and_read_body-Refused :
      (bytes : Bytes) (declared : Option RequestBodyValidation) (r : HttpResponse)
      → request.body ≡ some bytes
      → m.request_body ≡ declared
      → validate_and_read_body lib json schemas request.headers bytes declared ≡ err r
      → Refused r
  unfolding validate_and_read_body
  validate_and_read_body-Refused [] declared r b d h = absurd (ok-ne-err h)
  validate_and_read_body-Refused (c ∷ bytes) none r b d h =
      parse_utf8_body-Refused c bytes Message.text r b
        (λ f. subst (IsMalformed lib json (c ∷ bytes)) (sym d) f) h
  validate_and_read_body-Refused (c ∷ bytes) (some declared) r b d h =
      elim (Bool-cases (
        content_type_matches (header_str lib (text "content-type") request.headers)
          declared.content_type)) [
            | inl t ↦
                read_declared_body-Refused declared.kind c bytes r b
                  (λ f. subst (IsMalformed lib json (c ∷ bytes)) (sym d) f)
                  (rw (t, validate_and_read_body) at h)
            | inr f ↦
                subst Refused (err-injective (rw (f, validate_and_read_body) at h))
                  (refused 415 _ (other_content m declared c bytes e b d f))
          ]

  validate_declared_body-Refused :
      (bytes : Bytes) (body : ValidatedBody J) (declared : Option RequestBodyValidation)
      (r : HttpResponse)
      → request.body ≡ some bytes
      → IsRead lib json request.headers bytes m.request_body body
      → m.request_body ≡ declared
      → validate_declared_body lib json schemas body declared ≡ err r
      → Refused r
  unfolding validate_declared_body validate_request_body
  validate_declared_body-Refused bytes body none r b read d h = absurd (ok-ne-err h)
  validate_declared_body-Refused bytes body (some declared) r b read d h =
      go declared.schema_id refl
    where
      go : (id : Option Str) → declared.schema_id ≡ id → Refused r
      go none g = absurd (ok-ne-err (rw g at h))
      go (some id) g =
          validate_schema_value-Refused id (body_instance lib json schemas body)
            (text "Request body") r
            (inr (
              inr (
                inr (
                  ap schema_of d ∙ g,
                  (
                    bytes,
                    b,
                    body_instance-IsInstance lib json schemas request.headers bytes m.request_body
                        body read,
                  ),
                ))))
            (rw g at h)

  read_body-Refused : (r : HttpResponse) → read_body lib json schemas request m ≡ err r → Refused r
  unfolding read_body
  read_body-Refused r h = go request.body refl
    where
      go : (body : Option Bytes) → request.body ≡ body → Refused r
      go none b =
          subst Refused (err-injective (rw (b, read_body) at h)) (refused 500 _ (unreadable m e b))
      go (some bytes) b =
          let read = validate_and_read_body lib json schemas request.headers bytes m.request_body in
          let rest = λ (v : ValidatedBody J).
            validate_declared_body lib json schemas v m.request_body >> ok v in
          elim (>>=-eq-err read rest (rw (b, read_body) at h)) [
            | inl f ↦ validate_and_read_body-Refused bytes m.request_body r b refl f
            | inr (v, t, f) ↦
                elim (>>=-eq-err (validate_declared_body lib json schemas v m.request_body)
                  (λ u. ok v) f) [
                    | inl g ↦
                        validate_declared_body-Refused bytes v m.request_body r b
                          (validate_and_read_body-IsRead lib json schemas request.headers bytes
                            m.request_body v t)
                          refl g
                    | inr (u, g, k) ↦ absurd (ok-ne-err k)
                  ]
          ]

  some_body-Refused :
      (r : HttpResponse)
      → (read_body lib json schemas request m >>= λ b. ok (some b)) ≡ err r
      → Refused r
  some_body-Refused r h =
      elim (>>=-eq-err (read_body lib json schemas request m) (λ b. ok (some b)) h) [
        | inl f ↦ read_body-Refused r f
        | inr (b, t, f) ↦ absurd (ok-ne-err f)
      ]

  read_body_for-Refused :
      (kind : RouteTransportKind) (r : HttpResponse)
      → read_body_for lib json schemas kind request m ≡ err r
      → Refused r
  unfolding read_body_for
  read_body_for-Refused http r h = some_body-Refused r h
  read_body_for-Refused native_http r h = some_body-Refused r h
  read_body_for-Refused web_socket r h = absurd (ok-ne-err h)
  read_body_for-Refused web_transport r h = absurd (ok-ne-err h)

  matched-Refused :
      (r : HttpResponse) → validate_matched lib json schemas request m ≡ err r → Refused r
  unfolding validate_matched
  matched-Refused r h =
      let query = parse_query request.query in
      let headers = collect_headers lib request.headers in
      let whole = handed_on lib json schemas request m in
      let read = read_body_for lib json schemas m.kind request m in
      let fourth = read >>= λ b. ok (whole b) in
      let headers_run =
        validate_string_map lib json schemas headers m.headers_schema_id (text "Headers") in
      let query_run =
        validate_string_map lib json schemas query m.query_schema_id (text "Query parameters") in
      let params_run =
        validate_string_map lib json schemas m.path_params m.params_schema_id
          (text "Path parameters") in
      elim (>>=-eq-err params_run (λ u. query_run >> (headers_run >> fourth)) h) [
        | inl f ↦
            validate_string_map-Refused m.path_params m.params_schema_id (text "Path parameters") r
              (λ name g. inl (g, refl)) f
        | inr (u, t, h2) ↦ elim (>>=-eq-err query_run (λ u. headers_run >> fourth) h2) [
          | inl f ↦
              validate_string_map-Refused query m.query_schema_id (text "Query parameters") r
                (λ name g. inr (inl (g, refl))) f
          | inr (u', t', h3) ↦ elim (>>=-eq-err headers_run (λ u. fourth) h3) [
            | inl f ↦
                validate_string_map-Refused headers m.headers_schema_id (text "Headers") r
                  (λ name g. inr (inr (inl (g, refl)))) f
            | inr (u2, t2, h4) ↦ elim (>>=-eq-err read (λ b. ok (whole b)) h4) [
              | inl f ↦ read_body_for-Refused m.kind r f
              | inr (b, t3, f) ↦ absurd (ok-ne-err f)
            ]
          ]
        ]
      ]

answered-injective :
    {J : Type 0} {a b : HttpResponse} → ◌≡◌ {A = Verdict J} (answered a) (answered b) → a ≡ b
answered-injective h = cc

panicked-ne-answered :
    {J : Type 0} {a : HttpResponse} → ◌≢◌ {A = Verdict J} Verdict.panicked (answered a)
panicked-ne-answered h = cc

answered-err :
    {J : Type 0} (v : Result (ValidatedRouteRequest J) HttpResponse) (r : HttpResponse)
    → verdict_of v ≡ answered r
    → v ≡ err r
answered-err (ok w) r h = cc
answered-err (err s) r h = ground arith

module _ {J V : Type 0} (lib : HttpLibrary) (json : JsonLibrary J V) (schemas : Map Str V)
    (takes_plain : lib.is_header (text "content-type") plain_text ≡ true) where
  -- If the `http` crate takes the content type of plain text, then an answer of the middleware is one
  -- of these: 404 and no route was selected; 500 and the body cannot be read, or the selected route
  -- names a schema that has not been compiled; 422 and the selected route names a schema that does
  -- not take its part of the request: the path parameters, the query, the headers, or the value that
  -- the bytes of the body stand for; 415 and the content type of a body that is not empty is not the
  -- declared one; 400 and such a body is not what its kind asks for, JSON or UTF-8.
  pub validate_request-Refusal :
      (routes : List CompiledRoute) (request : Request) (r : HttpResponse)
      → validate_request lib json schemas routes request ≡ answered r
      → Refusal lib json schemas routes request r.status
  unfolding validate_request
  validate_request-Refusal routes request r h =
      go (match_route routes request.method request.path (requested_kind lib request.headers)) refl
    where
      plain_404 :
          Refusal lib json schemas routes request 404
          → Refusal lib json schemas routes request
              (response lib 404 plain_text (text "Not found")).status
      plain_404 f = unfold response response_body_with_headers in rw takes_plain f

      go :
          (o : Routed)
          → match_route routes request.method request.path (requested_kind lib request.headers) ≡ o
          → Refusal lib json schemas routes request r.status
      go not_found e =
          subst (λ a. Refusal lib json schemas routes request a.status)
            (answered-injective (rw (e, validate_request) at h)) (plain_404 (no_route e))
      go Match.panicked e = absurd (panicked-ne-answered (rw (e, validate_request) at h))
      go (found m) e = matched-Refused lib json schemas takes_plain routes request m e r (
          answered-err (validate_matched lib json schemas request m) r
            (rw (e, validate_request) at h))
