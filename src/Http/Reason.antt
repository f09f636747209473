-- ===== src/Http/Reason.antt =====
-- The reasons for which the middleware of lib.rs answers a request itself, by status.
use dart_edge.Base.{ℕ, ◌≡◌, false, inl, inr, ◌⊎◌, List, ◌∷◌, none, some}
use dart_edge.Base.Keys.{bytes_eq}
use dart_edge.Base.Map
use dart_edge.Base.Map.{Map}
use dart_edge.Text.Bytes.{Bytes, Str, text}
use dart_edge.Query.{parse_query}
use dart_edge.Routing.Route.{CompiledRoute, NativeRouteMatch, RequestBodyValidation}
use dart_edge.Routing.Match.{Routed, found, not_found, match_route}
use dart_edge.Http.Response.{HttpLibrary, header_str, collect_headers}
use dart_edge.Http.Body.{JsonLibrary, content_type_matches}
use dart_edge.Http.BodyRead.{IsInstance, IsMalformed}
use dart_edge.Http.Validate.{Request, requested_kind}
use dart_edge.Routing.Sound.{schema_of}

-- The route names the schema.
abbrev pub Names : Str → NativeRouteMatch → Type 0
Names id m =
    (m.params_schema_id ≡ some id)
    ⊎ (m.query_schema_id ≡ some id)
    ⊎ (m.headers_schema_id ≡ some id)
    ⊎ (schema_of m.request_body ≡ some id)

-- The route names the schema for the value, which is a part of the request.
abbrev pub Tries :
    {J V : Type 0} → HttpLibrary → JsonLibrary J V → Request → NativeRouteMatch → Str → J → Type 0
Tries lib json request m id value =
    ((m.params_schema_id ≡ some id) × (value ≡ json.object_of_strings m.path_params))
    ⊎ ((m.query_schema_id ≡ some id) × (value ≡ json.object_of_strings (parse_query request.query)))
    ⊎ ((m.headers_schema_id ≡ some id)
        × (value ≡ json.object_of_strings (collect_headers lib request.headers)))
    ⊎ ((schema_of m.request_body ≡ some id)
        × ((bytes : Bytes) × (request.body ≡ some bytes)
            × IsInstance lib json bytes m.request_body value))

pub Tries-Names :
    {J V : Type 0} (lib : HttpLibrary) (json : JsonLibrary J V) (request : Request)
    (m : NativeRouteMatch) (id : Str) (value : J)
    → Tries lib json request m id value
    → Names id m
Tries-Names lib json request m id value h = elim h [
  | inl (n, v) ↦ inl n
  | inr (inl (n, v)) ↦ inr (inl n)
  | inr (inr (inl (n, v))) ↦ inr (inr (inl n))
  | inr (inr (inr (n, v))) ↦ inr (inr (inr n))
]

module _ {J V : Type 0} (lib : HttpLibrary) (json : JsonLibrary J V) (schemas : Map Str V) where
  abbrev pub selected_by : List CompiledRoute → Request → Routed
  selected_by routes request =
      match_route routes request.method request.path (requested_kind lib request.headers)

  -- What is wrong with the request, or with the server, for a status.
  pub data Refusal (routes : List CompiledRoute) (request : Request) : ℕ → Type 0 where
    no_route : selected_by routes request ≡ not_found → Refusal routes request 404
    unreadable :
        (m : NativeRouteMatch)
        → selected_by routes request ≡ found m
        → request.body ≡ none
        → Refusal routes request 500
    unknown_schema :
        (m : NativeRouteMatch) (id : Str)
        → selected_by routes request ≡ found m
        → Names id m
        → Map.get id schemas ≡ none
        → Refusal routes request 500
    invalid :
        (m : NativeRouteMatch) (id : Str) (v : V) (value : J)
        → selected_by routes request ≡ found m
        → Tries lib json request m id value
        → Map.get id schemas ≡ some v
        → json.is_valid v value ≡ false
        → Refusal routes request 422
    other_content :
        (m : NativeRouteMatch) (declared : RequestBodyValidation) (b : ℕ) (bytes : Bytes)
        → selected_by routes request ≡ found m
        → request.body ≡ some (b ∷ bytes)
        → m.request_body ≡ some declared
        → content_type_matches
            (header_str lib (text "content-type") request.headers)
            declared.content_type
          ≡ false
        → Refusal routes request 415
    malformed :
        (m : NativeRouteMatch) (b : ℕ) (bytes : Bytes)
        → selected_by routes request ≡ found m
        → request.body ≡ some (b ∷ bytes)
        → IsMalformed lib json (b ∷ bytes) m.request_body
        → Refusal routes request 400
