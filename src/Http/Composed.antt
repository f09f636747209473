-- ===== src/Http/Composed.antt =====
-- The middleware of lib.rs over routes that `compile_manifest` has compiled.
use dart_edge.Base.{
  ℕ, ◌≡◌, ◌≢◌, refl, sym, subst, true, inl, inr, List, [], ◌∷◌, none, some, arith, All, Bool-cases,
}
use dart_edge.Base.Keys.{bytes_eq}
use dart_edge.Base.Map.{Map}
use dart_edge.Base.Result.{ok}
use dart_edge.Text.Bytes.{Str, text}
use dart_edge.Routing.Manifest.{RouteTransportKind, RouteManifestEntry}
use dart_edge.Routing.Route.{CompiledRoute, NativeRouteMatch}
use dart_edge.Routing.Compile.{compile_routes}
use dart_edge.Routing.Match.{
  Matching, matched, mismatched, fault, match_from, is_candidate, route_match, found,
  match_route_in, match_route, path_segments,
}
use dart_edge.Routing.Match
use dart_edge.Routing.Sound.{IsKnown, IsSound, compile_routes-IsSound}
use dart_edge.Http.Response.{HttpLibrary, HttpResponse, plain_text}
use dart_edge.Http.Body.{JsonLibrary}
use dart_edge.Http.Validate.{Request, answered, requested_kind, validate_request}
use dart_edge.Http.Reason.{
  Names, Refusal, no_route, unreadable, unknown_schema, invalid, other_content, malformed,
}
use dart_edge.Http.Refusal.{validate_request-Refusal}

found-injective : {a b : NativeRouteMatch} → found a ≡ found b → a ≡ b
found-injective h = cc

panicked-ne-found : {a : NativeRouteMatch} → Match.panicked ≢ found a
panicked-ne-found h = cc

module _ {V : Type 0} (schemas : Map Str V) where
  known_of_route :
      (c : CompiledRoute) (p : Map Str Str) (id : Str)
      → IsSound schemas c
      → Names id (route_match c p)
      → IsKnown schemas (some id)
  known_of_route c p id s (inl e) = subst (IsKnown schemas) e s.params
  known_of_route c p id s (inr (inl e)) = subst (IsKnown schemas) e s.query
  known_of_route c p id s (inr (inr (inl e))) = subst (IsKnown schemas) e s.headers
  known_of_route c p id s (inr (inr (inr e))) = subst (IsKnown schemas) e s.body

  known_of_match :
      (routes : List CompiledRoute) (method : Str) (request : List Str) (kind : RouteTransportKind)
      (m : NativeRouteMatch) (id : Str)
      → All (IsSound schemas) routes
      → match_route_in routes method request kind ≡ found m
      → Names id m
      → IsKnown schemas (some id)
  unfolding match_route_in
  known_of_match [] method request kind m id s e n = absurd (ground arith)
  known_of_match (c ∷ cs) method request kind m id (s, ss) e n =
      let later = λ (h : match_route_in cs method request kind ≡ found m).
        known_of_match cs method request kind m id ss h n in
      elim (Bool-cases (is_candidate c method request kind)) [
        | inl t ↦ go later (match_from request 0 c.path_segments []) refl t
        | inr f ↦ later (rw (f, match_route_in) at e)
      ]
    where
      go :
          (match_route_in cs method request kind ≡ found m → IsKnown schemas (some id))
          → (o : Matching) → match_from request 0 c.path_segments [] ≡ o
          → is_candidate c method request kind ≡ true
          → IsKnown schemas (some id)
      go later (matched p) g t =
          let f : route_match c p ≡ m = found-injective (rw (t, g, match_route_in) at e) in
          known_of_route c p id s (subst (Names id) (sym f) n)
      go later mismatched g t = later (rw (t, g, match_route_in) at e)
      go later fault g t = absurd (panicked-ne-found (rw (t, g, match_route_in) at e))

module _ {J V : Type 0} (lib : HttpLibrary) (json : JsonLibrary J V) (schemas : Map Str V)
    (takes_plain : lib.is_header (text "content-type") plain_text ≡ true) where
  -- The server that has compiled its manifest answers a request with status 500 in the middleware
  -- only if the body cannot be read: no schema is missing.
  pub validate_request-not_500 :
      (manifest : List RouteManifestEntry) (routes : List CompiledRoute) (request : Request)
      (r : HttpResponse)
      → compile_routes schemas manifest ≡ ok routes
      → validate_request lib json schemas routes request ≡ answered r
      → r.status ≡ 500
      → request.body ≡ none
  validate_request-not_500 manifest routes request r c h is_500 =
      go r.status (validate_request-Refusal lib json schemas takes_plain routes request r h) is_500
    where
      go :
          (status : ℕ)
          → Refusal lib json schemas routes request status
          → status ≡ 500
          → request.body ≡ none
      go status (no_route e) s = absurd (omega arith)
      go status (unreadable m f e) s = e
      go status (unknown_schema m id e n g) s =
          let known =
            known_of_match schemas routes request.method (path_segments request.path)
              (requested_kind lib request.headers) m id
              (compile_routes-IsSound schemas manifest routes c).0 (unfold match_route in e) n in
          absurd (cc (g, known.1))
      go status (invalid m id v value e n g f) s = absurd (omega arith)
      go status (other_content m declared b bytes e k d f) s = absurd (omega arith)
      go status (malformed m b bytes e k f) s = absurd (omega arith)
