-- ===== src/Routing/Sound.antt =====
-- What `compile_manifest` of lib.rs promises of the routes that it lets through.
use dart_edge.Base.{
  suc, subst, ◌<◌, ◌≡◌, refl, List, [], ◌∷◌, Option, none, some, arith, All, length,
}
use dart_edge.Base.Keys.{bytes_eq}
use dart_edge.Base.Map
use dart_edge.Base.Map.{Map}
use dart_edge.Base.Result.{ok, ◌>>=◌, >>=-eq-ok}
use dart_edge.Text.Bytes.{Str}
use dart_edge.Routing.Manifest.{
  RouteTransportKind, http, native_http, web_socket, web_transport, RequestBodyManifest,
  RouteManifestEntry,
}
use dart_edge.Routing.Route.{RequestBodyValidation, CompiledNativeHttpHandler, CompiledRoute}
use dart_edge.Routing.Compile.{
  ensure_schema_exists, compile_request_body, compile_native_handler, compile_route, compile_routes,
  body_schema,
}

abbrev pub schema_of : Option RequestBodyValidation → Option Str
schema_of none = none
schema_of (some b) = b.schema_id

module _ {V : Type 0} (schemas : Map Str V) where
  -- A schema that a route names has a compiled validator.
  abbrev pub IsKnown : Option Str → Type 0
  IsKnown none = Unit
  IsKnown (some id) = (v : V) × (Map.get id schemas ≡ some v)

  -- A native route has its handler, and no other route has one.
  abbrev pub HasHandler : RouteTransportKind → Option CompiledNativeHttpHandler → Type 0
  HasHandler native_http h = (n : CompiledNativeHttpHandler) × (h ≡ some n)
  HasHandler _ h = h ≡ none

  pub record IsSound (c : CompiledRoute) : Type 0 where
    pub messages : 0 < c.max_pending_messages
    pub bytes : 0 < c.max_pending_bytes
    pub params : IsKnown c.params_schema_id
    pub query : IsKnown c.query_schema_id
    pub headers : IsKnown c.headers_schema_id
    pub body : IsKnown (schema_of c.request_body)
    pub handler : HasHandler c.kind c.native_handler

  ensure-IsKnown : (id : Option Str) → ensure_schema_exists schemas id ≡ ok tt → IsKnown id
  unfolding ensure_schema_exists
  ensure-IsKnown none h = tt
  ensure-IsKnown (some id) h = ground arith

  body-IsKnown :
      (kind : RouteTransportKind) (body : Option RequestBodyManifest)
      → IsKnown (body_schema body)
      → IsKnown (schema_of (compile_request_body kind body))
  unfolding compile_request_body
  body-IsKnown http none h = tt
  body-IsKnown http (some b) h = h
  body-IsKnown native_http none h = tt
  body-IsKnown native_http (some b) h = h
  body-IsKnown web_socket b h = tt
  body-IsKnown web_transport b h = tt

  native-HasHandler :
      (route : RouteManifestEntry) (kind : RouteTransportKind)
      (h : Option CompiledNativeHttpHandler)
      → route.kind ≡ kind
      → compile_native_handler route ≡ ok h
      → HasHandler kind h
  unfolding compile_native_handler
  native-HasHandler route http h k e = ground arith
  native-HasHandler route native_http h k e = ground arith
  native-HasHandler route web_socket h k e = ground arith
  native-HasHandler route web_transport h k e = ground arith

  compile_route-IsSound :
      (route : RouteManifestEntry) (c : CompiledRoute)
      → compile_route schemas route ≡ ok c
      → IsSound c
  unfolding compile_route
  compile_route-IsSound route c h = ground (
    arith,
    ensure-IsKnown route.params_schema_id,
    ensure-IsKnown route.query_schema_id,
    ensure-IsKnown route.headers_schema_id,
    ensure-IsKnown (body_schema route.request_body),
    body-IsKnown route.kind route.request_body,
    native-HasHandler route route.kind c.native_handler refl,
  )

  -- If the routes of a manifest compile, every compiled route has limits above zero and a compiled
  -- validator for each schema that it names, and it has a native handler exactly if it is a native
  -- route.
  pub compile_routes-IsSound :
      (routes : List RouteManifestEntry) (cs : List CompiledRoute)
      → compile_routes schemas routes ≡ ok cs
      → All IsSound cs × (length cs ≡ length routes)
  unfolding compile_routes
  compile_routes-IsSound [] [] h = (tt, refl)
  compile_routes-IsSound [] (c ∷ cs) h = cc
  compile_routes-IsSound (r ∷ rs) cs h =
      let (c, here, more) =
        >>=-eq-ok (compile_route schemas r)
          (λ route. compile_routes schemas rs >>= λ routes. ok (route ∷ routes)) h in
      let (ds, there, same) =
        >>=-eq-ok (compile_routes schemas rs) (λ routes. ok (c ∷ routes)) more in
      let (sound, count) = compile_routes-IsSound rs ds there in
      let e : c ∷ ds ≡ cs = ground arith in
      subst (λ xs. All IsSound xs × (length xs ≡ suc (length rs))) e
        ((compile_route-IsSound r c here, sound), omega (arith, count))
