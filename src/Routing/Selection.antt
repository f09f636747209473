-- ===== src/Routing/Selection.antt =====
-- `match_route` of lib.rs against a description of the route that it ought to select.
use dart_edge.Base.{
  ◌≡◌, ◌≢◌, refl, true, false, ◌⊎◌, inl, inr, List, [], ◌∷◌, arith, length, All, Bool-cases,
}
use dart_edge.Base.Keys.{bytes_beq, bytes_beq_sound, bytes_beq_refl, bytes_eq}
use dart_edge.Base.Map.{Map}
use dart_edge.Text.Bytes.{Str}
use dart_edge.Routing.Method.{method_name}
use dart_edge.Routing.Manifest.{RouteTransportKind}
use dart_edge.Routing.Route.{CompiledRoute}
use dart_edge.Routing.Match.{
  Matching, matched, mismatched, fault, match_from, is_candidate, route_kind_matches, route_match,
  Routed, found, not_found, panicked, match_route_in, match_route, path_segments,
}
use dart_edge.Routing.Fits.{
  IsCanonical, Fits, Serves, Serves_of_matches, matches_of_Serves, Counts, count_bound,
  match_from-ne-fault, match_from-Fits, match_from_of_Fits,
}

-- The route serves the request, with these path parameters.
abbrev pub Admits : Str → List Str → RouteTransportKind → CompiledRoute → Map Str Str → Type 0
Admits method request kind route q =
    Serves route.kind kind
    × (method_name route.method ≡ method)
    × Fits route.path_segments request [] q

-- The answer is the first route that serves the request, or that there is none.
abbrev pub Selects : Str → List Str → RouteTransportKind → List CompiledRoute → Routed → Type 0
Selects method request kind [] answer = answer ≡ not_found
Selects method request kind (route ∷ routes) answer =
    ((q : Map Str Str) × Admits method request kind route q
      × (answer ≡ found (route_match route q)))
    ⊎ (((q : Map Str Str) → ¬ Admits method request kind route q)
        × Selects method request kind routes answer)

module _ (method : Str) (request : List Str) (kind : RouteTransportKind) where
  candidate_iff :
      (route : CompiledRoute)
      → is_candidate route method request kind ≡ true
      → Serves route.kind kind
        × (method_name route.method ≡ method)
        × Counts route.path_segments request
  unfolding is_candidate
  candidate_iff route h =
      let (a, b, c) : (route_kind_matches route.kind kind ≡ true)
          × (bytes_beq (method_name route.method) method ≡ true)
          × Counts route.path_segments request =
        ground arith in
      (Serves_of_matches route.kind kind a, bytes_beq_sound _ method b, c)

  candidate_of_Admits :
      (route : CompiledRoute) (q : Map Str Str)
      → Admits method request kind route q
      → is_candidate route method request kind ≡ true
  unfolding is_candidate
  candidate_of_Admits route q (s, m, f) =
      let (k, _) = match_from_of_Fits route.path_segments request [] q f in
      let same : bytes_beq (method_name route.method) method ≡ true =
        rw m (bytes_beq_refl method) in
      ground (arith, matches_of_Serves route.kind kind s)

  tested :
      (route : CompiledRoute) (routes : List CompiledRoute) (rest : Routed) (m : Matching)
      → is_candidate route method request kind ≡ true
      → IsCanonical route.path_segments
      → Selects method request kind routes rest
      → match_from request 0 route.path_segments [] ≡ m
      → Selects method request kind (route ∷ routes) (elim m [
        | matched q ↦ found (route_match route q)
        | mismatched ↦ rest
        | fault ↦ panicked
      ])
  tested route routes rest (matched q) e c ih h =
      let (s, n, k) = candidate_iff route e in
      inl (q, (s, n, match_from-Fits route.path_segments request [] q c k h), refl)
  tested route routes rest mismatched e c ih h = inr (misfit, ih)
    where
      misfit : (q : Map Str Str) → ¬ Admits method request kind route q
      misfit q a = let (k, m) = match_from_of_Fits route.path_segments request [] q a.2 in cc
  tested route routes rest fault e c ih h =
      let (s, n, k) = candidate_iff route e in
      absurd (
        match_from-ne-fault request 0 route.path_segments []
          (omega (arith, count_bound route.path_segments (length request) k)) h)

  match_route_in-Selects :
      (routes : List CompiledRoute)
      → All (λ r. IsCanonical r.path_segments) routes
      → Selects method request kind routes (match_route_in routes method request kind)
  unfolding match_route_in
  match_route_in-Selects [] c = refl
  match_route_in-Selects (route ∷ routes) c =
      let ih = match_route_in-Selects routes c.1 in
      elim (Bool-cases (is_candidate route method request kind)) [
        | inl e ↦ rw e (
            tested route routes (match_route_in routes method request kind)
              (match_from request 0 route.path_segments []) e c.0 ih refl)
        | inr e ↦ rw e (inr (excluded route e, ih))
      ]
    where
      excluded :
          (r : CompiledRoute)
          → is_candidate r method request kind ≡ false
          → (q : Map Str Str) → ¬ Admits method request kind r q
      excluded r e q a =
          let yes : is_candidate r method request kind ≡ true = candidate_of_Admits r q a in cc

  answers :
      (route : CompiledRoute) (rest : Routed) (m : Matching)
      → is_candidate route method request kind ≡ true
      → rest ≢ panicked
      → match_from request 0 route.path_segments [] ≡ m
      → elim m [ matched q ↦ found (route_match route q) | mismatched ↦ rest | fault ↦ panicked ]
        ≢ panicked
  answers route rest (matched q) e ih h = λ x. cc
  answers route rest mismatched e ih h = ih
  answers route rest fault e ih h =
      let (s, n, k) = candidate_iff route e in
      absurd (
        match_from-ne-fault request 0 route.path_segments []
          (omega (arith, count_bound route.path_segments (length request) k)) h)

  match_route_in-ne-panicked :
      (routes : List CompiledRoute) → match_route_in routes method request kind ≢ panicked
  unfolding match_route_in
  match_route_in-ne-panicked [] = λ x. cc
  match_route_in-ne-panicked (r ∷ rs) =
      let ih = match_route_in-ne-panicked rs in
      elim (Bool-cases (is_candidate r method request kind)) [
        | inl e ↦ rw e (
            answers r (match_route_in rs method request kind)
              (match_from request 0 r.path_segments []) e ih refl)
        | inr e ↦ rw e ih
      ]

-- If wildcards stand only at the end of routes, `match_route` answers with the first route whose
-- kind, method and segments fit the request, and with the path parameters that the fit gives; it
-- answers that there is none exactly when no route fits, and it never panics.
pub match_route-Selects :
    (routes : List CompiledRoute) (method path : Str) (kind : RouteTransportKind)
    → All (λ r. IsCanonical r.path_segments) routes
    → Selects method (path_segments path) kind routes (match_route routes method path kind)
unfolding match_route
match_route-Selects routes method path kind c =
    match_route_in-Selects method (path_segments path) kind routes c

-- `match_route` does not panic, whatever the routes: no slice of the request is out of range.
pub match_route-ne-panicked :
    (routes : List CompiledRoute) (method path : Str) (kind : RouteTransportKind)
    → match_route routes method path kind ≢ panicked
unfolding match_route
match_route-ne-panicked routes method path kind =
    match_route_in-ne-panicked method (path_segments path) kind routes
