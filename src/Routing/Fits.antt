-- ===== src/Routing/Fits.antt =====
-- The segments of a route and of a request in lib.rs: when they fit, and what `match_from` makes of it.
use dart_edge.Base.{
  ℕ, suc, ◌+◌, ◌-◌, ◌≤◌, ◌≡◌, ◌≢◌, refl, sym, ◌∙◌, ap, true, inl, inr, List, [], ◌∷◌, Option, none,
  some, arith, length, get_elem?, last, leb, ◌==◌, Bool-cases,
}
use dart_edge.Base.Keys.{bytes_beq, bytes_beq_sound, bytes_beq_refl, bytes_eq}
use dart_edge.Base.Map
use dart_edge.Base.Map.{Map}
use dart_edge.Text.Bytes.{Str}
use dart_edge.Text.Split.{join}
use dart_edge.Routing.Manifest.{RouteTransportKind, http, native_http, web_socket, web_transport}
use dart_edge.Routing.Route.{CompiledRouteSegment, literal, parameter, wildcard}
use dart_edge.Routing.Match.{
  matched, mismatched, fault, match_from, route_segment_count_matches, route_kind_matches,
}

-- A wildcard stands at the end, if anywhere.
abbrev pub IsCanonical : List CompiledRouteSegment → Type 0
IsCanonical [] = Unit
IsCanonical (literal l ∷ more) = IsCanonical more
IsCanonical (parameter n ∷ more) = IsCanonical more
IsCanonical (wildcard n ∷ []) = Unit
IsCanonical (wildcard n ∷ s ∷ more) = ⊥

-- The segments of a route fit those of a request, and take the parameters from `p` to `q`.
abbrev pub Fits : List CompiledRouteSegment → List Str → Map Str Str → Map Str Str → Type 0
Fits [] [] p q = p ≡ q
Fits [] (s ∷ ss) p q = ⊥
Fits (literal l ∷ more) [] p q = ⊥
Fits (literal l ∷ more) (s ∷ ss) p q = (s ≡ l) × Fits more ss p q
Fits (parameter n ∷ more) [] p q = ⊥
Fits (parameter n ∷ more) (s ∷ ss) p q = Fits more ss (Map.insert n s p) q
Fits (wildcard n ∷ []) ss p q = Map.insert n (join b'/' ss) p ≡ q
Fits (wildcard n ∷ s ∷ more) ss p q = ⊥

-- Which routes serve a request of a kind.
pub data Serves : RouteTransportKind → RouteTransportKind → Type 0 where
  plain : Serves http http
  native : Serves native_http http
  socket : Serves web_socket web_socket
  transport : Serves web_transport web_transport

pub Serves_of_matches : (a b : RouteTransportKind) → route_kind_matches a b ≡ true → Serves a b
unfolding route_kind_matches
Serves_of_matches http http h = plain
Serves_of_matches native_http http h = native
Serves_of_matches web_socket web_socket h = socket
Serves_of_matches web_transport web_transport h = transport
Serves_of_matches _ _ h = cc

pub matches_of_Serves : (a b : RouteTransportKind) → Serves a b → route_kind_matches a b ≡ true
unfolding route_kind_matches
matches_of_Serves a b plain = refl
matches_of_Serves a b native = refl
matches_of_Serves a b socket = refl
matches_of_Serves a b transport = refl

-- A request segment before the index does not matter.
match_from-cons :
    (s : Str) (request : List Str) (i : ℕ) (rs : List CompiledRouteSegment) (p : Map Str Str)
    → match_from (s ∷ request) (suc i) rs p ≡ match_from request i rs p
unfolding match_from
match_from-cons s request i [] p = refl
match_from-cons s request i (literal l ∷ more) p =
    let e : suc i + 1 ≡ suc (i + 1) = omega arith in
    rw (e, match_from-cons s request (i + 1) more p)
match_from-cons s request i (parameter n ∷ more) p =
    let e : suc i + 1 ≡ suc (i + 1) = omega arith in
    go (get_elem? request i) e (match_from-cons s request (i + 1) more)
  where
    go :
        (o : Option Str)
        → suc i + 1 ≡ suc (i + 1)
        → ((q : Map Str Str)
            → match_from (s ∷ request) (suc (i + 1)) more q ≡ match_from request (i + 1) more q)
        → elim o [
          | none ↦ mismatched
          | some t ↦ match_from (s ∷ request) (suc i + 1) more (Map.insert n t p)
        ]
          ≡ elim o [
            | none ↦ mismatched
            | some t ↦ match_from request (i + 1) more (Map.insert n t p)
          ]
    go none e ih = refl
    go (some t) e ih = rw (e, ih (Map.insert n t p))
match_from-cons s request i (wildcard n ∷ more) p = ground arith

-- The segments are as many as the request's, or, before a wildcard, at most as many.
abbrev pub Counts : List CompiledRouteSegment → List Str → Type 0
Counts rs ss = route_segment_count_matches rs (length ss) ≡ true

Counts-cons :
    (r t : CompiledRouteSegment) (more : List CompiledRouteSegment) (s : Str) (ss : List Str)
    → route_segment_count_matches (r ∷ t ∷ more) (length (s ∷ ss))
      ≡ route_segment_count_matches (t ∷ more) (length ss)
unfolding route_segment_count_matches
Counts-cons r t more s ss = go (last (t ∷ more))
  where
    go :
        (o : Option CompiledRouteSegment)
        → elim o [
          | some (wildcard _) ↦ leb (suc (suc (length more)) - 1) (suc (length ss))
          | _ ↦ suc (suc (length more)) == suc (length ss)
        ]
          ≡ elim o [
            | some (wildcard _) ↦ leb (suc (length more) - 1) (length ss)
            | _ ↦ suc (length more) == length ss
          ]
    go none = ground arith
    go (some (wildcard n)) = ground arith
    go (some _) = ground arith

-- Whatever the route, no slice is out of range once the counts agree.
pub count_bound :
    (rs : List CompiledRouteSegment) (n : ℕ)
    → route_segment_count_matches rs n ≡ true
    → length rs ≤ n + 1
unfolding route_segment_count_matches
count_bound rs n h = go (last rs) h
  where
    go :
        (o : Option CompiledRouteSegment)
        → elim o [ some (wildcard _) ↦ leb (length rs - 1) n | _ ↦ length rs == n ] ≡ true
        → length rs ≤ n + 1
    go none h = ground arith
    go (some (wildcard n)) h = ground arith
    go (some _) h = ground arith

pub match_from-ne-fault :
    (ss : List Str) (i : ℕ) (rs : List CompiledRouteSegment) (p : Map Str Str)
    → i + length rs ≤ length ss + 1
    → match_from ss i rs p ≢ fault
unfolding match_from
match_from-ne-fault ss i [] p h = λ e. cc
match_from-ne-fault ss i (literal l ∷ more) p h =
    ground (arith, match_from-ne-fault ss (i + 1) more p)
match_from-ne-fault ss i (parameter n ∷ more) p h =
    go (get_elem? ss i) (λ q. match_from-ne-fault ss (i + 1) more q (omega arith))
  where
    go :
        (o : Option Str)
        → ((q : Map Str Str) → match_from ss (i + 1) more q ≢ fault)
        → elim o [ none ↦ mismatched | some t ↦ match_from ss (i + 1) more (Map.insert n t p) ]
          ≢ fault
    go none ih = λ e. cc
    go (some t) ih = ih (Map.insert n t p)
match_from-ne-fault ss i (wildcard n ∷ more) p h = ground arith

-- A segment that is no wildcard.
abbrev IsSingle : CompiledRouteSegment → Type 0
IsSingle (wildcard n) = ⊥
IsSingle _ = Unit

Counts-tail :
    (r : CompiledRouteSegment) (more : List CompiledRouteSegment) (s : Str) (ss : List Str)
    → IsSingle r
    → route_segment_count_matches (r ∷ more) (length (s ∷ ss))
      ≡ route_segment_count_matches more (length ss)
unfolding route_segment_count_matches
Counts-tail (literal l) [] s ss h = ground arith
Counts-tail (parameter l) [] s ss h = ground arith
Counts-tail (wildcard l) [] s ss h = absurd h
Counts-tail r (t ∷ more) s ss h = Counts-cons r t more s ss

-- What the loop answers, given the counts: the parameters if the segments fit.
pub match_from-Fits :
    (rs : List CompiledRouteSegment) (ss : List Str) (p q : Map Str Str)
    → IsCanonical rs
    → Counts rs ss
    → match_from ss 0 rs p ≡ matched q
    → Fits rs ss p q
unfolding match_from
match_from-Fits [] [] p q c k h = ground arith
match_from-Fits [] (s ∷ ss) p q c k h = absurd (unfold route_segment_count_matches in ground arith)
match_from-Fits (literal l ∷ more) [] p q c k h = cc
match_from-Fits (literal l ∷ more) (s ∷ ss) p q c k h = elim (Bool-cases (bytes_beq s l)) [
  | inl e ↦
      let rest : match_from ss 0 more p ≡ matched q =
        sym (match_from-cons s ss 0 more p) ∙ (rw e at h) in
      (
        bytes_beq_sound s l e,
        match_from-Fits more ss p q c (sym (Counts-tail (literal l) more s ss tt) ∙ k) rest,
      )
  | inr e ↦ let no : mismatched ≡ matched q = rw e at h in cc
]
match_from-Fits (parameter n ∷ more) [] p q c k h = cc
match_from-Fits (parameter n ∷ more) (s ∷ ss) p q c k h =
    match_from-Fits more ss (Map.insert n s p) q c
      (sym (Counts-tail (parameter n) more s ss tt) ∙ k)
      (sym (match_from-cons s ss 0 more (Map.insert n s p)) ∙ h)
match_from-Fits (wildcard n ∷ []) ss p q c k h = ground arith
match_from-Fits (wildcard n ∷ t ∷ more) ss p q c k h = absurd c

pub match_from_of_Fits :
    (rs : List CompiledRouteSegment) (ss : List Str) (p q : Map Str Str)
    → Fits rs ss p q
    → Counts rs ss × (match_from ss 0 rs p ≡ matched q)
unfolding match_from
match_from_of_Fits [] [] p q f = (unfold route_segment_count_matches in refl, ap matched f)
match_from_of_Fits [] (s ∷ ss) p q f = absurd f
match_from_of_Fits (literal l ∷ more) [] p q f = absurd f
match_from_of_Fits (literal l ∷ more) (s ∷ ss) p q f =
    let (k, h) = match_from_of_Fits more ss p q f.1 in
    let same : bytes_beq s l ≡ true = rw f.0 (bytes_beq_refl l) in
    (Counts-tail (literal l) more s ss tt ∙ k, rw same (match_from-cons s ss 0 more p ∙ h))
match_from_of_Fits (parameter n ∷ more) [] p q f = absurd f
match_from_of_Fits (parameter n ∷ more) (s ∷ ss) p q f =
    let (k, h) = match_from_of_Fits more ss (Map.insert n s p) q f in
    (Counts-tail (parameter n) more s ss tt ∙ k, match_from-cons s ss 0 more (Map.insert n s p) ∙ h)
match_from_of_Fits (wildcard n ∷ []) ss p q f =
    (unfold route_segment_count_matches in ground arith, ground arith)
match_from_of_Fits (wildcard n ∷ t ∷ more) ss p q f = absurd f
