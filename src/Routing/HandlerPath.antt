-- ===== src/Routing/HandlerPath.antt =====
-- `native_handler_path` of lib.rs, and the path segments that it is built from.
use dart_edge.Base.{
  ◌≡◌, ◌≢◌, refl, sym, ◌∙◌, ap, inl, inr, List, [], ◌∷◌, ◌++◌, some, All, Bool-cases,
}
use mathlib.Core.List.{append_assoc, append-nil}
use dart_edge.Base.Keys.{bytes_beq, bytes_beq_sound, bytes_eq}
use dart_edge.Base.Map
use dart_edge.Base.Map.{Map}
use dart_edge.Base.Result.{ok}
use dart_edge.Text.Bytes.{Str}
use dart_edge.Text.Split.{
  split, join, pieces, IsPiece, pieces-IsPiece, pieces-cons, pieces_of_IsPiece, pieces-separator,
  pieces-join,
}
use dart_edge.Routing.Route.{CompiledRouteSegment, literal, parameter, wildcard}
use dart_edge.Routing.Match.{path_segments, handler_path_from, native_handler_path}
use dart_edge.Routing.Fits.{Fits}

path_segments-pieces : (path : Str) → path_segments path ≡ pieces b'/' path
unfolding path_segments
path_segments-pieces path = elim (Bool-cases (bytes_beq path (b'/' ∷ []))) [
  | inl e ↦ rw (e, bytes_beq_sound path (b'/' ∷ []) e) (unfold split in refl)
  | inr e ↦ rw e
]

-- The segments of a request path hold something and no slash.
pub path_segments-IsPiece : (path : Str) → All (IsPiece b'/') (path_segments path)
path_segments-IsPiece path = rw (path_segments-pieces path) (pieces-IsPiece b'/' path)

-- No segment binds the name.
abbrev pub IsUnbound : Str → List CompiledRouteSegment → Type 0
IsUnbound name [] = Unit
IsUnbound name (literal l ∷ more) = IsUnbound name more
IsUnbound name (parameter n ∷ more) = (n ≢ name) × IsUnbound name more
IsUnbound name (wildcard n ∷ more) = (n ≢ name) × IsUnbound name more

-- The parameters have different names.
abbrev pub HasDistinctNames : List CompiledRouteSegment → Type 0
HasDistinctNames [] = Unit
HasDistinctNames (literal l ∷ more) = HasDistinctNames more
HasDistinctNames (parameter n ∷ more) = IsUnbound n more × HasDistinctNames more
HasDistinctNames (wildcard n ∷ more) = IsUnbound n more × HasDistinctNames more

-- Later segments leave a parameter alone.
get_of_Fits :
    (name : Str) (rs : List CompiledRouteSegment) (ss : List Str) (p q : Map Str Str)
    → IsUnbound name rs
    → Fits rs ss p q
    → Map.get name q ≡ Map.get name p
get_of_Fits name [] [] p q u f = ap (Map.get name) (sym f)
get_of_Fits name [] (s ∷ ss) p q u f = absurd f
get_of_Fits name (literal l ∷ more) [] p q u f = absurd f
get_of_Fits name (literal l ∷ more) (s ∷ ss) p q u f = get_of_Fits name more ss p q u f.1
get_of_Fits name (parameter n ∷ more) [] p q u f = absurd f
get_of_Fits name (parameter n ∷ more) (s ∷ ss) p q u f =
    get_of_Fits name more ss (Map.insert n s p) q u.1 f ∙ Map.get-insert_ne n name s p u.0
get_of_Fits name (wildcard n ∷ []) ss p q u f =
    ap (Map.get name) (sym f) ∙ Map.get-insert_ne n name (join b'/' ss) p u.0
get_of_Fits name (wildcard n ∷ t ∷ more) ss p q u f = absurd f

-- The path that the request's segments make, the wildcard's in one piece.
abbrev rebuilt : List CompiledRouteSegment → List Str → Str
rebuilt [] ss = []
rebuilt (wildcard n ∷ more) ss = b'/' ∷ join b'/' ss
rebuilt (_ ∷ more) [] = []
rebuilt (_ ∷ more) (s ∷ ss) = b'/' ∷ (s ++ rebuilt more ss)

handler_path_from-rebuilt :
    (path : Str) (rs : List CompiledRouteSegment) (ss : List Str) (p q : Map Str Str)
    → HasDistinctNames rs
    → Fits rs ss p q
    → handler_path_from path rs q ≡ ok (path ++ rebuilt rs ss)
unfolding handler_path_from
handler_path_from-rebuilt path [] [] p q d f = ap ok (sym (append-nil path))
handler_path_from-rebuilt path [] (s ∷ ss) p q d f = absurd f
handler_path_from-rebuilt path (literal l ∷ more) [] p q d f = absurd f
handler_path_from-rebuilt path (literal l ∷ more) (s ∷ ss) p q d f = rw (f.0) (
    handler_path_from-rebuilt (path ++ (b'/' ∷ l)) more ss p q d f.1
    ∙ ap ok (append_assoc path (b'/' ∷ l) (rebuilt more ss)))
handler_path_from-rebuilt path (parameter n ∷ more) [] p q d f = absurd f
handler_path_from-rebuilt path (parameter n ∷ more) (s ∷ ss) p q d f =
    let here : Map.get n q ≡ some s =
      get_of_Fits n more ss (Map.insert n s p) q d.0 f ∙ Map.get-insert_self n s p in
    rw (here, handler_path_from)
      (handler_path_from-rebuilt (path ++ (b'/' ∷ s)) more ss (Map.insert n s p) q d.1 f
        ∙ ap ok (append_assoc path (b'/' ∷ s) (rebuilt more ss)))
handler_path_from-rebuilt path (wildcard n ∷ []) ss p q d f =
    let here : Map.get n q ≡ some (join b'/' ss) =
      ap (Map.get n) (sym f) ∙ Map.get-insert_self n (join b'/' ss) p in
    rw (here, handler_path_from) refl
handler_path_from-rebuilt path (wildcard n ∷ t ∷ more) ss p q d f = absurd f

-- The rest of a path is empty or begins with a slash.
pieces-rebuilt_cons :
    (s : Str) (rs : List CompiledRouteSegment) (ss : List Str)
    → IsPiece b'/' s
    → pieces b'/' (s ++ rebuilt rs ss) ≡ s ∷ pieces b'/' (rebuilt rs ss)
unfolding split
pieces-rebuilt_cons s [] ss h = rw (append-nil s) (pieces_of_IsPiece b'/' s h)
pieces-rebuilt_cons s (wildcard n ∷ more) ss h =
    pieces-cons b'/' s (join b'/' ss) h ∙ ap (◌∷◌ s) (sym (pieces-separator b'/' (join b'/' ss)))
pieces-rebuilt_cons s (literal n ∷ more) [] h = rw (append-nil s) (pieces_of_IsPiece b'/' s h)
pieces-rebuilt_cons s (parameter n ∷ more) [] h = rw (append-nil s) (pieces_of_IsPiece b'/' s h)
pieces-rebuilt_cons s (literal n ∷ more) (t ∷ ss) h =
    pieces-cons b'/' s (t ++ rebuilt more ss) h
    ∙ ap (◌∷◌ s) (sym (pieces-separator b'/' (t ++ rebuilt more ss)))
pieces-rebuilt_cons s (parameter n ∷ more) (t ∷ ss) h =
    pieces-cons b'/' s (t ++ rebuilt more ss) h
    ∙ ap (◌∷◌ s) (sym (pieces-separator b'/' (t ++ rebuilt more ss)))

pieces-rebuilt :
    (rs : List CompiledRouteSegment) (ss : List Str) (p q : Map Str Str)
    → All (IsPiece b'/') ss
    → Fits rs ss p q
    → pieces b'/' (rebuilt rs ss) ≡ ss
pieces-rebuilt [] [] p q h f = unfold split in refl
pieces-rebuilt [] (s ∷ ss) p q h f = absurd f
pieces-rebuilt (literal l ∷ more) [] p q h f = absurd f
pieces-rebuilt (literal l ∷ more) (s ∷ ss) p q h f =
    pieces-separator b'/' (s ++ rebuilt more ss)
    ∙ pieces-rebuilt_cons s more ss h.0
    ∙ ap (◌∷◌ s) (pieces-rebuilt more ss p q h.1 f.1)
pieces-rebuilt (parameter l ∷ more) [] p q h f = absurd f
pieces-rebuilt (parameter l ∷ more) (s ∷ ss) p q h f =
    pieces-separator b'/' (s ++ rebuilt more ss)
    ∙ pieces-rebuilt_cons s more ss h.0
    ∙ ap (◌∷◌ s) (pieces-rebuilt more ss (Map.insert l s p) q h.1 f)
pieces-rebuilt (wildcard n ∷ []) ss p q h f =
    pieces-separator b'/' (join b'/' ss) ∙ pieces-join b'/' ss h
pieces-rebuilt (wildcard n ∷ t ∷ more) ss p q h f = absurd f

no_segments : (ss : List Str) (p q : Map Str Str) → Fits [] ss p q → [] ≡ ss
no_segments [] p q f = refl
no_segments (s ∷ ss) p q f = absurd f

-- A native handler whose path has the route's own segments, with parameters of different names, is
-- given a path that has the same segments as the request's: the parameters that the match has
-- taken from the request path are put back where they stood.
pub native_handler_path-path_segments :
    (rs : List CompiledRouteSegment) (public_path : Str) (q : Map Str Str)
    → HasDistinctNames rs
    → Fits rs (path_segments public_path) [] q
    → (path : Str) × (native_handler_path public_path (some rs) q ≡ ok path)
      × (path_segments path ≡ path_segments public_path)
unfolding native_handler_path
native_handler_path-path_segments rs public_path q d f = go rs d f
  where
    ss : List Str
    ss = path_segments public_path

    go :
        (rs : List CompiledRouteSegment)
        → HasDistinctNames rs
        → Fits rs ss [] q
        → (path : Str) × (native_handler_path public_path (some rs) q ≡ ok path)
          × (path_segments path ≡ ss)
    go [] d f = (
      b'/' ∷ [],
      refl,
      path_segments-pieces (b'/' ∷ []) ∙ (unfold split in no_segments ss [] q f),
    )
    go (r ∷ rs) d f = (
      rebuilt (r ∷ rs) ss,
      handler_path_from-rebuilt [] (r ∷ rs) ss [] q d f,
      path_segments-pieces (rebuilt (r ∷ rs) ss)
          ∙ pieces-rebuilt (r ∷ rs) ss [] q (path_segments-IsPiece public_path) f,
    )
