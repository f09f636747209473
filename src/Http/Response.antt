-- ===== src/Http/Response.antt =====
-- lib.rs: responses and what the `http` crate decides about them (lines 2910 to 2943, 4318 to 4329,
-- 4415 to 4423).
use dart_edge.Base.{ℕ, Bool, false, List, [], ◌∷◌, Option, none, some, if◌then◌else◌, all}
use dart_edge.Base.Keys.{bytes_eq}
use dart_edge.Base.Map
use dart_edge.Base.Map.{Map}
use dart_edge.Text.Bytes.{Bytes, Str, text, eq_ignore_ascii_case}

-- The `http` crate: `HeaderValue::to_str`, what a builder takes as a header, and which numbers are
-- status codes.
pub record HttpLibrary : Type 0 where
  pub to_str : Bytes → Option Str
  pub is_header : Str → Str → Bool
  pub is_status : ℕ → Bool

-- The headers of a request, each name in lower case, in the order of the map.
abbrev pub HeaderMap : Type 0
HeaderMap = List (Str × Bytes)

-- A body that is at hand, or the pieces that a stream yields and whether it ends in an error.
pub data Body : Type 0 where
  full : Bytes → Body
  stream : List Bytes → Bool → Body

pub record HttpResponse : Type 0 where
  pub status : ℕ
  pub headers : List (Str × Str)
  pub body : Body

abbrev pub plain_text : Str
plain_text = text "text/plain; charset=utf-8"

module _ (http : HttpLibrary) where
  abbrev pub are_headers : List (Str × Str) → Bool
  are_headers = all (λ h. http.is_header h.0 h.1)

  -- A builder that has been given something that is no header makes no response; `Response::new`
  -- has the status 200.
  unfoldable pub response_body_with_headers : ℕ → Str → List (Str × Str) → Body → HttpResponse
  response_body_with_headers status content_type headers body =
      let given = (text "content-type", content_type) ∷ headers in
      if are_headers given
      then record { status = status; headers = given; body = body }
      else record { status = 200; headers = []; body = full (text "Internal Server Error") }

  unfoldable pub response : ℕ → Str → Str → HttpResponse
  unfolding response_body_with_headers
  response status content_type body = response_body_with_headers status content_type [] (full body)

  -- `headers.get(name)` and then `to_str`.
  abbrev pub header_str : Str → HeaderMap → Option Str
  header_str name headers = elim (Map.get name headers) [ none ↦ none | some v ↦ http.to_str v ]

  unfoldable pub wants_web_socket_upgrade : HeaderMap → Bool
  wants_web_socket_upgrade headers = elim (header_str (text "upgrade") headers) [
    | none ↦ false
    | some v ↦ eq_ignore_ascii_case v (text "websocket")
  ]

  -- `unwrap_or_default`.
  abbrev pub or_empty : Option Str → Str
  or_empty none = []
  or_empty (some s) = s

  abbrev collect : Map Str Str → HeaderMap → Map Str Str
  collect m [] = m
  collect m ((name, value) ∷ headers) =
      collect (Map.insert name (or_empty (http.to_str value)) m) headers

  unfoldable pub collect_headers : HeaderMap → Map Str Str
  collect_headers = collect []
