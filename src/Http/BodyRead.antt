-- ===== src/Http/BodyRead.antt =====
-- What lib.rs makes of the bytes of a body: the body that is handed on, the value that a schema is
-- tried on, and what is wrong with bytes that are refused, said without the code's order of tests.
use dart_edge.Base.{◌≡◌, refl, true, false, [], ◌∷◌, Option, none, some, arith}
use dart_edge.Base.Map.{Map}
use dart_edge.Base.Result.{ok}
use dart_edge.Text.Bytes.{Bytes, Str, text}
use dart_edge.Text.Utf8.{is_utf8, from_utf8_lossy}
use dart_edge.Runtime.Message.{NativeBodyKind}
use dart_edge.Runtime.Message
use dart_edge.Routing.Route.{RequestBodyKind, RequestBodyValidation}
use dart_edge.Routing.Route
use dart_edge.Http.Response.{HttpLibrary, HeaderMap, header_str}
use dart_edge.Http.Body.{
  JsonLibrary, ValidatedBody, no_body, content_type_matches, parse_json_body, parse_utf8_body,
  read_declared_body, validate_and_read_body, body_instance,
}

module _ {J V : Type 0} (lib : HttpLibrary) (json : JsonLibrary J V) where
  abbrev pub body_of : Bytes → NativeBodyKind → Option J → ValidatedBody J
  body_of bytes kind value = record { bytes = some bytes; kind = kind; json = value }

  -- The body that is made of bytes which are declared to be of the kind.
  abbrev pub IsOfKind : RequestBodyKind → Bytes → ValidatedBody J → Type 0
  IsOfKind Route.json bytes body =
      (value : J) × (json.from_slice bytes ≡ some value)
      × (body ≡ body_of bytes Message.json (some value))
  IsOfKind Route.multipart bytes body = body ≡ body_of bytes Message.multipart none
  IsOfKind Route.text bytes body = (is_utf8 bytes ≡ true) × (body ≡ body_of bytes Message.text none)
  IsOfKind Route.other bytes body =
      (is_utf8 bytes ≡ true) × (body ≡ body_of bytes Message.text none)

  -- No bytes are no body; others are of the content type and the kind that the route declares, or
  -- text if it declares nothing.
  abbrev pub IsRead : HeaderMap → Bytes → Option RequestBodyValidation → ValidatedBody J → Type 0
  IsRead headers [] declared body = body ≡ no_body
  IsRead headers (b ∷ bytes) none body = IsOfKind Route.text (b ∷ bytes) body
  IsRead headers (b ∷ bytes) (some declared) body =
      (content_type_matches (header_str lib (text "content-type") headers) declared.content_type
        ≡ true)
      × IsOfKind declared.kind (b ∷ bytes) body

  -- The value that stands for the bytes.
  abbrev pub IsValueOf : RequestBodyKind → Bytes → J → Type 0
  IsValueOf Route.json bytes value = json.from_slice bytes ≡ some value
  IsValueOf Route.multipart bytes value = value ≡ json.null
  IsValueOf Route.text bytes value = value ≡ json.string (from_utf8_lossy bytes)
  IsValueOf Route.other bytes value = value ≡ json.string (from_utf8_lossy bytes)

  abbrev pub IsInstance : Bytes → Option RequestBodyValidation → J → Type 0
  IsInstance [] declared value = value ≡ json.null
  IsInstance (b ∷ bytes) none value = IsValueOf Route.text (b ∷ bytes) value
  IsInstance (b ∷ bytes) (some declared) value = IsValueOf declared.kind (b ∷ bytes) value

  -- The bytes are not what their kind asks for.
  abbrev pub IsUnfit : RequestBodyKind → Bytes → Type 0
  IsUnfit Route.json bytes = json.from_slice bytes ≡ none
  IsUnfit Route.multipart bytes = ⊥
  IsUnfit Route.text bytes = is_utf8 bytes ≡ false
  IsUnfit Route.other bytes = is_utf8 bytes ≡ false

  abbrev pub IsMalformed : Bytes → Option RequestBodyValidation → Type 0
  IsMalformed bytes none = IsUnfit Route.text bytes
  IsMalformed bytes (some declared) = IsUnfit declared.kind bytes

module _ {J V : Type 0} (lib : HttpLibrary) (json : JsonLibrary J V) (schemas : Map Str V) where
  read_declared_body-IsOfKind :
      (kind : RequestBodyKind) (bytes : Bytes) (body : ValidatedBody J)
      → read_declared_body lib json schemas kind bytes ≡ ok body
      → IsOfKind lib json kind bytes body
  unfolding read_declared_body parse_json_body parse_utf8_body
  read_declared_body-IsOfKind Route.json bytes body h = ground arith
  read_declared_body-IsOfKind Route.multipart bytes body h = ground arith
  read_declared_body-IsOfKind Route.text bytes body h = ground arith
  read_declared_body-IsOfKind Route.other bytes body h = ground arith

  pub validate_and_read_body-IsRead :
      (headers : HeaderMap) (bytes : Bytes) (declared : Option RequestBodyValidation)
      (body : ValidatedBody J)
      → validate_and_read_body lib json schemas headers bytes declared ≡ ok body
      → IsRead lib json headers bytes declared body
  unfolding validate_and_read_body parse_utf8_body
  validate_and_read_body-IsRead headers [] declared body h = ground arith
  validate_and_read_body-IsRead headers (b ∷ bytes) none body h = ground arith
  validate_and_read_body-IsRead headers (b ∷ bytes) (some declared) body h =
      let fits : content_type_matches (header_str lib (text "content-type") headers)
            declared.content_type
          ≡ true =
        ground arith in
      let read : read_declared_body lib json schemas declared.kind (b ∷ bytes) ≡ ok body =
        ground arith in
      (fits, read_declared_body-IsOfKind declared.kind (b ∷ bytes) body read)

  body_instance-IsValueOf :
      (kind : RequestBodyKind) (bytes : Bytes) (body : ValidatedBody J)
      → IsOfKind lib json kind bytes body
      → IsValueOf lib json kind bytes (body_instance lib json schemas body)
  unfolding body_instance
  body_instance-IsValueOf Route.json bytes body (value, e, same) = rw same e
  body_instance-IsValueOf Route.multipart bytes body h = rw h refl
  body_instance-IsValueOf Route.text bytes body (u, h) = rw h refl
  body_instance-IsValueOf Route.other bytes body (u, h) = rw h refl

  pub body_instance-IsInstance :
      (headers : HeaderMap) (bytes : Bytes) (declared : Option RequestBodyValidation)
      (body : ValidatedBody J)
      → IsRead lib json headers bytes declared body
      → IsInstance lib json bytes declared (body_instance lib json schemas body)
  unfolding body_instance
  body_instance-IsInstance headers [] declared body h = rw h refl
  body_instance-IsInstance headers (b ∷ bytes) none body h =
      body_instance-IsValueOf Route.text (b ∷ bytes) body h
  body_instance-IsInstance headers (b ∷ bytes) (some declared) body (fits, h) =
      body_instance-IsValueOf declared.kind (b ∷ bytes) body h
