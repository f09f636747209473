-- ===== src/Http/Body.antt =====
-- lib.rs: request bodies and their schemas (lines 747 to 752, 4165 to 4316, 4350 to 4356).
use dart_edge.Base.{Bool, false, [], ◌∷◌, ◌++◌, Option, none, some, if◌then◌else◌}
use dart_edge.Base.Keys.{bytes_eq}
use dart_edge.Base.Map
use dart_edge.Base.Map.{Map}
use dart_edge.Base.Result.{Result, ok, err}
use dart_edge.Text.Bytes.{Bytes, Str, text, eq_ignore_ascii_case}
use dart_edge.Text.Utf8.{is_utf8, from_utf8_lossy}
use dart_edge.Routing.Route.{RequestBodyKind, RequestBodyValidation}
use dart_edge.Routing.Route
use dart_edge.Routing.Compile.{content_type_essence}
use dart_edge.Runtime.Message.{NativeBodyKind}
use dart_edge.Runtime.Message
use dart_edge.Http.Response.{HttpLibrary, HttpResponse, HeaderMap, response, plain_text, header_str}

-- serde_json and jsonschema: `J` is a JSON value, `V` a compiled validator.
pub record JsonLibrary (J V : Type 0) : Type 0 where
  pub from_slice : Bytes → Option J
  pub object_of_strings : Map Str Str → J
  pub string : Str → J
  pub null : J
  pub is_valid : V → J → Bool
  pub first_error : V → J → Option Str

pub record ValidatedBody (J : Type 0) : Type 0 where
  pub bytes : Option Bytes
  pub kind : NativeBodyKind
  pub json : Option J

abbrev pub no_body : {J : Type 0} → ValidatedBody J
no_body = record { bytes = none; kind = Message.none; json = none }

unfoldable pub content_type_matches : Option Str → Str → Bool
content_type_matches none expected = false
content_type_matches (some actual) expected =
    eq_ignore_ascii_case (content_type_essence actual) (content_type_essence expected)

module _ {J V : Type 0} (http : HttpLibrary) (json : JsonLibrary J V) (schemas : Map Str V) where
  unfoldable pub parse_json_body : Bytes → Result (ValidatedBody J) HttpResponse
  parse_json_body body = elim (json.from_slice body) [
    | some value ↦ ok (record { bytes = some body; kind = Message.json; json = some value })
    | none ↦ err (response http 400 plain_text (text "Invalid JSON body"))
  ]

  unfoldable pub parse_utf8_body : Bytes → NativeBodyKind → Result (ValidatedBody J) HttpResponse
  parse_utf8_body body kind =
      if is_utf8 body
      then ok (record { bytes = some body; kind = kind; json = none })
      else err (response http 400 plain_text (text "Request body must be valid UTF-8"))

  -- The body of a request that has a body and a declared kind.
  unfoldable pub read_declared_body :
      RequestBodyKind → Bytes → Result (ValidatedBody J) HttpResponse
  unfolding parse_json_body parse_utf8_body
  read_declared_body Route.json body = parse_json_body body
  read_declared_body Route.multipart body =
      ok (record { bytes = some body; kind = Message.multipart; json = none })
  read_declared_body Route.text body = parse_utf8_body body Message.text
  read_declared_body Route.other body = parse_utf8_body body Message.text

  unfoldable pub validate_and_read_body :
      HeaderMap → Bytes → Option RequestBodyValidation → Result (ValidatedBody J) HttpResponse
  unfolding read_declared_body parse_utf8_body
  validate_and_read_body headers [] request_body = ok no_body
  validate_and_read_body headers (b ∷ body) none = parse_utf8_body (b ∷ body) Message.text
  validate_and_read_body headers (b ∷ body) (some declared) =
      if content_type_matches (header_str http (text "content-type") headers) declared.content_type
      then read_declared_body declared.kind (b ∷ body)
      else err (response http 415 plain_text (text "Expected " ++ declared.content_type))

  abbrev pub error_detail : Option Str → Str
  error_detail none = text "Unknown schema validation error"
  error_detail (some e) = e

  unfoldable pub validate_schema_value : Str → J → Str → Result (Unit {0}) HttpResponse
  validate_schema_value schema_id instance_value label = elim (Map.get schema_id schemas) [
    | none ↦
        err
          (response http 500 plain_text (text "Missing compiled schema '" ++ schema_id ++ text "'"))
    | some validator ↦
        if json.is_valid validator instance_value
        then ok tt
        else err (
            response http 422 plain_text (
              label
              ++ text " validation failed: "
              ++ error_detail (json.first_error validator instance_value)))
  ]

  unfoldable pub validate_string_map :
      Map Str Str → Option Str → Str → Result (Unit {0}) HttpResponse
  unfolding validate_schema_value
  validate_string_map values none label = ok tt
  validate_string_map values (some schema_id) label =
      validate_schema_value schema_id (json.object_of_strings values) label

  -- The value that the schema of a body is tried on.
  unfoldable pub body_instance : ValidatedBody J → J
  body_instance body = elim body.kind [
    | Message.json ↦ elim body.json [ none ↦ json.null | some value ↦ value ]
    | Message.text ↦ elim body.bytes [
      | none ↦ json.null
      | some bytes ↦ json.string (from_utf8_lossy bytes)
    ]
    | Message.multipart ↦ json.null
    | Message.none ↦ json.null
  ]

  unfoldable pub validate_request_body :
      ValidatedBody J → RequestBodyValidation → Result (Unit {0}) HttpResponse
  unfolding body_instance validate_schema_value
  validate_request_body body declared = elim declared.schema_id [
    | none ↦ ok tt
    | some schema_id ↦ validate_schema_value schema_id (body_instance body) (text "Request body")
  ]
