-- ===== src/Routing/Manifest.antt =====
-- lib.rs: the route manifest, as serde reads it (lines 622 to 675). `NativeHttpHandler` and
-- `NativeHttpFreeResponse` are addresses.
use dart_edge.Base.{ℕ, Bool, List, Option}
use dart_edge.Text.Bytes.{Str}
use dart_edge.Routing.Method.{NativeHttpMethod}

pub data RouteTransportKind : Type 0 where
  http native_http web_socket web_transport : RouteTransportKind

pub record RouteSegmentManifest : Type 0 where
  pub value : Str
  pub is_parameter : Bool
  pub is_wildcard : Bool

pub record RequestBodyManifest : Type 0 where
  pub content_type : Str
  pub schema_id : Option Str

pub record RouteManifestEntry : Type 0 where
  pub kind : RouteTransportKind
  pub route_id : Str
  pub method : NativeHttpMethod
  pub path_segments : List RouteSegmentManifest
  pub handler_path_segments : Option (List RouteSegmentManifest)
  pub params_schema_id : Option Str
  pub query_schema_id : Option Str
  pub headers_schema_id : Option Str
  pub request_body : Option RequestBodyManifest
  pub native_handle : Option ℕ
  pub native_handler_address : Option ℕ
  pub native_free_response_address : Option ℕ
  pub max_pending_messages : ℕ
  pub max_pending_bytes : ℕ
