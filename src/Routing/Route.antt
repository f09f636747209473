-- ===== src/Routing/Route.antt =====
-- lib.rs: compiled routes (lines 677 to 734).
use dart_edge.Base.{ℕ, List, Option}
use dart_edge.Base.Map.{Map}
use dart_edge.Text.Bytes.{Str}
use dart_edge.Routing.Method.{NativeHttpMethod}
use dart_edge.Routing.Manifest.{RouteTransportKind}

pub data CompiledRouteSegment : Type 0 where
  literal : Str → CompiledRouteSegment
  parameter : Str → CompiledRouteSegment
  wildcard : Str → CompiledRouteSegment

pub data RequestBodyKind : Type 0 where
  json text multipart other : RequestBodyKind

pub record RequestBodyValidation : Type 0 where
  pub content_type : Str
  pub kind : RequestBodyKind
  pub schema_id : Option Str

pub record CompiledNativeHttpHandler : Type 0 where
  pub handle : ℕ
  pub handler : ℕ
  pub free_response : ℕ
  pub handler_path_segments : Option (List CompiledRouteSegment)

pub record CompiledRoute : Type 0 where
  pub kind : RouteTransportKind
  pub route_id : Str
  pub method : NativeHttpMethod
  pub path_segments : List CompiledRouteSegment
  pub params_schema_id : Option Str
  pub query_schema_id : Option Str
  pub headers_schema_id : Option Str
  pub request_body : Option RequestBodyValidation
  pub native_handler : Option CompiledNativeHttpHandler
  pub max_pending_messages : ℕ
  pub max_pending_bytes : ℕ

pub record NativeRouteMatch : Type 0 where
  pub kind : RouteTransportKind
  pub route_id : Str
  pub path_params : Map Str Str
  pub params_schema_id : Option Str
  pub query_schema_id : Option Str
  pub headers_schema_id : Option Str
  pub request_body : Option RequestBodyValidation
  pub native_handler : Option CompiledNativeHttpHandler
  pub max_pending_messages : ℕ
  pub max_pending_bytes : ℕ
