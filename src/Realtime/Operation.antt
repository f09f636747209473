-- ===== src/Realtime/Operation.antt =====
-- lib.rs: the kinds of WebTransport streams and operations, and the results of operations (lines 530
-- to 536, 552 to 590).
use dart_edge.Base.{ℕ, Option}
use dart_edge.Text.Bytes.{Str}

pub data WebTransportStreamKind : Type 0 where
  incoming_unidirectional incoming_bidirectional : WebTransportStreamKind
  outgoing_unidirectional outgoing_bidirectional : WebTransportStreamKind

pub data WebTransportOperationKind : Type 0 where
  open_unidirectional open_bidirectional write finish reset stop : WebTransportOperationKind

pub record WebTransportStreamInfo : Type 0 where
  pub session_id : ℕ
  pub stream_id : ℕ
  pub protocol_id : ℕ
  pub kind : WebTransportStreamKind

pub record WebTransportStreamTerminal : Type 0 where
  pub error_code : Option ℕ
  pub error : Str

pub record WebTransportOperationResult : Type 0 where
  pub operation_id : ℕ
  pub session_id : ℕ
  pub stream_id : ℕ
  pub protocol_id : ℕ
  pub kind : WebTransportOperationKind
  pub error : Option Str
