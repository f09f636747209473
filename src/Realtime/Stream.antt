-- ===== src/Realtime/Stream.antt =====
-- lib.rs: the table of WebTransport streams, and how a stream enters and leaves it (lines 538 to 550,
-- 586 to 590, 3001 to 3056, 3126 to 3188, 3365 to 3375, 3411 to 3438). What stands under one lock is
-- one step; `runtime_state` is the server's id.
use dart_edge.Base.{
  ℕ, Bool, true, false, not, ◌&&◌, List, [], Option, none, some, is_some, is_empty, if◌then◌else◌,
}
use dart_edge.Base.Keys.{nat_eq}
use dart_edge.Base.Map
use dart_edge.Base.Map.{Map}
use dart_edge.Base.Words.{wrapping_inc}
use dart_edge.Text.Bytes.{Bytes}
use dart_edge.Runtime.Message.{
  TransportEventKind, web_transport_persistent_stream_opened, web_transport_operation_ready,
}
use dart_edge.Runtime.Statics.{Statics, notify_transport_event}
use dart_edge.Realtime.WebTransport.{TransportSessions}
use dart_edge.Realtime.Operation.{
  WebTransportStreamKind, WebTransportOperationKind, WebTransportStreamInfo,
  WebTransportStreamTerminal, WebTransportOperationResult,
}

pub data WebTransportStreamCommand : Type 0 where
  write : ℕ → Bytes → WebTransportStreamCommand
  finish : ℕ → WebTransportStreamCommand
  reset : ℕ → ℕ → WebTransportStreamCommand

-- `send_tx` and `stop_tx` say whether the entry holds its end of the channel.
pub record WebTransportStreamState : Type 0 where
  pub info : WebTransportStreamInfo
  pub runtime_state : ℕ
  pub chunks : List Bytes
  pub pending_bytes : ℕ
  pub max_pending_messages : ℕ
  pub max_pending_bytes : ℕ
  pub terminal : Option WebTransportStreamTerminal
  pub send_tx : Bool
  pub stop_tx : Bool
  pub send_closed : Bool
  pub receive_closed : Bool

-- The task of `spawn_web_transport_send_actor`, with the commands in its channel.
pub record Actor : Type 0 where
  pub info : WebTransportStreamInfo
  pub runtime_state : ℕ
  pub commands : List WebTransportStreamCommand

-- The task of `read_web_transport_stream_chunks`, with the codes in its channel.
pub record Reader : Type 0 where
  pub info : WebTransportStreamInfo
  pub runtime_state : ℕ
  pub stops : List ℕ
  pub legacy_payload : Option Bytes
  pub max_pending_bytes : ℕ

pub record Transport : Type 0 where
  pub next_stream_id : ℕ
  pub next_operation_id : ℕ
  pub sessions : TransportSessions
  pub streams : Map ℕ WebTransportStreamState
  pub opened : Map ℕ WebTransportStreamInfo
  pub operations : Map ℕ WebTransportOperationResult
  pub actors : Map ℕ Actor
  pub readers : Map ℕ Reader
  pub statics : Statics

abbrev pub notify : ℕ → TransportEventKind → ℕ → Transport → Transport
notify server_id kind event_id t = record t {
  statics = (notify_transport_event server_id kind event_id t.statics).0;
}

-- `push_web_transport_operation`.
unfoldable pub push_operation : WebTransportOperationResult → ℕ → Transport → Transport
push_operation operation runtime_state t =
    notify runtime_state web_transport_operation_ready operation.operation_id
      (record t { operations = Map.insert operation.operation_id operation t.operations })

-- `web_transport_session_limits`, with its defaults.
unfoldable pub session_limits : ℕ → TransportSessions → ℕ × ℕ
session_limits session_id sessions = elim (Map.get session_id sessions) [
  | none ↦ (256, 8388608)
  | some s ↦ (s.max_pending_messages, s.max_pending_bytes)
]

unfoldable pub is_complete : WebTransportStreamState → Bool
is_complete s = s.send_closed && s.receive_closed && not (is_some s.terminal) && is_empty s.chunks

-- `remove_web_transport_stream_if_complete`.
unfoldable pub remove_if_complete : ℕ → Transport → Transport
unfolding is_complete
remove_if_complete stream_id t = elim (Map.get stream_id t.streams) [
  | none ↦ t
  | some s ↦ if is_complete s then record t { streams = Map.remove stream_id t.streams } else t
]

-- A stream as it enters the table.
abbrev pub new_stream : WebTransportStreamInfo → ℕ → ℕ → ℕ → Bool → Bool → WebTransportStreamState
new_stream info runtime_state max_pending_messages max_pending_bytes sends receives = record {
  info = info;
  runtime_state = runtime_state;
  chunks = [];
  pending_bytes = 0;
  max_pending_messages = max_pending_messages;
  max_pending_bytes = max_pending_bytes;
  terminal = none;
  send_tx = sends;
  stop_tx = receives;
  send_closed = not sends;
  receive_closed = not receives;
}

abbrev new_reader : WebTransportStreamInfo → ℕ → Bool → ℕ → Reader
new_reader info runtime_state collects max_pending_bytes = record {
  info = info;
  runtime_state = runtime_state;
  stops = [];
  legacy_payload = if collects then some [] else none;
  max_pending_bytes = max_pending_bytes;
}

-- The entry, and the tasks of the two directions.
unfoldable pub enter : WebTransportStreamState → Bool → Transport → Transport
enter s collects t =
    let id = s.info.stream_id in
    record t {
      next_stream_id = wrapping_inc t.next_stream_id;
      streams = Map.insert id s t.streams;
      actors =
          if s.send_tx
          then Map.insert id
              (record { info = s.info; runtime_state = s.runtime_state; commands = [] }) t.actors
          else t.actors;
      readers =
          if s.stop_tx
          then Map.insert id (new_reader s.info s.runtime_state collects s.max_pending_bytes)
              t.readers
          else t.readers;
    }

-- `register_web_transport_receive_stream`; `sends` says whether the stream goes both ways.
unfoldable pub register_receive_stream :
    ℕ → WebTransportStreamKind → ℕ → Bool → ℕ → Bool → ℕ → ℕ → Transport → Transport
unfolding enter
register_receive_stream session_id kind protocol_id sends runtime_state collects
      max_pending_messages max_pending_bytes t =
    let stream_id = t.next_stream_id in
    let info : WebTransportStreamInfo = record {
      session_id = session_id;
      stream_id = stream_id;
      protocol_id = protocol_id;
      kind = kind;
    } in
    let u =
      enter (new_stream info runtime_state max_pending_messages max_pending_bytes sends true)
        collects t in
    notify runtime_state web_transport_persistent_stream_opened stream_id
      (record u { opened = Map.insert stream_id info u.opened })

-- `register_opened_web_transport_send_stream`; `receives` says whether the stream goes both ways.
unfoldable pub register_opened_stream :
    ℕ
    → ℕ
    → WebTransportStreamKind
    → WebTransportOperationKind
    → ℕ
    → Bool
    → ℕ
    → Transport
    → Transport
unfolding enter push_operation session_limits
register_opened_stream session_id operation_id kind operation_kind protocol_id receives
      runtime_state t =
    let stream_id = t.next_stream_id in
    let info : WebTransportStreamInfo = record {
      session_id = session_id;
      stream_id = stream_id;
      protocol_id = protocol_id;
      kind = kind;
    } in
    let (messages, bytes) = session_limits session_id t.sessions in
    push_operation
      (record {
        operation_id = operation_id;
        session_id = session_id;
        stream_id = stream_id;
        protocol_id = protocol_id;
        kind = operation_kind;
        error = none;
      })
      runtime_state (enter (new_stream info runtime_state messages bytes true receives) false t)
