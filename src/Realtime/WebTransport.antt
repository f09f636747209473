-- ===== src/Realtime/WebTransport.antt =====
-- lib.rs: WebTransport sessions and what comes in for them (lines 500 to 528, 607 to 620, 1372 to
-- 1435, 2670 to 2693, 2961 to 2999). A call under one lock is one step.
use dart_edge.Base.{
  ℕ, ◌-◌, Bool, true, false, ◌||◌, List, [], ◌∷◌, ◌++◌, Option, none, some, length, leb, ltb,
  if◌then◌else◌,
}
use dart_edge.Base.Keys.{nat_eq}
use dart_edge.Base.Map
use dart_edge.Base.Map.{Map}
use dart_edge.Base.Words.{saturating_add}
use dart_edge.Text.Bytes.{Bytes, Str}
use dart_edge.Runtime.Channel.{Channel}

pub data WebTransportCommand : Type 0 where
  send_datagram : Bytes → WebTransportCommand
  send_stream : Bytes → WebTransportCommand
  open_unidirectional : ℕ → WebTransportCommand
  open_bidirectional : ℕ → WebTransportCommand
  close : Option ℕ → Option Str → WebTransportCommand

pub record WebTransportConnectionInfo : Type 0 where
  pub session_id : ℕ
  pub request_id : ℕ
  pub route_id : Str
  pub path_params : Map Str Str
  pub query : Map Str Str
  pub headers : Map Str Str

pub record WebTransportIncomingDatagram : Type 0 where
  pub session_id : ℕ
  pub body : Bytes

pub record WebTransportIncomingStream : Type 0 where
  pub session_id : ℕ
  pub body : Bytes

pub record WebTransportSessionState : Type 0 where
  pub server_id : ℕ
  pub connection : Option WebTransportConnectionInfo
  pub datagrams : List WebTransportIncomingDatagram
  pub streams : List WebTransportIncomingStream
  pub pending_bytes : ℕ
  pub max_pending_messages : ℕ
  pub max_pending_bytes : ℕ
  pub commands : Channel WebTransportCommand

abbrev pub TransportSessions : Type 0
TransportSessions = Map ℕ WebTransportSessionState

-- The entry that `handle_web_transport_session` makes.
unfoldable pub new_transport_session :
    ℕ → WebTransportConnectionInfo → ℕ → ℕ → WebTransportSessionState
new_transport_session server_id connection max_pending_messages max_pending_bytes = record {
  server_id = server_id;
  connection = some connection;
  datagrams = [];
  streams = [];
  pending_bytes = 0;
  max_pending_messages = max_pending_messages;
  max_pending_bytes = max_pending_bytes;
  commands = record { sent = []; receiver = true };
}

-- The test that both kinds share: whether a body of `next_bytes` in all is refused.
unfoldable pub is_overloaded : WebTransportSessionState → ℕ → Bool
is_overloaded s next_bytes =
    leb s.max_pending_messages (saturating_add (length s.datagrams) (length s.streams))
    || ltb s.max_pending_bytes next_bytes

unfoldable pub push_datagram :
    WebTransportIncomingDatagram → WebTransportSessionState → WebTransportSessionState × Bool
unfolding is_overloaded
push_datagram datagram s =
    let next_bytes = saturating_add s.pending_bytes (length datagram.body) in
    if is_overloaded s next_bytes
    then (s, false)
    else (record s { pending_bytes = next_bytes; datagrams = s.datagrams ++ datagram ∷ [] }, true)

unfoldable pub push_stream :
    WebTransportIncomingStream → WebTransportSessionState → WebTransportSessionState × Bool
unfolding is_overloaded
push_stream stream s =
    let next_bytes = saturating_add s.pending_bytes (length stream.body) in
    if is_overloaded s next_bytes
    then (s, false)
    else (record s { pending_bytes = next_bytes; streams = s.streams ++ stream ∷ [] }, true)

unfoldable pub take_datagram :
    WebTransportSessionState → WebTransportSessionState × Option WebTransportIncomingDatagram
take_datagram s = elim s.datagrams [
  | [] ↦ (s, none)
  | datagram ∷ rest ↦ (
    record s { datagrams = rest; pending_bytes = s.pending_bytes - length datagram.body },
    some datagram,
  )
]

unfoldable pub take_stream :
    WebTransportSessionState → WebTransportSessionState × Option WebTransportIncomingStream
take_stream s = elim s.streams [
  | [] ↦ (s, none)
  | stream ∷ rest ↦ (
    record s { streams = rest; pending_bytes = s.pending_bytes - length stream.body },
    some stream,
  )
]

unfoldable pub take_connection :
    WebTransportSessionState → WebTransportSessionState × Option WebTransportConnectionInfo
take_connection s = (record s { connection = none }, s.connection)

module _ {R : Type 0} where
  -- A call on the session of an id, in the table.
  abbrev pub on_session :
      (WebTransportSessionState → WebTransportSessionState × R)
      → R
      → ℕ
      → TransportSessions
      → TransportSessions × R
  on_session f missing session_id sessions = elim (Map.get session_id sessions) [
    | none ↦ (sessions, missing)
    | some s ↦ let (t, r) = f s in (Map.insert session_id t sessions, r)
  ]

unfoldable pub push_web_transport_datagram :
    ℕ → WebTransportIncomingDatagram → TransportSessions → TransportSessions × Bool
push_web_transport_datagram session_id datagram =
    on_session (push_datagram datagram) false session_id

unfoldable pub push_web_transport_stream :
    ℕ → WebTransportIncomingStream → TransportSessions → TransportSessions × Bool
push_web_transport_stream session_id stream = on_session (push_stream stream) false session_id

unfoldable pub take_web_transport_datagram :
    ℕ → TransportSessions → TransportSessions × Option WebTransportIncomingDatagram
take_web_transport_datagram = on_session take_datagram none

unfoldable pub take_web_transport_stream :
    ℕ → TransportSessions → TransportSessions × Option WebTransportIncomingStream
take_web_transport_stream = on_session take_stream none

unfoldable pub take_web_transport_connection :
    ℕ → TransportSessions → TransportSessions × Option WebTransportConnectionInfo
take_web_transport_connection = on_session take_connection none
