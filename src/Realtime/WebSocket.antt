-- ===== src/Realtime/WebSocket.antt =====
-- lib.rs: WebSocket sessions (lines 475 to 498, 592 to 605, 1314 to 1357, 1739 to 1800, 2414 to
-- 2437, 2945 to 2959). A call under one lock is one step; a text that cannot be read is `none`.
use dart_edge.Base.{
  ℕ, ◌-◌, ◌%◌, Bool, true, false, ◌||◌, List, [], ◌∷◌, ◌++◌, Option, none, some, length, leb, ltb,
  ◌==◌, if◌then◌else◌,
}
use dart_edge.Base.Keys.{nat_eq}
use dart_edge.Base.Map
use dart_edge.Base.Map.{Map}
use dart_edge.Base.Words.{saturating_add}
use dart_edge.Text.Bytes.{Bytes, Str}
use dart_edge.Runtime.Channel.{Channel, send}

pub data WebSocketMessageKind : Type 0 where
  text binary : WebSocketMessageKind

pub data WebSocketCommand : Type 0 where
  send_text : Str → WebSocketCommand
  send_binary : Bytes → WebSocketCommand
  close : Option ℕ → Option Str → WebSocketCommand

pub record WebSocketConnection : Type 0 where
  pub session_id : ℕ
  pub request_id : ℕ
  pub route_id : Str
  pub path_params : Map Str Str
  pub query : Map Str Str
  pub headers : Map Str Str

pub record WebSocketIncomingMessage : Type 0 where
  pub session_id : ℕ
  pub kind : WebSocketMessageKind
  pub body : Bytes

pub record WebSocketSessionState : Type 0 where
  pub server_id : ℕ
  pub connection : Option WebSocketConnection
  pub messages : List WebSocketIncomingMessage
  pub pending_bytes : ℕ
  pub max_pending_messages : ℕ
  pub max_pending_bytes : ℕ
  pub commands : Channel WebSocketCommand

abbrev pub Sessions : Type 0
Sessions = Map ℕ WebSocketSessionState

-- The entry that `handle_web_socket_session` makes.
unfoldable pub new_session : ℕ → WebSocketConnection → ℕ → ℕ → WebSocketSessionState
new_session server_id connection max_pending_messages max_pending_bytes = record {
  server_id = server_id;
  connection = some connection;
  messages = [];
  pending_bytes = 0;
  max_pending_messages = max_pending_messages;
  max_pending_bytes = max_pending_bytes;
  commands = record { sent = []; receiver = true };
}

-- `push_web_socket_message`, on the session that the table has.
unfoldable pub push_message :
    WebSocketIncomingMessage → WebSocketSessionState → WebSocketSessionState × Bool
push_message message s =
    let next_bytes = saturating_add s.pending_bytes (length message.body) in
    if leb s.max_pending_messages (length s.messages) || ltb s.max_pending_bytes next_bytes
    then (s, false)
    else (record s { pending_bytes = next_bytes; messages = s.messages ++ message ∷ [] }, true)

unfoldable pub push_web_socket_message : ℕ → WebSocketIncomingMessage → Sessions → Sessions × Bool
push_web_socket_message session_id message sessions = elim (Map.get session_id sessions) [
  | none ↦ (sessions, false)
  | some s ↦
      let (t, accepted) = push_message message s in
      (if accepted then Map.insert session_id t sessions else sessions, accepted)
]

-- `take_web_socket_message`, on the session that the table has.
unfoldable pub take_message :
    WebSocketSessionState → WebSocketSessionState × Option WebSocketIncomingMessage
take_message s = elim s.messages [
  | [] ↦ (s, none)
  | message ∷ rest ↦ (
    record s { messages = rest; pending_bytes = s.pending_bytes - length message.body },
    some message,
  )
]

unfoldable pub take_web_socket_message : ℕ → Sessions → Sessions × Option WebSocketIncomingMessage
take_web_socket_message session_id sessions = elim (Map.get session_id sessions) [
  | none ↦ (sessions, none)
  | some s ↦ let (t, message) = take_message s in (Map.insert session_id t sessions, message)
]

unfoldable pub take_web_socket_connection : ℕ → Sessions → Sessions × Option WebSocketConnection
take_web_socket_connection session_id sessions = elim (Map.get session_id sessions) [
  | none ↦ (sessions, none)
  | some s ↦ (Map.insert session_id (record s { connection = none }) sessions, s.connection)
]

-- `code <= 0` and `code as u16` of an `i32`, on the bit pattern.
unfoldable pub close_code : ℕ → Option ℕ
close_code code = if code == 0 || leb 2147483648 code then none else some (code % 65536)

-- The calls of the Dart side that send to the peer.
pub data SocketCall : Type 0 where
  sends_text : Option Str → SocketCall
  sends_binary : Option Bytes → SocketCall
  closes : ℕ → Option Str → SocketCall

unfoldable pub command_of : SocketCall → Option WebSocketCommand
unfolding close_code
command_of (sends_text none) = none
command_of (sends_text (some t)) = some (send_text t)
command_of (sends_binary none) = none
command_of (sends_binary (some b)) = some (send_binary b)
command_of (closes code reason) = some (close (close_code code) reason)

unfoldable pub send_command : ℕ → SocketCall → Sessions → Sessions × Bool
unfolding command_of
send_command session_id c sessions = elim (command_of c) [
  | none ↦ (sessions, false)
  | some command ↦ elim (Map.get session_id sessions) [
    | none ↦ (sessions, false)
    | some s ↦
        let (channel, sent) = send s.commands command in
        (Map.insert session_id (record s { commands = channel }) sessions, sent)
  ]
]
