-- ===== src/Realtime/Tasks.antt =====
-- lib.rs: what the tasks of a WebTransport stream do (lines 3210 to 3363), and the end of a session's
-- task (lines 2821 to 2831). What the peer answers comes from outside. A round of a task is one step,
-- and the locks that it takes stand in it one after the other.
use dart_edge.Base.{
  ℕ, Bool, true, false, ◌||◌, ◌&&◌, is_empty, List, [], ◌∷◌, ◌++◌, Option, none, some, length, leb,
  ltb, ◌==◌, if◌then◌else◌,
}
use dart_edge.Base.Keys.{nat_eq}
use dart_edge.Base.Map
use dart_edge.Base.Map.{Map}
use dart_edge.Base.Words.{saturating_add}
use dart_edge.Text.Bytes.{Bytes, Str, text}
use dart_edge.Runtime.Message.{
  web_transport_closed, web_transport_stream_ready, web_transport_stream_chunk_ready,
  web_transport_stream_finished,
}
use dart_edge.Realtime.WebTransport.{push_web_transport_stream}
use dart_edge.Realtime.Operation.{
  WebTransportOperationKind, WebTransportStreamInfo, WebTransportStreamTerminal,
  WebTransportOperationResult,
}
use dart_edge.Realtime.Operation
use dart_edge.Realtime.Stream.{
  WebTransportStreamCommand, write, finish, reset, WebTransportStreamState, Actor, Reader,
  Transport, notify, push_operation, remove_if_complete,
}

abbrev pub update : ℕ → (WebTransportStreamState → WebTransportStreamState) → Transport → Transport
update stream_id f t = record t { streams = Map.modify stream_id f t.streams }

-- The number and kind of the operation, and whether the command is the stream's last.
unfoldable pub command_parts : WebTransportStreamCommand → ℕ × WebTransportOperationKind × Bool
command_parts (write operation_id body) = (operation_id, Operation.write, false)
command_parts (finish operation_id) = (operation_id, Operation.finish, true)
command_parts (reset operation_id error_code) = (operation_id, Operation.reset, true)

abbrev pub close_send : WebTransportStreamState → WebTransportStreamState
close_send s = record s { send_closed = true; send_tx = false }

-- The body of the send actor's loop, on the command that stands first; the peer answers with an error
-- or not. After the last command the actor ends, and what stands in its channel is gone.
unfoldable pub process_command :
    ℕ → Option Str → Actor → List WebTransportStreamCommand → Transport → Transport
unfolding command_parts
process_command stream_id error actor [] t = t
process_command stream_id error actor (command ∷ rest) t =
    let (operation_id, kind, terminal) = command_parts command in
    let operation : WebTransportOperationResult = record {
      operation_id = operation_id;
      session_id = actor.info.session_id;
      stream_id = actor.info.stream_id;
      protocol_id = actor.info.protocol_id;
      kind = kind;
      error = error;
    } in
    if terminal
    then remove_if_complete actor.info.stream_id (
        update actor.info.stream_id close_send (
          push_operation operation actor.runtime_state
            (record t { actors = Map.remove stream_id t.actors })))
    else push_operation operation actor.runtime_state
        (record t { actors = Map.insert stream_id (record actor { commands = rest }) t.actors })

-- One round of the send actor; without a command it waits.
unfoldable pub actor_step : ℕ → Option Str → Transport → Transport
unfolding process_command
actor_step stream_id error t = elim (Map.get stream_id t.actors) [
  | none ↦ t
  | some actor ↦ process_command stream_id error actor actor.commands t
]

abbrev pub end_receive :
    WebTransportStreamTerminal → WebTransportStreamState → WebTransportStreamState
end_receive terminal s = record s {
  terminal = some terminal;
  stop_tx = false;
  receive_closed = true;
}

unfoldable pub push_legacy : Reader → Transport → Transport
push_legacy reader t = elim reader.legacy_payload [
  | none ↦ t
  | some body ↦
      let session_id = reader.info.session_id in
      let (sessions, accepted) =
        push_web_transport_stream session_id (record { session_id = session_id; body = body })
          t.sessions in
      let u = record t { sessions = sessions } in
      if accepted then notify reader.runtime_state web_transport_stream_ready session_id u else u
]

-- What stands after the loop of `read_web_transport_stream_chunks`.
unfoldable pub end_reading : Reader → WebTransportStreamTerminal → Transport → Transport
unfolding push_legacy
end_reading reader terminal t =
    let id = reader.info.stream_id in
    let u = push_legacy reader (record t { readers = Map.remove id t.readers }) in
    notify reader.runtime_state web_transport_stream_finished id
      (update id (end_receive terminal) u)

abbrev overload : Str → WebTransportStreamTerminal
overload error = record { error_code = some 256; error = error }

-- The payload that the reader collects; `none` if it would exceed the limit.
unfoldable pub extend_legacy : Reader → Bytes → Option Reader
extend_legacy reader body = elim reader.legacy_payload [
  | none ↦ some reader
  | some payload ↦
      if ltb reader.max_pending_bytes (saturating_add (length payload) (length body))
      then none
      else some (record reader { legacy_payload = some (payload ++ body) })
]

abbrev pub add_chunk : Bytes → ℕ → WebTransportStreamState → WebTransportStreamState
add_chunk body next_bytes s = record s {
  chunks = s.chunks ++ body ∷ [];
  pending_bytes = next_bytes;
}

-- The queue of the stream has no room for so many bytes more.
unfoldable pub is_full : WebTransportStreamState → ℕ → Bool
is_full s bytes =
    leb s.max_pending_messages (length s.chunks)
    || ltb s.max_pending_bytes (saturating_add s.pending_bytes bytes)

unfoldable pub read_piece :
    Reader → Reader → Bytes → WebTransportStreamState → Transport → Transport
unfolding is_full end_reading
read_piece reader extended body s t =
    let id = reader.info.stream_id in
    if is_full s (length body)
    then end_reading extended (overload (text "incoming stream queue limit exceeded")) t
    else notify reader.runtime_state web_transport_stream_chunk_ready id (record t {
      streams =
          Map.insert id (add_chunk body (saturating_add s.pending_bytes (length body)) s) t.streams;
      readers = Map.insert id extended t.readers;
    })

-- The reader has read a piece. If the stream is not in the table any more, it ends at once.
unfoldable pub read_chunk : Reader → Bytes → Transport → Transport
unfolding extend_legacy read_piece
read_chunk reader body t = elim (extend_legacy reader body) [
  | none ↦ end_reading reader (overload (text "incoming legacy stream exceeded its byte limit")) t
  | some extended ↦ elim (Map.get reader.info.stream_id t.streams) [
    | none ↦ record t { readers = Map.remove reader.info.stream_id t.readers }
    | some s ↦ read_piece reader extended body s t
  ]
]

-- What a round of the reader finds: a code in the stop channel (zero, if that is closed), a piece, the
-- end, or an error with its code.
pub data Reading : Type 0 where
  stops : Reading
  reads : Bytes → Reading
  ends : Reading
  fails : Option ℕ → Str → Reading

abbrev first_stop : List ℕ → ℕ
first_stop [] = 0
first_stop (c ∷ cs) = c

-- The stop channel's other end is there, so the reader waits for a code.
unfoldable pub stop_is_open : ℕ → Transport → Bool
stop_is_open stream_id t = elim (Map.get stream_id t.streams) [ none ↦ false | some s ↦ s.stop_tx ]

-- A round of the reader's loop.
unfoldable pub read_round : Reader → Reading → Transport → Transport
unfolding read_chunk end_reading stop_is_open
read_round reader stops t =
    if is_empty reader.stops && stop_is_open reader.info.stream_id t
    then t
    else end_reading reader
        (record {
          error_code = some (first_stop reader.stops);
          error = text "receive stopped locally";
        })
        t
read_round reader (reads body) t = read_chunk reader body t
read_round reader ends t = end_reading reader (record { error_code = none; error = [] }) t
read_round reader (fails code error) t =
    end_reading reader (record { error_code = code; error = error }) t

unfoldable pub reader_step : ℕ → Reading → Transport → Transport
unfolding read_round
reader_step stream_id reading t = elim (Map.get stream_id t.readers) [
  | none ↦ t
  | some reader ↦ read_round reader reading t
]

-- The end of `handle_web_transport_session`, with `retain`.
abbrev pub without_session : ℕ → Map ℕ WebTransportStreamState → Map ℕ WebTransportStreamState
without_session session_id [] = []
without_session session_id ((k, s) ∷ m) =
    let rest = without_session session_id m in
    if s.info.session_id == session_id then rest else (k, s) ∷ rest

unfoldable pub end_session : ℕ → ℕ → Transport → Transport
end_session session_id runtime_state t =
    notify runtime_state web_transport_closed session_id (record t {
      sessions = Map.remove session_id t.sessions;
      streams = without_session session_id t.streams;
    })
