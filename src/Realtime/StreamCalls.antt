-- ===== src/Realtime/StreamCalls.antt =====
-- lib.rs: the calls of the Dart side on a WebTransport stream (lines 1450 to 1659, 3190
-- to 3208, 3377 to 3409).
use dart_edge.Base.{ℕ, ◌-◌, [], ◌∷◌, ◌++◌, Option, none, some, length, leb, if◌then◌else◌}
use dart_edge.Base.Keys.{nat_eq}
use dart_edge.Base.Map
use dart_edge.Base.Words.{wrapping_inc}
use dart_edge.Text.Bytes.{Bytes, Str}
use dart_edge.Runtime.Channel.{send}
use dart_edge.Realtime.WebTransport.{WebTransportCommand, open_unidirectional, open_bidirectional}
use dart_edge.Realtime.Operation.{
  WebTransportOperationKind, WebTransportStreamInfo, WebTransportStreamTerminal,
  WebTransportOperationResult,
}
use dart_edge.Realtime.Operation
use dart_edge.Realtime.Stream.{
  WebTransportStreamCommand, write, finish, reset, WebTransportStreamState, Transport,
  push_operation, remove_if_complete,
}

unfoldable pub take_info : ℕ → Transport → Transport × Option WebTransportStreamInfo
take_info stream_id t =
    (record t { opened = Map.remove stream_id t.opened }, Map.get stream_id t.opened)

unfoldable pub take_operation : ℕ → Transport → Transport × Option WebTransportOperationResult
take_operation operation_id t = (
  record t { operations = Map.remove operation_id t.operations },
  Map.get operation_id t.operations,
)

unfoldable pub pop_chunk : WebTransportStreamState → WebTransportStreamState × Option Bytes
pop_chunk s = elim s.chunks [
  | [] ↦ (s, none)
  | body ∷ rest ↦
      (record s { chunks = rest; pending_bytes = s.pending_bytes - length body }, some body)
]

unfoldable pub take_chunk : ℕ → Transport → Transport × Option Bytes
unfolding pop_chunk
take_chunk stream_id t = elim (Map.get stream_id t.streams) [
  | none ↦ (remove_if_complete stream_id t, none)
  | some s ↦
      let (popped, body) = pop_chunk s in
      (
        remove_if_complete stream_id (record t { streams = Map.insert stream_id popped t.streams }),
        body,
      )
]

unfoldable pub take_terminal : ℕ → Transport → Transport × Option WebTransportStreamTerminal
take_terminal stream_id t = elim (Map.get stream_id t.streams) [
  | none ↦ (remove_if_complete stream_id t, none)
  | some s ↦ (
    remove_if_complete stream_id
        (record t { streams = Map.insert stream_id (record s { terminal = none }) t.streams }),
    s.terminal,
  )
]

-- `submit_web_transport_send_operation`: the actor's channel takes eight commands, and none once the
-- actor has ended. A number is used up in any case.
unfoldable pub submit_send_operation :
    ℕ → (ℕ → WebTransportStreamCommand) → Transport → Transport × ℕ
submit_send_operation stream_id command t =
    let operation_id = t.next_operation_id in
    let u = record t { next_operation_id = wrapping_inc operation_id } in
    elim (Map.get stream_id t.streams) [
      | none ↦ (u, 0)
      | some s ↦ elim (Map.get stream_id t.actors) [
        | none ↦ (u, 0)
        | some actor ↦
            if leb 8 (length actor.commands)
            then (u, 0)
            else if s.send_tx
            then (
              record u {
                actors =
                    Map.insert stream_id
                      (record actor { commands = actor.commands ++ command operation_id ∷ [] })
                      t.actors;
              },
              operation_id,
            )
            else (u, 0)
      ]
    ]

unfoldable pub stream_write : ℕ → Option Bytes → Transport → Transport × ℕ
stream_write stream_id none t = (t, 0)
stream_write stream_id (some body) t = submit_send_operation stream_id (λ id. write id body) t

unfoldable pub stream_finish : ℕ → Transport → Transport × ℕ
stream_finish stream_id t = submit_send_operation stream_id finish t

unfoldable pub stream_reset : ℕ → ℕ → Transport → Transport × ℕ
stream_reset stream_id error_code t = submit_send_operation stream_id (λ id. reset id error_code) t

-- The code goes to the reader, and the result of the operation is there at once.
unfoldable pub stream_stop : ℕ → ℕ → Transport → Transport × ℕ
stream_stop stream_id error_code t =
    let operation_id = t.next_operation_id in
    let u = record t { next_operation_id = wrapping_inc operation_id } in
    elim (Map.get stream_id t.streams) [
      | none ↦ (u, 0)
      | some s ↦ elim (Map.get stream_id t.readers) [
        | none ↦ (u, 0)
        | some reader ↦
            if s.stop_tx
            then (
              push_operation
                  (record {
                    operation_id = operation_id;
                    session_id = s.info.session_id;
                    stream_id = stream_id;
                    protocol_id = s.info.protocol_id;
                    kind = Operation.stop;
                    error = none;
                  })
                  s.runtime_state
                  (record u {
                    readers =
                        Map.insert stream_id
                          (record reader { stops = reader.stops ++ error_code ∷ [] }) t.readers;
                  }),
              operation_id,
            )
            else (u, 0)
      ]
    ]

-- `submit_web_transport_session_operation`: the command goes to the session's task.
unfoldable pub submit_session_operation : ℕ → (ℕ → WebTransportCommand) → Transport → Transport × ℕ
submit_session_operation session_id command t =
    let operation_id = t.next_operation_id in
    let u = record t { next_operation_id = wrapping_inc operation_id } in
    elim (Map.get session_id t.sessions) [
      | none ↦ (u, 0)
      | some session ↦
          let (channel, sent) = send session.commands (command operation_id) in
          let entry = record session { commands = channel } in
          (
            record u { sessions = Map.insert session_id entry t.sessions },
            if sent then operation_id else 0,
          )
    ]

unfoldable pub open_unidirectional_stream : ℕ → Transport → Transport × ℕ
open_unidirectional_stream session_id t = submit_session_operation session_id open_unidirectional t

unfoldable pub open_bidirectional_stream : ℕ → Transport → Transport × ℕ
open_bidirectional_stream session_id t = submit_session_operation session_id open_bidirectional t

-- `complete_web_transport_open_error`.
unfoldable pub complete_open_error :
    ℕ → ℕ → WebTransportOperationKind → Str → ℕ → Transport → Transport
complete_open_error session_id operation_id kind error runtime_state t =
    push_operation
      (record {
        operation_id = operation_id;
        session_id = session_id;
        stream_id = 0;
        protocol_id = 0;
        kind = kind;
        error = some error;
      })
      runtime_state t
