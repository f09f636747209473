-- ===== src/Realtime/Tests.antt =====
-- Runs of the realtime sessions of lib.rs, and their theorems at these.
use dart_edge.Base.{ℕ, ◌≡◌, refl, List, [], ◌∷◌, ◌++◌, ◌+◌, arith, if◌then◌else◌}
use dart_edge.Text.Bytes.{text}
use dart_edge.Realtime.WebSocket.{
  binary, WebSocketConnection, WebSocketIncomingMessage, new_session, push_message, take_message,
}
use dart_edge.Realtime.SocketQueue.{
  Traffic, arrives, taken, traffic_step, traffic_run, new_log, IsFaithful, IsBounded, has_room,
  push_message_lem, traffic_run-IsFaithful, size,
}
use dart_edge.Base.{is_some, true, false, none, some}
use dart_edge.Base.Keys.{nat_eq}
use dart_edge.Base.Map
use dart_edge.Runtime.Statics.{Statics, notify_transport_event}
use dart_edge.Realtime.WebTransport.{
  WebTransportConnectionInfo, new_transport_session, push_datagram, push_stream, take_stream,
}
use dart_edge.Realtime.SharedBudget.{
  Arrival, datagram_arrives, stream_arrives, stream_taken, account_run, account_step, new_account,
  IsSettled, account_run-IsSettled,
}
use dart_edge.Realtime.Operation.{
  incoming_unidirectional, outgoing_unidirectional, open_unidirectional,
}
use dart_edge.Realtime.Stream.{
  WebTransportStreamState, is_complete, remove_if_complete, register_receive_stream,
  register_opened_stream, push_operation, session_limits,
}
use dart_edge.Realtime.Tasks.{reads, ends, reader_step, actor_step}
use dart_edge.Realtime.StreamCalls.{
  take_terminal, stream_finish, stream_write, submit_send_operation,
}
use dart_edge.Realtime.StreamLife.{AreLive}
use dart_edge.Realtime.StreamRun.{
  Step, registers, opens, acts, reads_on, takes_terminal, writes, finishes, transport_step,
  transport_run, no_streams, transport_run-AreLive,
}
use dart_edge.Realtime.Drain.{take_chunks, take_chunks_lem}

abbrev connection : WebSocketConnection
connection = record {
  session_id = 5;
  request_id = 1;
  route_id = text "chat";
  path_params = [];
  query = [];
  headers = [];
}

abbrev bytes_of : ℕ → List ℕ → WebSocketIncomingMessage
bytes_of k body = record { session_id = k; kind = binary; body = body }

-- With room for two messages and five bytes: the second message is one byte too long, and the
-- fourth is one message too many.
abbrev busy : List Traffic
busy =
    arrives (bytes_of 5 (1 ∷ 2 ∷ 3 ∷ []))
    ∷ arrives (bytes_of 5 (4 ∷ 5 ∷ 6 ∷ []))
    ∷ arrives (bytes_of 5 (7 ∷ []))
    ∷ arrives (bytes_of 5 (8 ∷ []))
    ∷ taken
    ∷ []

busy_lem :
    let l = traffic_run (new_log 2 connection 2 5) busy in
    (l.accepted ≡ bytes_of 5 (1 ∷ 2 ∷ 3 ∷ []) ∷ bytes_of 5 (7 ∷ []) ∷ [])
    × (l.handed ≡ bytes_of 5 (1 ∷ 2 ∷ 3 ∷ []) ∷ [])
    × (l.session.pending_bytes ≡ 1)
unfolding traffic_run traffic_step push_message take_message new_session
busy_lem = (refl, refl, refl)

traffic_run-IsFaithful_example : IsFaithful 2 5 (traffic_run (new_log 2 connection 2 5) busy)
traffic_run-IsFaithful_example = traffic_run-IsFaithful 2 connection 2 5 busy (omega arith)

fresh_IsBounded : IsBounded (new_session 2 connection 2 5)
unfolding new_session
fresh_IsBounded = record { exact = refl; few = omega arith; small = omega arith }

push_message_lem_example :
    let s = new_session 2 connection 2 5 in
    let m = bytes_of 5 (1 ∷ 2 ∷ []) in
    ((push_message m s).1 ≡ has_room m s)
    × ((push_message m s).0 ≡ (
        if has_room m s
        then record s { messages = s.messages ++ m ∷ []; pending_bytes = s.pending_bytes + size m }
        else s))
push_message_lem_example =
    push_message_lem (bytes_of 5 (1 ∷ 2 ∷ [])) (new_session 2 connection 2 5)
      (unfold new_session in omega arith) fresh_IsBounded

abbrev transport_connection : WebTransportConnectionInfo
transport_connection = record {
  session_id = 5;
  request_id = 1;
  route_id = text "game";
  path_params = [];
  query = [];
  headers = [];
}

-- A stream takes the room of a datagram that would have fitted.
abbrev mixed : List Arrival
mixed =
    stream_arrives (record { session_id = 5; body = 1 ∷ 2 ∷ 3 ∷ 4 ∷ [] })
    ∷ datagram_arrives (record { session_id = 5; body = 5 ∷ 6 ∷ [] })
    ∷ stream_taken
    ∷ datagram_arrives (record { session_id = 5; body = 7 ∷ [] })
    ∷ []

mixed_lem :
    let a = account_run (new_account 2 transport_connection 2 5) mixed in
    (a.datagrams_accepted ≡ record { session_id = 5; body = 7 ∷ [] } ∷ [])
    × (a.streams_handed ≡ record { session_id = 5; body = 1 ∷ 2 ∷ 3 ∷ 4 ∷ [] } ∷ [])
    × (a.session.pending_bytes ≡ 1)
unfolding account_run account_step push_datagram push_stream take_stream new_transport_session
mixed_lem = (refl, refl, refl)

account_run-IsSettled_example :
    IsSettled 2 5 (account_run (new_account 2 transport_connection 2 5) mixed)
account_run-IsSettled_example =
    account_run-IsSettled 2 transport_connection 2 5 mixed (omega arith) (omega arith)

abbrev no_statics : Statics
no_statics = record {
  next_request_id = 1;
  pending_requests = [];
  response_channels = [];
  server_states = [];
  events = [];
}

-- Two pieces come in on a one-way stream, and its end.
abbrev arriving : List Step
arriving =
    registers 5 incoming_unidirectional 0 false 2 false 8 100
    ∷ reads_on 1 (reads (1 ∷ 2 ∷ []))
    ∷ reads_on 1 (reads (3 ∷ []))
    ∷ reads_on 1 ends
    ∷ takes_terminal 1
    ∷ []

transport_run-AreLive_example : AreLive (transport_run arriving (no_streams 1 1 [] no_statics))
transport_run-AreLive_example = transport_run-AreLive arriving 1 1 [] no_statics

abbrev arrived : WebTransportStreamState
arrived = record {
  info = record { session_id = 5; stream_id = 1; protocol_id = 0; kind = incoming_unidirectional };
  runtime_state = 2;
  chunks = (1 ∷ 2 ∷ []) ∷ (3 ∷ []) ∷ [];
  pending_bytes = 3;
  max_pending_messages = 8;
  max_pending_bytes = 100;
  terminal = none;
  send_tx = false;
  stop_tx = false;
  send_closed = true;
  receive_closed = true;
}

arriving_lem :
    Map.get 1 (transport_run arriving (no_streams 1 1 [] no_statics)).streams ≡ some arrived
unfolding transport_run transport_step register_receive_stream reader_step take_terminal
    notify_transport_event remove_if_complete Map.get Map.insert Map.remove
arriving_lem = refl

take_chunks_lem_example :
    let t = transport_run arriving (no_streams 1 1 [] no_statics) in
    ((take_chunks 2 1 t).1 ≡ (1 ∷ 2 ∷ []) ∷ (3 ∷ []) ∷ [])
    × (is_some (Map.get 1 (take_chunks 2 1 t).0.streams) ≡ false)
take_chunks_lem_example =
    take_chunks_lem 1 (transport_run arriving (no_streams 1 1 [] no_statics)) arrived arriving_lem
      (unfold is_complete in refl)

-- A stream is opened, and a write follows the end in the send actor's channel: the call is given the
-- number 2, and no result will ever stand under it.
abbrev late : List Step
late =
    opens 5 9 outgoing_unidirectional open_unidirectional 0 false 2
    ∷ finishes 1
    ∷ writes 1 (some (1 ∷ []))
    ∷ acts 1 none
    ∷ acts 1 none
    ∷ []

late_lem :
    let t = transport_run late (no_streams 1 1 [] no_statics) in
    (t.next_operation_id ≡ 3)
    × (is_some (Map.get 1 t.operations) ≡ true)
    × (Map.get 2 t.operations ≡ none)
    × (t.actors ≡ [])
unfolding transport_run transport_step register_opened_stream stream_finish stream_write
    submit_send_operation actor_step push_operation notify_transport_event remove_if_complete
    session_limits Map.get Map.insert Map.remove
late_lem = (refl, refl, refl, refl)
