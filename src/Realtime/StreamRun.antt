-- ===== src/Realtime/StreamRun.antt =====
-- The WebTransport streams of lib.rs as a run of steps: those of the tasks and those of the callers.
use dart_edge.Base.{
  ℕ, ◌≡◌, sym, subst, refl, Bool, false, ◌&&◌, List, [], ◌∷◌, Option, none, some, inl, inr,
  is_empty, arith, Bool-cases, Option-cases, true,
}
use dart_edge.Base.Keys.{nat_eq}
use dart_edge.Base.Map
use dart_edge.Base.Map.{Map, Every}
use dart_edge.Text.Bytes.{Bytes, Str}
use dart_edge.Runtime.Statics.{Statics}
use dart_edge.Realtime.WebTransport.{WebTransportCommand, TransportSessions}
use dart_edge.Realtime.Operation.{WebTransportStreamKind, WebTransportOperationKind}
use dart_edge.Realtime.Stream.{
  WebTransportStreamCommand, Reader, Transport, is_complete, push_operation,
  register_receive_stream, register_opened_stream,
}
use dart_edge.Realtime.Tasks.{
  actor_step, Reading, stops, reads, ends, fails, stop_is_open, read_round, reader_step,
  end_session,
}
use dart_edge.Realtime.StreamCalls.{
  submit_session_operation, open_unidirectional_stream, open_bidirectional_stream,
  complete_open_error, take_info, take_operation, take_chunk, take_terminal, submit_send_operation,
  stream_write, stream_finish, stream_reset, stream_stop,
}
use dart_edge.Realtime.StreamLife.{
  IsLive, AreLive, enter-AreLive, actor_step-AreLive, end_reading-AreLive, read_chunk-AreLive,
  take_chunk-AreLive, take_terminal-AreLive, without_session-Every,
}

pub data Step : Type 0 where
  registers : ℕ → WebTransportStreamKind → ℕ → Bool → ℕ → Bool → ℕ → ℕ → Step
  opens : ℕ → ℕ → WebTransportStreamKind → WebTransportOperationKind → ℕ → Bool → ℕ → Step
  open_fails : ℕ → ℕ → WebTransportOperationKind → Str → ℕ → Step
  asks_to_open : Bool → ℕ → Step
  acts : ℕ → Option Str → Step
  reads_on : ℕ → Reading → Step
  ends_session : ℕ → ℕ → Step
  takes_info takes_operation takes_chunk takes_terminal : ℕ → Step
  writes : ℕ → Option Bytes → Step
  finishes : ℕ → Step
  resets stops_reading : ℕ → ℕ → Step

unfoldable pub transport_step : Step → Transport → Transport
transport_step (registers session_id kind protocol_id sends server_id collects messages bytes) t =
    register_receive_stream session_id kind protocol_id sends server_id collects messages bytes t
transport_step (opens session_id operation_id kind operation_kind protocol_id receives server_id)
      t =
    register_opened_stream session_id operation_id kind operation_kind protocol_id receives
      server_id t
transport_step (open_fails session_id operation_id kind error server_id) t =
    complete_open_error session_id operation_id kind error server_id t
transport_step (asks_to_open true session_id) t = (open_bidirectional_stream session_id t).0
transport_step (asks_to_open false session_id) t = (open_unidirectional_stream session_id t).0
transport_step (acts id error) t = actor_step id error t
transport_step (reads_on id reading) t = reader_step id reading t
transport_step (ends_session session_id server_id) t = end_session session_id server_id t
transport_step (takes_info id) t = (take_info id t).0
transport_step (takes_operation id) t = (take_operation id t).0
transport_step (takes_chunk id) t = (take_chunk id t).0
transport_step (takes_terminal id) t = (take_terminal id t).0
transport_step (writes id body) t = (stream_write id body t).0
transport_step (finishes id) t = (stream_finish id t).0
transport_step (resets id code) t = (stream_reset id code t).0
transport_step (stops_reading id code) t = (stream_stop id code t).0

unfoldable pub transport_run : List Step → Transport → Transport
transport_run [] t = t
transport_run (x ∷ xs) t = transport_run xs (transport_step x t)

read_round-AreLive :
    (reader : Reader) (reading : Reading) (t : Transport)
    → AreLive t
    → AreLive (read_round reader reading t)
unfolding read_round
read_round-AreLive reader stops t h =
    elim (Bool-cases (is_empty reader.stops && stop_is_open reader.info.stream_id t)) [
      | inl e ↦ rw e h
      | inr e ↦ rw e (end_reading-AreLive reader _ t h)
    ]
read_round-AreLive reader (reads body) t h = read_chunk-AreLive reader body t h
read_round-AreLive reader ends t h = end_reading-AreLive reader _ t h
read_round-AreLive reader (fails code error) t h = end_reading-AreLive reader _ t h

reader_step-AreLive :
    (id : ℕ) (reading : Reading) (t : Transport) → AreLive t → AreLive (reader_step id reading t)
unfolding reader_step
reader_step-AreLive id reading t h = elim (Option-cases (Map.get id t.readers)) [
  | inl e ↦ rw (e, reader_step) h
  | inr (reader, e) ↦ rw (e, reader_step) (read_round-AreLive reader reading t h)
]

submit-streams :
    (id : ℕ) (command : ℕ → WebTransportStreamCommand) (t : Transport)
    → (submit_send_operation id command t).0.streams ≡ t.streams
unfolding submit_send_operation
submit-streams id command t = ground arith

stop-streams : (id code : ℕ) (t : Transport) → (stream_stop id code t).0.streams ≡ t.streams
unfolding stream_stop push_operation
stop-streams id code t = ground arith

session-streams :
    (session_id : ℕ) (command : ℕ → WebTransportCommand) (t : Transport)
    → (submit_session_operation session_id command t).0.streams ≡ t.streams
unfolding submit_session_operation
session-streams session_id command t = ground arith

step-AreLive : (x : Step) (t : Transport) → AreLive t → AreLive (transport_step x t)
unfolding transport_step register_receive_stream register_opened_stream push_operation end_session
    take_info take_operation is_complete complete_open_error open_unidirectional_stream
    open_bidirectional_stream stream_write stream_finish stream_reset
step-AreLive (registers session_id kind protocol_id sends server_id collects messages bytes) t h =
    enter-AreLive _ collects t
      (record { incomplete = ground arith; few = omega arith; small = omega arith }) h
step-AreLive (opens session_id operation_id kind operation_kind protocol_id receives server_id) t
      h =
    enter-AreLive _ false t (record { incomplete = refl; few = omega arith; small = omega arith }) h
step-AreLive (open_fails session_id operation_id kind error server_id) t h = h
step-AreLive (asks_to_open true session_id) t h =
    subst (Every IsLive) (sym (session-streams session_id _ t)) h
step-AreLive (asks_to_open false session_id) t h =
    subst (Every IsLive) (sym (session-streams session_id _ t)) h
step-AreLive (acts id error) t h = actor_step-AreLive id error t h
step-AreLive (reads_on id reading) t h = reader_step-AreLive id reading t h
step-AreLive (ends_session session_id server_id) t h = without_session-Every session_id t.streams h
step-AreLive (takes_info id) t h = h
step-AreLive (takes_operation id) t h = h
step-AreLive (takes_chunk id) t h = take_chunk-AreLive id t h
step-AreLive (takes_terminal id) t h = take_terminal-AreLive id t h
step-AreLive (writes id none) t h = h
step-AreLive (writes id (some body)) t h = subst (Every IsLive) (sym (submit-streams id _ t)) h
step-AreLive (finishes id) t h = subst (Every IsLive) (sym (submit-streams id _ t)) h
step-AreLive (resets id code) t h = subst (Every IsLive) (sym (submit-streams id _ t)) h
step-AreLive (stops_reading id code) t h = subst (Every IsLive) (sym (stop-streams id code t)) h

run_kept-AreLive : (xs : List Step) (t : Transport) → AreLive t → AreLive (transport_run xs t)
unfolding transport_run
run_kept-AreLive [] t h = h
run_kept-AreLive (x ∷ xs) t h = run_kept-AreLive xs (transport_step x t) (step-AreLive x t h)

-- Without streams.
abbrev pub no_streams : ℕ → ℕ → TransportSessions → Statics → Transport
no_streams stream_id operation_id sessions statics = record {
  next_stream_id = stream_id;
  next_operation_id = operation_id;
  sessions = sessions;
  streams = [];
  opened = [];
  operations = [];
  actors = [];
  readers = [];
  statics = statics;
}

-- After any run from a table without streams, every stream in the table has a direction that is
-- still open, or its end or a chunk to be taken, so a stream that is done with never stays; and it
-- keeps its limits on chunks and on pending bytes.
pub transport_run-AreLive :
    (xs : List Step) (stream_id operation_id : ℕ) (sessions : TransportSessions) (statics : Statics)
    → AreLive (transport_run xs (no_streams stream_id operation_id sessions statics))
transport_run-AreLive xs stream_id operation_id sessions statics =
    run_kept-AreLive xs (no_streams stream_id operation_id sessions statics) tt
