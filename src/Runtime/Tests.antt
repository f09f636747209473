-- ===== src/Runtime/Tests.antt =====
-- Histories of requests of lib.rs and of a server that stops, and the theorems at them.
use dart_edge.Base.{◌≡◌, refl, true, false, List, [], ◌∷◌, none, some}
use dart_edge.Base.Keys.{nat_eq}
use dart_edge.Base.Map
use dart_edge.Text.Bytes.{text}
use dart_edge.Runtime.Message.{
  TransportRequest, PendingResponseMessage, sse_start, sse_chunk, close, http,
}
use dart_edge.Runtime.Message
use dart_edge.Runtime.Channel.{Channel, send}
use dart_edge.Runtime.Statics.{notify_transport_event}
use dart_edge.Runtime.Pending.{starts_sse, sends_sse_chunk, finishes_sse, send_response_message}
use dart_edge.Runtime.Calls.{Call, dispatches, takes, answers}
use dart_edge.Runtime.History.{idle}
use dart_edge.Runtime.Steps.{
  Running, Step, enqueues, notifies, claims, delivers, pick, notify, claim, deliver, step, step_all,
  at_rest,
}
use dart_edge.Runtime.Ledger.{endings, EndsOnce}
use dart_edge.Runtime.Endings.{IsUnended, step_all-EndsOnce}
use dart_edge.Runtime.Stopped.{stopped_among, stopped_among-removals}
use dart_edge.Runtime.Leaving.{removals}
use dart_edge.Runtime.Pending.{enqueue, message_of}
use dart_edge.Base.{◌<◌}
use dart_edge.Base.{◌≤◌, ◌++◌, arith}
use dart_edge.Runtime.Message.{http_response}
use dart_edge.Runtime.Statics.{Statics, PendingRequest}
use dart_edge.Runtime.Pending.{stop_server_by_id, stop_pending, remove_server, server_stopped}
use dart_edge.Runtime.Handover.{times_handed, times_handed-le-one}
use dart_edge.Runtime.Stopping.{stop_server_by_id-channels}

abbrev get_events : TransportRequest
get_events = record {
  route_id = text "events";
  path_params = [];
  query = [];
  headers = [];
  body = none;
  request_kind = http;
  body_kind = Message.none;
}

-- An event stream of one chunk; the chunk after the end is refused.
abbrev streaming : List Call
streaming =
    dispatches 3 get_events
    ∷ takes 9
    ∷ answers 9 (starts_sse 200 [])
    ∷ answers 9 (sends_sse_chunk (some (text "data: 1")))
    ∷ answers 9 finishes_sse
    ∷ answers 9 (sends_sse_chunk (some (text "late")))
    ∷ []

abbrev streamed : Channel PendingResponseMessage
streamed = record {
  sent = sse_start 200 [] ∷ sse_chunk (text "data: 1") ∷ close ∷ [];
  receiver = true;
}

-- The same stream in steps: the request has ended while a chunk of it waits to be sent.
abbrev steps : List Step
steps =
    enqueues 3 get_events
    ∷ notifies 0
    ∷ claims 9 (starts_sse 200 [])
    ∷ delivers 0
    ∷ claims 9 (sends_sse_chunk (some (text "late")))
    ∷ claims 9 finishes_sse
    ∷ delivers 0
    ∷ delivers 0
    ∷ []

abbrev late : Channel PendingResponseMessage
late = record { sent = sse_start 200 [] ∷ close ∷ sse_chunk (text "late") ∷ []; receiver = true }

late_lem :
    Map.get 9
      (step_all steps
        (at_rest (idle 9 ((3, record { shutdown_sent = false }) ∷ [])))).statics.response_channels
    ≡ some late
unfolding step_all step pick notify claim deliver notify_transport_event enqueue message_of
    send_response_message send Map.get Map.insert Map.remove
late_lem = refl

step_all-EndsOnce_example :
    EndsOnce (endings late.sent)
    × IsUnended
        (Map.get 9
          (step_all steps (
            at_rest
              (idle 9 ((3, record { shutdown_sent = false }) ∷ [])))).statics.pending_requests)
        late.sent
step_all-EndsOnce_example =
    step_all-EndsOnce steps 9 9 ((3, record { shutdown_sent = false }) ∷ []) late (omega arith)
      late_lem

times_handed-le-one_example :
    times_handed 9 streaming (idle 9 ((3, record { shutdown_sent = false }) ∷ [])) ≤ 1
times_handed-le-one_example =
    times_handed-le-one 9 streaming 9 ((3, record { shutdown_sent = false }) ∷ []) (omega arith)

-- Request 1 of server 3 streams its response, request 2 of server 4 waits.
abbrev two_servers : Statics
two_servers = record {
  next_request_id = 3;
  pending_requests =
      (1, record { server_id = 3; request = none })
      ∷ (2, record { server_id = 4; request = some get_events })
      ∷ [];
  response_channels =
      (1, record { sent = sse_start 200 [] ∷ []; receiver = true })
      ∷ (2, record { sent = []; receiver = true })
      ∷ [];
  server_states =
      (3, record { shutdown_sent = false }) ∷ (4, record { shutdown_sent = false }) ∷ [];
  events = [];
}

-- Server 3 is stopped while a request is entered for server 4, and one for server 3 comes late.
abbrev stop_three : Running
stop_three =
    stopped_among 3 (enqueues 4 get_events ∷ []) (enqueues 3 get_events ∷ []) (at_rest two_servers)

abbrev late_request : PendingRequest
late_request = record { server_id = 3; request = some get_events }

late_request_lem : Map.get 4 stop_three.statics.pending_requests ≡ some late_request
unfolding step_all step stop_pending remove_server enqueue send_response_message send Map.get
    Map.insert Map.remove
late_request_lem = refl

stopped_among-removals_example : 0 < removals 3 4 stop_three
stopped_among-removals_example =
    stopped_among-removals 3 4 (enqueues 4 get_events ∷ []) (enqueues 3 get_events ∷ [])
      (at_rest two_servers) late_request ((λ e. absurd (omega (arith, e))), tt) late_request_lem
      refl

stop_server_by_id-channels_example :
    Map.get 1 (stop_server_by_id 3 two_servers).response_channels
    ≡ some (record {
      sent = (sse_start 200 [] ∷ []) ++ http_response server_stopped ∷ close ∷ [];
      receiver = true;
    })
stop_server_by_id-channels_example =
    stop_server_by_id-channels 3 1 (record { server_id = 3; request = none })
      (sse_start 200 [] ∷ []) two_servers (unfold Map.get in refl) refl (unfold Map.get in refl)
