-- ===== src/Runtime/Handover.antt =====
-- A request of lib.rs is handed to the Dart side at most once.
use dart_edge.Base.{
  ℕ, suc, ◌+◌, ◌≤◌, ◌<◌, ◌≡◌, refl, ◌∙◌, Bool, true, false, List, [], ◌∷◌, Option, none, some, inl,
  inr, is_some, arith, length, leb, ◌==◌, if◌then◌else◌, Option-cases,
}
use dart_edge.Base.Words.{word}
use dart_edge.Base.Keys.{nat_eq}
use dart_edge.Base.Map
use dart_edge.Base.Map.{Map, get-insert, get-remove}
use dart_edge.Runtime.Message.{TransportRequest, PendingResponseMessage, http_response, close}
use dart_edge.Runtime.Statics.{Statics, PendingRequest, ServerState, notify_transport_event}
use dart_edge.Runtime.Pending.{
  Answer, forget, enqueue, dispatch_request_to_dart, take_request, send_response_message,
  send_pending_response_message, answer, stop_request, stop_requests, requests_of,
  stop_server_by_id, message_of, server_stopped, stop_pending, remove_server,
}
use dart_edge.Runtime.Calls.{Call, dispatches, takes, answers, stops, hangs_up, hang_up, call}
use dart_edge.Runtime.History.{idle}

abbrev waiting : Option PendingRequest → ℕ
waiting none = 0
waiting (some p) = if is_some p.request then 1 else 0

-- How often the request can still be handed over: it waits, or its id is not given out yet.
abbrev chances : ℕ → Statics → ℕ
chances k s = waiting (Map.get k s.pending_requests) + (if leb s.next_request_id k then 1 else 0)

-- Whether the call hands the request over.
abbrev gain : ℕ → Call → Statics → ℕ
gain k (takes id) s = if id == k then (if is_some (take_request id s).1 then 1 else 0) else 0
gain k _ s = 0

-- How often the calls hand the request over.
unfoldable pub times_handed : ℕ → List Call → Statics → ℕ
times_handed k [] s = 0
times_handed k (c ∷ cs) s = gain k c s + times_handed k cs (call c s)

forget-chances : (id k : ℕ) (s : Statics) → chances k (forget id s) ≤ chances k s
forget-chances id k s = ground (arith, get-remove id k s.pending_requests)

take-chances :
    (id k : ℕ) (s : Statics) → gain k (takes id) s + chances k (take_request id s).0 ≤ chances k s
unfolding take_request
take-chances id k s = elim (Option-cases (Map.get id s.pending_requests)) [
  | inl e ↦ rw (e, take_request) (ground arith)
  | inr (p, e) ↦
      rw (e, take_request)
        (ground (arith, get-insert id k (record p { request = none }) s.pending_requests))
]

response-chances :
    (id k : ℕ) (m : PendingResponseMessage) (s : Statics)
    → chances k (send_response_message id m s).0 ≡ chances k s
unfolding send_response_message
response-chances id k m s = ground arith

send_pending-chances :
    (id k : ℕ) (m : PendingResponseMessage) (remove : Bool) (s : Statics)
    → chances k (send_pending_response_message id m remove s).0 ≤ chances k s
unfolding send_pending_response_message
send_pending-chances id k m true s =
    ground (arith, response-chances id k m (forget id s), forget-chances id k s)
send_pending-chances id k m false s =
    ground (arith, response-chances id k m s, forget-chances id k (send_response_message id m s).0)

answer-chances : (id k : ℕ) (a : Answer) (s : Statics) → chances k (answer id a s).0 ≤ chances k s
unfolding answer
answer-chances id k a s = elim (Option-cases (message_of a)) [
  | inl e ↦ rw (e, answer) (omega arith)
  | inr ((m, remove), e) ↦ rw (e, answer) (send_pending-chances id k m remove s)
]

stop_request-chances : (id k : ℕ) (s : Statics) → chances k (stop_request id s) ≤ chances k s
unfolding stop_request
stop_request-chances id k s =
    let t = send_response_message id (http_response server_stopped) (forget id s) in
    omega (
      arith,
      response-chances id k (http_response server_stopped) (forget id s),
      response-chances id k close t.0,
      forget-chances id k s,
    )

stop_requests-chances :
    (ids : List ℕ) (k : ℕ) (s : Statics) → chances k (stop_requests ids s) ≤ chances k s
unfolding stop_requests
stop_requests-chances [] k s = omega arith
stop_requests-chances (id ∷ ids) k s = elim (Option-cases (Map.get id s.pending_requests)) [
  | inl e ↦ rw (e, stop_requests) (stop_requests-chances ids k s)
  | inr (p, e) ↦
      rw (e, stop_requests)
        (omega
          (arith, stop_requests-chances ids k (stop_request id s), stop_request-chances id k s))
]

hang_up-chances : (id k : ℕ) (s : Statics) → chances k (hang_up id s) ≡ chances k s
unfolding hang_up
hang_up-chances id k s = ground arith

enqueue-chances :
    (server_id k : ℕ) (request : TransportRequest) (s : Statics)
    → suc s.next_request_id < word
    → chances k (enqueue server_id request s) ≤ chances k s
unfolding enqueue
enqueue-chances server_id k request s w =
    let pending : PendingRequest = record { server_id = server_id; request = some request } in
    ground (arith, get-insert s.next_request_id k pending s.pending_requests)

dispatch-chances :
    (server_id k : ℕ) (request : TransportRequest) (s : Statics)
    → suc s.next_request_id < word
    → chances k (dispatch_request_to_dart server_id request s).0 ≤ chances k s
unfolding dispatch_request_to_dart notify_transport_event
dispatch-chances server_id k request s w =
    let t = enqueue server_id request s in
    ground (arith, enqueue-chances server_id k request s w, forget-chances s.next_request_id k t)

-- The calls but for a dispatch give out no id.
pub response-next :
    (id : ℕ) (m : PendingResponseMessage) (s : Statics)
    → (send_response_message id m s).0.next_request_id ≡ s.next_request_id
unfolding send_response_message
response-next id m s = ground arith

send_pending-next :
    (id : ℕ) (m : PendingResponseMessage) (remove : Bool) (s : Statics)
    → (send_pending_response_message id m remove s).0.next_request_id ≡ s.next_request_id
unfolding send_pending_response_message
send_pending-next id m true s = ground (arith, response-next id m (forget id s))
send_pending-next id m false s = ground (arith, response-next id m s)

answer-next :
    (id : ℕ) (a : Answer) (s : Statics) → (answer id a s).0.next_request_id ≡ s.next_request_id
unfolding answer
answer-next id a s = elim (Option-cases (message_of a)) [
  | inl e ↦ rw (e, answer) refl
  | inr ((m, remove), e) ↦ rw (e, answer) (send_pending-next id m remove s)
]

pub stop_requests-next :
    (ids : List ℕ) (s : Statics) → (stop_requests ids s).next_request_id ≡ s.next_request_id
unfolding stop_requests stop_request
stop_requests-next [] s = refl
stop_requests-next (id ∷ ids) s = elim (Option-cases (Map.get id s.pending_requests)) [
  | inl e ↦ rw (e, stop_requests) (stop_requests-next ids s)
  | inr (p, e) ↦
      rw (e, stop_requests)
        (stop_requests-next ids (stop_request id s)
          ∙ response-next id close
              (send_response_message id (http_response server_stopped) (forget id s)).0
          ∙ response-next id (http_response server_stopped) (forget id s))
]

call-next : (c : Call) (s : Statics) → (call c s).next_request_id ≤ suc s.next_request_id
unfolding call hang_up take_request stop_server_by_id stop_pending remove_server
    dispatch_request_to_dart notify_transport_event enqueue
call-next (dispatches server_id request) s = ground arith
call-next (takes id) s = ground arith
call-next (answers id a) s = omega (arith, answer-next id a s)
call-next (stops server_id) s =
    omega (arith, stop_requests-next (requests_of server_id s.pending_requests) s)
call-next (hangs_up id) s = ground arith

call-chances :
    (c : Call) (k : ℕ) (s : Statics)
    → suc s.next_request_id < word
    → gain k c s + chances k (call c s) ≤ chances k s
unfolding call stop_server_by_id stop_pending remove_server
call-chances (dispatches server_id request) k s w =
    omega (arith, dispatch-chances server_id k request s w)
call-chances (takes id) k s w = take-chances id k s
call-chances (answers id a) k s w = omega (arith, answer-chances id k a s)
call-chances (stops server_id) k s w =
    omega (arith, stop_requests-chances (requests_of server_id s.pending_requests) k s)
call-chances (hangs_up id) k s w = omega (arith, hang_up-chances id k s)

times_handed-chances :
    (k : ℕ) (cs : List Call) (s : Statics)
    → suc s.next_request_id + length cs < word
    → times_handed k cs s ≤ chances k s
unfolding times_handed
times_handed-chances k [] s w = omega arith
times_handed-chances k (c ∷ cs) s w = omega (
  arith,
  call-chances c k s (omega arith),
  call-next c s,
  times_handed-chances k cs (call c s) (omega (arith, call-next c s)),
)

-- In any history of calls that is too short for the ids to start over, a request is handed to the
-- Dart side at most once.
pub times_handed-le-one :
    (k : ℕ) (cs : List Call) (next : ℕ) (servers : Map ℕ ServerState)
    → suc next + length cs < word
    → times_handed k cs (idle next servers) ≤ 1
unfolding Map.get
times_handed-le-one k cs next servers w =
    ground (arith, times_handed-chances k cs (idle next servers) w)
