-- ===== src/Runtime/Steps.antt =====
-- lib.rs: the calls on pending requests, taken apart into what each does under one lock, or with
-- none: `dispatch_request_to_dart` (lines 1829 to 1854), `send_pending_response_message` (2863 to
-- 2891), `stop_server_by_id` (993 to 1060). Steps of any calls may come in any order.
use dart_edge.Base.{ℕ, zero, suc, Bool, List, [], ◌∷◌, Option, none, some, if◌then◌else◌}
use dart_edge.Base.Keys.{nat_eq}
use dart_edge.Base.Map
use dart_edge.Runtime.Message.{TransportRequest, PendingResponseMessage, request_ready}
use dart_edge.Runtime.Statics.{Statics, notify_transport_event}
use dart_edge.Runtime.Pending.{
  Answer, message_of, enqueue, forget, take_request, send_response_message, stop_pending,
  remove_server,
}
use dart_edge.Runtime.Calls.{hang_up}

-- A call that has cloned or taken the sender of its request, and has not sent yet.
pub record Sending : Type 0 where
  pub request_id : ℕ
  pub message : PendingResponseMessage
  pub remove : Bool

-- A dispatch that has entered its request, and has not notified the Dart side yet.
pub record Dispatching : Type 0 where
  pub server_id : ℕ
  pub request_id : ℕ

-- The tables, and the calls on their way; `forgetting` are the ids that a call will still remove,
-- since its notification or its send has failed.
pub record Running : Type 0 where
  pub statics : Statics
  pub dispatching : List Dispatching
  pub sending : List Sending
  pub forgetting : List ℕ

-- A number says which of the calls on their way goes on.
pub data Step : Type 0 where
  enqueues : ℕ → TransportRequest → Step
  notifies : ℕ → Step
  takes : ℕ → Step
  claims : ℕ → Answer → Step
  delivers : ℕ → Step
  forgets : ℕ → Step
  stops_pending : ℕ → Step
  removes_server : ℕ → Step
  hangs_up : ℕ → Step

-- One element, and the others.
unfoldable pub pick {ℓ} : {A : Type ℓ} → ℕ → List A → Option (A × List A)
pick n [] = none
pick zero (x ∷ xs) = some (x, xs)
pick (suc n) (x ∷ xs) = elim (pick n xs) [ none ↦ none | some (y, rest) ↦ some (y, x ∷ rest) ]

unfoldable pub notify : Running → Option (Dispatching × List Dispatching) → Running
notify r none = r
notify r (some (d, rest)) =
    let (t, notified) = notify_transport_event d.server_id request_ready d.request_id r.statics in
    record r {
      statics = t;
      dispatching = rest;
      forgetting = if notified then r.forgetting else d.request_id ∷ r.forgetting;
    }

-- The first lock of `send_pending_response_message`.
unfoldable pub claim : ℕ → PendingResponseMessage → Bool → Running → Running
claim request_id message remove r = elim (Map.get request_id r.statics.pending_requests) [
  | none ↦ r
  | some _ ↦ record r {
    statics = if remove then forget request_id r.statics else r.statics;
    sending = record { request_id = request_id; message = message; remove = remove } ∷ r.sending;
  }
]

-- The send, when the lock is released.
unfoldable pub deliver : Running → Option (Sending × List Sending) → Running
deliver r none = r
deliver r (some (x, rest)) =
    let (t, sent) = send_response_message x.request_id x.message r.statics in
    record r {
      statics = t;
      sending = rest;
      forgetting =
          if sent
          then r.forgetting
          else if x.remove
          then r.forgetting
          else x.request_id ∷ r.forgetting;
    }

unfoldable pub forget_one : Running → Option (ℕ × List ℕ) → Running
forget_one r none = r
forget_one r (some (id, rest)) = record r { statics = forget id r.statics; forgetting = rest }

unfoldable pub step : Step → Running → Running
unfolding pick notify claim deliver forget_one
step (enqueues server_id request) r = record r {
  statics = enqueue server_id request r.statics;
  dispatching =
      record { server_id = server_id; request_id = r.statics.next_request_id } ∷ r.dispatching;
}
step (notifies n) r = notify r (pick n r.dispatching)
step (takes request_id) r = record r { statics = (take_request request_id r.statics).0 }
step (claims request_id a) r = elim (message_of a) [
  | none ↦ r
  | some (message, remove) ↦ claim request_id message remove r
]
step (delivers n) r = deliver r (pick n r.sending)
step (forgets n) r = forget_one r (pick n r.forgetting)
step (stops_pending server_id) r = record r { statics = stop_pending server_id r.statics }
step (removes_server server_id) r = record r { statics = remove_server server_id r.statics }
step (hangs_up request_id) r = record r { statics = hang_up request_id r.statics }

unfoldable pub step_all : List Step → Running → Running
step_all [] r = r
step_all (x ∷ xs) r = step_all xs (step x r)

-- With no call on its way.
abbrev pub at_rest : Statics → Running
at_rest s = record { statics = s; dispatching = []; sending = []; forgetting = [] }
