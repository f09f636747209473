-- ===== src/Runtime/Sequential.antt =====
-- The calls of lib.rs on pending requests, one after the other, as runs of their steps.
use dart_edge.Base.{ℕ, true, false, List, [], ◌∷◌, ◌++◌, if◌then◌else◌, Bool}
use dart_edge.Base.Keys.{nat_eq}
use dart_edge.Base.Map
use dart_edge.Runtime.Message.{PendingResponseMessage}
use dart_edge.Runtime.Statics.{Statics}
use dart_edge.Runtime.Pending.{forget}
use dart_edge.Runtime.Calls.{Call, dispatches, takes, answers, stops, hangs_up}
use dart_edge.Runtime.Steps.{
  Running, Step, enqueues, notifies, claims, delivers, forgets, stops_pending, removes_server, pick,
  deliver, forget_one, at_rest,
}
use dart_edge.Runtime.Steps

-- The steps of a call, when no other is on its way.
abbrev pub steps_of : Call → List Step
steps_of (dispatches server_id request) = enqueues server_id request ∷ notifies 0 ∷ forgets 0 ∷ []
steps_of (takes request_id) = Steps.takes request_id ∷ []
steps_of (answers request_id a) = claims request_id a ∷ delivers 0 ∷ forgets 0 ∷ []
steps_of (stops server_id) = stops_pending server_id ∷ removes_server server_id ∷ []
steps_of (hangs_up request_id) = Steps.hangs_up request_id ∷ []

abbrev pub all_steps_of : List Call → List Step
all_steps_of [] = []
all_steps_of (c ∷ cs) = steps_of c ++ all_steps_of cs

abbrev next_delivery : Running → Running
next_delivery r = deliver r (pick 0 r.sending)

abbrev next_forgetting : Running → Running
next_forgetting r = forget_one r (pick 0 r.forgetting)

-- The send of a message for a request that is known.
abbrev sent_to : ℕ → PendingResponseMessage → Bool → Statics → Statics × Bool → Statics
sent_to id m last s (t, true) = t
sent_to id m last s (t, false) = if last then t else forget id t

abbrev forgetting_of : ℕ → Bool → Bool → List ℕ
forgetting_of id last sent = if sent then [] else if last then [] else id ∷ []

abbrev after_send : ℕ → Bool → Statics × Bool → Running
after_send id last (t, sent) =
    next_forgetting (record (at_rest t) { forgetting = forgetting_of id last sent })
