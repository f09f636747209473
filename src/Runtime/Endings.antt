-- ===== src/Runtime/Endings.antt =====
-- Calls of lib.rs on pending requests, in any order of their steps, end each request once.
use dart_edge.Base.{
  ℕ, suc, ◌+◌, ◌≤◌, ◌<◌, ◌≡◌, refl, subst, inl, inr, List, [], ◌∷◌, Option, none, some, arith,
  length, Bool, Option-cases,
}
use dart_edge.Base.Keys.{nat_eq}
use dart_edge.Base.Words.{word}
use dart_edge.Base.Map
use dart_edge.Base.Map.{Map}
use dart_edge.Runtime.Message.{PendingResponseMessage}
use dart_edge.Runtime.Channel.{Channel}
use dart_edge.Runtime.Statics.{PendingRequest, ServerState, notify_transport_event}
use dart_edge.Runtime.Pending.{
  message_of, enqueue, take_request, requests_of, stop_pending, remove_server,
}
use dart_edge.Runtime.Calls.{hang_up}
use dart_edge.Runtime.History.{idle}
use dart_edge.Runtime.Handover.{stop_requests-next, response-next}
use dart_edge.Runtime.Transcript.{message_of-is_last}
use dart_edge.Runtime.Steps.{
  Sending, Dispatching, Running, Step, enqueues, notifies, takes, claims, delivers, forgets,
  stops_pending, removes_server, hangs_up, pick, notify, claim, deliver, forget_one, step, step_all,
  at_rest,
}
use dart_edge.Runtime.Ledger.{tally, endings, EndsOnce, Ledger}
use dart_edge.Runtime.Kept.{
  ends, IsKept, forget-IsKept, notify-IsKept, enqueue-IsKept, deliver-IsKept,
}
use dart_edge.Runtime.Claimed.{claim-IsKept, take-IsKept, hang_up-IsKept, stop_pending-IsKept}

forget_one-IsKept :
    (k : ℕ) (r : Running) (o : Option (ℕ × List ℕ)) → IsKept k r → IsKept k (forget_one r o)
unfolding forget_one
forget_one-IsKept k r none h = h
forget_one-IsKept k r (some (id, rest)) h = forget-IsKept id k r rest h

step-IsKept :
    (x : Step) (k : ℕ) (r : Running)
    → r.statics.next_request_id + 1 < word
    → IsKept k r
    → IsKept k (step x r)
unfolding step remove_server
step-IsKept (enqueues server_id request) k r w h = enqueue-IsKept server_id k request r _ w h
step-IsKept (notifies n) k r w h = notify-IsKept k r (pick n r.dispatching) h
step-IsKept (takes id) k r w h = take-IsKept id k r h
step-IsKept (claims id a) k r w h = elim (Option-cases (message_of a)) [
  | inl e ↦ rw (e, step) h
  | inr ((m, last), e) ↦ rw (e, step) (claim-IsKept id k m last r (message_of-is_last a m last e) h)
]
step-IsKept (delivers n) k r w h = deliver-IsKept k n r (pick n r.sending) refl h
step-IsKept (forgets n) k r w h = forget_one-IsKept k r (pick n r.forgetting) h
step-IsKept (stops_pending server_id) k r w h = stop_pending-IsKept server_id k r h
step-IsKept (removes_server server_id) k r w h = record { ledger = h.ledger; fresh = h.fresh }
step-IsKept (hangs_up id) k r w h = hang_up-IsKept id k r h

notify-next :
    (r : Running) (o : Option (Dispatching × List Dispatching))
    → (notify r o).statics.next_request_id ≡ r.statics.next_request_id
unfolding notify notify_transport_event
notify-next r none = refl
notify-next r (some (d, rest)) = ground arith

claim-next :
    (id : ℕ) (m : PendingResponseMessage) (last : Bool) (r : Running)
    → (claim id m last r).statics.next_request_id ≡ r.statics.next_request_id
unfolding claim
claim-next id m last r = ground arith

deliver-next :
    (r : Running) (o : Option (Sending × List Sending))
    → (deliver r o).statics.next_request_id ≡ r.statics.next_request_id
unfolding deliver
deliver-next r none = refl
deliver-next r (some (x, rest)) = response-next x.request_id x.message r.statics

forget_one-next :
    (r : Running) (o : Option (ℕ × List ℕ))
    → (forget_one r o).statics.next_request_id ≡ r.statics.next_request_id
unfolding forget_one
forget_one-next r none = refl
forget_one-next r (some (id, rest)) = refl

step-next :
    (x : Step) (r : Running) → (step x r).statics.next_request_id ≤ suc r.statics.next_request_id
unfolding step take_request hang_up stop_pending remove_server enqueue
step-next (enqueues server_id request) r = ground arith
step-next (notifies n) r = omega (arith, notify-next r (pick n r.dispatching))
step-next (takes id) r = ground arith
step-next (claims id a) r = elim (Option-cases (message_of a)) [
  | inl e ↦ rw (e, step) (omega arith)
  | inr ((m, last), e) ↦ rw (e, step) (omega (arith, claim-next id m last r))
]
step-next (delivers n) r = omega (arith, deliver-next r (pick n r.sending))
step-next (forgets n) r = omega (arith, forget_one-next r (pick n r.forgetting))
step-next (stops_pending server_id) r =
    omega (arith, stop_requests-next (requests_of server_id r.statics.pending_requests) r.statics)
step-next (removes_server server_id) r = ground arith
step-next (hangs_up id) r = ground arith

step_all-IsKept :
    (xs : List Step) (k : ℕ) (r : Running)
    → r.statics.next_request_id + length xs < word
    → IsKept k r
    → IsKept k (step_all xs r)
unfolding step_all
step_all-IsKept [] k r w h = h
step_all-IsKept (x ∷ xs) k r w h =
    step_all-IsKept xs k (step x r) (omega (arith, step-next x r, w))
      (step-IsKept x k r (omega (arith, w)) h)

-- Nothing has ended a request that is pending.
abbrev pub IsUnended : Option PendingRequest → List PendingResponseMessage → Type 0
IsUnended none sent = Unit
IsUnended (some p) sent = endings sent ≡ []

Ledger-EndsOnce :
    (p : Option PendingRequest) (c : Channel PendingResponseMessage) (f : ℕ)
    → Ledger p (some c) f
    → EndsOnce (endings c.sent) × IsUnended p c.sent
Ledger-EndsOnce none c f (inl h) = (inl (omega (arith, h)), tt)
Ledger-EndsOnce none c f (inr (e, h)) = (inr h, tt)
Ledger-EndsOnce (some p) c f (e, h) = (inl (rw h (omega arith)), h)

-- The steps of the calls on pending requests come in any order, each under its own lock and the sends
-- under none, and are too few for the ids to start over. Then the messages in the response channel of
-- a request that end it are none, one, or the two of a server that stops; and as long as the request
-- is pending, there are none. Messages that leave the request open may stand anywhere, also last.
pub step_all-EndsOnce :
    (xs : List Step) (next k : ℕ) (servers : Map ℕ ServerState) (c : Channel PendingResponseMessage)
    → next + length xs < word
    → Map.get k (step_all xs (at_rest (idle next servers))).statics.response_channels ≡ some c
    → EndsOnce (endings c.sent)
      × IsUnended
          (Map.get k (step_all xs (at_rest (idle next servers))).statics.pending_requests)
          c.sent
step_all-EndsOnce xs next k servers c w e =
    let r = step_all xs (at_rest (idle next servers)) in
    let start : IsKept k (at_rest (idle next servers)) = record {
      ledger = unfold Map.get in tt;
      fresh = λ n. (unfold Map.get in refl, unfold tally in refl);
    } in
    let f = tally (ends k) r.sending in
    let kept = step_all-IsKept xs k (at_rest (idle next servers)) w start in
    Ledger-EndsOnce (Map.get k r.statics.pending_requests) c f
      (subst (λ o. Ledger (Map.get k r.statics.pending_requests) o f) e kept.ledger)
