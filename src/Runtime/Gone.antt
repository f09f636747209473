-- ===== src/Runtime/Gone.antt =====
-- The steps of lib.rs once a server is gone: its requests go.
use dart_edge.Base.{
  ℕ, ◌+◌, ◌≤◌, ◌≡◌, refl, ◌∙◌, Bool, inl, inr, List, [], ◌∷◌, Option, none, some, arith, Bool-cases,
  Option-cases, if◌then◌else◌, ◌==◌,
}
use dart_edge.Base.Keys.{nat_eq}
use dart_edge.Base.Map
use dart_edge.Base.Map.{Map, get-insert, get-remove}
use dart_edge.Runtime.Message.{TransportRequest, PendingResponseMessage}
use dart_edge.Runtime.Statics.{Statics, PendingRequest, notify_transport_event}
use dart_edge.Runtime.Pending.{
  message_of, enqueue, forget, take_request, stop_requests, stop_request, requests_of, stop_pending,
  remove_server, send_response_message,
}
use dart_edge.Runtime.Calls.{hang_up}
use dart_edge.Runtime.Steps.{
  Sending, Dispatching, Running, Step, enqueues, notifies, takes, claims, delivers, forgets,
  stops_pending, removes_server, hangs_up, pick, notify, claim, deliver, forget_one, step,
}
use dart_edge.Runtime.Ledger.{tally, tally-pick}
use dart_edge.Runtime.Leaving.{
  is_request, is_dispatch, removals, IsGone, IsLeft, Leaves-left, IsLeft-refl, take-IsLeft,
  forget-IsLeft, stop_requests-IsLeft, claim-IsLeft, deliver-IsLeft, deliver-forgetting,
  hang_up-pending, notify-IsLeft,
}

stop_requests-servers :
    (ids : List ℕ) (s : Statics) → (stop_requests ids s).server_states ≡ s.server_states
unfolding stop_requests stop_request send_response_message
stop_requests-servers [] s = refl
stop_requests-servers (id ∷ ids) s = elim (Option-cases (Map.get id s.pending_requests)) [
  | inl e ↦ rw (e, stop_requests) (stop_requests-servers ids s)
  | inr (p, e) ↦
      rw (e, stop_requests) (stop_requests-servers ids (stop_request id s) ∙ ground arith)
]

deliver-servers :
    (r : Running) (o : Option (Sending × List Sending))
    → (deliver r o).statics.server_states ≡ r.statics.server_states
unfolding deliver send_response_message
deliver-servers r none = refl
deliver-servers r (some (x, rest)) = ground arith

claim-servers :
    (id : ℕ) (m : PendingResponseMessage) (last : Bool) (r : Running)
    → ((claim id m last r).statics.server_states ≡ r.statics.server_states)
      × ((claim id m last r).dispatching ≡ r.dispatching)
      × ((claim id m last r).forgetting ≡ r.forgetting)
unfolding claim
claim-servers id m last r = ground arith

take-servers : (id : ℕ) (s : Statics) → (take_request id s).0.server_states ≡ s.server_states
unfolding take_request
take-servers id s = ground arith

hang_up-servers : (id : ℕ) (s : Statics) → (hang_up id s).server_states ≡ s.server_states
unfolding hang_up
hang_up-servers id s = ground arith

-- A step that keeps the calls that will remove the request.
kept-IsGone :
    (server_id : ℕ) (r t : Running)
    → t.statics.server_states ≡ r.statics.server_states
    → ((k : ℕ)
        → IsLeft (Map.get k r.statics.pending_requests) (Map.get k t.statics.pending_requests))
    → ((k : ℕ) → removals server_id k r ≤ removals server_id k t)
    → IsGone server_id r
    → IsGone server_id t
kept-IsGone server_id r t same left more h = record {
  no_server = rw same h.no_server;
  leaves = λ k.
      Leaves-left server_id (removals server_id k r) (removals server_id k t)
        (Map.get k r.statics.pending_requests) (Map.get k t.statics.pending_requests) (left k)
        (more k) (h.leaves k);
}

notify-IsGone :
    (server_id n : ℕ) (r : Running) (o : Option (Dispatching × List Dispatching))
    → pick n r.dispatching ≡ o
    → IsGone server_id r
    → IsGone server_id (notify r o)
unfolding notify notify_transport_event
notify-IsGone server_id n r none e h = h
notify-IsGone server_id n r (some (d, rest)) e h =
    kept-IsGone server_id r (notify r (some (d, rest))) (ground arith)
      (λ k. notify-IsLeft k r (some (d, rest))) (λ k. more k) h
  where
    count :
        (k : ℕ)
        → tally (is_dispatch server_id k) r.dispatching
          ≡ (if is_dispatch server_id k d then 1 else 0) + tally (is_dispatch server_id k) rest
    count k = tally-pick (is_dispatch server_id k) n r.dispatching d rest e

    more : (k : ℕ) → removals server_id k r ≤ removals server_id k (notify r (some (d, rest)))
    more k = elim (Bool-cases (d.server_id == server_id)) [
      | inl t ↦
          let eq : d.server_id ≡ server_id = ground (arith, t) in
          let gone : Map.get d.server_id r.statics.server_states ≡ none = rw eq h.no_server in
          rw (gone, notify, notify_transport_event) (unfold tally in ground (arith, count k, t))
      | inr t ↦ elim (Option-cases (Map.get d.server_id r.statics.server_states)) [
        | inl e ↦
            rw (e, notify, notify_transport_event) (unfold tally in ground (arith, count k, t))
        | inr (v, e) ↦ rw (e, notify, notify_transport_event) (ground (arith, count k, t))
      ]
    ]

forget_one-IsGone :
    (server_id n : ℕ) (r : Running) (o : Option (ℕ × List ℕ))
    → pick n r.forgetting ≡ o
    → IsGone server_id r
    → IsGone server_id (forget_one r o)
unfolding forget_one
forget_one-IsGone server_id n r none e h = h
forget_one-IsGone server_id n r (some (id, rest)) e h = record {
  no_server = h.no_server;
  leaves = λ k. elim (Bool-cases (id == k)) [
    | inl t ↦ rw (get-remove id k r.statics.pending_requests, t) tt
    | inr t ↦
        Leaves-left server_id (removals server_id k r)
          (removals server_id k (forget_one r (some (id, rest))))
          (Map.get k r.statics.pending_requests) (Map.get k (forget id r.statics).pending_requests)
          (forget-IsLeft id k r.statics)
          (ground (arith, tally-pick (is_request k) n r.forgetting id rest e, t)) (h.leaves k)
  ];
}

enqueue-IsGone :
    (server_id other : ℕ) (request : TransportRequest) (r : Running)
    → IsGone server_id r
    → IsGone server_id (step (enqueues other request) r)
unfolding step enqueue
enqueue-IsGone server_id other request r h = record {
  no_server = h.no_server;
  leaves = λ k.
      let next = r.statics.next_request_id in
      let p : PendingRequest = record { server_id = other; request = some request } in
      let t = step (enqueues other request) r in
      let eq = get-insert next k p r.statics.pending_requests in
      elim (Bool-cases (next == k)) [
        | inl e ↦
            rw (eq, e)
              (elim (Bool-cases (other == server_id)) [
                | inl f ↦ inr (unfold tally in ground (arith, e, f))
                | inr f ↦ inl (λ g. absurd (ground (arith, f, g)))
              ])
        | inr e ↦
            rw (eq, e)
              (Leaves-left server_id (removals server_id k r) (removals server_id k t)
                (Map.get k r.statics.pending_requests) (Map.get k r.statics.pending_requests)
                (IsLeft-refl (Map.get k r.statics.pending_requests)) (unfold tally in ground arith)
                (h.leaves k))
      ];
}

pub step-IsGone :
    (server_id : ℕ) (x : Step) (r : Running) → IsGone server_id r → IsGone server_id (step x r)
unfolding step
step-IsGone server_id (enqueues other request) r h = enqueue-IsGone server_id other request r h
step-IsGone server_id (notifies n) r h = notify-IsGone server_id n r (pick n r.dispatching) refl h
step-IsGone server_id (takes id) r h =
    kept-IsGone server_id r (step (takes id) r) (take-servers id r.statics)
      (λ k. take-IsLeft id k r.statics) (λ k. omega arith) h
step-IsGone server_id (claims id a) r h = elim (Option-cases (message_of a)) [
  | inl e ↦ rw (e, step) h
  | inr ((m, last), e) ↦
      rw (e, step)
        (kept-IsGone server_id r (claim id m last r) (claim-servers id m last r).0
          (λ k. claim-IsLeft id k m last r) (λ k. ground (arith, claim-servers id m last r)) h)
]
step-IsGone server_id (delivers n) r h =
    kept-IsGone server_id r (step (delivers n) r) (deliver-servers r (pick n r.sending))
      (λ k. deliver-IsLeft k r (pick n r.sending)) (λ k. more k (pick n r.sending)) h
  where
    more :
        (k : ℕ) (o : Option (Sending × List Sending))
        → removals server_id k r ≤ removals server_id k (deliver r o)
    more k none = unfold deliver in omega arith
    more k (some (x, rest)) =
        let e : (deliver r (some (x, rest))).dispatching ≡ r.dispatching = unfold deliver in refl in
        rw e (omega (arith, deliver-forgetting k r (some (x, rest))))
step-IsGone server_id (forgets n) r h = forget_one-IsGone server_id n r (pick n r.forgetting) refl h
step-IsGone server_id (stops_pending other) r h =
    let ids = requests_of other r.statics.pending_requests in
    kept-IsGone server_id r (step (stops_pending other) r)
      (unfold stop_pending in stop_requests-servers ids r.statics)
      (λ k. unfold stop_pending in stop_requests-IsLeft ids k r.statics) (λ k. omega arith) h
step-IsGone server_id (removes_server other) r h = record {
  no_server =
      unfold remove_server in
      ground (arith, get-remove other server_id r.statics.server_states, h.no_server);
  leaves = λ k. unfold remove_server in h.leaves k;
}
step-IsGone server_id (hangs_up id) r h =
    kept-IsGone server_id r (step (hangs_up id) r) (hang_up-servers id r.statics)
      (λ k. rw (hang_up-pending id r.statics) (IsLeft-refl (Map.get k r.statics.pending_requests)))
      (λ k. omega arith) h
