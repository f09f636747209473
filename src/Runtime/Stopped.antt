-- ===== src/Runtime/Stopped.antt =====
-- What is left of a server's requests of lib.rs once the server has been stopped, with other calls
-- between the locks of `stop_server_by_id`.
use dart_edge.Base.{
  ℕ, ◌<◌, ◌≡◌, ◌≢◌, refl, subst, inl, inr, List, [], ◌∷◌, Option, none, some, arith, Bool-cases,
  Option-cases, ◌==◌, All,
}
use dart_edge.Base.Keys.{nat_eq}
use dart_edge.Base.Map
use dart_edge.Base.Map.{Map, get-insert, get-remove}
use dart_edge.Runtime.Message.{TransportRequest}
use dart_edge.Runtime.Statics.{PendingRequest}
use dart_edge.Runtime.Pending.{
  message_of, enqueue, stop_requests, requests_of, stop_pending, remove_server,
}
use dart_edge.Runtime.Stopping.{is_listed, stop_requests-pending, listed_of_server}
use dart_edge.Runtime.Steps.{
  Running, Step, enqueues, notifies, takes, claims, delivers, forgets, stops_pending,
  removes_server, hangs_up, pick, step, step_all,
}
use dart_edge.Runtime.Leaving.{
  removals, Leaves, IsGone, IsLeft, Leaves-left, IsLeft-refl, take-IsLeft, stop_requests-IsLeft,
  claim-IsLeft, deliver-IsLeft, hang_up-pending, notify-IsLeft, forget_one-IsLeft,
}
use dart_edge.Runtime.Gone.{step-IsGone}

-- The step enters no request for the server.
abbrev pub IsOther : ℕ → Step → Type 0
IsOther server_id (enqueues other request) = other ≢ server_id
IsOther server_id _ = Unit

-- No request of the server is pending.
abbrev IsSwept : ℕ → Running → Type 0
IsSwept server_id r = (k : ℕ) → Leaves server_id 0 (Map.get k r.statics.pending_requests)

left-IsSwept :
    (server_id : ℕ) (r t : Running)
    → ((k : ℕ)
        → IsLeft (Map.get k r.statics.pending_requests) (Map.get k t.statics.pending_requests))
    → IsSwept server_id r
    → IsSwept server_id t
left-IsSwept server_id r t left h k =
    Leaves-left server_id 0 0 (Map.get k r.statics.pending_requests)
      (Map.get k t.statics.pending_requests) (left k) (omega arith) (h k)

-- What a step that enters no request leaves.
step-IsLeft :
    (x : Step) (k : ℕ) (r : Running)
    → ((other : ℕ) (request : TransportRequest) → x ≢ enqueues other request)
    → IsLeft (Map.get k r.statics.pending_requests) (Map.get k (step x r).statics.pending_requests)
unfolding step stop_pending remove_server
step-IsLeft (enqueues other request) k r h = absurd (h other request refl)
step-IsLeft (notifies n) k r h = notify-IsLeft k r (pick n r.dispatching)
step-IsLeft (takes id) k r h = take-IsLeft id k r.statics
step-IsLeft (claims id a) k r h = elim (Option-cases (message_of a)) [
  | inl e ↦ rw (e, step) (IsLeft-refl (Map.get k r.statics.pending_requests))
  | inr ((m, last), e) ↦ rw (e, step) (claim-IsLeft id k m last r)
]
step-IsLeft (delivers n) k r h = deliver-IsLeft k r (pick n r.sending)
step-IsLeft (forgets n) k r h = forget_one-IsLeft k r (pick n r.forgetting)
step-IsLeft (stops_pending other) k r h =
    stop_requests-IsLeft (requests_of other r.statics.pending_requests) k r.statics
step-IsLeft (removes_server other) k r h = IsLeft-refl (Map.get k r.statics.pending_requests)
step-IsLeft (hangs_up id) k r h =
    rw (hang_up-pending id r.statics) (IsLeft-refl (Map.get k r.statics.pending_requests))

enqueue-IsSwept :
    (server_id other : ℕ) (request : TransportRequest) (r : Running)
    → other ≢ server_id
    → IsSwept server_id r
    → IsSwept server_id (step (enqueues other request) r)
unfolding step enqueue
enqueue-IsSwept server_id other request r ne h k =
    let next = r.statics.next_request_id in
    let p : PendingRequest = record { server_id = other; request = some request } in
    let eq = get-insert next k p r.statics.pending_requests in
    elim (Bool-cases (next == k)) [ inl e ↦ rw (eq, e) (inl ne) | inr e ↦ rw (eq, e) (h k) ]

step-IsSwept :
    (server_id : ℕ) (x : Step) (r : Running)
    → IsOther server_id x
    → IsSwept server_id r
    → IsSwept server_id (step x r)
step-IsSwept server_id (enqueues other request) r i h =
    enqueue-IsSwept server_id other request r i h
step-IsSwept server_id x r i h =
    left-IsSwept server_id r (step x r) (λ k. step-IsLeft x k r (λ o q e. cc)) h

step_all-IsSwept :
    (server_id : ℕ) (xs : List Step) (r : Running)
    → All (IsOther server_id) xs
    → IsSwept server_id r
    → IsSwept server_id (step_all xs r)
unfolding step_all
step_all-IsSwept server_id [] r i h = h
step_all-IsSwept server_id (x ∷ xs) r i h =
    step_all-IsSwept server_id xs (step x r) i.1 (step-IsSwept server_id x r i.0 h)

step_all-IsGone :
    (server_id : ℕ) (xs : List Step) (r : Running)
    → IsGone server_id r
    → IsGone server_id (step_all xs r)
unfolding step_all
step_all-IsGone server_id [] r h = h
step_all-IsGone server_id (x ∷ xs) r h =
    step_all-IsGone server_id xs (step x r) (step-IsGone server_id x r h)

swept : (server_id : ℕ) (r : Running) → IsSwept server_id (step (stops_pending server_id) r)
unfolding step stop_pending
swept server_id r k = go (Map.get k r.statics.pending_requests) refl
  where
    ids : List ℕ
    ids = requests_of server_id r.statics.pending_requests

    go :
        (o : Option PendingRequest)
        → Map.get k r.statics.pending_requests ≡ o
        → Leaves server_id 0 (Map.get k (stop_requests ids r.statics).pending_requests)
    go none e =
        rw (stop_requests-pending ids k r.statics, e)
          (elim (Bool-cases (is_listed k ids)) [ inl t ↦ rw t tt | inr t ↦ rw t tt ])
    go (some p) e = elim (Bool-cases (is_listed k ids)) [
      | inl t ↦ rw (stop_requests-pending ids k r.statics, t) tt
      | inr t ↦
          rw (stop_requests-pending ids k r.statics, t, e)
            (inl (λ s.
              absurd
                (ground (arith, t, listed_of_server server_id k p r.statics.pending_requests e s))))
    ]

removed :
    (server_id : ℕ) (r : Running)
    → IsSwept server_id r
    → IsGone server_id (step (removes_server server_id) r)
unfolding step remove_server
removed server_id r h = record {
  no_server = Map.get-remove_self server_id r.statics.server_states;
  leaves = λ k.
      Leaves-left server_id 0 (removals server_id k r) (Map.get k r.statics.pending_requests)
        (Map.get k r.statics.pending_requests) (IsLeft-refl (Map.get k r.statics.pending_requests))
        (omega arith) (h k);
}

-- A server is stopped while other calls go on: steps stand between its two locks, and after them.
abbrev pub stopped_among : ℕ → List Step → List Step → Running → Running
stopped_among server_id between after r =
    step_all after
      (step (removes_server server_id) (step_all between (step (stops_pending server_id) r)))

-- A server is stopped while other calls are on their way and go on: any steps of theirs come between
-- the lock of the pending requests and that of the servers, but for one that enters a request of this
-- server, and any steps at all come after. Then a request of the server that is pending is one which
-- a call on its way will remove: its dispatch has not notified yet, and will find no server, or a call
-- for it has failed. So none is pending when no call is on its way.
pub stopped_among-removals :
    (server_id k : ℕ) (between after : List Step) (r : Running) (p : PendingRequest)
    → All (IsOther server_id) between
    → Map.get k (stopped_among server_id between after r).statics.pending_requests ≡ some p
    → p.server_id ≡ server_id
    → 0 < removals server_id k (stopped_among server_id between after r)
stopped_among-removals server_id k between after r p i e s =
    let first = step (stops_pending server_id) r in
    let clear = step_all-IsSwept server_id between first i (swept server_id r) in
    let gone =
      step_all-IsGone server_id after (step (removes_server server_id) (step_all between first))
        (removed server_id (step_all between first) clear) in
    let n = removals server_id k (stopped_among server_id between after r) in
    elim (subst (Leaves server_id n) e (gone.leaves k)) [ inl ne ↦ absurd (ne s) | inr h ↦ h ]
