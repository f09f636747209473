-- ===== src/Runtime/Leaving.antt =====
-- What a step of lib.rs leaves of one pending request.
use dart_edge.Base.{
  ℕ, ◌+◌, ◌≤◌, ◌<◌, ◌≡◌, ◌≢◌, refl, Bool, true, false, inl, inr, ◌⊎◌, List, Option, none, some,
  arith, Bool-cases, Option-cases, if◌then◌else◌, ◌==◌, ◌&&◌,
}
use dart_edge.Base.Keys.{nat_eq}
use dart_edge.Base.Map
use dart_edge.Base.Map.{Map, get-insert, get-remove}
use dart_edge.Runtime.Message.{PendingResponseMessage}
use dart_edge.Runtime.Statics.{Statics, PendingRequest, notify_transport_event}
use dart_edge.Runtime.Pending.{forget, take_request, stop_requests}
use dart_edge.Runtime.Calls.{hang_up}
use dart_edge.Runtime.Transcript.{pending-send_response_message}
use dart_edge.Runtime.Stopping.{is_listed, stop_requests-pending}
use dart_edge.Runtime.Steps.{Sending, Dispatching, Running, notify, claim, deliver, forget_one}
use dart_edge.Runtime.Ledger.{tally}

abbrev pub is_request : ℕ → ℕ → Bool
is_request k id = id == k

abbrev pub is_dispatch : ℕ → ℕ → Dispatching → Bool
is_dispatch server_id k d = d.server_id == server_id && d.request_id == k

-- How many calls will still remove request `k` of the server: a failed one, or a dispatch that will
-- find no server.
abbrev pub removals : ℕ → ℕ → Running → ℕ
removals server_id k r =
    tally (is_dispatch server_id k) r.dispatching + tally (is_request k) r.forgetting

-- The request is not the server's, or a call will remove it.
abbrev pub Leaves : ℕ → ℕ → Option PendingRequest → Type 0
Leaves server_id n none = Unit
Leaves server_id n (some p) = (p.server_id ≢ server_id) ⊎ (0 < n)

-- The server is gone, and so are its requests, but for those that a call will remove.
pub record IsGone (server_id : ℕ) (r : Running) : Type 0 where
  pub no_server : Map.get server_id r.statics.server_states ≡ none
  pub leaves :
      (k : ℕ) → Leaves server_id (removals server_id k r) (Map.get k r.statics.pending_requests)

-- The pending request `k` is the same, but for what the Dart side has taken, or it is gone.
abbrev pub IsLeft : Option PendingRequest → Option PendingRequest → Type 0
IsLeft p none = Unit
IsLeft none (some q) = ⊥
IsLeft (some p) (some q) = q.server_id ≡ p.server_id

pub Leaves-left :
    (server_id n n' : ℕ) (p q : Option PendingRequest)
    → IsLeft p q
    → n ≤ n'
    → Leaves server_id n p
    → Leaves server_id n' q
Leaves-left server_id n n' p none i m h = tt
Leaves-left server_id n n' none (some q) i m h = absurd i
Leaves-left server_id n n' (some p) (some q) i m (inl h) = inl (λ e. h (ground (arith, i, e)))
Leaves-left server_id n n' (some p) (some q) i m (inr h) = inr (omega (arith, m, h))

pub IsLeft-refl : (p : Option PendingRequest) → IsLeft p p
IsLeft-refl none = tt
IsLeft-refl (some p) = refl

pub IsLeft-if : (b : Bool) (p : Option PendingRequest) → IsLeft p (if b then none else p)
IsLeft-if true p = tt
IsLeft-if false p = IsLeft-refl p

pub take-IsLeft :
    (id k : ℕ) (s : Statics)
    → IsLeft (Map.get k s.pending_requests) (Map.get k (take_request id s).0.pending_requests)
unfolding take_request
take-IsLeft id k s = elim (Option-cases (Map.get id s.pending_requests)) [
  | inl e ↦ rw (e, take_request) (IsLeft-refl (Map.get k s.pending_requests))
  | inr (p, e) ↦
      rw (e, take_request)
        (elim (Option-cases p.request) [
          | inl f ↦ rw f (IsLeft-refl (Map.get k s.pending_requests))
          | inr (q, f) ↦ rw f (taken p e)
        ])
]
  where
    taken :
        (p : PendingRequest)
        → Map.get id s.pending_requests ≡ some p
        → IsLeft
            (Map.get k s.pending_requests)
            (Map.get k (Map.insert id (record p { request = none }) s.pending_requests))
    taken p e = elim (Bool-cases (id == k)) [
      | inl t ↦
          let here : Map.get k s.pending_requests ≡ some p = ground (arith, t, e) in
          rw (get-insert id k (record p { request = none }) s.pending_requests, t, here) refl
      | inr t ↦
          rw (get-insert id k (record p { request = none }) s.pending_requests, t)
            (IsLeft-refl (Map.get k s.pending_requests))
    ]

pub forget-IsLeft :
    (id k : ℕ) (s : Statics)
    → IsLeft (Map.get k s.pending_requests) (Map.get k (forget id s).pending_requests)
forget-IsLeft id k s =
    rw (get-remove id k s.pending_requests) (IsLeft-if (id == k) (Map.get k s.pending_requests))

pub stop_requests-IsLeft :
    (ids : List ℕ) (k : ℕ) (s : Statics)
    → IsLeft (Map.get k s.pending_requests) (Map.get k (stop_requests ids s).pending_requests)
stop_requests-IsLeft ids k s =
    rw (stop_requests-pending ids k s) (IsLeft-if (is_listed k ids) (Map.get k s.pending_requests))

pub claim-IsLeft :
    (id k : ℕ) (m : PendingResponseMessage) (last : Bool) (r : Running)
    → IsLeft
        (Map.get k r.statics.pending_requests)
        (Map.get k (claim id m last r).statics.pending_requests)
unfolding claim
claim-IsLeft id k m last r = elim (Option-cases (Map.get id r.statics.pending_requests)) [
  | inl e ↦ rw (e, claim) (IsLeft-refl (Map.get k r.statics.pending_requests))
  | inr (p, e) ↦
      rw (e, claim)
        (elim (Bool-cases last) [
          | inl t ↦ rw t (forget-IsLeft id k r.statics)
          | inr t ↦ rw t (IsLeft-refl (Map.get k r.statics.pending_requests))
        ])
]

pub deliver-IsLeft :
    (k : ℕ) (r : Running) (o : Option (Sending × List Sending))
    → IsLeft
        (Map.get k r.statics.pending_requests)
        (Map.get k (deliver r o).statics.pending_requests)
unfolding deliver
deliver-IsLeft k r none = IsLeft-refl (Map.get k r.statics.pending_requests)
deliver-IsLeft k r (some (x, rest)) =
    rw (pending-send_response_message x.request_id x.message r.statics)
      (IsLeft-refl (Map.get k r.statics.pending_requests))

pub deliver-forgetting :
    (k : ℕ) (r : Running) (o : Option (Sending × List Sending))
    → tally (is_request k) r.forgetting ≤ tally (is_request k) (deliver r o).forgetting
unfolding deliver tally
deliver-forgetting k r none = omega arith
deliver-forgetting k r (some (x, rest)) = ground arith

pub hang_up-pending : (id : ℕ) (s : Statics) → (hang_up id s).pending_requests ≡ s.pending_requests
unfolding hang_up
hang_up-pending id s = ground arith

pub notify-IsLeft :
    (k : ℕ) (r : Running) (o : Option (Dispatching × List Dispatching))
    → IsLeft
        (Map.get k r.statics.pending_requests)
        (Map.get k (notify r o).statics.pending_requests)
unfolding notify notify_transport_event
notify-IsLeft k r none = IsLeft-refl (Map.get k r.statics.pending_requests)
notify-IsLeft k r (some (d, rest)) =
    elim (Option-cases (Map.get d.server_id r.statics.server_states)) [
      | inl e ↦
          rw (e, notify, notify_transport_event)
            (IsLeft-refl (Map.get k r.statics.pending_requests))
      | inr (v, e) ↦
          rw (e, notify, notify_transport_event)
            (IsLeft-refl (Map.get k r.statics.pending_requests))
    ]

pub forget_one-IsLeft :
    (k : ℕ) (r : Running) (o : Option (ℕ × List ℕ))
    → IsLeft
        (Map.get k r.statics.pending_requests)
        (Map.get k (forget_one r o).statics.pending_requests)
unfolding forget_one
forget_one-IsLeft k r none = IsLeft-refl (Map.get k r.statics.pending_requests)
forget_one-IsLeft k r (some (id, rest)) = forget-IsLeft id k r.statics
