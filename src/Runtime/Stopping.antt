-- ===== src/Runtime/Stopping.antt =====
-- What `stop_server_by_id` of lib.rs leaves of a server's requests.
use dart_edge.Base.{
  ℕ, ◌≡◌, refl, ◌∙◌, ap, Bool, true, false, ◌||◌, List, [], ◌∷◌, ◌++◌, ◌&&◌, is_some, none, some,
  inl, inr, arith, ◌==◌, if◌then◌else◌, Option-cases,
}
use mathlib.Core.List.{append_assoc}
use dart_edge.Base.Keys.{nat_eq}
use dart_edge.Base.Map
use dart_edge.Base.Map.{Map, get-remove}
use dart_edge.Runtime.Message.{PendingResponseMessage, http_response, close}
use dart_edge.Runtime.Channel.{send}
use dart_edge.Runtime.Statics.{Statics, PendingRequest}
use dart_edge.Runtime.Pending.{
  forget, send_response_message, stop_request, stop_requests, requests_of, stop_server_by_id,
  server_stopped, stop_pending, remove_server,
}
use dart_edge.Runtime.Transcript.{pushed, get-send_response_message, pending-send_response_message}

-- The id is in the list.
unfoldable pub is_listed : ℕ → List ℕ → Bool
is_listed k [] = false
is_listed k (id ∷ ids) = id == k || is_listed k ids

stop_request-pending :
    (id k : ℕ) (s : Statics)
    → Map.get k (stop_request id s).pending_requests
      ≡ (if id == k then none else Map.get k s.pending_requests)
unfolding stop_request
stop_request-pending id k s =
    let t = send_response_message id (http_response server_stopped) (forget id s) in
    ap (Map.get k) (
      pending-send_response_message id close t.0
      ∙ pending-send_response_message id (http_response server_stopped) (forget id s))
    ∙ get-remove id k s.pending_requests

pub stop_requests-pending :
    (ids : List ℕ) (k : ℕ) (s : Statics)
    → Map.get k (stop_requests ids s).pending_requests
      ≡ (if is_listed k ids then none else Map.get k s.pending_requests)
unfolding stop_requests is_listed
stop_requests-pending [] k s = refl
stop_requests-pending (id ∷ ids) k s = elim (Option-cases (Map.get id s.pending_requests)) [
  | inl e ↦ rw (e, stop_requests) (ground (arith, stop_requests-pending ids k s))
  | inr (p, e) ↦
      rw (e, stop_requests)
        (ground
          (arith, stop_requests-pending ids k (stop_request id s), stop_request-pending id k s))
]

pub listed_of_server :
    (server_id k : ℕ) (p : PendingRequest) (m : Map ℕ PendingRequest)
    → Map.get k m ≡ some p
    → p.server_id ≡ server_id
    → is_listed k (requests_of server_id m) ≡ true
unfolding Map.get is_listed
listed_of_server server_id k p [] g e = cc
listed_of_server server_id k p ((j, q) ∷ m) g e = ground (arith, listed_of_server server_id k p m)

stop_request-channels :
    (id k : ℕ) (s : Statics)
    → Map.get k (stop_request id s).response_channels ≡ (
        if id == k
        then pushed close (pushed (http_response server_stopped) (Map.get k s.response_channels))
        else Map.get k s.response_channels)
unfolding stop_request
stop_request-channels id k s =
    let t = send_response_message id (http_response server_stopped) (forget id s) in
    ground (
      arith,
      get-send_response_message id k close t.0,
      get-send_response_message id k (http_response server_stopped) (forget id s),
    )

pub stop_requests-channels :
    (ids : List ℕ) (k : ℕ) (s : Statics)
    → Map.get k (stop_requests ids s).response_channels ≡ (
        if is_listed k ids && is_some (Map.get k s.pending_requests)
        then pushed close (pushed (http_response server_stopped) (Map.get k s.response_channels))
        else Map.get k s.response_channels)
unfolding stop_requests is_listed
stop_requests-channels [] k s = refl
stop_requests-channels (id ∷ ids) k s = elim (Option-cases (Map.get id s.pending_requests)) [
  | inl e ↦ rw (e, stop_requests) (ground (arith, stop_requests-channels ids k s))
  | inr (p, e) ↦
      rw (e, stop_requests)
        (ground (
          arith,
          stop_requests-channels ids k (stop_request id s),
          stop_request-channels id k s,
          stop_request-pending id k s,
        ))
]

-- When a server is stopped while one of its requests is pending and the HTTP side still listens, the
-- channel of that request ends with the response that the server has stopped, and with its close.
pub stop_server_by_id-channels :
    (server_id k : ℕ) (p : PendingRequest) (sent : List PendingResponseMessage) (s : Statics)
    → Map.get k s.pending_requests ≡ some p
    → p.server_id ≡ server_id
    → Map.get k s.response_channels ≡ some (record { sent = sent; receiver = true })
    → Map.get k (stop_server_by_id server_id s).response_channels
      ≡ some (record { sent = sent ++ http_response server_stopped ∷ close ∷ []; receiver = true })
unfolding stop_server_by_id stop_pending remove_server
stop_server_by_id-channels server_id k p sent s g e c =
    let listed = listed_of_server server_id k p s.pending_requests g e in
    stop_requests-channels (requests_of server_id s.pending_requests) k s
    ∙ rw (listed, g, c)
        (unfold send in
          rw (append_assoc sent (http_response server_stopped ∷ []) (close ∷ [])) refl)
