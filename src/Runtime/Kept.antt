-- ===== src/Runtime/Kept.antt =====
-- What each step of lib.rs on pending requests keeps of one request.
use dart_edge.Base.{
  ℕ, ◌+◌, ◌≤◌, ◌<◌, ◌≡◌, refl, ◌∙◌, ap, Bool, true, inl, inr, List, [], Option, none, some, arith,
  Bool-cases, Option-cases, if◌then◌else◌, ◌==◌, ◌&&◌,
}
use dart_edge.Base.Keys.{nat_eq}
use dart_edge.Base.Words.{word}
use dart_edge.Base.Map
use dart_edge.Base.Map.{Map, get-insert, get-remove}
use dart_edge.Runtime.Message.{TransportRequest, PendingResponseMessage}
use dart_edge.Runtime.Channel.{Channel}
use dart_edge.Runtime.Statics.{PendingRequest, notify_transport_event}
use dart_edge.Runtime.Pending.{enqueue, forget, send_response_message}
use dart_edge.Runtime.Transcript.{
  is_last, pushed, get-send_response_message, pending-send_response_message,
}
use dart_edge.Runtime.Steps.{Sending, Dispatching, Running, pick, notify, deliver}
use dart_edge.Runtime.Ledger.{
  tally, tally-pick, endings, Ledger, Ledger-forgotten, Ledger-delivered,
}

-- Whether the call is about to end request `k`.
abbrev pub ends : ℕ → Sending → Bool
ends k x = x.request_id == k && is_last x.message

-- What is kept of request `k`; an id that has not been given out has no calls.
pub record IsKept (k : ℕ) (r : Running) : Type 0 where
  pub ledger :
      Ledger
        (Map.get k r.statics.pending_requests)
        (Map.get k r.statics.response_channels)
        (tally (ends k) r.sending)
  pub fresh :
      r.statics.next_request_id ≤ k
      → (Map.get k r.statics.pending_requests ≡ none) × (tally (ends k) r.sending ≡ 0)

pub Ledger-at :
    {p p' : Option PendingRequest} {c c' : Option (Channel PendingResponseMessage)} {f f' : ℕ}
    → p' ≡ p
    → c' ≡ c
    → f' ≡ f
    → Ledger p c f
    → Ledger p' c' f'
Ledger-at a b c h = rw (a, b, c) h

-- An id goes.
forgotten :
    (id k : ℕ) (p : Option PendingRequest) (c : Option (Channel PendingResponseMessage)) (f : ℕ)
    → Ledger p c f
    → Ledger (if id == k then none else p) c f
forgotten id k p c f h = elim (Bool-cases (id == k)) [
  | inl e ↦ rw e (Ledger-forgotten p c f h)
  | inr e ↦ rw e h
]

pub forget-IsKept :
    (id k : ℕ) (r : Running) (rest : List ℕ)
    → IsKept k r
    → IsKept k (record r { statics = forget id r.statics; forgetting = rest })
forget-IsKept id k r rest h = record {
  ledger = Ledger-at (get-remove id k r.statics.pending_requests) refl refl (
      forgotten id k (Map.get k r.statics.pending_requests) (Map.get k r.statics.response_channels)
        (tally (ends k) r.sending) h.ledger);
  fresh = λ n. ground (arith, get-remove id k r.statics.pending_requests, h.fresh n);
}

pub notify-IsKept :
    (k : ℕ) (r : Running) (o : Option (Dispatching × List Dispatching))
    → IsKept k r
    → IsKept k (notify r o)
unfolding notify notify_transport_event
notify-IsKept k r none h = h
notify-IsKept k r (some (d, rest)) h =
    elim (Option-cases (Map.get d.server_id r.statics.server_states)) [
      | inl e ↦
          rw (e, notify, notify_transport_event) (record { ledger = h.ledger; fresh = h.fresh })
      | inr (v, e) ↦
          rw (e, notify, notify_transport_event) (record { ledger = h.ledger; fresh = h.fresh })
    ]

pub enqueue-IsKept :
    (server_id k : ℕ) (request : TransportRequest) (r : Running) (ds : List Dispatching)
    → r.statics.next_request_id + 1 < word
    → IsKept k r
    → IsKept k (record r { statics = enqueue server_id request r.statics; dispatching = ds })
unfolding enqueue
enqueue-IsKept server_id k request r ds w h =
    let next = r.statics.next_request_id in
    let p : PendingRequest = record { server_id = server_id; request = some request } in
    let c : Channel PendingResponseMessage = record { sent = []; receiver = true } in
    let ep = get-insert next k p r.statics.pending_requests in
    let ec = get-insert next k c r.statics.response_channels in
    let old = Map.get k r.statics.pending_requests in
    let channel = Map.get k r.statics.response_channels in
    elim (Bool-cases (next == k)) [
      | inl e ↦ record {
        ledger =
            Ledger-at {p = some p} {c = some c} (ep ∙ rw e refl) (ec ∙ rw e refl) refl
              ((h.fresh (ground (arith, e))).1, unfold endings in refl);
        fresh = λ n. absurd (ground (arith, e, n, w));
      }
      | inr e ↦ record {
        ledger = Ledger-at {p = old} {c = channel} (ep ∙ rw e refl) (ec ∙ rw e refl) refl h.ledger;
        fresh =
            λ n. (ep ∙ rw e (h.fresh (ground (arith, n, w))).0, (h.fresh (ground (arith, n, w))).1);
      }
    ]

pub deliver-IsKept :
    (k n : ℕ) (r : Running) (o : Option (Sending × List Sending))
    → pick n r.sending ≡ o
    → IsKept k r
    → IsKept k (deliver r o)
unfolding deliver
deliver-IsKept k n r none e h = h
deliver-IsKept k n r (some (x, rest)) e h = record {
  ledger =
      Ledger-at (ap (Map.get k) (pending-send_response_message x.request_id x.message r.statics))
        (get-send_response_message x.request_id k x.message r.statics) refl
        (go (Map.get k r.statics.pending_requests) (Map.get k r.statics.response_channels)
          h.ledger);
  fresh = λ m. ground (
    arith,
    tally-pick (ends k) n r.sending x rest e,
    h.fresh (unfold send_response_message in ground arith),
    pending-send_response_message x.request_id x.message r.statics,
  );
}
  where
    go :
        (p : Option PendingRequest) (c : Option (Channel PendingResponseMessage))
        → Ledger p c (tally (ends k) r.sending)
        → Ledger p (if x.request_id == k then pushed x.message c else c) (tally (ends k) rest)
    go p c l = elim (Bool-cases (x.request_id == k)) [
      | inl t ↦ rw t (
          Ledger-delivered p c x.message (tally (ends k) rest)
            (Ledger-at refl refl (ground (arith, tally-pick (ends k) n r.sending x rest e)) l))
      | inr t ↦
          rw t (Ledger-at refl refl (ground (arith, tally-pick (ends k) n r.sending x rest e)) l)
    ]
