-- ===== src/Runtime/Claimed.antt =====
-- What a call of lib.rs that finds a request pending, or stops its server, keeps of the request.
use dart_edge.Base.{
  ℕ, ◌+◌, ◌≡◌, refl, ◌∙◌, subst, Bool, false, inl, inr, List, ◌∷◌, Option, none, some, arith,
  is_some, Bool-cases, Option-cases, if◌then◌else◌, ◌==◌, ◌&&◌,
}
use dart_edge.Base.Keys.{nat_eq}
use dart_edge.Base.Map
use dart_edge.Base.Map.{Map, get-insert, get-remove}
use dart_edge.Runtime.Message.{PendingResponseMessage, http_response, close}
use dart_edge.Runtime.Channel.{Channel}
use dart_edge.Runtime.Statics.{PendingRequest}
use dart_edge.Runtime.Pending.{forget, take_request, requests_of, stop_pending, server_stopped}
use dart_edge.Runtime.Calls.{hang_up}
use dart_edge.Runtime.Transcript.{is_last, pushed}
use dart_edge.Runtime.Handover.{stop_requests-next}
use dart_edge.Runtime.Stopping.{is_listed, stop_requests-pending, stop_requests-channels}
use dart_edge.Runtime.Steps.{Sending, Running, claim}
use dart_edge.Runtime.Ledger.{
  tally, Ledger, Ledger-taken, Ledger-claimed, Ledger-stopped, Ledger-receiver,
}
use dart_edge.Runtime.Kept.{ends, IsKept, Ledger-at}

pub claim-IsKept :
    (id k : ℕ) (m : PendingResponseMessage) (last : Bool) (r : Running)
    → is_last m ≡ last
    → IsKept k r
    → IsKept k (claim id m last r)
unfolding claim
claim-IsKept id k m last r e h = elim (Option-cases (Map.get id r.statics.pending_requests)) [
  | inl g ↦ rw (g, claim) h
  | inr (p, g) ↦ rw (g, claim) (claimed p g)
]
  where
    x : Sending
    x = record { request_id = id; message = m; remove = last }

    claimed :
        (p : PendingRequest)
        → Map.get id r.statics.pending_requests ≡ some p
        → IsKept k (record r {
          statics = if last then forget id r.statics else r.statics;
          sending = x ∷ r.sending;
        })
    claimed p g =
        let old = Map.get k r.statics.pending_requests in
        let channel = Map.get k r.statics.response_channels in
        let f = tally (ends k) r.sending in
        elim (Bool-cases (id == k)) [
          | inl t ↦
              let here : old ≡ some p = ground (arith, t, g) in
              let before = subst (λ o. Ledger o channel f) here h.ledger in
              elim (Bool-cases last) [
                | inl u ↦
                    let gone : Map.get k (forget id r.statics).pending_requests ≡ none =
                      ground (arith, get-remove id k r.statics.pending_requests, t) in
                    rw u (record {
                      ledger =
                          Ledger-at {p = none} {c = channel} {f = 1 + f} gone refl
                            (unfold tally in ground (arith, e, t, u))
                            (Ledger-claimed p channel f before);
                      fresh = λ n. absurd (ground (arith, here, h.fresh n));
                    })
                | inr u ↦ rw u (record {
                  ledger =
                      Ledger-at {p = some p} {c = channel} {f = f} here refl
                        (unfold tally in ground (arith, e, t, u)) before;
                  fresh = λ n. absurd (ground (arith, here, h.fresh n));
                })
              ]
          | inr t ↦
              let same : Map.get k
                    (if last then forget id r.statics else r.statics).pending_requests
                  ≡ old =
                ground (arith, get-remove id k r.statics.pending_requests, t) in
              let less : tally (ends k) (x ∷ r.sending) ≡ f = unfold tally in ground (arith, t) in
              record {
                ledger = Ledger-at {p = old} {c = channel} same (ground arith) less h.ledger;
                fresh = λ n. (
                  same ∙ (h.fresh (ground (arith, n))).0,
                  less ∙ (h.fresh (ground (arith, n))).1,
                );
              }
        ]

pub take-IsKept :
    (id k : ℕ) (r : Running)
    → IsKept k r
    → IsKept k (record r { statics = (take_request id r.statics).0 })
unfolding take_request
take-IsKept id k r h = elim (Option-cases (Map.get id r.statics.pending_requests)) [
  | inl e ↦ rw (e, take_request) (record { ledger = h.ledger; fresh = h.fresh })
  | inr (p, e) ↦
      rw (e, take_request)
        (elim (Option-cases p.request) [
          | inl f ↦ rw f (record { ledger = h.ledger; fresh = h.fresh })
          | inr (q, f) ↦ rw f (taken p (record p { request = none }) e)
        ])
]
  where
    taken :
        (p q : PendingRequest)
        → Map.get id r.statics.pending_requests ≡ some p
        → IsKept k (record r {
          statics = record r.statics {
            pending_requests = Map.insert id q r.statics.pending_requests;
          };
        })
    taken p q e =
        let eq = get-insert id k q r.statics.pending_requests in
        let channel = Map.get k r.statics.response_channels in
        let f = tally (ends k) r.sending in
        elim (Bool-cases (id == k)) [
          | inl t ↦
              let here : Map.get k r.statics.pending_requests ≡ some p = ground (arith, t, e) in
              record {
                ledger =
                    Ledger-at {p = some q} {c = channel} (eq ∙ rw t refl) refl refl
                      (Ledger-taken p q channel f (subst (λ o. Ledger o channel f) here h.ledger));
                fresh = λ n. absurd (ground (arith, here, h.fresh n));
              }
          | inr t ↦ record {
            ledger =
                Ledger-at {p = Map.get k r.statics.pending_requests} {c = channel} (eq ∙ rw t refl)
                  refl refl h.ledger;
            fresh = λ n. (eq ∙ rw t (h.fresh n).0, (h.fresh n).1);
          }
        ]

pub hang_up-IsKept :
    (id k : ℕ) (r : Running) → IsKept k r → IsKept k (record r { statics = hang_up id r.statics })
unfolding hang_up
hang_up-IsKept id k r h = elim (Option-cases (Map.get id r.statics.response_channels)) [
  | inl e ↦ rw (e, hang_up) (record { ledger = h.ledger; fresh = h.fresh })
  | inr (c, e) ↦ rw (e, hang_up) (hung c e)
]
  where
    hung :
        (c : Channel PendingResponseMessage)
        → Map.get id r.statics.response_channels ≡ some c
        → IsKept k (record r {
          statics = record r.statics {
            response_channels =
                Map.insert id (record c { receiver = false }) r.statics.response_channels;
          };
        })
    hung c e =
        let d : Channel PendingResponseMessage = record c { receiver = false } in
        let eq = get-insert id k d r.statics.response_channels in
        let old = Map.get k r.statics.pending_requests in
        let f = tally (ends k) r.sending in
        elim (Bool-cases (id == k)) [
          | inl t ↦
              let here : Map.get k r.statics.response_channels ≡ some c = ground (arith, t, e) in
              record {
                ledger =
                    Ledger-at {p = old} {c = some d} refl (eq ∙ rw t refl) refl
                      (Ledger-receiver old c f (subst (λ o. Ledger old o f) here h.ledger));
                fresh = h.fresh;
              }
          | inr t ↦ record {
            ledger =
                Ledger-at {p = old} {c = Map.get k r.statics.response_channels} refl
                  (eq ∙ rw t refl) refl h.ledger;
            fresh = h.fresh;
          }
        ]

pub stop_pending-IsKept :
    (server_id k : ℕ) (r : Running)
    → IsKept k r
    → IsKept k (record r { statics = stop_pending server_id r.statics })
unfolding stop_pending
stop_pending-IsKept server_id k r h = record {
  ledger =
      Ledger-at (stop_requests-pending ids k r.statics) (stop_requests-channels ids k r.statics)
        refl
        (go (Map.get k r.statics.pending_requests) (Map.get k r.statics.response_channels)
          (tally (ends k) r.sending) h.ledger);
  fresh = λ n. ground (
    arith,
    stop_requests-pending ids k r.statics,
    h.fresh (ground (arith, n, stop_requests-next ids r.statics)),
  );
}
  where
    ids : List ℕ
    ids = requests_of server_id r.statics.pending_requests

    go :
        (p : Option PendingRequest) (c : Option (Channel PendingResponseMessage)) (f : ℕ)
        → Ledger p c f
        → Ledger
            (if is_listed k ids then none else p)
            (if is_listed k ids && is_some p
              then pushed close (pushed (http_response server_stopped) c)
              else c)
            f
    go none c f l = elim (Bool-cases (is_listed k ids)) [ inl t ↦ rw t l | inr t ↦ rw t l ]
    go (some p) c f l = elim (Bool-cases (is_listed k ids)) [
      | inl t ↦ rw t (Ledger-stopped p c f l)
      | inr t ↦ rw t l
    ]
