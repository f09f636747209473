-- ===== src/Runtime/Ledger.antt =====
-- What is kept of one request while its calls are on their way: the messages that end it, sent or
-- about to be sent.
use dart_edge.Base.{
  ℕ, zero, suc, ap, ◌∙◌, ◌+◌, ◌≤◌, ◌≡◌, refl, Bool, true, false, inl, inr, ◌⊎◌, List, [], ◌∷◌, ◌++◌,
  length-append, Option, none, some, arith, length, Bool-cases, if◌then◌else◌,
}
use mathlib.Core.List.{append-nil}
use dart_edge.Runtime.Message.{PendingResponseMessage, http_response, close}
use dart_edge.Runtime.Channel.{Channel, send}
use dart_edge.Runtime.Statics.{PendingRequest}
use dart_edge.Runtime.Pending.{server_stopped}
use dart_edge.Runtime.Transcript.{is_last, pushed}
use dart_edge.Runtime.Steps.{pick}

-- How many elements pass the test.
unfoldable pub tally : {A : Type 0} → (A → Bool) → List A → ℕ
tally p [] = 0
tally p (x ∷ xs) = (if p x then 1 else 0) + tally p xs

pub tally-pick :
    {A : Type 0} (p : A → Bool) (n : ℕ) (xs : List A) (x : A) (rest : List A)
    → pick n xs ≡ some (x, rest)
    → tally p xs ≡ (if p x then 1 else 0) + tally p rest
unfolding tally pick
tally-pick p n [] x rest h = cc
tally-pick p zero (y ∷ ys) x rest h = ground arith
tally-pick p (suc n) (y ∷ ys) x rest h = go (pick n ys) refl (tally-pick p n ys)
  where
    go :
        (o : Option (_ × _))
        → pick n ys ≡ o
        → ((z : _) (zs : List _)
            → pick n ys ≡ some (z, zs)
            → tally p ys ≡ (if p z then 1 else 0) + tally p zs)
        → tally p (y ∷ ys) ≡ (if p x then 1 else 0) + tally p rest
    go none e ih = absurd (cc (rw (e, pick) at h))
    go (some (z, zs)) e ih = ground (arith, ih z zs e, rw (e, pick) at h)

-- The messages that end a request.
unfoldable pub endings : List PendingResponseMessage → List PendingResponseMessage
endings [] = []
endings (m ∷ ms) = if is_last m then m ∷ endings ms else endings ms

pub endings-snoc :
    (ms : List PendingResponseMessage) (m : PendingResponseMessage)
    → endings (ms ++ m ∷ []) ≡ endings ms ++ (if is_last m then m ∷ [] else [])
unfolding endings
endings-snoc [] m = refl
endings-snoc (x ∷ ms) m = ground (arith, endings-snoc ms m)

endings-open :
    (ms : List PendingResponseMessage) (m : PendingResponseMessage)
    → is_last m ≡ false
    → endings (ms ++ m ∷ []) ≡ endings ms
endings-open ms m e = endings-snoc ms m ∙ rw e (append-nil (endings ms))

length-endings-last :
    (ms : List PendingResponseMessage) (m : PendingResponseMessage)
    → is_last m ≡ true
    → length (endings (ms ++ m ∷ [])) ≡ length (endings ms) + 1
length-endings-last ms m e =
    ap length (endings-snoc ms m) ∙ rw e (length-append (endings ms) (m ∷ []))

-- The two messages of a server that stops.
abbrev pub goodbye : List PendingResponseMessage
goodbye = http_response server_stopped ∷ close ∷ []

-- At most one message ends the request, or the two of a server that stops do.
abbrev pub EndsOnce : List PendingResponseMessage → Type 0
EndsOnce ms = (length ms ≤ 1) ⊎ (ms ≡ goodbye)

-- `f` messages that end the request are about to be sent. A request that is pending has had none.
abbrev pub Ledger : Option PendingRequest → Option (Channel PendingResponseMessage) → ℕ → Type 0
Ledger none none f = Unit
Ledger (some p) none f = f ≡ 0
Ledger none (some c) f = (length (endings c.sent) + f ≤ 1) ⊎ ((f ≡ 0) × (endings c.sent ≡ goodbye))
Ledger (some p) (some c) f = (f ≡ 0) × (endings c.sent ≡ [])

pub Ledger-forgotten :
    (p : Option PendingRequest) (c : Option (Channel PendingResponseMessage)) (f : ℕ)
    → Ledger p c f
    → Ledger none c f
Ledger-forgotten none c f h = h
Ledger-forgotten (some p) none f h = tt
Ledger-forgotten (some p) (some c) f (e, g) = inl (rw (e, g) (omega arith))

pub Ledger-taken :
    (p q : PendingRequest) (c : Option (Channel PendingResponseMessage)) (f : ℕ)
    → Ledger (some p) c f
    → Ledger (some q) c f
Ledger-taken p q none f h = h
Ledger-taken p q (some c) f h = h

-- The call that takes the sender away has the last message.
pub Ledger-claimed :
    (p : PendingRequest) (c : Option (Channel PendingResponseMessage)) (f : ℕ)
    → Ledger (some p) c f
    → Ledger none c (1 + f)
Ledger-claimed p none f h = tt
Ledger-claimed p (some c) f (e, g) = inl (rw (e, g) (omega arith))

pub Ledger-delivered :
    (p : Option PendingRequest) (c : Option (Channel PendingResponseMessage))
    (m : PendingResponseMessage) (f : ℕ)
    → Ledger p c ((if is_last m then 1 else 0) + f)
    → Ledger p (pushed m c) f
unfolding send
Ledger-delivered none none m f h = tt
Ledger-delivered (some p) none m f h = ground arith
Ledger-delivered none (some c) m f h = elim (Bool-cases c.receiver) [
  | inl t ↦ elim (Bool-cases (is_last m)) [
    | inl e ↦ rw t (ground (arith, length-endings-last c.sent m e, rw e at h))
    | inr e ↦ rw (t, endings-open c.sent m e) (ground (arith, rw e at h))
  ]
  | inr t ↦ rw t (ground (arith, h))
]
Ledger-delivered (some p) (some c) m f h = ground (arith, endings-snoc c.sent m)

pub Ledger-stopped :
    (p : PendingRequest) (c : Option (Channel PendingResponseMessage)) (f : ℕ)
    → Ledger (some p) c f
    → Ledger none (pushed close (pushed (http_response server_stopped) c)) f
unfolding send
Ledger-stopped p none f h = tt
Ledger-stopped p (some c) f (e, g) = elim (Bool-cases c.receiver) [
  | inl t ↦ rw t (
      inr (
        e,
        ground (
          arith,
          g,
          endings-snoc (c.sent ++ http_response server_stopped ∷ []) close,
          endings-snoc c.sent (http_response server_stopped),
        ),
      ))
  | inr t ↦ rw t (inl (rw (e, g) (omega arith)))
]

pub Ledger-receiver :
    (p : Option PendingRequest) (c : Channel PendingResponseMessage) (f : ℕ)
    → Ledger p (some c) f
    → Ledger p (some (record c { receiver = false })) f
Ledger-receiver none c f h = h
Ledger-receiver (some p) c f h = h
