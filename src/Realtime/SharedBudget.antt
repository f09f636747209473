-- ===== src/Realtime/SharedBudget.antt =====
-- The datagrams and streams that have come in for a WebTransport session of lib.rs share one budget.
use dart_edge.Base.{
  ℕ, ◌+◌, ◌≤◌, ◌<◌, ◌≡◌, refl, List, [], ◌∷◌, ◌++◌, Option, none, some, arith, length,
  length-append, total, total-append, if◌then◌else◌,
}
use mathlib.Core.List.{append_assoc, append-nil}
use dart_edge.Base.Words.{word_max}
use dart_edge.Realtime.WebTransport.{
  WebTransportIncomingDatagram, WebTransportIncomingStream, WebTransportSessionState,
  WebTransportConnectionInfo, new_transport_session, push_datagram, push_stream, take_datagram,
  take_stream,
}

abbrev pub datagram_size : WebTransportIncomingDatagram → ℕ
datagram_size d = length d.body

abbrev pub stream_size : WebTransportIncomingStream → ℕ
stream_size s = length s.body

-- The two queues together keep the limits, and `pending_bytes` counts both.
pub record IsWithin (s : WebTransportSessionState) : Type 0 where
  pub exact : s.pending_bytes ≡ total datagram_size s.datagrams + total stream_size s.streams
  pub few : length s.datagrams + length s.streams ≤ s.max_pending_messages
  pub small : total datagram_size s.datagrams + total stream_size s.streams ≤ s.max_pending_bytes

pub data Arrival : Type 0 where
  datagram_arrives : WebTransportIncomingDatagram → Arrival
  stream_arrives : WebTransportIncomingStream → Arrival
  datagram_taken stream_taken : Arrival

abbrev pub listed {ℓ} : {A : Type ℓ} → Option A → List A
listed none = []
listed (some a) = a ∷ []

-- The session, and for both kinds what it has accepted and what has been handed over, in order.
pub record Account : Type 0 where
  pub session : WebTransportSessionState
  pub datagrams_accepted : List WebTransportIncomingDatagram
  pub datagrams_handed : List WebTransportIncomingDatagram
  pub streams_accepted : List WebTransportIncomingStream
  pub streams_handed : List WebTransportIncomingStream

unfoldable pub account_step : Account → Arrival → Account
account_step a (datagram_arrives d) =
    let (s, accepted) = push_datagram d a.session in
    record a {
      session = s;
      datagrams_accepted =
          if accepted then a.datagrams_accepted ++ d ∷ [] else a.datagrams_accepted;
    }
account_step a (stream_arrives d) =
    let (s, accepted) = push_stream d a.session in
    record a {
      session = s;
      streams_accepted = if accepted then a.streams_accepted ++ d ∷ [] else a.streams_accepted;
    }
account_step a datagram_taken =
    let (s, d) = take_datagram a.session in
    record a { session = s; datagrams_handed = a.datagrams_handed ++ listed d }
account_step a stream_taken =
    let (s, d) = take_stream a.session in
    record a { session = s; streams_handed = a.streams_handed ++ listed d }

unfoldable pub account_run : Account → List Arrival → Account
account_run a [] = a
account_run a (x ∷ xs) = account_run (account_step a x) xs

-- The invariant of an account, with the limits that it started with.
pub record IsSettled (messages bytes : ℕ) (a : Account) : Type 0 where
  pub within : IsWithin a.session
  pub max_messages : a.session.max_pending_messages ≡ messages
  pub max_bytes : a.session.max_pending_bytes ≡ bytes
  pub datagrams_in_order : a.datagrams_accepted ≡ a.datagrams_handed ++ a.session.datagrams
  pub streams_in_order : a.streams_accepted ≡ a.streams_handed ++ a.session.streams

datagram_arrives-IsSettled :
    (n b : ℕ) (a : Account) (d : WebTransportIncomingDatagram)
    → n < word_max
    → b < word_max
    → IsSettled n b a
    → IsSettled n b (account_step a (datagram_arrives d))
unfolding account_step push_datagram
datagram_arrives-IsSettled n b a d v w h = ground (
  arith,
  append_assoc a.datagrams_handed a.session.datagrams (d ∷ []),
  length-append a.session.datagrams (d ∷ []),
  total-append datagram_size a.session.datagrams (d ∷ []),
)

stream_arrives-IsSettled :
    (n b : ℕ) (a : Account) (d : WebTransportIncomingStream)
    → n < word_max
    → b < word_max
    → IsSettled n b a
    → IsSettled n b (account_step a (stream_arrives d))
unfolding account_step push_stream
stream_arrives-IsSettled n b a d v w h = ground (
  arith,
  append_assoc a.streams_handed a.session.streams (d ∷ []),
  length-append a.session.streams (d ∷ []),
  total-append stream_size a.session.streams (d ∷ []),
)

datagram_taken-IsSettled :
    (n b : ℕ) (a : Account) → IsSettled n b a → IsSettled n b (account_step a datagram_taken)
unfolding account_step take_datagram
datagram_taken-IsSettled n b a h = go a.session.datagrams refl
  where
    go :
        (ds : List WebTransportIncomingDatagram)
        → a.session.datagrams ≡ ds
        → IsSettled n b (account_step a datagram_taken)
    go [] e = ground (arith, append-nil a.datagrams_handed)
    go (d ∷ ds) e = ground (arith, append_assoc a.datagrams_handed (d ∷ []) ds)

stream_taken-IsSettled :
    (n b : ℕ) (a : Account) → IsSettled n b a → IsSettled n b (account_step a stream_taken)
unfolding account_step take_stream
stream_taken-IsSettled n b a h = go a.session.streams refl
  where
    go :
        (ds : List WebTransportIncomingStream)
        → a.session.streams ≡ ds
        → IsSettled n b (account_step a stream_taken)
    go [] e = ground (arith, append-nil a.streams_handed)
    go (d ∷ ds) e = ground (arith, append_assoc a.streams_handed (d ∷ []) ds)

account_run_kept-IsSettled :
    (n b : ℕ) (a : Account) (xs : List Arrival)
    → n < word_max
    → b < word_max
    → IsSettled n b a
    → IsSettled n b (account_run a xs)
unfolding account_run
account_run_kept-IsSettled n b a [] v w h = h
account_run_kept-IsSettled n b a (datagram_arrives d ∷ xs) v w h =
    account_run_kept-IsSettled n b (account_step a (datagram_arrives d)) xs v w
      (datagram_arrives-IsSettled n b a d v w h)
account_run_kept-IsSettled n b a (stream_arrives d ∷ xs) v w h =
    account_run_kept-IsSettled n b (account_step a (stream_arrives d)) xs v w
      (stream_arrives-IsSettled n b a d v w h)
account_run_kept-IsSettled n b a (datagram_taken ∷ xs) v w h =
    account_run_kept-IsSettled n b (account_step a datagram_taken) xs v w
      (datagram_taken-IsSettled n b a h)
account_run_kept-IsSettled n b a (stream_taken ∷ xs) v w h =
    account_run_kept-IsSettled n b (account_step a stream_taken) xs v w
      (stream_taken-IsSettled n b a h)

-- The account of a session that has just been made.
abbrev pub new_account : ℕ → WebTransportConnectionInfo → ℕ → ℕ → Account
new_account server_id connection n b = record {
  session = new_transport_session server_id connection n b;
  datagrams_accepted = [];
  datagrams_handed = [];
  streams_accepted = [];
  streams_handed = [];
}

-- Whatever datagrams and streams come in for a WebTransport session and whenever the Dart side takes
-- one of either, with limits below 2^64 - 1: the two queues together hold at most
-- `max_pending_messages` entries and `max_pending_bytes` bytes, `pending_bytes` is the size of both,
-- and in each kind what was handed over, followed by the queue, is what was accepted, in its order.
pub account_run-IsSettled :
    (server_id : ℕ) (connection : WebTransportConnectionInfo) (n b : ℕ) (xs : List Arrival)
    → n < word_max
    → b < word_max
    → IsSettled n b (account_run (new_account server_id connection n b) xs)
unfolding new_transport_session
account_run-IsSettled server_id connection n b xs v w =
    let start : IsSettled n b (new_account server_id connection n b) = ground arith in
    account_run_kept-IsSettled n b (new_account server_id connection n b) xs v w start
