-- ===== src/Realtime/SocketQueue.antt =====
-- The incoming queue of a WebSocket session of lib.rs: bounded, exact, first in first out.
use dart_edge.Base.{
  ℕ, ◌+◌, ◌≤◌, ◌<◌, ◌≡◌, refl, Bool, ◌&&◌, List, [], ◌∷◌, ◌++◌, Option, none, some, arith, length,
  length-append, total, total-append, leb, ltb, if◌then◌else◌,
}
use mathlib.Core.List.{append_assoc, append-nil}
use dart_edge.Base.Words.{word_max}
use dart_edge.Realtime.WebSocket.{
  WebSocketIncomingMessage, WebSocketSessionState, WebSocketConnection, new_session, push_message,
  take_message,
}

abbrev pub size : WebSocketIncomingMessage → ℕ
size m = length m.body

-- `pending_bytes` counts the queue, and the queue keeps its limits.
pub record IsBounded (s : WebSocketSessionState) : Type 0 where
  pub exact : s.pending_bytes ≡ total size s.messages
  pub few : length s.messages ≤ s.max_pending_messages
  pub small : total size s.messages ≤ s.max_pending_bytes

-- There is room for the message.
abbrev pub has_room : WebSocketIncomingMessage → WebSocketSessionState → Bool
has_room m s =
    ltb (length s.messages) s.max_pending_messages
    && leb (total size s.messages + size m) s.max_pending_bytes

push_message-IsBounded :
    (m : WebSocketIncomingMessage) (s : WebSocketSessionState)
    → s.max_pending_bytes < word_max
    → IsBounded s
    → IsBounded (push_message m s).0
unfolding push_message
push_message-IsBounded m s w h =
    ground (arith, length-append s.messages (m ∷ []), total-append size s.messages (m ∷ []))

-- For a session within its limits, whose limit of bytes is no saturated count: a message is taken in
-- exactly if there is room for it in number and in bytes; then it goes to the end and its bytes are
-- counted, and nothing else of the session changes, and otherwise the session stays as it was.
pub push_message_lem :
    (m : WebSocketIncomingMessage) (s : WebSocketSessionState)
    → s.max_pending_bytes < word_max
    → IsBounded s
    → ((push_message m s).1 ≡ has_room m s)
      × ((push_message m s).0 ≡ (
          if has_room m s
          then record s {
            messages = s.messages ++ m ∷ [];
            pending_bytes = s.pending_bytes + size m;
          }
          else s))
unfolding push_message
push_message_lem m s w h = (ground arith, ground arith)

take_message-IsBounded : (s : WebSocketSessionState) → IsBounded s → IsBounded (take_message s).0
unfolding take_message
take_message-IsBounded s h = ground arith

-- What happens to the queue: a message comes in, or the Dart side takes one.
pub data Traffic : Type 0 where
  arrives : WebSocketIncomingMessage → Traffic
  taken : Traffic

abbrev taken_now : Option WebSocketIncomingMessage → List WebSocketIncomingMessage
taken_now none = []
taken_now (some m) = m ∷ []

-- The session after the traffic, what it has accepted and what has been handed over, in order.
pub record Log : Type 0 where
  pub session : WebSocketSessionState
  pub accepted : List WebSocketIncomingMessage
  pub handed : List WebSocketIncomingMessage

unfoldable pub traffic_step : Log → Traffic → Log
traffic_step l (arrives m) =
    let (s, accepted) = push_message m l.session in
    record l { session = s; accepted = if accepted then l.accepted ++ m ∷ [] else l.accepted }
traffic_step l taken =
    let (s, m) = take_message l.session in
    record l { session = s; handed = l.handed ++ taken_now m }

unfoldable pub traffic_run : Log → List Traffic → Log
traffic_run l [] = l
traffic_run l (t ∷ ts) = traffic_run (traffic_step l t) ts

-- The invariant of a log, with the limits that it started with.
pub record IsFaithful (messages bytes : ℕ) (l : Log) : Type 0 where
  pub bounded : IsBounded l.session
  pub max_messages : l.session.max_pending_messages ≡ messages
  pub max_bytes : l.session.max_pending_bytes ≡ bytes
  pub in_order : l.accepted ≡ l.handed ++ l.session.messages

push-IsFaithful :
    (n b : ℕ) (l : Log) (m : WebSocketIncomingMessage)
    → b < word_max
    → IsFaithful n b l
    → IsFaithful n b (traffic_step l (arrives m))
unfolding traffic_step push_message
push-IsFaithful n b l m w h =
    let kept = push_message-IsBounded m l.session (omega (arith, h.max_bytes)) h.bounded in
    record {
      bounded = kept;
      max_messages = ground arith;
      max_bytes = ground arith;
      in_order = ground (arith, h.in_order, append_assoc l.handed l.session.messages (m ∷ []));
    }

take-IsFaithful : (n b : ℕ) (l : Log) → IsFaithful n b l → IsFaithful n b (traffic_step l taken)
unfolding traffic_step take_message
take-IsFaithful n b l h = go l.session.messages refl
  where
    go :
        (ms : List WebSocketIncomingMessage)
        → l.session.messages ≡ ms
        → IsFaithful n b (traffic_step l taken)
    go [] e = record {
      bounded = take_message-IsBounded l.session h.bounded;
      max_messages = ground arith;
      max_bytes = ground arith;
      in_order = ground (arith, h.in_order, append-nil l.handed);
    }
    go (m ∷ rest) e = record {
      bounded = take_message-IsBounded l.session h.bounded;
      max_messages = ground arith;
      max_bytes = ground arith;
      in_order = ground (arith, h.in_order, append_assoc l.handed (m ∷ []) rest);
    }

traffic_run_kept-IsFaithful :
    (n b : ℕ) (l : Log) (ts : List Traffic)
    → b < word_max
    → IsFaithful n b l
    → IsFaithful n b (traffic_run l ts)
unfolding traffic_run
traffic_run_kept-IsFaithful n b l [] w h = h
traffic_run_kept-IsFaithful n b l (arrives m ∷ ts) w h =
    traffic_run_kept-IsFaithful n b (traffic_step l (arrives m)) ts w (push-IsFaithful n b l m w h)
traffic_run_kept-IsFaithful n b l (taken ∷ ts) w h =
    traffic_run_kept-IsFaithful n b (traffic_step l taken) ts w (take-IsFaithful n b l h)

-- The log of a session that has just been made.
abbrev pub new_log : ℕ → WebSocketConnection → ℕ → ℕ → Log
new_log server_id connection n b = record {
  session = new_session server_id connection n b;
  accepted = [];
  handed = [];
}

-- Whatever messages come in for a session and whenever the Dart side takes one, with a byte limit
-- below 2^64 - 1: the count of pending bytes is the size of the queue, the queue holds at most
-- `max_pending_messages` messages and `max_pending_bytes` bytes, and the messages handed over,
-- followed by those in the queue, are the messages that were accepted, in their order.
pub traffic_run-IsFaithful :
    (server_id : ℕ) (connection : WebSocketConnection) (n b : ℕ) (ts : List Traffic)
    → b < word_max
    → IsFaithful n b (traffic_run (new_log server_id connection n b) ts)
unfolding new_session
traffic_run-IsFaithful server_id connection n b ts w =
    let start : IsFaithful n b (new_log server_id connection n b) = record {
      bounded = record { exact = refl; few = omega arith; small = omega arith };
      max_messages = refl;
      max_bytes = refl;
      in_order = refl;
    } in
    traffic_run_kept-IsFaithful n b (new_log server_id connection n b) ts w start
