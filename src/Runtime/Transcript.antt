-- ===== src/Runtime/Transcript.antt =====
-- The messages of lib.rs that end a request, and what a send does to a response channel.
use dart_edge.Base.{
  ℕ, ◌≡◌, Bool, true, false, inl, inr, Option, none, some, arith, Option-cases, if◌then◌else◌, ◌==◌,
}
use dart_edge.Base.Keys.{nat_eq}
use dart_edge.Base.Map
use dart_edge.Base.Map.{Map, get-insert, get-remove}
use dart_edge.Runtime.Message.{
  PendingResponseMessage, http_response, native_binary_start, web_socket_accept, close,
}
use dart_edge.Runtime.Channel.{Channel, send}
use dart_edge.Runtime.Statics.{Statics}
use dart_edge.Runtime.Pending.{
  Answer, send_response_message, message_of, sends_sse_chunk, starts_binary, sends_binary_chunk,
  starts_native_binary, sends_response,
}

-- After the message the Dart side has no more to say.
abbrev pub is_last : PendingResponseMessage → Bool
is_last (http_response _) = true
is_last (native_binary_start _ _ _ _ _) = true
is_last (web_socket_accept _) = true
is_last close = true
is_last _ = false

pub message_of-is_last :
    (a : Answer) (m : PendingResponseMessage) (last : Bool)
    → message_of a ≡ some (m, last)
    → is_last m ≡ last
unfolding message_of
message_of-is_last (sends_sse_chunk none) m last h = cc
message_of-is_last (sends_sse_chunk (some c)) m last h = ground arith
message_of-is_last (starts_binary st none l hs) m last h = cc
message_of-is_last (starts_binary st (some c) l hs) m last h = ground arith
message_of-is_last (sends_binary_chunk none) m last h = cc
message_of-is_last (sends_binary_chunk (some c)) m last h = ground arith
message_of-is_last (starts_native_binary st none l hs x) m last h = cc
message_of-is_last (starts_native_binary st (some c) l hs none) m last h = cc
message_of-is_last (starts_native_binary st (some c) l hs (some x)) m last h = ground arith
message_of-is_last (sends_response st none b hs) m last h = cc
message_of-is_last (sends_response st (some c) none hs) m last h = cc
message_of-is_last (sends_response st (some c) (some b) hs) m last h = ground arith
message_of-is_last _ m last h = ground arith

-- What a send does to the channel of one request.
abbrev pub pushed :
    PendingResponseMessage
    → Option (Channel PendingResponseMessage)
    → Option (Channel PendingResponseMessage)
pushed m none = none
pushed m (some c) = some (send c m).0

pub get-send_response_message :
    (id k : ℕ) (m : PendingResponseMessage) (s : Statics)
    → Map.get k (send_response_message id m s).0.response_channels ≡ (
        if id == k then pushed m (Map.get k s.response_channels) else Map.get k s.response_channels)
unfolding send_response_message
get-send_response_message id k m s = elim (Option-cases (Map.get id s.response_channels)) [
  | inl e ↦ ground (arith)
  | inr (c, e) ↦ ground (arith, get-insert id k (send c m).0 s.response_channels)
]

pub pending-send_response_message :
    (id : ℕ) (m : PendingResponseMessage) (s : Statics)
    → (send_response_message id m s).0.pending_requests ≡ s.pending_requests
unfolding send_response_message
pending-send_response_message id m s = ground arith
