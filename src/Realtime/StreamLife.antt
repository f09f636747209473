-- ===== src/Realtime/StreamLife.antt =====
-- The table of WebTransport streams of lib.rs, after any steps of its tasks and its callers.
use dart_edge.Base.{
  ℕ, ◌≤◌, ◌<◌, ◌≡◌, sym, subst, Bool, false, List, [], ◌∷◌, Option, none, inl, inr, arith, length,
  length-append, Bool-cases, Option-cases, ◌==◌,
}
use dart_edge.Base.Keys.{nat_eq}
use dart_edge.Base.Map
use dart_edge.Base.Map.{
  Map, Every, get-Every, insert-Every, remove-Every, remove-insert-Every, modify-Every,
}
use dart_edge.Text.Bytes.{Bytes, Str}
use dart_edge.Realtime.Operation.{WebTransportStreamTerminal}
use dart_edge.Realtime.Stream.{
  WebTransportStreamCommand, write, finish, reset, WebTransportStreamState, Actor, Reader,
  Transport, is_complete, remove_if_complete, enter, push_operation,
}
use dart_edge.Realtime.Tasks.{
  update, close_send, actor_step, process_command, command_parts, end_receive, push_legacy,
  end_reading, add_chunk, extend_legacy, is_full, read_piece, read_chunk, without_session,
}
use dart_edge.Realtime.StreamCalls.{pop_chunk, take_chunk, take_terminal}

-- A stream in the table has a direction open or something to be taken, and keeps its limits.
pub record IsLive (s : WebTransportStreamState) : Type 0 where
  pub incomplete : is_complete s ≡ false
  pub few : length s.chunks ≤ s.max_pending_messages
  pub small : s.pending_bytes ≤ s.max_pending_bytes

abbrev pub AreLive : Transport → Type 0
AreLive t = Every IsLive t.streams

-- The limits, for a stream that may be complete.
abbrev Fits : WebTransportStreamState → Type 0
Fits s = (length s.chunks ≤ s.max_pending_messages) × (s.pending_bytes ≤ s.max_pending_bytes)

settle-AreLive :
    (id : ℕ) (s : WebTransportStreamState) (t : Transport)
    → AreLive t
    → Fits s
    → AreLive (remove_if_complete id (record t { streams = Map.insert id s t.streams }))
unfolding remove_if_complete
settle-AreLive id s t h f =
    rw (Map.get-insert_self id s t.streams, remove_if_complete)
      (elim (Bool-cases (is_complete s)) [
        | inl e ↦ rw e (remove-insert-Every IsLive id s t.streams h)
        | inr e ↦ rw e (
            insert-Every IsLive id s t.streams (record { incomplete = e; few = f.0; small = f.1 })
              h)
      ])

remove_if_complete-AreLive :
    (id : ℕ) (t : Transport) → AreLive t → AreLive (remove_if_complete id t)
unfolding remove_if_complete
remove_if_complete-AreLive id t h = elim (Option-cases (Map.get id t.streams)) [
  | inl e ↦ rw (e, remove_if_complete) h
  | inr (s, e) ↦ elim (Bool-cases (is_complete s)) [
    | inl c ↦ rw (e, remove_if_complete, c) (remove-Every IsLive id t.streams h)
    | inr c ↦ rw (e, remove_if_complete, c) h
  ]
]

push_legacy-streams : (reader : Reader) (t : Transport) → (push_legacy reader t).streams ≡ t.streams
unfolding push_legacy
push_legacy-streams reader t = ground arith

pop_chunk-Fits : (s : WebTransportStreamState) → Fits s → Fits (pop_chunk s).0
unfolding pop_chunk
pop_chunk-Fits s f = ground arith

pub take_chunk-AreLive : (id : ℕ) (t : Transport) → AreLive t → AreLive (take_chunk id t).0
unfolding take_chunk
take_chunk-AreLive id t h = elim (Option-cases (Map.get id t.streams)) [
  | inl e ↦ rw (e, take_chunk) (remove_if_complete-AreLive id t h)
  | inr (s, e) ↦
      let l = get-Every IsLive id s t.streams h e in
      rw (e, take_chunk) (settle-AreLive id (pop_chunk s).0 t h (pop_chunk-Fits s (l.few, l.small)))
]

pub take_terminal-AreLive : (id : ℕ) (t : Transport) → AreLive t → AreLive (take_terminal id t).0
unfolding take_terminal
take_terminal-AreLive id t h = elim (Option-cases (Map.get id t.streams)) [
  | inl e ↦ rw (e, take_terminal) (remove_if_complete-AreLive id t h)
  | inr (s, e) ↦
      let l = get-Every IsLive id s t.streams h e in
      rw (e, take_terminal) (settle-AreLive id (record s { terminal = none }) t h (l.few, l.small))
]

pub without_session-Every :
    (id : ℕ) (m : Map ℕ WebTransportStreamState)
    → Every IsLive m
    → Every IsLive (without_session id m)
without_session-Every id [] h = tt
without_session-Every id ((k, s) ∷ m) h = elim (Bool-cases (s.info.session_id == id)) [
  | inl e ↦ rw e (without_session-Every id m h.1)
  | inr e ↦ rw e (h.0, without_session-Every id m h.1)
]

end_receive-IsLive :
    (terminal : WebTransportStreamTerminal) (s : WebTransportStreamState)
    → IsLive s
    → IsLive (end_receive terminal s)
unfolding is_complete
end_receive-IsLive terminal s l = ground arith

pub end_reading-AreLive :
    (reader : Reader) (terminal : WebTransportStreamTerminal) (t : Transport)
    → AreLive t
    → AreLive (end_reading reader terminal t)
unfolding end_reading
end_reading-AreLive reader terminal t h =
    let id = reader.info.stream_id in
    let u = record t { readers = Map.remove id t.readers } in
    modify-Every IsLive id (end_receive terminal) (push_legacy reader u).streams
      (end_receive-IsLive terminal) (subst (Every IsLive) (sym (push_legacy-streams reader u)) h)

add_chunk-IsLive :
    (body : Bytes) (n : ℕ) (s : WebTransportStreamState)
    → length s.chunks < s.max_pending_messages
    → n ≤ s.max_pending_bytes
    → IsLive s
    → IsLive (add_chunk body n s)
unfolding is_complete
add_chunk-IsLive body n s few small l = ground (arith, length-append s.chunks (body ∷ []))

chunk-AreLive :
    (reader extended : Reader) (body : Bytes) (s : WebTransportStreamState) (t : Transport)
    → AreLive t
    → IsLive s
    → AreLive (read_piece reader extended body s t)
unfolding read_piece
chunk-AreLive reader extended body s t h l = elim (Bool-cases (is_full s (length body))) [
  | inl e ↦ rw (e, read_piece) (end_reading-AreLive extended _ t h)
  | inr e ↦
      rw (e, read_piece)
        (insert-Every IsLive reader.info.stream_id _ t.streams
          (add_chunk-IsLive body _ s (unfold is_full in ground arith)
            (unfold is_full in ground arith) l)
          h)
]

pub read_chunk-AreLive :
    (reader : Reader) (body : Bytes) (t : Transport)
    → AreLive t
    → AreLive (read_chunk reader body t)
unfolding read_chunk
read_chunk-AreLive reader body t h = elim (Option-cases (extend_legacy reader body)) [
  | inl e ↦ rw (e, read_chunk) (end_reading-AreLive reader _ t h)
  | inr (extended, e) ↦ elim (Option-cases (Map.get reader.info.stream_id t.streams)) [
    | inl g ↦ rw (e, read_chunk, g) h
    | inr (s, g) ↦
        rw (e, read_chunk, g)
          (chunk-AreLive reader extended body s t h
            (get-Every IsLive reader.info.stream_id s t.streams h g))
  ]
]

pub enter-AreLive :
    (s : WebTransportStreamState) (collects : Bool) (t : Transport)
    → IsLive s
    → AreLive t
    → AreLive (enter s collects t)
unfolding enter
enter-AreLive s collects t l h = insert-Every IsLive s.info.stream_id s t.streams l h

close-AreLive :
    (id : ℕ) (t : Transport) → AreLive t → AreLive (remove_if_complete id (update id close_send t))
close-AreLive id t h = elim (Option-cases (Map.get id t.streams)) [
  | inl e ↦ rw (e, Map.modify) (remove_if_complete-AreLive id t h)
  | inr (s, e) ↦
      let l = get-Every IsLive id s t.streams h e in
      rw (e, Map.modify) (settle-AreLive id (close_send s) t h (l.few, l.small))
]

process_command-AreLive :
    (id : ℕ) (error : Option Str) (actor : Actor) (commands : List WebTransportStreamCommand)
    (t : Transport)
    → AreLive t
    → AreLive (process_command id error actor commands t)
unfolding process_command command_parts push_operation
process_command-AreLive id error actor [] t h = h
process_command-AreLive id error actor (write n body ∷ rest) t h = h
process_command-AreLive id error actor (finish n ∷ rest) t h =
    close-AreLive actor.info.stream_id _ h
process_command-AreLive id error actor (reset n code ∷ rest) t h =
    close-AreLive actor.info.stream_id _ h

pub actor_step-AreLive :
    (id : ℕ) (error : Option Str) (t : Transport) → AreLive t → AreLive (actor_step id error t)
unfolding actor_step
actor_step-AreLive id error t h = elim (Option-cases (Map.get id t.actors)) [
  | inl e ↦ rw (e, actor_step) h
  | inr (actor, e) ↦ rw (e, actor_step) (process_command-AreLive id error actor actor.commands t h)
]
