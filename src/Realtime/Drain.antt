-- ===== src/Realtime/Drain.antt =====
-- What the Dart side gets of a WebTransport stream of lib.rs that it reads to the end.
use dart_edge.Base.{
  ℕ, suc, zero, ◌-◌, ◌≡◌, refl, ap, ◌∙◌, Bool, false, not, ◌&&◌, List, [], ◌∷◌, ◌++◌, some, inl,
  inr, is_some, is_empty, arith, length, if◌then◌else◌, Bool-cases,
}
use dart_edge.Base.Keys.{nat_eq}
use dart_edge.Base.Map
use dart_edge.Text.Bytes.{Bytes}
use dart_edge.Realtime.SharedBudget.{listed}
use dart_edge.Realtime.Stream.{WebTransportStreamState, Transport, is_complete, remove_if_complete}
use dart_edge.Realtime.StreamCalls.{pop_chunk, take_chunk}

-- The Dart side asks for chunks, so many times.
unfoldable pub take_chunks : ℕ → ℕ → Transport → Transport × List Bytes
take_chunks zero id t = (t, [])
take_chunks (suc n) id t =
    let (u, chunk) = take_chunk id t in
    let (v, chunks) = take_chunks n id u in (v, listed chunk ++ chunks)

-- Nothing more can happen to the stream, but for the chunks that it has.
abbrev pub is_over : WebTransportStreamState → Bool
is_over s = s.send_closed && s.receive_closed && not (is_some s.terminal)

abbrev popped : WebTransportStreamState → Bytes → List Bytes → WebTransportStreamState
popped s c rest = record s { chunks = rest; pending_bytes = s.pending_bytes - length c }

take_chunk-cons :
    (id : ℕ) (t : Transport) (s : WebTransportStreamState) (c : Bytes) (rest : List Bytes)
    → Map.get id t.streams ≡ some s
    → s.chunks ≡ c ∷ rest
    → take_chunk id t ≡ (
      remove_if_complete id (record t { streams = Map.insert id (popped s c rest) t.streams }),
      some c,
    )
unfolding take_chunk pop_chunk
take_chunk-cons id t s c rest g e = rw (g, take_chunk, e) refl

removed :
    (id : ℕ) (t : Transport) (s : WebTransportStreamState)
    → remove_if_complete id (record t { streams = Map.insert id s t.streams }) ≡ (
        if is_complete s
        then record t { streams = Map.remove id (Map.insert id s t.streams) }
        else record t { streams = Map.insert id s t.streams })
unfolding remove_if_complete
removed id t s = rw (Map.get-insert_self id s t.streams, remove_if_complete) refl

is_complete_lem : (s : WebTransportStreamState) → is_complete s ≡ is_over s && is_empty s.chunks
unfolding is_complete
is_complete_lem s = ground arith

-- The state after the first chunk of several, and after the only one.
one_of_several :
    (id : ℕ) (t : Transport) (s : WebTransportStreamState) (c d : Bytes) (rest : List Bytes)
    → Map.get id t.streams ≡ some s
    → s.chunks ≡ c ∷ d ∷ rest
    → take_chunk id t
      ≡ (record t { streams = Map.insert id (popped s c (d ∷ rest)) t.streams }, some c)
one_of_several id t s c d rest g e =
    let f : is_complete (popped s c (d ∷ rest)) ≡ false =
      is_complete_lem (popped s c (d ∷ rest)) ∙ ground arith in
    take_chunk-cons id t s c (d ∷ rest) g e ∙ rw (removed id t (popped s c (d ∷ rest)), f) refl

last :
    (id : ℕ) (c : Bytes) (t : Transport) (s : WebTransportStreamState)
    → Map.get id t.streams ≡ some s
    → s.chunks ≡ c ∷ []
    → ((take_chunks 1 id t).1 ≡ c ∷ [])
      × (is_some (Map.get id (take_chunks 1 id t).0.streams) ≡ not (is_over s))
unfolding take_chunks
last id c t s g e =
    rw
      (
        take_chunk-cons id t s c [] g e,
        removed id t (popped s c []),
        is_complete_lem (popped s c []),
      )
      (elim (Bool-cases (is_over s)) [
        | inl o ↦
            (refl, rw (o, Map.get-remove_self id (Map.insert id (popped s c []) t.streams)) refl)
        | inr o ↦ (refl, rw (o, Map.get-insert_self id (popped s c []) t.streams) refl)
      ])

-- If the Dart side asks as often as a stream in the table has chunks, it gets them all, in their
-- order; and then the table has the stream if and only if a direction is open or the end is still
-- to be taken.
pub take_chunks_lem :
    (id : ℕ) (t : Transport) (s : WebTransportStreamState)
    → Map.get id t.streams ≡ some s
    → is_complete s ≡ false
    → ((take_chunks (length s.chunks) id t).1 ≡ s.chunks)
      × (is_some (Map.get id (take_chunks (length s.chunks) id t).0.streams) ≡ not (is_over s))
unfolding take_chunks
take_chunks_lem id t s g i = go s.chunks t s g refl i
  where
    go :
        (cs : List Bytes) (t : Transport) (s : WebTransportStreamState)
        → Map.get id t.streams ≡ some s
        → s.chunks ≡ cs
        → is_complete s ≡ false
        → ((take_chunks (length cs) id t).1 ≡ cs)
          × (is_some (Map.get id (take_chunks (length cs) id t).0.streams) ≡ not (is_over s))
    go [] t s g e i =
        let o : is_over s ≡ false = ground (arith, is_complete_lem s) in (refl, rw (g, o) refl)
    go (c ∷ []) t s g e i = last id c t s g e
    go (c ∷ d ∷ rest) t s g e i =
        let here = Map.get-insert_self id (popped s c (d ∷ rest)) t.streams in
        let (all, gone) =
          go (d ∷ rest) (record t { streams = Map.insert id (popped s c (d ∷ rest)) t.streams })
            (popped s c (d ∷ rest)) here refl
            (is_complete_lem (popped s c (d ∷ rest)) ∙ ground arith) in
        let next = one_of_several id t s c d rest g e in
        (rw next (ap (◌∷◌ c) all), rw (next, take_chunks) gone)
