-- ===== src/Vad/Answers.antt =====
-- What several calls on a stream of dart_edge_vad find, against the loops over the whole input.
use dart_edge.Base.{
  ℕ, ◌+◌, ◌*◌, ◌≤◌, ◌<◌, ◌≡◌, refl, sym, subst, ◌∙◌, ap, true, false, List, [], ◌∷◌, ◌++◌, Option,
  none, some, All-append, length, length-append, arith,
}
use mathlib.Core.List.{append_assoc, append-nil}
use dart_edge.Base.Result.{Result, ok, err}
use dart_edge.Text.Bytes.{Bytes}
use dart_edge.Vad.Request.{
  Float, SileroDetectRequest, VadError, pcm16le_to_f32, min_silence_samples, speech_pad_samples,
}
use dart_edge.Vad.Segment.{NativeVadSegment}
use dart_edge.Vad.Network.{Session}
use dart_edge.Vad.Windows.{runs}
use dart_edge.Vad.Batch.{track_all, add_segment, close_tracker}
use dart_edge.Vad.Stream.{
  VadStream, Found, nothing, Step, and_then, drain_rest, close_stream, stream_result, take_in,
}
use dart_edge.Vad.Simulation.{tracker, IsSpread, add_segment-IsApart, rounds_off, IsApart}
use dart_edge.Vad.Draining.{Progress, Outcome, drain-Outcome}
use dart_edge.Vad.Ending.{
  Flushed, FlushOutcome, IsShort, drain-IsShort, drain_rest-FlushOutcome, length-pcm16le_to_f32,
  nothing_over,
}
use dart_edge.Vad.Calls.{found_of, is_whole, stream_all, drained, process-true}

no_length : {A : Type 0} (xs : List A) → length xs ≡ 0 → xs ≡ []
no_length [] h = refl
no_length (x ∷ xs) h = absurd (omega arith)

pair_eq : {A B : Type 0} {a c : A} {b d : B} → a ≡ c → b ≡ d → ◌≡◌ {A = A × B} (a, b) (c, d)
pair_eq e f = rw (e, f) refl

-- The samples of the inputs.
abbrev pub pcm_of : {F : Type 0} → Float F → List Bytes → Bytes → List F
pcm_of float [] last = pcm16le_to_f32 float last
pcm_of float (input ∷ inputs) last = pcm16le_to_f32 float input ++ pcm_of float inputs last

module _ {F : Type 0} (float : Float F) (session : Session F) (request : SileroDetectRequest F)
    (positive : 1 ≤ request.window_size_samples) where
  -- From a stream in the middle of its input, with what is left of it.
  pub record Answer (s : VadStream F) (left : List F) (g : Found F) : Type 0 where
    pub probabilities :
        runs float session request positive s.memory (s.pending ++ left) ≡ ok g.probabilities
    pub segments :
        2 * speech_pad_samples request < min_silence_samples request
        → (total index count : ℕ) (before : List NativeVadSegment)
        → total ≡ s.total_samples + length left
        → total ≡ count * request.window_size_samples
        → s.processed_samples + length s.pending ≡ s.total_samples
        → s.processed_samples ≡ index * request.window_size_samples
        → IsSpread float request before [] s.active_start s.processed_samples
        → close_tracker float request total (
            track_all float request total index
              (tracker float request before [] s.active_start s.silence_start)
              g.probabilities)
          ≡ before ++ g.segments

  abbrev pub Answers : VadStream F → List F → Result (Found F) VadError → Type 0
  Answers s left (ok g) = Answer s left g
  Answers s left (err e) = runs float session request positive s.memory (s.pending ++ left) ≡ err e

  abbrev closed : VadStream F → List NativeVadSegment → List NativeVadSegment
  closed v gs = elim v.active_start [
    | none ↦ gs
    | some start ↦ add_segment float request gs start v.total_samples v.total_samples
  ]

  found-close_stream :
      (v : VadStream F) (k : Found F)
      → found_of
          (stream_result float session request (close_stream float session request true v k)).1
        ≡ ok (record k { segments = closed v k.segments })
  unfolding stream_result close_stream
  found-close_stream v k = go v.active_start refl
    where
      go :
          (active : Option ℕ)
          → v.active_start ≡ active
          → found_of
              (stream_result float session request (close_stream float session request true v k)).1
            ≡ ok (record k { segments = closed v k.segments })
      go none e = ground (arith, e)
      go (some start) e = ground (arith, e)

  close_tracker-closed :
      (before gs : List NativeVadSegment) (v : VadStream F)
      → IsSpread float request before gs v.active_start v.processed_samples
      → close_tracker float request v.total_samples
          (tracker float request before gs v.active_start v.silence_start)
        ≡ before ++ closed v gs
  unfolding close_tracker
  close_tracker-closed before gs v a = go v.active_start a
    where
      go :
          (active : Option ℕ)
          → IsSpread float request before gs active v.processed_samples
          → close_tracker float request v.total_samples
              (tracker float request before gs active v.silence_start)
            ≡ before ++ elim active [
              | none ↦ gs
              | some start ↦ add_segment float request gs start v.total_samples v.total_samples
            ]
      go none b = refl
      go (some start) b =
          add_segment-IsApart float request start v.total_samples v.total_samples (before ++ gs)
            (All-append (IsApart (speech_pad_samples request) start) before gs b.earlier b.here)
          ∙ append_assoc before gs (rounds_off float request start v.total_samples v.total_samples)
          ∙ ap (λ xs. before ++ xs)
              (sym
                (add_segment-IsApart float request start v.total_samples v.total_samples gs b.here))

  -- The last call.
  module _ (s : VadStream F) (last : Bytes) (unfinished : s.finished ≡ false)
      (whole : is_whole last ≡ true) where
    abbrev t : VadStream F
    t = take_in float session request s last

    ends :
        (u : VadStream F) (g : Found F) (v : VadStream F) (k : Found F)
        → Progress float session request positive t nothing u g
        → length u.pending < request.window_size_samples
        → Flushed float session request positive u g v k
        → Answer s (pcm16le_to_f32 float last) (record k { segments = closed v k.segments })
    ends u g v k o short fl = record {
      probabilities =
          ap (λ xs. runs float session request positive s.memory xs)
            (sym (append-nil (s.pending ++ pcm16le_to_f32 float last)))
          ∙ o.rest []
          ∙ rw (append-nil u.pending, fl.rest)
              (ap ok (ap (λ ps. ps ++ fl.found) (sym o.probabilities) ∙ sym fl.probabilities));
      segments = λ quiet total index count before e m c i a.
          let total_t : t.total_samples ≡ total =
            omega (arith, e, length-pcm16le_to_f32 float last) in
          let counted : t.processed_samples + length t.pending ≡ t.total_samples = omega (
            arith,
            c,
            length-append s.pending (pcm16le_to_f32 float last),
            length-pcm16le_to_f32 float last,
          ) in
          let seen = o.tracked quiet total index before (omega (arith, total_t)) counted i a in
          let over : length u.pending ≡ 0 =
            nothing_over (length u.pending) (index + length o.found) count
              request.window_size_samples
              (ap (λ n. n + length u.pending) (sym seen.2) ∙ o.counted ∙ counted ∙ total_t ∙ m)
              short in
          let kept = fl.whole (no_length u.pending over) in
          ap
            (λ ps. close_tracker float request total (
              track_all float request total index
                (tracker float request before [] s.active_start s.silence_start) ps))
            (ap (λ (x : Found F). x.probabilities) kept.2 ∙ o.probabilities)
          ∙ ap (close_tracker float request total) seen.0
          ∙ ap
              (λ n.
                close_tracker float request n
                  (tracker float request before g.segments u.active_start u.silence_start))
              (sym total_t ∙ sym o.same_total)
          ∙ close_tracker-closed before g.segments u seen.1
          ∙ ap (λ (x : VadStream F × Found F). before ++ closed x.0 x.1.segments)
              (pair_eq (sym kept.1) (sym kept.2));
    }

    pub last-Answers :
        session.loaded ≡ ok tt
        → Answers s (pcm16le_to_f32 float last) (stream_all float session request s [] last)
    unfolding stream_all
    last-Answers l =
        subst (λ x. Answers s (pcm16le_to_f32 float last) (found_of x.1))
          (sym (process-true float session request s last unfinished whole l))
          (drains (drained float session request t)
            (drain-Outcome float session request positive (length t.pending) t nothing)
            (drain-IsShort float session request positive (length t.pending) t nothing
              (omega arith)))
      where
        flushes :
            (u : VadStream F) (g : Found F)
            → Progress float session request positive t nothing u g
            → length u.pending < request.window_size_samples
            → (d : Step F) → FlushOutcome float session request positive u g d
            → Answers s (pcm16le_to_f32 float last) (
                found_of
                  (stream_result float session request
                    (and_then d (close_stream float session request true))).1)
        flushes u g o short (v, ok k) fl =
            subst (Answers s (pcm16le_to_f32 float last)) (sym (found-close_stream v k))
              (ends u g v k o short fl)
        flushes u g o short (v, err e) fl =
            unfold stream_result in
            (ap (λ xs. runs float session request positive s.memory xs)
                (sym (append-nil (s.pending ++ pcm16le_to_f32 float last)))
              ∙ o.rest []
              ∙ rw (append-nil u.pending, fl) refl)

        drains :
            (d : Step F)
            → Outcome float session request positive t nothing d
            → IsShort float session request positive d
            → Answers s (pcm16le_to_f32 float last) (
                found_of
                  (stream_result float session request (
                    and_then
                      (and_then d (drain_rest float session request true))
                      (close_stream float session request true))).1)
        drains (u, ok g) o short =
            flushes u g o short (drain_rest float session request true u g)
              (drain_rest-FlushOutcome float session request positive u g short)
        drains (u, err e) o short =
            unfold stream_result in
            (ap (λ xs. runs float session request positive s.memory xs)
                (sym (append-nil (s.pending ++ pcm16le_to_f32 float last)))
              ∙ o [])
