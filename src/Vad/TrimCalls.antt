-- ===== src/Vad/TrimCalls.antt =====
-- A call of the trim stream of dart_edge_vad, up to the clearing of its buffer.
use dart_edge.Base.{
  ℕ, zero, suc, ◌+◌, ◌/◌, ◌%◌, ◌≡◌, refl, sym, subst, ◌∙◌, ap, Bool, true, false, not, ◌&&◌, ◌==◌,
  inl, inr, List, [], is_empty, length, take, ltb, Bool-cases, Option-cases, if◌then◌else◌,
}
use dart_edge.Base.Result.{Result, ok, err, Result-cases}
use dart_edge.Text.Bytes.{Bytes}
use dart_edge.Vad.Request.{Float, SileroDetectRequest, VadError}
use dart_edge.Vad.Network.{Session, run_silero_window}
use dart_edge.Vad.Stream.{
  VadStream, VadStreamResult, Found, nothing, Step, and_then, run_frame, next_frame, drain,
  drain_rest, close_stream, in_session, stream_result, take_in, advance, process,
}
use dart_edge.Vad.Calls.{process-advance}
use dart_edge.Vad.Draining.{consume_probability-Keeps}

module _ {F : Type 0} (float : Float F) (session : Session F)
    (request : SileroDetectRequest F) where
  abbrev Totals : ℕ → Step F → Type 0
  Totals n step = step.0.total_samples ≡ n

  and_then-Totals :
      (n : ℕ) (step : Step F) (next : VadStream F → Found F → Step F)
      → Totals n step
      → ((t : VadStream F) (g : Found F) → t.total_samples ≡ n → Totals n (next t g))
      → Totals n (and_then step next)
  and_then-Totals n (t, ok g) next h k = k t g h
  and_then-Totals n (t, err e) next h k = h

  run_frame-Totals :
      (chunk : List F) (from : ℕ) (s : VadStream F) (f : Found F)
      → Totals s.total_samples (run_frame float session request chunk from s f)
  unfolding run_frame
  run_frame-Totals chunk from s f =
      elim (Result-cases (run_silero_window float session request chunk s.memory)) [
        | inr (e, h) ↦ rw (h, run_frame) refl
        | inl ((p, next), h) ↦
            rw (h, run_frame)
              (consume_probability-Keeps float request p from s.processed_samples
                (record s { memory = next }) f.segments).total
      ]

  drain-Totals :
      (n : ℕ) (s : VadStream F) (f : Found F)
      → Totals s.total_samples (drain float session request n s f)
  unfolding drain
  drain-Totals zero s f = refl
  drain-Totals (suc n) s f =
      let step =
        run_frame float session request (take request.window_size_samples s.pending)
          s.processed_samples (next_frame float session request s) f in
      let rest = and_then step (drain float session request n) in
      elim (Bool-cases (ltb (length s.pending) request.window_size_samples)) [
        | inl short ↦
            subst (λ b. Totals s.total_samples (if b then (s, ok f) else rest)) (sym short) refl
        | inr whole ↦
            subst (λ b. Totals s.total_samples (if b then (s, ok f) else rest)) (sym whole)
              (and_then-Totals s.total_samples step (drain float session request n)
                (run_frame-Totals _ _ (next_frame float session request s) f)
                (λ t g h. drain-Totals n t g ∙ h))
      ]

  drain_rest-Totals :
      (flush : Bool) (s : VadStream F) (f : Found F)
      → Totals s.total_samples (drain_rest float session request flush s f)
  unfolding drain_rest
  drain_rest-Totals flush s f = go (flush && not (is_empty s.pending))
    where
      go :
          (b : Bool)
          → Totals s.total_samples (
              if b
              then run_frame float session request s.pending s.processed_samples
                  (record s { pending = []; processed_samples = s.total_samples })
                  f
              else (s, ok f))
      go true =
          run_frame-Totals _ _ (record s { pending = []; processed_samples = s.total_samples }) f
      go false = refl

  close_stream-Totals :
      (flush : Bool) (s : VadStream F) (f : Found F)
      → Totals s.total_samples (close_stream float session request flush s f)
  unfolding close_stream
  close_stream-Totals false s f = refl
  close_stream-Totals true s f = elim (Option-cases s.active_start) [
    | inl e ↦ rw (e, close_stream) refl
    | inr (start, e) ↦ rw (e, close_stream) refl
  ]

  in_session-Totals :
      (s : VadStream F) (step : Step F)
      → Totals s.total_samples step
      → Totals s.total_samples (in_session float session request s step)
  unfolding in_session
  in_session-Totals s step h = elim (Result-cases session.loaded) [
    | inl (u, e) ↦ rw (e, in_session) h
    | inr (x, e) ↦ rw (e, in_session) refl
  ]

  advance-Totals :
      (s : VadStream F) (flush : Bool)
      → Totals s.total_samples (advance float session request s flush)
  unfolding advance
  advance-Totals s flush =
      let n = s.total_samples in
      and_then-Totals n _ (close_stream float session request flush)
        (in_session-Totals s _ (
          and_then-Totals n (drain float session request (length s.pending) s nothing)
            (drain_rest float session request flush) (drain-Totals (length s.pending) s nothing)
            (λ t g h. drain_rest-Totals flush t g ∙ h)))
        (λ t g h. close_stream-Totals flush t g ∙ h)

  stream_result-Totals :
      (step : Step F)
      → (stream_result float session request step).0.total_samples ≡ step.0.total_samples
  unfolding stream_result
  stream_result-Totals (t, ok g) = refl
  stream_result-Totals (t, err e) = refl

  -- A call that is let in counts all its samples, whether it fails or not.
  pub process-total :
      (s : VadStream F) (input : Bytes) (flush : Bool)
      → s.finished ≡ false
      → (length input % 2 == 0) ≡ true
      → (process float session request s input flush).0.total_samples
        ≡ s.total_samples + length input / 2
  process-total s input flush h k =
      ap (λ (x : VadStream F × Result (VadStreamResult F) VadError). x.0.total_samples)
        (process-advance float session request s input h k flush)
      ∙ stream_result-Totals
          (advance float session request (take_in float session request s input) flush)
      ∙ advance-Totals (take_in float session request s input) flush
