-- ===== src/Vad/Calls.antt =====
-- Several calls on a stream of dart_edge_vad, the last one with a flush.
use dart_edge.Base.{
  ◌%◌, ◌≡◌, refl, Bool, true, false, not, ap, ◌∙◌, List, [], ◌∷◌, ◌++◌, length, ◌==◌, arith,
  if◌then◌else◌,
}
use dart_edge.Base.Result.{Result, ok, err, ◌>>=◌}
use dart_edge.Text.Bytes.{Bytes, Str}
use dart_edge.Vad.Request.{Float, SileroDetectRequest, VadError, failed}
use dart_edge.Vad.Network.{Session}
use dart_edge.Vad.Stream.{
  VadStream, VadStreamResult, Found, nothing, Step, and_then, drain, drain_rest, close_stream,
  in_session, stream_result, take_in, advance, process,
}

abbrev pub found_of : {F : Type 0} → Result (VadStreamResult F) VadError → Result (Found F) VadError
found_of (ok r) = ok (record { probabilities = r.probabilities; segments = r.segments })
found_of (err e) = err e

abbrev pub joined : {F : Type 0} → Found F → Found F → Found F
joined f g = record {
  probabilities = f.probabilities ++ g.probabilities;
  segments = f.segments ++ g.segments;
}

abbrev pub is_whole : Bytes → Bool
is_whole input = length input % 2 == 0

past_guards :
    {A : Type 0} (a b : Bool) (x y z : A)
    → a ≡ false
    → b ≡ true
    → (if a then x else if not b then y else z) ≡ z
past_guards a b x y z h k = ground arith

module _ {F : Type 0} (float : Float F) (session : Session F)
    (request : SileroDetectRequest F) where
  -- All that the calls give, one after the other.
  unfoldable pub stream_all : VadStream F → List Bytes → Bytes → Result (Found F) VadError
  stream_all s [] last = found_of (process float session request s last true).1
  stream_all s (input ∷ inputs) last =
      let (t, r) = process float session request s input false in
      do f ← found_of r; g ← stream_all t inputs last; ok (joined f g)

  abbrev pub drained : VadStream F → Step F
  drained s = drain float session request (length s.pending) s nothing

  and_then-ok : (step : Step F) → and_then step (λ s f. (s, ok f)) ≡ step
  and_then-ok (s, ok f) = refl
  and_then-ok (s, err e) = refl

  in_session-ok :
      (s : VadStream F) (step : Step F)
      → session.loaded ≡ ok tt
      → in_session float session request s step ≡ step
  unfolding in_session
  in_session-ok s step l = ap (λ r. elim r [ ok _ ↦ step | err e ↦ (s, err (failed e)) ]) l

  in_session-err :
      (s : VadStream F) (step : Step F) (e : Str)
      → session.loaded ≡ err e
      → in_session float session request s step ≡ (s, err (failed e))
  unfolding in_session
  in_session-err s step e l = ap (λ r. elim r [ ok _ ↦ step | err e ↦ (s, err (failed e)) ]) l

  module _ (s : VadStream F) (input : Bytes) (unfinished : s.finished ≡ false)
      (whole : is_whole input ≡ true) where
    abbrev s_in : VadStream F
    s_in = take_in float session request s input

    pub process-advance :
        (flush : Bool)
        → process float session request s input flush
          ≡ stream_result float session request (advance float session request s_in flush)
    unfolding process
    process-advance flush = past_guards s.finished (is_whole input) _ _ _ unfinished whole

    pub process-false :
        session.loaded ≡ ok tt
        → process float session request s input false
          ≡ stream_result float session request (drained (take_in float session request s input))
    unfolding advance drain_rest close_stream
    process-false l =
        process-advance false
        ∙ ap
            (λ x.
              stream_result float session request
                (and_then x (close_stream float session request false)))
            (in_session-ok s_in _ l ∙ and_then-ok (drained s_in))
        ∙ ap (stream_result float session request) (and_then-ok (drained s_in))

    pub process-true :
        session.loaded ≡ ok tt
        → process float session request s input true
          ≡ stream_result float session request (
              and_then
                (and_then
                  (drained (take_in float session request s input))
                  (drain_rest float session request true))
                (close_stream float session request true))
    unfolding advance
    process-true l =
        process-advance true
        ∙ ap
            (λ x.
              stream_result float session request
                (and_then x (close_stream float session request true)))
            (in_session-ok s_in _ l)

    pub process-err :
        (flush : Bool) (e : Str)
        → session.loaded ≡ err e
        → (process float session request s input flush).1 ≡ err (failed e)
    unfolding advance stream_result
    process-err flush e l =
        ap (λ x. x.1)
          (process-advance flush
            ∙ ap
                (λ x.
                  stream_result float session request
                    (and_then x (close_stream float session request flush)))
                (in_session-err s_in _ e l))
