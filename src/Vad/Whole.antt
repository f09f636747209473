-- ===== src/Vad/Whole.antt =====
-- The calls of a stream of dart_edge_vad on the inputs as a whole.
use dart_edge.Base.{
  ◌+◌, ◌≤◌, ◌≡◌, refl, sym, subst, ◌∙◌, ap, true, false, List, [], ◌∷◌, ◌++◌, All, All-append,
  length, length-append, arith,
}
use mathlib.Core.List.{append_assoc, append-nil}
use dart_edge.Base.Result.{Result, ok, err, ◌>>=◌}
use dart_edge.Text.Bytes.{Bytes, Str}
use dart_edge.Vad.Request.{Float, SileroDetectRequest, VadError, failed, pcm16le_to_f32}
use dart_edge.Vad.Network.{Session}
use dart_edge.Vad.Windows.{runs}
use dart_edge.Vad.Batch.{track_all, close_tracker}
use dart_edge.Vad.Stream.{
  VadStream, VadStreamResult, Found, nothing, Step, stream_result, take_in, process,
}
use dart_edge.Vad.Simulation.{tracker, IsApart}
use dart_edge.Vad.Draining.{Progress, Outcome, drain-Outcome, track_all_append}
use dart_edge.Vad.Ending.{pcm16le_to_f32-append, length-pcm16le_to_f32}
use dart_edge.Vad.Calls.{
  found_of, joined, is_whole, stream_all, drained, process-false, process-err,
}
use dart_edge.Vad.Answers.{pcm_of, Answer, Answers, last-Answers}

abbrev pub IsWhole : Bytes → Type 0
IsWhole input = is_whole input ≡ true

-- The bytes of all the inputs.
abbrev pub whole_input : List Bytes → Bytes → Bytes
whole_input [] last = last
whole_input (input ∷ inputs) last = input ++ whole_input inputs last

pub pcm16le_to_f32-whole_input :
    {F : Type 0} (float : Float F) (inputs : List Bytes) (last : Bytes)
    → All IsWhole inputs
    → pcm16le_to_f32 float (whole_input inputs last) ≡ pcm_of float inputs last
pcm16le_to_f32-whole_input float [] last h = refl
pcm16le_to_f32-whole_input float (input ∷ inputs) last (w, h) =
    pcm16le_to_f32-append float input (whole_input inputs last) (ground (arith, w))
    ∙ ap (λ xs. pcm16le_to_f32 float input ++ xs) (pcm16le_to_f32-whole_input float inputs last h)

module _ {F : Type 0} (float : Float F) (session : Session F) (request : SileroDetectRequest F)
    (positive : 1 ≤ request.window_size_samples) where
  -- A call without a flush, and then the others.
  module _ (s : VadStream F) (input : Bytes) (left : List F) (unfinished : s.finished ≡ false) where
    abbrev t : VadStream F
    t = take_in float session request s input

    continues :
        (u : VadStream F) (g h : Found F)
        → Progress float session request positive t nothing u g
        → Answer float session request positive u left h
        → Answer float session request positive s (pcm16le_to_f32 float input ++ left) (joined g h)
    continues u g h o a = record {
      probabilities =
          ap (λ xs. runs float session request positive s.memory xs)
            (sym (append_assoc s.pending (pcm16le_to_f32 float input) left))
          ∙ o.rest left
          ∙ rw a.probabilities (ap (λ ps. ok (ps ++ h.probabilities)) (sym o.probabilities));
      segments = λ quiet total index count before e m c i spread.
          let size = length-pcm16le_to_f32 float input in
          let counted : t.processed_samples + length t.pending ≡ t.total_samples =
            omega (arith, c, length-append s.pending (pcm16le_to_f32 float input), size) in
          let total_t : total ≡ t.total_samples + length left =
            omega (arith, e, length-append (pcm16le_to_f32 float input) left, size) in
          let seen = o.tracked quiet total index before (omega (arith, total_t)) counted i spread in
          let later =
            a.segments quiet total (index + length o.found) count (before ++ g.segments)
              (omega (arith, total_t, o.same_total)) m
              (omega (arith, o.counted, counted, o.same_total)) seen.2
              (record {
                earlier = All-append (IsApart _ _) before g.segments seen.1.earlier seen.1.here;
                here = tt;
                begun = seen.1.begun;
              }) in
          let start = tracker float request before [] s.active_start s.silence_start in
          ap
            (λ ps.
              close_tracker float request total
                (track_all float request total index start (ps ++ h.probabilities)))
            o.probabilities
          ∙ ap (close_tracker float request total)
              (track_all_append float request total index start o.found h.probabilities)
          ∙ ap
              (λ x.
                close_tracker float request total
                  (track_all float request total (index + length o.found) x h.probabilities))
              (seen.0
                ∙ ap (λ gs. tracker float request [] gs u.active_start u.silence_start)
                    (sym (append-nil (before ++ g.segments))))
          ∙ later
          ∙ append_assoc before g.segments h.segments;
    }

    -- The call that comes next may fail, or the calls after it.
    step-Answers :
        (step : Step F) (later : VadStream F → Result (Found F) VadError)
        → Outcome float session request positive t nothing step
        → ((u : VadStream F)
            → u.finished ≡ false
            → Answers float session request positive u left (later u))
        → Answers float session request positive s (pcm16le_to_f32 float input ++ left) (do
          f ← found_of (stream_result float session request step).1
          g ← later (stream_result float session request step).0
          ok (joined f g))
    unfolding stream_result
    step-Answers (u, err e) later o a =
        ap (λ xs. runs float session request positive s.memory xs)
          (sym (append_assoc s.pending (pcm16le_to_f32 float input) left))
        ∙ o left
    step-Answers (u, ok g) later o a = go (later u) (a u (o.unfinished ∙ unfinished))
      where
        go :
            (r : Result (Found F) VadError)
            → Answers float session request positive u left r
            → Answers float session request positive s
                (pcm16le_to_f32 float input ++ left)
                (do h ← r; ok (joined g h))
        go (ok h) b = continues u g h o b
        go (err e) b =
            ap (λ xs. runs float session request positive s.memory xs)
              (sym (append_assoc s.pending (pcm16le_to_f32 float input) left))
            ∙ o.rest left
            ∙ rw b refl

  pub stream_all-Answers :
      (s : VadStream F) (inputs : List Bytes) (last : Bytes)
      → s.finished ≡ false
      → All IsWhole inputs
      → IsWhole last
      → session.loaded ≡ ok tt
      → Answers float session request positive s
          (pcm_of float inputs last)
          (stream_all float session request s inputs last)
  unfolding stream_all
  stream_all-Answers s [] last unfinished ws w l =
      last-Answers float session request positive s last unfinished w l
  stream_all-Answers s (input ∷ inputs) last unfinished ws w l =
      let t = take_in float session request s input in
      let rest = λ (u : VadStream F). stream_all float session request u inputs last in
      subst
        (λ (x : VadStream F × Result (VadStreamResult F) VadError).
          Answers float session request positive s (pcm_of float (input ∷ inputs) last)
            (do f ← found_of x.1; g ← rest x.0; ok (joined f g)))
        (sym (process-false float session request s input unfinished ws.0 l))
        (step-Answers s input (pcm_of float inputs last) unfinished
          (drained float session request t) rest
          (drain-Outcome float session request positive (length t.pending) t nothing)
          (λ u open_still. stream_all-Answers u inputs last open_still ws.1 w l))

  pub stream_all-err :
      (s : VadStream F) (inputs : List Bytes) (last : Bytes) (e : Str)
      → s.finished ≡ false
      → All IsWhole inputs
      → IsWhole last
      → session.loaded ≡ err e
      → stream_all float session request s inputs last ≡ err (failed e)
  unfolding stream_all
  stream_all-err s [] last e unfinished ws w l =
      ap found_of (process-err float session request s last unfinished w true e l)
  stream_all-err s (input ∷ inputs) last e unfinished ws w l =
      ap
        (λ r. do
          f ← found_of r
          g ←
              stream_all float session request (process float session request s input false).0
                inputs last
          ok (joined f g))
        (process-err float session request s input unfinished ws.0 false e l)
