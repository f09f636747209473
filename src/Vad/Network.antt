-- ===== src/Vad/Network.antt =====
-- dart_edge_vad/rust/src/lib.rs: the runs of the network (lines 111 to 123, 613 to 733). The ONNX
-- session is a parameter: whether it loads, and what one run of it gives.
use dart_edge.Base.{
  ℕ, zero, suc, ◌-◌, List, [], ◌∷◌, ◌++◌, Option, none, some, length, take, drop, replicate, ◌==◌,
  if◌then◌else◌,
}
use dart_edge.Base.Result.{Result, ok, err, ◌>>=◌}
use dart_edge.Text.Bytes.{Str, text}
use dart_edge.Vad.Request.{Float, SileroDetectRequest, VadError, failed, panics}

abbrev pub context_samples : ℕ
context_samples = 64

-- The outputs of a run by their names: one may be missing, or have another type than `f32`.
pub record Outputs (F : Type 0) : Type 0 where
  pub output : Option (Result (List F) Str)
  pub state_N : Option (Result (List F) Str)
  pub state_n : Option (Result (List F) Str)

pub record Session (F : Type 0) : Type 0 where
  pub loaded : Result (Unit {0}) Str
  pub run : List F → List F → ℕ → Result (Outputs F) Str

-- What is carried from window to window.
pub record Memory (F : Type 0) : Type 0 where
  pub state : List F
  pub context : List F

abbrev pub fail : {A : Type 0} → Result A Str → Result A VadError
fail (ok a) = ok a
fail (err e) = err (failed e)

abbrev pub or_missing : {A : Type 0} → Option (Result A Str) → Str → Result A VadError
or_missing none message = err (failed message)
or_missing (some r) message = fail r

module _ {F : Type 0} where
  abbrev pub first_or : F → List F → F
  first_or other [] = other
  first_or other (x ∷ xs) = x

  abbrev pub or_second :
      Option (Result (List F) Str) → Option (Result (List F) Str) → Option (Result (List F) Str)
  or_second none second = second
  or_second (some r) second = some r

  unfoldable pub no_memory : Float F → Memory F
  no_memory float = record {
    state = replicate 256 float.zero;
    context = replicate context_samples float.zero;
  }

  -- The context, the chunk, and zeros up to the size of a window.
  unfoldable pub input_samples : Float F → ℕ → List F → List F → List F
  input_samples float window_size context chunk =
      context ++ chunk ++ replicate (window_size - length chunk) float.zero

  -- `copy_from_slice` panics unless the lengths agree.
  unfoldable pub remember : List F → List F → List F → Result (Memory F) VadError
  remember state state_data input =
      if length state_data == length state
      then ok (record { state = state_data; context = drop (length input - context_samples) input })
      else err panics

  unfoldable pub run_silero_window :
      Float F
      → Session F
      → SileroDetectRequest F
      → List F
      → Memory F
      → Result (F × Memory F) VadError
  unfolding input_samples remember
  run_silero_window float session request chunk memory =
      let input = input_samples float request.window_size_samples memory.context chunk in
      do
        outputs ← fail (session.run input memory.state request.sample_rate_hz)
        output_data ← or_missing outputs.output (text "Silero VAD output tensor is missing.")
        state_data ←
            or_missing (or_second outputs.state_N outputs.state_n)
              (text "Silero VAD state output tensor is missing.")
        next ← remember memory.state state_data input
        ok (first_or float.zero output_data, next)

  -- `with_silero_session`: all sessions of the pool load alike.
  unfoldable pub with_silero_session :
      {A : Type 0} → Session F → Result A VadError → Result A VadError
  with_silero_session session run = elim session.loaded [ ok _ ↦ run | err e ↦ err (failed e) ]

  -- The loop over the windows of the input; one round for each sample is enough.
  unfoldable pub run_windows :
      Float F → Session F → SileroDetectRequest F → ℕ → Memory F → List F → Result (List F) VadError
  unfolding run_silero_window
  run_windows float session request zero memory pcm = ok []
  run_windows float session request (suc rounds) memory [] = ok []
  run_windows float session request (suc rounds) memory (s ∷ pcm) = do
    (probability, next) ←
        run_silero_window float session request (take request.window_size_samples (s ∷ pcm)) memory
    rest ←
        run_windows float session request rounds next (drop request.window_size_samples (s ∷ pcm))
    ok (probability ∷ rest)

  unfoldable pub run_silero_probabilities :
      Float F → Session F → SileroDetectRequest F → List F → Result (List F) VadError
  unfolding run_windows no_memory with_silero_session
  run_silero_probabilities float session request pcm =
      with_silero_session session
        (run_windows float session request (length pcm) (no_memory float) pcm)
