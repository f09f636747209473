-- ===== src/Vad/Stream.antt =====
-- dart_edge_vad/rust/src/lib.rs: the detection on a stream (lines 59 to 69, 125 to 137, 766 to 780,
-- 975 to 1107). A call gives the stream as it is left, and its result or its error.
use dart_edge.Base.{
  ℕ, zero, suc, ◌+◌, ◌-◌, ◌/◌, ◌%◌, Bool, true, false, not, ◌&&◌, ◌||◌, List, [], ◌∷◌, ◌++◌, Option,
  none, some, is_empty, length, take, drop, ltb, ◌==◌, if◌then◌else◌,
}
use dart_edge.Base.Result.{Result, ok, err}
use dart_edge.Text.Bytes.{Bytes, text}
use dart_edge.Vad.Request.{
  Float, SileroDetectRequest, VadError, failed, pcm16le_to_f32, min_silence_samples,
}
use dart_edge.Vad.Segment.{NativeVadSegment}
use dart_edge.Vad.Network.{Session, Memory, no_memory, run_silero_window}
use dart_edge.Vad.Batch.{get_or_insert, add_segment}

-- The request is a parameter: no call changes it.
pub record VadStream (F : Type 0) : Type 0 where
  pub memory : Memory F
  pub pending : List F
  pub total_samples : ℕ
  pub processed_samples : ℕ
  pub active_start : Option ℕ
  pub silence_start : Option ℕ
  pub has_speech : Bool
  pub finished : Bool

-- What a call has found so far.
pub record Found (F : Type 0) : Type 0 where
  pub probabilities : List F
  pub segments : List NativeVadSegment

abbrev pub nothing : {F : Type 0} → Found F
nothing = record { probabilities = []; segments = [] }

pub record VadStreamResult (F : Type 0) : Type 0 where
  pub sample_rate_hz : ℕ
  pub total_samples : ℕ
  pub processed_samples : ℕ
  pub has_speech : Bool
  pub finished : Bool
  pub segments : List NativeVadSegment
  pub probabilities : List F

abbrev pub Step : Type 0 → Type 0
Step F = VadStream F × Result (Found F) VadError

abbrev pub and_then : {F : Type 0} → Step F → (VadStream F → Found F → Step F) → Step F
and_then (s, ok f) next = next s f
and_then (s, err e) next = (s, err e)

unfoldable pub create_vad_stream : {F : Type 0} → Float F → VadStream F
create_vad_stream float = record {
  memory = no_memory float;
  pending = [];
  total_samples = 0;
  processed_samples = 0;
  active_start = none;
  silence_start = none;
  has_speech = false;
  finished = false;
}

module _ {F : Type 0} (float : Float F) (request : SileroDetectRequest F) where
  -- A frame below both thresholds, in the speech that starts at `start`.
  unfoldable pub consume_silence :
      ℕ → ℕ → ℕ → VadStream F → List NativeVadSegment → VadStream F × List NativeVadSegment
  consume_silence start frame_start frame_end s segments =
      let silence = get_or_insert s.silence_start frame_start in
      let more = add_segment float request segments start silence s.total_samples in
      if ltb (frame_end - silence) (min_silence_samples request)
      then (record s { silence_start = some silence }, segments)
      else (
        record s {
          has_speech = s.has_speech || ltb (length segments) (length more);
          active_start = none;
          silence_start = none;
        },
        more,
      )

  unfoldable pub consume_probability :
      F → ℕ → ℕ → VadStream F → List NativeVadSegment → VadStream F × List NativeVadSegment
  unfolding consume_silence
  consume_probability probability frame_start frame_end s segments =
      if float.at_least probability request.threshold
      then (
        record s {
          active_start = some (get_or_insert s.active_start frame_start);
          silence_start = none;
        },
        segments,
      )
      else elim s.active_start [
        | none ↦ (s, segments)
        | some start ↦
            if float.at_least probability request.neg_threshold
            then (s, segments)
            else consume_silence start frame_start frame_end s segments
      ]

module _ {F : Type 0} (float : Float F) (session : Session F)
    (request : SileroDetectRequest F) where
  -- A window that has left `pending` and is counted as processed.
  unfoldable pub run_frame : List F → ℕ → VadStream F → Found F → Step F
  unfolding consume_probability
  run_frame chunk frame_start s f = elim (run_silero_window float session request chunk s.memory) [
    | err e ↦ (s, err e)
    | ok (probability, next) ↦
        let (t, segments) =
          consume_probability float request probability frame_start s.processed_samples
            (record s { memory = next }) f.segments in
        (
          t,
          ok (record { probabilities = f.probabilities ++ probability ∷ []; segments = segments }),
        )
  ]

  abbrev pub next_frame : VadStream F → VadStream F
  next_frame s = record s {
    pending = drop request.window_size_samples s.pending;
    processed_samples = s.processed_samples + request.window_size_samples;
  }

  -- The loop over the whole windows; one round for each sample is enough.
  unfoldable pub drain : ℕ → VadStream F → Found F → Step F
  unfolding run_frame
  drain zero s f = (s, ok f)
  drain (suc rounds) s f =
      let rest =
        and_then
          (run_frame (take request.window_size_samples s.pending) s.processed_samples (next_frame s)
            f)
          (drain rounds) in
      if ltb (length s.pending) request.window_size_samples then (s, ok f) else rest

  -- What is left at a flush is processed as it is.
  unfoldable pub drain_rest : Bool → VadStream F → Found F → Step F
  unfolding run_frame
  drain_rest flush s f =
      if flush && not (is_empty s.pending)
      then run_frame s.pending s.processed_samples
          (record s { pending = []; processed_samples = s.total_samples }) f
      else (s, ok f)

  -- Speech that is still active at a flush ends with the input.
  unfoldable pub close_stream : Bool → VadStream F → Found F → Step F
  close_stream false s f = (s, ok f)
  close_stream true s f = elim s.active_start [
    | none ↦ (record s { silence_start = none; finished = true }, ok f)
    | some start ↦
        let segments = add_segment float request f.segments start s.total_samples s.total_samples in
        (
          record s {
            active_start = none;
            silence_start = none;
            has_speech = s.has_speech || not (is_empty segments);
            finished = true;
          },
          ok (record f { segments = segments }),
        )
  ]

  unfoldable pub in_session : VadStream F → Step F → Step F
  in_session s step = elim session.loaded [ ok _ ↦ step | err e ↦ (s, err (failed e)) ]

  unfoldable pub stream_result : Step F → VadStream F × Result (VadStreamResult F) VadError
  stream_result (s, err e) = (s, err e)
  stream_result (s, ok f) = (
    s,
    ok (record {
      sample_rate_hz = request.sample_rate_hz;
      total_samples = s.total_samples;
      processed_samples = s.processed_samples;
      has_speech = s.has_speech || not (is_empty f.segments);
      finished = s.finished;
      segments = f.segments;
      probabilities = f.probabilities;
    }),
  )

  abbrev pub take_in : VadStream F → Bytes → VadStream F
  take_in s input = record s {
    pending = s.pending ++ pcm16le_to_f32 float input;
    total_samples = s.total_samples + length input / 2;
  }

  -- The part of a call between its guards and its result.
  unfoldable pub advance : VadStream F → Bool → Step F
  unfolding drain drain_rest close_stream in_session
  advance s flush =
      and_then (in_session s (and_then (drain (length s.pending) s nothing) (drain_rest flush)))
        (close_stream flush)

  unfoldable pub process :
      VadStream F → Bytes → Bool → VadStream F × Result (VadStreamResult F) VadError
  unfolding advance stream_result
  process s input flush =
      if s.finished
      then (s, err (failed (text "VAD stream has already been finished.")))
      else if not (length input % 2 == 0)
      then (s, err (failed (text "PCM16 byte input must contain complete i16 samples.")))
      else stream_result (advance (take_in s input) flush)
