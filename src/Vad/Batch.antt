-- ===== src/Vad/Batch.antt =====
-- dart_edge_vad/rust/src/lib.rs: the segments of a whole input (lines 41 to 48, 526 to 576, 1109 to
-- 1171).
use dart_edge.Base.{
  ℕ, ◌+◌, ◌-◌, ◌*◌, ◌%◌, Bool, not, List, [], ◌∷◌, Option, none, some, is_empty, length, ltb, ◌==◌,
  if◌then◌else◌,
}
use dart_edge.Base.Result.{Result, ok, err, ◌>>=◌, ◌>>◌}
use dart_edge.Text.Bytes.{Bytes, text}
use dart_edge.Vad.Request.{
  Float, SileroDetectRequest, VadError, failed, validate_silero_request, pcm16le_to_f32,
  min_speech_samples, min_silence_samples, speech_pad_samples,
}
use dart_edge.Vad.Segment.{NativeVadSegment, append_segment}
use dart_edge.Vad.Network.{Session, run_silero_probabilities}

-- The variables of the loop.
pub record Tracker : Type 0 where
  pub active_start : Option ℕ
  pub silence_start : Option ℕ
  pub segments : List NativeVadSegment

abbrev pub no_speech : Tracker
no_speech = record { active_start = none; silence_start = none; segments = [] }

-- `get_or_insert`.
abbrev pub get_or_insert : Option ℕ → ℕ → ℕ
get_or_insert none n = n
get_or_insert (some a) n = a

pub record NativeVadResult : Type 0 where
  pub sample_rate_hz : ℕ
  pub total_samples : ℕ
  pub has_speech : Bool
  pub segments : List NativeVadSegment

module _ {F : Type 0} (float : Float F) (request : SileroDetectRequest F) where
  abbrev pub add_segment : List NativeVadSegment → ℕ → ℕ → ℕ → List NativeVadSegment
  add_segment segments start end total_samples =
      append_segment segments start end total_samples request.sample_rate_hz
        (min_speech_samples request) (speech_pad_samples request)

  -- A frame below both thresholds, in the speech that starts at `start`.
  unfoldable pub track_silence : ℕ → Tracker → ℕ → ℕ → Tracker
  track_silence total_samples t start frame_start =
      let silence = get_or_insert t.silence_start frame_start in
      if ltb (frame_start + request.window_size_samples - silence) (min_silence_samples request)
      then record t { silence_start = some silence }
      else record {
        active_start = none;
        silence_start = none;
        segments = add_segment t.segments start silence total_samples;
      }

  -- The body of the loop.
  unfoldable pub track : ℕ → Tracker → ℕ → F → Tracker
  unfolding track_silence
  track total_samples t frame_start probability =
      if float.at_least probability request.threshold
      then record t {
        active_start = some (get_or_insert t.active_start frame_start);
        silence_start = none;
      }
      else elim t.active_start [
        | none ↦ t
        | some start ↦
            if float.at_least probability request.neg_threshold
            then t
            else track_silence total_samples t start frame_start
      ]

  unfoldable pub track_all : ℕ → ℕ → Tracker → List F → Tracker
  unfolding track
  track_all total_samples index t [] = t
  track_all total_samples index t (probability ∷ rest) =
      track_all total_samples (index + 1)
        (track total_samples t (index * request.window_size_samples) probability) rest

  -- Speech that reaches the end of the input.
  unfoldable pub close_tracker : ℕ → Tracker → List NativeVadSegment
  close_tracker total_samples t = elim t.active_start [
    | none ↦ t.segments
    | some start ↦ add_segment t.segments start total_samples total_samples
  ]

  unfoldable pub speech_segments_from_probabilities : List F → ℕ → List NativeVadSegment
  unfolding track_all close_tracker
  speech_segments_from_probabilities probabilities total_samples =
      close_tracker total_samples (track_all total_samples 0 no_speech probabilities)

  unfoldable pub detect_silero : Session F → Bytes → Result NativeVadResult VadError
  unfolding speech_segments_from_probabilities run_silero_probabilities
  detect_silero session input = do
    validate_silero_request request
    if length input % 2 == 0
        then ok tt
        else err (failed (text "PCM16 byte input must contain complete i16 samples."))
    probabilities ← run_silero_probabilities float session request (pcm16le_to_f32 float input)
    let pcm = pcm16le_to_f32 float input
    let segments = speech_segments_from_probabilities probabilities (length pcm)
    ok (record {
      sample_rate_hz = request.sample_rate_hz;
      total_samples = length pcm;
      has_speech = not (is_empty segments);
      segments = segments;
    })
