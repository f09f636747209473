-- ===== src/Vad/Request.antt =====
-- dart_edge_vad/rust/src/lib.rs: requests, samples and times (lines 28 to 57, 597 to 611, 1205 to
-- 1218). An `f32` is a parameter, with the operations that the code uses.
use dart_edge.Base.{ℕ, ◌+◌, ◌*◌, ◌/◌, ◌%◌, Bool, not, List, [], ◌∷◌, ◌==◌, if◌then◌else◌}
use dart_edge.Base.Words.{word}
use dart_edge.Base.Keys.{bytes_beq}
use dart_edge.Base.Result.{Result, ok, err}
use dart_edge.Text.Bytes.{Bytes, Str, text}

-- `of_i16` is the value of a bit pattern of 16 bits, divided by 32768; `at_least` is `>=`.
pub record Float (F : Type 0) : Type 0 where
  pub zero : F
  pub at_least : F → F → Bool
  pub of_i16 : ℕ → F

pub record SileroDetectRequest (F : Type 0) : Type 0 where
  pub model_version : Str
  pub sample_rate_hz : ℕ
  pub window_size_samples : ℕ
  pub threshold : F
  pub neg_threshold : F
  pub min_speech_duration_ms : ℕ
  pub min_silence_duration_ms : ℕ
  pub speech_pad_ms : ℕ

-- What a call gives in place of a result: an error's text, or a panic of a slice operation.
pub data VadError : Type 0 where
  failed : Str → VadError
  panics : VadError

module _ {F : Type 0} where
  unfoldable pub validate_silero_request : SileroDetectRequest F → Result (Unit {0}) VadError
  validate_silero_request request =
      if not (bytes_beq request.model_version (text "6.2.1"))
      then err (failed (text "Unsupported Silero VAD model version"))
      else if not (request.sample_rate_hz == 16000)
      then err (failed (text "Silero VAD v6.2.1 expects 16000 Hz PCM input."))
      else if not (request.window_size_samples == 512)
      then err (failed (text "Silero VAD v6.2.1 expects 512-sample windows."))
      else ok tt

  unfoldable pub pcm16le_to_f32 : Float F → Bytes → List F
  pcm16le_to_f32 float (low ∷ high ∷ rest) =
      float.of_i16 (low + 256 * high) ∷ pcm16le_to_f32 float rest
  pcm16le_to_f32 float _ = []

unfoldable pub millis_to_samples : ℕ → ℕ → ℕ
millis_to_samples millis sample_rate_hz = (millis * sample_rate_hz / 1000) % word

unfoldable pub samples_to_millis : ℕ → ℕ → ℕ
samples_to_millis samples sample_rate_hz = (samples * 1000 / sample_rate_hz) % word

-- The durations of a request in samples.
module _ {F : Type 0} (request : SileroDetectRequest F) where
  abbrev pub min_speech_samples : ℕ
  min_speech_samples = millis_to_samples request.min_speech_duration_ms request.sample_rate_hz

  abbrev pub min_silence_samples : ℕ
  min_silence_samples = millis_to_samples request.min_silence_duration_ms request.sample_rate_hz

  abbrev pub speech_pad_samples : ℕ
  speech_pad_samples = millis_to_samples request.speech_pad_ms request.sample_rate_hz
