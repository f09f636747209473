-- ===== src/Vad/Tests.antt =====
-- A request and a network for dart_edge_vad, and the theorems at these.
use dart_edge.Base.{
  true, false, ℕ, ◌≡◌, ◌<◌, ◌*◌, ◌%◌, refl, [], ◌∷◌, some, none, leb, length, replicate, arith,
}
use dart_edge.Base.Keys.{bytes_beq}
use dart_edge.Base.Result.{ok, ◌>>=◌}
use dart_edge.Text.Bytes.{Bytes, text}
use dart_edge.Vad.Request.{
  Float, SileroDetectRequest, validate_silero_request, pcm16le_to_f32, millis_to_samples,
  min_silence_samples, speech_pad_samples,
}
use dart_edge.Vad.Network.{Session, run_silero_probabilities, first_or}
use dart_edge.Vad.Batch.{detect_silero, speech_segments_from_probabilities}
use dart_edge.Vad.Segment.{segment, append_segment, push_segment}
use dart_edge.Vad.Stream.{VadStream, create_vad_stream, consume_silence}
use dart_edge.Vad.Trim.{TrimStream, create_trim_stream, process_trim}
use dart_edge.Vad.Slices.{IsBuffered}
use dart_edge.Vad.TrimLife.{AfterCall, process_trim-AfterCall}
use dart_edge.Vad.Calls.{stream_all}
use dart_edge.Vad.Whole.{whole_input}
use dart_edge.Vad.Equivalence.{stream_all-probabilities, stream_all-segments}

-- Samples are their bit patterns.
abbrev numbers : Float ℕ
numbers = record { zero = 0; at_least = λ a b. leb b a; of_i16 = λ n. n }

-- A network that gives back the first sample that it is given.
abbrev echo : Session ℕ
echo = record {
  loaded = ok tt;
  run = λ input state rate. ok (record {
    output = some (ok (first_or 0 input ∷ []));
    state_N = some (ok state);
    state_n = none;
  });
}

abbrev request : SileroDetectRequest ℕ
request = record {
  model_version = text "6.2.1";
  sample_rate_hz = 16000;
  window_size_samples = 512;
  threshold = 5;
  neg_threshold = 3;
  min_speech_duration_ms = 10;
  min_silence_duration_ms = 100;
  speech_pad_ms = 30;
}

request_lem : validate_silero_request request ≡ ok tt
unfolding validate_silero_request text bytes_beq
request_lem = refl

abbrev piece : Bytes
piece = replicate 4 7

abbrev last_piece : Bytes
last_piece = replicate 1020 9

is_quiet : 2 * speech_pad_samples request < min_silence_samples request
unfolding millis_to_samples
is_quiet = omega arith

one_window : length (whole_input (piece ∷ []) last_piece) % 1024 ≡ 0
one_window = refl

stream_all-probabilities_example :
    (stream_all numbers echo request (create_vad_stream numbers) (piece ∷ []) last_piece >>= λ f.
    ok f.probabilities)
    ≡ run_silero_probabilities numbers echo request
        (pcm16le_to_f32 numbers (whole_input (piece ∷ []) last_piece))
stream_all-probabilities_example =
    stream_all-probabilities numbers echo request (piece ∷ []) last_piece request_lem (refl, tt)
      refl

stream_all-segments_example :
    (stream_all numbers echo request (create_vad_stream numbers) (piece ∷ []) last_piece >>= λ f.
    ok f.segments)
    ≡ (detect_silero numbers request echo (whole_input (piece ∷ []) last_piece) >>= λ r.
        ok r.segments)
stream_all-segments_example =
    stream_all-segments numbers echo request (piece ∷ []) last_piece request_lem (refl, tt) refl
      is_quiet one_window

-- Speech in the first of six windows: it ends after four quiet windows.
speech_lem :
    speech_segments_from_probabilities numbers request (9 ∷ 0 ∷ 0 ∷ 0 ∷ 0 ∷ 4 ∷ []) 3072
    ≡ segment 0 992 16000 ∷ []
unfolding speech_segments_from_probabilities millis_to_samples append_segment push_segment
speech_lem = refl

-- The last frame of an input that is no number of whole windows: the batch ends the speech, since it
-- counts the frame as whole.
partial_batch :
    speech_segments_from_probabilities numbers request (9 ∷ 0 ∷ 0 ∷ 0 ∷ 0 ∷ []) 2058
    ≡ segment 0 992 16000 ∷ []
unfolding speech_segments_from_probabilities millis_to_samples append_segment push_segment
partial_batch = refl

abbrev flushing : VadStream ℕ
flushing = record (create_vad_stream numbers) {
  total_samples = 2058;
  processed_samples = 2058;
  active_start = some 0;
  silence_start = some 512;
}

-- The stream goes on with the same frame, and the flush will end the segment with the input.
partial_stream : consume_silence numbers request 0 2048 2058 flushing [] ≡ (flushing, [])
unfolding consume_silence millis_to_samples append_segment push_segment create_vad_stream
partial_stream = refl

abbrev trimming : TrimStream ℕ
trimming = create_trim_stream numbers echo request (λ n. true) 4096

trimming-IsBuffered : IsBuffered [] trimming
unfolding create_trim_stream create_vad_stream
trimming-IsBuffered = record {
  buffered = refl;
  reached = omega arith;
  received = refl;
  emitted = omega arith;
}

is_open : trimming.vad.finished ≡ false
unfolding create_trim_stream create_vad_stream
is_open = refl

process_trim-AfterCall_example :
    AfterCall numbers echo request
      (λ n. true)
      []
      trimming
      last_piece
      (process_trim numbers echo request (λ n. true) trimming last_piece true)
process_trim-AfterCall_example =
    process_trim-AfterCall numbers echo request (λ n. true) [] trimming last_piece true is_open
      trimming-IsBuffered
