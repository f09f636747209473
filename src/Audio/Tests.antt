-- ===== src/Audio/Tests.antt =====
-- packages/dart_edge_audio: the model on concrete inputs.
use dart_edge.Base.{ℕ, ◌+◌, ◌*◌, ◌%◌, ◌≡◌, refl, List, [], ◌∷◌, none, some, arith}
use dart_edge.Base.Result.{Result, ok}
use dart_edge.Text.Bytes.{concat, Bytes}
use dart_edge.Audio.Sample.{Sample, AudioError}
use dart_edge.Audio.Format.{
  NativeWaveformSpec, output_spec, wav_pcm16, mono, validate_waveform_spec,
}
use dart_edge.Audio.Pcm16.{
  DecodedAudio, NativePcm16StreamRequest, Pcm16StreamSession, pcm16_stream_create, decode_pcm16_le,
}
use dart_edge.Audio.Convert.{convert_input}
use dart_edge.Audio.Peaks.{EncodedWaveform, new_accumulator, flush, finish_waveform}
use dart_edge.Audio.Waveform.{
  WaveformSession, NativeStreamingWaveformRequest, waveform_create, waveform_finish,
  generate_waveform,
}
use dart_edge.Audio.MemoryStream.{
  native_memory_byte_stream, memory_callbacks, memory_release, owned_stream,
  read_native_stream_to_end, drop_owned,
}
use dart_edge.Http.ByteStream.{consume, drop_stream, not_started}
use dart_edge.Audio.Sending.{IsSent, reads_of, consume-memory}
use dart_edge.Audio.MemoryRead.{read_out, read_native_stream_to_end-memory}
use dart_edge.Audio.Held.{IsBounded, add_all, gathered, add_all-IsBounded}
use dart_edge.Audio.Gathering.{IsConverted, convert_input-IsConverted}
use dart_edge.Audio.SessionRun.{waveform_add_all}
use dart_edge.Audio.Streaming.{waveform_finish-generate_waveform}
use dart_edge.Audio.Buckets.{observe_peaks}
use dart_edge.Audio.Observing.{AreBuckets}
use dart_edge.Audio.Tiling.{Tile, finish_waveform-Tile}

-- Samples as numbers, where a bit pattern of 16 bits is kept and a quotient is 0.
abbrev numbers : Sample ℕ
numbers = record {
  zero = 0;
  sum_start = 0;
  add = λ a b. a + b;
  mul = λ a b. a * b;
  div = λ a b. a;
  neg = λ a. a;
  clamp = λ a low high. a;
  of_nat = λ n. n;
  of_i16 = λ b. b;
  round_i8 = λ a. a % 256;
}

abbrev memory : ℕ → Result (Unit {0}) AudioError
memory n = ok tt

abbrev no_resampler : List (List ℕ) → ℕ → ℕ → Result (List ℕ) AudioError
no_resampler samples from to = ok []

-- Two channels of PCM16, mixed to one, with at most eight bytes.
abbrev request : NativePcm16StreamRequest
request = record {
  input_sample_rate_hz = 8000;
  input_channel_count = 2;
  target_format = output_spec wav_pcm16;
  target_sample_rate = none;
  channel_layout = mono;
  max_buffered_bytes = 8;
}

abbrev session : Pcm16StreamSession
session = record { input = []; request = request }

-- One frame, half a frame, one frame, and more than fits.
abbrev calls : List Bytes
calls = (1 ∷ 0 ∷ 3 ∷ 0 ∷ []) ∷ (9 ∷ 9 ∷ []) ∷ (5 ∷ 0 ∷ 7 ∷ 0 ∷ []) ∷ (1 ∷ 1 ∷ 1 ∷ 1 ∷ []) ∷ []

calls_held : gathered request [] calls ≡ 1 ∷ 0 ∷ 3 ∷ 0 ∷ 5 ∷ 0 ∷ 7 ∷ 0 ∷ []
calls_held = refl

add_all-IsBounded_example :
    ((add_all memory session calls).input ≡ gathered request [] calls)
    × IsBounded request (add_all memory session calls).input
unfolding pcm16_stream_create
add_all-IsBounded_example =
    add_all-IsBounded memory request session calls refl (λ n. refl) (omega arith)

convert_input-IsConverted_example :
    IsConverted
      (record { input = gathered request [] calls; request = request })
      (convert_input numbers memory no_resampler (add_all memory session calls))
unfolding pcm16_stream_create
convert_input-IsConverted_example =
    convert_input-IsConverted numbers memory no_resampler request session calls refl (λ n. refl)
      (omega arith) refl (omega arith)

-- A waveform with a second level of two buckets.
abbrev spec : NativeWaveformSpec
spec = record { base_interval_micros = 1000; level_factors = 1 ∷ 2 ∷ [] }

abbrev waveform_request : NativeStreamingWaveformRequest
waveform_request = record { sample_rate_hz = 1000; channel_count = 1; waveform = spec }

abbrev waveform_session : WaveformSession
waveform_session = record {
  accumulator = some (new_accumulator 1000 1000);
  spec = spec;
  sample_rate_hz = 1000;
  channel_count = 1;
  frame_count = 0;
}

abbrev pieces : List Bytes
pieces = (1 ∷ 0 ∷ 2 ∷ 0 ∷ []) ∷ (3 ∷ 0 ∷ []) ∷ []

waveform_finish-generate_waveform_example :
    (audio : DecodedAudio ℕ) × (end : WaveformSession) × (decode_pcm16_le numbers
        (λ _. ok tt)
        (concat pieces)
        1000
        1
      ≡ ok audio)
    × (waveform_add_all numbers waveform_session pieces ≡ ok end)
    × ((waveform_finish numbers end).1 ≡ generate_waveform numbers audio.samples 1000 spec)
unfolding waveform_create
waveform_finish-generate_waveform_example =
    waveform_finish-generate_waveform numbers waveform_request waveform_session pieces refl
      (λ low high. refl)
      (
        record { some_channel = omega arith; is_word = omega arith; whole = refl },
        (record { some_channel = omega arith; is_word = omega arith; whole = refl }, tt),
      )
      (omega arith) (omega arith)

abbrev peaks : List ℕ
peaks = 5 ∷ 250 ∷ 7 ∷ []

finish_waveform-Tile_example :
    (encoded : EncodedWaveform) × (finish_waveform
        (observe_peaks peaks (new_accumulator 1000 1000))
        spec
      ≡ ok encoded)
    × AreBuckets peaks (flush (observe_peaks peaks (new_accumulator 1000 1000))).base_peaks
    × Tile 1000
        (flush (observe_peaks peaks (new_accumulator 1000 1000))).base_peaks
        (1 ∷ 2 ∷ [])
        0
        encoded.levels
        encoded.bytes
unfolding validate_waveform_spec
finish_waveform-Tile_example = finish_waveform-Tile 1000 spec peaks refl

-- A stream of three bytes, read in two rounds.
abbrev three : Bytes
three = 1 ∷ 2 ∷ 3 ∷ []

read_native_stream_to_end-memory_example :
    (read_native_stream_to_end memory_callbacks 2
        (owned_stream (native_memory_byte_stream three).0 (native_memory_byte_stream three).1)
      ≡ some (read_out three, ok three))
    × (drop_owned memory_callbacks (read_out three) ≡ memory_release (read_out three).context)
read_native_stream_to_end-memory_example =
    read_native_stream_to_end-memory 2 three (omega arith) (omega arith)

consume-memory_example :
    IsSent three (
      consume
        (native_memory_byte_stream three).0
        (some 3)
        not_started
        (reads_of 2 (native_memory_byte_stream three).1))
    × (drop_stream (native_memory_byte_stream three).0 (
          consume
            (native_memory_byte_stream three).0
            (some 3)
            not_started
            (reads_of 2 (native_memory_byte_stream three).1))
        ≡ (0, 1))
consume-memory_example = consume-memory 2 three (omega arith) (omega arith)
