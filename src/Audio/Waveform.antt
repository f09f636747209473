-- ===== src/Audio/Waveform.antt =====
-- packages/dart_edge_audio/rust/src/lib.rs: waveforms, of a stream and of converted audio (lines 73 to
-- 79, 232 to 238, 628 to 667, 2335 to 2382, 2503 to 2523).
use dart_edge.Base.{
  ℕ, zero, suc, ◌+◌, Bool, true, false, ◌||◌, List, [], ◌∷◌, Option, none, some, is_empty, length,
  ltb, leb, ◌==◌, if◌then◌else◌,
}
use dart_edge.Base.Result.{Result, ok, err, ◌>>=◌, ◌>>◌}
use dart_edge.Base.Words.{word}
use dart_edge.Text.Bytes.{Bytes, text}
use dart_edge.Audio.Sample.{Sample, AudioError, fails, float_to_waveform_i8, samples_of, sum_from}
use dart_edge.Audio.Format.{NativeWaveformSpec, validate_waveform_spec}
use dart_edge.Audio.Remix.{frame_at}
use dart_edge.Audio.Pcm16.{frame_size, whole_frames, chunks_exact, complete_frames}
use dart_edge.Audio.Convert.{frame_count}
use dart_edge.Audio.Peaks.{
  WaveformAccumulator, new_accumulator, observe_peak, EncodedWaveform, finish_waveform,
}

-- `DartEdgeAudioWaveformSession`.
pub record WaveformSession : Type 0 where
  pub accumulator : Option WaveformAccumulator
  pub spec : NativeWaveformSpec
  pub sample_rate_hz : ℕ
  pub channel_count : ℕ
  pub frame_count : ℕ

pub record NativeStreamingWaveformRequest : Type 0 where
  pub sample_rate_hz : ℕ
  pub channel_count : ℕ
  pub waveform : NativeWaveformSpec

unfoldable pub waveform_create : NativeStreamingWaveformRequest → Result WaveformSession AudioError
unfolding validate_waveform_spec
waveform_create request =
    if request.sample_rate_hz == 0 || ltb 768000 request.sample_rate_hz
    then fails (text "Streaming waveform sampleRateHz must be between 1 and 768000.")
    else if request.channel_count == 0 || ltb 32 request.channel_count
    then fails (text "Streaming waveform channelCount must be between 1 and 32.")
    else validate_waveform_spec request.waveform
      >> ok (record {
        accumulator =
            some (new_accumulator request.sample_rate_hz request.waveform.base_interval_micros);
        spec = request.waveform;
        sample_rate_hz = request.sample_rate_hz;
        channel_count = request.channel_count;
        frame_count = 0;
      })

module _ {F : Type 0} (float : Sample F) where
  unfoldable pub observe : F → WaveformAccumulator → WaveformAccumulator
  unfolding observe_peak float_to_waveform_i8
  observe sample a = observe_peak (float_to_waveform_i8 float sample) a

  -- The mean of the samples of a frame, added up from 0.
  unfoldable pub visualization_sample : ℕ → Bytes → F
  unfolding samples_of sum_from
  visualization_sample channels frame =
      float.div (sum_from float float.zero (samples_of float frame)) (float.of_nat channels)

  -- The loop over the frames, and the frames counted; a count that overflows ends it.
  unfoldable pub observe_frames :
      ℕ → List Bytes → WaveformAccumulator × ℕ → (WaveformAccumulator × ℕ) × Bool
  unfolding observe visualization_sample
  observe_frames channels [] s = (s, true)
  observe_frames channels (frame ∷ frames) s =
      let a = observe (visualization_sample channels frame) s.0 in
      let rest = observe_frames channels frames (a, s.1 + 1) in
      if leb word (s.1 + 1) then ((a, s.1), false) else rest

  -- A call that fails in the middle leaves what it has observed.
  unfoldable pub waveform_add_pcm16 :
      WaveformSession → Bytes → WaveformSession × Result (Unit {0}) AudioError
  unfolding frame_size whole_frames chunks_exact observe_frames
  waveform_add_pcm16 s input =
      let sized =
        frame_size s.channel_count (text "Streaming waveform frame size is too large.") >>= λ size.
        (whole_frames input size (complete_frames (text "Streaming PCM16 input") s.channel_count)
          >> ok size) in
      elim sized [
        | err e ↦ (s, err e)
        | ok size ↦ elim s.accumulator [
          | none ↦ (s, fails (text "Streaming waveform session is already finished."))
          | some a ↦
              (let r =
                  observe_frames s.channel_count (chunks_exact size input) (a, s.frame_count) in
                (
                  record s { accumulator = some r.0.0; frame_count = r.0.1 },
                  if r.1 then ok tt else fails (text "Streaming waveform frame count overflowed."),
                ))
        ]
      ]

  -- The accumulator is taken out first, so that a second call fails.
  unfoldable pub waveform_finish :
      WaveformSession → WaveformSession × Result EncodedWaveform AudioError
  unfolding finish_waveform
  waveform_finish s = elim s.accumulator [
    | none ↦ (s, fails (text "Streaming waveform session is already finished."))
    | some a ↦ (record s { accumulator = none }, finish_waveform a s.spec)
  ]

  -- The waveform of converted audio: the frames from `i`, as many as the second number.
  unfoldable pub observe_columns :
      List (List F) → ℕ → ℕ → WaveformAccumulator → Result WaveformAccumulator AudioError
  unfolding observe sum_from
  observe_columns samples i zero a = ok a
  observe_columns samples i (suc n) a = do
    frame ← frame_at samples i
    let sum = sum_from float float.sum_start frame
    observe_columns samples (suc i) n (observe (float.div sum (float.of_nat (length samples))) a)

  unfoldable pub generate_waveform :
      List (List F) → ℕ → NativeWaveformSpec → Result EncodedWaveform AudioError
  unfolding observe_columns finish_waveform
  generate_waveform samples sample_rate spec =
      if is_empty samples || frame_count samples == 0
      then fails (text "Audio conversion did not produce any output samples.")
      else (do
        a ←
            observe_columns samples 0 (frame_count samples)
              (new_accumulator sample_rate spec.base_interval_micros)
        finish_waveform a spec)
