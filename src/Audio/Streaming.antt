-- ===== src/Audio/Streaming.antt =====
-- The streaming waveform of PCM16 audio, against the waveform of the same audio decoded as a whole.
use dart_edge.Base.{
  ℕ, ◌*◌, ◌/◌, ◌%◌, ◌≤◌, ◌<◌, ◌≡◌, refl, sym, ap, ◌∙◌, subst, false, List, [], ◌∷◌, length,
  length-append, All, ◌==◌, arith,
}
use dart_edge.Base.Result.{ok}
use dart_edge.Base.Words.{word}
use dart_edge.Text.Bytes.{concat, Bytes}
use dart_edge.Audio.Sample.{Sample}
use dart_edge.Audio.Pcm16.{DecodedAudio, chunks_exact, decode_pcm16_le}
use dart_edge.Audio.Peaks.{new_accumulator, finish_waveform}
use dart_edge.Audio.Waveform.{
  WaveformSession, NativeStreamingWaveformRequest, waveform_create, waveform_finish,
  generate_waveform,
}
use dart_edge.Audio.Pushing.{AreAligned, Shows}
use dart_edge.Audio.Frames.{
  AreWhole, parts-length, length-parts, mod_add, decode_pcm16_le-AreDecoded,
}
use dart_edge.Audio.Observed.{SumsAgree, observed, observe_columns-observed}
use dart_edge.Audio.SessionRun.{
  waveform_add_all, session_after, waveform_create-ok, add_all-session_after,
}

concat-AreWhole :
    (c : ℕ) (inputs : List Bytes)
    → 0 < c
    → c ≤ 32
    → All (AreWhole c) inputs
    → AreWhole c (concat inputs)
concat-AreWhole c [] p q h = record {
  some_channel = p;
  is_word = omega (arith, q);
  whole = omega (arith, p);
}
concat-AreWhole c (input ∷ inputs) p q h =
    let rest = concat-AreWhole c inputs p q h.1 in
    record {
      some_channel = p;
      is_word = omega (arith, q);
      whole =
          subst (λ n. n % (c * 2) ≡ 0) (sym (length-append input (concat inputs)))
            (mod_add (length input) (length (concat inputs)) (c * 2) (omega (arith, p)) h.0.whole
              rest.whole);
    }

long_frames :
    (c : ℕ) (frames : List Bytes)
    → 0 < c
    → All (λ frame. length frame ≡ c * 2) frames
    → All (λ frame. 2 ≤ length frame) frames
long_frames c [] p h = tt
long_frames c (frame ∷ frames) p h = (omega (arith, p, h.0), long_frames c frames p h.1)

generate_waveform-observed :
    {F : Type 0} (float : Sample F) (request : NativeStreamingWaveformRequest)
    (samples : List (List F)) (n : ℕ) (chunks : List Bytes)
    → SumsAgree float
    → length samples ≡ request.channel_count
    → AreAligned n samples
    → length chunks ≡ n
    → 0 < n
    → 0 < request.channel_count
    → All (λ frame. length frame ≡ request.channel_count * 2) chunks
    → Shows float samples 0 chunks
    → generate_waveform float samples request.sample_rate_hz request.waveform
      ≡ finish_waveform
          (observed float request.channel_count chunks
            (new_accumulator request.sample_rate_hz request.waveform.base_interval_micros))
          request.waveform
unfolding generate_waveform
generate_waveform-observed float request [] n chunks agree e a l p q h shows =
    absurd (omega (arith, e, q))
generate_waveform-observed float request (first ∷ rest) n chunks agree e a l p q h shows =
    let some_frames : (length first == 0) ≡ false = ground (arith, a.0, p) in
    let count : length first ≡ length chunks = a.0 ∙ sym l in
    let start = new_accumulator request.sample_rate_hz request.waveform.base_interval_micros in
    rw
      (
        some_frames,
        count,
        observe_columns-observed float request.channel_count (first ∷ rest) 0 chunks start agree e
            (long_frames request.channel_count chunks q h) shows,
      )
      refl

-- Where a sum from the two zeros of the code is the same once a sample is added, the streaming waveform
-- of inputs of whole frames, some frame and fewer than 2 ^ 64 bytes in all, equals the waveform that is
-- generated from the decoding of the inputs as a whole: no call fails, and however the audio is cut
-- into calls the peaks, the levels and their places are the same.
pub waveform_finish-generate_waveform :
    {F : Type 0} (float : Sample F) (request : NativeStreamingWaveformRequest) (s : WaveformSession)
    (inputs : List Bytes)
    → waveform_create request ≡ ok s
    → SumsAgree float
    → All (AreWhole request.channel_count) inputs
    → length (concat inputs) < word
    → 0 < length (concat inputs)
    → (audio : DecodedAudio F) × (end : WaveformSession) × (decode_pcm16_le float
          (λ _. ok tt)
          (concat inputs)
          request.sample_rate_hz
          request.channel_count
        ≡ ok audio)
      × (waveform_add_all float s inputs ≡ ok end)
      × ((waveform_finish float end).1
          ≡ generate_waveform float audio.samples request.sample_rate_hz request.waveform)
unfolding waveform_finish chunks_exact
waveform_finish-generate_waveform float request s inputs h agree w few some_bytes =
    let c = request.channel_count in
    let (p, q, made) = waveform_create-ok request s h in
    let whole = concat-AreWhole c inputs p q w in
    let d =
      decode_pcm16_le-AreDecoded float (λ _. ok tt) (concat inputs) request.sample_rate_hz c
        (λ n. refl) whole in
    let start = new_accumulator request.sample_rate_hz request.waveform.base_interval_micros in
    let count = length (concat inputs) / (c * 2) in
    (
      d.audio,
      session_after float request start 0 (chunks_exact (c * 2) (concat inputs)),
      d.succeeds,
      ap (λ t. waveform_add_all float t inputs) made
          ∙ add_all-session_after float request start 0 inputs w (omega (arith, few)),
      sym (
          generate_waveform-observed float request d.audio.samples count
            (chunks_exact (c * 2) (concat inputs)) agree d.channels d.aligned
            (length-parts (c * 2) count (concat inputs)) (grind (arith, whole.whole, some_bytes)) p
            (parts-length (c * 2) count (concat inputs) (grind arith)) d.shows),
    )
