-- ===== src/Audio/SessionRun.antt =====
-- The calls of a streaming waveform session, against the frames of all the inputs.
use dart_edge.Base.{
  ℕ, ◌+◌, ◌*◌, ◌/◌, ◌≤◌, ◌<◌, ◌≡◌, refl, sym, ap, ◌∙◌, List, [], ◌∷◌, ◌++◌, some, length,
  length-append, All, arith,
}
use dart_edge.Base.Result.{Result, ok, ◌>>=◌}
use dart_edge.Base.Words.{word}
use dart_edge.Text.Bytes.{concat, Bytes, text}
use dart_edge.Audio.Sample.{Sample, AudioError}
use dart_edge.Audio.Pcm16.{parts, chunks_exact, complete_frames}
use dart_edge.Audio.Peaks.{WaveformAccumulator, new_accumulator}
use dart_edge.Audio.Waveform.{
  WaveformSession, NativeStreamingWaveformRequest, waveform_create, waveform_add_pcm16,
}
use dart_edge.Audio.Frames.{AreWhole, frame_size-ok, whole_frames-ok, length-parts}
use dart_edge.Audio.Observed.{
  observed, observed-append, observe_frames-observed, plus_zero, chunks_exact-append,
}

-- The calls of the Dart side one after the other, up to the first that fails.
abbrev pub waveform_add_all :
    {F : Type 0} → Sample F → WaveformSession → List Bytes → Result WaveformSession AudioError
waveform_add_all float s [] = ok s
waveform_add_all float s (input ∷ inputs) = (waveform_add_pcm16 float s input).1 >>= λ _.
    waveform_add_all float (waveform_add_pcm16 float s input).0 inputs

-- The session that a request makes, after the frames of some audio.
abbrev pub session_after :
    {F : Type 0}
    → Sample F
    → NativeStreamingWaveformRequest
    → WaveformAccumulator
    → ℕ
    → List Bytes
    → WaveformSession
session_after float request a n chunks = record {
  accumulator = some (observed float request.channel_count chunks a);
  spec = request.waveform;
  sample_rate_hz = request.sample_rate_hz;
  channel_count = request.channel_count;
  frame_count = n + length chunks;
}

add-session_after :
    {F : Type 0} (float : Sample F) (request : NativeStreamingWaveformRequest)
    (a : WaveformAccumulator) (n : ℕ) (input : Bytes)
    → AreWhole request.channel_count input
    → n + length (chunks_exact (request.channel_count * 2) input) < word
    → waveform_add_pcm16 float (session_after float request a n []) input
      ≡ (session_after float request a n (chunks_exact (request.channel_count * 2) input), ok tt)
unfolding waveform_add_pcm16
add-session_after float request a n input w h =
    let c = request.channel_count in
    let zero_more : n + 0 ≡ n = omega arith in
    rw
      (
        frame_size-ok c (text "Streaming waveform frame size is too large.") w.is_word,
        whole_frames-ok c input (complete_frames (text "Streaming PCM16 input") c) w,
        zero_more,
        observe_frames-observed float c (chunks_exact (c * 2) input) a n h,
        waveform_add_pcm16,
      )
      refl

pub waveform_create-ok :
    (request : NativeStreamingWaveformRequest) (s : WaveformSession)
    → waveform_create request ≡ ok s
    → (0 < request.channel_count)
      × (request.channel_count ≤ 32)
      × (s ≡ record {
        accumulator =
            some (new_accumulator request.sample_rate_hz request.waveform.base_interval_micros);
        spec = request.waveform;
        sample_rate_hz = request.sample_rate_hz;
        channel_count = request.channel_count;
        frame_count = 0;
      })
unfolding waveform_create
waveform_create-ok request s h = ground (arith, h)

-- As many frames as fit, so no more than the bytes.
length-chunks_exact : (size : ℕ) (xs : Bytes) → length (chunks_exact size xs) ≤ length xs
unfolding chunks_exact
length-chunks_exact size xs = grind (arith, length-parts size (length xs / size) xs)

chunks_exact-nil : (size : ℕ) → chunks_exact size [] ≡ []
unfolding chunks_exact parts
chunks_exact-nil size =
    let no_part : 0 / size ≡ 0 = omega arith in ap (λ n. parts size n []) no_part

-- A session goes on from where it stands.
session_after-session_after :
    {F : Type 0} (float : Sample F) (request : NativeStreamingWaveformRequest)
    (a : WaveformAccumulator) (n : ℕ) (xs ys : List Bytes)
    → session_after float request (observed float request.channel_count xs a) (n + length xs) ys
      ≡ session_after float request a n (xs ++ ys)
session_after-session_after float request a n xs ys =
    let count : n + length xs + length ys ≡ n + length (xs ++ ys) =
      omega (arith, length-append xs ys) in
    rw (observed-append float request.channel_count xs ys a, count) refl

pub add_all-session_after :
    {F : Type 0} (float : Sample F) (request : NativeStreamingWaveformRequest)
    (a : WaveformAccumulator) (n : ℕ) (inputs : List Bytes)
    → All (AreWhole request.channel_count) inputs
    → n + length (concat inputs) < word
    → waveform_add_all float (session_after float request a n []) inputs
      ≡ ok (
          session_after float request a n
            (chunks_exact (request.channel_count * 2) (concat inputs)))
add_all-session_after float request a n [] w h =
    ap (λ chunks. ok (session_after float request a n chunks))
      (sym (chunks_exact-nil (request.channel_count * 2)))
add_all-session_after float request a n (input ∷ inputs) w h =
    let size = request.channel_count * 2 in
    let chunks = chunks_exact size input in
    let bound = length-append input (concat inputs) in
    let few = length-chunks_exact size input in
    let a' = observed float request.channel_count chunks a in
    let later = chunks_exact size (concat inputs) in
    rw (add-session_after float request a n input w.0 (omega (arith, h, bound, few))) (
      ap (λ s. waveform_add_all float s inputs)
        (ap (λ m. record (session_after float request a n chunks) { frame_count = m })
          (plus_zero (n + length chunks)))
      ∙ add_all-session_after float request a' (n + length chunks) inputs w.1
          (omega (arith, h, bound, few))
      ∙ ap ok (
          session_after-session_after float request a n chunks later
          ∙ ap (λ c. session_after float request a n c)
              (sym (
                chunks_exact-append size input (concat inputs) (omega (arith, w.0.some_channel))
                  w.0.whole))))
