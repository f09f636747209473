-- ===== src/Audio/Gathering.antt =====
-- The PCM16 session over its life: which input it holds, and what it is converted to at
-- the end, before it is encoded.
use dart_edge.Base.{
  ℕ, ◌*◌, ◌/◌, ◌<◌, ◌≡◌, refl, sym, ap, ◌∙◌, subst, true, false, List, [], ◌∷◌, Option, length,
  is_empty, ◌==◌, arith,
}
use dart_edge.Base.Result.{Result, ok}
use dart_edge.Base.Words.{word}
use dart_edge.Text.Bytes.{Bytes}
use dart_edge.Audio.Sample.{Sample, AudioError}
use dart_edge.Audio.Format.{NativeAudioChannelLayout, NativeAudioTargetFormat}
use dart_edge.Audio.Remix.{remix_channels}
use dart_edge.Audio.Pcm16.{
  DecodedAudio, NativePcm16StreamRequest, Pcm16StreamSession, pcm16_stream_create,
}
use dart_edge.Audio.Convert.{ConvertedAudio, rate_or, convert_audio, convert_input}
use dart_edge.Audio.Pushing.{AreAligned}
use dart_edge.Audio.Frames.{Grants, decode_pcm16_le-AreDecoded}
use dart_edge.Audio.Shape.{channels_of, remix_channels-AreRemixed}
use dart_edge.Audio.Held.{
  IsChecked, pcm16_stream_create-IsChecked, gathered, add_all, IsBounded, gathered-IsBounded,
  add_all-gathered,
}

-- The audio that a session is converted to, by its channels and frames.
pub record IsConverted {F : Type 0} (s : Pcm16StreamSession)
    (r : Result (ConvertedAudio F) AudioError) : Type 0 where
  pub audio : ConvertedAudio F
  pub succeeds : r ≡ ok audio
  pub aligned : AreAligned (length s.input / (s.request.input_channel_count * 2)) audio.samples
  pub channels :
      length audio.samples ≡ channels_of s.request.channel_layout s.request.input_channel_count
  pub same_rate : audio.sample_rate ≡ s.request.input_sample_rate_hz

non_empty : (xs : Bytes) → 0 < length xs → is_empty xs ≡ false
non_empty [] h = absurd (omega (arith, h))
non_empty (x ∷ xs) h = refl

eq_self : (n : ℕ) → (n == n) ≡ true
eq_self n = ground arith

-- Audio of the wanted rate is only remixed.
convert_audio-same_rate :
    {F : Type 0} (float : Sample F) (try_reserve : ℕ → Result (Unit {0}) AudioError)
    (resampled : List (List F) → ℕ → ℕ → Result (List F) AudioError) (decoded : DecodedAudio F)
    (target : Option ℕ) (layout : NativeAudioChannelLayout) (format : NativeAudioTargetFormat)
    (out : List (List F))
    → rate_or target decoded.sample_rate ≡ decoded.sample_rate
    → remix_channels float try_reserve decoded.samples layout ≡ ok out
    → convert_audio float try_reserve resampled decoded target layout format
      ≡ ok (record { samples = out; sample_rate = decoded.sample_rate; target_format = format })
unfolding convert_audio
convert_audio-same_rate float try_reserve resampled decoded target layout format out h r =
    rw (r, h, eq_self decoded.sample_rate) refl

convert_input-session :
    {F : Type 0} (float : Sample F) (try_reserve : ℕ → Result (Unit {0}) AudioError)
    (resampled : List (List F) → ℕ → ℕ → Result (List F) AudioError) (s : Pcm16StreamSession)
    → Grants try_reserve
    → IsChecked s.request
    → IsBounded s.request s.input
    → 0 < length s.input
    → rate_or s.request.target_sample_rate s.request.input_sample_rate_hz
      ≡ s.request.input_sample_rate_hz
    → IsConverted s (convert_input float try_reserve resampled s)
unfolding convert_input
convert_input-session float try_reserve resampled s g c b h rate =
    let count = s.request.input_channel_count in
    let d =
      decode_pcm16_le-AreDecoded float try_reserve s.input s.request.input_sample_rate_hz count g
        (record {
          some_channel = c.some_channel;
          is_word = omega (arith, c.few_channels);
          whole = b.whole;
        }) in
    let r =
      remix_channels-AreRemixed float try_reserve (length s.input / (count * 2))
        s.request.channel_layout d.audio.samples g d.aligned
        (omega (arith, d.channels, c.some_channel)) in
    let rate_kept : rate_or s.request.target_sample_rate d.audio.sample_rate ≡ d.audio.sample_rate =
      subst (λ n. rate_or s.request.target_sample_rate n ≡ n) (sym d.same_rate) rate in
    record {
      audio = record {
        samples = r.samples;
        sample_rate = d.audio.sample_rate;
        target_format = s.request.target_format;
      };
      succeeds =
          rw (non_empty s.input h, d.succeeds)
            (convert_audio-same_rate float try_reserve resampled d.audio
              s.request.target_sample_rate s.request.channel_layout s.request.target_format
              r.samples rate_kept r.succeeds);
      aligned = r.aligned;
      channels = r.channels ∙ ap (channels_of s.request.channel_layout) d.channels;
      same_rate = d.same_rate;
    }

-- Where memory can be had, and a session that a request has created holds some audio and keeps its
-- rate: at its end, its input is decoded and converted without an error, and the audio that goes to
-- the encoder has the channels of the layout, each with one sample for each frame of the input held,
-- at the input's rate. What the encoder makes of it is not a part of this.
pub convert_input-IsConverted :
    {F : Type 0} (float : Sample F) (try_reserve : ℕ → Result (Unit {0}) AudioError)
    (resampled : List (List F) → ℕ → ℕ → Result (List F) AudioError)
    (request : NativePcm16StreamRequest) (s : Pcm16StreamSession) (inputs : List Bytes)
    → pcm16_stream_create request ≡ ok s
    → Grants try_reserve
    → request.max_buffered_bytes < word
    → rate_or request.target_sample_rate request.input_sample_rate_hz ≡ request.input_sample_rate_hz
    → 0 < length (gathered request [] inputs)
    → IsConverted
        (record { input = gathered request [] inputs; request = request })
        (convert_input float try_reserve resampled (add_all try_reserve s inputs))
convert_input-IsConverted float try_reserve resampled request s inputs h g m rate some_audio =
    let (c, made) = pcm16_stream_create-IsChecked request s h in
    let b =
      gathered-IsBounded request [] inputs c
        (record { whole = ground (arith, c.some_channel); within = omega arith }) in
    let end : Pcm16StreamSession = record {
      input = gathered request [] inputs;
      request = request;
    } in
    let reached : add_all try_reserve s inputs ≡ end =
      ap (λ t. add_all try_reserve t inputs) made
      ∙ add_all-gathered try_reserve request [] inputs g c m in
    subst (λ t. IsConverted end (convert_input float try_reserve resampled t)) (sym reached)
      (convert_input-session float try_reserve resampled end g c b some_audio rate)
