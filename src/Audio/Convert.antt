-- ===== src/Audio/Convert.antt =====
-- packages/dart_edge_audio/rust/src/lib.rs: `convert_audio` (lines 1975 to 1994), the audio that it
-- gives (466 to 470, 2836 to 2879), `resample` (2078 to 2126) and the start of `finish_pool_result`
-- (2243 to 2257). What the resampler of `rubato` gives, interleaved, is a parameter.
use dart_edge.Base.{
  ℕ, zero, suc, ◌+◌, ◌-◌, ◌*◌, ◌/◌, ◌%◌, ◌||◌, List, [], ◌∷◌, Option, none, some, is_empty, length,
  take, drop, ltb, ◌==◌, if◌then◌else◌,
}
use Prim.Native.Nat.{min}
use dart_edge.Base.Result.{Result, ok, ◌>>=◌, ◌>>◌}
use dart_edge.Base.Words.{word_max}
use dart_edge.Text.Bytes.{Str, text}
use dart_edge.Audio.Sample.{Sample, AudioError, fails}
use dart_edge.Audio.Format.{
  NativeAudioTargetFormat, NativeAudioChannelLayout, output, container, codec_name,
  metadata_bit_depth, target_bit_rate, duration_micros,
}
use dart_edge.Audio.Remix.{remix_channels}
use dart_edge.Audio.Pcm16.{
  DecodedAudio, Pcm16StreamSession, decode_pcm16_le, push_frame, empty_channels,
}

pub record ConvertedAudio (F : Type 0) : Type 0 where
  pub samples : List (List F)
  pub sample_rate : ℕ
  pub target_format : NativeAudioTargetFormat

pub record NativeAudioMetadata : Type 0 where
  pub duration_micros : ℕ
  pub container : Option Str
  pub codec : Option Str
  pub sample_rate : Option ℕ
  pub channel_count : Option ℕ
  pub bit_rate : Option ℕ
  pub bit_depth : Option ℕ

abbrev u32_mod : ℕ
u32_mod = 4294967296

-- `saturating_mul` on 64 bits.
abbrev saturating_mul : ℕ → ℕ → ℕ
saturating_mul a b = min (a * b) word_max

abbrev pcm_bit_rate : ℕ → ℕ → Option ℕ → Option ℕ
pcm_bit_rate sample_rate channel_count none = none
pcm_bit_rate sample_rate channel_count (some bit_depth) =
    let rate = saturating_mul (saturating_mul sample_rate channel_count) bit_depth in
    if ltb rate u32_mod then some rate else none

abbrev or_else : Option ℕ → Option ℕ → Option ℕ
or_else none other = other
or_else (some a) other = some a

module _ {F : Type 0} where
  abbrev pub frame_count : List (List F) → ℕ
  frame_count [] = 0
  frame_count (channel ∷ _) = length channel

  -- `ConvertedAudio::metadata`, less its tags, which are none.
  unfoldable pub metadata : ConvertedAudio F → NativeAudioMetadata
  unfolding output container codec_name metadata_bit_depth target_bit_rate
  metadata audio =
      let spec = output audio.target_format in
      let channel_count = length audio.samples % u32_mod in
      record {
        duration_micros = duration_micros (frame_count audio.samples) audio.sample_rate;
        container = some (container spec);
        codec = some (codec_name spec);
        sample_rate = some audio.sample_rate;
        channel_count = some channel_count;
        bit_rate =
            or_else (target_bit_rate spec)
              (pcm_bit_rate audio.sample_rate channel_count (metadata_bit_depth spec));
        bit_depth = metadata_bit_depth spec;
      }

abbrev pub rate_or : Option ℕ → ℕ → ℕ
rate_or none rate = rate
rate_or (some target) rate = target

module _ {F : Type 0} where
  -- `chunks`, over as many frames as the samples have; the last may be short.
  unfoldable pub push_interleaved :
      ℕ → ℕ → List (List F) → List F → Result (List (List F)) AudioError
  unfolding push_frame
  push_interleaved size zero channels samples = ok channels
  push_interleaved size (suc count) channels samples = do
    next ← push_frame channels (take size samples)
    push_interleaved size count next (drop size samples)

module _ {F : Type 0} (float : Sample F) (try_reserve : ℕ → Result (Unit {0}) AudioError)
    (resampled : List (List F) → ℕ → ℕ → Result (List F) AudioError) where
  unfoldable pub resample : List (List F) → ℕ → ℕ → Result (List (List F)) AudioError
  unfolding push_interleaved empty_channels
  resample samples input_rate output_rate =
      if input_rate == output_rate
      then ok samples
      else if is_empty samples || frame_count samples == 0
      then fails (text "Audio input does not contain any frames to resample.")
      else (do
        let channel_count = length samples
        flat ← resampled samples input_rate output_rate
        try_reserve channel_count
        channels ← empty_channels try_reserve (length flat / channel_count) channel_count
        push_interleaved channel_count ((length flat + channel_count - 1) / channel_count) channels
            flat)

  unfoldable pub convert_audio :
      DecodedAudio F
      → Option ℕ
      → NativeAudioChannelLayout
      → NativeAudioTargetFormat
      → Result (ConvertedAudio F) AudioError
  unfolding remix_channels resample
  convert_audio decoded target_sample_rate channel_layout target_format = do
    remixed ← remix_channels float try_reserve decoded.samples channel_layout
    let sample_rate = rate_or target_sample_rate decoded.sample_rate
    samples ←
        (if sample_rate == decoded.sample_rate
          then ok remixed
          else resample remixed decoded.sample_rate sample_rate)
    ok (record { samples = samples; sample_rate = sample_rate; target_format = target_format })

  -- What `finish_pool_result` encodes.
  unfoldable pub convert_input : Pcm16StreamSession → Result (ConvertedAudio F) AudioError
  unfolding decode_pcm16_le convert_audio
  convert_input s =
      let request = s.request in
      if is_empty s.input then fails (text "PCM16 stream does not contain audio.") else (do
        decoded ←
            decode_pcm16_le float try_reserve s.input request.input_sample_rate_hz
              request.input_channel_count
        convert_audio decoded request.target_sample_rate request.channel_layout
            request.target_format)
