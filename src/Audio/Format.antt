-- ===== src/Audio/Format.antt =====
-- packages/dart_edge_audio/rust/src/lib.rs: the target formats and what each of them stands for (lines
-- 261 to 401, 2731 to 2758), and the time that frames take (2883 to 2889).
use dart_edge.Base.{
  ℕ, zero, ◌*◌, ◌/◌, ◌%◌, Bool, false, not, ◌&&◌, List, [], ◌∷◌, Option, none, some, ltb, leb, ◌==◌,
  if◌then◌else◌,
}
use dart_edge.Base.Result.{Result, ok, ◌>>=◌}
use dart_edge.Base.Words.{word}
use dart_edge.Text.Bytes.{Str, text}
use dart_edge.Audio.Sample.{AudioError, fails}

pub data NativeLegacyAudioTargetFormat : Type 0 where
  legacy_wav_pcm16 legacy_wav_pcm24 : NativeLegacyAudioTargetFormat

pub data NativeAudioOutputSpec : Type 0 where
  wav_pcm16 wav_pcm24 : NativeAudioOutputSpec
  m4a_aac_lc : ℕ → NativeAudioOutputSpec
  flac : ℕ → NativeAudioOutputSpec

pub data NativeAudioTargetFormat : Type 0 where
  legacy : NativeLegacyAudioTargetFormat → NativeAudioTargetFormat
  output_spec : NativeAudioOutputSpec → NativeAudioTargetFormat

pub data NativeAudioChannelLayout : Type 0 where
  keep_source mono stereo : NativeAudioChannelLayout

unfoldable pub output : NativeAudioTargetFormat → NativeAudioOutputSpec
output (legacy legacy_wav_pcm16) = wav_pcm16
output (legacy legacy_wav_pcm24) = wav_pcm24
output (output_spec spec) = spec

abbrev pub validate_output : NativeAudioOutputSpec → Result (Unit {0}) AudioError
validate_output (m4a_aac_lc bit_rate) =
    if not (leb 8000 bit_rate && leb bit_rate 512000)
    then fails (text "AAC bit rate must be between 8000 and 512000 bits per second.")
    else ok tt
validate_output (flac compression_level) =
    if ltb 8 compression_level
    then fails (text "FLAC compression level must be between 0 and 8.")
    else ok tt
validate_output _ = ok tt

-- `NativeAudioTargetFormat::validate`.
unfoldable pub validate_format : NativeAudioTargetFormat → Result (Unit {0}) AudioError
unfolding output
validate_format format = validate_output (output format)

unfoldable pub pcm_bit_depth : NativeAudioOutputSpec → Result ℕ AudioError
pcm_bit_depth wav_pcm16 = ok 16
pcm_bit_depth wav_pcm24 = ok 24
pcm_bit_depth (flac _) = ok 16
pcm_bit_depth (m4a_aac_lc _) = fails (text "AAC output does not expose a PCM bit depth.")

unfoldable pub metadata_bit_depth : NativeAudioOutputSpec → Option ℕ
metadata_bit_depth wav_pcm16 = some 16
metadata_bit_depth (flac _) = some 16
metadata_bit_depth wav_pcm24 = some 24
metadata_bit_depth (m4a_aac_lc _) = none

unfoldable pub codec_name : NativeAudioOutputSpec → Str
codec_name wav_pcm16 = text "pcm_s16le"
codec_name wav_pcm24 = text "pcm_s24le"
codec_name (m4a_aac_lc _) = text "aac"
codec_name (flac _) = text "flac"

unfoldable pub container : NativeAudioOutputSpec → Str
container (m4a_aac_lc _) = text "mp4"
container (flac _) = text "flac"
container _ = text "wav"

unfoldable pub mime_type : NativeAudioOutputSpec → Str
mime_type (m4a_aac_lc _) = text "audio/mp4"
mime_type (flac _) = text "audio/flac"
mime_type _ = text "audio/wav"

unfoldable pub file_extension : NativeAudioOutputSpec → Str
file_extension (m4a_aac_lc _) = text "m4a"
file_extension (flac _) = text "flac"
file_extension _ = text "wav"

unfoldable pub target_bit_rate : NativeAudioOutputSpec → Option ℕ
target_bit_rate (m4a_aac_lc bit_rate) = some bit_rate
target_bit_rate _ = none

unfoldable pub validate_sample_rate : Option ℕ → Result (Unit {0}) AudioError
validate_sample_rate (some zero) = fails (text "targetSampleRate must be at least 1.")
validate_sample_rate _ = ok tt

-- The product on 128 bits, cut to 64.
unfoldable pub duration_micros : ℕ → ℕ → ℕ
duration_micros frame_count sample_rate =
    if sample_rate == 0 then 0 else (frame_count * 1000000 / sample_rate) % word

pub record NativeWaveformSpec : Type 0 where
  pub base_interval_micros : ℕ
  pub level_factors : List ℕ

abbrev pub interval_error : Str
interval_error = text "waveform interval is too large."

-- `checked_mul` on 64 bits, with the error of the waveform's intervals.
unfoldable pub interval_of : ℕ → ℕ → Result ℕ AudioError
interval_of base factor =
    if ltb (base * factor) word then ok (base * factor) else fails interval_error

unfoldable pub validate_factors : ℕ → ℕ → List ℕ → Result (Unit {0}) AudioError
unfolding interval_of
validate_factors base previous [] = ok tt
validate_factors base previous (factor ∷ rest) =
    let later = validate_factors base factor rest in
    if leb factor previous
    then fails (text "waveform.levelFactors must be unique, positive, and increasing.")
    else interval_of base factor >>= λ _. later

abbrev pub starts_with_one : List ℕ → Bool
starts_with_one [] = false
starts_with_one (factor ∷ _) = factor == 1

unfoldable pub validate_waveform_spec : NativeWaveformSpec → Result (Unit {0}) AudioError
unfolding validate_factors
validate_waveform_spec spec =
    if spec.base_interval_micros == 0
    then fails (text "waveform.baseIntervalMicros must be at least 1.")
    else if not (starts_with_one spec.level_factors)
    then fails (text "waveform.levelFactors must start with 1.")
    else validate_factors spec.base_interval_micros 0 spec.level_factors
