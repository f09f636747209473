-- ===== src/Audio/Pcm16.antt =====
-- packages/dart_edge_audio/rust/src/lib.rs: the session that gathers PCM16 audio and decodes it at its
-- end (lines 81 to 89, 237 to 248, 732 to 762, 2195 to 2333). Whether memory can be had is a parameter.
use dart_edge.Base.{
  ℕ, zero, suc, ◌+◌, ◌*◌, ◌/◌, ◌%◌, not, ◌||◌, List, [], ◌∷◌, ◌++◌, Option, none, some, length,
  take, drop, ltb, leb, ◌==◌, if◌then◌else◌,
}
use dart_edge.Base.Result.{Result, ok, err, ◌>>=◌, ◌>>◌}
use dart_edge.Base.Words.{word}
use dart_edge.Text.Bytes.{Bytes, Str, text}
use dart_edge.Text.Decimal.{decimal}
use dart_edge.Audio.Sample.{Sample, AudioError, panics, fails, samples_of}
use dart_edge.Audio.Format.{
  NativeAudioTargetFormat, NativeAudioChannelLayout, validate_format, validate_sample_rate,
}

pub record NativePcm16StreamRequest : Type 0 where
  pub input_sample_rate_hz : ℕ
  pub input_channel_count : ℕ
  pub target_format : NativeAudioTargetFormat
  pub target_sample_rate : Option ℕ
  pub channel_layout : NativeAudioChannelLayout
  pub max_buffered_bytes : ℕ

abbrev pub validate_bounds : NativePcm16StreamRequest → Result (Unit {0}) AudioError
validate_bounds request =
    if request.input_channel_count == 0 || ltb 32 request.input_channel_count
    then fails (text "PCM16 stream inputChannelCount must be between 1 and 32.")
    else if request.max_buffered_bytes == 0
    then fails (text "PCM16 stream maxBufferedBytes must be at least 1.")
    else ok tt

unfoldable pub validate_pcm16_stream_request :
    NativePcm16StreamRequest → Result (Unit {0}) AudioError
unfolding validate_format validate_sample_rate
validate_pcm16_stream_request request = do
  validate_sample_rate (some request.input_sample_rate_hz)
  validate_sample_rate request.target_sample_rate
  validate_format request.target_format
  validate_bounds request

-- A session: the bytes that it holds, and what it was asked for.
pub record Pcm16StreamSession : Type 0 where
  pub input : Bytes
  pub request : NativePcm16StreamRequest

unfoldable pub pcm16_stream_create : NativePcm16StreamRequest → Result Pcm16StreamSession AudioError
unfolding validate_pcm16_stream_request
pcm16_stream_create request = do
  validate_pcm16_stream_request request
  ok (record { input = []; request = request })

-- `checked_mul(2)`, and `%` by it, which panics at 0.
unfoldable pub frame_size : ℕ → Str → Result ℕ AudioError
frame_size channel_count message =
    if ltb (channel_count * 2) word then ok (channel_count * 2) else fails message

unfoldable pub whole_frames : Bytes → ℕ → Str → Result (Unit {0}) AudioError
whole_frames input bytes_per_frame message =
    if bytes_per_frame == 0
    then err panics
    else if not (length input % bytes_per_frame == 0)
    then fails message
    else ok tt

-- `chunks_exact`: as many parts of the size as the bytes have.
unfoldable pub parts : ℕ → ℕ → Bytes → List Bytes
parts size zero bytes = []
parts size (suc count) bytes = take size bytes ∷ parts size count (drop size bytes)

unfoldable pub chunks_exact : ℕ → Bytes → List Bytes
unfolding parts
chunks_exact size bytes = parts size (length bytes / size) bytes

-- `DecodedAudio`, less its container and its tags, of which PCM16 has none.
pub record DecodedAudio (F : Type 0) : Type 0 where
  pub samples : List (List F)
  pub sample_rate : ℕ
  pub codec : Option Str
  pub bit_rate : Option ℕ
  pub bit_depth : Option ℕ

-- `checked_mul` on 32 bits.
abbrev pub checked_mul32 : ℕ → ℕ → Option ℕ
checked_mul32 a b = if ltb (a * b) 4294967296 then some (a * b) else none

abbrev pub bit_rate_of : ℕ → ℕ → Option ℕ
bit_rate_of sample_rate channel_count = elim (checked_mul32 sample_rate channel_count) [
  | none ↦ none
  | some value ↦ checked_mul32 value 16
]

module _ {F : Type 0} where
  -- One sample at the end of each channel.
  unfoldable pub push_frame : List (List F) → List F → Result (List (List F)) AudioError
  push_frame channels [] = ok channels
  push_frame [] (sample ∷ rest) = err panics
  push_frame (channel ∷ channels) (sample ∷ rest) = do
    others ← push_frame channels rest
    ok ((channel ++ sample ∷ []) ∷ others)

  -- The buffers of the channels, each with its own memory.
  unfoldable pub empty_channels :
      (ℕ → Result (Unit {0}) AudioError) → ℕ → ℕ → Result (List (List F)) AudioError
  empty_channels try_reserve frame_count zero = ok []
  empty_channels try_reserve frame_count (suc n) = do
    try_reserve frame_count
    channels ← empty_channels try_reserve frame_count n
    ok ([] ∷ channels)

module _ {F : Type 0} (float : Sample F) where
  unfoldable pub push_frames : List (List F) → List Bytes → Result (List (List F)) AudioError
  unfolding push_frame samples_of
  push_frames channels [] = ok channels
  push_frames channels (frame ∷ frames) = do
    next ← push_frame channels (samples_of float frame)
    push_frames next frames

module _ {F : Type 0} (float : Sample F) (try_reserve : ℕ → Result (Unit {0}) AudioError) where
  unfoldable pub decode_pcm16_le : Bytes → ℕ → ℕ → Result (DecodedAudio F) AudioError
  unfolding frame_size whole_frames chunks_exact push_frames empty_channels
  decode_pcm16_le input sample_rate channel_count = do
    bytes_per_frame ← frame_size channel_count (text "PCM16 stream frame size is too large.")
    whole_frames input bytes_per_frame (text "PCM16 stream ended with an incomplete frame.")
    try_reserve channel_count
    channels ← empty_channels try_reserve (length input / bytes_per_frame) channel_count
    samples ← push_frames float channels (chunks_exact bytes_per_frame input)
    ok (record {
      samples = samples;
      sample_rate = sample_rate;
      codec = some (text "pcm_s16le");
      bit_rate = bit_rate_of sample_rate channel_count;
      bit_depth = some 16;
    })

abbrev pub complete_frames : Str → ℕ → Str
complete_frames input channel_count =
    input ++ text " must contain complete " ++ decimal channel_count ++ text "-channel frames."

-- Whether `try_reserve_exact` gives the memory for so many more bytes is a parameter too.
unfoldable pub add_pcm16 :
    (ℕ → Result (Unit {0}) AudioError)
    → Pcm16StreamSession
    → Bytes
    → Result Pcm16StreamSession AudioError
unfolding frame_size whole_frames
add_pcm16 try_reserve s input = do
  bytes_per_frame ←
      frame_size s.request.input_channel_count (text "PCM16 stream frame size is too large.")
  whole_frames input bytes_per_frame
      (complete_frames (text "PCM16 stream input") s.request.input_channel_count)
  (if leb word (length s.input + length input)
      then fails (text "PCM16 stream input length overflowed.")
      else if ltb s.request.max_buffered_bytes (length s.input + length input)
      then fails (
          text "PCM16 stream exceeded its "
          ++ decimal s.request.max_buffered_bytes
          ++ text " byte buffer limit.")
      else try_reserve (length input))
  ok (record s { input = s.input ++ input })

-- The calls of the Dart side: one that fails gives 0 and leaves the session as it is.
unfoldable pub pcm16_stream_add :
    (ℕ → Result (Unit {0}) AudioError) → Pcm16StreamSession → Bytes → Pcm16StreamSession × ℕ
unfolding add_pcm16
pcm16_stream_add try_reserve s input = elim (add_pcm16 try_reserve s input) [
  | ok next ↦ (next, 1)
  | err _ ↦ (s, 0)
]
