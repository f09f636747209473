-- ===== src/Audio/Peaks.antt =====
-- packages/dart_edge_audio/rust/src/lib.rs: the peaks of a waveform and its levels (lines 435 to 451,
-- 2179 to 2193, 2384 to 2455, 2525 to 2541). A peak is the bit pattern of an `i8`.
use dart_edge.Base.{
  ℕ, ◌+◌, ◌-◌, ◌*◌, ◌/◌, ◌%◌, Bool, true, false, not, List, [], ◌∷◌, ◌++◌, length, leb, ◌==◌,
  if◌then◌else◌,
}
use dart_edge.Base.Result.{Result, ok, err, ◌>>=◌}
use dart_edge.Base.Words.{wrapping_inc}
use dart_edge.Text.Bytes.{Bytes}
use dart_edge.Audio.Sample.{AudioError, panics, min_i8, max_i8}
use dart_edge.Audio.Format.{NativeWaveformSpec, interval_of}
use dart_edge.Audio.Pcm16.{parts}

pub record WaveformAccumulator : Type 0 where
  pub sample_rate : ℕ
  pub interval_micros : ℕ
  pub frames_seen : ℕ
  pub bucket_index : ℕ
  pub current_min : ℕ
  pub current_max : ℕ
  pub has_current : Bool
  pub base_peaks : Bytes

abbrev pub new_accumulator : ℕ → ℕ → WaveformAccumulator
new_accumulator sample_rate interval_micros = record {
  sample_rate = sample_rate;
  interval_micros = interval_micros;
  frames_seen = 0;
  bucket_index = 0;
  current_min = 0;
  current_max = 0;
  has_current = false;
  base_peaks = [];
}

unfoldable pub flush : WaveformAccumulator → WaveformAccumulator
flush a = if not a.has_current then a else record a {
  base_peaks = a.base_peaks ++ a.current_min ∷ a.current_max ∷ [];
  bucket_index = wrapping_inc a.bucket_index;
  has_current = false;
}

unfoldable pub note_peak : ℕ → WaveformAccumulator → WaveformAccumulator
unfolding min_i8 max_i8
note_peak peak a =
    if a.has_current
    then record a {
      current_min = min_i8 a.current_min peak;
      current_max = max_i8 a.current_max peak;
    }
    else record a { current_min = peak; current_max = peak; has_current = true }

-- A product on 128 bits.
abbrev mul128 : ℕ → ℕ → ℕ
mul128 a b = a * b % 340282366920938463463374607431768211456

-- Whether the frames seen reach the end of the bucket.
abbrev pub bucket_ends : WaveformAccumulator → Bool
bucket_ends a =
    leb (mul128 (mul128 (wrapping_inc a.bucket_index) a.sample_rate) a.interval_micros)
      (mul128 a.frames_seen 1000000)

-- `observe`, on the peak of the sample.
unfoldable pub observe_peak : ℕ → WaveformAccumulator → WaveformAccumulator
unfolding note_peak flush
observe_peak peak a =
    let noted = note_peak peak a in
    let seen : WaveformAccumulator = record noted { frames_seen = wrapping_inc a.frames_seen } in
    if bucket_ends seen then flush seen else seen

-- The least of the first and the greatest of the second of each pair, from those so far.
unfoldable pub extremes : ℕ → ℕ → Bytes → Bytes
unfolding min_i8 max_i8
extremes minimum maximum (low ∷ high ∷ rest) =
    extremes (min_i8 minimum low) (max_i8 maximum high) rest
extremes minimum maximum _ = minimum ∷ maximum ∷ []

-- A chunk of the base's pairs after another; `i8::MAX` is 127 and `i8::MIN` the pattern 128.
unfoldable pub envelopes : List Bytes → Bytes
unfolding extremes
envelopes [] = []
envelopes (chunk ∷ chunks) = extremes 127 128 chunk ++ envelopes chunks

-- `chunks`, of which the last may be short, panics on a size of 0.
unfoldable pub aggregate_waveform : Bytes → ℕ → Result Bytes AudioError
unfolding envelopes parts
aggregate_waveform base factor =
    if factor == 1
    then ok base
    else if factor == 0
    then err panics
    else ok (envelopes (parts (factor * 2) ((length base + (factor * 2 - 1)) / (factor * 2)) base))

pub record NativeWaveformLevel : Type 0 where
  pub factor : ℕ
  pub interval_micros : ℕ
  pub byte_offset : ℕ
  pub byte_length : ℕ

pub record EncodedWaveform : Type 0 where
  pub bytes : Bytes
  pub base_interval_micros : ℕ
  pub levels : List NativeWaveformLevel

-- The loop over the factors, from the bytes and the levels so far.
unfoldable pub encode_levels :
    ℕ → Bytes → List ℕ → Bytes → List NativeWaveformLevel → Result EncodedWaveform AudioError
unfolding aggregate_waveform interval_of
encode_levels interval base [] bytes levels =
    ok (record { bytes = bytes; base_interval_micros = interval; levels = levels })
encode_levels interval base (factor ∷ factors) bytes levels = do
  level ← aggregate_waveform base factor
  interval_micros ← interval_of interval factor
  encode_levels interval base factors (bytes ++ level) (
      levels
      ++ record {
        factor = factor;
        interval_micros = interval_micros;
        byte_offset = length bytes;
        byte_length = length (bytes ++ level) - length bytes;
      }
        ∷ [])

unfoldable pub finish_waveform :
    WaveformAccumulator → NativeWaveformSpec → Result EncodedWaveform AudioError
unfolding encode_levels flush
finish_waveform a spec =
    encode_levels spec.base_interval_micros (flush a).base_peaks spec.level_factors [] []
