-- ===== src/Audio/Tiling.antt =====
-- The finished waveform: its levels tile its bytes, and each summarises the base.
use dart_edge.Base.{
  ℕ, ◌+◌, ◌-◌, ◌*◌, ◌≤◌, ◌<◌, ◌≡◌, refl, ◌∙◌, subst, true, List, [], ◌∷◌, ◌++◌, length,
  length-append, ltb, arith,
}
use mathlib.Core.List.{append_assoc, append-nil}
use dart_edge.Base.Result.{ok}
use dart_edge.Base.Words.{word}
use dart_edge.Text.Bytes.{Bytes}
use dart_edge.Audio.Format.{
  NativeWaveformSpec, interval_of, validate_factors, validate_waveform_spec,
}
use dart_edge.Audio.Peaks.{
  NativeWaveformLevel, EncodedWaveform, new_accumulator, flush, encode_levels, finish_waveform,
}
use dart_edge.Audio.Envelope.{ArePairs, Summarises, Summarises-ArePairs}
use dart_edge.Audio.Buckets.{observe_peaks}
use dart_edge.Audio.Observing.{AreBuckets, observe_peaks-AreBuckets}
use dart_edge.Audio.Levels.{chunks_of, aggregate_waveform-Summarises}

-- The levels of the factors stand one after the other from an offset on, and fill the bytes.
abbrev pub Tile : ℕ → Bytes → List ℕ → ℕ → List NativeWaveformLevel → Bytes → Type 0
Tile interval base [] offset [] bytes = bytes ≡ []
Tile interval base (factor ∷ factors) offset (level ∷ levels) bytes =
    (piece : Bytes) × (rest : Bytes) × (bytes ≡ piece ++ rest)
    × (level.factor ≡ factor)
    × (level.interval_micros ≡ interval * factor)
    × (level.byte_offset ≡ offset)
    × (level.byte_length ≡ length piece)
    × Summarises (chunks_of factor base) piece
    × Tile interval base factors (offset + length piece) levels rest
Tile interval base _ offset _ bytes = 1 ≤ 0

-- Factors that the check of a spec lets through.
abbrev AreFactors : ℕ → List ℕ → Type 0
AreFactors interval [] = Unit
AreFactors interval (factor ∷ factors) =
    (0 < factor) × (interval * factor < word) × AreFactors interval factors

validate_factors-AreFactors :
    (interval previous : ℕ) (factors : List ℕ)
    → validate_factors interval previous factors ≡ ok tt
    → AreFactors interval factors
unfolding validate_factors interval_of
validate_factors-AreFactors interval previous [] h = tt
validate_factors-AreFactors interval previous (factor ∷ factors) h =
    let above : previous < factor = ground (arith, h) in
    let fits : interval * factor < word = ground (arith, h) in
    let later : validate_factors interval factor factors ≡ ok tt = ground (arith, h) in
    (omega (arith, above), fits, validate_factors-AreFactors interval factor factors later)

record AreEncoded (interval : ℕ) (base : Bytes) (factors : List ℕ) (bytes : Bytes)
    (levels : List NativeWaveformLevel) : Type 0 where
  pub more : Bytes
  pub more_levels : List NativeWaveformLevel
  pub encoded :
      encode_levels interval base factors bytes levels
      ≡ ok (record {
        bytes = bytes ++ more;
        base_interval_micros = interval;
        levels = levels ++ more_levels;
      })
  pub tile : Tile interval base factors (length bytes) more_levels more

encode_levels-AreEncoded :
    (interval : ℕ) (base : Bytes) (factors : List ℕ) (bytes : Bytes)
    (levels : List NativeWaveformLevel)
    → ArePairs base
    → AreFactors interval factors
    → AreEncoded interval base factors bytes levels
unfolding encode_levels interval_of
encode_levels-AreEncoded interval base [] bytes levels p f = record {
  more = [];
  more_levels = [];
  encoded = rw (append-nil bytes, append-nil levels) refl;
  tile = refl;
}
encode_levels-AreEncoded interval base (factor ∷ factors) bytes levels p f =
    let (piece, made, summary) = aggregate_waveform-Summarises base factor f.0 p in
    let fits : ltb (interval * factor) word ≡ true = ground (arith, f.1) in
    let level : NativeWaveformLevel = record {
      factor = factor;
      interval_micros = interval * factor;
      byte_offset = length bytes;
      byte_length = length (bytes ++ piece) - length bytes;
    } in
    let later =
      encode_levels-AreEncoded interval base factors (bytes ++ piece) (levels ++ level ∷ []) p
        f.2 in
    record {
      more = piece ++ later.more;
      more_levels = level ∷ later.more_levels;
      encoded =
          rw (made, fits)
            (later.encoded
              ∙ rw
                  (
                    append_assoc bytes piece later.more,
                    append_assoc levels (level ∷ []) later.more_levels,
                  )
                  refl);
      tile = (
        piece,
        later.more,
        refl,
        refl,
        refl,
        refl,
        omega (arith, length-append bytes piece),
        summary,
        subst (λ n. Tile interval base factors n later.more_levels later.more)
            (length-append bytes piece) later.tile,
      );
    }

spec-AreFactors :
    (spec : NativeWaveformSpec)
    → validate_waveform_spec spec ≡ ok tt
    → AreFactors spec.base_interval_micros spec.level_factors
unfolding validate_waveform_spec
spec-AreFactors spec h =
    validate_factors-AreFactors spec.base_interval_micros 0 spec.level_factors (ground (arith, h))

-- For every sequence of peaks and every spec that its check lets through, the waveform is encoded
-- without an error: the peaks fall, in their order, into buckets whose least and greatest values are
-- the base; the levels stand in the order of the factors and fill the bytes without a gap, each with
-- its own interval; and at each factor stand the least and the greatest value of each chunk of that
-- many pairs of the base, the last and shorter chunk included.
pub finish_waveform-Tile :
    (sample_rate : ℕ) (spec : NativeWaveformSpec) (peaks : List ℕ)
    → validate_waveform_spec spec ≡ ok tt
    → (let a = observe_peaks peaks (new_accumulator sample_rate spec.base_interval_micros) in
        (encoded : EncodedWaveform) × (finish_waveform a spec ≡ ok encoded)
        × AreBuckets peaks (flush a).base_peaks
        × Tile spec.base_interval_micros
            (flush a).base_peaks
            spec.level_factors
            0
            encoded.levels
            encoded.bytes)
unfolding finish_waveform
finish_waveform-Tile sample_rate spec peaks h =
    let start = new_accumulator sample_rate spec.base_interval_micros in
    let a = observe_peaks peaks start in
    let buckets = observe_peaks-AreBuckets sample_rate spec.base_interval_micros peaks in
    let pairs = Summarises-ArePairs buckets.buckets (flush a).base_peaks buckets.base in
    let e =
      encode_levels-AreEncoded spec.base_interval_micros (flush a).base_peaks spec.level_factors []
        [] pairs (spec-AreFactors spec h) in
    (
      record {
        bytes = e.more;
        base_interval_micros = spec.base_interval_micros;
        levels = e.more_levels;
      },
      e.encoded,
      buckets,
      e.tile,
    )
