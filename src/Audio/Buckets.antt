-- ===== src/Audio/Buckets.antt =====
-- Peaks in buckets: the envelope of a bucket with one more peak.
use dart_edge.Base.{ap, subst, sym, ◌∙◌, ℕ, ◌≡◌, inl, inr, List, [], ◌∷◌, ◌++◌, arith}
use dart_edge.Text.Bytes.{concat, Bytes}
use dart_edge.Audio.Sample.{rank, min_i8, max_i8}
use dart_edge.Audio.Peaks.{WaveformAccumulator, observe_peak}
use mathlib.Core.List.{append_assoc, append-nil}
use dart_edge.Audio.Envelope.{
  Encloses, IsFirst, IsSecond, IsEnvelope, min_i8-le, max_i8-le, min_i8-choice, max_i8-choice,
}

abbrev pub observe_peaks : List ℕ → WaveformAccumulator → WaveformAccumulator
observe_peaks [] a = a
observe_peaks (peak ∷ peaks) a = observe_peaks peaks (observe_peak peak a)

-- A peak as a pair of itself.
abbrev pub doubled : List ℕ → Bytes
doubled [] = []
doubled (peak ∷ peaks) = peak ∷ peak ∷ doubled peaks

pub concat-append :
    (chunks : List Bytes) (chunk : Bytes) → concat (chunks ++ chunk ∷ []) ≡ concat chunks ++ chunk
concat-append [] chunk = append-nil chunk
concat-append (c ∷ chunks) chunk =
    ap (λ xs. c ++ xs) (concat-append chunks chunk) ∙ sym (append_assoc c (concat chunks) chunk)

-- One more peak in a chunk of them.
Encloses-one_more :
    (low high peak : ℕ) (peaks : List ℕ)
    → Encloses low high (doubled peaks)
    → Encloses (min_i8 low peak) (max_i8 high peak) (doubled (peaks ++ peak ∷ []))
Encloses-one_more low high peak [] h =
    (omega (arith, min_i8-le low peak), omega (arith, max_i8-le high peak), tt)
Encloses-one_more low high peak (p ∷ peaks) h = (
  omega (arith, h.0, min_i8-le low peak),
  omega (arith, h.1, max_i8-le high peak),
  Encloses-one_more low high peak peaks h.2,
)

IsFirst-last :
    (low : ℕ) (peak : ℕ) (peaks : List ℕ) → low ≡ peak → IsFirst low (doubled (peaks ++ peak ∷ []))
IsFirst-last low peak [] e = inl (ap (λ n. rank n) e)
IsFirst-last low peak (p ∷ peaks) e = inr (IsFirst-last low peak peaks e)

IsSecond-last :
    (high : ℕ) (peak : ℕ) (peaks : List ℕ)
    → high ≡ peak
    → IsSecond high (doubled (peaks ++ peak ∷ []))
IsSecond-last high peak [] e = inl (ap (λ n. rank n) e)
IsSecond-last high peak (p ∷ peaks) e = inr (IsSecond-last high peak peaks e)

IsFirst-keep :
    (low peak : ℕ) (peaks : List ℕ)
    → IsFirst low (doubled peaks)
    → IsFirst low (doubled (peaks ++ peak ∷ []))
IsFirst-keep low peak [] h = absurd (omega (arith, h))
IsFirst-keep low peak (p ∷ peaks) (inl e) = inl e
IsFirst-keep low peak (p ∷ peaks) (inr h) = inr (IsFirst-keep low peak peaks h)

IsSecond-keep :
    (high peak : ℕ) (peaks : List ℕ)
    → IsSecond high (doubled peaks)
    → IsSecond high (doubled (peaks ++ peak ∷ []))
IsSecond-keep high peak [] h = absurd (omega (arith, h))
IsSecond-keep high peak (p ∷ peaks) (inl e) = inl e
IsSecond-keep high peak (p ∷ peaks) (inr h) = inr (IsSecond-keep high peak peaks h)

pub IsEnvelope-one_more :
    (low high peak : ℕ) (peaks : List ℕ)
    → IsEnvelope low high (doubled peaks)
    → IsEnvelope (min_i8 low peak) (max_i8 high peak) (doubled (peaks ++ peak ∷ []))
IsEnvelope-one_more low high peak peaks e = record {
  ordered = omega (arith, e.ordered, min_i8-le low peak, max_i8-le high peak);
  encloses = Encloses-one_more low high peak peaks e.encloses;
  reaches_low = elim (min_i8-choice low peak) [
    | inl c ↦
        subst (λ n. IsFirst n (doubled (peaks ++ peak ∷ []))) (sym c)
          (IsFirst-keep low peak peaks e.reaches_low)
    | inr c ↦ IsFirst-last (min_i8 low peak) peak peaks c
  ];
  reaches_high = elim (max_i8-choice high peak) [
    | inl c ↦
        subst (λ n. IsSecond n (doubled (peaks ++ peak ∷ []))) (sym c)
          (IsSecond-keep high peak peaks e.reaches_high)
    | inr c ↦ IsSecond-last (max_i8 high peak) peak peaks c
  ];
}
