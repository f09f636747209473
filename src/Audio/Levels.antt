-- ===== src/Audio/Levels.antt =====
-- The levels of a waveform: what stands at each of them, and where.
use dart_edge.Base.{
  ℕ, zero, suc, ◌+◌, ◌-◌, ◌*◌, ◌/◌, ◌%◌, ◌<◌, ◌≡◌, refl, sym, subst, inl, inr, false, List, [], ◌∷◌,
  length, take, drop, All, length-drop, ◌==◌, Bool-cases, arith,
}
use dart_edge.Base.Result.{ok}
use dart_edge.Text.Bytes.{Bytes}
use dart_edge.Audio.Sample.{rank}
use dart_edge.Audio.Pcm16.{parts}
use dart_edge.Audio.Peaks.{envelopes, aggregate_waveform}
use dart_edge.Audio.Envelope.{ArePairs, Summarises, AreExtremes, IsEnvelope, extremes-AreExtremes}

take-ArePairs : (n : ℕ) (xs : Bytes) → n % 2 ≡ 0 → ArePairs xs → ArePairs (take n xs)
take-ArePairs zero xs e h = tt
take-ArePairs (suc zero) xs e h = absurd (omega (arith, e))
take-ArePairs (suc (suc n)) [] e h = tt
take-ArePairs (suc (suc n)) (low ∷ []) e h = h
take-ArePairs (suc (suc n)) (low ∷ high ∷ rest) e h =
    (h.0, take-ArePairs n rest (omega (arith, e)) h.1)

drop-ArePairs : (n : ℕ) (xs : Bytes) → n % 2 ≡ 0 → ArePairs xs → ArePairs (drop n xs)
drop-ArePairs zero xs e h = h
drop-ArePairs (suc zero) xs e h = absurd (omega (arith, e))
drop-ArePairs (suc (suc n)) [] e h = tt
drop-ArePairs (suc (suc n)) (low ∷ []) e h = absurd (omega (arith, h))
drop-ArePairs (suc (suc n)) (low ∷ high ∷ rest) e h = drop-ArePairs n rest (omega (arith, e)) h.1

-- Some ordered pairs.
abbrev IsChunk : Bytes → Type 0
IsChunk chunk = ArePairs chunk × (0 < length chunk)

take_some : (n : ℕ) (xs : Bytes) → 0 < n → 0 < length xs → 0 < length (take n xs)
take_some zero xs p h = absurd (omega (arith, p))
take_some (suc n) [] p h = absurd (omega (arith, h))
take_some (suc n) (x ∷ xs) p h = omega arith

parts-IsChunk :
    (size count : ℕ) (base : Bytes)
    → size % 2 ≡ 0
    → 0 < size
    → count * size < length base + size
    → ArePairs base
    → All IsChunk (parts size count base)
unfolding parts
parts-IsChunk size zero base e p h pairs = tt
parts-IsChunk size (suc count) base e p h pairs = (
  (take-ArePairs size base e pairs, take_some size base p (grind (arith, h))),
  parts-IsChunk size count (drop size base) e p (grind (arith, h, p, length-drop size base))
      (drop-ArePairs size base e pairs),
)

-- From the ends of the order, the loop finds the envelope of a chunk.
AreExtremes-IsEnvelope :
    (chunk : Bytes) (r : AreExtremes 127 128 chunk) → IsChunk chunk → IsEnvelope r.low r.high chunk
AreExtremes-IsEnvelope [] r c = absurd (omega (arith, c.1))
AreExtremes-IsEnvelope (low ∷ []) r c = absurd (omega (arith, c.0))
AreExtremes-IsEnvelope (low ∷ high ∷ rest) r c = record {
  ordered = omega (arith, r.encloses.0, r.encloses.1, c.0.0);
  encloses = r.encloses;
  reaches_low = elim r.low_from [
    | inr found ↦ found
    | inl e ↦ (let top : rank r.low ≡ 255 = rw e refl in inl (omega (arith, top, r.encloses.0)))
  ];
  reaches_high = elim r.high_from [
    | inr found ↦ found
    | inl e ↦
        (let bottom : rank r.high ≡ 0 = rw e refl in inl (omega (arith, bottom, r.encloses.1)))
  ];
}

envelopes-Summarises :
    (chunks : List Bytes) → All IsChunk chunks → Summarises chunks (envelopes chunks)
unfolding envelopes
envelopes-Summarises [] h = tt
envelopes-Summarises (chunk ∷ chunks) h =
    let r = extremes-AreExtremes 127 128 chunk in
    rw (r.found) (AreExtremes-IsEnvelope chunk r h.0, envelopes-Summarises chunks h.1)

-- The chunks that a level of a factor has one pair for.
abbrev pub chunks_of : ℕ → Bytes → List Bytes
chunks_of factor base = parts (factor * 2) ((length base + (factor * 2 - 1)) / (factor * 2)) base

two_more : (n : ℕ) → (suc (suc n) + 1) / 2 ≡ suc ((n + 1) / 2)
two_more n = omega arith

base-Summarises :
    (base : Bytes) → ArePairs base → Summarises (parts 2 ((length base + 1) / 2) base) base
unfolding parts
base-Summarises [] h = tt
base-Summarises (low ∷ []) h = absurd (omega (arith, h))
base-Summarises (low ∷ high ∷ rest) h =
    subst (λ k. Summarises (parts 2 k (low ∷ high ∷ rest)) (low ∷ high ∷ rest))
      (sym (two_more (length rest)))
      (
        record {
          ordered = h.0;
          encloses = (omega arith, omega arith, tt);
          reaches_low = inl refl;
          reaches_high = inl refl;
        },
        base-Summarises rest h.1,
      )

pub aggregate_waveform-Summarises :
    (base : Bytes) (factor : ℕ)
    → 0 < factor
    → ArePairs base
    → (level : Bytes) × (aggregate_waveform base factor ≡ ok level)
      × Summarises (chunks_of factor base) level
unfolding aggregate_waveform
aggregate_waveform-Summarises base factor p h = elim (Bool-cases (factor == 1)) [
  | inl e ↦ (
    base,
    rw e refl,
    (let one : factor ≡ 1 = ground (arith, e) in
        subst (λ f. Summarises (chunks_of f base) base) (sym one) (base-Summarises base h)),
  )
  | inr e ↦
      (let some_factor : (factor == 0) ≡ false = ground (arith, p) in
        (
          envelopes (chunks_of factor base),
          rw (e, some_factor) refl,
          envelopes-Summarises (chunks_of factor base) (
              parts-IsChunk (factor * 2) ((length base + (factor * 2 - 1)) / (factor * 2)) base
                (omega arith) (omega (arith, p)) (grind (arith, p)) h),
        ))
]
