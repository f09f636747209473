-- ===== src/Audio/Envelope.antt =====
-- The least and the greatest value of chunks of pairs, and the loop that finds them.
use dart_edge.Base.{ap, ◌⊎◌, ◌∙◌, ℕ, ◌≤◌, ◌≡◌, refl, inl, inr, List, [], ◌∷◌, ◌++◌, arith}
use dart_edge.Text.Bytes.{Bytes}
use dart_edge.Audio.Sample.{rank, min_i8, max_i8}
use dart_edge.Audio.Peaks.{extremes}

-- Pairs of a least and a greatest value.
abbrev pub ArePairs : Bytes → Type 0
ArePairs [] = Unit
ArePairs (low ∷ []) = 1 ≤ 0
ArePairs (low ∷ high ∷ rest) = (rank low ≤ rank high) × ArePairs rest

-- A pair encloses all pairs of a chunk.
abbrev pub Encloses : ℕ → ℕ → Bytes → Type 0
Encloses low high (a ∷ b ∷ rest) =
    (rank low ≤ rank a) × (rank b ≤ rank high) × Encloses low high rest
Encloses low high _ = Unit

-- The least value is one of the pairs' first, and the greatest one of their second.
abbrev pub IsFirst : ℕ → Bytes → Type 0
IsFirst low (a ∷ b ∷ rest) = (rank low ≡ rank a) ⊎ IsFirst low rest
IsFirst low _ = 1 ≤ 0

abbrev pub IsSecond : ℕ → Bytes → Type 0
IsSecond high (a ∷ b ∷ rest) = (rank high ≡ rank b) ⊎ IsSecond high rest
IsSecond high _ = 1 ≤ 0

-- The least and the greatest value of a chunk of pairs.
pub record IsEnvelope (low high : ℕ) (chunk : Bytes) : Type 0 where
  pub ordered : rank low ≤ rank high
  pub encloses : Encloses low high chunk
  pub reaches_low : IsFirst low chunk
  pub reaches_high : IsSecond high chunk

-- One pair for each chunk, its envelope.
abbrev pub Summarises : List Bytes → Bytes → Type 0
Summarises [] [] = Unit
Summarises (chunk ∷ chunks) (low ∷ high ∷ rest) = IsEnvelope low high chunk × Summarises chunks rest
Summarises _ _ = 1 ≤ 0

pub Summarises-ArePairs :
    (chunks : List Bytes) (base : Bytes) → Summarises chunks base → ArePairs base
Summarises-ArePairs [] [] h = tt
Summarises-ArePairs [] (b ∷ base) h = absurd (omega (arith, h))
Summarises-ArePairs (chunk ∷ chunks) [] h = absurd (omega (arith, h))
Summarises-ArePairs (chunk ∷ chunks) (low ∷ []) h = absurd (omega (arith, h))
Summarises-ArePairs (chunk ∷ chunks) (low ∷ high ∷ rest) h =
    (h.0.ordered, Summarises-ArePairs chunks rest h.1)

pub Summarises-append :
    (chunks : List Bytes) (base chunk : Bytes) (low high : ℕ)
    → Summarises chunks base
    → IsEnvelope low high chunk
    → Summarises (chunks ++ chunk ∷ []) (base ++ low ∷ high ∷ [])
Summarises-append [] [] chunk low high h e = (e, tt)
Summarises-append [] (b ∷ base) chunk low high h e = absurd (omega (arith, h))
Summarises-append (c ∷ chunks) [] chunk low high h e = absurd (omega (arith, h))
Summarises-append (c ∷ chunks) (l ∷ []) chunk low high h e = absurd (omega (arith, h))
Summarises-append (c ∷ chunks) (l ∷ g ∷ rest) chunk low high h e =
    (h.0, Summarises-append chunks rest chunk low high h.1 e)

pub record AreExtremes (a b : ℕ) (chunk : Bytes) : Type 0 where
  pub low : ℕ
  pub high : ℕ
  pub found : extremes a b chunk ≡ low ∷ high ∷ []
  pub below : rank low ≤ rank a
  pub above : rank b ≤ rank high
  pub encloses : Encloses low high chunk
  pub low_from : (low ≡ a) ⊎ IsFirst low chunk
  pub high_from : (high ≡ b) ⊎ IsSecond high chunk

pub min_i8-le : (a b : ℕ) → (rank (min_i8 a b) ≤ rank a) × (rank (min_i8 a b) ≤ rank b)
unfolding min_i8
min_i8-le a b = ground arith

pub max_i8-le : (a b : ℕ) → (rank a ≤ rank (max_i8 a b)) × (rank b ≤ rank (max_i8 a b))
unfolding max_i8
max_i8-le a b = ground arith

pub min_i8-choice : (a b : ℕ) → (min_i8 a b ≡ a) ⊎ (min_i8 a b ≡ b)
unfolding min_i8
min_i8-choice a b = ground arith

pub max_i8-choice : (a b : ℕ) → (max_i8 a b ≡ a) ⊎ (max_i8 a b ≡ b)
unfolding max_i8
max_i8-choice a b = ground arith

pub extremes-AreExtremes : (a b : ℕ) (chunk : Bytes) → AreExtremes a b chunk
unfolding extremes
extremes-AreExtremes a b [] = record {
  low = a;
  high = b;
  found = refl;
  below = omega arith;
  above = omega arith;
  encloses = tt;
  low_from = inl refl;
  high_from = inl refl;
}
extremes-AreExtremes a b (c ∷ []) = record {
  low = a;
  high = b;
  found = refl;
  below = omega arith;
  above = omega arith;
  encloses = tt;
  low_from = inl refl;
  high_from = inl refl;
}
extremes-AreExtremes a b (l ∷ h ∷ rest) =
    let r = extremes-AreExtremes (min_i8 a l) (max_i8 b h) rest in
    record {
      low = r.low;
      high = r.high;
      found = r.found;
      below = omega (arith, r.below, min_i8-le a l);
      above = omega (arith, r.above, max_i8-le b h);
      encloses = (
        omega (arith, r.below, min_i8-le a l),
        omega (arith, r.above, max_i8-le b h),
        r.encloses,
      );
      low_from = elim r.low_from [
        | inr far ↦ inr (inr far)
        | inl e ↦ elim (min_i8-choice a l) [
          | inl c ↦ inl (e ∙ c)
          | inr c ↦ inr (inl (ap (λ n. rank n) (e ∙ c)))
        ]
      ];
      high_from = elim r.high_from [
        | inr far ↦ inr (inr far)
        | inl e ↦ elim (max_i8-choice b h) [
          | inl c ↦ inl (e ∙ c)
          | inr c ↦ inr (inl (ap (λ n. rank n) (e ∙ c)))
        ]
      ];
    }
