-- ===== src/Vad/Slices.antt =====
-- The audio of ranges, and what a trim stream of dart_edge_vad holds of it.
use dart_edge.Base.{
  ℕ, ◌+◌, ◌-◌, ◌*◌, ◌≤◌, ◌<◌, ◌≡◌, sym, ◌∙◌, ap, Bool, true, false, List, [], ◌∷◌, ◌++◌, length,
  take, drop, length-drop, arith,
}
use mathlib.Core.List.{append_assoc, append-nil}
use dart_edge.Text.Bytes.{Bytes}
use dart_edge.Vad.Trim.{TrimStream, TrimRange, TrimError, outside, Emitted}

-- The bytes of the samples from `from` to `to`.
abbrev pub slice : Bytes → ℕ → ℕ → Bytes
slice source from to = take (2 * to - 2 * from) (drop (2 * from) source)

abbrev pub bytes_of : Bytes → List TrimRange → Bytes
bytes_of source [] = []
bytes_of source (r ∷ rs) =
    slice source r.source_start_sample r.source_end_sample ++ bytes_of source rs

-- The ranges follow one another in the source, and fill the output without a gap.
abbrev pub AreCut : ℕ → ℕ → ℕ → ℕ → List TrimRange → Type 0
AreCut from to n m [] = (from ≤ to) × (n ≡ m)
AreCut from to n m (r ∷ rs) =
    (from ≤ r.source_start_sample)
    × (r.source_start_sample < r.source_end_sample)
    × (r.output_start_sample ≡ n)
    × (r.output_end_sample ≡ n + (r.source_end_sample - r.source_start_sample))
    × AreCut r.source_end_sample to r.output_end_sample m rs

pub AreCut-append :
    (from mid to n k m : ℕ) (rs : List TrimRange) (r : TrimRange)
    → AreCut from mid n k rs
    → AreCut mid to k m (r ∷ [])
    → AreCut from to n m (rs ++ r ∷ [])
AreCut-append from mid to n k m [] r a b = (
  omega (arith, a.0, b.0),
  b.1,
  b.2 ∙ sym a.1,
  b.3 ∙ ap (λ x. x + (r.source_end_sample - r.source_start_sample)) (sym a.1),
  b.4,
)
AreCut-append from mid to n k m (q ∷ qs) r a b = (
  a.0,
  a.1,
  a.2,
  a.3,
  AreCut-append q.source_end_sample mid to q.output_end_sample k m qs r a.4 b,
)

pub bytes_of-append :
    (source : Bytes) (rs : List TrimRange) (r : TrimRange)
    → bytes_of source (rs ++ r ∷ [])
      ≡ bytes_of source rs ++ slice source r.source_start_sample r.source_end_sample
bytes_of-append source [] r = append-nil _
bytes_of-append source (q ∷ qs) r =
    ap (λ xs. slice source q.source_start_sample q.source_end_sample ++ xs)
      (bytes_of-append source qs r)
    ∙ sym (append_assoc (slice source q.source_start_sample q.source_end_sample) _ _)

-- The buffer holds the source from its first sample on, and all that the detection has been given.
pub record IsBuffered {F : Type 0} (source : Bytes) (s : TrimStream F) : Type 0 where
  pub buffered : s.pending_pcm ≡ drop (2 * s.pending_start_sample) source
  pub reached : s.pending_start_sample ≤ s.vad.total_samples
  pub received : length source ≡ 2 * s.vad.total_samples
  pub emitted : s.last_emitted_source_end ≤ s.vad.total_samples

pub length-pending :
    {F : Type 0} (source : Bytes) (s : TrimStream F)
    → IsBuffered source s
    → length s.pending_pcm ≡ 2 * s.vad.total_samples - 2 * s.pending_start_sample
length-pending source s b =
    ap length b.buffered
    ∙ length-drop (2 * s.pending_start_sample) source
    ∙ ap (λ n. n - 2 * s.pending_start_sample) b.received

abbrev pub is_outside : TrimError → Bool
is_outside outside = true
is_outside _ = false

-- From a stream to a later one in the same call.
pub record IsCut {F : Type 0} (source : Bytes) (s t : TrimStream F) (out : Emitted) : Type 0 where
  pub same_bytes : out.bytes ≡ bytes_of source out.ranges
  pub ordered :
      AreCut s.last_emitted_source_end t.last_emitted_source_end s.output_samples t.output_samples
        out.ranges
  pub still_buffered : IsBuffered source t
