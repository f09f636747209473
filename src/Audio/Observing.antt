-- ===== src/Audio/Observing.antt =====
-- The base of a waveform: the buckets of the peaks that are observed.
use dart_edge.Base.{
  ap, subst, false, sym, refl, ◌∙◌, ℕ, ◌≡◌, refl, inl, inr, true, List, [], ◌∷◌, ◌++◌, Bool-cases,
  arith,
}
use dart_edge.Base.Words.{wrapping_inc}
use dart_edge.Text.Bytes.{concat, Bytes}
use dart_edge.Audio.Peaks.{
  new_accumulator, WaveformAccumulator, flush, note_peak, observe_peak, bucket_ends,
}
use mathlib.Core.List.{append_assoc, append-nil}
use dart_edge.Audio.Envelope.{IsEnvelope, Summarises, Summarises-append}
use dart_edge.Audio.Buckets.{observe_peaks, doubled, concat-append, IsEnvelope-one_more}

-- What holds of an accumulator: the peaks so far, in their buckets and in the bucket that is open.
record IsKept (a : WaveformAccumulator) (seen : List ℕ) : Type 0 where
  pub buckets : List Bytes
  pub current : List ℕ
  pub all_seen : concat buckets ++ doubled current ≡ doubled seen
  pub base : Summarises buckets a.base_peaks
  pub open_bucket : a.has_current ≡ true → IsEnvelope a.current_min a.current_max (doubled current)
  pub no_bucket : a.has_current ≡ false → current ≡ []

doubled-append : (xs ys : List ℕ) → doubled (xs ++ ys) ≡ doubled xs ++ doubled ys
doubled-append [] ys = refl
doubled-append (x ∷ xs) ys = ap (λ zs. x ∷ x ∷ zs) (doubled-append xs ys)

one_more_seen :
    (done : Bytes) (current seen : List ℕ) (peak : ℕ)
    → done ++ doubled current ≡ doubled seen
    → done ++ doubled (current ++ peak ∷ []) ≡ doubled (seen ++ peak ∷ [])
one_more_seen done current seen peak h =
    ap (λ xs. done ++ xs) (doubled-append current (peak ∷ []))
    ∙ sym (append_assoc done (doubled current) (peak ∷ peak ∷ []))
    ∙ ap (λ xs. xs ++ peak ∷ peak ∷ []) h
    ∙ sym (doubled-append seen (peak ∷ []))

alone : (peak : ℕ) → IsEnvelope peak peak (peak ∷ peak ∷ [])
alone peak = record {
  ordered = omega arith;
  encloses = (omega arith, omega arith, tt);
  reaches_low = inl refl;
  reaches_high = inl refl;
}

note_peak-IsKept :
    (peak : ℕ) (a : WaveformAccumulator) (seen : List ℕ)
    → IsKept a seen
    → IsKept (note_peak peak a) (seen ++ peak ∷ [])
unfolding note_peak
note_peak-IsKept peak a seen k = elim (Bool-cases a.has_current) [
  | inl e ↦ record {
    buckets = k.buckets;
    current = k.current ++ peak ∷ [];
    all_seen = one_more_seen (concat k.buckets) k.current seen peak k.all_seen;
    base = rw e k.base;
    open_bucket = λ h.
        rw e (IsEnvelope-one_more a.current_min a.current_max peak k.current (k.open_bucket e));
    no_bucket = λ h. absurd (ground (arith, e, h));
  }
  | inr e ↦ record {
    buckets = k.buckets;
    current = k.current ++ peak ∷ [];
    all_seen = one_more_seen (concat k.buckets) k.current seen peak k.all_seen;
    base = rw e k.base;
    open_bucket = λ h. rw (e, k.no_bucket e) (alone peak);
    no_bucket = λ h. absurd (ground (arith, e, h));
  }
]

flush-IsKept : (a : WaveformAccumulator) (seen : List ℕ) → IsKept a seen → IsKept (flush a) seen
unfolding flush
flush-IsKept a seen k = elim (Bool-cases a.has_current) [
  | inl e ↦ record {
    buckets = k.buckets ++ doubled k.current ∷ [];
    current = [];
    all_seen =
        append-nil (concat (k.buckets ++ doubled k.current ∷ []))
        ∙ concat-append k.buckets (doubled k.current)
        ∙ k.all_seen;
    base = rw e (
        Summarises-append k.buckets a.base_peaks (doubled k.current) a.current_min a.current_max
          k.base (k.open_bucket e));
    open_bucket = λ h. absurd (ground (arith, e, h));
    no_bucket = λ h. refl;
  }
  | inr e ↦ record {
    buckets = k.buckets;
    current = k.current;
    all_seen = k.all_seen;
    base = rw e k.base;
    open_bucket = λ h. absurd (ground (arith, e, h));
    no_bucket = λ h. k.no_bucket e;
  }
]

flush-has_current : (a : WaveformAccumulator) → (flush a).has_current ≡ false
unfolding flush
flush-has_current a = ground arith

observe_peak-IsKept :
    (peak : ℕ) (a : WaveformAccumulator) (seen : List ℕ)
    → IsKept a seen
    → IsKept (observe_peak peak a) (seen ++ peak ∷ [])
unfolding observe_peak
observe_peak-IsKept peak a seen k =
    let n = note_peak-IsKept peak a seen k in
    let now : WaveformAccumulator = record (note_peak peak a) {
      frames_seen = wrapping_inc a.frames_seen;
    } in
    let kept : IsKept now (seen ++ peak ∷ []) = record {
      buckets = n.buckets;
      current = n.current;
      all_seen = n.all_seen;
      base = n.base;
      open_bucket = n.open_bucket;
      no_bucket = n.no_bucket;
    } in
    elim (Bool-cases (bucket_ends now)) [
      | inl e ↦ rw e (flush-IsKept now (seen ++ peak ∷ []) kept)
      | inr e ↦ rw e kept
    ]

observe_peaks-IsKept :
    (peaks : List ℕ) (a : WaveformAccumulator) (seen : List ℕ)
    → IsKept a seen
    → IsKept (observe_peaks peaks a) (seen ++ peaks)
observe_peaks-IsKept [] a seen k = subst (IsKept a) (sym (append-nil seen)) k
observe_peaks-IsKept (peak ∷ peaks) a seen k =
    subst (IsKept (observe_peaks peaks (observe_peak peak a))) (append_assoc seen (peak ∷ []) peaks)
      (observe_peaks-IsKept peaks (observe_peak peak a) (seen ++ peak ∷ [])
        (observe_peak-IsKept peak a seen k))

-- The base of a waveform: the peaks in buckets, in their order, and the envelope of each.
pub record AreBuckets (peaks : List ℕ) (base_peaks : Bytes) : Type 0 where
  pub buckets : List Bytes
  pub all_seen : concat buckets ≡ doubled peaks
  pub base : Summarises buckets base_peaks

pub observe_peaks-AreBuckets :
    (sample_rate interval : ℕ) (peaks : List ℕ)
    → AreBuckets peaks
        (flush (observe_peaks peaks (new_accumulator sample_rate interval))).base_peaks
observe_peaks-AreBuckets sample_rate interval peaks =
    let start = new_accumulator sample_rate interval in
    let a = observe_peaks peaks start in
    let k = flush-IsKept a peaks (
      observe_peaks-IsKept peaks start [] (record {
        buckets = [];
        current = [];
        all_seen = refl;
        base = tt;
        open_bucket = λ h. absurd (cc);
        no_bucket = λ h. refl;
      })) in
    record {
      buckets = k.buckets;
      all_seen =
          sym (append-nil (concat k.buckets))
          ∙ ap (λ xs. concat k.buckets ++ doubled xs) (sym (k.no_bucket (flush-has_current a)))
          ∙ k.all_seen;
      base = k.base;
    }
