-- ===== src/Vad/Cutting.antt =====
-- The output of the trim stream of dart_edge_vad, against the audio that came in.
use dart_edge.Base.{
  ℕ, ◌+◌, ◌-◌, ◌*◌, ◌≤◌, ◌<◌, ◌≡◌, refl, sym, ◌∙◌, ap, Bool, true, false, not, ◌&&◌, ◌||◌, inl, inr,
  List, [], ◌∷◌, Option, none, some, length, take, drop, drop-drop, ltb, leb, arith, Bool-cases,
}
use Prim.Native.Nat.{min, max}
use dart_edge.Base.Words.{word}
use dart_edge.Base.Result.{Result, ok, err, ok_or, ◌>>=◌}
use dart_edge.Text.Bytes.{Bytes}
use dart_edge.Vad.Trim.{
  TrimStream, TrimError, outside, start_overflow, end_overflow, working_overflow,
  over_working_limit, no_memory, output_overflow, Emitted, bytes_between, checked_add, or_else_err,
  emit_samples, emit_range, emit_ranges,
}
use dart_edge.Vad.Slices.{
  slice, AreCut-append, bytes_of-append, IsBuffered, length-pending, is_outside, IsCut,
}

module _ {F : Type 0} (reserves : ℕ → Bool) (source : Bytes) (first : TrimStream F) where
  abbrev pub CutOutcome : TrimStream F × Result Emitted TrimError → Type 0
  CutOutcome (t, ok out) = IsCut source first t out
  CutOutcome (t, err e) = (is_outside e ≡ false) × IsBuffered source t

  abbrev Sampled : Result (TrimStream F × Emitted) TrimError → Type 0
  Sampled (ok (t, out)) = IsCut source first t out
  Sampled (err e) = is_outside e ≡ false

  abbrev Avoids : {A : Type 0} → Result A TrimError → Type 0
  Avoids (ok a) = Unit
  Avoids (err e) = is_outside e ≡ false

  >>=-Sampled :
      {A : Type 0} (r : Result A TrimError) (next : A → Result (TrimStream F × Emitted) TrimError)
      → Avoids r
      → ((a : A) → r ≡ ok a → Sampled (next a))
      → Sampled (r >>= next)
  >>=-Sampled (ok a) next h k = k a refl
  >>=-Sampled (err e) next h k = h

  bytes_between-Avoids :
      (from to : ℕ) (e : TrimError)
      → is_outside e ≡ false
      → Avoids (ok_or (bytes_between from to) e)
  bytes_between-Avoids from to e h = go (bytes_between from to)
    where
      go : (o : Option ℕ) → Avoids (ok_or o e)
      go none = h
      go (some n) = tt

  checked_add-Avoids :
      (a b : ℕ) (e : TrimError) → is_outside e ≡ false → Avoids (ok_or (checked_add a b) e)
  checked_add-Avoids a b e h = go (checked_add a b)
    where
      go : (o : Option ℕ) → Avoids (ok_or o e)
      go none = h
      go (some n) = tt

  or_else_err-Avoids : (b : Bool) (e : TrimError) → is_outside e ≡ false → Avoids (or_else_err b e)
  or_else_err-Avoids true e h = tt
  or_else_err-Avoids false e h = h

  or_else_err-true : (b : Bool) (e : TrimError) → b ≡ true → Avoids (or_else_err b e)
  or_else_err-true true e h = tt
  or_else_err-true false e h = absurd (cc)

  between_value :
      (from to : ℕ) (e : TrimError) (n : ℕ)
      → ok_or (bytes_between from to) e ≡ ok n
      → (from ≤ to) × (n ≡ 2 * (to - from))
  unfolding bytes_between
  between_value from to e n h = elim (Bool-cases (leb from to && ltb (2 * (to - from)) word)) [
    | inl t ↦ ground (arith, h, t)
    | inr f ↦ absurd (ground (arith, h, f))
  ]

  added_value : (a b : ℕ) (e : TrimError) (n : ℕ) → ok_or (checked_add a b) e ≡ ok n → n ≡ a + b
  unfolding checked_add
  added_value a b e n h = elim (Bool-cases (ltb (a + b) word)) [
    | inl t ↦ ground (arith, h, t)
    | inr f ↦ absurd (ground (arith, h, f))
  ]

  -- The piece of the buffer is the piece of the source.
  same_slice :
      (s : TrimStream F) (start end rs re : ℕ)
      → IsBuffered source s
      → s.pending_start_sample ≤ start
      → start < end
      → rs ≡ 2 * (start - s.pending_start_sample)
      → re ≡ 2 * (end - s.pending_start_sample)
      → take (re - rs) (drop rs s.pending_pcm) ≡ slice source start end
  same_slice s start end rs re b h k f g = rw b.buffered (
      ap (λ xs. take (re - rs) xs) (drop-drop rs (2 * s.pending_start_sample) source)
      ∙ ap (λ n. take (re - rs) (drop n source)) (omega (arith, f, h))
      ∙ ap (λ n. take n (drop (2 * start) source)) (omega (arith, f, g, h, k)))

  emit_samples-Sampled :
      (s : TrimStream F) (start end : ℕ) (out : Emitted)
      → s.pending_start_sample ≤ start
      → s.last_emitted_source_end ≤ start
      → start < end
      → end ≤ s.vad.total_samples
      → IsCut source first s out
      → Sampled (emit_samples reserves s start end out)
  unfolding emit_samples bytes_between checked_add
  emit_samples-Sampled s start end out h k l m c =
      let from = s.pending_start_sample in
      >>=-Sampled (ok_or (bytes_between from start) start_overflow) _
        (bytes_between-Avoids from start start_overflow refl)
        λ rs e.
          >>=-Sampled (ok_or (bytes_between from end) end_overflow) _
            (bytes_between-Avoids from end end_overflow refl)
            λ re f.
              >>=-Sampled (or_else_err (not (ltb (length s.pending_pcm) re || ltb re rs)) outside) _
                (or_else_err-true _ outside (
                  ground (
                    arith,
                    between_value from start start_overflow rs e,
                    between_value from end end_overflow re f,
                    length-pending source s c.still_buffered,
                    k,
                    l,
                    m,
                    h,
                  )))
                λ u g.
                  >>=-Sampled
                    (ok_or (checked_add (length s.pending_pcm) (length out.bytes)) working_overflow)
                    _ (checked_add-Avoids _ _ working_overflow refl)
                    λ working i.
                      >>=-Sampled (ok_or (checked_add working (re - rs)) working_overflow) _
                        (checked_add-Avoids _ _ working_overflow refl)
                        λ peak j.
                          >>=-Sampled
                            (or_else_err (leb peak s.max_pending_bytes) over_working_limit) _
                            (or_else_err-Avoids _ over_working_limit refl)
                            λ v n.
                              >>=-Sampled (or_else_err (reserves (re - rs)) no_memory) _
                                (or_else_err-Avoids _ no_memory refl)
                                λ w o.
                                  >>=-Sampled
                                    (ok_or (checked_add s.output_samples (end - start))
                                      output_overflow)
                                    _ (checked_add-Avoids _ _ output_overflow refl)
                                    λ output p.
                                      let value =
                                        added_value s.output_samples (end - start) output_overflow
                                          output p in
                                      let piece =
                                        same_slice s start end rs re c.still_buffered h l
                                          (between_value from start start_overflow rs e).1
                                          (between_value from end end_overflow re f).1 in
                                      record {
                                        same_bytes =
                                            rw (piece, c.same_bytes)
                                              (sym (bytes_of-append source out.ranges _));
                                        ordered =
                                            AreCut-append first.last_emitted_source_end
                                              s.last_emitted_source_end end first.output_samples
                                              s.output_samples output out.ranges _ c.ordered
                                              (k, l, refl, value, (omega arith, refl));
                                        still_buffered = record {
                                          buffered = c.still_buffered.buffered;
                                          reached = c.still_buffered.reached;
                                          received = c.still_buffered.received;
                                          emitted = m;
                                        };
                                      }

  emit_range-Sampled :
      (s : TrimStream F) (range : ℕ × ℕ) (out : Emitted)
      → IsCut source first s out
      → Sampled (emit_range reserves s range out)
  unfolding emit_range
  emit_range-Sampled s (a, b) out c =
      let start = max (max a s.pending_start_sample) s.last_emitted_source_end in
      let end = min b s.vad.total_samples in
      elim (Bool-cases (leb end start)) [
        | inl none_left ↦ rw (none_left, emit_range) c
        | inr some_left ↦
            rw (some_left, emit_range)
              (emit_samples-Sampled s start end out (omega arith) (omega arith)
                (ground (arith, some_left)) (omega arith) c)
      ]

  emit_all-CutOutcome :
      (s : TrimStream F) (ranges : List (ℕ × ℕ)) (out : Emitted)
      → IsCut source first s out
      → CutOutcome (emit_ranges reserves s ranges out)
  unfolding emit_ranges
  emit_all-CutOutcome s [] out c = c
  emit_all-CutOutcome s (range ∷ ranges) out c =
      go (emit_range reserves s range out) (emit_range-Sampled s range out c)
        (λ t more d. emit_all-CutOutcome t ranges more d)
    where
      go :
          (r : Result (TrimStream F × Emitted) TrimError)
          → Sampled r
          → ((t : TrimStream F) (more : Emitted)
              → IsCut source first t more
              → CutOutcome (emit_ranges reserves t ranges more))
          → CutOutcome
              (elim r [ err e ↦ (s, err e) | ok (t, more) ↦ emit_ranges reserves t ranges more ])
      go (ok (t, more)) d rest = rest t more d
      go (err e) d rest = (d, c.still_buffered)

-- In a call of the trim stream, whatever ranges it is asked to put out: the output is exactly the
-- audio of the ranges that it reports, in their order; these go forward from the last sample that was
-- put out, so that none is put out twice, and fill the output without a gap. An error is never that a
-- range is outside of the buffer. The condition is that the buffer holds what has come in from its
-- first sample on, and this holds again afterwards.
pub emit_ranges-CutOutcome :
    {F : Type 0} (reserves : ℕ → Bool) (source : Bytes) (s : TrimStream F) (ranges : List (ℕ × ℕ))
    → IsBuffered source s
    → CutOutcome reserves source s
        (emit_ranges reserves s ranges (record { bytes = []; ranges = [] }))
emit_ranges-CutOutcome reserves source s ranges b =
    emit_all-CutOutcome reserves source s s ranges (record { bytes = []; ranges = [] })
      (record { same_bytes = refl; ordered = (omega arith, refl); still_buffered = b })
