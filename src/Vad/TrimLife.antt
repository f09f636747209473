-- ===== src/Vad/TrimLife.antt =====
-- The buffer of the trim stream of dart_edge_vad over whole calls.
use dart_edge.Base.{
  drop_append, ℕ, ◌+◌, ◌-◌, ◌*◌, ◌/◌, ◌%◌, ◌≡◌, refl, sym, ◌∙◌, ap, Bool, true, false, ◌==◌, inl,
  inr, ◌⊎◌, [], ◌++◌, map, length, drop, drop-drop, length-append, ltb, arith, Bool-cases,
}
use Prim.Native.Nat.{min, max}
use dart_edge.Base.Result.{Result, ok, err, Result-cases}
use dart_edge.Text.Bytes.{Bytes}
use dart_edge.Vad.Request.{Float, SileroDetectRequest, VadError}
use dart_edge.Vad.Network.{Session}
use dart_edge.Vad.Stream.{VadStream, VadStreamResult, process}
use dart_edge.Vad.Trim.{
  TrimStream, TrimError, TrimResult, Emitted, vad_failed, discard_before, emit_ranges, emit_found,
  settle_trim, admit, process_trim, active_ranges, range_of, needed_from,
}
use dart_edge.Vad.Slices.{IsBuffered, AreCut, bytes_of, is_outside, length-pending}
use dart_edge.Vad.Cutting.{CutOutcome, emit_ranges-CutOutcome}
use dart_edge.Vad.TrimCalls.{process-total}

discard_before-IsBuffered :
    {F : Type 0} (source : Bytes) (s : TrimStream F) (n : ℕ)
    → IsBuffered source s
    → IsBuffered source (discard_before s n)
unfolding discard_before
discard_before-IsBuffered source s n b =
    let from = s.pending_start_sample in
    let to = min (max n from) (from + length s.pending_pcm / 2) in
    let size = length-pending source s b in
    elim (Bool-cases (ltb 0 (2 * (to - from)))) [
      | inr nothing_over ↦ rw (nothing_over, discard_before) b
      | inl some_over ↦
          rw (some_over, discard_before)
            (record {
              buffered =
                  ap (drop (2 * (to - from))) b.buffered
                  ∙ drop-drop (2 * (to - from)) (2 * from) source
                  ∙ ap (λ k. drop k source) (omega arith);
              reached = omega (arith, size, b.reached);
              received = b.received;
              emitted = b.emitted;
            })
    ]

discard_before-keeps :
    {F : Type 0} (s : TrimStream F) (n : ℕ)
    → ((discard_before s n).last_emitted_source_end ≡ s.last_emitted_source_end)
      × ((discard_before s n).output_samples ≡ s.output_samples)
unfolding discard_before
discard_before-keeps s n = ground arith

module _ {F : Type 0} (float : Float F) (session : Session F) (request : SileroDetectRequest F)
    (reserves : ℕ → Bool) (source : Bytes) (s : TrimStream F) where
  -- What a call leaves: all is as before, or the input has joined the audio. The output is the audio
  -- of its ranges, which go on where the last call ended.
  abbrev pub AfterCall : Bytes → TrimStream F × Result TrimResult TrimError → Type 0
  AfterCall input (t, ok r) =
      IsBuffered (source ++ input) t
      × (r.emitted.bytes ≡ bytes_of (source ++ input) r.emitted.ranges)
      × AreCut s.last_emitted_source_end t.last_emitted_source_end s.output_samples t.output_samples
          r.emitted.ranges
  AfterCall input (t, err e) = (t ≡ s) ⊎ (IsBuffered (source ++ input) t × (is_outside e ≡ false))

  abbrev joined_input : Bytes → VadStream F → TrimStream F
  joined_input input vad = record s { pending_pcm = s.pending_pcm ++ input; vad = vad }

  joined_input-IsBuffered :
      (input : Bytes) (vad : VadStream F)
      → vad.total_samples ≡ s.vad.total_samples + length input / 2
      → (length input % 2 == 0) ≡ true
      → IsBuffered source s
      → IsBuffered (source ++ input) (joined_input input vad)
  joined_input-IsBuffered input vad e w b = record {
    buffered =
        ap (λ xs. xs ++ input) b.buffered
        ∙ sym (
            drop_append (2 * s.pending_start_sample) source input
              (omega (arith, b.received, b.reached)));
    reached = omega (arith, e, b.reached);
    received = ground (arith, length-append source input, b.received, e, w);
    emitted = omega (arith, e, b.emitted);
  }

  settle_trim-IsBuffered :
      (all : Bytes) (flush : Bool) (found : VadStreamResult F) (t : TrimStream F)
      (emitted : Emitted)
      → IsBuffered all t
      → IsBuffered all (settle_trim float session request reserves flush found t emitted).0
  unfolding settle_trim
  settle_trim-IsBuffered all flush found t emitted b =
      let d =
        discard_before-IsBuffered all t (needed_from float session request reserves flush t) b in
      record {
        buffered = d.buffered;
        reached = d.reached;
        received = d.received;
        emitted = d.emitted;
      }

  admit-whole :
      (input : Bytes)
      → admit float session request reserves s input ≡ ok tt
      → (length input % 2 == 0) ≡ true
  unfolding admit
  admit-whole input h = elim (Bool-cases (length input % 2 == 0)) [
    | inl e ↦ e
    | inr f ↦ elim (Bool-cases s.finished) [
      | inl g ↦ absurd (ground (arith, g, rw (g, admit) at h))
      | inr g ↦ absurd (ground (arith, f, g, rw (g, f, admit) at h))
    ]
  ]

  emit_found-AfterCall :
      (input : Bytes) (flush : Bool) (found : VadStreamResult F) (vad : VadStream F)
      → IsBuffered (source ++ input) (joined_input input vad)
      → AfterCall input
          (emit_found float session request reserves flush found (joined_input input vad))
  unfolding emit_found
  emit_found-AfterCall input flush found vad b =
      let t = joined_input input vad in
      let ranges =
        map range_of found.segments ++ active_ranges float session request reserves vad in
      go (emit_ranges reserves t ranges (record { bytes = []; ranges = [] }))
        (emit_ranges-CutOutcome reserves (source ++ input) t ranges b)
    where
      go :
          (x : TrimStream F × Result Emitted TrimError)
          → CutOutcome reserves (source ++ input) (joined_input input vad) x
          → AfterCall input (elim x.1 [
            | err e ↦ (x.0, err e)
            | ok emitted ↦ settle_trim float session request reserves flush found x.0 emitted
          ])
      go (u, err e) c = inr (c.1, c.0)
      go (u, ok emitted) c =
          let keeps = discard_before-keeps u (needed_from float session request reserves flush u) in
          (
            settle_trim-IsBuffered (source ++ input) flush found u emitted c.still_buffered,
            c.same_bytes,
            unfold settle_trim in rw (keeps.0, keeps.1) c.ordered,
          )

  -- A call on a trim stream whose buffer holds the audio so far, from its first sample on, while the
  -- detection has not been finished. If it gives a result, the input has joined the audio and the
  -- buffer holds it in the same way; the output is exactly the audio of the ranges that it reports,
  -- which go forward from where the last call ended, so that no sample is put out twice. If it gives
  -- an error, then nothing has changed, or the input has joined the audio; it is never that a range
  -- is outside of the buffer.
  pub process_trim-AfterCall :
      (input : Bytes) (flush : Bool)
      → s.vad.finished ≡ false
      → IsBuffered source s
      → AfterCall input (process_trim float session request reserves s input flush)
  unfolding process_trim
  process_trim-AfterCall input flush h b =
      elim (Result-cases (admit float session request reserves s input)) [
        | inr (e, refused) ↦ rw (refused, process_trim) (inl refl)
        | inl (u, admitted) ↦
            let whole = admit-whole input admitted in
            rw (admitted, process_trim)
              (go (process float session request s.vad input flush) (
                joined_input-IsBuffered input _
                  (process-total float session request s.vad input flush h whole) whole b))
      ]
    where
      go :
          (x : VadStream F × Result (VadStreamResult F) VadError)
          → IsBuffered (source ++ input) (joined_input input x.0)
          → AfterCall input (elim x.1 [
            | err e ↦ (joined_input input x.0, err (vad_failed e))
            | ok r ↦ emit_found float session request reserves flush r (joined_input input x.0)
          ])
      go (vad, err e) d = inr (d, refl)
      go (vad, ok r) d = emit_found-AfterCall input flush r vad d
