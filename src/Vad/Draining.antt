-- ===== src/Vad/Draining.antt =====
-- The loop over the windows of a stream of dart_edge_vad, against the loops over a whole input.
use dart_edge.Base.{
  take_append, drop_append, ℕ, zero, suc, ◌+◌, ◌*◌, ◌≤◌, ◌<◌, ◌≡◌, refl, sym, subst, ◌∙◌, ap, inl,
  inr, List, [], ◌∷◌, ◌++◌, length, take, length-append, length-drop, ltb, Bool-cases, arith,
  if◌then◌else◌,
}
use mathlib.Core.List.{append_assoc, append-nil}
use dart_edge.Base.Result.{Result, ok, err, ◌>>=◌, >>=-pure, Result-cases}
use dart_edge.Vad.Request.{
  Float, SileroDetectRequest, VadError, min_silence_samples, speech_pad_samples,
}
use dart_edge.Vad.Segment.{NativeVadSegment}
use dart_edge.Vad.Network.{Session, Memory, run_silero_window}
use dart_edge.Vad.Windows.{runs, runs-ok, runs-err}
use dart_edge.Vad.Batch.{Tracker, track, track_all}
use dart_edge.Vad.Stream.{
  VadStream, Found, Step, and_then, consume_silence, consume_probability, run_frame, next_frame,
  drain,
}
use dart_edge.Vad.Simulation.{tracker, IsSpread, consume-Tracks}

-- A frame leaves the rest of the stream as it is.
pub record Keeps {F : Type 0} (s u : VadStream F) : Type 0 where
  pub memory : u.memory ≡ s.memory
  pub pending : u.pending ≡ s.pending
  pub total : u.total_samples ≡ s.total_samples
  pub processed : u.processed_samples ≡ s.processed_samples
  pub finished : u.finished ≡ s.finished

pub consume_probability-Keeps :
    {F : Type 0} (float : Float F) (request : SileroDetectRequest F) (p : F) (from to : ℕ)
    (s : VadStream F) (gs : List NativeVadSegment)
    → Keeps s (consume_probability float request p from to s gs).0
unfolding consume_probability consume_silence
consume_probability-Keeps float request p from to s gs = ground arith

one_more : (n w : ℕ) → n * w + w ≡ (n + 1) * w
one_more n w = omega arith

pub track_all_append :
    {F : Type 0} (float : Float F) (request : SileroDetectRequest F) (total index : ℕ) (t : Tracker)
    (ps qs : List F)
    → track_all float request total index t (ps ++ qs)
      ≡ track_all float request total
          (index + length ps)
          (track_all float request total index t ps)
          qs
unfolding track_all
track_all_append float request total index t [] qs =
    ap (λ n. track_all float request total n t qs) (omega arith)
track_all_append float request total index t (p ∷ ps) qs =
    track_all_append float request total (index + 1) _ ps qs
    ∙ ap (λ n. track_all float request total n (track_all float request total index t (p ∷ ps)) qs)
        (omega arith)

append_found :
    {F : Type 0} (xs ys : List F) (r : Result (List F) VadError)
    → ((r >>= λ ps. ok (ys ++ ps)) >>= λ ps. ok (xs ++ ps)) ≡ (r >>= λ ps. ok ((xs ++ ys) ++ ps))
append_found xs ys (ok ps) = ap ok (sym (append_assoc xs ys ps))
append_found xs ys (err e) = refl

module _ {F : Type 0} (float : Float F) (session : Session F) (request : SileroDetectRequest F)
    (positive : 1 ≤ request.window_size_samples) where
  -- From one stream to a later one: what the loops over the whole input do on the way.
  pub record Progress (s : VadStream F) (f : Found F) (u : VadStream F) (g : Found F) : Type 0 where
    pub found : List F
    pub probabilities : g.probabilities ≡ f.probabilities ++ found
    pub rest :
        (future : List F)
        → runs float session request positive s.memory (s.pending ++ future) ≡ (
            runs float session request positive u.memory (u.pending ++ future) >>= λ ps.
            ok (found ++ ps))
    pub same_total : u.total_samples ≡ s.total_samples
    pub unfinished : u.finished ≡ s.finished
    pub counted : u.processed_samples + length u.pending ≡ s.processed_samples + length s.pending
    pub tracked :
        2 * speech_pad_samples request < min_silence_samples request
        → (total index : ℕ) (before : List NativeVadSegment) → s.total_samples ≤ total
        → s.processed_samples + length s.pending ≡ s.total_samples
        → s.processed_samples ≡ index * request.window_size_samples
        → IsSpread float request before f.segments s.active_start s.processed_samples
        → (track_all float request total index
              (tracker float request before f.segments s.active_start s.silence_start)
              found
            ≡ tracker float request before g.segments u.active_start u.silence_start)
          × IsSpread float request before g.segments u.active_start u.processed_samples
          × (u.processed_samples ≡ (index + length found) * request.window_size_samples)

  abbrev pub Outcome : VadStream F → Found F → Step F → Type 0
  Outcome s f (u, ok g) = Progress s f u g
  Outcome s f (u, err e) =
      (future : List F) → runs float session request positive s.memory (s.pending ++ future) ≡ err e

  Progress-none : (s : VadStream F) (f : Found F) → Progress s f s f
  unfolding track_all
  Progress-none s f = record {
    found = [];
    probabilities = sym (append-nil f.probabilities);
    rest = λ future.
        sym (>>=-pure (runs float session request positive s.memory (s.pending ++ future)));
    same_total = refl;
    unfinished = refl;
    counted = refl;
    tracked = λ quiet total index before h c i a. (refl, a, omega (arith, i));
  }

  frame-Progress :
      (s : VadStream F) (f : Found F) (p : F) (next : Memory F)
      → request.window_size_samples ≤ length s.pending
      → run_silero_window float session request
          (take request.window_size_samples s.pending)
          s.memory
        ≡ ok (p, next)
      → (u : VadStream F) (gs : List NativeVadSegment)
      → consume_probability float request p s.processed_samples
          (s.processed_samples + request.window_size_samples)
          (record (next_frame float session request s) { memory = next })
          f.segments
        ≡ (u, gs)
      → Progress s f u (record { probabilities = f.probabilities ++ p ∷ []; segments = gs })
  unfolding track_all
  frame-Progress s f p next h e u gs d =
      let w = request.window_size_samples in
      let t : VadStream F = record (next_frame float session request s) { memory = next } in
      let keeps : Keeps t u =
        subst (λ (x : VadStream F × List NativeVadSegment). Keeps t x.0) d
          (consume_probability-Keeps float request p s.processed_samples (s.processed_samples + w) t
            f.segments) in
      record {
        found = p ∷ [];
        probabilities = refl;
        rest = λ future.
            runs-ok float session request positive s.memory next p (s.pending ++ future)
              (omega (arith, positive, h, length-append s.pending future))
              (rw (take_append w s.pending future h) e)
            ∙ rw (drop_append w s.pending future h, keeps.memory, keeps.pending) refl;
        same_total = keeps.total;
        unfinished = keeps.finished;
        counted = rw (keeps.pending, keeps.processed, length-drop w s.pending) (omega (arith, h));
        tracked = λ quiet total index before k c i a.
            let after =
              consume-Tracks float request quiet total s.processed_samples before f.segments t
                (omega (arith, c, h)) k p a in
            let seen =
              subst
                (λ (x : VadStream F × List NativeVadSegment).
                  (track float request total
                      (tracker float request before f.segments s.active_start s.silence_start)
                      s.processed_samples p
                    ≡ tracker float request before x.1 x.0.active_start x.0.silence_start)
                  × IsSpread float request before x.1 x.0.active_start (s.processed_samples + w))
                d after in
            (
              subst
                  (λ n.
                    track float request total
                      (tracker float request before f.segments s.active_start s.silence_start) n p
                    ≡ tracker float request before gs u.active_start u.silence_start)
                  i seen.0,
              rw keeps.processed seen.1,
              rw (keeps.processed, i) (one_more index w),
            );
      }

  pub run_frame-ok :
      (chunk : List F) (from : ℕ) (s : VadStream F) (f : Found F) (p : F) (next : Memory F)
      → run_silero_window float session request chunk s.memory ≡ ok (p, next)
      → let after =
          consume_probability float request p from s.processed_samples
            (record s { memory = next })
            f.segments in
        run_frame float session request chunk from s f
        ≡ (after.0, ok (record { probabilities = f.probabilities ++ p ∷ []; segments = after.1 }))
  unfolding run_frame
  run_frame-ok chunk from s f p next e = rw (e, run_frame) refl

  pub run_frame-err :
      (chunk : List F) (from : ℕ) (s : VadStream F) (f : Found F) (e : VadError)
      → run_silero_window float session request chunk s.memory ≡ err e
      → run_frame float session request chunk from s f ≡ (s, err e)
  unfolding run_frame
  run_frame-err chunk from s f e failed = rw (failed, run_frame) refl

  abbrev frame : VadStream F → Found F → Step F
  frame s f =
      run_frame float session request (take request.window_size_samples s.pending)
        s.processed_samples (next_frame float session request s) f

  frame-Outcome :
      (s : VadStream F) (f : Found F)
      → request.window_size_samples ≤ length s.pending
      → Outcome s f (frame s f)
  frame-Outcome s f h =
      let w = request.window_size_samples in
      let chunk = take w s.pending in
      let t = next_frame float session request s in
      elim (Result-cases (run_silero_window float session request chunk s.memory)) [
        | inl ((p, next), e) ↦
            subst (Outcome s f) (sym (run_frame-ok chunk s.processed_samples t f p next e))
              (frame-Progress s f p next h e _ _ refl)
        | inr (e, failed) ↦
            subst (Outcome s f) (sym (run_frame-err chunk s.processed_samples t f e failed))
              λ future.
                runs-err float session request positive s.memory e (s.pending ++ future)
                  (omega (arith, positive, h, length-append s.pending future))
                  (rw (take_append w s.pending future h) failed)
      ]

  Progress-trans :
      (s t u : VadStream F) (f g k : Found F)
      → Progress s f t g
      → Progress t g u k
      → Progress s f u k
  Progress-trans s t u f g k a b = record {
    found = a.found ++ b.found;
    probabilities =
        b.probabilities
        ∙ ap (λ ps. ps ++ b.found) a.probabilities
        ∙ append_assoc f.probabilities a.found b.found;
    rest = λ future.
        a.rest future
        ∙ rw (b.rest future) (
            append_found a.found b.found
              (runs float session request positive u.memory (u.pending ++ future)));
    same_total = b.same_total ∙ a.same_total;
    unfinished = b.unfinished ∙ a.unfinished;
    counted = b.counted ∙ a.counted;
    tracked = λ quiet total index before k c i h.
        let first = a.tracked quiet total index before k c i h in
        let second =
          b.tracked quiet total (index + length a.found) before (omega (arith, k, a.same_total))
            (omega (arith, a.counted, a.same_total, c)) first.2 first.1 in
        (
          track_all_append float request total index
                (tracker float request before f.segments s.active_start s.silence_start) a.found
                b.found
              ∙ rw first.0 second.0,
          second.1,
          second.2
              ∙ rw (length-append a.found b.found)
                  (ap (λ n. n * request.window_size_samples) (omega arith)),
        );
  }

  Outcome-trans :
      (s t : VadStream F) (f g : Found F) (step : Step F)
      → Progress s f t g
      → Outcome t g step
      → Outcome s f step
  Outcome-trans s t f g (u, ok k) a b = Progress-trans s t u f g k a b
  Outcome-trans s t f g (u, err e) a b = λ future. a.rest future ∙ rw (b future) refl

  and_then-Outcome :
      (s : VadStream F) (f : Found F) (step : Step F) (next : VadStream F → Found F → Step F)
      → Outcome s f step
      → ((t : VadStream F) (g : Found F) → Progress s f t g → Outcome t g (next t g))
      → Outcome s f (and_then step next)
  and_then-Outcome s f (t, ok g) next a b = Outcome-trans s t f g (next t g) a (b t g a)
  and_then-Outcome s f (t, err e) next a b = a

  pub drain-Outcome :
      (n : ℕ) (s : VadStream F) (f : Found F) → Outcome s f (drain float session request n s f)
  unfolding drain
  drain-Outcome zero s f = Progress-none s f
  drain-Outcome (suc n) s f =
      let rest = and_then (frame s f) (drain float session request n) in
      elim (Bool-cases (ltb (length s.pending) request.window_size_samples)) [
        | inl short ↦
            subst (λ b. Outcome s f (if b then (s, ok f) else rest)) (sym short) (Progress-none s f)
        | inr whole ↦
            subst (λ b. Outcome s f (if b then (s, ok f) else rest)) (sym whole)
              (and_then-Outcome s f (frame s f) (drain float session request n)
                (frame-Outcome s f (ground (arith, whole))) (λ t g a. drain-Outcome n t g))
      ]
