-- ===== src/Vad/Ending.antt =====
-- The end of a stream of dart_edge_vad: the calls without a flush, and the flush.
use dart_edge.Base.{
  ℕ, zero, suc, ◌+◌, ◌*◌, ◌/◌, ◌%◌, ◌≤◌, ◌<◌, ◌≡◌, refl, sym, subst, ◌∙◌, ap, true, not, inl, inr,
  List, [], ◌∷◌, ◌++◌, is_empty, length, take, drop, length-drop, ltb, Bool-cases, arith,
  if◌then◌else◌,
}
use mathlib.Core.List.{append-nil}
use dart_edge.Base.Result.{ok, err, Result-cases}
use dart_edge.Text.Bytes.{Bytes}
use dart_edge.Vad.Request.{Float, SileroDetectRequest, pcm16le_to_f32}
use dart_edge.Vad.Network.{Session, run_silero_window}
use dart_edge.Vad.Windows.{runs, runs-ok, runs-err, runs-nil}
use dart_edge.Vad.Stream.{
  VadStream, Found, Step, and_then, run_frame, next_frame, drain, drain_rest,
}
use dart_edge.Vad.Draining.{run_frame-ok, run_frame-err, consume_probability-Keeps}

pub length-pcm16le_to_f32 :
    {F : Type 0} (float : Float F) (input : Bytes)
    → length (pcm16le_to_f32 float input) ≡ length input / 2
unfolding pcm16le_to_f32
length-pcm16le_to_f32 float [] = refl
length-pcm16le_to_f32 float (a ∷ []) = refl
length-pcm16le_to_f32 float (a ∷ b ∷ input) = omega (arith, length-pcm16le_to_f32 float input)

pub pcm16le_to_f32-append :
    {F : Type 0} (float : Float F) (xs ys : Bytes)
    → length xs % 2 ≡ 0
    → pcm16le_to_f32 float (xs ++ ys) ≡ pcm16le_to_f32 float xs ++ pcm16le_to_f32 float ys
unfolding pcm16le_to_f32
pcm16le_to_f32-append float [] ys h = refl
pcm16le_to_f32-append float (a ∷ []) ys h = absurd (omega arith)
pcm16le_to_f32-append float (a ∷ b ∷ xs) ys h =
    ap (λ ps. float.of_i16 (a + 256 * b) ∷ ps) (pcm16le_to_f32-append float xs ys (omega arith))

take_all : {A : Type 0} (n : ℕ) (xs : List A) → length xs ≤ n → take n xs ≡ xs
take_all zero [] h = refl
take_all zero (x ∷ xs) h = absurd (omega arith)
take_all (suc n) [] h = refl
take_all (suc n) (x ∷ xs) h = ap (λ ys. x ∷ ys) (take_all n xs (omega arith))

drop_all : {A : Type 0} (n : ℕ) (xs : List A) → length xs ≤ n → drop n xs ≡ []
drop_all zero [] h = refl
drop_all zero (x ∷ xs) h = absurd (omega arith)
drop_all (suc n) [] h = refl
drop_all (suc n) (x ∷ xs) h = drop_all n xs (omega arith)

-- Less than a window is over after whole windows: nothing is.
pub nothing_over : (r i k w : ℕ) → i * w + r ≡ k * w → r < w → r ≡ 0
nothing_over r zero zero w h l = omega arith
nothing_over r zero (suc k) w h l = absurd (omega arith)
nothing_over r (suc i) zero w h l = absurd (omega arith)
nothing_over r (suc i) (suc k) w h l = nothing_over r i k w (omega arith) l

module _ {F : Type 0} (float : Float F) (session : Session F) (request : SileroDetectRequest F)
    (positive : 1 ≤ request.window_size_samples) where
  abbrev pub IsShort : Step F → Type 0
  IsShort (u, ok g) = length u.pending < request.window_size_samples
  IsShort (u, err e) = Unit

  abbrev frame_of : VadStream F → Found F → Step F
  frame_of s f =
      run_frame float session request (take request.window_size_samples s.pending)
        s.processed_samples (next_frame float session request s) f

  -- One round for each sample is enough for the loop: less than a window is left.
  pub drain-IsShort :
      (n : ℕ) (s : VadStream F) (f : Found F)
      → length s.pending ≤ n
      → IsShort (drain float session request n s f)
  unfolding drain
  drain-IsShort zero s f h = omega (arith, h, positive)
  drain-IsShort (suc n) s f h =
      let w = request.window_size_samples in
      let chunk = take w s.pending in
      let t = next_frame float session request s in
      let rest = and_then (frame_of s f) (drain float session request n) in
      elim (Bool-cases (ltb (length s.pending) w)) [
        | inl short ↦
            subst (λ b. IsShort (if b then (s, ok f) else rest)) (sym short) (ground (arith, short))
        | inr whole ↦
            subst (λ b. IsShort (if b then (s, ok f) else rest)) (sym whole)
              (elim (Result-cases (run_silero_window float session request chunk s.memory)) [
                | inr (e, failed) ↦
                    subst (λ x. IsShort (and_then x (drain float session request n)))
                      (sym (
                        run_frame-err float session request positive chunk s.processed_samples t f e
                          failed))
                      tt
                | inl ((p, next), e) ↦
                    subst (λ x. IsShort (and_then x (drain float session request n)))
                      (sym (
                        run_frame-ok float session request positive chunk s.processed_samples t f p
                          next e))
                      (drain-IsShort n _ _ (
                        rw
                          (
                            (consume_probability-Keeps float request p s.processed_samples
                                (s.processed_samples + w) (record t { memory = next })
                                f.segments).pending,
                            length-drop w s.pending,
                          )
                          (ground (arith, whole, h, positive))))
              ])
      ]

  -- What a flush does with what is left of the windows.
  pub record Flushed (u : VadStream F) (g : Found F) (v : VadStream F) (k : Found F) : Type 0 where
    pub found : List F
    pub probabilities : k.probabilities ≡ g.probabilities ++ found
    pub rest : runs float session request positive u.memory u.pending ≡ ok found
    pub same_total : v.total_samples ≡ u.total_samples
    pub whole : u.pending ≡ [] → (found ≡ []) × (v ≡ u) × (k ≡ g)

  abbrev pub FlushOutcome : VadStream F → Found F → Step F → Type 0
  FlushOutcome u g (v, ok k) = Flushed u g v k
  FlushOutcome u g (v, err e) = runs float session request positive u.memory u.pending ≡ err e

  pub drain_rest-FlushOutcome :
      (u : VadStream F) (g : Found F)
      → length u.pending < request.window_size_samples
      → FlushOutcome u g (drain_rest float session request true u g)
  unfolding drain_rest
  drain_rest-FlushOutcome u g h = go u.pending refl
    where
      go :
          (pending : List F)
          → u.pending ≡ pending
          → FlushOutcome u g (
              if not (is_empty pending)
              then run_frame float session request pending u.processed_samples
                  (record u { pending = []; processed_samples = u.total_samples })
                  g
              else (u, ok g))
      go [] e = record {
        found = [];
        probabilities = sym (append-nil g.probabilities);
        rest = rw e (runs-nil float session request positive u.memory);
        same_total = refl;
        whole = λ n. (refl, refl, refl);
      }
      go (x ∷ xs) e =
          let t : VadStream F = record u { pending = []; processed_samples = u.total_samples } in
          elim (Result-cases (run_silero_window float session request (x ∷ xs) u.memory)) [
            | inr (er, failed) ↦
                subst (FlushOutcome u g)
                  (sym (
                    run_frame-err float session request positive (x ∷ xs) u.processed_samples t g er
                      failed))
                  (rw e (
                    runs-err float session request positive u.memory er (x ∷ xs) (omega arith) (
                      rw (take_all request.window_size_samples (x ∷ xs) (omega (arith, rw e at h)))
                        failed)))
            | inl ((p, next), done) ↦
                subst (FlushOutcome u g)
                  (sym (
                    run_frame-ok float session request positive (x ∷ xs) u.processed_samples t g p
                      next done))
                  (record {
                    found = p ∷ [];
                    probabilities = refl;
                    rest = rw e (
                        runs-ok float session request positive u.memory next p (x ∷ xs)
                          (omega arith)
                          (rw
                            (take_all request.window_size_samples (x ∷ xs)
                              (omega (arith, rw e at h)))
                            done)
                        ∙ rw
                            (
                              drop_all request.window_size_samples (x ∷ xs)
                                  (omega (arith, rw e at h)),
                              runs-nil float session request positive next,
                            )
                            refl);
                    same_total =
                        (consume_probability-Keeps float request p u.processed_samples
                          u.total_samples (record t { memory = next }) g.segments).total;
                    whole = λ n. absurd (cc (n, e));
                  })
          ]
