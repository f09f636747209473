-- ===== src/Vad/Windows.antt =====
-- The loop over the windows of dart_edge_vad: it has enough rounds, and goes on window by window.
use dart_edge.Base.{
  ℕ, zero, suc, ◌≤◌, ◌≡◌, refl, inl, inr, List, [], ◌∷◌, length, take, drop, length-drop, arith,
}
use dart_edge.Base.Result.{Result, ok, err, ◌>>=◌, Result-cases}
use dart_edge.Vad.Request.{Float, SileroDetectRequest, VadError}
use dart_edge.Vad.Network.{Session, Memory, run_silero_window, run_windows}

module _ {F : Type 0} (float : Float F) (session : Session F) (request : SileroDetectRequest F)
    (positive : 1 ≤ request.window_size_samples) where
  -- Rounds beyond one for each sample change nothing.
  pub run_windows-enough :
      (n m : ℕ) (memory : Memory F) (pcm : List F)
      → length pcm ≤ n
      → length pcm ≤ m
      → run_windows float session request n memory pcm
        ≡ run_windows float session request m memory pcm
  unfolding run_windows
  run_windows-enough zero zero memory pcm h k = refl
  run_windows-enough zero (suc m) memory [] h k = refl
  run_windows-enough zero (suc m) memory (s ∷ pcm) h k = absurd (omega arith)
  run_windows-enough (suc n) zero memory [] h k = refl
  run_windows-enough (suc n) zero memory (s ∷ pcm) h k = absurd (omega arith)
  run_windows-enough (suc n) (suc m) memory [] h k = refl
  run_windows-enough (suc n) (suc m) memory (s ∷ pcm) h k =
      elim (Result-cases (
        run_silero_window float session request (take request.window_size_samples (s ∷ pcm))
          memory)) [
            | inr (e, f) ↦ rw f refl
            | inl ((p, next), f) ↦
                rw
                  (
                    f,
                    run_windows-enough n m next (drop request.window_size_samples (s ∷ pcm))
                        (omega (arith, length-drop request.window_size_samples (s ∷ pcm)))
                        (omega (arith, length-drop request.window_size_samples (s ∷ pcm))),
                  )
                  refl
          ]

  abbrev pub runs : Memory F → List F → Result (List F) VadError
  runs memory pcm = run_windows float session request (length pcm) memory pcm

  pub runs-ok :
      (memory next : Memory F) (p : F) (pcm : List F)
      → 1 ≤ length pcm
      → run_silero_window float session request (take request.window_size_samples pcm) memory
        ≡ ok (p, next)
      → runs memory pcm
        ≡ (runs next (drop request.window_size_samples pcm) >>= λ rest. ok (p ∷ rest))
  unfolding run_windows
  runs-ok memory next p [] h f = absurd (omega arith)
  runs-ok memory next p (s ∷ pcm) h f =
      rw
        (
          f,
          run_windows-enough (length pcm) (length (drop request.window_size_samples (s ∷ pcm))) next
              (drop request.window_size_samples (s ∷ pcm))
              (omega (arith, length-drop request.window_size_samples (s ∷ pcm))) (omega arith),
        )
        refl

  pub runs-err :
      (memory : Memory F) (e : VadError) (pcm : List F)
      → 1 ≤ length pcm
      → run_silero_window float session request (take request.window_size_samples pcm) memory
        ≡ err e
      → runs memory pcm ≡ err e
  unfolding run_windows
  runs-err memory e [] h f = absurd (omega arith)
  runs-err memory e (s ∷ pcm) h f = rw f refl

  pub runs-nil : (memory : Memory F) → runs memory [] ≡ ok []
  unfolding run_windows
  runs-nil memory = refl
