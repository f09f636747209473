-- ===== src/Audio/Observed.antt =====
-- What a waveform observes of the frames of PCM16 audio, from bytes and from decoded channels.
use dart_edge.Base.{
  ℕ, zero, suc, ◌+◌, ◌*◌, ◌/◌, ◌%◌, ◌≤◌, ◌<◌, ◌≡◌, refl, ap, ◌∙◌, true, false, List, [], ◌∷◌, ◌++◌,
  length, take, drop, length-append, All, leb, arith, take_append, drop_append, length-drop,
}
use native.Mathlib.Nat.{div-add-mod, mul-add-div}
use dart_edge.Base.Result.{ok}
use dart_edge.Base.Words.{word}
use dart_edge.Text.Bytes.{Bytes}
use dart_edge.Audio.Sample.{Sample, sample_of, samples_of, sum_from}
use dart_edge.Audio.Pcm16.{parts, chunks_exact}
use dart_edge.Audio.Peaks.{WaveformAccumulator}
use dart_edge.Audio.Waveform.{observe, observe_frames, visualization_sample, observe_columns}
use dart_edge.Audio.Pushing.{Shows}

module _ {F : Type 0} (float : Sample F) where
  -- The frames observed one after the other.
  abbrev pub observed : ℕ → List Bytes → WaveformAccumulator → WaveformAccumulator
  observed c [] a = a
  observed c (frame ∷ frames) a =
      observed c frames (observe float (visualization_sample float c frame) a)

  pub observed-append :
      (c : ℕ) (xs ys : List Bytes) (a : WaveformAccumulator)
      → observed c (xs ++ ys) a ≡ observed c ys (observed c xs a)
  observed-append c [] ys a = refl
  observed-append c (x ∷ xs) ys a =
      observed-append c xs ys (observe float (visualization_sample float c x) a)

  pub observe_frames-observed :
      (c : ℕ) (frames : List Bytes) (a : WaveformAccumulator) (n : ℕ)
      → n + length frames < word
      → observe_frames float c frames (a, n) ≡ ((observed c frames a, n + length frames), true)
  unfolding observe_frames
  observe_frames-observed c [] a n h = ap (λ m. ((a, m), true)) (omega arith)
  observe_frames-observed c (frame ∷ frames) a n h =
      let next = observe float (visualization_sample float c frame) a in
      let later = observe_frames-observed c frames next (n + 1) (omega (arith, h)) in
      let counts : leb word (n + 1) ≡ false = ground (arith, h) in
      rw counts (later ∙ ap (λ m. ((observed c frames next, m), true)) (omega arith))

  -- Adding up from the two zeros gives the same, if a sample is added.
  abbrev pub SumsAgree : Type 0
  SumsAgree =
      (low high : ℕ)
      → float.add float.sum_start (sample_of float low high)
        ≡ float.add float.zero (sample_of float low high)

  sum-agrees :
      (frame : Bytes)
      → SumsAgree
      → 2 ≤ length frame
      → sum_from float float.sum_start (samples_of float frame)
        ≡ sum_from float float.zero (samples_of float frame)
  unfolding sum_from samples_of
  sum-agrees [] agree h = absurd (omega (arith, h))
  sum-agrees (b ∷ []) agree h = absurd (omega (arith, h))
  sum-agrees (low ∷ high ∷ rest) agree h =
      ap (λ total. sum_from float total (samples_of float rest)) (agree low high)

  pub observe_columns-observed :
      (c : ℕ) (samples : List (List F)) (k : ℕ) (frames : List Bytes) (a : WaveformAccumulator)
      → SumsAgree
      → length samples ≡ c
      → All (λ frame. 2 ≤ length frame) frames
      → Shows float samples k frames
      → observe_columns float samples k (length frames) a ≡ ok (observed c frames a)
  unfolding observe_columns visualization_sample
  observe_columns-observed c samples k [] a agree e long shows = refl
  observe_columns-observed c samples k (frame ∷ frames) a agree e long shows =
      rw (shows.0, sum-agrees frame agree long.0, e)
        (observe_columns-observed c samples (suc k) frames
          (observe float (visualization_sample float c frame) a) agree e long.1 shows.1)

pub plus_zero : (n : ℕ) → n ≡ n + 0
plus_zero n = omega arith

one_before : (m n : ℕ) → suc m + n ≡ suc (m + n)
one_before m n = omega arith

parts-append :
    (size m n : ℕ) (xs ys : Bytes)
    → length xs ≡ m * size
    → parts size (m + n) (xs ++ ys) ≡ parts size m xs ++ parts size n ys
unfolding parts
parts-append size zero n [] ys h = ap (λ k. parts size k ys) (omega arith)
parts-append size zero n (x ∷ xs) ys h = absurd (omega (arith, h))
parts-append size (suc m) n xs ys h =
    let within : size ≤ length xs = grind (arith, h) in
    let left : length (drop size xs) ≡ m * size = grind (arith, h, length-drop size xs) in
    ap (λ k. parts size k (xs ++ ys)) (one_before m n)
    ∙ rw (take_append size xs ys within, drop_append size xs ys within)
        (ap (λ rest. take size xs ∷ rest) (parts-append size m n (drop size xs) ys left))

div_whole : (a b n : ℕ) → 0 < n → a % n ≡ 0 → (a + b) / n ≡ a / n + b / n
div_whole a b n p h =
    let whole : a ≡ n * (a / n) = grind (arith, h, div-add-mod a n) in
    ap (λ k. (k + b) / n) whole ∙ mul-add-div p (a / n) b

-- Whole frames make whole frames, and their chunks follow one another.
pub chunks_exact-append :
    (size : ℕ) (xs ys : Bytes)
    → 0 < size
    → length xs % size ≡ 0
    → chunks_exact size (xs ++ ys) ≡ chunks_exact size xs ++ chunks_exact size ys
unfolding chunks_exact
chunks_exact-append size xs ys p h =
    ap (λ k. parts size k (xs ++ ys))
      (ap (λ n. n / size) (length-append xs ys) ∙ div_whole (length xs) (length ys) size p h)
    ∙ parts-append size (length xs / size) (length ys / size) xs ys (grind (arith, h))
