-- ===== src/Audio/Shape.antt =====
-- What `remix_channels` makes of aligned channels, and of the audio of a PCM16 session.
use dart_edge.Base.{
  ℕ, zero, suc, ◌+◌, ◌≤◌, ◌<◌, ◌≡◌, refl, sym, ap, ◌∙◌, subst, true, List, [], ◌∷◌, map, some,
  length, get_elem?, all, ◌==◌, arith,
}
use dart_edge.Base.Result.{Result, ok, ◌>>=◌, ◌>>◌}
use dart_edge.Audio.Sample.{Sample, AudioError, sum_from}
use dart_edge.Audio.Format.{NativeAudioChannelLayout, keep_source, mono, stereo}
use dart_edge.Audio.Remix.{
  Sides, frame_at, mono_from, sides_from, add_sides, no_sides, left_of, right_of, to_mono,
  to_stereo, remix_channels, remixed,
}
use dart_edge.Audio.Pushing.{AreAligned}
use dart_edge.Audio.Frames.{Grants}

get_elem?-within :
    {A : Type 0} (xs : List A) (i : ℕ) → i < length xs → (x : A) × (get_elem? xs i ≡ some x)
get_elem?-within [] i h = absurd (omega (arith, h))
get_elem?-within (x ∷ xs) zero h = (x, refl)
get_elem?-within (x ∷ xs) (suc i) h = get_elem?-within xs i (omega (arith, h))

frame_at-ok :
    {F : Type 0} (n : ℕ) (samples : List (List F)) (i : ℕ)
    → AreAligned n samples
    → i < n
    → (frame : List F) × (frame_at samples i ≡ ok frame)
unfolding frame_at
frame_at-ok n [] i a h = ([], refl)
frame_at-ok n (channel ∷ rest) i a h =
    let (sample, e) = get_elem?-within channel i (omega (arith, h, a.0)) in
    let (frame, f) = frame_at-ok n rest i a.1 h in (sample ∷ frame, rw (e, f) refl)

module _ {F : Type 0} (float : Sample F) where
  -- The frames from `i` of aligned channels are all there.
  mono_from-ok :
      (n : ℕ) (samples : List (List F)) (i count : ℕ)
      → AreAligned n samples
      → i + count ≤ n
      → (mean : List F) × (mono_from float samples i count ≡ ok mean) × (length mean ≡ count)
  unfolding mono_from
  mono_from-ok n samples i zero a h = ([], refl, refl)
  mono_from-ok n samples i (suc count) a h =
      let (frame, e) = frame_at-ok n samples i a (omega (arith, h)) in
      let (mean, f, l) = mono_from-ok n samples (suc i) count a (omega (arith, h)) in
      (
        float.div (sum_from float float.sum_start frame) (float.of_nat (length samples)) ∷ mean,
        rw (e, f) refl,
        ap suc l,
      )

  sides_from-ok :
      (n : ℕ) (samples : List (List F)) (i count : ℕ)
      → AreAligned n samples
      → i + count ≤ n
      → (sides : List (Sides F)) × (sides_from float samples i count ≡ ok sides)
        × (length sides ≡ count)
  unfolding sides_from
  sides_from-ok n samples i zero a h = ([], refl, refl)
  sides_from-ok n samples i (suc count) a h =
      let (frame, e) = frame_at-ok n samples i a (omega (arith, h)) in
      let (sides, f, l) = sides_from-ok n samples (suc i) count a (omega (arith, h)) in
      (add_sides float (no_sides float) 0 frame ∷ sides, rw (e, f) refl, ap suc l)

length-map : {A B : Type 0} (f : A → B) (xs : List A) → length (map f xs) ≡ length xs
length-map f [] = refl
length-map f (x ∷ xs) = ap suc (length-map f xs)

-- How many channels a layout gives.
abbrev pub channels_of : NativeAudioChannelLayout → ℕ → ℕ
channels_of keep_source n = n
channels_of mono n = 1
channels_of stereo n = 2

-- Channels of the wanted number, all of one length.
pub record AreRemixed {F : Type 0} (n wanted : ℕ) (r : Result (List (List F)) AudioError)
    : Type 0 where
  pub samples : List (List F)
  pub succeeds : r ≡ ok samples
  pub aligned : AreAligned n samples
  pub channels : length samples ≡ wanted

all-AreAligned :
    {F : Type 0} (n : ℕ) (samples : List (List F))
    → AreAligned n samples
    → all (λ channel. length channel == n) samples ≡ true
all-AreAligned n [] a = refl
all-AreAligned n (channel ∷ rest) a = ground (arith, a.0, all-AreAligned n rest a.1)

module _ {F : Type 0} (float : Sample F) (try_reserve : ℕ → Result (Unit {0}) AudioError)
    (grants : Grants try_reserve) (n : ℕ) where
  to_mono-AreRemixed :
      (samples : List (List F))
      → AreAligned n samples
      → AreRemixed n 1 (to_mono float try_reserve samples n)
  unfolding to_mono
  to_mono-AreRemixed [] a =
      let (mean, e, l) = mono_from-ok float n [] 0 n a (omega arith) in
      record {
        samples = mean ∷ [];
        succeeds = rw (grants n, e) refl;
        aligned = (l, tt);
        channels = refl;
      }
  to_mono-AreRemixed (channel ∷ []) a = record {
    samples = channel ∷ [];
    succeeds = refl;
    aligned = a;
    channels = refl;
  }
  to_mono-AreRemixed (channel ∷ next ∷ rest) a =
      let (mean, e, l) = mono_from-ok float n (channel ∷ next ∷ rest) 0 n a (omega arith) in
      record {
        samples = mean ∷ [];
        succeeds = rw (grants n, e) refl;
        aligned = (l, tt);
        channels = refl;
      }

  split-AreRemixed :
      (samples : List (List F))
      → AreAligned n samples
      → AreRemixed n 2 (do
        try_reserve n
        try_reserve n
        sides ← sides_from float samples 0 n
        ok (map (left_of float) sides ∷ map (right_of float) sides ∷ []))
  split-AreRemixed samples a =
      let (sides, e, l) = sides_from-ok float n samples 0 n a (omega arith) in
      record {
        samples = map (left_of float) sides ∷ map (right_of float) sides ∷ [];
        succeeds = rw (grants n, e) refl;
        aligned =
            (length-map (left_of float) sides ∙ l, (length-map (right_of float) sides ∙ l, tt));
        channels = refl;
      }

  to_stereo-AreRemixed :
      (samples : List (List F))
      → AreAligned n samples
      → AreRemixed n 2 (to_stereo float try_reserve samples n)
  unfolding to_stereo
  to_stereo-AreRemixed [] a = split-AreRemixed [] a
  to_stereo-AreRemixed (source ∷ []) a = record {
    samples = source ∷ source ∷ [];
    succeeds = rw (grants n) refl;
    aligned = (a.0, (a.0, tt));
    channels = refl;
  }
  to_stereo-AreRemixed (left ∷ right ∷ []) a = record {
    samples = left ∷ right ∷ [];
    succeeds = refl;
    aligned = a;
    channels = refl;
  }
  to_stereo-AreRemixed (left ∷ right ∷ next ∷ rest) a =
      split-AreRemixed (left ∷ right ∷ next ∷ rest) a

  remixed-AreRemixed :
      (layout : NativeAudioChannelLayout) (samples : List (List F))
      → AreAligned n samples
      → AreRemixed n
          (channels_of layout (length samples))
          (remixed float try_reserve layout samples n)
  remixed-AreRemixed keep_source samples a = record {
    samples = samples;
    succeeds = refl;
    aligned = a;
    channels = refl;
  }
  remixed-AreRemixed mono samples a = to_mono-AreRemixed samples a
  remixed-AreRemixed stereo samples a = to_stereo-AreRemixed samples a

pub remix_channels-AreRemixed :
    {F : Type 0} (float : Sample F) (try_reserve : ℕ → Result (Unit {0}) AudioError) (n : ℕ)
    (layout : NativeAudioChannelLayout) (samples : List (List F))
    → Grants try_reserve
    → AreAligned n samples
    → 0 < length samples
    → AreRemixed n
        (channels_of layout (length samples))
        (remix_channels float try_reserve samples layout)
unfolding remix_channels
remix_channels-AreRemixed float try_reserve n layout [] g a h = absurd (omega (arith, h))
remix_channels-AreRemixed float try_reserve n layout (first ∷ rest) g a h =
    let samples = first ∷ rest in
    let same : length first ≡ n = a.0 in
    let here : AreAligned (length first) samples = subst (λ m. AreAligned m samples) (sym same) a in
    subst
      (λ m.
        AreRemixed m (channels_of layout (length samples))
          (remix_channels float try_reserve samples layout))
      same
      (rw (all-AreAligned (length first) samples here)
        (remixed-AreRemixed float try_reserve g (length first) layout samples here))
