-- ===== src/Audio/Remix.antt =====
-- packages/dart_edge_audio/rust/src/lib.rs: `remix_channels` (lines 1996 to 2076). Whether memory can be
-- had for so many entries is a parameter, with the message that the code would give.
use dart_edge.Base.{
  ℕ, zero, suc, ◌+◌, ◌%◌, not, List, [], ◌∷◌, map, all, length, get_elem?, ◌==◌, if◌then◌else◌,
}
use dart_edge.Base.Result.{Result, ok, ok_or, ◌>>=◌, ◌>>◌}
use dart_edge.Text.Bytes.{text}
use dart_edge.Audio.Sample.{Sample, AudioError, panics, fails, sum_from}
use dart_edge.Audio.Format.{NativeAudioChannelLayout, keep_source, mono, stereo}

-- What is added up over the channels of one frame.
pub record Sides (F : Type 0) : Type 0 where
  pub left_total : F
  pub left_count : ℕ
  pub right_total : F
  pub right_count : ℕ

module _ {F : Type 0} where
  -- `channel[frame_index]` of each channel.
  unfoldable pub frame_at : List (List F) → ℕ → Result (List F) AudioError
  frame_at [] i = ok []
  frame_at (channel ∷ rest) i = do
    sample ← ok_or (get_elem? channel i) panics
    samples ← frame_at rest i
    ok (sample ∷ samples)

module _ {F : Type 0} (float : Sample F) where
  -- The mean of the frames from `i`, as many as the second number.
  unfoldable pub mono_from : List (List F) → ℕ → ℕ → Result (List F) AudioError
  unfolding frame_at sum_from
  mono_from samples i zero = ok []
  mono_from samples i (suc n) = do
    frame ← frame_at samples i
    rest ← mono_from samples (suc i) n
    ok (float.div (sum_from float float.sum_start frame) (float.of_nat (length samples)) ∷ rest)

  unfoldable pub add_sides : Sides F → ℕ → List F → Sides F
  add_sides s channel_index [] = s
  add_sides s channel_index (sample ∷ rest) =
      add_sides
        (if channel_index % 2 == 0
          then record s {
            left_total = float.add s.left_total sample;
            left_count = s.left_count + 1;
          }
          else record s {
            right_total = float.add s.right_total sample;
            right_count = s.right_count + 1;
          })
        (suc channel_index) rest

  abbrev pub no_sides : Sides F
  no_sides = record {
    left_total = float.zero;
    left_count = 0;
    right_total = float.zero;
    right_count = 0;
  }

  abbrev pub left_of : Sides F → F
  left_of s = float.div s.left_total (float.of_nat s.left_count)

  abbrev pub right_of : Sides F → F
  right_of s =
      if s.right_count == 0 then left_of s else float.div s.right_total (float.of_nat s.right_count)

  -- The two sides of the frames from `i`.
  unfoldable pub sides_from : List (List F) → ℕ → ℕ → Result (List (Sides F)) AudioError
  unfolding frame_at add_sides
  sides_from samples i zero = ok []
  sides_from samples i (suc n) = do
    frame ← frame_at samples i
    rest ← sides_from samples (suc i) n
    ok (add_sides no_sides 0 frame ∷ rest)

module _ {F : Type 0} (float : Sample F) (try_reserve : ℕ → Result (Unit {0}) AudioError) where
  unfoldable pub to_mono : List (List F) → ℕ → Result (List (List F)) AudioError
  unfolding mono_from
  to_mono (channel ∷ []) frame_count = ok (channel ∷ [])
  to_mono samples frame_count = do
    try_reserve frame_count
    mean ← mono_from float samples 0 frame_count
    ok (mean ∷ [])

  unfoldable pub to_stereo : List (List F) → ℕ → Result (List (List F)) AudioError
  unfolding sides_from
  to_stereo (left ∷ right ∷ []) frame_count = ok (left ∷ right ∷ [])
  to_stereo (source ∷ []) frame_count = do try_reserve frame_count; ok (source ∷ source ∷ [])
  to_stereo samples frame_count = do
    try_reserve frame_count
    try_reserve frame_count
    sides ← sides_from float samples 0 frame_count
    ok (map (left_of float) sides ∷ map (right_of float) sides ∷ [])

  abbrev pub remixed :
      NativeAudioChannelLayout → List (List F) → ℕ → Result (List (List F)) AudioError
  remixed keep_source samples frame_count = ok samples
  remixed mono samples frame_count = to_mono samples frame_count
  remixed stereo samples frame_count = to_stereo samples frame_count

  unfoldable pub remix_channels :
      List (List F) → NativeAudioChannelLayout → Result (List (List F)) AudioError
  unfolding to_mono to_stereo
  remix_channels [] layout = fails (text "Audio input does not contain any channels.")
  remix_channels (first ∷ rest) layout =
      if not (all (λ channel. length channel == length first) (first ∷ rest))
      then fails (text "Audio channel buffers are misaligned.")
      else remixed layout (first ∷ rest) (length first)
