-- ===== src/Audio/Sample.antt =====
-- packages/dart_edge_audio/rust/src/lib.rs: the sample values, an `f32` as a parameter with the
-- operations that the code uses, and an `i8` or `i16` as its bit pattern.
use dart_edge.Base.{ℕ, ◌+◌, ◌*◌, ◌%◌, List, [], ◌∷◌, ltb, if◌then◌else◌}
use dart_edge.Base.Result.{Result, err}
use dart_edge.Text.Bytes.{Str}

-- `of_nat` is a literal or an `as f32`, `of_i16` the value of a bit pattern of 16 bits, `round_i8` is
-- `round() as i8`, and `sum_start` is where `Iterator::sum` starts.
pub record Sample (F : Type 0) : Type 0 where
  pub zero : F
  pub sum_start : F
  pub add : F → F → F
  pub mul : F → F → F
  pub div : F → F → F
  pub neg : F → F
  pub clamp : F → F → F → F
  pub of_nat : ℕ → F
  pub of_i16 : ℕ → F
  pub round_i8 : F → ℕ

-- What a call gives in place of a result: an error's text, or the panic of an index or a division.
pub data AudioError : Type 0 where
  failed : Str → AudioError
  panics : AudioError

abbrev pub fails {ℓ} : {A : Type ℓ} → Str → Result A AudioError
fails message = err (failed message)

-- The place of an `i8` in the order of the signed numbers, from 0.
abbrev pub rank : ℕ → ℕ
rank b = (b + 128) % 256

-- `i8::min` and `i8::max`.
unfoldable pub min_i8 : ℕ → ℕ → ℕ
min_i8 a b = if ltb (rank b) (rank a) then b else a

unfoldable pub max_i8 : ℕ → ℕ → ℕ
max_i8 a b = if ltb (rank a) (rank b) then b else a

module _ {F : Type 0} (float : Sample F) where
  unfoldable pub float_to_waveform_i8 : F → ℕ
  float_to_waveform_i8 sample = float.round_i8 (
      float.mul (float.clamp sample (float.neg (float.of_nat 1)) (float.of_nat 1))
        (float.of_nat 127))

  -- A sample of two bytes, least significant byte first, divided by 32768.
  abbrev pub sample_of : ℕ → ℕ → F
  sample_of low high = float.div (float.of_i16 (low + 256 * high)) (float.of_nat 32768)

  -- `chunks_exact(2)` of a frame, as samples.
  unfoldable pub samples_of : List ℕ → List F
  samples_of (low ∷ high ∷ rest) = sample_of low high ∷ samples_of rest
  samples_of _ = []

  -- `Iterator::sum` and the loop with `+=`, which start at different zeros.
  unfoldable pub sum_from : F → List F → F
  sum_from total [] = total
  sum_from total (s ∷ rest) = sum_from (float.add total s) rest
