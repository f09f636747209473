-- ===== src/Audio/Frames.antt =====
-- The decoding of PCM16 bytes into channels: which frame stands where.
use dart_edge.Base.{
  ℕ, zero, suc, ◌+◌, ◌*◌, ◌/◌, ◌%◌, ◌≤◌, ◌<◌, ◌≡◌, refl, sym, ap, ◌∙◌, subst, List, [], ◌∷◌, some,
  length, take, drop, replicate, All, All-replicate, length-drop, length-replicate, arith,
}
use native.Mathlib.Nat.{add-mod}
use dart_edge.Base.Result.{Result, ok}
use dart_edge.Base.Words.{word}
use dart_edge.Text.Bytes.{Bytes, Str, text}
use dart_edge.Audio.Sample.{Sample, AudioError, samples_of}
use dart_edge.Audio.Pcm16.{
  DecodedAudio, frame_size, whole_frames, parts, chunks_exact, empty_channels, decode_pcm16_le,
  bit_rate_of,
}
use dart_edge.Audio.Pushing.{AreAligned, Shows, push_frames-Decoded}

pub length-take_within : {A : Type 0} (n : ℕ) (xs : List A) → n ≤ length xs → length (take n xs) ≡ n
length-take_within zero xs h = refl
length-take_within (suc n) [] h = absurd (omega (arith, h))
length-take_within (suc n) (x ∷ xs) h = ap suc (length-take_within n xs (omega (arith, h)))

pub parts-length :
    (size count : ℕ) (bytes : Bytes)
    → count * size ≤ length bytes
    → All (λ part. length part ≡ size) (parts size count bytes)
unfolding parts
parts-length size zero bytes h = tt
parts-length size (suc count) bytes h = (
  length-take_within size bytes (grind (arith, h)),
  parts-length size count (drop size bytes) (grind (arith, h, length-drop size bytes)),
)

pub length-parts : (size count : ℕ) (bytes : Bytes) → length (parts size count bytes) ≡ count
unfolding parts
length-parts size zero bytes = refl
length-parts size (suc count) bytes = ap suc (length-parts size count (drop size bytes))

length-samples_of :
    {F : Type 0} (float : Sample F) (c : ℕ) (frame : Bytes)
    → length frame ≡ c * 2
    → length (samples_of float frame) ≡ c
unfolding samples_of
length-samples_of float zero [] h = refl
length-samples_of float (suc c) [] h = absurd (omega (arith, h))
length-samples_of float zero (b ∷ frame) h = absurd (omega (arith, h))
length-samples_of float (suc c) (low ∷ []) h = absurd (omega (arith, h))
length-samples_of float (suc c) (low ∷ high ∷ frame) h =
    ap suc (length-samples_of float c frame (omega (arith, h)))

frames-length :
    {F : Type 0} (float : Sample F) (c : ℕ) (frames : List Bytes)
    → All (λ frame. length frame ≡ c * 2) frames
    → All (λ frame. length (samples_of float frame) ≡ c) frames
frames-length float c [] h = tt
frames-length float c (frame ∷ frames) h =
    (length-samples_of float c frame h.0, frames-length float c frames h.1)

-- Memory can be had.
abbrev pub Grants : (ℕ → Result (Unit {0}) AudioError) → Type 0
Grants try_reserve = (n : ℕ) → try_reserve n ≡ ok tt

empty_channels-replicate :
    {F : Type 0} (try_reserve : ℕ → Result (Unit {0}) AudioError) (frames n : ℕ)
    → Grants try_reserve
    → empty_channels {F = F} try_reserve frames n ≡ ok (replicate n [])
unfolding empty_channels
empty_channels-replicate try_reserve frames zero g = refl
empty_channels-replicate {F} try_reserve frames (suc n) g =
    rw (g frames, empty_channels-replicate {F = F} try_reserve frames n g) refl

-- Whole frames of so many channels.
pub record AreWhole (channel_count : ℕ) (input : Bytes) : Type 0 where
  pub some_channel : 0 < channel_count
  pub is_word : channel_count * 2 < word
  pub whole : length input % (channel_count * 2) ≡ 0

pub frame_size-ok : (c : ℕ) (message : Str) → c * 2 < word → frame_size c message ≡ ok (c * 2)
unfolding frame_size
frame_size-ok c message h = ground (arith, h)

pub whole_frames-ok :
    (c : ℕ) (input : Bytes) (message : Str)
    → AreWhole c input
    → whole_frames input (c * 2) message ≡ ok tt
unfolding whole_frames
whole_frames-ok c input message w = ground (arith, w.some_channel, w.whole)

pub record AreDecoded {F : Type 0} (float : Sample F) (input : Bytes) (rate c : ℕ)
    (r : Result (DecodedAudio F) AudioError) : Type 0 where
  pub audio : DecodedAudio F
  pub succeeds : r ≡ ok audio
  pub same_rate : audio.sample_rate ≡ rate
  pub aligned : AreAligned (length input / (c * 2)) audio.samples
  pub channels : length audio.samples ≡ c
  pub shows : Shows float audio.samples 0 (chunks_exact (c * 2) input)

pub decode_pcm16_le-AreDecoded :
    {F : Type 0} (float : Sample F) (try_reserve : ℕ → Result (Unit {0}) AudioError) (input : Bytes)
    (rate c : ℕ)
    → Grants try_reserve
    → AreWhole c input
    → AreDecoded float input rate c (decode_pcm16_le float try_reserve input rate c)
unfolding decode_pcm16_le chunks_exact
decode_pcm16_le-AreDecoded {F} float try_reserve input rate c g w =
    let size = c * 2 in
    let count = length input / size in
    let chunks = parts size count input in
    let d =
      push_frames-Decoded float 0 (replicate c []) chunks
        (All-replicate (λ channel. length channel ≡ 0) c [] refl)
        (subst (λ n. All (λ f. length (samples_of float f) ≡ n) chunks)
          (sym (length-replicate c []))
          (frames-length float c chunks (parts-length size count input (grind arith)))) in
    let counted : 0 + length chunks ≡ count = omega (arith, length-parts size count input) in
    record {
      audio = record {
        samples = d.samples;
        sample_rate = rate;
        codec = some (text "pcm_s16le");
        bit_rate = bit_rate_of rate c;
        bit_depth = some 16;
      };
      succeeds =
          rw
            (
              frame_size-ok c (text "PCM16 stream frame size is too large.") w.is_word,
              whole_frames-ok c input (text "PCM16 stream ended with an incomplete frame.") w,
              g c,
              empty_channels-replicate {F = F} try_reserve count c g,
              d.decoded,
            )
            refl;
      same_rate = refl;
      aligned = subst (λ n. AreAligned n d.samples) counted d.aligned;
      channels = d.same_count ∙ length-replicate c [];
      shows = d.shows;
    }

pub mod_add : (a b n : ℕ) → 0 < n → a % n ≡ 0 → b % n ≡ 0 → (a + b) % n ≡ 0
mod_add a b n h p q = add-mod a b n ∙ rw (p, q) (omega (arith, h))
