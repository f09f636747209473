-- ===== src/Audio/Held.antt =====
-- The PCM16 session over its calls: which input it holds.
use dart_edge.Base.{
  ℕ, ◌+◌, ◌*◌, ◌%◌, ◌≤◌, ◌<◌, ◌≡◌, refl, sym, ap, ◌∙◌, subst, inl, inr, Bool, ◌&&◌, List, [], ◌∷◌,
  ◌++◌, length, length-append, leb, ◌==◌, Bool-cases, arith, if◌then◌else◌,
}
use dart_edge.Base.Result.{Result, ok}
use dart_edge.Base.Words.{word}
use dart_edge.Text.Bytes.{Bytes}
use dart_edge.Audio.Sample.{AudioError}
use dart_edge.Audio.Pcm16.{
  NativePcm16StreamRequest, Pcm16StreamSession, validate_pcm16_stream_request, pcm16_stream_create,
  add_pcm16, pcm16_stream_add, frame_size, whole_frames,
}
use dart_edge.Audio.Frames.{Grants, mod_add}

-- What the checks of a request leave of its numbers.
pub record IsChecked (request : NativePcm16StreamRequest) : Type 0 where
  pub some_channel : 0 < request.input_channel_count
  pub few_channels : request.input_channel_count ≤ 32

pub pcm16_stream_create-IsChecked :
    (request : NativePcm16StreamRequest) (s : Pcm16StreamSession)
    → pcm16_stream_create request ≡ ok s
    → IsChecked request × (s ≡ record { input = []; request = request })
unfolding pcm16_stream_create validate_pcm16_stream_request
pcm16_stream_create-IsChecked request s h = ground (arith, h)

-- What the session is to hold after one more input: whole frames that keep to the limit.
abbrev pub is_taken : NativePcm16StreamRequest → Bytes → Bytes → Bool
is_taken request held input =
    length input % (request.input_channel_count * 2) == 0
    && leb (length held + length input) request.max_buffered_bytes

abbrev pub gathered : NativePcm16StreamRequest → Bytes → List Bytes → Bytes
gathered request held [] = held
gathered request held (input ∷ inputs) =
    gathered request (if is_taken request held input then held ++ input else held) inputs

abbrev pub add_all :
    (ℕ → Result (Unit {0}) AudioError) → Pcm16StreamSession → List Bytes → Pcm16StreamSession
add_all try_reserve s [] = s
add_all try_reserve s (input ∷ inputs) =
    add_all try_reserve (pcm16_stream_add try_reserve s input).0 inputs

pcm16_stream_add-gathered :
    (try_reserve : ℕ → Result (Unit {0}) AudioError) (request : NativePcm16StreamRequest)
    (held input : Bytes)
    → Grants try_reserve
    → IsChecked request
    → request.max_buffered_bytes < word
    → (pcm16_stream_add try_reserve (record { input = held; request = request }) input).0 ≡ record {
      input = if is_taken request held input then held ++ input else held;
      request = request;
    }
unfolding pcm16_stream_add add_pcm16 frame_size whole_frames
pcm16_stream_add-gathered try_reserve request held input g c m =
    ground (arith, g (length input), c.some_channel, c.few_channels, m)

-- Whole frames within the limit.
pub record IsBounded (request : NativePcm16StreamRequest) (held : Bytes) : Type 0 where
  pub whole : length held % (request.input_channel_count * 2) ≡ 0
  pub within : length held ≤ request.max_buffered_bytes

taken-IsBounded :
    (request : NativePcm16StreamRequest) (held input : Bytes)
    → IsChecked request
    → IsBounded request held
    → IsBounded request (if is_taken request held input then held ++ input else held)
taken-IsBounded request held input c b = elim (Bool-cases (is_taken request held input)) [
  | inl e ↦
      subst (λ t. IsBounded request (if t then held ++ input else held)) (sym e)
        (record {
          whole =
              subst (λ n. n % size ≡ 0) (sym (length-append held input))
                (mod_add (length held) (length input) size (omega (arith, c.some_channel)) b.whole
                  (ground (arith, e)));
          within = ground (arith, e, length-append held input);
        })
  | inr e ↦ subst (λ t. IsBounded request (if t then held ++ input else held)) (sym e) b
]
  where
    size : ℕ
    size = request.input_channel_count * 2

pub gathered-IsBounded :
    (request : NativePcm16StreamRequest) (held : Bytes) (inputs : List Bytes)
    → IsChecked request
    → IsBounded request held
    → IsBounded request (gathered request held inputs)
gathered-IsBounded request held [] c b = b
gathered-IsBounded request held (input ∷ inputs) c b =
    gathered-IsBounded request (if is_taken request held input then held ++ input else held) inputs
      c (taken-IsBounded request held input c b)

pub add_all-gathered :
    (try_reserve : ℕ → Result (Unit {0}) AudioError) (request : NativePcm16StreamRequest)
    (held : Bytes) (inputs : List Bytes)
    → Grants try_reserve
    → IsChecked request
    → request.max_buffered_bytes < word
    → add_all try_reserve (record { input = held; request = request }) inputs
      ≡ record { input = gathered request held inputs; request = request }
add_all-gathered try_reserve request held [] g c m = refl
add_all-gathered try_reserve request held (input ∷ inputs) g c m =
    ap (λ s. add_all try_reserve s inputs)
      (pcm16_stream_add-gathered try_reserve request held input g c m)
    ∙ add_all-gathered try_reserve request
        (if is_taken request held input then held ++ input else held) inputs g c m

-- Where memory can be had, a session that a request has created holds, after any calls, the inputs of
-- whole frames that kept to the limit of its buffer, one after the other, and nothing of the others;
-- so it holds whole frames, and no more bytes than the limit.
pub add_all-IsBounded :
    (try_reserve : ℕ → Result (Unit {0}) AudioError) (request : NativePcm16StreamRequest)
    (s : Pcm16StreamSession) (inputs : List Bytes)
    → pcm16_stream_create request ≡ ok s
    → Grants try_reserve
    → request.max_buffered_bytes < word
    → ((add_all try_reserve s inputs).input ≡ gathered request [] inputs)
      × IsBounded request (add_all try_reserve s inputs).input
add_all-IsBounded try_reserve request s inputs h g m =
    let (c, made) = pcm16_stream_create-IsChecked request s h in
    let held : (add_all try_reserve s inputs).input ≡ gathered request [] inputs =
      ap (λ t. (add_all try_reserve t inputs).input) made
      ∙ ap (λ t. t.input) (add_all-gathered try_reserve request [] inputs g c m) in
    (
      held,
      subst (IsBounded request) (sym held) (
          gathered-IsBounded request [] inputs c
            (record { whole = ground (arith, c.some_channel); within = omega arith })),
    )
