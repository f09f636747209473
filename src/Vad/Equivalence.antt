-- ===== src/Vad/Equivalence.antt =====
-- A stream of dart_edge_vad finds what the detection of the whole input finds.
use dart_edge.Base.{
  ◌*◌, ◌/◌, ◌%◌, ◌≤◌, ◌<◌, ◌≡◌, refl, sym, subst, ◌∙◌, ap, inl, inr, ◌⊎◌, List, [], ◌∷◌, All,
  length, length-append, arith,
}
use dart_edge.Base.Result.{Result, ok, err, ◌>>=◌, Result-cases}
use dart_edge.Text.Bytes.{Bytes, Str}
use dart_edge.Vad.Request.{
  Float, SileroDetectRequest, VadError, failed, validate_silero_request, pcm16le_to_f32,
  min_silence_samples, speech_pad_samples,
}
use dart_edge.Vad.Network.{Session, run_silero_probabilities, no_memory, with_silero_session}
use dart_edge.Vad.Windows.{runs}
use dart_edge.Vad.Batch.{speech_segments_from_probabilities, detect_silero}
use dart_edge.Vad.Stream.{Found, create_vad_stream}
use dart_edge.Vad.Ending.{length-pcm16le_to_f32}
use dart_edge.Vad.Calls.{stream_all}
use dart_edge.Vad.Answers.{Answers}
use dart_edge.Vad.Whole.{
  IsWhole, whole_input, pcm16le_to_f32-whole_input, stream_all-Answers, stream_all-err,
}

validated-512 :
    {F : Type 0} (request : SileroDetectRequest F)
    → validate_silero_request request ≡ ok tt
    → request.window_size_samples ≡ 512
unfolding validate_silero_request
validated-512 request v = ground arith

in_session-eq :
    {F A : Type 0} (session : Session F) (run : Result A VadError)
    → ((e : Str) × (session.loaded ≡ err e) × (with_silero_session session run ≡ err (failed e)))
      ⊎ ((session.loaded ≡ ok tt) × (with_silero_session session run ≡ run))
unfolding with_silero_session
in_session-eq session run = elim (Result-cases session.loaded) [
  | inl (tt, l) ↦ inr (l, rw (l, with_silero_session) refl)
  | inr (e, l) ↦ inl (e, l, rw (l, with_silero_session) refl)
]

module _ {F : Type 0} (float : Float F) (session : Session F) (request : SileroDetectRequest F)
    (inputs : List Bytes) (last : Bytes) (valid : validate_silero_request request ≡ ok tt)
    (all_whole : All IsWhole inputs) (last_whole : IsWhole last) where
  abbrev positive : 1 ≤ request.window_size_samples
  positive = rw (validated-512 request valid) (omega arith)

  abbrev streamed : Result (Found F) VadError
  streamed = stream_all float session request (create_vad_stream float) inputs last

  abbrev pcm : List F
  pcm = pcm16le_to_f32 float (whole_input inputs last)

  streamed-Answers :
      session.loaded ≡ ok tt
      → Answers float session request positive (create_vad_stream float) pcm streamed
  streamed-Answers l =
      subst (λ xs. Answers float session request positive (create_vad_stream float) xs streamed)
        (sym (pcm16le_to_f32-whole_input float inputs last all_whole))
        (stream_all-Answers float session request positive (create_vad_stream float) inputs last
          (unfold create_vad_stream in refl) all_whole last_whole l)

  -- The probabilities of a stream that is given its input in pieces of whole samples, the last one
  -- with a flush, are those of the whole input, window by window, however it is cut into pieces; and
  -- if there is an error, it is the same.
  pub stream_all-probabilities :
      (stream_all float session request (create_vad_stream float) inputs last >>= λ f.
      ok f.probabilities)
      ≡ run_silero_probabilities float session request
          (pcm16le_to_f32 float (whole_input inputs last))
  unfolding run_silero_probabilities create_vad_stream
  stream_all-probabilities =
      elim (in_session-eq session (runs float session request positive (no_memory float) pcm)) [
        | inl (e, l, failed_both) ↦
            rw
              (stream_all-err float session request positive (create_vad_stream float) inputs last e
                refl all_whole last_whole l)
              (sym failed_both)
        | inr (l, same) ↦ go streamed (streamed-Answers l) ∙ sym same
      ]
    where
      go :
          (r : Result (Found F) VadError)
          → Answers float session request positive (create_vad_stream float) pcm r
          → (r >>= λ f. ok f.probabilities)
            ≡ runs float session request positive (no_memory float) pcm
      go (ok g) a = sym a.probabilities
      go (err e) a = sym a

  whole_input-IsWhole : (xs : List Bytes) → All IsWhole xs → IsWhole (whole_input xs last)
  whole_input-IsWhole [] h = last_whole
  whole_input-IsWhole (x ∷ xs) (w, h) =
      ground (arith, w, whole_input-IsWhole xs h, length-append x (whole_input xs last))

  detect_silero-segments :
      (detect_silero float request session (whole_input inputs last) >>= λ r. ok r.segments) ≡ (
        run_silero_probabilities float session request pcm >>= λ ps.
        ok (speech_segments_from_probabilities float request ps (length pcm)))
  unfolding detect_silero
  detect_silero-segments =
      elim (Result-cases (run_silero_probabilities float session request pcm)) [
        | inl (ps, e) ↦ rw (valid, whole_input-IsWhole inputs all_whole, e, detect_silero) refl
        | inr (e, f) ↦ rw (valid, whole_input-IsWhole inputs all_whole, f, detect_silero) refl
      ]

  -- The segments of such a stream, over all its calls, are those of the detection on the whole input,
  -- however it is cut into pieces; and if there is an error, it is the same. This holds where the
  -- least silence is longer than twice the padding, and the input is a number of whole windows, of
  -- 1024 bytes each.
  pub stream_all-segments :
      2 * speech_pad_samples request < min_silence_samples request
      → length (whole_input inputs last) % 1024 ≡ 0
      → (stream_all float session request (create_vad_stream float) inputs last >>= λ f.
          ok f.segments)
        ≡ (detect_silero float request session (whole_input inputs last) >>= λ r. ok r.segments)
  unfolding run_silero_probabilities create_vad_stream speech_segments_from_probabilities
  stream_all-segments quiet windows =
      elim (in_session-eq session (runs float session request positive (no_memory float) pcm)) [
        | inl (e, l, failed_both) ↦
            ap (λ r. r >>= λ f. ok f.segments)
              (stream_all-err float session request positive (create_vad_stream float) inputs last e
                refl all_whole last_whole l)
            ∙ sym (
                detect_silero-segments
                ∙ ap
                    (λ r. r >>= λ ps.
                      ok (speech_segments_from_probabilities float request ps (length pcm)))
                    failed_both)
        | inr (l, same) ↦
            go streamed (streamed-Answers l)
            ∙ sym (
                detect_silero-segments
                ∙ ap
                    (λ r. r >>= λ ps.
                      ok (speech_segments_from_probabilities float request ps (length pcm)))
                    same)
      ]
    where
      go :
          (r : Result (Found F) VadError)
          → Answers float session request positive (create_vad_stream float) pcm r
          → (r >>= λ f. ok f.segments) ≡ (
              runs float session request positive (no_memory float) pcm >>= λ ps.
              ok (speech_segments_from_probabilities float request ps (length pcm)))
      go (ok g) a = rw a.probabilities (
          ap ok (
            sym (
              a.segments quiet (length pcm) 0 (length (whole_input inputs last) / 1024) []
                (omega arith)
                (rw (validated-512 request valid)
                  (omega (arith, windows, length-pcm16le_to_f32 float (whole_input inputs last))))
                refl (omega arith) (record { earlier = tt; here = tt; begun = omega arith }))))
      go (err e) a = rw a refl
