-- ===== src/Vad/Trim.antt =====
-- dart_edge_vad/rust/src/lib.rs: the stream that leaves out what is not speech (lines 71 to 101, 139 to
-- 148, 300 to 309, 782 to 953). `reserves` says whether memory for so many bytes can be had.
use dart_edge.Base.{
  ℕ, ◌+◌, ◌-◌, ◌*◌, ◌/◌, ◌%◌, Bool, true, false, not, ◌&&◌, ◌||◌, List, [], ◌∷◌, ◌++◌, map, Option,
  none, some, is_some, is_empty, length, take, drop, ltb, leb, ◌==◌, if◌then◌else◌,
}
use Prim.Native.Nat.{min, max}
use dart_edge.Base.Words.{word, saturating_add}
use dart_edge.Base.Result.{Result, ok, err, ok_or, ◌>>=◌, ◌>>◌}
use dart_edge.Text.Bytes.{Bytes}
use dart_edge.Vad.Request.{
  Float, SileroDetectRequest, VadError, min_speech_samples, speech_pad_samples,
}
use dart_edge.Vad.Segment.{NativeVadSegment}
use dart_edge.Vad.Network.{Session}
use dart_edge.Vad.Stream.{VadStream, VadStreamResult, create_vad_stream, process}

pub record TrimRange : Type 0 where
  pub source_start_sample : ℕ
  pub source_end_sample : ℕ
  pub output_start_sample : ℕ
  pub output_end_sample : ℕ

pub record TrimStream (F : Type 0) : Type 0 where
  pub vad : VadStream F
  pub pending_pcm : Bytes
  pub pending_start_sample : ℕ
  pub last_emitted_source_end : ℕ
  pub output_samples : ℕ
  pub max_pending_bytes : ℕ
  pub has_speech : Bool
  pub finished : Bool

-- The output of a call so far, with its ranges.
pub record Emitted : Type 0 where
  pub bytes : Bytes
  pub ranges : List TrimRange

pub record TrimResult : Type 0 where
  pub emitted : Emitted
  pub segments : List NativeVadSegment
  pub output_samples : ℕ
  pub buffered_bytes : ℕ
  pub has_speech : Bool
  pub speech_active : Bool
  pub finished : Bool

pub data TrimError : Type 0 where
  vad_failed : VadError → TrimError
  stream_finished odd_input length_overflow over_limit no_memory : TrimError
  start_overflow end_overflow outside working_overflow over_working_limit output_overflow :
      TrimError

unfoldable pub checked_add : ℕ → ℕ → Option ℕ
checked_add a b = if ltb (a + b) word then some (a + b) else none

-- `checked_sub` and then `checked_mul(2)`.
unfoldable pub bytes_between : ℕ → ℕ → Option ℕ
bytes_between from to =
    if leb from to && ltb (2 * (to - from)) word then some (2 * (to - from)) else none

abbrev pub or_else_err : Bool → TrimError → Result (Unit {0}) TrimError
or_else_err true e = ok tt
or_else_err false e = err e

module _ {F : Type 0} (reserves : ℕ → Bool) where
  -- The range from `start` to `end`, which is not empty.
  unfoldable pub emit_samples :
      TrimStream F → ℕ → ℕ → Emitted → Result (TrimStream F × Emitted) TrimError
  unfolding bytes_between checked_add
  emit_samples s start end out = do
    relative_start ← ok_or (bytes_between s.pending_start_sample start) start_overflow
    relative_end ← ok_or (bytes_between s.pending_start_sample end) end_overflow
    or_else_err (not (ltb (length s.pending_pcm) relative_end || ltb relative_end relative_start))
        outside
    let byte_length = relative_end - relative_start
    working ← ok_or (checked_add (length s.pending_pcm) (length out.bytes)) working_overflow
    peak_bytes ← ok_or (checked_add working byte_length) working_overflow
    or_else_err (leb peak_bytes s.max_pending_bytes) over_working_limit
    or_else_err (reserves byte_length) no_memory
    output_samples ← ok_or (checked_add s.output_samples (end - start)) output_overflow
    ok (
      record s { output_samples = output_samples; last_emitted_source_end = end },
      record {
        bytes = out.bytes ++ take byte_length (drop relative_start s.pending_pcm);
        ranges =
            out.ranges
            ++ record {
              source_start_sample = start;
              source_end_sample = end;
              output_start_sample = s.output_samples;
              output_end_sample = output_samples;
            }
              ∷ [];
      },
    )

  unfoldable pub emit_range :
      TrimStream F → ℕ × ℕ → Emitted → Result (TrimStream F × Emitted) TrimError
  unfolding emit_samples
  emit_range s (requested_start, requested_end) out =
      let start = max (max requested_start s.pending_start_sample) s.last_emitted_source_end in
      let end = min requested_end s.vad.total_samples in
      if leb end start then ok (s, out) else emit_samples s start end out

  -- Several ranges; an error leaves what the ranges before it have changed.
  unfoldable pub emit_ranges :
      TrimStream F → List (ℕ × ℕ) → Emitted → TrimStream F × Result Emitted TrimError
  unfolding emit_range
  emit_ranges s [] out = (s, ok out)
  emit_ranges s (range ∷ ranges) out = elim (emit_range s range out) [
    | err e ↦ (s, err e)
    | ok (t, more) ↦ emit_ranges t ranges more
  ]

unfoldable pub discard_before : {F : Type 0} → TrimStream F → ℕ → TrimStream F
discard_before s requested_sample =
    let end_sample = s.pending_start_sample + length s.pending_pcm / 2 in
    let discard_sample = min (max requested_sample s.pending_start_sample) end_sample in
    let discard_bytes = 2 * (discard_sample - s.pending_start_sample) in
    if ltb 0 discard_bytes
    then record s {
      pending_pcm = drop discard_bytes s.pending_pcm;
      pending_start_sample = discard_sample;
    }
    else s

abbrev pub range_of : NativeVadSegment → ℕ × ℕ
range_of segment = (segment.start_sample, segment.end_sample)

module _ {F : Type 0} (float : Float F) (session : Session F) (request : SileroDetectRequest F)
    (reserves : ℕ → Bool) where
  unfoldable pub create_trim_stream : ℕ → TrimStream F
  create_trim_stream max_pending_bytes = record {
    vad = create_vad_stream float;
    pending_pcm = [];
    pending_start_sample = 0;
    last_emitted_source_end = 0;
    output_samples = 0;
    max_pending_bytes = max_pending_bytes;
    has_speech = false;
    finished = false;
  }

  -- The start of the speech that is on, if it is long enough.
  unfoldable pub confirmed_active_start : VadStream F → Option ℕ
  confirmed_active_start vad = elim vad.active_start [
    | none ↦ none
    | some start ↦
        if leb (min_speech_samples request) (vad.processed_samples - start)
        then some start
        else none
  ]

  -- The range of the speech that is on: up to the samples so far, or to the padding of a silence.
  abbrev pub active_end : VadStream F → ℕ
  active_end vad = elim vad.silence_start [
    | none ↦ vad.total_samples
    | some silence ↦ min (saturating_add silence (speech_pad_samples request)) vad.total_samples
  ]

  unfoldable pub active_ranges : VadStream F → List (ℕ × ℕ)
  unfolding confirmed_active_start
  active_ranges vad = elim (confirmed_active_start vad) [
    | none ↦ []
    | some start ↦ (start - speech_pad_samples request, active_end vad) ∷ []
  ]

  -- Audio before this sample is needed no more.
  unfoldable pub needed_from : Bool → TrimStream F → ℕ
  unfolding confirmed_active_start
  needed_from flush s = if flush then s.vad.total_samples else elim s.vad.active_start [
    | none ↦ s.vad.processed_samples - speech_pad_samples request
    | some start ↦
        if is_some (confirmed_active_start s.vad)
        then s.last_emitted_source_end
        else start - speech_pad_samples request
  ]

  -- What is left of a call after its ranges.
  unfoldable pub settle_trim :
      Bool → VadStreamResult F → TrimStream F → Emitted → TrimStream F × Result TrimResult TrimError
  unfolding needed_from discard_before confirmed_active_start
  settle_trim flush found s emitted =
      let active = is_some (confirmed_active_start s.vad) in
      let heard = s.has_speech || active || not (is_empty found.segments) in
      let t : TrimStream F = record (discard_before s (needed_from flush s)) {
        has_speech = heard;
        finished = flush;
      } in
      (
        t,
        ok (record {
          emitted = emitted;
          segments = found.segments;
          output_samples = t.output_samples;
          buffered_bytes = length t.pending_pcm;
          has_speech = heard;
          speech_active = active;
          finished = found.finished;
        }),
      )

  unfoldable pub emit_found :
      Bool → VadStreamResult F → TrimStream F → TrimStream F × Result TrimResult TrimError
  unfolding emit_ranges active_ranges settle_trim
  emit_found flush found s =
      let (t, r) =
        emit_ranges reserves s (map range_of found.segments ++ active_ranges s.vad)
          (record { bytes = []; ranges = [] }) in
      elim r [ err e ↦ (t, err e) | ok emitted ↦ settle_trim flush found t emitted ]

  -- The guards of a call, in their order.
  unfoldable pub admit : TrimStream F → Bytes → Result (Unit {0}) TrimError
  unfolding checked_add
  admit s input = do
    or_else_err (not s.finished) stream_finished
    or_else_err (length input % 2 == 0) odd_input
    next_pending_bytes ← ok_or (checked_add (length s.pending_pcm) (length input)) length_overflow
    or_else_err (leb next_pending_bytes s.max_pending_bytes) over_limit
    or_else_err (reserves (length input)) no_memory

  unfoldable pub process_trim :
      TrimStream F → Bytes → Bool → TrimStream F × Result TrimResult TrimError
  unfolding emit_found admit
  process_trim s input flush = elim (admit s input) [
    | err e ↦ (s, err e)
    | ok _ ↦
        let (vad, found) = process float session request s.vad input flush in
        let t : TrimStream F = record s { pending_pcm = s.pending_pcm ++ input; vad = vad } in
        elim found [ err e ↦ (t, err (vad_failed e)) | ok r ↦ emit_found flush r t ]
  ]
