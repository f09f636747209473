-- ===== src/Vad/Segment.antt =====
-- dart_edge_vad/rust/src/lib.rs: the segments of speech (lines 50 to 57, 1173 to 1203).
use dart_edge.Base.{ℕ, ◌+◌, ◌-◌, ◌%◌, List, [], ◌∷◌, ltb, leb, if◌then◌else◌}
use Prim.Native.Nat.{min}
use dart_edge.Base.Words.{word}
use dart_edge.Vad.Request.{samples_to_millis}

pub record NativeVadSegment : Type 0 where
  pub start_sample : ℕ
  pub end_sample : ℕ
  pub start_ms : ℕ
  pub end_ms : ℕ

abbrev pub segment : ℕ → ℕ → ℕ → NativeVadSegment
segment start end sample_rate_hz = record {
  start_sample = start;
  end_sample = end;
  start_ms = samples_to_millis start sample_rate_hz;
  end_ms = samples_to_millis end sample_rate_hz;
}

-- A segment joins the one before it if it does not start behind its end.
unfoldable pub push_segment : List NativeVadSegment → ℕ → ℕ → ℕ → List NativeVadSegment
push_segment [] start end sample_rate_hz = segment start end sample_rate_hz ∷ []
push_segment (previous ∷ []) start end sample_rate_hz =
    if leb start previous.end_sample
    then record previous { end_sample = end; end_ms = samples_to_millis end sample_rate_hz } ∷ []
    else previous ∷ segment start end sample_rate_hz ∷ []
push_segment (first ∷ second ∷ rest) start end sample_rate_hz =
    first ∷ push_segment (second ∷ rest) start end sample_rate_hz

unfoldable pub append_segment :
    List NativeVadSegment → ℕ → ℕ → ℕ → ℕ → ℕ → ℕ → List NativeVadSegment
unfolding push_segment
append_segment segments start_sample end_sample total_samples sample_rate_hz min_speech_samples
      speech_pad_samples =
    if ltb (end_sample - start_sample) min_speech_samples
    then segments
    else push_segment segments (start_sample - speech_pad_samples)
        (min ((end_sample + speech_pad_samples) % word) total_samples) sample_rate_hz
