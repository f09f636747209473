-- ===== src/Vad/Simulation.antt =====
-- The two state machines of dart_edge_vad, of a whole input and of a stream, frame by frame.
use dart_edge.Base.{
  ℕ, ◌+◌, ◌-◌, ◌*◌, ◌%◌, ◌≤◌, ◌<◌, ◌≡◌, refl, sym, subst, ◌∙◌, ap, false, inl, inr, List, [], ◌∷◌,
  ◌++◌, Option, none, some, ltb, All, All-append, Bool-cases, arith, if◌then◌else◌,
}
use Prim.Native.Nat.{min}
use mathlib.Core.List.{append_assoc, append-nil}
use dart_edge.Base.Words.{word}
use dart_edge.Vad.Request.{
  Float, SileroDetectRequest, min_speech_samples, min_silence_samples, speech_pad_samples,
}
use dart_edge.Vad.Segment.{NativeVadSegment, segment, push_segment, append_segment}
use dart_edge.Vad.Batch.{Tracker, get_or_insert, add_segment, track_silence, track}
use dart_edge.Vad.Stream.{VadStream, consume_silence, consume_probability}

-- More than the padding before `n`.
abbrev pub IsApart : ℕ → ℕ → NativeVadSegment → Type 0
IsApart pad n g = g.end_sample + pad < n

pub All-IsApart :
    (pad n m : ℕ) (gs : List NativeVadSegment)
    → n ≤ m
    → All (IsApart pad n) gs
    → All (IsApart pad m) gs
All-IsApart pad n m [] h a = tt
All-IsApart pad n m (g ∷ gs) h a = (omega (arith, a.0), All-IsApart pad n m gs h a.1)

-- What starts behind all segments joins none.
push_segment-IsApart :
    (pad start end rate : ℕ) (gs : List NativeVadSegment)
    → All (IsApart pad start) gs
    → push_segment gs (start - pad) end rate ≡ gs ++ segment (start - pad) end rate ∷ []
unfolding push_segment
push_segment-IsApart pad start end rate [] a = refl
push_segment-IsApart pad start end rate (g ∷ []) a = ground (arith, a.0)
push_segment-IsApart pad start end rate (g ∷ h ∷ gs) a =
    ap (λ xs. g ∷ xs) (push_segment-IsApart pad start end rate (h ∷ gs) a.1)

module _ {F : Type 0} (float : Float F) (request : SileroDetectRequest F) where
  abbrev pad : ℕ
  pad = speech_pad_samples request

  abbrev pub rounds_off : ℕ → ℕ → ℕ → List NativeVadSegment
  rounds_off start end total =
      if ltb (end - start) (min_speech_samples request)
      then []
      else segment (start - pad) (min ((end + pad) % word) total) request.sample_rate_hz ∷ []

  pub add_segment-IsApart :
      (start end total : ℕ) (gs : List NativeVadSegment)
      → All (IsApart (speech_pad_samples request) start) gs
      → add_segment float request gs start end total ≡ gs ++ rounds_off start end total
  unfolding append_segment
  add_segment-IsApart start end total gs a =
      elim (Bool-cases (ltb (end - start) (min_speech_samples request))) [
        | inl e ↦ rw e (sym (append-nil gs))
        | inr e ↦ rw e (push_segment-IsApart pad start _ request.sample_rate_hz gs a)
      ]

  -- How the stream stands to the loop over a whole input: the same speech, and the segments of the
  -- calls before, then those of this call.
  abbrev pub tracker : List NativeVadSegment → List NativeVadSegment → Option ℕ → Option ℕ → Tracker
  tracker before segments active silence = record {
    active_start = active;
    silence_start = silence;
    segments = before ++ segments;
  }

  -- All segments end well before the speech, or before the frame if there is no speech.
  pub record IsSpread (before segments : List NativeVadSegment) (active : Option ℕ) (processed : ℕ)
      : Type 0 where
    pub earlier : All (IsApart (speech_pad_samples request) (get_or_insert active processed)) before
    pub here : All (IsApart (speech_pad_samples request) (get_or_insert active processed)) segments
    pub begun : get_or_insert active processed ≤ processed

  IsSpread-wait :
      (before segments : List NativeVadSegment) (active : Option ℕ) (from to : ℕ)
      → from ≤ to
      → IsSpread before segments active from
      → IsSpread before segments active to
  IsSpread-wait before segments none from to h a = record {
    earlier = All-IsApart pad from to before h a.earlier;
    here = All-IsApart pad from to segments h a.here;
    begun = omega arith;
  }
  IsSpread-wait before segments (some n) from to h a = record {
    earlier = a.earlier;
    here = a.here;
    begun = omega (arith, a.begun);
  }

  IsSpread-speak :
      (before segments : List NativeVadSegment) (active : Option ℕ) (from to : ℕ)
      → from ≤ to
      → IsSpread before segments active from
      → IsSpread before segments (some (get_or_insert active from)) to
  IsSpread-speak before segments none from to h a = record {
    earlier = a.earlier;
    here = a.here;
    begun = h;
  }
  IsSpread-speak before segments (some n) from to h a = record {
    earlier = a.earlier;
    here = a.here;
    begun = omega (arith, a.begun);
  }

  rounds_off-IsApart :
      (start silence total frame : ℕ)
      → silence + 2 * speech_pad_samples request < frame
      → All (IsApart (speech_pad_samples request) frame) (rounds_off start silence total)
  rounds_off-IsApart start silence total frame h = ground arith

  rounds_off_total :
      (start silence total other frame : ℕ)
      → silence + speech_pad_samples request ≤ frame
      → frame ≤ total
      → frame ≤ other
      → rounds_off start silence total ≡ rounds_off start silence other
  rounds_off_total start silence total other frame h k l = ground arith

  module _ (quiet : 2 * speech_pad_samples request < min_silence_samples request) (total frame : ℕ)
      (before segments : List NativeVadSegment) (s : VadStream F)
      (inside : frame + request.window_size_samples ≤ s.total_samples)
      (counted : s.total_samples ≤ total) where
    abbrev frame_end : ℕ
    frame_end = frame + request.window_size_samples

    abbrev Tracks : Tracker → VadStream F × List NativeVadSegment → Type 0
    Tracks t (u, more) =
        (t ≡ tracker before more u.active_start u.silence_start)
        × IsSpread before more u.active_start frame_end

    abbrev Far : ℕ → Type 0
    Far silence = silence + 2 * speech_pad_samples request < frame_end

    silence-Far :
        (silence : ℕ)
        → ltb (frame_end - silence) (min_silence_samples request) ≡ false
        → Far silence
    silence-Far silence long = ground (arith, quiet, long)

    -- A segment that ends is the same in both, and joins none.
    same_segment :
        (start silence : ℕ)
        → Far silence
        → IsSpread before segments (some start) frame
        → add_segment float request (before ++ segments) start silence total
          ≡ before ++ add_segment float request segments start silence s.total_samples
    same_segment start silence h a =
        add_segment-IsApart start silence total (before ++ segments)
          (All-append (IsApart pad start) before segments a.earlier a.here)
        ∙ append_assoc before segments (rounds_off start silence total)
        ∙ ap (λ gs. before ++ gs)
            (ap (λ gs. segments ++ gs)
                (rounds_off_total start silence total s.total_samples frame_end (omega (arith, h))
                  (omega (arith, inside, counted)) inside)
              ∙ sym (add_segment-IsApart start silence s.total_samples segments a.here))

    closed-IsSpread :
        (start silence : ℕ)
        → Far silence
        → IsSpread before segments (some start) frame
        → IsSpread before
            (add_segment float request segments start silence s.total_samples)
            none
            frame_end
    closed-IsSpread start silence h a = record {
      earlier = All-IsApart pad start frame_end before (omega (arith, a.begun)) a.earlier;
      here =
          subst (All (IsApart pad frame_end))
            (sym (add_segment-IsApart start silence s.total_samples segments a.here))
            (All-append (IsApart pad frame_end) segments (rounds_off start silence s.total_samples)
              (All-IsApart pad start frame_end segments (omega (arith, a.begun)) a.here)
              (rounds_off-IsApart start silence s.total_samples frame_end h));
      begun = omega arith;
    }

    silence-Tracks :
        (start : ℕ)
        → IsSpread before segments (some start) frame
        → s.active_start ≡ some start
        → Tracks
            (track_silence float request total
              (tracker before segments (some start) s.silence_start)
              start
              frame)
            (consume_silence float request start frame frame_end s segments)
    unfolding track_silence consume_silence
    silence-Tracks start a e =
        let silence = get_or_insert s.silence_start frame in
        elim (Bool-cases (ltb (frame_end - silence) (min_silence_samples request))) [
          | inl short ↦ rw short (
            rw e refl,
            rw e (IsSpread-wait before segments (some start) frame frame_end (omega arith) a),
          )
          | inr long ↦ rw long (
            ap (λ gs. tracker [] gs none none)
                (same_segment start silence (silence-Far silence long) a),
            closed-IsSpread start silence (silence-Far silence long) a,
          )
        ]

    low-Tracks :
        (probability : F) (active : Option ℕ)
        → IsSpread before segments active frame
        → s.active_start ≡ active
        → float.at_least probability request.threshold ≡ false
        → Tracks
            (track float request total
              (tracker before segments active s.silence_start)
              frame
              probability)
            (consume_probability float request probability frame frame_end s segments)
    unfolding track consume_probability
    low-Tracks probability none a e low =
        rw (low, e)
          (rw e refl, rw e (IsSpread-wait before segments none frame frame_end (omega arith) a))
    low-Tracks probability (some start) a e low =
        elim (Bool-cases (float.at_least probability request.neg_threshold)) [
          | inl middling ↦
              rw (low, e, middling)
                (
                  rw e refl,
                  rw e (IsSpread-wait before segments (some start) frame frame_end (omega arith) a),
                )
          | inr quiet_frame ↦ rw (low, e, quiet_frame) (silence-Tracks start a e)
        ]

    pub consume-Tracks :
        (probability : F)
        → IsSpread before segments s.active_start frame
        → Tracks
            (track float request total
              (tracker before segments s.active_start s.silence_start)
              frame
              probability)
            (consume_probability float request probability frame frame_end s segments)
    unfolding track consume_probability
    consume-Tracks probability a =
        elim (Bool-cases (float.at_least probability request.threshold)) [
          | inl loud ↦
              rw loud (
                refl,
                IsSpread-speak before segments s.active_start frame frame_end (omega arith) a,
              )
          | inr low ↦ low-Tracks probability s.active_start a refl low
        ]
