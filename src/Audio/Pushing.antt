-- ===== src/Audio/Pushing.antt =====
-- Frames of samples pushed on channels.
use dart_edge.Base.{
  ℕ, zero, suc, ◌+◌, ◌<◌, ◌≡◌, refl, sym, ◌∙◌, subst, List, [], ◌∷◌, ◌++◌, some, length, get_elem?,
  All, length-append, arith,
}
use dart_edge.Base.Result.{ok}
use dart_edge.Text.Bytes.{Bytes}
use dart_edge.Audio.Sample.{Sample, samples_of}
use dart_edge.Audio.Remix.{frame_at}
use dart_edge.Audio.Pcm16.{push_frame, push_frames}

-- Channels of one length.
abbrev pub AreAligned {ℓ} : {A : Type ℓ} → ℕ → List (List A) → Type 0
AreAligned n channels = All (λ channel. length channel ≡ n) channels

get_elem?-append :
    {A : Type 0} (xs ys : List A) (i : ℕ) → i < length xs → get_elem? (xs ++ ys) i ≡ get_elem? xs i
get_elem?-append [] ys i h = absurd (omega (arith, h))
get_elem?-append (x ∷ xs) ys zero h = refl
get_elem?-append (x ∷ xs) ys (suc i) h = get_elem?-append xs ys i (omega (arith, h))

get_elem?-length :
    {A : Type 0} (xs : List A) (x : A) → get_elem? (xs ++ x ∷ []) (length xs) ≡ some x
get_elem?-length [] x = refl
get_elem?-length (y ∷ xs) x = get_elem?-length xs x

-- What a frame pushed on channels of length `k` makes of them.
record Pushed {F : Type 0} (k : ℕ) (channels : List (List F)) (frame : List F) : Type 0 where
  pub next : List (List F)
  pub pushed : push_frame channels frame ≡ ok next
  pub aligned : AreAligned (suc k) next
  pub same_count : length next ≡ length channels
  pub old_frames : (i : ℕ) → i < k → frame_at next i ≡ frame_at channels i
  pub new_frame : frame_at next k ≡ ok frame

push_frame-Pushed :
    {F : Type 0} (k : ℕ) (channels : List (List F)) (frame : List F)
    → AreAligned k channels
    → length frame ≡ length channels
    → Pushed k channels frame
unfolding push_frame frame_at
push_frame-Pushed k [] [] a e = record {
  next = [];
  pushed = refl;
  aligned = tt;
  same_count = refl;
  old_frames = λ i h. refl;
  new_frame = refl;
}
push_frame-Pushed k [] (s ∷ frame) a e = absurd (omega (arith, e))
push_frame-Pushed k (c ∷ channels) [] a e = absurd (omega (arith, e))
push_frame-Pushed k (c ∷ channels) (s ∷ frame) a e =
    let p = push_frame-Pushed k channels frame a.1 (omega (arith, e)) in
    record {
      next = (c ++ s ∷ []) ∷ p.next;
      pushed = rw (p.pushed) refl;
      aligned = (omega (arith, length-append c (s ∷ []), a.0), p.aligned);
      same_count = omega (arith, p.same_count);
      old_frames =
          λ i h. rw (get_elem?-append c (s ∷ []) i (omega (arith, h, a.0)), p.old_frames i h) refl;
      new_frame =
          subst (λ n. frame_at ((c ++ s ∷ []) ∷ p.next) n ≡ ok (s ∷ frame)) a.0
            (rw (get_elem?-length c s, a.0, p.new_frame) refl);
    }

-- The samples of the frames of bytes stand in the channels, from frame `k` on.
abbrev pub Shows : {F : Type 0} → Sample F → List (List F) → ℕ → List Bytes → Type 0
Shows float channels k [] = Unit
Shows float channels k (frame ∷ frames) =
    (frame_at channels k ≡ ok (samples_of float frame)) × Shows float channels (suc k) frames

pub record Decoded {F : Type 0} (float : Sample F) (k : ℕ) (channels : List (List F))
    (frames : List Bytes) : Type 0 where
  pub samples : List (List F)
  pub decoded : push_frames float channels frames ≡ ok samples
  pub aligned : AreAligned (k + length frames) samples
  pub same_count : length samples ≡ length channels
  pub old_frames : (i : ℕ) → i < k → frame_at samples i ≡ frame_at channels i
  pub shows : Shows float samples k frames

pub push_frames-Decoded :
    {F : Type 0} (float : Sample F) (k : ℕ) (channels : List (List F)) (frames : List Bytes)
    → AreAligned k channels
    → All (λ frame. length (samples_of float frame) ≡ length channels) frames
    → Decoded float k channels frames
unfolding push_frames
push_frames-Decoded float k channels [] a h = record {
  samples = channels;
  decoded = refl;
  aligned = subst (λ n. AreAligned n channels) (omega arith) a;
  same_count = refl;
  old_frames = λ i h. refl;
  shows = tt;
}
push_frames-Decoded float k channels (frame ∷ frames) a h =
    let p = push_frame-Pushed k channels (samples_of float frame) a h.0 in
    let d =
      push_frames-Decoded float (suc k) p.next frames p.aligned
        (subst (λ n. All (λ f. length (samples_of float f) ≡ n) frames) (sym p.same_count) h.1) in
    record {
      samples = d.samples;
      decoded = rw (p.pushed) d.decoded;
      aligned = subst (λ n. AreAligned n d.samples) (omega arith) d.aligned;
      same_count = d.same_count ∙ p.same_count;
      old_frames = λ i l. d.old_frames i (omega (arith, l)) ∙ p.old_frames i l;
      shows = (d.old_frames k (omega arith) ∙ p.new_frame, d.shows);
    }
