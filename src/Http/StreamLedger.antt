-- ===== src/Http/StreamLedger.antt =====
-- The accounts of a native byte stream that lib.rs sends as a body.
use dart_edge.Base.{
  ℕ, ◌+◌, ◌≡◌, refl, sym, subst, Bool, true, false, not, ◌&&◌, ◌||◌, inl, inr, List, [], ◌∷◌,
  Option, none, some, arith, length, length-append, total, total-append, leb, ◌==◌, if◌then◌else◌,
  Bool-cases,
}
use dart_edge.Base.Words.{word_max}
use dart_edge.Text.Bytes.{Bytes}
use dart_edge.Http.ByteStream.{
  NativeByteStream, is_valid, ReadError, null_read, Consumed, not_started, count, reached,
  read_chunk, read_result, read_native_byte_stream, settle, Delivery, joined, lost, consume_read,
  consume, leave_read, consume_and_leave,
}

abbrev pub is_null_read : Option ReadError → Bool
is_null_read (some null_read) = true
is_null_read _ = false

abbrev pub has_error : Option ReadError → Bool
has_error none = false
has_error (some e) = true

-- Each result that `next` has returned is freed at once or owned by one chunk that has been yielded;
-- the count of bytes is theirs; the body ends by an error, or as completed, and not before it has
-- all that was promised.
pub record IsAccounted (content_length : Option ℕ) (c : Consumed) : Type 0 where
  pub results : c.calls ≡ c.freed + c.owned + count (is_null_read c.error)
  pub owners : c.owned ≡ length c.yielded
  pub bytes : (c.emitted_bytes == total length c.yielded || leb word_max c.emitted_bytes) ≡ true
  pub how_ended : c.ended ≡ c.completed || has_error c.error
  pub one_end : c.completed && has_error c.error ≡ false
  pub in_need :
      (c.ended || c.emitted_bytes == 0 || not (reached content_length c.emitted_bytes)) ≡ true

consume_read-IsAccounted :
    (s : NativeByteStream) (n : Option ℕ) (c : Consumed) (d : Delivery)
    → is_valid s ≡ true
    → c.ended ≡ false
    → IsAccounted n c
    → IsAccounted n (consume_read s n c d)
unfolding consume_read settle read_native_byte_stream read_result read_chunk is_valid
consume_read-IsAccounted s n c lost v e h = ground arith
consume_read-IsAccounted s n c (joined none) v e h = ground arith
consume_read-IsAccounted s n c (joined (some read)) v e h = go read.bytes refl
  where
    go :
        (bytes : Option Bytes)
        → read.bytes ≡ bytes
        → IsAccounted n (consume_read s n c (joined (some read)))
    go none f = ground arith
    go (some []) f = ground arith
    go (some (b ∷ bytes)) f = ground (
      arith,
      length-append c.yielded ((b ∷ bytes) ∷ []),
      total-append length c.yielded ((b ∷ bytes) ∷ []),
    )

consume-IsAccounted :
    (s : NativeByteStream) (n : Option ℕ) (c : Consumed) (ds : List Delivery)
    → is_valid s ≡ true
    → IsAccounted n c
    → IsAccounted n (consume s n c ds)
unfolding consume
consume-IsAccounted s n c [] v h = h
consume-IsAccounted s n c (d ∷ ds) v h =
    let next = consume s n (consume_read s n c d) ds in
    elim (Bool-cases c.ended) [
      | inl e ↦ subst (λ b. IsAccounted n (if b then c else next)) (sym e) h
      | inr e ↦
          subst (λ b. IsAccounted n (if b then c else next)) (sym e)
            (consume-IsAccounted s n (consume_read s n c d) ds v
              (consume_read-IsAccounted s n c d v e h))
    ]

-- The read has a null result, which is nothing to free.
abbrev pub is_null_result : Delivery → Bool
is_null_result (joined none) = true
is_null_result (joined (some read)) = false
is_null_result lost = false

-- The read of a client that has left adds no piece, and its result is freed.
leave_read_lem :
    (s : NativeByteStream) (c : Consumed) (d : Delivery)
    → is_valid s ≡ true
    → ((leave_read s c d).yielded ≡ c.yielded)
      × ((leave_read s c d).owned ≡ c.owned)
      × ((leave_read s c d).completed ≡ c.completed)
      × ((leave_read s c d).calls + c.freed
          ≡ (leave_read s c d).freed + c.calls + count (is_null_result d))
unfolding leave_read read_native_byte_stream read_result read_chunk is_valid
leave_read_lem s c lost v = ground arith
leave_read_lem s c (joined none) v = ground arith
leave_read_lem s c (joined (some read)) v = go read.bytes refl
  where
    go :
        (bytes : Option Bytes)
        → read.bytes ≡ bytes
        → ((leave_read s c (joined (some read))).yielded ≡ c.yielded)
          × ((leave_read s c (joined (some read))).owned ≡ c.owned)
          × ((leave_read s c (joined (some read))).completed ≡ c.completed)
          × ((leave_read s c (joined (some read))).calls + c.freed
              ≡ (leave_read s c (joined (some read))).freed + c.calls + 0)
    go none f = ground arith
    go (some []) f = ground arith
    go (some (b ∷ bytes)) f = ground arith

-- How often a body that ends, or whose client leaves in the read `d`, has met a null result.
abbrev pub nulls : Consumed → Delivery → ℕ
nulls c d = count (is_null_read c.error) + (if c.ended then 0 else count (is_null_result d))

-- A native stream is read as a body by a client that asks as often as it likes. Between two reads:
-- each result that `next` has returned is freed at once or is owned by exactly one piece of the body,
-- but for a null result; `emitted_bytes` counts the pieces, unless it is saturated; the loop has ended
-- exactly if the stream is completed or an error was yielded, and never both; it goes on only while
-- the promised length is not reached, or nothing has been emitted. If the loop has not ended and the
-- client leaves while the next read runs, then that read adds no piece and does not complete the
-- stream, and again each result is freed or is owned by one piece, but for a null one.
pub consume_lem :
    (s : NativeByteStream) (n : Option ℕ) (ds : List Delivery) (d : Delivery)
    → is_valid s ≡ true
    → IsAccounted n (consume s n not_started ds)
      × ((consume_and_leave s n not_started ds d).yielded ≡ (consume s n not_started ds).yielded)
      × ((consume_and_leave s n not_started ds d).completed
          ≡ (consume s n not_started ds).completed)
      × ((consume_and_leave s n not_started ds d).calls
          ≡ (consume_and_leave s n not_started ds d).freed
            + length (consume_and_leave s n not_started ds d).yielded
            + nulls (consume s n not_started ds) d)
unfolding consume_and_leave
consume_lem s n ds d v =
    let start : IsAccounted n not_started = record {
      results = refl;
      owners = refl;
      bytes = refl;
      how_ended = refl;
      one_end = refl;
      in_need = refl;
    } in
    let c = consume s n not_started ds in
    let h = consume-IsAccounted s n not_started ds v start in
    (
      h,
      ground (arith, leave_read_lem s c d v),
      ground (arith, leave_read_lem s c d v),
      ground (arith, h.results, h.owners, leave_read_lem s c d v),
    )
