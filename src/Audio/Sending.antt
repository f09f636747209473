-- ===== src/Audio/Sending.antt =====
-- The stream in memory of dart_edge_audio, as the body of a response of the HTTP server runtime.
use dart_edge.Base.{
  ℕ, zero, suc, ◌+◌, ◌-◌, ◌*◌, ◌≤◌, ◌<◌, ◌≡◌, refl, sym, ap, ◌∙◌, subst, inl, inr, true, false,
  List, [], ◌∷◌, ◌++◌, Option, none, some, length, take, drop, length-drop, leb, Bool-cases, arith,
}
use dart_edge.Base.Words.{word}
use dart_edge.Text.Bytes.{Bytes, concat}
use dart_edge.Http.ByteStream.{
  NativeByteStream, NativeByteStreamRead, Consumed, not_started, Delivery, joined, read_chunk,
  read_result, read_native_byte_stream, settle, consume_read, consume, drop_stream,
}
use dart_edge.Audio.Frames.{length-take_within}
use dart_edge.Audio.Buckets.{concat-append}
use dart_edge.Audio.MemoryStream.{
  MemoryContext, chunk_size, native_memory_byte_stream, memory_next, terminal,
}
use dart_edge.Audio.MemoryRead.{next_offset, take_add, take_all}

-- What `next` gives, called so often.
abbrev pub reads_of : ℕ → MemoryContext → List Delivery
reads_of zero m = []
reads_of (suc n) m = joined (some (memory_next m).0) ∷ reads_of n (memory_next m).1

-- The body before its end, and after it.
record IsAt (bytes : Bytes) (offset : ℕ) (c : Consumed) : Type 0 where
  pub pieces : concat c.yielded ≡ take offset bytes
  pub emitted : c.emitted_bytes ≡ offset
  pub no_error : c.error ≡ none
  pub goes_on : c.ended ≡ false

pub record IsSent (bytes : Bytes) (c : Consumed) : Type 0 where
  pub pieces : concat c.yielded ≡ bytes
  pub no_error : c.error ≡ none
  pub is_over : c.ended ≡ true
  pub completed : c.completed ≡ true

consume-ended :
    (s : NativeByteStream) (n : Option ℕ) (c : Consumed) (ds : List Delivery)
    → c.ended ≡ true
    → consume s n c ds ≡ c
unfolding consume
consume-ended s n c [] h = refl
consume-ended s n c (d ∷ ds) h = rw h refl

abbrev memory_at : Bytes → ℕ → ℕ → MemoryContext
memory_at bytes offset reads = record {
  bytes = bytes;
  offset = offset;
  canceled = false;
  reads = reads;
  released = false;
}

abbrev chunk_at : Bytes → ℕ → Bytes
chunk_at bytes offset = take (next_offset bytes offset - offset) (drop offset bytes)

next-chunk :
    (bytes : Bytes) (offset reads : ℕ)
    → leb (length bytes) offset ≡ false
    → memory_next (memory_at bytes offset reads) ≡ (
      record { status = 0; bytes = some (chunk_at bytes offset); error = none },
      memory_at bytes (next_offset bytes offset) (reads + 1),
    )
unfolding memory_next
next-chunk bytes offset reads h = rw h refl

next-end :
    (bytes : Bytes) (offset reads : ℕ)
    → leb (length bytes) offset ≡ true
    → memory_next (memory_at bytes offset reads) ≡ (terminal 1, memory_at bytes offset (reads + 1))
unfolding memory_next
next-end bytes offset reads h = rw h refl

module _ (bytes : Bytes) where
  -- One read of the body loop, on this stream, with its length as the content length.
  abbrev sent_read : Consumed → NativeByteStreamRead → Consumed
  sent_read c read =
      consume_read (native_memory_byte_stream bytes).0 (some (length bytes)) c (joined (some read))

  end-IsSent :
      (c : Consumed) → IsAt bytes (length bytes) c → IsSent bytes (sent_read c (terminal 1))
  unfolding consume_read settle read_native_byte_stream read_result native_memory_byte_stream
  end-IsSent c a = record {
    pieces = a.pieces ∙ take_all bytes;
    no_error = a.no_error;
    is_over = refl;
    completed = refl;
  }

  abbrev chunk_read : Bytes → NativeByteStreamRead
  chunk_read chunk = record { status = 0; bytes = some chunk; error = none }

  -- A chunk that does not reach the end, and the last one.
  chunk-IsAt :
      (c : Consumed) (offset next : ℕ) (chunk : Bytes)
      → IsAt bytes offset c
      → take offset bytes ++ chunk ≡ take next bytes
      → 0 < length chunk
      → offset + length chunk ≡ next
      → next < length bytes
      → length bytes < word
      → IsAt bytes next (sent_read c (chunk_read chunk))
  unfolding consume_read settle read_native_byte_stream read_result read_chunk
      native_memory_byte_stream
  chunk-IsAt c offset next [] a e p n l fits = absurd (omega (arith, p))
  chunk-IsAt c offset next (b ∷ chunk) a e p n l fits = record {
    pieces = concat-append c.yielded (b ∷ chunk) ∙ ap (λ xs. xs ++ b ∷ chunk) a.pieces ∙ e;
    emitted = ground (arith, a.emitted, n, l, fits);
    no_error = a.no_error;
    goes_on = ground (arith, a.emitted, n, l, fits);
  }

  chunk-IsSent :
      (c : Consumed) (offset : ℕ) (chunk : Bytes)
      → IsAt bytes offset c
      → take offset bytes ++ chunk ≡ take (length bytes) bytes
      → 0 < length chunk
      → offset + length chunk ≡ length bytes
      → length bytes < word
      → IsSent bytes (sent_read c (chunk_read chunk))
  unfolding consume_read settle read_native_byte_stream read_result read_chunk
      native_memory_byte_stream
  chunk-IsSent c offset [] a e p n fits = absurd (omega (arith, p))
  chunk-IsSent c offset (b ∷ chunk) a e p n fits = record {
    pieces =
        concat-append c.yielded (b ∷ chunk)
        ∙ ap (λ xs. xs ++ b ∷ chunk) a.pieces
        ∙ e
        ∙ take_all bytes;
    no_error = a.no_error;
    is_over = ground (arith, a.emitted, n, fits);
    completed = ground (arith, a.emitted, n, fits);
  }

  abbrev body : Consumed → List Delivery → Consumed
  body = consume (native_memory_byte_stream bytes).0 (some (length bytes))

  -- One round of the loop, and the others if it has not ended.
  body-step :
      (c : Consumed) (read : NativeByteStreamRead) (ds : List Delivery)
      → c.ended ≡ false
      → body c (joined (some read) ∷ ds) ≡ body (sent_read c read) ds
  unfolding consume
  body-step c read ds h = rw h refl

  body-ended :
      (c : Consumed) (read : NativeByteStreamRead) (ds : List Delivery)
      → c.ended ≡ false
      → IsSent bytes (sent_read c read)
      → IsSent bytes (body c (joined (some read) ∷ ds))
  body-ended c read ds h sent =
      subst (IsSent bytes)
        (sym (
          body-step c read ds h
          ∙ consume-ended (native_memory_byte_stream bytes).0 (some (length bytes))
              (sent_read c read) ds sent.is_over))
        sent

  ends-IsSent :
      (r offset reads : ℕ) (c : Consumed)
      → IsAt bytes offset c
      → offset ≤ length bytes
      → leb (length bytes) offset ≡ true
      → IsSent bytes (body c (reads_of (suc r) (memory_at bytes offset reads)))
  ends-IsSent r offset reads c a within e =
      let ends : offset ≡ length bytes = ground (arith, e, within) in
      rw (next-end bytes offset reads e) (
        body-ended c (terminal 1) (reads_of r (memory_at bytes offset (reads + 1))) a.goes_on
          (end-IsSent c (subst (λ o. IsAt bytes o c) ends a)))

  -- Where a chunk stands.
  record IsPlaced (offset : ℕ) : Type 0 where
    pub joins : take offset bytes ++ chunk_at bytes offset ≡ take (next_offset bytes offset) bytes
    pub some_bytes : 0 < length (chunk_at bytes offset)
    pub reaches : offset + length (chunk_at bytes offset) ≡ next_offset bytes offset

  chunk_at-IsPlaced :
      (offset : ℕ) → leb (length bytes) offset ≡ false → length bytes < word → IsPlaced offset
  chunk_at-IsPlaced offset e fits =
      let before : offset < length bytes = ground (arith, e) in
      let next = next_offset bytes offset in
      let size : length (chunk_at bytes offset) ≡ next - offset =
        length-take_within (next - offset) (drop offset bytes)
          (omega (arith, length-drop offset bytes)) in
      record {
        joins =
            take_add offset (next - offset) bytes
            ∙ ap (λ n. take n bytes) (ground (arith, before, fits));
        some_bytes = omega (arith, size, before, fits);
        reaches = omega (arith, size, before, fits);
      }

  body-IsSent :
      (r offset reads : ℕ) (c : Consumed)
      → length bytes < word
      → IsAt bytes offset c
      → offset ≤ length bytes
      → length bytes ≤ r * chunk_size + offset
      → IsSent bytes (body c (reads_of (suc r) (memory_at bytes offset reads)))
  body-IsSent zero offset reads c fits a within enough =
      ends-IsSent 0 offset reads c a within (ground (arith, enough))
  body-IsSent (suc r) offset reads c fits a within enough =
      let next = next_offset bytes offset in
      let chunk = chunk_at bytes offset in
      let read = chunk_read chunk in
      let later = reads_of (suc r) (memory_at bytes next (reads + 1)) in
      elim (Bool-cases (leb (length bytes) offset)) [
        | inl e ↦ ends-IsSent (suc r) offset reads c a within e
        | inr e ↦
            (let k = chunk_at-IsPlaced offset e fits in
              rw (next-chunk bytes offset reads e) (elim (Bool-cases (leb (length bytes) next)) [
                | inl last ↦
                    (let ends : next ≡ length bytes = ground (arith, last) in
                      body-ended c read later a.goes_on (
                        chunk-IsSent c offset chunk a (k.joins ∙ ap (λ n. take n bytes) ends)
                          k.some_bytes (k.reaches ∙ ends) fits))
                | inr more ↦
                    (let there =
                        chunk-IsAt c offset next chunk a k.joins k.some_bytes k.reaches
                          (ground (arith, more)) fits in
                      subst (IsSent bytes) (sym (body-step c read later a.goes_on)) (
                        body-IsSent r next (reads + 1) (sent_read c read) fits there (omega arith)
                          (ground (arith, e, enough, fits))))
              ]))
      ]

-- A response whose body is a stream of fewer than 2 ^ 64 bytes in memory, with their number as the
-- content length, is sent whole, after as many reads as the bytes have chunks of 64 KiB and one more:
-- the pieces of the body are the bytes, no error ends it, it is completed, and the drop of the stream
-- then releases it once without canceling it.
pub consume-memory :
    (rounds : ℕ) (bytes : Bytes)
    → length bytes < word
    → length bytes + chunk_size ≤ rounds * chunk_size
    → (let made = native_memory_byte_stream bytes in
        let sent = consume made.0 (some (length bytes)) not_started (reads_of rounds made.1) in
        IsSent bytes sent × (drop_stream made.0 sent ≡ (0, 1)))
unfolding native_memory_byte_stream drop_stream
consume-memory zero bytes fits enough = absurd (omega (arith, enough))
consume-memory (suc r) bytes fits enough =
    let sent =
      body-IsSent bytes r 0 0 not_started fits
        (record { pieces = refl; emitted = refl; no_error = refl; goes_on = refl }) (omega arith)
        (omega (arith, enough)) in
    (sent, rw (sent.completed) refl)
