-- ===== src/Audio/MemoryRead.antt =====
-- The loop that reads a native stream, on the stream of bytes in memory.
use dart_edge.Base.{
  ℕ, zero, suc, ◌+◌, ◌-◌, ◌*◌, ◌≤◌, ◌<◌, ◌≡◌, refl, sym, ap, ◌∙◌, subst, inl, inr, true, false,
  List, [], ◌∷◌, ◌++◌, some, length, take, drop, leb, Bool-cases, arith,
}
use Prim.Native.Nat.{min}
use dart_edge.Base.Result.{ok}
use dart_edge.Base.Words.{word, saturating_add}
use dart_edge.Text.Bytes.{Bytes}
use dart_edge.Http.ByteStream.{is_valid}
use dart_edge.Audio.MemoryStream.{
  MemoryContext, OwnedNativeByteStream, chunk_size, native_memory_byte_stream, memory_next,
  memory_callbacks, memory_release, owned_stream, read_outcome, read_rounds,
  read_native_stream_to_end, drop_owned,
}

take_nil : {A : Type 0} (n : ℕ) → take {A = A} n [] ≡ []
take_nil zero = refl
take_nil (suc n) = refl

pub take_add :
    {A : Type 0} (m n : ℕ) (xs : List A) → take m xs ++ take n (drop m xs) ≡ take (m + n) xs
take_add zero n xs = ap (λ k. take k xs) (omega arith)
take_add (suc m) n [] = take_nil n ∙ sym (take_nil (suc m + n))
take_add (suc m) n (x ∷ xs) =
    ap (λ ys. x ∷ ys) (take_add m n xs) ∙ ap (λ k. take k (x ∷ xs)) (arith_step m n)
  where
    arith_step : (m n : ℕ) → suc (m + n) ≡ suc m + n
    arith_step m n = omega arith

pub take_all : {A : Type 0} (xs : List A) → take (length xs) xs ≡ xs
take_all [] = refl
take_all (x ∷ xs) = ap (λ ys. x ∷ ys) (take_all xs)

-- The stream after the bytes before an offset.
abbrev stream_at : Bytes → ℕ → OwnedNativeByteStream MemoryContext
stream_at bytes offset = record {
  descriptor = (native_memory_byte_stream bytes).0;
  context = record {
    bytes = bytes;
    offset = offset;
    canceled = false;
    reads = 0;
    released = false;
  };
  completed = false;
  transferred = false;
}

-- The stream read to its end.
abbrev pub read_out : Bytes → OwnedNativeByteStream MemoryContext
read_out bytes = record (stream_at bytes (length bytes)) { completed = true }

-- Where the next chunk ends.
abbrev pub next_offset : Bytes → ℕ → ℕ
next_offset bytes offset = min (saturating_add offset chunk_size) (length bytes)

end_round :
    (r : ℕ) (bytes output : Bytes)
    → read_rounds memory_callbacks (suc r) (stream_at bytes (length bytes)) output
      ≡ some (read_out bytes, ok output)
unfolding read_rounds memory_next read_outcome
end_round r bytes output = ground arith

chunk_round :
    (r offset : ℕ) (bytes output : Bytes)
    → offset < length bytes
    → read_rounds memory_callbacks (suc r) (stream_at bytes offset) output
      ≡ read_rounds memory_callbacks r
          (stream_at bytes (next_offset bytes offset))
          (output ++ take (next_offset bytes offset - offset) (drop offset bytes))
unfolding read_rounds memory_next read_outcome
chunk_round r offset bytes output h = ground (arith, h)

-- Reading on from an offset ends with all the bytes.
abbrev Reads : ℕ → Bytes → ℕ → Type 0
Reads rounds bytes offset =
    read_rounds memory_callbacks rounds (stream_at bytes offset) (take offset bytes)
    ≡ some (read_out bytes, ok bytes)

Reads-end :
    (r offset : ℕ) (bytes : Bytes)
    → offset ≤ length bytes
    → leb (length bytes) offset ≡ true
    → Reads (suc r) bytes offset
Reads-end r offset bytes within e =
    let ends : offset ≡ length bytes = ground (arith, e, within) in
    subst (Reads (suc r) bytes) (sym ends) (
      end_round r bytes (take (length bytes) bytes)
      ∙ ap (λ xs. some (read_out bytes, ok xs)) (take_all bytes))

Reads-chunk :
    (r offset : ℕ) (bytes : Bytes)
    → length bytes < word
    → leb (length bytes) offset ≡ false
    → Reads r bytes (next_offset bytes offset)
    → Reads (suc r) bytes offset
Reads-chunk r offset bytes fits e rest =
    let h : offset < length bytes = ground (arith, e) in
    let next = next_offset bytes offset in
    let taken : take offset bytes ++ take (next - offset) (drop offset bytes) ≡ take next bytes =
      take_add offset (next - offset) bytes ∙ ap (λ n. take n bytes) (ground (arith, h, fits)) in
    chunk_round r offset bytes (take offset bytes) h
    ∙ ap (λ xs. read_rounds memory_callbacks r (stream_at bytes next) xs) taken
    ∙ rest

rounds_enough :
    (r offset : ℕ) (bytes : Bytes)
    → length bytes < word
    → offset ≤ length bytes
    → length bytes ≤ r * chunk_size + offset
    → Reads (suc r) bytes offset
rounds_enough zero offset bytes fits within enough =
    Reads-end 0 offset bytes within (ground (arith, enough))
rounds_enough (suc r) offset bytes fits within enough =
    elim (Bool-cases (leb (length bytes) offset)) [
      | inl e ↦ Reads-end (suc r) offset bytes within e
      | inr e ↦ Reads-chunk (suc r) offset bytes fits e (
          rounds_enough r (next_offset bytes offset) bytes fits (omega arith)
            (ground (arith, e, enough, fits)))
    ]

-- A stream of fewer than 2 ^ 64 bytes in memory is read to its end, in as many rounds as it has chunks
-- of 64 KiB and one more: the result is its bytes, each result of `next` has been freed, and the drop
-- of the stream then releases the context without canceling it.
pub read_native_stream_to_end-memory :
    (rounds : ℕ) (bytes : Bytes)
    → length bytes < word
    → length bytes + chunk_size ≤ rounds * chunk_size
    → (let made = native_memory_byte_stream bytes in
        read_native_stream_to_end memory_callbacks rounds (owned_stream made.0 made.1)
        ≡ some (read_out bytes, ok bytes))
      × (drop_owned memory_callbacks (read_out bytes) ≡ memory_release (read_out bytes).context)
unfolding read_native_stream_to_end native_memory_byte_stream is_valid drop_owned
read_native_stream_to_end-memory zero bytes fits enough = absurd (omega (arith, enough))
read_native_stream_to_end-memory (suc r) bytes fits enough =
    (rounds_enough r 0 bytes fits (omega arith) (omega (arith, enough)), refl)
