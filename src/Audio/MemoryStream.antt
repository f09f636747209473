-- ===== src/Audio/MemoryStream.antt =====
-- packages/dart_edge_audio/rust/src/lib.rs: a stream of bytes in memory and the loop that reads a native
-- stream to its end (lines 136 to 177, 1567 to 1745). A lock that another thread has left by a panic is
-- not modelled, since nothing here panics while it holds the lock.
use dart_edge.Base.{
  ℕ, zero, suc, ◌+◌, ◌-◌, Bool, true, false, not, ◌&&◌, [], ◌++◌, Option, none, some, length, take,
  drop, leb, ◌==◌, if◌then◌else◌,
}
use Prim.Native.Nat.{min}
use dart_edge.Base.Result.{Result, ok, err}
use dart_edge.Base.Words.{saturating_add}
use dart_edge.Text.Bytes.{Bytes, Str, text}
use dart_edge.Text.Decimal.{decimal}
use dart_edge.Http.ByteStream.{NativeByteStream, NativeByteStreamRead, is_valid, descriptor_size}
use dart_edge.Audio.Sample.{AudioError, fails}

-- `NativeMemoryStreamContext`, with the results of `next` that are not freed yet.
pub record MemoryContext : Type 0 where
  pub bytes : Bytes
  pub offset : ℕ
  pub canceled : Bool
  pub reads : ℕ
  pub released : Bool

abbrev pub chunk_size : ℕ
chunk_size = 65536

unfoldable pub native_memory_byte_stream : Bytes → NativeByteStream × MemoryContext
native_memory_byte_stream bytes = (
  record {
    abi_version = 1;
    struct_size = descriptor_size;
    next = true;
    cancel = true;
    free_read = true;
    release = true;
  },
  record { bytes = bytes; offset = 0; canceled = false; reads = 0; released = false },
)

-- `NativeMemoryStreamRead::terminal`.
abbrev pub terminal : ℕ → NativeByteStreamRead
terminal status = record { status = status; bytes = none; error = none }

unfoldable pub memory_next : MemoryContext → NativeByteStreamRead × MemoryContext
memory_next c =
    let more : MemoryContext = record c { reads = c.reads + 1 } in
    if c.canceled
    then (terminal 3, more)
    else if leb (length c.bytes) c.offset
    then (terminal 1, more)
    else (let end = min (saturating_add c.offset chunk_size) (length c.bytes) in
        (
          record {
            status = 0;
            bytes = some (take (end - c.offset) (drop c.offset c.bytes));
            error = none;
          },
          record more { offset = end },
        ))

abbrev pub memory_cancel : MemoryContext → MemoryContext
memory_cancel c = record c { canceled = true }

abbrev pub memory_free_read : MemoryContext → MemoryContext
memory_free_read c = record c { reads = c.reads - 1 }

abbrev pub memory_release : MemoryContext → MemoryContext
memory_release c = record c { released = true }

-- A stream that the code owns: its callbacks act on the context of type `C`.
pub record Callbacks (C : Type 0) : Type 0 where
  pub next : C → Option NativeByteStreamRead × C
  pub cancel : C → C
  pub free_read : C → C
  pub release : C → C

pub record OwnedNativeByteStream (C : Type 0) : Type 0 where
  pub descriptor : NativeByteStream
  pub context : C
  pub completed : Bool
  pub transferred : Bool

abbrev pub owned_stream : {C : Type 0} → NativeByteStream → C → OwnedNativeByteStream C
owned_stream descriptor context = record {
  descriptor = descriptor;
  context = context;
  completed = false;
  transferred = false;
}

abbrev pub or_default : Option Str → Str → Str
or_default none s = s
or_default (some t) s = t

-- What one result says: the bytes that it adds, or `none` at the end.
unfoldable pub read_outcome : NativeByteStreamRead → Result (Option Bytes) AudioError
read_outcome read =
    if read.status == 0
    then elim read.bytes [
      | none ↦ fails (text "Native audio input stream returned invalid chunk bytes.")
      | some bytes ↦ ok (some bytes)
    ]
    else if read.status == 1
    then ok none
    else if read.status == 3
    then fails (text "Native audio input stream was canceled.")
    else if read.status == 2
    then fails (or_default read.error (text "Native audio input stream failed."))
    else fails (
        text "Native audio input stream returned unknown status "
        ++ decimal read.status
        ++ text ".")

module _ {C : Type 0} (callbacks : Callbacks C) where
  -- The loop, for as many rounds as the fuel has; `none` says that they were too few.
  unfoldable pub read_rounds :
      ℕ
      → OwnedNativeByteStream C
      → Bytes
      → Option (OwnedNativeByteStream C × Result Bytes AudioError)
  unfolding read_outcome
  read_rounds zero s output = none
  read_rounds (suc rounds) s output =
      let (read, context) = callbacks.next s.context in
      elim read [
        | none ↦ some (
          record s { context = context },
          fails (text "Native audio input stream returned a null result."),
        )
        | some r ↦
            (let freed : OwnedNativeByteStream C = record s {
              context = callbacks.free_read context;
            } in
              elim (read_outcome r) [
                | err e ↦ some (freed, err e)
                | ok none ↦ some (record freed { completed = true }, ok output)
                | ok (some bytes) ↦ read_rounds rounds freed (output ++ bytes)
              ])
      ]

  unfoldable pub read_native_stream_to_end :
      ℕ → OwnedNativeByteStream C → Option (OwnedNativeByteStream C × Result Bytes AudioError)
  unfolding read_rounds is_valid
  read_native_stream_to_end rounds s =
      if not (is_valid s.descriptor)
      then some (s, fails (text "Invalid native audio input stream descriptor."))
      else if not s.descriptor.next
      then some (s, fails (text "Native audio input stream has no next callback."))
      else if not s.descriptor.free_read
      then some (s, fails (text "Native audio input stream has no result release callback."))
      else read_rounds rounds s []

  -- `Drop`, by which the producer is told of a stream that was not read to its end.
  unfoldable pub drop_owned : OwnedNativeByteStream C → C
  drop_owned s =
      let canceled =
        if not s.completed && s.descriptor.cancel then callbacks.cancel s.context else s.context in
      if s.transferred
      then s.context
      else if s.descriptor.release
      then callbacks.release canceled
      else canceled

abbrev pub memory_callbacks : Callbacks MemoryContext
memory_callbacks = record {
  next = λ c. (some (memory_next c).0, (memory_next c).1);
  cancel = memory_cancel;
  free_read = memory_free_read;
  release = memory_release;
}
