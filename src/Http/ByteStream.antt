-- ===== src/Http/ByteStream.antt =====
-- crates/dart_edge_core/src/byte_stream.rs, and lib.rs on the reading of such a stream (lines 349 to
-- 473, 2110 to 2157). What the producer's `next` returns comes from outside, as does how often the
-- client's side asks for more of the body. A null callback is `false`, invalid bytes are `none`.
use dart_edge.Base.{
  ℕ, ◌+◌, Bool, true, false, not, ◌&&◌, ◌||◌, List, [], ◌∷◌, ◌++◌, Option, none, some, is_empty,
  length, leb, ◌==◌, if◌then◌else◌,
}
use dart_edge.Base.Result.{Result, ok, err}
use dart_edge.Base.Words.{saturating_add}
use dart_edge.Text.Bytes.{Bytes, Str}

pub record NativeByteStream : Type 0 where
  pub abi_version : ℕ
  pub struct_size : ℕ
  pub next : Bool
  pub cancel : Bool
  pub free_read : Bool
  pub release : Bool

-- The size of the descriptor on a machine of 64 bits.
abbrev pub descriptor_size : ℕ
descriptor_size = 56

unfoldable pub is_valid : NativeByteStream → Bool
is_valid s =
    s.abi_version == 1 && leb descriptor_size s.struct_size && s.next && s.free_read && s.release

pub record NativeByteStreamRead : Type 0 where
  pub status : ℕ
  pub bytes : Option Bytes
  pub error : Option Str

pub data ReadOutcome : Type 0 where
  chunk : Bytes → ReadOutcome
  finished : ReadOutcome

-- The messages of `read_native_byte_stream`.
pub data ReadError : Type 0 where
  no_next no_free null_read invalid_chunk worker_failed : ReadError
  failed : Option Str → ReadError
  unknown_status : ℕ → ReadError

-- A read, whether `next` was called, and how many results are freed at once; a chunk that is not
-- empty frees its result when it is dropped.
pub record ReadDone : Type 0 where
  pub outcome : Result ReadOutcome ReadError
  pub called : Bool
  pub freed : ℕ
  pub owned : ℕ

abbrev freed_now : Result ReadOutcome ReadError → ReadDone
freed_now r = record { outcome = r; called = true; freed = 1; owned = 0 }

unfoldable pub read_chunk : Option Bytes → ReadDone
read_chunk none = freed_now (err invalid_chunk)
read_chunk (some []) = freed_now (ok (chunk []))
read_chunk (some (b ∷ bytes)) = record {
  outcome = ok (chunk (b ∷ bytes));
  called = true;
  freed = 0;
  owned = 1;
}

unfoldable pub read_result : Option NativeByteStreamRead → ReadDone
unfolding read_chunk
read_result none = record { outcome = err null_read; called = true; freed = 0; owned = 0 }
read_result (some read) =
    if read.status == 0
    then read_chunk read.bytes
    else if read.status == 1 || read.status == 3
    then freed_now (ok finished)
    else if read.status == 2
    then freed_now (err (failed read.error))
    else freed_now (err (unknown_status read.status))

-- A missing callback is found before `next` is called.
unfoldable pub read_native_byte_stream : NativeByteStream → Option NativeByteStreamRead → ReadDone
unfolding read_result
read_native_byte_stream s read =
    if not s.next
    then record { outcome = err no_next; called = false; freed = 0; owned = 0 }
    else if not s.free_read
    then record { outcome = err no_free; called = false; freed = 0; owned = 0 }
    else read_result read

-- Where the body stream stands: what it has yielded, whether it has yielded an error, its accounts of
-- the results, and whether it is marked completed. `ended` says that it has left its loop.
pub record Consumed : Type 0 where
  pub yielded : List Bytes
  pub emitted_bytes : ℕ
  pub error : Option ReadError
  pub calls : ℕ
  pub freed : ℕ
  pub owned : ℕ
  pub completed : Bool
  pub ended : Bool

abbrev pub not_started : Consumed
not_started = record {
  yielded = [];
  emitted_bytes = 0;
  error = none;
  calls = 0;
  freed = 0;
  owned = 0;
  completed = false;
  ended = false;
}

abbrev pub count : Bool → ℕ
count b = if b then 1 else 0

abbrev pub reached : Option ℕ → ℕ → Bool
reached none emitted = false
reached (some content_length) emitted = leb content_length emitted

-- What `spawn_blocking` gives: the read has been made, or its task was lost before it ran.
pub data Delivery : Type 0 where
  joined : Option NativeByteStreamRead → Delivery
  lost : Delivery

unfoldable pub settle : Option ℕ → Consumed → Result ReadOutcome ReadError → Consumed
settle content_length c (ok (chunk bytes)) =
    let emitted = saturating_add c.emitted_bytes (length bytes) in
    let last = reached content_length emitted in
    record c {
      emitted_bytes = emitted;
      completed = last;
      yielded = if is_empty bytes then c.yielded else c.yielded ++ bytes ∷ [];
      ended = last;
    }
settle content_length c (ok finished) = record c { completed = true; ended = true }
settle content_length c (err e) = record c { error = some e; ended = true }

-- One round of the loop.
unfoldable pub consume_read : NativeByteStream → Option ℕ → Consumed → Delivery → Consumed
unfolding settle read_native_byte_stream
consume_read s content_length c lost = settle content_length c (err worker_failed)
consume_read s content_length c (joined read) =
    let r = read_native_byte_stream s read in
    settle content_length
      (record c {
        calls = c.calls + count r.called;
        freed = c.freed + r.freed;
        owned = c.owned + r.owned;
      })
      r.outcome

-- The loop over what `next` returns, until it ends. A client that stops between two reads asks for no
-- more: the list ends there.
unfoldable pub consume : NativeByteStream → Option ℕ → Consumed → List Delivery → Consumed
unfolding consume_read
consume s content_length c [] = c
consume s content_length c (read ∷ reads) =
    let next = consume s content_length (consume_read s content_length c read) reads in
    if c.ended then c else next

-- A client that stops while `spawn_blocking` reads: the stream is dropped then, the read runs on, and
-- nothing takes its outcome. A result that a chunk owns is freed with the chunk.
unfoldable pub leave_read : NativeByteStream → Consumed → Delivery → Consumed
unfolding read_native_byte_stream
leave_read s c lost = c
leave_read s c (joined read) =
    let r = read_native_byte_stream s read in
    record c { calls = c.calls + count r.called; freed = c.freed + r.freed + r.owned }

-- The body for a client that reads on as long as the list goes, and leaves in the read that follows.
unfoldable pub consume_and_leave :
    NativeByteStream → Option ℕ → Consumed → List Delivery → Delivery → Consumed
unfolding consume leave_read
consume_and_leave s content_length c reads last =
    let stopped = consume s content_length c reads in
    if stopped.ended then stopped else leave_read s stopped last

-- `Drop` of `OwnedNativeByteStream`: how often `cancel` and `release` are called.
unfoldable pub drop_stream : NativeByteStream → Consumed → ℕ × ℕ
drop_stream s c = (count (not c.completed && s.cancel), count s.release)
