-- ===== src/Buffer.antt =====
-- muduo/net/Buffer.h and muduo/net/Buffer.cc: the buffer of a connection, a vector of bytes with a
-- read and a write index. A pointer into the vector is its index. A method returns the new buffer;
-- `none` is a failed assert, or a copy that leaves the memory it may touch.
pub mod Shape
pub mod Retrieve
pub mod Room
pub mod Write
pub mod Content
pub mod Numbers
pub mod Search
pub mod Queue
mod Tests
use muduo_pro.Common.{
  ℕ, suc, ◌+◌, ◌-◌, ◌/◌, ◌%◌, ◌*◌, ◌^◌, Bool, true, false, ◌&&◌, Option, none, some, List, [], ◌∷◌,
  ◌++◌, ltb, leb, ◌==◌, if◌then◌else◌, ◌>>=◌, ◌>>◌, guard, length, take, drop, replicate, slice,
  splice, add_size, sub_size, int_size,
}

pub record Buffer : Type 0 where
  pub buffer : List ℕ
  pub reader_index : ℕ
  pub writer_index : ℕ

abbrev pub cheap_prepend : ℕ
cheap_prepend = 8

abbrev pub initial_size : ℕ
initial_size = 1024

-- A new vector of bytes is zeroed.
unfoldable pub new : Buffer
new = record {
  buffer = replicate (cheap_prepend + initial_size) 0;
  reader_index = cheap_prepend;
  writer_index = cheap_prepend;
}

abbrev pub readable_bytes : Buffer → ℕ
readable_bytes b = sub_size b.writer_index b.reader_index

abbrev pub writable_bytes : Buffer → ℕ
writable_bytes b = sub_size (length b.buffer) b.writer_index

abbrev pub prependable_bytes : Buffer → ℕ
prependable_bytes b = b.reader_index

-- `std::copy` of `xs` to index `i` of the vector.
pub copy_to : List ℕ → ℕ → List ℕ → Option (List ℕ)
copy_to bytes i xs = if leb (i + length xs) (length bytes) then some (splice bytes i xs) else none

-- A read of the `n` bytes from index `i` on.
pub bytes_at : List ℕ → ℕ → ℕ → Option (List ℕ)
bytes_at bytes i n = if leb (i + n) (length bytes) then some (slice bytes i n) else none

-- `vector::resize`, up or down.
abbrev pub resize : List ℕ → ℕ → List ℕ
resize bytes n = take n bytes ++ replicate (n - length bytes) 0

unfoldable pub retrieve_all : Buffer → Buffer
retrieve_all b = record b { reader_index = cheap_prepend; writer_index = cheap_prepend }

unfoldable pub retrieve : Buffer → ℕ → Option Buffer
unfolding retrieve_all
retrieve b len = do
  guard (leb len (readable_bytes b))
  if ltb len (readable_bytes b)
      then some (record b { reader_index = add_size b.reader_index len })
      else some (retrieve_all b)

-- `end` is an index into the vector.
unfoldable pub retrieve_until : Buffer → ℕ → Option Buffer
retrieve_until b end = do
  guard (leb b.reader_index end)
  guard (leb end b.writer_index)
  retrieve b (sub_size end b.reader_index)

unfoldable pub retrieve_as_string : Buffer → ℕ → Option (List ℕ × Buffer)
retrieve_as_string b len = do
  guard (leb len (readable_bytes b))
  result ← bytes_at b.buffer b.reader_index len
  b' ← retrieve b len
  some (result, b')

unfoldable pub retrieve_all_as_string : Buffer → Option (List ℕ × Buffer)
retrieve_all_as_string b = retrieve_as_string b (readable_bytes b)

-- The piece's length is an `int`.
unfoldable pub to_string_piece : Buffer → Option (List ℕ)
to_string_piece b = bytes_at b.buffer b.reader_index (int_size (readable_bytes b))

unfoldable pub make_space : Buffer → ℕ → Option Buffer
make_space b len =
    if ltb (add_size (writable_bytes b) (prependable_bytes b)) (add_size len cheap_prepend)
    then some (record b { buffer = resize b.buffer (add_size b.writer_index len) })
    else (do
      guard (ltb cheap_prepend b.reader_index)
      let readable = readable_bytes b
      moved ← bytes_at b.buffer b.reader_index readable
      bytes ← copy_to b.buffer cheap_prepend moved
      let b' : Buffer = record {
        buffer = bytes;
        reader_index = cheap_prepend;
        writer_index = add_size cheap_prepend readable;
      }
      guard (readable == readable_bytes b')
      some b')

unfoldable pub ensure_writable_bytes : Buffer → ℕ → Option Buffer
ensure_writable_bytes b len = do
  b' ← (if ltb (writable_bytes b) len then make_space b len else some b)
  guard (leb len (writable_bytes b'))
  some b'

unfoldable pub has_written : Buffer → ℕ → Buffer
has_written b len = record b { writer_index = add_size b.writer_index len }

unfoldable pub append : Buffer → List ℕ → Option Buffer
append b bytes = do
  b' ← ensure_writable_bytes b (length bytes)
  written ← copy_to b'.buffer b'.writer_index bytes
  some (has_written (record b' { buffer = written }) (length bytes))

unfoldable pub prepend : Buffer → List ℕ → Option Buffer
prepend b bytes = do
  guard (leb (length bytes) (prependable_bytes b))
  let start = sub_size b.reader_index (length bytes)
  written ← copy_to b.buffer start bytes
  some (record b { buffer = written; reader_index = start })

unfoldable pub shrink : Buffer → ℕ → Option Buffer
shrink b reserve = do
  other ← ensure_writable_bytes new (add_size (readable_bytes b) reserve)
  piece ← to_string_piece b
  append other piece

-- `readv` on the vector's free space and a 64K array on the stack: an errno, or the bytes that the
-- kernel gave, at most as many as both hold. Result: what `readFd` returns and `*savedErrno`.
pub data ReadResult : Type 0 where
  failed : ℕ → ReadResult
  got : List ℕ → ReadResult

abbrev pub received : ReadResult → List ℕ
received (failed errno) = []
received (got bytes) = bytes

abbrev pub extrabuf_size : ℕ
extrabuf_size = 65536

unfoldable pub read_fd : Buffer → ReadResult → Option (Buffer × ReadResult)
read_fd b (failed errno) = some (b, failed errno)
read_fd b (got bytes) =
    let writable = writable_bytes b in
    (do
      guard (leb (length bytes) (add_size writable extrabuf_size))
      first ← copy_to b.buffer b.writer_index (take writable bytes)
      let b' : Buffer = record b { buffer = first }
      if leb (length bytes) writable
          then some (record b' { writer_index = add_size b.writer_index (length bytes) }, got bytes)
          else (do
            b'' ← append (record b' { writer_index = length first }) (drop writable bytes)
            some (b'', got bytes)))
