-- ===== src/Rpc.antt =====
-- muduo/net/protorpc/RpcCodec.h and RpcCodec.cc: messages of protobuf in frames of a length, "RPC0",
-- the message and a checksum. Integers are bit patterns, as in Buffer/Numbers.
pub mod Frames
pub mod Send
pub mod RoundTrip
pub mod Stream
mod Tests
use muduo_pro.Common.{
  ℕ, zero, suc, ◌+◌, ◌-◌, ◌*◌, ◌^◌, ◌%◌, ◌==◌, ◌≡◌, Bool, true, false, ◌||◌, Option, none, some,
  List, [], ◌∷◌, take, drop, ltb, leb, if◌then◌else◌, ◌>>=◌, ◌>>◌, guard, length, codes, bytes_eq,
}
use muduo_pro.Buffer.{
  Buffer, new, readable_bytes, bytes_at, retrieve, append, ensure_writable_bytes, copy_to,
  has_written, prepend,
}
use muduo_pro.Buffer.Numbers.{from_network, to_network, peek_int32, append_int32}

-- What the codec calls: of protobuf, SerializeWithCachedSizesToArray, which writes ByteSize bytes,
-- and ParseFromArray; of zlib, adler32 from 1.
pub record Libraries : Type 1 where
  pub RpcMessage : Type 0
  pub serialize : RpcMessage → List ℕ
  pub parse_from_array : List ℕ → Option RpcMessage
  pub adler32 : List ℕ → ℕ

-- Protobuf reads what it wrote.
pub record IsDocumented (libs : Libraries) : Type 0 where
  pub parses : (m : libs.RpcMessage) → libs.parse_from_array (libs.serialize m) ≡ some m

pub data ErrorCode : Type 0 where
  no_error : ErrorCode
  invalid_length : ErrorCode
  check_sum_error : ErrorCode
  invalid_name_len : ErrorCode
  unknown_message_type : ErrorCode
  parse_error : ErrorCode

abbrev pub header_len : ℕ
header_len = 4

abbrev pub min_message_len : ℕ
min_message_len = 2 * header_len

abbrev pub max_message_len : ℕ
max_message_len = 64 * 1024 * 1024

-- Of an int32_t: a pattern from 2^31 on is a negative number.
abbrev pub is_invalid_length : ℕ → Bool
is_invalid_length len = ltb max_message_len len || (leb (2 ^ 31) len || ltb len min_message_len)

unfoldable pub as_int32 : List ℕ → Option ℕ
as_int32 buf = do guard (leb 4 (length buf)); some (from_network 0 (take 4 buf))

module _ (libs : Libraries) where
  -- The two callbacks.
  pub data Event : Type 0 where
    message_callback : libs.RpcMessage → Event
    error_callback : ErrorCode → Event

  abbrev pub parsed : Option (libs.RpcMessage) → ErrorCode × Option (libs.RpcMessage)
  parsed none = (parse_error, none)
  parsed (some m) = (no_error, some m)

  -- The error, and the message where there is none.
  unfoldable pub parse : List ℕ → ℕ → Option (ErrorCode × Option (libs.RpcMessage))
  parse buf len = do
    expected_check_sum ← as_int32 (drop (len - header_len) buf)
    let check_sum = libs.adler32 (take (len - header_len) buf) % 2 ^ 32
    some (
        if check_sum == expected_check_sum
        then (if bytes_eq (take header_len buf) (codes "RPC0")
            then parsed (libs.parse_from_array (take (len - 2 * header_len) (drop header_len buf)))
            else (unknown_message_type, none))
        else (check_sum_error, none))

  -- `send` from the checksum on.
  unfoldable pub seal : ℕ → Buffer → Option Buffer
  seal byte_size b = do
    bytes ← bytes_at b.buffer b.reader_index (readable_bytes b)
    b' ← append_int32 b (libs.adler32 bytes % 2 ^ 32)
    guard (readable_bytes b' == header_len + byte_size + header_len)
    prepend b' (to_network 4 (readable_bytes b' % 2 ^ 32))

  -- The buffer that `send` gives to the connection.
  unfoldable pub send : libs.RpcMessage → Option Buffer
  send message = do
    b₁ ← append new (codes "RPC0")
    let byte_size = length (libs.serialize message)
    b₂ ← ensure_writable_bytes b₁ (byte_size + header_len)
    written ← copy_to b₂.buffer b₂.writer_index (libs.serialize message)
    seal byte_size (has_written (record b₂ { buffer = written }) byte_size)

  -- What a round of the loop of `onMessage` does: it ends the loop, or calls a callback.
  pub data Round : Type 0 where
    breaks : Round
    goes_on : Event → Buffer → Round

  -- How the loop of `onMessage` ends: with the calls of callbacks so far and the buffer, when it breaks
  -- or when the rounds given have all been done; or with a read out of range.
  pub data Ending : Type 0 where
    ended : List Event → Buffer → Ending
    more_rounds : List Event → Buffer → Ending
    bad_read : Ending

  abbrev pub and_before : Event → Ending → Ending
  and_before event (ended events b) = ended (event ∷ events) b
  and_before event (more_rounds events b) = more_rounds (event ∷ events) b
  and_before event bad_read = bad_read

  -- The user's error callback may change the buffer.
  module _ (on_error : ErrorCode → Buffer → Buffer) where
    abbrev pub fail : ErrorCode → Buffer → Round
    fail code b = goes_on (error_callback code) (on_error code b)

    abbrev pub deliver : ℕ → Buffer → ErrorCode × Option (libs.RpcMessage) → Option Round
    deliver len b (no_error, some m) = do
      b' ← retrieve b (header_len + len)
      some (goes_on (message_callback m) b')
    deliver len b (code, _) = some (fail code b)

    unfoldable pub receive : ℕ → Buffer → Option Round
    receive len b =
        if leb (len + header_len) (readable_bytes b)
        then (do
          bytes ← bytes_at b.buffer b.reader_index (header_len + len)
          result ← parse (drop header_len bytes) len
          deliver len b result)
        else some breaks

    unfoldable pub round : Buffer → Option Round
    round b =
        if leb (min_message_len + header_len) (readable_bytes b)
        then (do
          len ← peek_int32 b
          (if is_invalid_length len then some (fail invalid_length b) else receive len b))
        else some breaks

    unfoldable pub after : (Buffer → Ending) → Buffer → Option Round → Ending
    after again b none = bad_read
    after again b (some breaks) = ended [] b
    after again b (some (goes_on event b')) = and_before event (again b')

    -- `onMessage` in at most so many rounds.
    unfoldable pub on_message : ℕ → Buffer → Ending
    on_message zero b = more_rounds [] b
    on_message (suc rounds) b = after (on_message rounds) b (round b)
