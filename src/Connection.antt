-- ===== src/Connection.antt =====
-- muduo/net/TcpConnection.h and muduo/net/TcpConnection.cc: the state of a connection, its output
-- buffer, and its operations in the loop's thread. The kernel's answer to a read or write is an
-- argument; `none` is a failed assert. What a callback does with the connection comes after it, as
-- further operations: wherever the source goes on after a callback, the connection is down.
pub mod Output
pub mod Send
pub mod Steps
pub mod Ops
pub mod Calls
pub mod Messages
pub mod Shutdown
pub mod Run
mod Tests
use muduo_pro.Common.{
  ℕ, ◌+◌, ◌^◌, Bool, true, false, not, ◌&&◌, ◌||◌, Option, none, some, List, [], ◌∷◌, ◌++◌, ltb,
  leb, ◌==◌, if◌then◌else◌, ◌>>=◌, ◌>>◌, guard, length, take, drop, add_size, sub_size,
}
use muduo_pro.Buffer.{
  Buffer, ReadResult, failed, got, new, readable_bytes, bytes_at, retrieve, retrieve_all,
  retrieve_all_as_string, append, read_fd,
}
use muduo_pro.Channel.{
  Channel, new_channel, is_writing, enable_reading, enable_writing, disable_writing, disable_all,
  remove, tie, update,
}

pub data ConnectionState : Type 0 where
  disconnected : ConnectionState
  connecting : ConnectionState
  connected : ConnectionState
  disconnecting : ConnectionState

abbrev pub is_disconnected : ConnectionState → Bool
is_disconnected disconnected = true
is_disconnected _ = false

abbrev pub is_connecting : ConnectionState → Bool
is_connecting connecting = true
is_connecting _ = false

abbrev pub is_connected : ConnectionState → Bool
is_connected connected = true
is_connected _ = false

abbrev pub is_disconnecting : ConnectionState → Bool
is_disconnecting disconnecting = true
is_disconnecting _ = false

-- What waits in the loop for its thread.
pub data Functor : Type 0 where
  send_later : List ℕ → Functor
  shutdown_later : Functor
  write_complete : Functor
  high_water : ℕ → Functor

-- The callbacks called in the thread of the loop, the first with whether the connection is up.
pub data UserCall : Type 0 where
  connection_call : Bool → UserCall
  message_call : ℕ → UserCall
  close_call : UserCall
  error_call : UserCall

-- `wire` is what the kernel has taken to send, `write_closed` whether `shutdownWrite` was called,
-- `queue` what `queueInLoop` was given, `calls` the callbacks so far.
pub record TcpConnection : Type 0 where
  pub state : ConnectionState
  pub channel : Channel
  pub input_buffer : Buffer
  pub output_buffer : Buffer
  pub high_water_mark : ℕ
  pub write_complete_callback : Bool
  pub high_water_mark_callback : Bool
  pub wire : List ℕ
  pub write_closed : Bool
  pub queue : List Functor
  pub calls : List UserCall

unfoldable pub new_connection : TcpConnection
new_connection = record {
  state = connecting;
  channel = record new_channel {
    read_callback = true;
    write_callback = true;
    close_callback = true;
    error_callback = true;
  };
  input_buffer = new;
  output_buffer = new;
  high_water_mark = 67108864;
  write_complete_callback = false;
  high_water_mark_callback = false;
  wire = [];
  write_closed = false;
  queue = [];
  calls = [];
}

-- What `write` returns: the bytes taken, or an errno.
pub data WriteResult : Type 0 where
  wrote : ℕ → WriteResult
  write_failed : ℕ → WriteResult

abbrev pub ewouldblock : ℕ
ewouldblock = 11

abbrev pub epipe : ℕ
epipe = 32

unfoldable pub queue_in_loop : Functor → TcpConnection → TcpConnection
queue_in_loop f c = record c { queue = c.queue ++ (f ∷ []) }

-- `if (test) queueInLoop(f)`.
abbrev pub queue_if : Bool → Functor → TcpConnection → TcpConnection
queue_if test f c = record c { queue = c.queue ++ (if test then f ∷ [] else []) }

-- The call of `write` in `sendInLoop`: `nwrote`, `error` and the connection after it.
unfoldable pub write_direct : List ℕ → WriteResult → TcpConnection → ℕ × Bool × TcpConnection
unfolding queue_in_loop
write_direct bytes (wrote n) c =
    let c' : TcpConnection = record c { wire = c.wire ++ take n bytes } in
    (
      n,
      false,
      queue_if (sub_size (length bytes) n == 0 && c.write_complete_callback) write_complete c',
    )
write_direct bytes (write_failed errno) c = (0, not (errno == ewouldblock) && errno == epipe, c)

-- The connection with its longer output buffer: the callback at the high-water mark is queued, and
-- a write is awaited.
unfoldable pub with_output : ℕ → Buffer → TcpConnection → TcpConnection
with_output remaining buf c =
    let old_len = readable_bytes c.output_buffer in
    let c' =
      queue_if
        (leb c.high_water_mark (add_size old_len remaining)
          && ltb old_len c.high_water_mark
          && c.high_water_mark_callback)
        (high_water (add_size old_len remaining)) c in
    record c' {
      output_buffer = buf;
      channel = if not (is_writing c.channel) then enable_writing c.channel else c.channel;
    }

unfoldable pub append_output : List ℕ → ℕ → TcpConnection → Option TcpConnection
append_output bytes remaining c = do
  buf ← append c.output_buffer bytes
  some (with_output remaining buf c)

-- The end of `sendInLoop`, with what was not written.
unfoldable pub buffer_rest : List ℕ → ℕ → Bool → TcpConnection → Option TcpConnection
buffer_rest bytes nwrote error c =
    let remaining = sub_size (length bytes) nwrote in
    (do
      guard (leb remaining (length bytes))
      if not error && ltb 0 remaining
          then append_output (drop nwrote bytes) remaining c
          else some c)

-- Nothing is buffered and no write is awaited: `sendInLoop` may write.
abbrev pub writes_direct : TcpConnection → Bool
writes_direct c = not (is_writing c.channel) && readable_bytes c.output_buffer == 0

unfoldable pub send_in_loop : List ℕ → WriteResult → TcpConnection → Option TcpConnection
send_in_loop bytes r c = elim (is_disconnected c.state) [
  | true ↦ some c
  | false ↦ elim (writes_direct c) [
    | true ↦ let (nwrote, error, c') = write_direct bytes r c in buffer_rest bytes nwrote error c'
    | false ↦ buffer_rest bytes 0 false c
  ]
]

-- `sendInLoop` of a StringPiece, whose length is an int: for a longer string it is `none`.
unfoldable pub send_piece_in_loop : List ℕ → WriteResult → TcpConnection → Option TcpConnection
send_piece_in_loop bytes r c = do guard (ltb (length bytes) (2 ^ 31)); send_in_loop bytes r c

-- What another thread sends waits as a string, which `send_piece_in_loop` sends later.
-- `in_loop`: whether the caller runs in the loop's thread.
unfoldable pub send : Bool → List ℕ → WriteResult → TcpConnection → Option TcpConnection
send in_loop bytes r c =
    if is_connected c.state
    then (if in_loop then send_in_loop bytes r c else some (queue_in_loop (send_later bytes) c))
    else some c

-- `send(Buffer *)`: the bytes are copied, and the buffer is left empty.
unfoldable pub send_buffer :
    Bool → Buffer → WriteResult → TcpConnection → Option (Buffer × TcpConnection)
send_buffer in_loop buf r c =
    if is_connected c.state
    then (if in_loop
        then (do
          bytes ← bytes_at buf.buffer buf.reader_index (readable_bytes buf)
          c' ← send_in_loop bytes r c
          some (retrieve_all buf, c'))
        else (do
          (bytes, buf') ← retrieve_all_as_string buf
          some (buf', queue_in_loop (send_later bytes) c)))
    else some (buf, c)

-- `shutdownWrite`, unless a write is awaited.
unfoldable pub shutdown_in_loop : TcpConnection → TcpConnection
shutdown_in_loop c = record c {
  write_closed = if not (is_writing c.channel) then true else c.write_closed;
}

unfoldable pub shutdown : Bool → TcpConnection → TcpConnection
unfolding shutdown_in_loop queue_in_loop
shutdown in_loop c =
    if is_connected c.state
    then (let c' : TcpConnection = record c { state = disconnecting } in
        if in_loop then shutdown_in_loop c' else queue_in_loop shutdown_later c')
    else c

unfoldable pub established : TcpConnection → TcpConnection
established c = record c {
  state = connected;
  channel = enable_reading (tie c.channel);
  calls = c.calls ++ (connection_call true ∷ []);
}

unfoldable pub connect_established : TcpConnection → Option TcpConnection
connect_established c = do guard (is_connecting c.state); some (established c)

-- The connection is down, and the callbacks that hear of it.
unfoldable pub closed : List UserCall → TcpConnection → TcpConnection
unfolding disable_all update
closed callbacks c = record c {
  state = disconnected;
  channel = disable_all c.channel;
  calls = c.calls ++ callbacks;
}

unfoldable pub connect_destroyed : TcpConnection → Option TcpConnection
connect_destroyed c =
    let c' = if is_connected c.state then closed (connection_call false ∷ []) c else c in
    (do channel ← remove c'.channel; some (record c' { channel = channel }))

unfoldable pub handle_close : TcpConnection → Option TcpConnection
handle_close c = do
  guard (is_connected c.state || is_disconnecting c.state)
  some (closed (connection_call false ∷ close_call ∷ []) c)

-- It only logs.
unfoldable pub handle_error : TcpConnection → TcpConnection
handle_error c = record c { calls = c.calls ++ (error_call ∷ []) }

-- By the return value of `readFd`.
unfoldable pub after_read : ReadResult → ℕ → TcpConnection → Option TcpConnection
unfolding handle_error
after_read (got []) time c = handle_close c
after_read (got (x ∷ bytes)) time c =
    some (record c { calls = c.calls ++ (message_call time ∷ []) })
after_read (failed errno) time c = some (handle_error c)

unfoldable pub handle_read : ReadResult → ℕ → TcpConnection → Option TcpConnection
handle_read r time c = do
  (buf, n) ← read_fd c.input_buffer r
  after_read n time (record c { input_buffer = buf })

-- After the last byte of the output buffer.
unfoldable pub output_drained : TcpConnection → TcpConnection
unfolding queue_in_loop shutdown_in_loop disable_writing
output_drained c =
    let c' =
      queue_if c.write_complete_callback write_complete
        (record c { channel = disable_writing c.channel }) in
    if is_disconnecting c.state then shutdown_in_loop c' else c'

unfoldable pub handle_write : WriteResult → TcpConnection → Option TcpConnection
handle_write (write_failed errno) c = some c
handle_write (wrote n) c =
    if is_writing c.channel && ltb 0 n
    then (do
      bytes ← bytes_at c.output_buffer.buffer c.output_buffer.reader_index n
      buf ← retrieve c.output_buffer n
      let c' : TcpConnection = record c { output_buffer = buf; wire = c.wire ++ bytes }
      some (if readable_bytes buf == 0 then output_drained c' else c'))
    else some c
