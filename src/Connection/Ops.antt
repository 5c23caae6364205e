-- ===== src/Connection/Ops.antt =====
-- The operations that a connection goes through: calls of the user, from the loop's thread or
-- another, functors that the loop runs, and events that the channel hands on.
use muduo_pro.Common.{
  ℕ, ◌+◌, ◌^◌, ◌<◌, ◌≤◌, ◌≡◌, Bool, true, false, not, ◌&&◌, ◌||◌, Option, some, List, [], ◌∷◌, ◌++◌,
  length, if◌then◌else◌,
}
use muduo_pro.Buffer.{ReadResult, received, extrabuf_size, writable_bytes, readable_bytes}
use muduo_pro.Channel.{is_zero}
use muduo_pro.Buffer.Shape.{max_size}
use muduo_pro.Connection.{
  TcpConnection, is_disconnecting, is_connected, is_connecting, WriteResult, Functor, send_later,
  shutdown_later, write_complete, high_water, send, send_piece_in_loop, shutdown, shutdown_in_loop,
  handle_read, handle_write, connect_established, connect_destroyed,
}
use muduo_pro.Connection.Output.{Valid, Fits, accepted}

pub data Op : Type 0 where
  establish : Op
  send_bytes : Bool → List ℕ → WriteResult → Op
  shut_down : Bool → Op
  run_functor : WriteResult → Op
  readable_event : ReadResult → ℕ → Op
  writable_event : WriteResult → Op
  destroy : Op

-- What the loop runs from its queue; the user's callbacks are the operations that follow.
unfoldable pub call_functor : Functor → WriteResult → TcpConnection → Option TcpConnection
call_functor (send_later bytes) r c = send_piece_in_loop bytes r c
call_functor shutdown_later r c = some (shutdown_in_loop c)
call_functor write_complete r c = some c
call_functor (high_water n) r c = some c

unfoldable pub run_first : List Functor → WriteResult → TcpConnection → Option TcpConnection
run_first [] r c = some c
run_first (f ∷ fs) r c = call_functor f r (record c { queue = fs })

unfoldable pub step : Op → TcpConnection → Option TcpConnection
unfolding run_first
step establish c = connect_established c
step (send_bytes in_loop bytes r) c = send in_loop bytes r c
step (shut_down in_loop) c = some (shutdown in_loop c)
step (run_functor r) c = run_first c.queue r c
step (readable_event r time) c = handle_read r time c
step (writable_event r) c = handle_write r c
step destroy c = connect_destroyed c

-- There is room for the bytes, and `write` behaves as documented.
abbrev pub CanSend : List ℕ → WriteResult → TcpConnection → Type 0
CanSend bytes r c =
    (length c.output_buffer.buffer + length bytes ≤ max_size) × Fits r (length bytes)

abbrev pub CanRun : List Functor → WriteResult → TcpConnection → Type 0
CanRun (send_later bytes ∷ fs) r c = (length bytes < 2 ^ 31) × CanSend bytes r c
CanRun _ r c = 0 ≤ 0

-- When an operation may come: the server establishes a connection that is connecting and destroys
-- one that has been established; the poller hands on the events of a connection that is up.
abbrev pub Enabled : Op → TcpConnection → Type 0
Enabled establish c = is_connecting c.state ≡ true
Enabled (send_bytes in_loop bytes r) c = CanSend bytes r c
Enabled (shut_down in_loop) c = 0 ≤ 0
Enabled (run_functor r) c = CanRun c.queue r c
Enabled (readable_event r time) c =
    (is_connected c.state || is_disconnecting c.state ≡ true)
    × (length c.input_buffer.buffer + extrabuf_size ≤ max_size)
    × (length (received r) ≤ writable_bytes c.input_buffer + extrabuf_size)
Enabled (writable_event r) c = Fits r (readable_bytes c.output_buffer)
Enabled destroy c = is_connecting c.state ≡ false

-- The bytes that an operation puts into the stream.
abbrev pub run_accepts : List Functor → WriteResult → TcpConnection → List ℕ
run_accepts (send_later bytes ∷ fs) r c = accepted bytes r (record c { queue = fs })
run_accepts _ r c = []

abbrev pub accepts : Op → TcpConnection → List ℕ
accepts (send_bytes in_loop bytes r) c =
    if is_connected c.state then (if in_loop then accepted bytes r c else []) else []
accepts (run_functor r) c = run_accepts c.queue r c
accepts _ c = []

-- An operation of a program that fails an assert: `connectDestroyed` of a connection that is shutting
-- down, whose channel still awaits events.
abbrev pub fails : Op → TcpConnection → Bool
fails destroy c = is_disconnecting c.state && not (is_zero c.channel.events)
fails _ c = false

-- The messages in the queue of the loop, from other threads.
abbrev pub messages : List Functor → List (List ℕ)
messages [] = []
messages (send_later bytes ∷ fs) = bytes ∷ messages fs
messages (_ ∷ fs) = messages fs

-- The messages that an operation of another thread gives to the loop.
abbrev pub hands : Op → TcpConnection → List (List ℕ)
hands (send_bytes false bytes r) c = if is_connected c.state then bytes ∷ [] else []
hands _ c = []

-- The message that a functor is about to send.
abbrev pub run_takes : List Functor → List (List ℕ)
run_takes (send_later bytes ∷ fs) = bytes ∷ []
run_takes _ = []

abbrev pub takes : Op → TcpConnection → List (List ℕ)
takes (run_functor r) c = run_takes c.queue
takes _ c = []

-- The bytes are accepted, and the messages of other threads wait in the order in which they came.
abbrev pub Steps : TcpConnection → List ℕ → List ℕ → Option TcpConnection → Type 0
Steps c xs ys result =
    (c' : TcpConnection) × (xs' : List ℕ) × (result ≡ some c')
    × Valid c' xs'
    × (c'.wire ++ xs' ≡ c.wire ++ (xs ++ ys))
