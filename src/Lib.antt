-- ===== src/Lib.antt =====
-- muduo, a C++ network library: a reactor (EventLoop, Poller, Channel, TimerQueue), TCP connections
-- with buffered input and output, and servers on top of them.
--
-- Common holds what the modules share: tests on numbers, lists with native indices, `size_t`
-- arithmetic, byte strings with ordered maps of them, and decimal print.
--
-- Buffer models muduo/net/Buffer.h and Buffer.cc, and the byte orders of muduo/net/Endian.h. The
-- record `Buffer` has the fields buffer_, readerIndex_ and writerIndex_; each method is a function of
-- the same name, into `Option` where an assert or a copy may fail. Indices are `size_t`, with the
-- wrap-around written out; a vector may grow up to its max_size, and allocation does not fail.
-- `Holds b xs` says that the indices are valid and that the readable bytes are `xs`.
--
-- Http models muduo/net/http: Request is HttpRequest.h and HttpContext.h, Parser the functions
-- processRequestLine and parseRequest of HttpServer.cc, Response is HttpResponse.h and
-- HttpResponse.cc, Server the callbacks of HttpServer.cc. parseRequest takes a bound on the rounds of
-- its loop; a round uses up at least the two bytes of a CRLF or ends, so one more than the bytes in
-- the buffer is enough. The user's callback is an argument, the connection a list of effects.
--
-- Channel models muduo/net/Channel.h and Channel.cc: masks of events are records of bits, the field
-- `polled` is what the poller was told, and handleEvent gives the list of callbacks it calls.
--
-- Connection models muduo/net/TcpConnection.h and TcpConnection.cc on top of Buffer and Channel. The
-- record `TcpConnection` also holds its side of the socket (`wire`, the bytes that the kernel took,
-- and `write_closed`), the functors that wait in the loop and the callbacks so far. The kernel's
-- answers are arguments; that `write` takes no more than it is given is a hypothesis. Ops puts the
-- operations together as steps, Messages follows what other threads send, Shutdown the writes after a shutdown, and
-- Run is the relation of histories. A string given to sendInLoop as a StringPiece, whose length is an
-- int, has less than 2^31 bytes, or the result is `none`; so have the pieces of an HttpResponse.
--
-- Server models muduo/net/TcpServer.h and TcpServer.cc, with EventLoopThreadPool.h and
-- EventLoopThreadPool.cc: the connection with number `id` is `objects id`, and `pending` counts the
-- functors that wait in loops. Pool is about the loops, Names about the names of connections, Lives
-- and Calls about what is known of each, and Run about histories. nextConnId_ is an int, and where it
-- would overflow newConnection is `none`.
--
-- Connector models muduo/net/Connector.h and Connector.cc: `open_sockets` and `handed` follow the
-- sockets that connect makes, `timers` the delays given to runAfter, `resets` the calls of
-- resetChannel in the loop's queue. A timer may fire in any state, as no one cancels it. Delay is about the retries, Sockets and Steps about the sockets.
--
-- BoundedQueue models muduo/base/BoundedBlockingQueue.h: `step` is what a thread does between two
-- waits of put or take, and `run` any interleaving. Sleeping and woken threads are counts.
-- Latch models muduo/base/CountDownLatch.h and CountDownLatch.cc in the same way.
--
-- Sets is `std::set` of pairs of numbers as a sorted list. Timers models muduo/net/Timer.h, Timer.cc,
-- TimerQueue.h and TimerQueue.cc with it: timers_ and activeTimers_ are sets of pairs, the timers
-- live behind addresses in `objects`, `armed` is the time given to timerfd_settime, and the
-- callbacks are lists of commands on the queue. cancelInLoop reads an iterator that it has erased, so
-- the cancel of a timer that is in the sets is `none`.
--
-- Poller is about muduo/net/poller: `EpollCalls` is the epoll instance with epoll_ctl as an interface,
-- `IsDocumented` what its manual page says, and Poller/Epoll models EPollPoller.h and EPollPoller.cc
-- over it, with channels as objects behind pointers.
--
-- PollPoller models muduo/net/poller/PollPoller.h and PollPoller.cc: the vector given to poll, in which
-- -fd - 1 is `negsuc fd`, the map of channels, and each channel's index. Slots says when the three are
-- in step; Enter and Update, Taken and Remove, and Fill are about the operations.
--
-- Logging models muduo/base/LogStream.h and LogStream.cc: `FixedBuffer` is data_ with the index of
-- cur_, `put` the operators of LogStream by the type of their argument. The loop of `convert` gets 20
-- rounds and that of `convertHex` 16, one for each digit of 64 bits.
--
-- EventLoop models muduo/net/EventLoop.h and EventLoop.cc: `Place` is where the thread of the loop is
-- in loop and doPendingFunctors, `Step` what it or another thread does next, and `queued`, `called`
-- and `ran` follow the functors. `EventfdCalls` is the eventfd as an interface. Wakeups is about any
-- interleaving, Turn about one turn of the loop.
--
-- AsyncLogging models muduo/base/AsyncLogging.h and AsyncLogging.cc over the buffers of Logging, with
-- threads that log and the thread that writes as steps. Spares is where the buffers are, Order what
-- becomes of the lines.
--
-- Rpc models muduo/net/protorpc/RpcCodec.h and RpcCodec.cc on top of Buffer: `Libraries` is what it
-- calls of protobuf and zlib. `on_message` takes a bound on the rounds of its loop; one more than
-- there are frames is enough. Frames is the format and `parse`, Send what goes out, Stream what comes
-- in, and RoundTrip the two together.
--
-- LogFile models muduo/base/LogFile.h and LogFile.cc: `files` is file_ and those before it, `answer` what
-- fwrite_unlocked takes in each call. The loop of `write_rest` gets one round more than the line has
-- bytes, which is enough since each round takes one. Write is about a line, Files about a history of
-- calls.
--
-- Date models muduo/base/Date.h and Date.cc, with natural numbers for ints and `none` for an overflow. TimeZone models
-- muduo/base/TimeZone.cc over it, with integers for times: Utc is about UTC, Transitions about the
-- transitions of a zone, which are an argument.
--
-- Not modelled: clients, the channels and servers of RPC and the rest of
-- logging, which have no file here yet, and the system calls, which the models take as
-- arguments.
pub mod Common
pub mod AsyncLogging
pub mod BoundedQueue
pub mod Buffer
pub mod Channel
pub mod Connection
pub mod Connector
pub mod Date
pub mod EventLoop
pub mod Http
pub mod Latch
pub mod LogFile
pub mod Logging
pub mod PollPoller
pub mod Poller
pub mod Rpc
pub mod Server
pub mod Sets
pub mod TimeZone
pub mod Timers
