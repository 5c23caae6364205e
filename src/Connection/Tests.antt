-- ===== src/Connection/Tests.antt =====
-- Runs of a connection, and its theorems at concrete connections.
use muduo_pro.Common.{
  ℕ, ◌≡◌, refl, Bool, true, false, false≢true, sym, ◌⊎◌, none, length, take, leb, if◌then◌else◌,
  some, List, [], ◌∷◌, ◌++◌, arith, codes,
}
use muduo_pro.Buffer.{Buffer}
use muduo_pro.Channel.{read_event}
use muduo_pro.Connection.{
  TcpConnection, connected, WriteResult, wrote, write_failed, send_later, send, queue_in_loop,
  send_in_loop, shutdown,
}
use muduo_pro.Connection.Send.{send_in_loop_lem}
use muduo_pro.Connection.Output.{Valid, is_lost, accepted}
use muduo_pro.Connection.Shutdown.{total, handle_writes, handle_writes-shutdown}
use muduo_pro.Connection.Ops.{send_bytes, run_functor, step, accepts, fails, messages}
use muduo_pro.Connection.Calls.{functor-Steps}
use muduo_pro.Connection.Run.{Orderly, step_returns, stop, next, Run-stream}

-- "ABC" waits, with one byte to write to.
abbrev pending : Buffer
pending = record {
  buffer = 0 ∷ 0 ∷ 0 ∷ 0 ∷ 0 ∷ 0 ∷ 0 ∷ 0 ∷ 65 ∷ 66 ∷ 67 ∷ 0 ∷ [];
  reader_index = 8;
  writer_index = 11;
}

abbrev empty_buffer : Buffer
empty_buffer = record {
  buffer = 0 ∷ 0 ∷ 0 ∷ 0 ∷ 0 ∷ 0 ∷ 0 ∷ 0 ∷ [];
  reader_index = 8;
  writer_index = 8;
}

abbrev with_buffer : Bool → Buffer → TcpConnection
with_buffer writing output = record {
  state = connected;
  channel = record {
    events = record {
      pollin = true;
      pollpri = true;
      pollout = writing;
      pollerr = false;
      pollhup = false;
      pollnval = false;
      pollrdhup = false;
    };
    revents = read_event;
    polled = some read_event;
    tied = true;
    read_callback = true;
    write_callback = true;
    close_callback = true;
    error_callback = true;
  };
  input_buffer = empty_buffer;
  output_buffer = output;
  high_water_mark = 100;
  write_complete_callback = true;
  high_water_mark_callback = true;
  wire = codes "12";
  write_closed = false;
  queue = [];
  calls = [];
}

abbrev quiet : TcpConnection
quiet = with_buffer false empty_buffer

abbrev busy : TcpConnection
busy = with_buffer true pending

quiet-Valid : Valid quiet []
quiet-Valid = record {
  input = omega arith;
  output = (omega arith, refl);
  idle = λ _ _. refl;
  busy = λ on. absurd (false≢true on);
  down = λ d. absurd (false≢true d);
}

busy-Valid : Valid busy (codes "ABC")
busy-Valid = record {
  input = omega arith;
  output = (omega arith, refl);
  idle = λ _ off. absurd (false≢true (sym off));
  busy = λ on. omega arith;
  down = λ d. absurd (false≢true d);
}

send_in_loop_lem_example :
    (c' : TcpConnection) × (xs' : List ℕ) × (send_in_loop (codes "xyz") (wrote 1) quiet ≡ some c')
    × Valid c' xs'
    × (c'.wire ++ xs' ≡ codes "12" ++ ([] ++ accepted (codes "xyz") (wrote 1) quiet))
send_in_loop_lem_example =
    send_in_loop_lem (codes "xyz") (wrote 1) quiet-Valid (omega arith) (omega arith)

-- One byte goes out, then none, then the last two.
abbrev answers : List WriteResult
answers = wrote 1 ∷ write_failed 11 ∷ wrote 2 ∷ []

handle_writes-shutdown_example :
    (c' : TcpConnection) × ((shutdown true busy).write_closed ≡ false)
    × (handle_writes answers (shutdown true busy) ≡ some c')
    × (c'.wire ≡ codes "12" ++ take (total answers) (codes "ABC"))
    × (c'.write_closed ≡ (if leb (length (codes "ABC")) (total answers) then true else false))
handle_writes-shutdown_example = handle_writes-shutdown answers busy-Valid refl refl (omega arith)

step_returns_example :
    ((fails (send_bytes true (codes "de") (wrote 0)) busy ≡ true)
      × (step (send_bytes true (codes "de") (wrote 0)) busy ≡ none))
    ⊎ ((fails (send_bytes true (codes "de") (wrote 0)) busy ≡ false)
        × Orderly (send_bytes true (codes "de") (wrote 0)) busy (codes "ABC"))
step_returns_example =
    step_returns (send_bytes true (codes "de") (wrote 0)) busy-Valid (omega arith, omega arith)

-- Another thread sends "de" while "ABC" waits; then the loop takes it from its queue.
abbrev handed : TcpConnection
handed = record busy { queue = send_later (codes "de") ∷ [] }

given : step (send_bytes false (codes "de") (wrote 0)) busy ≡ some handed
unfolding step send queue_in_loop
given = refl

handed-Valid : Valid handed (codes "ABC")
handed-Valid = record {
  input = busy-Valid.input;
  output = busy-Valid.output;
  idle = busy-Valid.idle;
  busy = busy-Valid.busy;
  down = busy-Valid.down;
}

taken :
    (c' : TcpConnection) × (xs' : List ℕ) × (step (run_functor (wrote 0)) handed ≡ some c')
    × Valid c' xs'
    × (c'.wire ++ xs' ≡ codes "12" ++ (codes "ABC" ++ accepts (run_functor (wrote 0)) handed))
unfolding step
taken = functor-Steps handed.queue (wrote 0) handed-Valid (omega arith, (omega arith, omega arith))

Run-stream_example :
    (xs' : List ℕ) × Valid taken.0 xs'
    × (taken.0.wire ++ xs' ≡ codes "12" ++ (codes "ABC" ++ (codes "de" ++ [])))
    × ([] ++ (codes "de" ∷ []) ≡ (codes "de" ∷ []) ++ messages taken.0.queue)
unfolding is_lost
Run-stream_example = Run-stream busy-Valid (
    next (send_bytes false (codes "de") (wrote 0)) (omega arith, omega arith) given
      (next (run_functor (wrote 0)) (omega arith, (omega arith, omega arith)) taken.2 stop))
