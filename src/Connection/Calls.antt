-- ===== src/Connection/Calls.antt =====
-- Each operation of a connection returns, and keeps the connection valid and its bytes in order.
use muduo_pro.Common.{
  ℕ, ◌^◌, ◌&&◌, not, ◌⊎◌, lt→ltb, ◌≡◌, refl, sym, ap, ◌∙◌, inl, inr, Bool, true, false, false≢true,
  ◌||◌, Option, none, some, List, [], ◌∷◌, ◌++◌, append-nil, length, Bool-cases, if◌then◌else◌,
}
use muduo_pro.Buffer.{Buffer, ReadResult, failed, got}
use muduo_pro.Buffer.Shape.{IsValid}
use muduo_pro.Buffer.Content.{read_fd_lem}
use muduo_pro.Channel.{is_writing, is_zero, disable_all, update, tie, remove}
use muduo_pro.Connection.{
  TcpConnection, is_disconnected, is_disconnecting, is_connected, is_connecting, WriteResult,
  Functor, send_later, shutdown_later, write_complete, high_water, send, send_in_loop,
  send_piece_in_loop, shutdown, shutdown_in_loop, queue_in_loop, handle_close, handle_read,
  connect_established, connect_destroyed, handle_error, established, closed, ConnectionState,
  disconnected, connecting, connected, disconnecting, UserCall, connection_call, close_call,
  after_read,
}
use muduo_pro.Connection.Send.{send_in_loop_lem}
use muduo_pro.Connection.Output.{Valid, accepted}
use muduo_pro.Connection.Steps.{is_writing-enable_reading}
use muduo_pro.Connection.Ops.{
  send_bytes, readable_event, destroy, fails, call_functor, run_first, CanSend, CanRun, Enabled,
  run_accepts, accepts, Steps,
}

-- An operation that leaves the stream as it was.
same_stream :
    (c c' : TcpConnection) {xs : List ℕ} {result : Option TcpConnection}
    → result ≡ some c'
    → Valid c' xs
    → c'.wire ≡ c.wire
    → Steps c xs [] result
same_stream c c' {xs} e v w =
    (c', xs, e, v, ap (λ ys. ys ++ xs) w ∙ ap (λ ys. c.wire ++ ys) (sym (append-nil xs)))

pub establish-Steps :
    {c : TcpConnection} {xs : List ℕ}
    → Valid c xs
    → is_connecting c.state ≡ true
    → Steps c xs [] (connect_established c)
unfolding connect_established established tie
establish-Steps {c} {xs} v e =
    same_stream c (established c) (rw e refl)
      (record {
        input = v.input;
        output = v.output;
        idle =
            λ _ off. v.idle (up c.state e) (sym (is_writing-enable_reading (tie c.channel)) ∙ off);
        busy = λ on. v.busy (sym (is_writing-enable_reading (tie c.channel)) ∙ on);
        down = λ d. absurd (false≢true d);
      })
      refl
  where
    up : (s : ConnectionState) → is_connecting s ≡ true → is_disconnected s ≡ false
    up disconnected e = absurd (false≢true e)
    up connecting e = refl
    up connected e = refl
    up disconnecting e = refl

closed-Valid :
    {c : TcpConnection} {xs : List ℕ} (callbacks : List UserCall)
    → Valid c xs
    → Valid (closed callbacks c) xs
unfolding closed
closed-Valid callbacks v = record {
  input = v.input;
  output = v.output;
  idle = λ up _. absurd (false≢true (sym up));
  busy = λ on. absurd (false≢true on);
  down = λ _. refl;
}

close-Steps :
    {c : TcpConnection} {xs : List ℕ}
    → Valid c xs
    → is_connected c.state || is_disconnecting c.state ≡ true
    → Steps c xs [] (handle_close c)
unfolding handle_close closed
close-Steps {c} v e =
    same_stream c (closed (connection_call false ∷ close_call ∷ []) c) (rw e refl)
      (closed-Valid _ v) refl

with_input-Valid :
    {c : TcpConnection} {xs : List ℕ} {buf : Buffer}
    → Valid c xs
    → IsValid buf
    → Valid (record c { input_buffer = buf }) xs
with_input-Valid v i = record {
  input = i;
  output = v.output;
  idle = v.idle;
  busy = v.busy;
  down = v.down;
}

with_calls-Valid :
    {c : TcpConnection} {xs : List ℕ} (calls : List UserCall)
    → Valid c xs
    → Valid (record c { calls = calls }) xs
with_calls-Valid calls v = record {
  input = v.input;
  output = v.output;
  idle = v.idle;
  busy = v.busy;
  down = v.down;
}

after_read-Steps :
    {c : TcpConnection} {xs : List ℕ} (r : ReadResult) (time : ℕ)
    → Valid c xs
    → is_connected c.state || is_disconnecting c.state ≡ true
    → Steps c xs [] (after_read r time c)
unfolding after_read handle_error
after_read-Steps (got []) time v up = close-Steps v up
after_read-Steps {c} (got (x ∷ bytes)) time v up = same_stream c _ refl (with_calls-Valid _ v) refl
after_read-Steps {c} (failed errno) time v up = same_stream c _ refl (with_calls-Valid _ v) refl

pub read-Steps :
    {c : TcpConnection} {xs : List ℕ} (r : ReadResult) (time : ℕ)
    → Valid c xs
    → Enabled (readable_event r time) c
    → Steps c xs [] (handle_read r time c)
unfolding handle_read
read-Steps {c} {xs} r time v (up, small, fits) =
    let (buf, e, h) = read_fd_lem r (v.input, refl) small fits in
    rw e (after_read-Steps r time (with_input-Valid v h.0) up)

with_queue-Valid :
    {c : TcpConnection} {xs : List ℕ} (fs : List Functor)
    → Valid c xs
    → Valid (record c { queue = fs }) xs
with_queue-Valid fs v = record {
  input = v.input;
  output = v.output;
  idle = v.idle;
  busy = v.busy;
  down = v.down;
}

with_closed-Valid :
    {c : TcpConnection} {xs : List ℕ} (closed : Bool) (fs : List Functor)
    → Valid c xs
    → Valid (record c { write_closed = closed; queue = fs }) xs
with_closed-Valid closed fs v = record {
  input = v.input;
  output = v.output;
  idle = v.idle;
  busy = v.busy;
  down = v.down;
}

pub shut-Steps :
    {c : TcpConnection} {xs : List ℕ} (in_loop : Bool)
    → Valid c xs
    → Steps c xs [] (some (shutdown in_loop c))
unfolding shutdown shutdown_in_loop queue_in_loop
shut-Steps {c} {xs} in_loop v = elim (Bool-cases (is_connected c.state)) [
  | inr other ↦ same_stream c c (rw other refl) v refl
  | inl up ↦ rw up (shut in_loop (idle c.state up v.idle))
]
  where
    idle :
        (s : ConnectionState)
        → is_connected s ≡ true
        → (is_disconnected s ≡ false → is_writing c.channel ≡ false → length xs ≡ 0)
        → is_writing c.channel ≡ false
        → length xs ≡ 0
    idle disconnected e i = absurd (false≢true e)
    idle connecting e i = absurd (false≢true e)
    idle connected e i = i refl
    idle disconnecting e i = absurd (false≢true e)

    shut :
        (in_loop : Bool)
        → (is_writing c.channel ≡ false → length xs ≡ 0)
        → Steps c xs [] (
            some (
              let c' : TcpConnection = record c { state = disconnecting } in
              if in_loop then shutdown_in_loop c' else queue_in_loop shutdown_later c'))
    shut true i =
        same_stream c _ refl
          (record {
            input = v.input;
            output = v.output;
            idle = λ _. i;
            busy = v.busy;
            down = λ d. absurd (false≢true d);
          })
          refl
    shut false i =
        same_stream c _ refl
          (record {
            input = v.input;
            output = v.output;
            idle = λ _. i;
            busy = v.busy;
            down = λ d. absurd (false≢true d);
          })
          refl

removed-Valid :
    {c : TcpConnection} {xs : List ℕ}
    → Valid c xs
    → Valid (record c { channel = record (c.channel) { polled = none } }) xs
removed-Valid v = record {
  input = v.input;
  output = v.output;
  idle = v.idle;
  busy = v.busy;
  down = v.down;
}

and_false : (a b : Bool) → b ≡ true → a && not b ≡ false
and_false true b e = rw e refl
and_false false b e = refl

-- `connectDestroyed` fails the assert of the channel, or returns.
pub destroy-Steps :
    {c : TcpConnection} {xs : List ℕ}
    → Valid c xs
    → is_connecting c.state ≡ false
    → ((fails destroy c ≡ true) × (connect_destroyed c ≡ none))
      ⊎ ((fails destroy c ≡ false) × Steps c xs [] (connect_destroyed c))
unfolding connect_destroyed closed remove disable_all update
destroy-Steps {c} {xs} v e = elim (Bool-cases (is_connected c.state)) [
  | inl up ↦ inr (
    not_closing c.state up (not (is_zero c.channel.events)),
    same_stream c _ (rw up refl) (removed-Valid (closed-Valid (connection_call false ∷ []) v)) refl,
  )
  | inr other ↦ elim (Bool-cases (is_zero c.channel.events)) [
    | inl nothing ↦ inr (
      and_false (is_disconnecting c.state) (is_zero c.channel.events) nothing,
      same_stream c (record c { channel = record (c.channel) { polled = none } })
          (rw (other, nothing) refl) (removed-Valid v) refl,
    )
    | inr awaits ↦ inl (
      rw
          (
            closing c.state other e (λ down. false≢true (sym awaits ∙ ap is_zero (v.down down))),
            awaits,
          )
          refl,
      rw (other, awaits) refl,
    )
  ]
]
  where
    not_closing :
        (s : ConnectionState) → is_connected s ≡ true → (b : Bool) → is_disconnecting s && b ≡ false
    not_closing disconnected u b = refl
    not_closing connecting u b = refl
    not_closing connected u b = refl
    not_closing disconnecting u b = absurd (false≢true u)

    closing :
        (s : ConnectionState)
        → is_connected s ≡ false
        → is_connecting s ≡ false
        → (is_disconnected s ≡ true → ⊥)
        → is_disconnecting s ≡ true
    closing disconnected o k d = absurd (d refl)
    closing connecting o k d = absurd (false≢true (sym k))
    closing connected o k d = absurd (false≢true (sym o))
    closing disconnecting o k d = refl

pub functor-Steps :
    {c : TcpConnection} {xs : List ℕ} (fs : List Functor) (r : WriteResult)
    → Valid c xs
    → CanRun fs r c
    → Steps c xs (run_accepts fs r c) (run_first fs r c)
unfolding run_first call_functor shutdown_in_loop send_piece_in_loop
functor-Steps {c} [] r v can = same_stream c c refl v refl
functor-Steps {c} (send_later bytes ∷ fs) r v (int, (small, fits)) =
    rw (lt→ltb (length bytes) (2 ^ 31) int)
      (send_in_loop_lem bytes r (with_queue-Valid fs v) small fits)
functor-Steps {c} (shutdown_later ∷ fs) r v can =
    same_stream c _ refl (with_closed-Valid _ fs v) refl
functor-Steps {c} (write_complete ∷ fs) r v can = same_stream c _ refl (with_queue-Valid fs v) refl
functor-Steps {c} (high_water n ∷ fs) r v can = same_stream c _ refl (with_queue-Valid fs v) refl

pub send-Steps :
    {c : TcpConnection} {xs : List ℕ} (in_loop : Bool) (bytes : List ℕ) (r : WriteResult)
    → Valid c xs
    → CanSend bytes r c
    → Steps c xs (accepts (send_bytes in_loop bytes r) c) (send in_loop bytes r c)
unfolding send queue_in_loop
send-Steps {c} {xs} in_loop bytes r v (small, fits) = elim (Bool-cases (is_connected c.state)) [
  | inr other ↦ rw other (same_stream c c refl v refl)
  | inl up ↦ rw up (by_thread in_loop)
]
  where
    by_thread :
        (in_loop : Bool)
        → Steps c xs
            (if in_loop then accepted bytes r c else [])
            (if in_loop then send_in_loop bytes r c else some (queue_in_loop (send_later bytes) c))
    by_thread true = send_in_loop_lem bytes r v small fits
    by_thread false = same_stream c _ refl (with_queue-Valid _ v) refl
