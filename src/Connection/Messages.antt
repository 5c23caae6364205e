-- ===== src/Connection/Messages.antt =====
-- The messages of other threads in the queue of the loop.
use muduo_pro.Common.{
  ℕ, ◌^◌, ◌≡◌, refl, sym, ap, subst, ◌∙◌, inl, inr, Bool, true, false, not, ◌&&◌, ◌||◌, Option,
  none, some, List, [], ◌∷◌, ◌++◌, append-nil, length, Bool-cases, if◌then◌else◌, ◌>>=◌, guard, ltb,
  leb, drop, sub_size, ◌==◌, add_size,
}
use muduo_pro.Buffer.{
  Buffer, ReadResult, failed, got, read_fd, readable_bytes, append, bytes_at, retrieve,
}
use muduo_pro.Channel.{remove, is_writing}
use muduo_pro.Connection.{
  TcpConnection, is_disconnected, is_disconnecting, is_connected, is_connecting, WriteResult, wrote,
  write_failed, Functor, send_later, shutdown_later, write_complete, high_water, queue_in_loop,
  queue_if, write_direct, with_output, append_output, buffer_rest, writes_direct, send_in_loop,
  send_piece_in_loop, send, shutdown, shutdown_in_loop, connect_established, established,
  connect_destroyed, closed, connection_call, handle_close, handle_error, after_read, handle_read,
  output_drained, handle_write, disconnecting,
}
use muduo_pro.Connection.Ops.{
  Op, establish, send_bytes, shut_down, run_functor, readable_event, writable_event, destroy, step,
  call_functor, run_first, messages, hands, run_takes, takes,
}

-- If there is a result, these messages wait in it.
abbrev Waiting : List (List ℕ) → Option TcpConnection → Type 0
Waiting ms none = Unit
Waiting ms (some c) = messages c.queue ≡ ms

Waiting-bind {ℓ} :
    {A : Type ℓ} (ms : List (List ℕ)) (o : Option A) (f : A → Option TcpConnection)
    → ((a : A) → Waiting ms (f a))
    → Waiting ms (o >>= f)
Waiting-bind ms none f h = tt
Waiting-bind ms (some a) f h = h a

messages-append : (fs gs : List Functor) → messages (fs ++ gs) ≡ messages fs ++ messages gs
messages-append [] gs = refl
messages-append (send_later bytes ∷ fs) gs = ap (λ ms. bytes ∷ ms) (messages-append fs gs)
messages-append (shutdown_later ∷ fs) gs = messages-append fs gs
messages-append (write_complete ∷ fs) gs = messages-append fs gs
messages-append (high_water n ∷ fs) gs = messages-append fs gs

-- A functor that carries no message.
queued-nothing : (fs gs : List Functor) → messages gs ≡ [] → messages (fs ++ gs) ≡ messages fs
queued-nothing fs gs e =
    messages-append fs gs ∙ ap (λ ms. messages fs ++ ms) e ∙ append-nil (messages fs)

queue_if-messages :
    (b : Bool) (f : Functor) (c : TcpConnection)
    → messages (f ∷ []) ≡ []
    → messages (queue_if b f c).queue ≡ messages c.queue
queue_if-messages true f c e = queued-nothing c.queue (f ∷ []) e
queue_if-messages false f c e = queued-nothing c.queue [] refl

append_output-Waiting :
    (bytes : List ℕ) (n : ℕ) (c : TcpConnection)
    → Waiting (messages c.queue) (append_output bytes n c)
unfolding append_output with_output
append_output-Waiting bytes n c =
    Waiting-bind (messages c.queue) (append c.output_buffer bytes)
      (λ buf. some (with_output n buf c))
      (λ buf. queue_if-messages _ (high_water (add_size (readable_bytes c.output_buffer) n)) c refl)

buffer_rest-Waiting :
    (bytes : List ℕ) (n : ℕ) (error : Bool) (c : TcpConnection)
    → Waiting (messages c.queue) (buffer_rest bytes n error c)
unfolding buffer_rest
buffer_rest-Waiting bytes n error c =
    let rest : ℕ = sub_size (length bytes) n in
    Waiting-bind (messages c.queue) (guard (leb (sub_size (length bytes) n) (length bytes)))
      (λ _.
        if not error && ltb 0 (sub_size (length bytes) n)
        then append_output (drop n bytes) (sub_size (length bytes) n) c
        else some c)
      (λ _. by_test (not error && ltb 0 (sub_size (length bytes) n)))
  where
    by_test :
        (b : Bool)
        → Waiting
            (messages c.queue)
            (if b then append_output (drop n bytes) (sub_size (length bytes) n) c else some c)
    by_test true = append_output-Waiting (drop n bytes) (sub_size (length bytes) n) c
    by_test false = refl

write_direct-messages :
    (bytes : List ℕ) (r : WriteResult) (c : TcpConnection)
    → messages (write_direct bytes r c).2.queue ≡ messages c.queue
unfolding write_direct
write_direct-messages bytes (wrote n) c =
    queue_if-messages (sub_size (length bytes) n == 0 && c.write_complete_callback) write_complete c
      refl
write_direct-messages bytes (write_failed errno) c = refl

send_in_loop-Waiting :
    (bytes : List ℕ) (r : WriteResult) (c : TcpConnection)
    → Waiting (messages c.queue) (send_in_loop bytes r c)
unfolding send_in_loop
send_in_loop-Waiting bytes r c = elim (Bool-cases (is_disconnected c.state)) [
  | inl down ↦ rw (down, send_in_loop) refl
  | inr up ↦ elim (Bool-cases (writes_direct c)) [
    | inl direct ↦
        rw (up, direct, send_in_loop)
          (subst
            (λ ms. Waiting ms (
              buffer_rest bytes (write_direct bytes r c).0 (write_direct bytes r c).1
                (write_direct bytes r c).2))
            (write_direct-messages bytes r c)
            (buffer_rest-Waiting bytes (write_direct bytes r c).0 (write_direct bytes r c).1
              (write_direct bytes r c).2))
    | inr later ↦ rw (up, later, send_in_loop) (buffer_rest-Waiting bytes 0 false c)
  ]
]

output_drained-messages : (c : TcpConnection) → messages (output_drained c).queue ≡ messages c.queue
unfolding output_drained shutdown_in_loop
output_drained-messages c = elim (Bool-cases (is_disconnecting c.state)) [
  | inl closing ↦ rw closing (queue_if-messages c.write_complete_callback write_complete c refl)
  | inr up ↦ rw up (queue_if-messages c.write_complete_callback write_complete c refl)
]

handle_write-Waiting :
    (r : WriteResult) (c : TcpConnection) → Waiting (messages c.queue) (handle_write r c)
unfolding handle_write
handle_write-Waiting (write_failed errno) c = refl
handle_write-Waiting (wrote n) c = elim (Bool-cases (is_writing c.channel && ltb 0 n)) [
  | inr nothing ↦ rw nothing refl
  | inl more ↦ rw more (
      Waiting-bind (messages c.queue)
        (bytes_at c.output_buffer.buffer c.output_buffer.reader_index n) _
        (λ bytes.
          Waiting-bind (messages c.queue) (retrieve c.output_buffer n) _
            (λ buf. drained bytes buf (readable_bytes buf == 0))))
]
  where
    drained :
        (bytes : List ℕ) (buf : Buffer) (b : Bool)
        → messages
            (let c' : TcpConnection = record c { output_buffer = buf; wire = c.wire ++ bytes } in
              if b then output_drained c' else c').queue
          ≡ messages c.queue
    drained bytes buf true =
        output_drained-messages (record c { output_buffer = buf; wire = c.wire ++ bytes })
    drained bytes buf false = refl

handle_close-Waiting : (c : TcpConnection) → Waiting (messages c.queue) (handle_close c)
unfolding handle_close closed
handle_close-Waiting c =
    Waiting-bind (messages c.queue) (guard (is_connected c.state || is_disconnecting c.state)) _
      (λ _. refl)

after_read-Waiting :
    (r : ReadResult) (time : ℕ) (c : TcpConnection)
    → Waiting (messages c.queue) (after_read r time c)
unfolding after_read handle_error
after_read-Waiting (got []) time c = handle_close-Waiting c
after_read-Waiting (got (x ∷ bytes)) time c = refl
after_read-Waiting (failed errno) time c = refl

handle_read-Waiting :
    (r : ReadResult) (time : ℕ) (c : TcpConnection)
    → Waiting (messages c.queue) (handle_read r time c)
unfolding handle_read
handle_read-Waiting r time c =
    Waiting-bind (messages c.queue) (read_fd c.input_buffer r) _
      (λ found. after_read-Waiting (found.1) time (record c { input_buffer = found.0 }))

connect_destroyed-Waiting : (c : TcpConnection) → Waiting (messages c.queue) (connect_destroyed c)
unfolding connect_destroyed closed
connect_destroyed-Waiting c = elim (Bool-cases (is_connected c.state)) [
  | inl up ↦ rw up (
      Waiting-bind (messages c.queue) (remove (closed (connection_call false ∷ []) c).channel) _
        (λ _. refl))
  | inr down ↦ rw down (Waiting-bind (messages c.queue) (remove c.channel) _ (λ _. refl))
]

connect_established-Waiting :
    (c : TcpConnection) → Waiting (messages c.queue) (connect_established c)
unfolding connect_established established
connect_established-Waiting c =
    Waiting-bind (messages c.queue) (guard (is_connecting c.state)) _ (λ _. refl)

shutdown-messages :
    (in_loop : Bool) (c : TcpConnection) → messages (shutdown in_loop c).queue ≡ messages c.queue
unfolding shutdown shutdown_in_loop queue_in_loop
shutdown-messages in_loop c = elim (Bool-cases (is_connected c.state)) [
  | inr other ↦ rw other refl
  | inl up ↦ rw up (by_thread in_loop)
]
  where
    by_thread :
        (in_loop : Bool)
        → messages
            (let c' : TcpConnection = record c { state = disconnecting } in
              if in_loop then shutdown_in_loop c' else queue_in_loop shutdown_later c').queue
          ≡ messages c.queue
    by_thread true = refl
    by_thread false = queued-nothing c.queue (shutdown_later ∷ []) refl

-- If there is a result, the messages `ms` and then `given` are `taken` and then those that wait in it.
abbrev pub Moved : List (List ℕ) → List (List ℕ) → List (List ℕ) → Option TcpConnection → Type 0
Moved ms given taken none = Unit
Moved ms given taken (some c) = ms ++ given ≡ taken ++ messages c.queue

-- What waits is moved by an operation.
abbrev pub Moves : Op → TcpConnection → Option TcpConnection → Type 0
Moves op c result = Moved (messages c.queue) (hands op c) (takes op c) result

taken_first :
    (ms taken : List (List ℕ)) (result : Option TcpConnection)
    → Waiting ms result
    → Moved (taken ++ ms) [] taken result
taken_first ms taken none w = tt
taken_first ms taken (some c) w = append-nil (taken ++ ms) ∙ ap (λ ws. taken ++ ws) (sym w)

run_first-Moved :
    (fs : List Functor) (r : WriteResult) (c : TcpConnection)
    → c.queue ≡ fs
    → Moved (messages fs) [] (run_takes fs) (run_first fs r c)
unfolding run_first call_functor shutdown_in_loop send_piece_in_loop
run_first-Moved [] r c e = sym (ap messages e)
run_first-Moved (send_later bytes ∷ fs) r c e =
    taken_first (messages fs) (bytes ∷ []) (send_piece_in_loop bytes r (record c { queue = fs })) (
      Waiting-bind (messages fs) (guard (ltb (length bytes) (2 ^ 31))) _
        (λ _. send_in_loop-Waiting bytes r (record c { queue = fs })))
run_first-Moved (shutdown_later ∷ fs) r c e = append-nil (messages fs)
run_first-Moved (write_complete ∷ fs) r c e = append-nil (messages fs)
run_first-Moved (high_water n ∷ fs) r c e = append-nil (messages fs)

-- Whatever an operation does, the messages that waited, and then that which it hands over, are that
-- which it takes to send, and then those that wait after it.
pub step-Moves : (op : Op) (c : TcpConnection) → Moves op c (step op c)
unfolding step send queue_in_loop
step-Moves establish c =
    taken_first (messages c.queue) [] (connect_established c) (connect_established-Waiting c)
step-Moves (send_bytes true bytes r) c = elim (Bool-cases (is_connected c.state)) [
  | inr other ↦ rw other (append-nil (messages c.queue))
  | inl up ↦
      rw up (
        taken_first (messages c.queue) [] (send_in_loop bytes r c) (send_in_loop-Waiting bytes r c))
]
step-Moves (send_bytes false bytes r) c = elim (Bool-cases (is_connected c.state)) [
  | inr other ↦ rw other (append-nil (messages c.queue))
  | inl up ↦ rw up (sym (messages-append c.queue (send_later bytes ∷ [])))
]
step-Moves (shut_down in_loop) c = append-nil (messages c.queue) ∙ sym (shutdown-messages in_loop c)
step-Moves (run_functor r) c = run_first-Moved c.queue r c refl
step-Moves (readable_event r time) c =
    taken_first (messages c.queue) [] (handle_read r time c) (handle_read-Waiting r time c)
step-Moves (writable_event r) c =
    taken_first (messages c.queue) [] (handle_write r c) (handle_write-Waiting r c)
step-Moves destroy c =
    taken_first (messages c.queue) [] (connect_destroyed c) (connect_destroyed-Waiting c)
