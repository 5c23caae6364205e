-- ===== src/Server.antt =====
-- muduo/net/TcpServer.h and TcpServer.cc, with the choice of a loop in EventLoopThreadPool.h and
-- EventLoopThreadPool.cc: connections by name from the call of newConnection to connectDestroyed.
-- `none` is a failed assert, or a step that cannot come.
pub mod Pool
pub mod Names
pub mod Lives
pub mod Calls
pub mod Run
mod Tests
use muduo_pro.Common.{
  ℕ, zero, suc, ◌+◌, ◌-◌, ◌^◌, Bool, true, false, not, Option, none, some, List, [], ◌∷◌, ◌++◌, ltb,
  leb, ◌==◌, if◌then◌else◌, ◌>>=◌, ◌>>◌, guard, length, take, get_elem?, codes, decimal, bytes_eq,
}

-- Loops are numbers.
pub record EventLoopThreadPool : Type 0 where
  pub base_loop : ℕ
  pub started : Bool
  pub next : ℕ
  pub loops : List ℕ

-- `start`, where the threads come with these loops.
unfoldable pub start : List ℕ → EventLoopThreadPool → Option EventLoopThreadPool
start loops p = do
  guard (not p.started)
  some (record p { started = true; loops = p.loops ++ loops })

abbrev pub next_index : ℕ → ℕ → ℕ
next_index n size = if leb size (suc n) then 0 else suc n

unfoldable pub get_next_loop : EventLoopThreadPool → Option (ℕ × EventLoopThreadPool)
get_next_loop p =
    if ltb 0 (length p.loops)
    then (do
      loop ← get_elem? p.loops p.next
      some (loop, record p { next = next_index p.next (length p.loops) }))
    else some (p.base_loop, p)

pub data ConnState : Type 0 where
  connecting : ConnState
  connected : ConnState
  disconnected : ConnState

-- A TcpConnection, and how often connectDestroyed has been called on it.
pub record Conn : Type 0 where
  pub loop : ℕ
  pub state : ConnState
  pub destroyed : ℕ

-- What is queued in loops, by the number of the connection: connectEstablished and connectDestroyed in
-- its own loop, removeConnectionInLoop in that of the server.
pub data Functor : Type 0 where
  establish : ℕ → Functor
  remove : ℕ → Functor
  destroy : ℕ → Functor

abbrev pub same : Functor → Functor → Bool
same (establish i) (establish j) = i == j
same (remove i) (remove j) = i == j
same (destroy i) (destroy j) = i == j
same _ _ = false

-- The connection with number `id` is `objects id`; `connections` is the map from names to them.
-- `pending` counts the functors that wait; a loop may take any that waits, which allows the order in
-- which it does.
pub record TcpServer : Type 0 where
  pub hostport : List ℕ
  pub name : List ℕ
  pub pool : EventLoopThreadPool
  pub next_conn_id : ℕ
  pub connections : List ℕ → Option ℕ
  pub objects : ℕ → Option Conn
  pub pending : Functor → ℕ

-- `snprintf` into 32 bytes, one of them for the NUL; `id` is an int that is not negative.
abbrev pub conn_suffix : List ℕ → ℕ → List ℕ
conn_suffix hostport id = take 31 (codes ":" ++ (hostport ++ (codes "#" ++ decimal id)))

abbrev pub conn_name : TcpServer → ℕ → List ℕ
conn_name s id = s.name ++ conn_suffix s.hostport id

abbrev pub put : List ℕ → Option ℕ → (List ℕ → Option ℕ) → List ℕ → Option ℕ
put k v m j = if bytes_eq j k then v else m j

abbrev pub set_object : ℕ → Conn → (ℕ → Option Conn) → ℕ → Option Conn
set_object id c objects i = if i == id then some c else objects i

abbrev pub one_more : Functor → (Functor → ℕ) → Functor → ℕ
one_more f pending g = if same g f then suc (pending g) else pending g

abbrev pub one_less : Functor → (Functor → ℕ) → Functor → ℕ
one_less f pending g = if same g f then pending g - 1 else pending g

abbrev pub queue_in_loop : Functor → TcpServer → TcpServer
queue_in_loop f s = record s { pending = one_more f s.pending }

abbrev pub is_connecting : ConnState → Bool
is_connecting connecting = true
is_connecting _ = false

abbrev pub is_connected : ConnState → Bool
is_connected connected = true
is_connected _ = false

abbrev pub is_some : Option ℕ → Bool
is_some none = false
is_some (some i) = true

-- The part of connectEstablished that the server depends on.
unfoldable pub connect_established : ℕ → TcpServer → Option TcpServer
connect_established id s = do
  c ← s.objects id
  guard (is_connecting c.state)
  some (record s { objects = set_object id (record c { state = connected }) s.objects })

-- And of connectDestroyed.
unfoldable pub connect_destroyed : ℕ → TcpServer → Option TcpServer
connect_destroyed id s = do
  c ← s.objects id
  some (record s {
    objects =
        set_object id
          (record c {
            state = if is_connected c.state then disconnected else c.state;
            destroyed = suc c.destroyed;
          })
          s.objects;
  })

unfoldable pub remove_connection_in_loop : ℕ → TcpServer → Option TcpServer
remove_connection_in_loop id s = do
  guard (is_some (s.connections (conn_name s id)))
  some (
      queue_in_loop (destroy id)
        (record s { connections = put (conn_name s id) none s.connections }))

-- `runInLoop`: at once in the loop's own thread.
unfoldable pub run_in_loop :
    Bool → (TcpServer → Option TcpServer) → Functor → TcpServer → Option TcpServer
run_in_loop in_loop_thread call f s = if in_loop_thread then call s else some (queue_in_loop f s)

-- A server before its first connection.
abbrev pub new_server : List ℕ → List ℕ → EventLoopThreadPool → TcpServer
new_server hostport name pool = record {
  hostport = hostport;
  name = name;
  pool = pool;
  next_conn_id = 1;
  connections = λ k. none;
  objects = λ id. none;
  pending = λ f. 0;
}

-- The connection made, and stored under its name.
abbrev pub add_connection : ℕ → EventLoopThreadPool → TcpServer → TcpServer
add_connection io_loop pool s = record s {
  pool = pool;
  next_conn_id = suc s.next_conn_id;
  objects =
      set_object s.next_conn_id (record { loop = io_loop; state = connecting; destroyed = 0 })
        s.objects;
  connections = put (conn_name s s.next_conn_id) (some s.next_conn_id) s.connections;
}

-- nextConnId_ is an int: where it would overflow the result is `none`.
unfoldable pub new_connection : TcpServer → Option TcpServer
unfolding run_in_loop
new_connection s = do
  guard (ltb (suc s.next_conn_id) (2 ^ 31))
  (io_loop, pool) ← get_next_loop s.pool
  run_in_loop (io_loop == s.pool.base_loop) (connect_established s.next_conn_id)
      (establish s.next_conn_id) (add_connection io_loop pool s)

-- handleClose of a connection, which calls removeConnection; `connected` stands for kDisconnecting too.
unfoldable pub close : ℕ → TcpServer → Option TcpServer
unfolding run_in_loop
close id s = do
  c ← s.objects id
  guard (is_connected c.state)
  run_in_loop (c.loop == s.pool.base_loop) (remove_connection_in_loop id) (remove id)
      (record s { objects = set_object id (record c { state = disconnected }) s.objects })

abbrev pub call : Functor → TcpServer → Option TcpServer
call (establish id) = connect_established id
call (remove id) = remove_connection_in_loop id
call (destroy id) = connect_destroyed id

pub data Step : Type 0 where
  accepts : Step
  closes : ℕ → Step
  calls : Functor → Step

unfoldable pub step : Step → TcpServer → Option TcpServer
step accepts s = new_connection s
step (closes id) s = close id s
step (calls f) s = do
  guard (ltb 0 (s.pending f))
  call f (record s { pending = one_less f s.pending })
