-- ===== src/Connector.antt =====
-- muduo/net/Connector.h and muduo/net/Connector.cc: the client's side of a connection before it
-- stands, with its retries. What the kernel answers is an argument; `none` is a failed assert.
pub mod Delay
pub mod Sockets
pub mod Steps
mod Tests
use muduo_pro.Common.{
  ℕ, suc, ◌*◌, ◌-◌, min, Bool, true, false, ◌||◌, Option, none, some, List, [], ◌∷◌, ◌++◌, ◌==◌,
  if◌then◌else◌, ◌>>=◌, ◌>>◌, guard,
}

pub data ConnectorState : Type 0 where
  disconnected : ConnectorState
  connecting : ConnectorState
  connected : ConnectorState

abbrev pub is_disconnected : ConnectorState → Bool
is_disconnected disconnected = true
is_disconnected _ = false

abbrev pub is_connecting : ConnectorState → Bool
is_connecting connecting = true
is_connecting _ = false

-- `channel` is the descriptor of the channel; `watched` whether the poller waits for it; `resets`
-- how often `resetChannel` waits in the loop; `timers` the delays given to `runAfter`. `open_sockets`
-- are the sockets made and not yet closed or handed to the callback, and `handed` those handed to it.
pub record Connector : Type 0 where
  pub state : ConnectorState
  pub wants_connection : Bool
  pub retry_delay_ms : ℕ
  pub channel : Option ℕ
  pub watched : Bool
  pub resets : ℕ
  pub timers : List ℕ
  pub open_sockets : List ℕ
  pub handed : List ℕ

abbrev pub max_retry_delay_ms : ℕ
max_retry_delay_ms = 30000

abbrev pub init_retry_delay_ms : ℕ
init_retry_delay_ms = 500

unfoldable pub new_connector : Connector
new_connector = record {
  state = disconnected;
  wants_connection = false;
  retry_delay_ms = init_retry_delay_ms;
  channel = none;
  watched = false;
  resets = 0;
  timers = [];
  open_sockets = [];
  handed = [];
}

-- The table of sockets without one.
unfoldable pub without_socket : ℕ → List ℕ → List ℕ
without_socket fd [] = []
without_socket fd (x ∷ xs) = if fd == x then xs else x ∷ without_socket fd xs

unfoldable pub close_socket : ℕ → Connector → Connector
close_socket fd c = record c { open_sockets = without_socket fd c.open_sockets }

unfoldable pub retry : ℕ → Connector → Connector
retry sockfd c =
    let c' : Connector = record (close_socket sockfd c) { state = disconnected } in
    if c.wants_connection
    then record c' {
      timers = c.timers ++ (c.retry_delay_ms ∷ []);
      retry_delay_ms = min (c.retry_delay_ms * 2) max_retry_delay_ms;
    }
    else c'

-- `connecting(sockfd)`: a new channel, which waits for the socket to be writable.
unfoldable pub begin_connecting : ℕ → Connector → Option Connector
begin_connecting sockfd c = elim c.channel [
  | some other ↦ none
  | none ↦ some (record c { state = connecting; channel = some sockfd; watched = true })
]

-- What `connect` does with an errno.
pub data Outcome : Type 0 where
  goes_on : Outcome
  tries_again : Outcome
  gives_up : Outcome

-- The numbers of Linux: EINPROGRESS, EINTR and EISCONN; EAGAIN, EADDRINUSE, EADDRNOTAVAIL,
-- ECONNREFUSED and ENETUNREACH.
abbrev pub outcome_of : ℕ → Outcome
outcome_of errno =
    if errno == 0 || errno == 115 || errno == 4 || errno == 106
    then goes_on
    else (if errno == 11 || errno == 98 || errno == 99 || errno == 111 || errno == 101
        then tries_again
        else gives_up)

abbrev pub act_on : Outcome → ℕ → Connector → Option Connector
act_on goes_on sockfd c = begin_connecting sockfd c
act_on tries_again sockfd c = some (retry sockfd c)
act_on gives_up sockfd c = some (close_socket sockfd c)

-- `sockfd` is the new socket, `errno` what `connect` left.
unfoldable pub connect : ℕ → ℕ → Connector → Option Connector
connect sockfd errno c =
    act_on (outcome_of errno) sockfd (record c { open_sockets = sockfd ∷ c.open_sockets })

unfoldable pub start_in_loop : ℕ → ℕ → Connector → Option Connector
start_in_loop sockfd errno c = do
  guard (is_disconnected c.state)
  if c.wants_connection then connect sockfd errno c else some c

-- In the thread of the loop, as are the next two.
unfoldable pub start : ℕ → ℕ → Connector → Option Connector
start sockfd errno c = start_in_loop sockfd errno (record c { wants_connection = true })

unfoldable pub restart : ℕ → ℕ → Connector → Option Connector
restart sockfd errno c = start_in_loop sockfd errno (record c {
  state = disconnected;
  retry_delay_ms = init_retry_delay_ms;
  wants_connection = true;
})

-- It fails where the source follows a null channel.
unfoldable pub remove_and_reset_channel : Connector → Option (ℕ × Connector)
remove_and_reset_channel c = do
  sockfd ← c.channel
  some (sockfd, record c { watched = false; resets = suc c.resets })

unfoldable pub reset_channel : Connector → Connector
reset_channel c = record c { channel = none; resets = c.resets - 1 }

unfoldable pub stop_in_loop : Connector → Option Connector
stop_in_loop c =
    if is_connecting c.state
    then (do
      (sockfd, c') ← remove_and_reset_channel (record c { state = disconnected })
      some (retry sockfd c'))
    else some c

unfoldable pub stop : Connector → Option Connector
stop c = stop_in_loop (record c { wants_connection = false })

-- The socket is connected.
unfoldable pub connection_made : ℕ → Connector → Connector
connection_made sockfd c =
    let c' : Connector = record c { state = connected } in
    if c.wants_connection
    then record c' {
      open_sockets = without_socket sockfd c.open_sockets;
      handed = c.handed ++ (sockfd ∷ []);
    }
    else close_socket sockfd c'

-- `err` is SO_ERROR of the socket, `self_connect` whether it is connected to itself.
unfoldable pub handle_write : ℕ → Bool → Connector → Option Connector
handle_write err self_connect c =
    if is_connecting c.state
    then (do
      (sockfd, c') ← remove_and_reset_channel c
      some (
          if err == 0
          then (if self_connect then retry sockfd c' else connection_made sockfd c')
          else retry sockfd c'))
    else (do guard (is_disconnected c.state); some c)

unfoldable pub handle_error : Connector → Option Connector
handle_error c = do
  guard (is_connecting c.state)
  (sockfd, c') ← remove_and_reset_channel c
  some (retry sockfd c')
