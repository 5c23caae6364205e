-- ===== src/Server/Tests.antt =====
-- A server at concrete connections.
use muduo_pro.Common.{
  ℕ, ◌≡◌, refl, true, some, List, [], ◌∷◌, arith, length, codes, decimal, decimal_onto,
}
use muduo_pro.Server.{
  EventLoopThreadPool, get_next_loop, TcpServer, new_server, add_connection, queue_in_loop, accepts,
  step, new_connection, run_in_loop, establish,
}
use muduo_pro.Server.Lives.{Valid}
use muduo_pro.Server.Run.{Run, stop, next, Run-lives}
use muduo_pro.Server.Pool.{next_loops, next_loops_lem}

abbrev pool : EventLoopThreadPool
pool = record { base_loop = 0; started = true; next = 0; loops = 1 ∷ 2 ∷ [] }

next_loops_lem_example :
    (next_loops (length pool.loops) pool ≡ some (pool.loops, pool))
    × (pool.loops ≡ [] → get_next_loop pool ≡ some (pool.base_loop, pool))
next_loops_lem_example = next_loops_lem pool refl

abbrev host : List ℕ
host = codes "127.0.0.1:80"

abbrev server : TcpServer
server = new_server host (codes "echo") pool

-- One connection, whose connectEstablished waits in loop 1.
abbrev one_connection : TcpServer
one_connection = queue_in_loop (establish 1) (add_connection 1 (record pool { next = 1 }) server)

one_connection_history : Run server one_connection
unfolding step new_connection run_in_loop get_next_loop decimal decimal_onto
one_connection_history =
    next accepts (omega arith, omega arith, (1, record pool { next = 1 }, refl)) refl stop

Run-lives_example : Valid one_connection
unfolding decimal decimal_onto
Run-lives_example = Run-lives (omega arith) one_connection_history
