-- ===== src/Server/Run.antt =====
-- The server through any history.
use muduo_pro.Common.{ℕ, ◌≡◌, refl, sym, subst, ◌∙◌, some, some_injective, List, arith}
use muduo_pro.Server.{EventLoopThreadPool, TcpServer, new_server, Step, step}
use muduo_pro.Server.Names.{Fits}
use muduo_pro.Server.Lives.{Valid}
use muduo_pro.Server.Calls.{Enabled, step-Keeps}

pub data Run : TcpServer → TcpServer → Type 0 where
  stop : {s : TcpServer} → Run s s
  next :
      {s s' s'' : TcpServer} (x : Step) → Enabled x s → step x s ≡ some s' → Run s' s'' → Run s s''

keep : {s s' : TcpServer} → Run s s' → Valid s → Valid s'
keep stop v = v
keep {s} (next x en e rest) v =
    let (s₁, e₁, v₁) = step-Keeps x s en v in
    keep rest (subst Valid (some_injective (sym e₁ ∙ e)) v₁)

new_server-Valid :
    (hostport name : List ℕ) (pool : EventLoopThreadPool)
    → Fits hostport 0
    → Valid (new_server hostport name pool)
new_server-Valid hostport name pool fits = record {
  good = λ id lt. (refl, refl, refl, refl);
  unused = λ id le. refl;
  idle = λ id le. (refl, refl, refl);
  fits = λ id lt. subst (Fits hostport) (omega (arith, lt)) fits;
}

-- After any history of a server, with its loops in any order, each connection is in the map under its
-- own name from newConnection to the one call of removeConnectionInLoop on it; connectEstablished waits
-- or has been called, and once the connection is closed exactly one of removeConnectionInLoop and
-- connectDestroyed waits, or connectDestroyed has been called once. Connections are accepted while their
-- names fit 32 bytes and nextConnId_ does not overflow.
pub Run-lives :
    {hostport name : List ℕ} {pool : EventLoopThreadPool} {s : TcpServer}
    → Fits hostport 0
    → Run (new_server hostport name pool) s
    → Valid s
Run-lives {hostport} {name} {pool} fits history =
    keep history (new_server-Valid hostport name pool fits)
