-- ===== src/Connector/Delay.antt =====
-- The delays between the retries of a connector.
use muduo_pro.Common.{
  ℕ, ◌*◌, ◌≡◌, refl, sym, ◌∙◌, min, true, List, [], ◌∷◌, ◌++◌, append_assoc, append-nil, arith,
}
use muduo_pro.Connector.{Connector, retry, close_socket, max_retry_delay_ms}

-- Failures one after the other, of the sockets `fds`.
unfoldable pub retries : List ℕ → Connector → Connector
retries [] c = c
retries (fd ∷ fds) c = retries fds (retry fd c)

-- Twice the delay before, from `delay` on, and never more than the greatest.
unfoldable pub back_off : List ℕ → ℕ → List ℕ
back_off [] delay = []
back_off (fd ∷ fds) delay = min delay max_retry_delay_ms ∷ back_off fds (2 * delay)

-- A connector that wants a connection waits, after failures one after the other, for delays that
-- double each time up to the greatest.
pub retries-back_off :
    (fds : List ℕ) (delay : ℕ) (c : Connector)
    → c.wants_connection ≡ true
    → c.retry_delay_ms ≡ min delay max_retry_delay_ms
    → (retries fds c).timers ≡ c.timers ++ back_off fds delay
unfolding retries back_off retry close_socket
retries-back_off [] delay c wants e = sym (append-nil c.timers)
retries-back_off (fd ∷ fds) delay c wants e =
    retries-back_off fds (2 * delay) (retry fd c) (rw wants refl)
      (rw wants (double c.retry_delay_ms e))
    ∙ rw (wants, e)
        (append_assoc c.timers (min delay max_retry_delay_ms ∷ []) (back_off fds (2 * delay)))
  where
    double :
        (d : ℕ)
        → d ≡ min delay max_retry_delay_ms
        → min (d * 2) max_retry_delay_ms ≡ min (2 * delay) max_retry_delay_ms
    double d e = omega (arith, e)
