-- ===== src/Connector/Steps.antt =====
-- A connector through any of its operations.
use muduo_pro.Common.{ℕ, ◌≤◌, ◌≡◌, ◌⊎◌, Bool, true, false, not, ◌||◌, Option, none, some}
use muduo_pro.Connector.{
  Connector, is_disconnected, is_connecting, start_in_loop, start, restart, reset_channel, stop,
  handle_write, handle_error,
}

-- The calls of the user in the loop's thread, the functors and timers of the loop, and the events of
-- the channel. A call that makes a socket comes with it and the errno of `connect`.
pub data Op : Type 0 where
  started : ℕ → ℕ → Op
  restarted : ℕ → ℕ → Op
  timer_fired : ℕ → ℕ → Op
  stopped : Op
  reset_came : Op
  writable : ℕ → Bool → Op
  failed : Op

unfoldable pub step : Op → Connector → Option Connector
step (started fd errno) c = start fd errno c
step (restarted fd errno) c = restart fd errno c
step (timer_fired fd errno) c = start_in_loop fd errno c
step stopped c = stop c
step reset_came c = some (reset_channel c)
step (writable err self_connect) c = handle_write err self_connect c
step failed c = handle_error c

-- A call of `start` or of a timer, which no one cancels, may come in any state; one that finds the
-- connector down finds the last channel reset. `restart` comes when a connection is lost; a reset was
-- queued; an event comes from a channel that is watched.
abbrev pub Enabled : Op → Connector → Type 0
Enabled (started fd errno) c = (is_disconnected c.state ≡ false) ⊎ (c.channel ≡ none)
Enabled (restarted fd errno) c = (is_connecting c.state ≡ false) × (c.channel ≡ none)
Enabled (timer_fired fd errno) c = (is_disconnected c.state ≡ false) ⊎ (c.channel ≡ none)
Enabled stopped c = 0 ≤ 0
Enabled reset_came c = 1 ≤ c.resets
Enabled (writable err self_connect) c = is_connecting c.state || is_disconnected c.state ≡ true
Enabled failed c = is_connecting c.state ≡ true

-- The calls that fail the assert of `startInLoop`: `start`, or a timer of an earlier retry, when the
-- connector is connecting or connected.
abbrev pub fails : Op → Connector → Bool
fails (started fd errno) c = not (is_disconnected c.state)
fails (timer_fired fd errno) c = not (is_disconnected c.state)
fails _ c = false
