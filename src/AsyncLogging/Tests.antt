-- ===== src/AsyncLogging/Tests.antt =====
-- The log at concrete lines, with buffers of 4 bytes.
use muduo_pro.Common.{ℕ, ◌≡◌, refl, some, none, List, [], ◌∷◌, ◌++◌, arith, codes, ◌>>=◌}
use muduo_pro.Logging.{append, write_at_cur}
use muduo_pro.AsyncLogging.{
  AsyncLogging, started, writing, appends, goes_on, stops, step, append_line, begin_round, collect,
  end_round,
}
use muduo_pro.AsyncLogging.Spares.{Valid, total}
use muduo_pro.AsyncLogging.Order.{Run, stop, next, Run-log}

abbrev notice : ℕ → List ℕ
notice n = codes "Dropped"

-- "ab" and "cd" in two buffers, which the thread has taken, and "e" behind them.
abbrev busy : AsyncLogging
busy = record (started 4 notice) {
  place = writing;
  current_buffer = some (record { bytes = codes "e" ++ (0 ∷ 0 ∷ 0 ∷ []); cur = 1 });
  next_buffer = some (record { bytes = 0 ∷ 0 ∷ 0 ∷ 0 ∷ []; cur = 0 });
  new_buffer1 = none;
  new_buffer2 = none;
  buffers_to_write =
      record { bytes = codes "ab" ++ (0 ∷ 0 ∷ []); cur = 2 }
      ∷ (record { bytes = codes "cd" ++ (0 ∷ 0 ∷ []); cur = 2 } ∷ []);
}

busy_history : Run 4 notice (started 4 notice) busy (codes "abcde")
unfolding step append_line append write_at_cur begin_round collect end_round
busy_history = next (appends (codes "ab")) (omega arith) refl (
    next goes_on refl refl (
      next (appends (codes "cd")) (omega arith) refl
        (next goes_on refl refl (next (appends (codes "e")) (omega arith) refl stop))))

Run-log_example : Valid 4 notice busy × (busy.dropped ≡ 0 → total busy ≡ codes "abcde")
Run-log_example = Run-log 4 notice busy_history

-- One more round writes both buffers, and a stop then leaves "e" in its buffer.
busy_stopped :
    (do
      s ← step 4 notice stops busy
      s' ← step 4 notice goes_on s
      s'' ← step 4 notice goes_on s'
      some (s''.written))
    ≡ some (codes "abcd")
unfolding step append_line append write_at_cur begin_round collect end_round
busy_stopped = refl
