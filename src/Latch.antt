-- ===== src/Latch.antt =====
-- muduo/base/CountDownLatch.h and CountDownLatch.cc: threads that wait for a count to reach 0. The
-- code between two waits is one step, under the mutex.
pub mod Waits
mod Tests
use muduo_pro.Common.{
  ℕ, zero, suc, ◌+◌, ◌-◌, Bool, true, false, List, [], ◌∷◌, ltb, if◌then◌else◌, ℤ, pos, negsuc,
}

-- `sleeping` threads wait for a notification, `woken` ones have left their wait and have yet to take
-- the mutex, and `released` ones have returned from wait.
pub record Latch : Type 0 where
  pub count : ℤ
  pub sleeping : ℕ
  pub woken : ℕ
  pub released : ℕ

unfoldable pub new_latch : ℤ → Latch
new_latch count = record { count = count; sleeping = 0; woken = 0; released = 0 }

abbrev pub is_positive : ℤ → Bool
is_positive (pos zero) = false
is_positive (pos (suc n)) = true
is_positive (negsuc n) = false

-- The loop of `wait` with the mutex taken, up to its next wait or its end.
unfoldable pub wait : Latch → Latch
wait l =
    if is_positive l.count
    then record l { sleeping = suc l.sleeping }
    else record l { released = suc l.released }

-- `condition_.notifyAll()`.
abbrev pub notify_all : Latch → Latch
notify_all l = record l { sleeping = 0; woken = l.woken + l.sleeping }

-- `--count_` and what follows.
abbrev pub count_down_from : ℤ → Latch → Latch
count_down_from (pos zero) l = record l { count = negsuc 0 }
count_down_from (pos (suc zero)) l = notify_all (record l { count = pos 0 })
count_down_from (pos (suc (suc n))) l = record l { count = pos (suc n) }
count_down_from (negsuc n) l = record l { count = negsuc (suc n) }

unfoldable pub count_down : Latch → Latch
count_down l = count_down_from l.count l

-- What the threads do next; a step of a thread that does not exist changes nothing.
pub data Step : Type 0 where
  call_wait : Step
  resume_wait : Step
  call_count_down : Step
  spurious_wakeup : Step

unfoldable pub step : Step → Latch → Latch
step call_wait l = wait l
step resume_wait l = if ltb 0 l.woken then wait (record l { woken = l.woken - 1 }) else l
step call_count_down l = count_down l
step spurious_wakeup l =
    if ltb 0 l.sleeping then record l { sleeping = l.sleeping - 1; woken = suc l.woken } else l

unfoldable pub run : List Step → Latch → Latch
run [] l = l
run (s ∷ rest) l = run rest (step s l)
