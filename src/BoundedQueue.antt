-- ===== src/BoundedQueue.antt =====
-- muduo/base/BoundedBlockingQueue.h: a bounded queue between threads. The mutex makes the code
-- between two waits one step; a thread that waits on a condition sleeps until it is notified, or
-- wakes for no reason, and then runs its loop again.
pub mod Wakeups
mod Tests
use muduo_pro.Common.{
  ℕ, suc, ◌+◌, ◌-◌, Bool, true, false, List, [], ◌∷◌, ◌++◌, ltb, leb, if◌then◌else◌, length,
}

-- `sleeping` threads wait for a notification; `woken` threads have left their wait and have yet to
-- take the mutex; `notices` is how many calls of `put` have released it and not yet notified.
-- `given` and `taken` list what was put and taken so far.
pub record BoundedQueue {ℓ} (A : Type ℓ) : Type ℓ where
  pub queue : List A
  pub capacity : ℕ
  pub sleeping_takers : ℕ
  pub woken_takers : ℕ
  pub sleeping_putters : ℕ
  pub woken_putters : ℕ
  pub notices : ℕ
  pub given : List A
  pub taken : List A

module _ {ℓ} {A : Type ℓ} where
  unfoldable pub new_queue : ℕ → BoundedQueue A
  new_queue max_size = record {
    queue = [];
    capacity = max_size;
    sleeping_takers = 0;
    woken_takers = 0;
    sleeping_putters = 0;
    woken_putters = 0;
    notices = 0;
    given = [];
    taken = [];
  }

  abbrev pub full : BoundedQueue A → Bool
  full q = leb q.capacity (length q.queue)

  -- `put` with the mutex taken, up to its wait or its end; the notification comes later.
  unfoldable pub put : A → BoundedQueue A → BoundedQueue A
  put x q = if full q then record q { sleeping_putters = suc q.sleeping_putters } else record q {
    queue = q.queue ++ (x ∷ []);
    given = q.given ++ (x ∷ []);
    notices = suc q.notices;
  }

  -- `notFull_.notify()`.
  unfoldable pub notify_not_full : BoundedQueue A → BoundedQueue A
  notify_not_full q =
      if ltb 0 q.sleeping_putters
      then record q {
        sleeping_putters = q.sleeping_putters - 1;
        woken_putters = suc q.woken_putters;
      }
      else q

  -- `notEmpty_.notify()`.
  unfoldable pub notify_not_empty : BoundedQueue A → BoundedQueue A
  notify_not_empty q =
      if ltb 0 q.sleeping_takers
      then record q { sleeping_takers = q.sleeping_takers - 1; woken_takers = suc q.woken_takers }
      else q

  abbrev pub take_from : List A → BoundedQueue A → BoundedQueue A
  take_from [] q = record q { sleeping_takers = suc q.sleeping_takers }
  take_from (x ∷ xs) q = notify_not_full (record q { queue = xs; taken = q.taken ++ (x ∷ []) })

  -- `take` with the mutex taken, up to its wait or its end.
  unfoldable pub take : BoundedQueue A → BoundedQueue A
  take q = take_from q.queue q

-- What the threads do next; a step of a thread that does not exist changes nothing.
pub data Step {ℓ} (A : Type ℓ) : Type ℓ where
  call_put : A → Step A
  resume_put : A → Step A
  notify_after_put : Step A
  call_take : Step A
  resume_take : Step A
  spurious_take : Step A
  spurious_put : Step A

module _ {ℓ} {A : Type ℓ} where
  unfoldable pub step : Step A → BoundedQueue A → BoundedQueue A
  unfolding put take notify_not_full notify_not_empty
  step (call_put x) q = put x q
  step (resume_put x) q =
      if ltb 0 q.woken_putters then put x (record q { woken_putters = q.woken_putters - 1 }) else q
  step notify_after_put q =
      if ltb 0 q.notices then notify_not_empty (record q { notices = q.notices - 1 }) else q
  step call_take q = take q
  step resume_take q =
      if ltb 0 q.woken_takers then take (record q { woken_takers = q.woken_takers - 1 }) else q
  step spurious_take q = notify_not_empty q
  step spurious_put q = notify_not_full q

  unfoldable pub run : List (Step A) → BoundedQueue A → BoundedQueue A
  run [] q = q
  run (s ∷ ss) q = run ss (step s q)
