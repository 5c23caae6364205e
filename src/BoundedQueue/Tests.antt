-- ===== src/BoundedQueue/Tests.antt =====
-- A run of two threads, and the theorem at it.
use muduo_pro.Common.{ℕ, ◌≡◌, refl, List, [], ◌∷◌}
use muduo_pro.BoundedQueue.{
  new_queue, put, take, notify_not_full, notify_not_empty, Step, call_put, resume_put,
  notify_after_put, call_take, resume_take, step, run,
}
use muduo_pro.BoundedQueue.Wakeups.{Valid, run-Valid, new_queue-Valid}

-- One place: the second of two elements waits until the first is taken.
abbrev steps : List (Step ℕ)
steps =
    call_take
    ∷ call_put 7
    ∷ call_put 8
    ∷ notify_after_put
    ∷ resume_take
    ∷ resume_put 8
    ∷ call_take
    ∷ []

run_taken : (run steps (new_queue 1)).taken ≡ 7 ∷ 8 ∷ []
unfolding run step put take notify_not_full notify_not_empty new_queue
run_taken = refl

run-Valid_example : Valid (run steps (new_queue 1))
run-Valid_example = run-Valid steps (new_queue 1) (new_queue-Valid 1)
