-- ===== src/Latch/Tests.antt =====
-- Runs and witnesses for Latch.
use muduo_pro.Common.{◌≡◌, refl, List, [], ◌∷◌, pos}
use muduo_pro.Latch.{
  new_latch, wait, count_down, Step, call_wait, resume_wait, call_count_down, spurious_wakeup, step,
  run,
}

-- Two threads wait for two calls of countDown, one of them woken too early.
abbrev two_waiters : List Step
two_waiters =
    call_wait ∷ call_wait ∷ spurious_wakeup ∷ call_count_down ∷ resume_wait ∷ call_count_down
    ∷ resume_wait ∷ resume_wait ∷ []

two_waiters_test :
    run two_waiters (new_latch (pos 2))
    ≡ record { count = pos 0; sleeping = 0; woken = 0; released = 2 }
unfolding run step wait count_down new_latch
two_waiters_test = refl
