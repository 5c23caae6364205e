-- ===== src/EventLoop/Tests.antt =====
-- Runs of the loop with a counter as its eventfd, and its theorems at concrete states.
use muduo_pro.Common.{
  ℕ, suc, ◌<◌, ◌≡◌, refl, inl, true, some, [], ◌∷◌, ◌++◌, arith, length, ltb, lt→ltb,
}
use muduo_pro.EventLoop.{
  EventfdCalls, IsDocumented, at_test, polling, wakeup_channel, other_thread, EventLoop, new_loop,
  enters_loop, goes_on, queues, wakes, step, run, queue_in_loop, run_in_loop, enter,
}
use muduo_pro.EventLoop.Wakeups.{Valid, Run, stop, next, Run-Valid}
use muduo_pro.EventLoop.Turn.{turn_steps, turn_steps_lem}

abbrev counter : EventfdCalls
counter = record { Eventfd = ℕ; write = λ n. suc n; read = λ n. 0; readable = λ n. ltb 0 n }

counter-IsDocumented : IsDocumented counter
counter-IsDocumented = record { written = λ n. lt→ltb 0 (suc n) (omega arith) }

-- In poll, with functor 7 queued by another thread, which has written to the eventfd.
abbrev woken_loop : EventLoop counter
woken_loop = record (new_loop counter 1) {
  place = polling;
  looping = true;
  pending_functors = 7 ∷ [];
  queued = 7 ∷ [];
}

woken_history : Run counter (new_loop counter 0) woken_loop
unfolding step queue_in_loop run_in_loop enter
woken_history = next enters_loop refl refl (
    next (goes_on []) refl refl
      (next (queues other_thread 7) (omega arith) refl (next wakes (omega arith) refl stop)))

Run-Valid_example : Valid counter woken_loop
Run-Valid_example = Run-Valid counter counter-IsDocumented woken_history

woken_loop-Valid : Valid counter woken_loop
woken_loop-Valid = record {
  order = refl;
  looping_flag = refl;
  calling_flag = refl;
  spare = λ h. refl;
  woken = λ h k. inl refl;
  stopped = λ h k. inl refl;
}

turn_steps_lem_example :
    (0 < length woken_loop.pending_functors → counter.readable woken_loop.wakeup_fd ≡ true)
    × (s' : EventLoop counter) × (run counter
          (turn_steps counter (wakeup_channel ∷ []) woken_loop)
          woken_loop
        ≡ some s')
    × (s'.place ≡ at_test)
    × (s'.called ≡ woken_loop.called ++ woken_loop.pending_functors)
    × (s'.pending_functors ≡ [])
    × (s'.iteration ≡ suc woken_loop.iteration)
turn_steps_lem_example =
    turn_steps_lem counter (wakeup_channel ∷ []) woken_loop woken_loop-Valid refl refl
