-- ===== src/Timers/Delay.antt =====
-- `howMuchTimeFromNow`: the time for which the timerfd is set.
use muduo_pro.Common.{
  ℕ, ◌+◌, ◌-◌, ◌*◌, ◌<◌, ◌≡◌, max, arith, inl, inr, Bool-cases, ltb, ltb→lt, ltb_false→le,
}
use muduo_pro.Timers.{how_much_time_from_now}

-- The delay is the time from now until then in nanoseconds, and 100 microseconds where that is less
-- or has passed; its nanoseconds are below a second, as `timerfd_settime` wants, and it is not zero,
-- which would disarm the timer.
pub how_much_time_from_now_lem :
    (now when : ℕ)
    → ((how_much_time_from_now now when).0 * 1000000000 + (how_much_time_from_now now when).1
        ≡ max 100 (when - now) * 1000)
      × ((how_much_time_from_now now when).1 < 1000000000)
unfolding how_much_time_from_now
how_much_time_from_now_lem now when = elim (Bool-cases (ltb when (now + 100))) [
  | inl soon ↦ rw soon (omega (arith, ltb→lt _ _ soon), omega arith)
  | inr later ↦ rw later (omega (arith, ltb_false→le _ _ later), omega arith)
]
