-- ===== src/Timers.antt =====
-- muduo/net/TimerQueue.h, TimerQueue.cc, Timer.h and Timer.cc: the two sets of timers of a loop, in
-- the loop's thread. Times are microseconds. A timer is an object behind an address; `none` is a
-- failed assert or the use of an address without an object.
pub mod Shape
pub mod Insert
pub mod Remove
pub mod Expire
pub mod Reset
pub mod Read
pub mod Delay
mod Tests
use muduo_pro.Common.{
  ℕ, suc, ◌+◌, ◌-◌, ◌*◌, ◌/◌, ◌%◌, Bool, true, false, not, ◌&&◌, Option, none, some, List, [], ◌∷◌,
  ltb, ◌==◌, if◌then◌else◌, ◌>>=◌, ◌>>◌, guard, length,
}
use muduo_pro.Sets.{Pair, has, insert, erase, split_at_bound}

-- The interval is what `addTime` adds, in microseconds.
pub record Timer : Type 0 where
  pub expiration : ℕ
  pub interval : ℕ
  pub sequence : ℕ

abbrev pub repeats : Timer → Bool
repeats t = ltb 0 t.interval

-- `Timer::restart`: `Timestamp::invalid()` is the time 0.
unfoldable pub restart : ℕ → Timer → Timer
restart now t = record t { expiration = if repeats t then now + t.interval else 0 }

-- `timers` holds pairs of a time and an address, the others pairs of an address and a sequence
-- number. `objects` are the timers that live, `created` the numbers given out, `armed` the time for
-- which the timerfd was last set.
pub record TimerQueue : Type 0 where
  pub timers : List Pair
  pub active_timers : List Pair
  pub calling_expired_timers : Bool
  pub canceling_timers : List Pair
  pub objects : ℕ → Option Timer
  pub created : ℕ
  pub armed : Option ℕ

unfoldable pub new_timer_queue : TimerQueue
new_timer_queue = record {
  timers = [];
  active_timers = [];
  calling_expired_timers = false;
  canceling_timers = [];
  objects = λ p. none;
  created = 0;
  armed = none;
}

-- The objects with another value at an address.
abbrev pub update : (ℕ → Option Timer) → ℕ → Option Timer → ℕ → Option Timer
update objects p v p' = if p' == p then v else objects p'

-- `howMuchTimeFromNow`: seconds and nanoseconds, and at least 100 microseconds.
unfoldable pub how_much_time_from_now : ℕ → ℕ → ℕ × ℕ
how_much_time_from_now now when =
    let microseconds = if ltb when (now + 100) then 100 else when - now in
    (microseconds / 1000000, (microseconds % 1000000) * 1000)

unfoldable pub reset_timerfd : ℕ → TimerQueue → TimerQueue
reset_timerfd expiration q = record q { armed = some expiration }

-- Whether a timer at `when` is before all others.
abbrev pub is_earliest : ℕ → List Pair → Bool
is_earliest when [] = true
is_earliest when (entry ∷ entries) = ltb when (entry.0)

unfoldable pub insert_timer : ℕ → TimerQueue → Option (Bool × TimerQueue)
insert_timer p q = do
  guard (length q.timers == length q.active_timers)
  timer ← q.objects p
  let earliest_changed = is_earliest timer.expiration q.timers
  guard (not (has (timer.expiration, p) q.timers))
  guard (not (has (p, timer.sequence) q.active_timers))
  let q' : TimerQueue = record q {
    timers = insert (timer.expiration, p) q.timers;
    active_timers = insert (p, timer.sequence) q.active_timers;
  }
  guard (length q'.timers == length q'.active_timers)
  some (earliest_changed, q')

unfoldable pub add_timer_in_loop : ℕ → TimerQueue → Option TimerQueue
add_timer_in_loop p q = do
  timer ← q.objects p
  (earliest_changed, q') ← insert_timer p q
  some (if earliest_changed then reset_timerfd timer.expiration q' else q')

-- `p` is the address that `new` returns.
unfoldable pub add_timer : ℕ → ℕ → ℕ → TimerQueue → Option (Pair × TimerQueue)
add_timer p when interval q = do
  let sequence = suc q.created
  let timer : Timer = record { expiration = when; interval = interval; sequence = sequence }
  q' ←
      add_timer_in_loop p
        (record q { objects = update q.objects p (some timer); created = sequence })
  some ((p, sequence), q')

-- What an iterator gives after `erase(it)`: its use is undefined.
abbrev pub erased_iterator : Option ℕ
erased_iterator = none

-- The source reads `it->first` after it has erased `it`.
unfoldable pub cancel_in_loop : Pair → TimerQueue → Option TimerQueue
cancel_in_loop id q = do
  guard (length q.timers == length q.active_timers)
  if has id q.active_timers
      then (do
        timer ← q.objects (id.0)
        guard (has (timer.expiration, id.0) q.timers)
        let q' : TimerQueue = record q {
          timers = erase (timer.expiration, id.0) q.timers;
          active_timers = erase id q.active_timers;
        }
        p ← erased_iterator
        guard (length q'.timers == length q'.active_timers)
        some (record q' { objects = update q'.objects p none }))
      else (if q.calling_expired_timers
          then some (record q { canceling_timers = insert id q.canceling_timers })
          else some q)

-- The loop of `getExpired` over what has expired.
unfoldable pub erase_active : List Pair → TimerQueue → Option TimerQueue
erase_active [] q = some q
erase_active (entry ∷ entries) q = do
  timer ← q.objects (entry.1)
  guard (has (entry.1, timer.sequence) q.active_timers)
  erase_active entries
      (record q { active_timers = erase (entry.1, timer.sequence) q.active_timers })

-- `UINTPTR_MAX`.
abbrev pub last_address : ℕ
last_address = 18446744073709551615

abbrev pub is_after : ℕ → List Pair → Bool
is_after now [] = true
is_after now (entry ∷ entries) = ltb now (entry.0)

unfoldable pub get_expired : ℕ → TimerQueue → Option (List Pair × TimerQueue)
get_expired now q = do
  guard (length q.timers == length q.active_timers)
  let (expired, others) = split_at_bound (now, last_address) q.timers
  guard (is_after now others)
  q' ← erase_active expired (record q { timers = others })
  guard (length q'.timers == length q'.active_timers)
  some (expired, q')

-- The loop of `reset`.
unfoldable pub reset_each : List Pair → ℕ → TimerQueue → Option TimerQueue
reset_each [] now q = some q
reset_each (entry ∷ entries) now q = do
  timer ← q.objects (entry.1)
  q' ←
      (if repeats timer && not (has (entry.1, timer.sequence) q.canceling_timers)
        then (do
          (_, q') ←
              insert_timer (entry.1)
                (record q { objects = update q.objects (entry.1) (some (restart now timer)) })
          some q')
        else some (record q { objects = update q.objects (entry.1) none }))
  reset_each entries now q'

-- The end of `reset`: a valid time is positive.
abbrev pub arm_for_first : List Pair → TimerQueue → Option TimerQueue
arm_for_first [] q = some q
arm_for_first (entry ∷ entries) q = do
  timer ← q.objects (entry.1)
  some (if ltb 0 timer.expiration then reset_timerfd timer.expiration q else q)

unfoldable pub reset : List Pair → ℕ → TimerQueue → Option TimerQueue
reset expired now q = do q' ← reset_each expired now q; arm_for_first q'.timers q'

-- What the user's callbacks do with the queue. `add` comes with the address that `new` returns.
pub data Command : Type 0 where
  add : ℕ → ℕ → ℕ → Command
  cancel : Pair → Command

-- `new` may return an address at which no object lives.
unfoldable pub is_free : ℕ → TimerQueue → Bool
is_free p q = elim (q.objects p) [ none ↦ ltb p last_address | some t ↦ false ]

-- An addition at an address that `new` cannot return does not occur, and changes nothing.
unfoldable pub obey : List Command → TimerQueue → Option TimerQueue
obey [] q = some q
obey (add p when interval ∷ commands) q = do
  q' ← (if is_free p q then (do (id, q') ← add_timer p when interval q; some q') else some q)
  obey commands q'
obey (cancel id ∷ commands) q = do q' ← cancel_in_loop id q; obey commands q'

-- `callback` is what the callback of a timer at an address does.
module _ (callback : ℕ → Timer → List Command) where
  unfoldable pub run_each : List Pair → TimerQueue → Option TimerQueue
  run_each [] q = some q
  run_each (entry ∷ entries) q = do
    timer ← q.objects (entry.1)
    q' ← obey (callback (entry.1) timer) q
    run_each entries q'

  unfoldable pub handle_read : ℕ → TimerQueue → Option TimerQueue
  handle_read now q = do
    (expired, q₁) ← get_expired now q
    q₂ ← run_each expired (record q₁ { calling_expired_timers = true; canceling_timers = [] })
    reset expired now (record q₂ { calling_expired_timers = false })
