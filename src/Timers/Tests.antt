-- ===== src/Timers/Tests.antt =====
-- Runs of the timers, and their theorems at concrete queues.
use mathlib.Core.Option
use muduo_pro.Common.{
  if◌then◌else◌, ◌==◌, subst, ap, sym, some_injective, ◌∙◌, ℕ, ◌-◌, ◌*◌, ◌+◌, ◌<◌, ◌≡◌, max, refl,
  false, false≢true, not, ◌&&◌, Option, none, some, List, [], ◌∷◌, arith, leb,
}
use muduo_pro.Sets.{Pair, has, insert, erase, same, before, split_at_bound}
use muduo_pro.Timers.{
  Timer, TimerQueue, Command, add, cancel, new_timer_queue, add_timer, add_timer_in_loop,
  insert_timer, reset_timerfd, how_much_time_from_now, get_expired, erase_active, handle_read,
  run_each, obey, cancel_in_loop, reset, reset_each, restart, is_free,
}
use muduo_pro.Timers.Insert.{Valid, Limbo, add_timer-Keeps}
use muduo_pro.Timers.Expire.{get_expired_lem}
use muduo_pro.Timers.Reset.{Armed}
use muduo_pro.Timers.Read.{handle_read_lem}
use muduo_pro.Timers.Delay.{how_much_time_from_now_lem}

new_timer_queue-Valid : Valid new_timer_queue
unfolding new_timer_queue has
new_timer_queue-Valid = record {
  timers_sorted = tt;
  active_sorted = tt;
  same_size = refl;
  forward = λ when p there. absurd (false≢true there);
  backward = λ p s there. absurd (false≢true there);
}

-- A timer for 500 at address 7, every 200.
abbrev periodic : TimerQueue
periodic = record {
  timers = (500, 7) ∷ [];
  active_timers = (7, 1) ∷ [];
  calling_expired_timers = false;
  canceling_timers = [];
  objects = λ p.
      if p == 7 then some (record { expiration = 500; interval = 200; sequence = 1 }) else none;
  created = 1;
  armed = some 500;
}

add_periodic : add_timer 7 500 200 new_timer_queue ≡ some ((7, 1), periodic)
unfolding add_timer add_timer_in_loop insert_timer reset_timerfd new_timer_queue has insert same
add_periodic = refl

periodic-Valid : Valid periodic
unfolding new_timer_queue add_timer add_timer_in_loop insert_timer reset_timerfd has insert same
periodic-Valid =
    let (q, e, v, l) =
      add_timer-Keeps [] 7 500 200 new_timer_queue refl (omega arith) new_timer_queue-Valid tt in
    subst Valid (ap (λ r. r.1) (some_injective (sym e ∙ add_periodic))) v

-- The callback cancels its own timer and adds another.
abbrev own : ℕ → Timer → List Command
own p t = cancel (p, t.sequence) ∷ add 9 900 0 ∷ []

abbrev view : TimerQueue → List Pair × List Pair × Option ℕ
view q = (q.timers, q.active_timers, q.armed)

-- It runs once more; then only the other is left.
handle_read-own :
    Option.map view (handle_read own 510 periodic) ≡ some ((900, 9) ∷ [], (9, 2) ∷ [], some 900)
unfolding handle_read get_expired split_at_bound erase_active run_each obey cancel_in_loop add_timer
    add_timer_in_loop insert_timer reset_timerfd reset reset_each restart has insert erase same
    before is_free
handle_read-own = refl

handle_read_lem_example :
    (q' : TimerQueue) × (handle_read own 510 periodic ≡ some q') × Valid q' × Armed q'
handle_read_lem_example = handle_read_lem own (λ p t. (refl, tt)) 510 periodic periodic-Valid

get_expired_lem_example :
    (es : List Pair) × (q' : TimerQueue) × (get_expired 510 periodic ≡ some (es, q'))
    × Valid q'
    × Limbo es q'.timers q'.objects
    × ((when p : ℕ)
        → (has (when, p) es ≡ (has (when, p) periodic.timers && leb when 510))
          × (has (when, p) q'.timers ≡ (has (when, p) periodic.timers && not (leb when 510))))
get_expired_lem_example = get_expired_lem 510 periodic periodic-Valid

how_much_time_from_now_lem_example :
    ((how_much_time_from_now 1000000 3500000).0 * 1000000000
        + (how_much_time_from_now 1000000 3500000).1
      ≡ max 100 (3500000 - 1000000) * 1000)
    × ((how_much_time_from_now 1000000 3500000).1 < 1000000000)
how_much_time_from_now_lem_example = how_much_time_from_now_lem 1000000 3500000
