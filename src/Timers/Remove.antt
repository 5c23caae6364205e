-- ===== src/Timers/Remove.antt =====
-- `cancel` of a timer that is not in the sets.
use muduo_pro.Common.{ℕ, refl, sym, ◌∙◌, inl, inr, false≢true, List, ==_refl, Bool-cases, length}
use muduo_pro.Sets.{Pair, has, insert}
use muduo_pro.Timers.{TimerQueue, cancel_in_loop}
use muduo_pro.Timers.Shape.{Absent}
use muduo_pro.Timers.Insert.{Valid, Limbo, Keeps}

pub cancel_in_loop-Keeps :
    (es : List Pair) (p s : ℕ) (q : TimerQueue)
    → Valid q
    → Limbo es q.timers q.objects
    → Absent p q.timers
    → Keeps es (cancel_in_loop (p, s) q)
unfolding cancel_in_loop
cancel_in_loop-Keeps es p s q v l absent = elim (Bool-cases (has (p, s) q.active_timers)) [
  | inl active ↦
      let (t, alive, number, listed) = v.backward p s active in
      absurd (false≢true (sym (absent t.expiration) ∙ listed))
  | inr unknown ↦ elim (Bool-cases q.calling_expired_timers) [
    | inl calling ↦ (
      record q { canceling_timers = insert (p, s) q.canceling_timers },
      rw (v.same_size, ==_refl (length q.active_timers), unknown, calling) refl,
      v,
      l,
    )
    | inr quiet ↦ (q, rw (v.same_size, ==_refl (length q.active_timers), unknown, quiet) refl, v, l)
  ]
]
