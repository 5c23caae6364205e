-- ===== src/BoundedQueue/Wakeups.antt =====
-- The order and the bound of the queue, and that no wakeup is lost, whatever the threads do.
use muduo_pro.Common.{
  ℕ, suc, ◌+◌, ◌-◌, ◌≤◌, ◌<◌, ◌≡◌, refl, sym, ap, ◌∙◌, inl, inr, List, [], ◌∷◌, ◌++◌, append_assoc,
  arith, length, length-append, Bool-cases, ltb, ltb→lt, ltb_false→le, leb→le, leb_false→lt,
}
use muduo_pro.BoundedQueue.{
  BoundedQueue, new_queue, full, put, notify_not_full, notify_not_empty, take_from, take, Step,
  call_put, resume_put, notify_after_put, call_take, resume_take, spurious_take, spurious_put, step,
  run,
}

-- What was put is what was taken and then what is in the queue; the queue is within its bound; while
-- a taker sleeps there is a woken taker or a notice for every element, and while a putter sleeps a
-- woken putter for every free place.
pub record Valid {ℓ} {A : Type ℓ} (q : BoundedQueue A) : Type ℓ where
  pub order : q.given ≡ q.taken ++ q.queue
  pub bounded : length q.queue ≤ q.capacity
  pub takers : 0 < q.sleeping_takers → length q.queue ≤ q.woken_takers + q.notices
  pub putters : 0 < q.sleeping_putters → q.capacity ≤ length q.queue + q.woken_putters

module _ {ℓ} {A : Type ℓ} where
  -- `put` from a thread that was counted among the woken, or was not.
  put-Valid :
      (x : A) (q : BoundedQueue A) (woken : ℕ)
      → q.woken_putters ≤ suc woken
      → Valid q
      → Valid (put x (record q { woken_putters = woken }))
  unfolding put
  put-Valid x q woken le v = elim (Bool-cases (full q)) [
    | inl no_room ↦ rw no_room (record {
      order = v.order;
      bounded = v.bounded;
      takers = v.takers;
      putters = λ _. omega (arith, leb→le _ _ no_room);
    })
    | inr room ↦ rw room (record {
      order = ap (λ xs. xs ++ (x ∷ [])) v.order ∙ append_assoc q.taken q.queue (x ∷ []);
      bounded = omega (arith, leb_false→lt _ _ room, length-append q.queue (x ∷ []));
      takers = λ s. omega (arith, v.takers s, length-append q.queue (x ∷ []));
      putters = λ s. omega (arith, v.putters s, le, length-append q.queue (x ∷ []));
    })
  ]

  notify_not_full-Valid :
      (q : BoundedQueue A) (extra : ℕ)
      → extra ≤ 1
      → q.given ≡ q.taken ++ q.queue
      → length q.queue ≤ q.capacity
      → (0 < q.sleeping_takers → length q.queue ≤ q.woken_takers + q.notices)
      → (0 < q.sleeping_putters → q.capacity ≤ length q.queue + q.woken_putters + extra)
      → Valid (notify_not_full q)
  unfolding notify_not_full
  notify_not_full-Valid q extra le o b t p = elim (Bool-cases (ltb 0 q.sleeping_putters)) [
    | inl some_sleep ↦ rw some_sleep (record {
      order = o;
      bounded = b;
      takers = t;
      putters = λ s. omega (arith, p (ltb→lt _ _ some_sleep), le);
    })
    | inr none_sleeps ↦ rw none_sleeps (record {
      order = o;
      bounded = b;
      takers = t;
      putters = λ s. absurd (omega (arith, s, ltb_false→le _ _ none_sleeps));
    })
  ]

  notify_not_empty-Valid :
      (q : BoundedQueue A) (notices : ℕ)
      → q.notices ≤ suc notices
      → Valid q
      → Valid (notify_not_empty (record q { notices = notices }))
  unfolding notify_not_empty
  notify_not_empty-Valid q notices le v = elim (Bool-cases (ltb 0 q.sleeping_takers)) [
    | inl some_sleep ↦ rw some_sleep (record {
      order = v.order;
      bounded = v.bounded;
      putters = v.putters;
      takers = λ s. omega (arith, v.takers (ltb→lt _ _ some_sleep), le);
    })
    | inr none_sleeps ↦ rw none_sleeps (record {
      order = v.order;
      bounded = v.bounded;
      putters = v.putters;
      takers = λ s. absurd (omega (arith, s, ltb_false→le _ _ none_sleeps));
    })
  ]

  -- `take` likewise.
  take-Valid :
      (q : BoundedQueue A) (woken : ℕ)
      → q.woken_takers ≤ suc woken
      → Valid q
      → Valid (take (record q { woken_takers = woken }))
  unfolding take
  take-Valid q woken le v = by_queue q.queue v.order v.bounded v.takers v.putters
    where
      by_queue :
          (xs : List A)
          → q.given ≡ q.taken ++ xs
          → length xs ≤ q.capacity
          → (0 < q.sleeping_takers → length xs ≤ q.woken_takers + q.notices)
          → (0 < q.sleeping_putters → q.capacity ≤ length xs + q.woken_putters)
          → Valid (take_from xs (record q { queue = xs; woken_takers = woken }))
      by_queue [] o b t p = record {
        order = o;
        bounded = b;
        takers = λ _. omega arith;
        putters = p;
      }
      by_queue (x ∷ xs) o b t p =
          notify_not_full-Valid
            (record q { queue = xs; woken_takers = woken; taken = q.taken ++ (x ∷ []) }) 1
            (omega arith) (o ∙ sym (append_assoc q.taken (x ∷ []) xs)) (omega (arith, b))
            (λ s. omega (arith, t s, le)) (λ s. omega (arith, p s))

  step-Valid : (s : Step A) (q : BoundedQueue A) → Valid q → Valid (step s q)
  unfolding step
  step-Valid (call_put x) q v = put-Valid x q q.woken_putters (omega arith) v
  step-Valid (resume_put x) q v = elim (Bool-cases (ltb 0 q.woken_putters)) [
    | inl there ↦ rw there (put-Valid x q (q.woken_putters - 1) (omega arith) v)
    | inr nobody ↦ rw nobody v
  ]
  step-Valid notify_after_put q v = elim (Bool-cases (ltb 0 q.notices)) [
    | inl there ↦ rw there (notify_not_empty-Valid q (q.notices - 1) (omega arith) v)
    | inr nobody ↦ rw nobody v
  ]
  step-Valid call_take q v = take-Valid q q.woken_takers (omega arith) v
  step-Valid resume_take q v = elim (Bool-cases (ltb 0 q.woken_takers)) [
    | inl there ↦ rw there (take-Valid q (q.woken_takers - 1) (omega arith) v)
    | inr nobody ↦ rw nobody v
  ]
  step-Valid spurious_take q v = notify_not_empty-Valid q q.notices (omega arith) v
  step-Valid spurious_put q v =
      notify_not_full-Valid q 0 (omega arith) v.order v.bounded v.takers
        (λ s. omega (arith, v.putters s))

  pub new_queue-Valid : (max_size : ℕ) → Valid {A = A} (new_queue max_size)
  unfolding new_queue
  new_queue-Valid max_size = record {
    order = refl;
    bounded = omega arith;
    takers = λ s. omega (arith, s);
    putters = λ s. absurd (omega (arith, s));
  }

  -- Any steps of any threads keep the queue valid: it is within its bound, its elements come out in
  -- the order in which they went in, and no wakeup is lost: while a taker sleeps there is a woken
  -- taker or a notification to come for every element, and while a putter sleeps a woken putter for
  -- every free place.
  pub run-Valid : (ss : List (Step A)) (q : BoundedQueue A) → Valid q → Valid (run ss q)
  unfolding run
  run-Valid [] q v = v
  run-Valid (s ∷ ss) q v = run-Valid ss (step s q) (step-Valid s q v)
