-- ===== src/EventLoop/Wakeups.antt =====
-- No wakeup of the loop is lost, and functors are called in the order in which they were queued.
use muduo_pro.Common.{
  ℕ, ◌-◌, ◌<◌, ◌≤◌, ◌≡◌, ◌⊎◌, refl, sym, ap, subst, ◌∙◌, inl, inr, Bool, true, false, false≢true,
  some, some_injective, List, [], ◌∷◌, ◌++◌, append_assoc, append-nil, arith, length, lt→ltb,
  Bool-cases,
}
use muduo_pro.EventLoop.{
  EventfdCalls, IsDocumented, Place, outside, at_test, polling, handling, before_swap, calling,
  Active, wakeup_channel, other_channel, Caller, loop_thread, other_thread, EventLoop, new_loop,
  wakeup, quit_by, queue_in_loop, run_in_loop, enter, poll_returns, handle_from, swap, call_from,
  next_from, Step, enters_loop, goes_on, queues, runs, quits, wakes, step,
}

abbrev pub is_looping : Place → Bool
is_looping outside = false
is_looping _ = true

-- Whether callingPendingFunctors_ is set.
abbrev pub is_calling : Place → Bool
is_calling before_swap = true
is_calling calling = true
is_calling _ = false

abbrev pub is_at_functors : Place → Bool
is_at_functors calling = true
is_at_functors _ = false

abbrev pub is_polling : Place → Bool
is_polling polling = true
is_polling _ = false

-- Whether the swap of doPendingFunctors comes before the next poll.
abbrev pub will_swap : Place → Bool
will_swap handling = true
will_swap before_swap = true
will_swap _ = false

-- Whether the thread of the loop is in a callback or a functor.
abbrev pub is_in_callback : Place → Bool
is_in_callback handling = true
is_in_callback calling = true
is_in_callback _ = false

in_handling : (p : Place) → is_in_callback p ≡ true → is_calling p ≡ false → will_swap p ≡ false → ⊥
in_handling outside a b c = false≢true a
in_handling at_test a b c = false≢true a
in_handling polling a b c = false≢true a
in_handling handling a b c = false≢true (sym c)
in_handling before_swap a b c = false≢true a
in_handling calling a b c = false≢true (sym b)

not_polling : (p : Place) → is_in_callback p ≡ true → is_polling p ≡ true → ⊥
not_polling polling a b = false≢true a
not_polling outside a b = false≢true b
not_polling at_test a b = false≢true b
not_polling handling a b = false≢true b
not_polling before_swap a b = false≢true b
not_polling calling a b = false≢true b

module _ (calls : EventfdCalls) where
  -- Poll does not wait, or another thread is about to see to that.
  abbrev pub Awake : EventLoop calls → Type 0
  Awake s = (calls.readable s.wakeup_fd ≡ true) ⊎ (0 < s.wakeups)

  -- The functors called, those swapped out and those queued are all that were queued, in order; and
  -- unless the swap comes first, poll will not wait while a functor is in the queue, nor, once it
  -- is reached, while the loop is to stop.
  pub record Valid (s : EventLoop calls) : Type 0 where
    pub order : s.queued ≡ s.called ++ (s.functors ++ s.pending_functors)
    pub looping_flag : s.looping ≡ is_looping s.place
    pub calling_flag : s.calling_pending_functors ≡ is_calling s.place
    pub spare : is_at_functors s.place ≡ false → s.functors ≡ []
    pub woken : will_swap s.place ≡ false → 0 < length s.pending_functors → Awake s
    pub stopped : is_polling s.place ≡ true → s.quit ≡ true → Awake s

  -- What may come: the thread of the loop queues or calls functors and stops the loop from callbacks
  -- only, and does not enter the loop from one.
  abbrev pub Enabled : Step → EventLoop calls → Type 0
  Enabled enters_loop s = s.place ≡ outside
  Enabled (goes_on active) s = is_looping s.place ≡ true
  Enabled (queues loop_thread cb) s = is_in_callback s.place ≡ true
  Enabled (runs loop_thread cb) s = is_in_callback s.place ≡ true
  Enabled (quits loop_thread) s = is_in_callback s.place ≡ true
  Enabled wakes s = 0 < s.wakeups
  Enabled _ s = 0 ≤ 0

  pub data Run : EventLoop calls → EventLoop calls → Type 0 where
    stop : {s : EventLoop calls} → Run s s
    next :
        {s s' s'' : EventLoop calls} (x : Step)
        → Enabled x s
        → step calls x s ≡ some s'
        → Run s' s''
        → Run s s''

  new_loop-Valid : (e : calls.Eventfd) → Valid (new_loop calls e)
  new_loop-Valid e = record {
    order = refl;
    looping_flag = refl;
    calling_flag = refl;
    spare = λ h. refl;
    woken = λ h k. absurd (omega (arith, k));
    stopped = λ h k. inl (absurd (false≢true h));
  }

  module _ (documented : IsDocumented calls) where
    queued_order :
        (cb : ℕ) (s : EventLoop calls)
        → Valid s
        → s.queued ++ (cb ∷ []) ≡ s.called ++ (s.functors ++ (s.pending_functors ++ (cb ∷ [])))
    queued_order cb s v =
        ap (λ xs. xs ++ (cb ∷ [])) v.order
        ∙ append_assoc s.called (s.functors ++ s.pending_functors) (cb ∷ [])
        ∙ ap (λ xs. s.called ++ xs) (append_assoc s.functors s.pending_functors (cb ∷ []))

    queue-Valid :
        (caller : Caller) (cb : ℕ) (s : EventLoop calls)
        → Enabled (queues caller cb) s
        → Valid s
        → Valid (queue_in_loop calls caller cb s)
    unfolding queue_in_loop
    queue-Valid other_thread cb s en v = record {
      order = queued_order cb s v;
      looping_flag = v.looping_flag;
      calling_flag = v.calling_flag;
      spare = v.spare;
      woken = λ h k. inr (omega arith);
      stopped = λ h k. inr (omega arith);
    }
    queue-Valid loop_thread cb s en v = elim (Bool-cases s.calling_pending_functors) [
      | inl flag ↦ rw flag (record {
        order = queued_order cb s v;
        looping_flag = v.looping_flag;
        calling_flag = sym flag ∙ v.calling_flag;
        spare = v.spare;
        woken = λ h k. inl (documented.written s.wakeup_fd);
        stopped = λ h k. inl (documented.written s.wakeup_fd);
      })
      | inr flag ↦ rw flag (record {
        order = queued_order cb s v;
        looping_flag = v.looping_flag;
        calling_flag = sym flag ∙ v.calling_flag;
        spare = v.spare;
        woken = λ h k. absurd (in_handling s.place en (sym v.calling_flag ∙ flag) h);
        stopped = λ h k. absurd (not_polling s.place en h);
      })
    ]

    run-Valid :
        (caller : Caller) (cb : ℕ) (s : EventLoop calls)
        → Enabled (runs caller cb) s
        → Valid s
        → Valid (run_in_loop calls caller cb s)
    unfolding run_in_loop
    run-Valid other_thread cb s en v = queue-Valid other_thread cb s en v
    run-Valid loop_thread cb s en v = record {
      order = v.order;
      looping_flag = v.looping_flag;
      calling_flag = v.calling_flag;
      spare = v.spare;
      woken = v.woken;
      stopped = v.stopped;
    }

    quit-Valid :
        (caller : Caller) (s : EventLoop calls)
        → Enabled (quits caller) s
        → Valid s
        → Valid (quit_by calls caller s)
    quit-Valid other_thread s en v = record {
      order = v.order;
      looping_flag = v.looping_flag;
      calling_flag = v.calling_flag;
      spare = v.spare;
      woken = λ h k. inr (omega arith);
      stopped = λ h k. inr (omega arith);
    }
    quit-Valid loop_thread s en v = record {
      order = v.order;
      looping_flag = v.looping_flag;
      calling_flag = v.calling_flag;
      spare = v.spare;
      woken = v.woken;
      stopped = λ h k. absurd (not_polling s.place en h);
    }

    wakes-Valid :
        (s : EventLoop calls)
        → Valid s
        → Valid (wakeup calls (record s { wakeups = s.wakeups - 1 }))
    wakes-Valid s v = record {
      order = v.order;
      looping_flag = v.looping_flag;
      calling_flag = v.calling_flag;
      spare = v.spare;
      woken = λ h k. inl (documented.written s.wakeup_fd);
      stopped = λ h k. inl (documented.written s.wakeup_fd);
    }

    handle-Valid :
        (active : List Active) (s : EventLoop calls)
        → s.place ≡ handling
        → Valid s
        → Valid (handle_from calls active s)
    handle-Valid [] s at v = record {
      order = v.order;
      looping_flag = v.looping_flag ∙ ap is_looping at;
      calling_flag = refl;
      spare = λ h. v.spare (ap is_at_functors at);
      woken = λ h k. absurd (false≢true (sym h));
      stopped = λ h k. absurd (false≢true h);
    }
    handle-Valid (wakeup_channel ∷ active) s at v = record {
      order = v.order;
      looping_flag = v.looping_flag;
      calling_flag = v.calling_flag;
      spare = v.spare;
      woken = λ h k. absurd (false≢true (sym h ∙ ap will_swap at));
      stopped = λ h k. absurd (false≢true (sym (ap is_polling at) ∙ h));
    }
    handle-Valid (other_channel ∷ active) s at v = record {
      order = v.order;
      looping_flag = v.looping_flag;
      calling_flag = v.calling_flag;
      spare = v.spare;
      woken = v.woken;
      stopped = v.stopped;
    }

    call-Valid :
        (fs : List ℕ) (s : EventLoop calls)
        → s.place ≡ calling
        → s.functors ≡ fs
        → Valid s
        → Valid (call_from calls fs s)
    call-Valid [] s at left v = record {
      order = v.order;
      looping_flag = v.looping_flag ∙ ap is_looping at;
      calling_flag = refl;
      spare = λ h. left;
      woken = λ h k. v.woken (ap will_swap at) k;
      stopped = λ h k. absurd (false≢true h);
    }
    call-Valid (f ∷ fs) s at left v = record {
      order =
          v.order
          ∙ ap (λ xs. s.called ++ (xs ++ s.pending_functors)) left
          ∙ sym (append_assoc s.called (f ∷ []) (fs ++ s.pending_functors));
      looping_flag = v.looping_flag;
      calling_flag = v.calling_flag;
      spare = λ h. absurd (false≢true (sym h ∙ ap is_at_functors at));
      woken = v.woken;
      stopped = v.stopped;
    }

    next-Valid :
        (p : Place) (active : List Active) (s : EventLoop calls)
        → s.place ≡ p
        → is_looping p ≡ true
        → Valid s
        → (s' : EventLoop calls) × (next_from calls p active s ≡ some s') × Valid s'
    next-Valid outside active s at in_loop v = absurd (false≢true in_loop)
    next-Valid at_test active s at in_loop v = elim (Bool-cases s.quit) [
      | inl over ↦ rw over (
        record s { looping = false; quit = true; place = outside },
        refl,
        record {
          order = v.order;
          looping_flag = refl;
          calling_flag = v.calling_flag ∙ ap is_calling at;
          spare = λ h. v.spare (ap is_at_functors at);
          woken = λ h k. v.woken (ap will_swap at) k;
          stopped = λ h k. absurd (false≢true h);
        },
      )
      | inr on ↦ rw on (
        record s { active_channels = []; quit = false; place = polling },
        refl,
        record {
          order = v.order;
          looping_flag = v.looping_flag ∙ ap is_looping at;
          calling_flag = v.calling_flag ∙ ap is_calling at;
          spare = λ h. v.spare (ap is_at_functors at);
          woken = λ h k. v.woken (ap will_swap at) k;
          stopped = λ h k. absurd (false≢true k);
        },
      )
    ]
    next-Valid polling active s at in_loop v = (
      poll_returns calls active s,
      refl,
      record {
        order = v.order;
        looping_flag = v.looping_flag ∙ ap is_looping at;
        calling_flag = v.calling_flag ∙ ap is_calling at;
        spare = λ h. v.spare (ap is_at_functors at);
        woken = λ h k. absurd (false≢true (sym h));
        stopped = λ h k. absurd (false≢true h);
      },
    )
    next-Valid handling active s at in_loop v =
        (handle_from calls s.active_channels s, refl, handle-Valid s.active_channels s at v)
    next-Valid before_swap active s at in_loop v = (
      swap calls s,
      refl,
      record {
        order =
            v.order
            ∙ ap (λ xs. s.called ++ xs)
                (ap (λ xs. xs ++ s.pending_functors) (v.spare (ap is_at_functors at))
                  ∙ sym (append-nil s.pending_functors));
        looping_flag = v.looping_flag ∙ ap is_looping at;
        calling_flag = v.calling_flag ∙ ap is_calling at;
        spare = λ h. absurd (false≢true (sym h));
        woken = λ h k. absurd (omega (arith, k));
        stopped = λ h k. absurd (false≢true h);
      },
    )
    next-Valid calling active s at in_loop v =
        (call_from calls s.functors s, refl, call-Valid s.functors s at refl v)

    -- A step that may come fails no assert.
    step-Valid :
        (x : Step) (s : EventLoop calls)
        → Enabled x s
        → Valid s
        → (s' : EventLoop calls) × (step calls x s ≡ some s') × Valid s'
    unfolding step enter
    step-Valid enters_loop s en v = rw (v.looping_flag ∙ ap is_looping en) (
      record s { looping = true; quit = false; place = at_test },
      refl,
      record {
        order = v.order;
        looping_flag = refl;
        calling_flag = v.calling_flag ∙ ap is_calling en;
        spare = λ h. v.spare (ap is_at_functors en);
        woken = λ h k. v.woken (ap will_swap en) k;
        stopped = λ h k. absurd (false≢true h);
      },
    )
    step-Valid (goes_on active) s en v = next-Valid s.place active s refl en v
    step-Valid (queues caller cb) s en v =
        (queue_in_loop calls caller cb s, refl, queue-Valid caller cb s en v)
    step-Valid (runs caller cb) s en v =
        (run_in_loop calls caller cb s, refl, run-Valid caller cb s en v)
    step-Valid (quits caller) s en v = (quit_by calls caller s, refl, quit-Valid caller s en v)
    step-Valid wakes s en v =
        rw (lt→ltb 0 s.wakeups en)
          (wakeup calls (record s { wakeups = s.wakeups - 1 }), refl, wakes-Valid s v)

    -- From a new loop, whatever its thread and others do, the functors that were called, those swapped
    -- out and those queued are all that were queued, in the order of the calls of queueInLoop. While
    -- the loop polls or is about to, and a functor is queued, the eventfd is readable or another thread
    -- is about to write to it, so that poll does not wait; likewise in poll once the loop is to stop.
    -- This is with an eventfd that behaves as documented, and if the thread of the loop calls
    -- queueInLoop, runInLoop and quit from callbacks and functors only.
    pub Run-Valid : {e : calls.Eventfd} {s : EventLoop calls} → Run (new_loop calls e) s → Valid s
    Run-Valid {e} history = keep history (new_loop-Valid e)
      where
        keep : {s s' : EventLoop calls} → Run s s' → Valid s → Valid s'
        keep stop v = v
        keep {s} (next x en e rest) v =
            let (s₁, e₁, v₁) = step-Valid x s en v in
            keep rest (subst Valid (some_injective (sym e₁ ∙ e)) v₁)
