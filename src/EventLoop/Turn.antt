-- ===== src/EventLoop/Turn.antt =====
-- One turn of the loop.
use muduo_pro.Common.{
  ℕ, suc, ◌<◌, ◌≡◌, ◌⊎◌, refl, sym, ap, ◌∙◌, inl, inr, true, some, List, [], ◌∷◌, ◌++◌,
  append_assoc, append-nil, arith, length, ◌>>=◌,
}
use muduo_pro.EventLoop.{
  EventfdCalls, Place, polling, handling, before_swap, calling, at_test, Active, wakeup_channel,
  other_channel, EventLoop, handle_from, swap, call_from, poll_returns, next_from, Step, goes_on,
  step, run,
}
use muduo_pro.EventLoop.Wakeups.{Valid, will_swap}

-- One step for each element, and one that finds the end.
abbrev pub one_each {ℓ} : {A : Type ℓ} → List A → List Step
one_each [] = goes_on [] ∷ []
one_each (x ∷ xs) = goes_on [] ∷ one_each xs

module _ (calls : EventfdCalls) where
  -- The thread of the loop from poll to the next test, if nobody queues anything meanwhile.
  abbrev pub turn_steps : List Active → EventLoop calls → List Step
  turn_steps active s =
      goes_on active ∷ (one_each active ++ (goes_on [] ∷ one_each s.pending_functors))

  run_step :
      (p : Place) (active : List Active) (xs : List Step) (s s' : EventLoop calls)
      → s.place ≡ p
      → next_from calls p active s ≡ some s'
      → run calls (goes_on active ∷ xs) s ≡ run calls xs s'
  unfolding run step
  run_step p active xs s s' at e =
      ap (λ q. next_from calls q active s >>= run calls xs) at
      ∙ ap (λ found. found >>= run calls xs) e

  handle_all :
      (active : List Active) (xs : List Step) (s : EventLoop calls)
      → s.place ≡ handling
      → s.active_channels ≡ active
      → (s' : EventLoop calls) × (run calls (one_each active ++ xs) s ≡ run calls xs s')
        × (s'.place ≡ before_swap)
        × (s'.called ≡ s.called)
        × (s'.pending_functors ≡ s.pending_functors)
        × (s'.iteration ≡ s.iteration)
  handle_all [] xs s at left = (
    handle_from calls [] s,
    run_step handling [] xs s (handle_from calls [] s) at
        (ap (λ cs. some (handle_from calls cs s)) left),
    refl,
    refl,
    refl,
    refl,
  )
  handle_all (wakeup_channel ∷ active) xs s at left =
      let s₁ : EventLoop calls = handle_from calls (wakeup_channel ∷ active) s in
      let (s₂, e, p, c, q, i) = handle_all active xs s₁ at refl in
      (
        s₂,
        run_step handling [] (one_each active ++ xs) s s₁ at
              (ap (λ cs. some (handle_from calls cs s)) left)
            ∙ e,
        p,
        c,
        q,
        i,
      )
  handle_all (other_channel ∷ active) xs s at left =
      let s₁ : EventLoop calls = handle_from calls (other_channel ∷ active) s in
      let (s₂, e, p, c, q, i) = handle_all active xs s₁ at refl in
      (
        s₂,
        run_step handling [] (one_each active ++ xs) s s₁ at
              (ap (λ cs. some (handle_from calls cs s)) left)
            ∙ e,
        p,
        c,
        q,
        i,
      )

  call_all :
      (fs : List ℕ) (s : EventLoop calls)
      → s.place ≡ calling
      → s.functors ≡ fs
      → (s' : EventLoop calls) × (run calls (one_each fs) s ≡ some s')
        × (s'.place ≡ at_test)
        × (s'.called ≡ s.called ++ fs)
        × (s'.pending_functors ≡ s.pending_functors)
        × (s'.iteration ≡ s.iteration)
  unfolding run
  call_all [] s at left = (
    call_from calls [] s,
    run_step calling [] [] s (call_from calls [] s) at
        (ap (λ fs. some (call_from calls fs s)) left),
    refl,
    sym (append-nil s.called),
    refl,
    refl,
  )
  call_all (f ∷ fs) s at left =
      let s₁ : EventLoop calls = call_from calls (f ∷ fs) s in
      let (s₂, e, p, c, q, i) = call_all fs s₁ at refl in
      (
        s₂,
        run_step calling [] (one_each fs) s s₁ at (ap (λ gs. some (call_from calls gs s)) left) ∙ e,
        p,
        c ∙ append_assoc s.called (f ∷ []) fs,
        q,
        i,
      )

  -- If a functor waits while the loop is in poll and no other thread is at work on it, poll does not
  -- wait; and once poll returns, with any channels, the thread of the loop handles them and calls all
  -- functors that wait, once and in order, and comes to the test of its `while`. This is for any
  -- loop that is valid, if nobody queues functors meanwhile.
  pub turn_steps_lem :
      (active : List Active) (s : EventLoop calls)
      → Valid calls s
      → s.place ≡ polling
      → s.wakeups ≡ 0
      → (0 < length s.pending_functors → calls.readable s.wakeup_fd ≡ true)
        × (s' : EventLoop calls) × (run calls (turn_steps active s) s ≡ some s')
        × (s'.place ≡ at_test)
        × (s'.called ≡ s.called ++ s.pending_functors)
        × (s'.pending_functors ≡ [])
        × (s'.iteration ≡ suc s.iteration)
  turn_steps_lem active s v at alone =
      let s₁ : EventLoop calls = poll_returns calls active s in
      let (s₂, e₂, p₂, c₂, q₂, i₂) =
        handle_all active (goes_on [] ∷ one_each s.pending_functors) s₁ refl refl in
      let (s₃, e₃, p₃, c₃, q₃, i₃) = call_all s.pending_functors (swap calls s₂) refl q₂ in
      (
        λ waits. ready (v.woken (ap will_swap at) waits),
        s₃,
        run_step polling active (one_each active ++ (goes_on [] ∷ one_each s.pending_functors)) s s₁
              at refl
            ∙ e₂
            ∙ run_step before_swap [] (one_each s.pending_functors) s₂ (swap calls s₂) p₂ refl
            ∙ e₃,
        p₃,
        c₃ ∙ ap (λ xs. xs ++ s.pending_functors) c₂,
        q₃,
        i₃ ∙ i₂,
      )
    where
      ready :
          (calls.readable s.wakeup_fd ≡ true) ⊎ (0 < s.wakeups) → calls.readable s.wakeup_fd ≡ true
      ready (inl r) = r
      ready (inr w) = absurd (omega (arith, w, alone))
