-- ===== src/Timers/Reset.antt =====
-- `reset`: expired timers that repeat go back into the sets, the others are deleted, and the timerfd
-- is set for the first.
use muduo_pro.Common.{
  ℕ, ◌<◌, ◌≤◌, ◌≡◌, refl, sym, subst, ◌∙◌, inl, inr, true, false, false≢true, not, ◌&&◌, Option,
  none, some, List, [], ◌∷◌, ◌==◌, ==_iff, ==_refl, Bool-cases, ltb, lt→ltb, arith,
}
use muduo_pro.Sets.{Pair, has, same, same_refl, or_left, or_none}
use muduo_pro.Timers.{
  Timer, TimerQueue, update, restart, repeats, reset_each, reset, arm_for_first, reset_timerfd,
}
use muduo_pro.Timers.Shape.{Absent, update-Agrees}
use muduo_pro.Timers.Insert.{Valid, Limbo, inserted, insert_timer-Valid, insert-Absent}

Limbo-update :
    (es timers timers' : List Pair) (objects : ℕ → Option Timer) (p : ℕ) (v : Option Timer)
    → ((k : ℕ) → (k == p) ≡ false → Absent k timers → Absent k timers')
    → Absent p es
    → Limbo es timers objects
    → Limbo es timers' (update objects p v)
unfolding has
Limbo-update [] timers timers' objects p v spare absent l = tt
Limbo-update (e ∷ es) timers timers' objects p v spare absent
      ((t, alive), small, alone, out, rest) =
    (
      (t, rw other alive),
      small,
      alone,
      spare (e.1) other out,
      Limbo-update es timers timers' objects p v spare
          (λ w. (or_none (same (w, p) e) (has (w, p) es) (absent w)).1) rest,
    )
  where
    other : (e.1 == p) ≡ false
    other = elim (Bool-cases (e.1 == p)) [
      | inr different ↦ different
      | inl here ↦ absurd (
          false≢true (
            sym ((or_none (same (e.0, p) e) (has (e.0, p) es) (absent (e.0))).0)
            ∙ subst (λ k. same (e.0, k) e ≡ true) ((==_iff (e.1) p).0 here) (same_refl e)))
    ]

-- Each expired timer leaves limbo: into the sets again, or deleted.
pub reset_each-Valid :
    (es : List Pair) (now : ℕ) (q : TimerQueue)
    → Valid q
    → Limbo es q.timers q.objects
    → (q' : TimerQueue) × (reset_each es now q ≡ some q') × Valid q'
unfolding reset_each
reset_each-Valid [] now q v l = (q, refl, v)
reset_each-Valid (e ∷ es) now q v ((t, alive), small, alone, out, rest) =
    elim (Bool-cases (repeats t && not (has (e.1, t.sequence) q.canceling_timers))) [
      | inl again ↦
          let t' : Timer = restart now t in
          let q₁ : TimerQueue = record q { objects = update q.objects (e.1) (some t') } in
          let (e₂, v₂) =
            insert_timer-Valid (e.1) t' q₁ out (rw (==_refl (e.1)) refl) small
              (update-Agrees (e.1) (some t') out v) in
          let (q₃, e₃, v₃) = reset_each-Valid es now (inserted (e.1) t' q₁) v₂ (
            Limbo-update es q.timers _ q.objects (e.1) (some t')
              (λ k apart. insert-Absent (e.1) k t'.expiration q.timers apart) alone rest) in
          (q₃, rw (alive, again, e₂) e₃, v₃)
      | inr over ↦
          let q₁ : TimerQueue = record q { objects = update q.objects (e.1) none } in
          let (q₃, e₃, v₃) = reset_each-Valid es now q₁ (update-Agrees (e.1) none out v) (
            Limbo-update es q.timers q.timers q.objects (e.1) none (λ k apart absent. absent) alone
              rest) in
          (q₃, rw (alive, over) e₃, v₃)
    ]

-- The timerfd is set for a time that is no later than the first timer, if that has a valid time.
abbrev pub ArmedFor : List Pair → Option ℕ → Type 0
ArmedFor [] armed = Unit {0}
ArmedFor (e ∷ es) armed = 0 < e.0 → (a : ℕ) × (armed ≡ some a) × (a ≤ e.0)

abbrev pub Armed : TimerQueue → Type 0
Armed q = ArmedFor q.timers q.armed

pub reset-Valid :
    (es : List Pair) (now : ℕ) (q : TimerQueue)
    → Valid q
    → Limbo es q.timers q.objects
    → (q' : TimerQueue) × (reset es now q ≡ some q') × Valid q' × Armed q'
unfolding reset reset_timerfd has
reset-Valid es now q v l =
    let (q₁, e, v₁) = reset_each-Valid es now q v l in
    let (q₂, e₂, v₂, armed) = arm q₁.timers q₁ refl v₁ in (q₂, rw e e₂, v₂, armed)
  where
    arm :
        (s : List Pair) (q₁ : TimerQueue)
        → q₁.timers ≡ s
        → Valid q₁
        → (q₂ : TimerQueue) × (arm_for_first s q₁ ≡ some q₂) × Valid q₂ × Armed q₂
    arm [] q₁ first v = (q₁, refl, v, subst (λ s. ArmedFor s q₁.armed) (sym first) tt)
    arm (e ∷ s) q₁ first v =
        let listed : has (e.0, e.1) q₁.timers ≡ true =
          subst (λ s. has e s ≡ true) (sym first) (or_left _ _ (same_refl e)) in
        let (t, alive, time, small, active) = v.forward (e.0) (e.1) listed in
        elim (Bool-cases (ltb 0 t.expiration)) [
          | inl valid ↦ (
            record q₁ { armed = some t.expiration },
            rw (alive, valid) refl,
            v,
            subst (λ s. ArmedFor s (some t.expiration)) (sym first)
                (λ _. (t.expiration, refl, omega (arith, time))),
          )
          | inr invalid ↦ (
            q₁,
            rw (alive, invalid) refl,
            v,
            subst (λ s. ArmedFor s q₁.armed) (sym first)
                (λ positive. absurd (
                  false≢true
                    (sym invalid ∙ lt→ltb 0 t.expiration (omega (arith, time, positive))))),
          )
        ]
