-- ===== src/Timers/Insert.antt =====
-- `insert` and `addTimer`.
use muduo_pro.Common.{
  ℕ, suc, ◌<◌, ◌≡◌, refl, sym, ap, ◌∙◌, inl, inr, Bool, true, false, ◌&&◌, ◌||◌, Option, none, some,
  List, [], ◌∷◌, ◌==◌, ==_iff, ==_refl, Bool-cases, length,
}
use muduo_pro.Sets.{Pair, has, insert, same, has-insert}
use muduo_pro.Timers.{
  Timer, TimerQueue, update, last_address, is_earliest, insert_timer, add_timer_in_loop, add_timer,
  reset_timerfd,
}
use muduo_pro.Timers.Shape.{Absent, Agrees, update-Agrees, insert-Agrees, Absent-active}

abbrev pub Valid : TimerQueue → Type 0
Valid q = Agrees q.timers q.active_timers q.objects

-- Expired timers whose callbacks run: they live, and are at different addresses, none of them in the
-- sets.
abbrev pub Limbo : List Pair → List Pair → (ℕ → Option Timer) → Type 0
Limbo [] timers objects = Unit {0}
Limbo (e ∷ es) timers objects =
    ((t : Timer) × (objects (e.1) ≡ some t))
    × (e.1 < last_address)
    × Absent (e.1) es
    × Absent (e.1) timers
    × Limbo es timers objects

-- A change of the sets and the objects that spares such timers.
pub Limbo-change :
    (es : List Pair) (timers timers' : List Pair) {objects objects' : ℕ → Option Timer}
    → ((p : ℕ) (t : Timer)
        → objects p ≡ some t
        → Absent p timers
        → (objects' p ≡ some t) × Absent p timers')
    → Limbo es timers objects
    → Limbo es timers' objects'
Limbo-change [] ts ts' change l = tt
Limbo-change (e ∷ es) ts ts' change ((t, alive), small, alone, absent, rest) =
    let (alive', absent') = change (e.1) t alive absent in
    ((t, alive'), small, alone, absent', Limbo-change es ts ts' change rest)

abbrev pub inserted : ℕ → Timer → TimerQueue → TimerQueue
inserted p t q = record q {
  timers = insert (t.expiration, p) q.timers;
  active_timers = insert (p, t.sequence) q.active_timers;
}

-- `insert` of a living timer that is in no set fails no assert.
pub insert_timer-Valid :
    (p : ℕ) (t : Timer) (q : TimerQueue)
    → Absent p q.timers
    → q.objects p ≡ some t
    → p < last_address
    → Valid q
    → (insert_timer p q ≡ some (is_earliest t.expiration q.timers, inserted p t q))
      × Valid (inserted p t q)
unfolding insert_timer
insert_timer-Valid p t q absent alive small v =
    let v' = insert-Agrees p t absent alive small v in
    (
      rw
          (
            v.same_size,
            ==_refl (length q.active_timers),
            alive,
            absent t.expiration,
            Absent-active p t.sequence absent v,
            v'.same_size,
            ==_refl (length (insert (p, t.sequence) q.active_timers)),
          )
          refl,
      v',
    )

-- A dead address is in no set.
pub dead-Absent : (p : ℕ) (q : TimerQueue) → q.objects p ≡ none → Valid q → Absent p q.timers
dead-Absent p q dead v when = elim (Bool-cases (has (when, p) q.timers)) [
  | inr nothing ↦ nothing
  | inl there ↦ let (t, alive, time, small, number) = v.forward when p there in cc
]

pub insert-Absent :
    (p k when : ℕ) (timers : List Pair)
    → (k == p) ≡ false
    → Absent k timers
    → Absent k (insert (when, p) timers)
unfolding same
insert-Absent p k when timers other absent w =
    has-insert (w, k) (when, p) timers ∙ neither (w == when) (absent w)
  where
    neither : (b : Bool) → has (w, k) timers ≡ false → (b && (k == p) || has (w, k) timers) ≡ false
    neither true e = rw (other, e) refl
    neither false e = e

-- The result of a call that may come while callbacks run.
abbrev pub Keeps : List Pair → Option TimerQueue → Type 0
Keeps es result = (q : TimerQueue) × (result ≡ some q) × Valid q × Limbo es q.timers q.objects

-- `addTimer` at an address that `new` may return.
pub add_timer-Keeps :
    (es : List Pair) (p when interval : ℕ) (q : TimerQueue)
    → q.objects p ≡ none
    → p < last_address
    → Valid q
    → Limbo es q.timers q.objects
    → (q' : TimerQueue) × (add_timer p when interval q ≡ some ((p, suc q.created), q'))
      × Valid q'
      × Limbo es q'.timers q'.objects
unfolding add_timer add_timer_in_loop reset_timerfd
add_timer-Keeps es p when interval q dead small v l =
    let t : Timer = record { expiration = when; interval = interval; sequence = suc q.created } in
    let absent = dead-Absent p q dead v in
    let q₁ : TimerQueue = record q {
      objects = update q.objects p (some t);
      created = suc q.created;
    } in
    let alive : q₁.objects p ≡ some t = rw (==_refl p) refl in
    let (e, v₂) =
      insert_timer-Valid p t q₁ absent alive small (update-Agrees p (some t) absent v) in
    let l₂ : Limbo es (insert (when, p) q.timers) (update q.objects p (some t)) =
      Limbo-change es q.timers _
        (λ k u living out.
          (rw (others k u living) living, insert-Absent p k when q.timers (others k u living) out))
        l in
    elim (Bool-cases (is_earliest when q.timers)) [
      | inl first ↦
          (record (inserted p t q₁) { armed = some when }, rw (alive, e, first) refl, v₂, l₂)
      | inr later ↦ (inserted p t q₁, rw (alive, e, later) refl, v₂, l₂)
    ]
  where
    others : (k : ℕ) (u : Timer) → q.objects k ≡ some u → (k == p) ≡ false
    others k u living = elim (Bool-cases (k == p)) [
      | inr other ↦ other
      | inl e ↦
          let twice : none ≡ some u = sym (ap q.objects ((==_iff k p).0 e) ∙ dead) ∙ living in cc
    ]
