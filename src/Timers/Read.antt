-- ===== src/Timers/Read.antt =====
-- `handleRead`, with callbacks that add and cancel timers of the same queue.
use muduo_pro.Common.{
  ℕ, ◌<◌, ◌≡◌, refl, sym, subst, append_assoc, true, false, false≢true, Bool-cases, inl, inr, ltb,
  ltb→lt, Option, none, some, List, [], ◌∷◌, ◌++◌,
}
use muduo_pro.Sets.{Pair}
use muduo_pro.Timers.{
  is_free, Timer, TimerQueue, Command, add, cancel, last_address, obey, run_each, handle_read,
}
use muduo_pro.Timers.Shape.{Absent}
use muduo_pro.Timers.Insert.{Valid, Limbo, Keeps, add_timer-Keeps}
use muduo_pro.Timers.Remove.{cancel_in_loop-Keeps}
use muduo_pro.Timers.Expire.{get_expired_lem}
use muduo_pro.Timers.Reset.{Armed, reset-Valid}

Limbo-alive :
    (es : List Pair) (e : Pair) (rest timers : List Pair) (objects : ℕ → Option Timer)
    → Limbo (es ++ (e ∷ rest)) timers objects
    → (t : Timer) × (objects (e.1) ≡ some t)
Limbo-alive [] e rest timers objects (living, small, alone, out, others) = living
Limbo-alive (d ∷ es) e rest timers objects (living, small, alone, out, others) =
    Limbo-alive es e rest timers objects others

Limbo-Absent :
    (es : List Pair) (e : Pair) (rest timers : List Pair) (objects : ℕ → Option Timer)
    → Limbo (es ++ (e ∷ rest)) timers objects
    → Absent (e.1) timers
Limbo-Absent [] e rest timers objects (living, small, alone, out, others) = out
Limbo-Absent (d ∷ es) e rest timers objects (living, small, alone, out, others) =
    Limbo-Absent es e rest timers objects others

-- The commands cancel no timer but the one at the address.
abbrev pub OwnOnly : ℕ → List Command → Type 0
OwnOnly p [] = Unit {0}
OwnOnly p (add p' when interval ∷ commands) = OwnOnly p commands
OwnOnly p (cancel id ∷ commands) = (id.0 ≡ p) × OwnOnly p commands

free : (p : ℕ) (q : TimerQueue) → is_free p q ≡ true → (q.objects p ≡ none) × (p < last_address)
unfolding is_free
free p q e = by_object (q.objects p) e
  where
    by_object :
        (o : Option Timer)
        → elim o [ none ↦ ltb p last_address | some t ↦ false ] ≡ true
        → (o ≡ none) × (p < last_address)
    by_object none e = (refl, ltb→lt p last_address e)
    by_object (some t) e = absurd (false≢true e)

obey-Keeps :
    (es : List Pair) (e : Pair) (rest : List Pair) (commands : List Command) (q : TimerQueue)
    → OwnOnly (e.1) commands
    → Valid q
    → Limbo (es ++ (e ∷ rest)) q.timers q.objects
    → Keeps (es ++ (e ∷ rest)) (obey commands q)
unfolding obey
obey-Keeps es e rest [] q own v l = (q, refl, v, l)
obey-Keeps es e rest (add p when interval ∷ commands) q own v l = elim (Bool-cases (is_free p q)) [
  | inl fresh ↦
      let (dead, small) = free p q fresh in
      let (q₁, e₁, v₁, l₁) = add_timer-Keeps (es ++ (e ∷ rest)) p when interval q dead small v l in
      let (q₂, e₂, v₂, l₂) = obey-Keeps es e rest commands q₁ own v₁ l₁ in
      (q₂, rw (fresh, e₁) e₂, v₂, l₂)
  | inr in_use ↦
      let (q₂, e₂, v₂, l₂) = obey-Keeps es e rest commands q own v l in (q₂, rw in_use e₂, v₂, l₂)
]
obey-Keeps es e rest (cancel (p, s) ∷ commands) q (same, own) v l =
    let absent : Absent p q.timers =
      subst (λ k. Absent k q.timers) (sym same) (Limbo-Absent es e rest q.timers q.objects l) in
    let (q₁, e₁, v₁, l₁) = cancel_in_loop-Keeps (es ++ (e ∷ rest)) p s q v l absent in
    let (q₂, e₂, v₂, l₂) = obey-Keeps es e rest commands q₁ own v₁ l₁ in (q₂, rw e₁ e₂, v₂, l₂)

module _ (callback : ℕ → Timer → List Command)
    (own : (p : ℕ) (t : Timer) → OwnOnly p (callback p t)) where
  -- The callbacks run over `rest` while all of `es` are in limbo.
  run_each-Keeps :
      (es rest : List Pair) (q : TimerQueue)
      → Valid q
      → Limbo (es ++ rest) q.timers q.objects
      → Keeps (es ++ rest) (run_each callback rest q)
  unfolding run_each
  run_each-Keeps es [] q v l = (q, refl, v, l)
  run_each-Keeps es (e ∷ rest) q v l =
      let (t, alive) = Limbo-alive es e rest q.timers q.objects l in
      let (q₁, e₁, v₁, l₁) = obey-Keeps es e rest (callback (e.1) t) q (own (e.1) t) v l in
      let shift : (es ++ (e ∷ [])) ++ rest ≡ es ++ (e ∷ rest) = append_assoc es (e ∷ []) rest in
      let (q₂, e₂, v₂, l₂) =
        run_each-Keeps (es ++ (e ∷ [])) rest q₁ v₁
          (subst (λ s. Limbo s q₁.timers q₁.objects) (sym shift) l₁) in
      (q₂, rw (alive, e₁) e₂, v₂, subst (λ s. Limbo s q₂.timers q₂.objects) shift l₂)

  -- `handleRead` fails no assert and uses no deleted timer and no erased iterator, whatever the
  -- callbacks add, and whether they cancel their own timers, if they cancel no others. Afterwards the two sets agree with each other and with the living
  -- timers, and the timerfd is set for the first timer or earlier.
  pub handle_read_lem :
      (now : ℕ) (q : TimerQueue)
      → Valid q
      → (q' : TimerQueue) × (handle_read callback now q ≡ some q') × Valid q' × Armed q'
  unfolding handle_read
  handle_read_lem now q v =
      let (es, q₁, e₁, v₁, l₁, split) = get_expired_lem now q v in
      let (q₂, e₂, v₂, l₂) =
        run_each-Keeps [] es (record q₁ { calling_expired_timers = true; canceling_timers = [] }) v₁
          l₁ in
      let (q₃, e₃, v₃, armed) =
        reset-Valid es now (record q₂ { calling_expired_timers = false }) v₂ l₂ in
      (q₃, rw (e₁, e₂) e₃, v₃, armed)
