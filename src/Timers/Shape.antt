-- ===== src/Timers/Shape.antt =====
-- When the two sets of timers and the living timers agree.
use muduo_pro.Common.{
  ℕ, suc, ◌<◌, ◌≡◌, refl, sym, ap, ap₂, subst, ◌∙◌, inl, inr, Bool, true, false, false≢true, not,
  ◌&&◌, Option, some, List, ◌==◌, ==_iff, Bool-cases, length, arith, some_injective,
}
use muduo_pro.Sets.{
  Pair, has, insert, erase, same, Sorted, same_refl, eq_of_same, or_cases, or_left, or_right,
  and_parts, has-insert, has-erase, insert-Sorted, erase-Sorted, length-insert, length-erase,
}
use muduo_pro.Timers.{Timer, update, last_address}

-- No timer at the address is in the set.
abbrev pub Absent : ℕ → List Pair → Type 0
Absent p timers = (when : ℕ) → has (when, p) timers ≡ false

-- The two sets hold the same living timers, each under its time and its sequence number.
pub record Agrees (timers active : List Pair) (objects : ℕ → Option Timer) : Type 0 where
  pub timers_sorted : Sorted timers
  pub active_sorted : Sorted active
  pub same_size : length timers ≡ length active
  pub forward :
      (when p : ℕ)
      → has (when, p) timers ≡ true
      → (t : Timer) × (objects p ≡ some t)
        × (t.expiration ≡ when)
        × (p < last_address)
        × (has (p, t.sequence) active ≡ true)
  pub backward :
      (p s : ℕ)
      → has (p, s) active ≡ true
      → (t : Timer) × (objects p ≡ some t)
        × (t.sequence ≡ s)
        × (has (t.expiration, p) timers ≡ true)

other_address :
    (p q : ℕ) (timers : List Pair) (when : ℕ)
    → Absent p timers
    → has (when, q) timers ≡ true
    → (q == p) ≡ false
other_address p q timers when absent there = elim (Bool-cases (q == p)) [
  | inr apart ↦ apart
  | inl e ↦ absurd (
      false≢true
        (sym (absent when) ∙ subst (λ k. has (when, k) timers ≡ true) ((==_iff q p).0 e) there))
]

-- An object of no timer in the sets may change.
pub update-Agrees :
    {timers active : List Pair} {objects : ℕ → Option Timer} (p : ℕ) (v : Option Timer)
    → Absent p timers
    → Agrees timers active objects
    → Agrees timers active (update objects p v)
update-Agrees {timers} {active} {objects} p v absent a = record {
  timers_sorted = a.timers_sorted;
  active_sorted = a.active_sorted;
  same_size = a.same_size;
  forward = λ when q there.
      let (t, alive, time, small, number) = a.forward when q there in
      (t, rw (other_address p q timers when absent there) alive, time, small, number);
  backward = λ q s there.
      let (t, alive, number, listed) = a.backward q s there in
      (t, rw (other_address p q timers t.expiration absent listed) alive, number, listed);
}

-- A timer that is not in the sets is not among the active ones under any number.
pub Absent-active :
    {timers active : List Pair} {objects : ℕ → Option Timer} (p s : ℕ)
    → Absent p timers
    → Agrees timers active objects
    → has (p, s) active ≡ false
Absent-active {timers} {active} p s absent a = elim (Bool-cases (has (p, s) active)) [
  | inr no_entry ↦ no_entry
  | inl there ↦
      let (t, alive, number, listed) = a.backward p s there in
      absurd (false≢true (sym (absent t.expiration) ∙ listed))
]

pub insert-Agrees :
    {timers active : List Pair} {objects : ℕ → Option Timer} (p : ℕ) (t : Timer)
    → Absent p timers
    → objects p ≡ some t
    → p < last_address
    → Agrees timers active objects
    → Agrees (insert (t.expiration, p) timers) (insert (p, t.sequence) active) objects
insert-Agrees {timers} {active} {objects} p t absent alive small a = record {
  timers_sorted = insert-Sorted _ timers a.timers_sorted;
  active_sorted = insert-Sorted _ active a.active_sorted;
  same_size =
      length-insert _ timers (absent t.expiration)
      ∙ ap suc a.same_size
      ∙ sym (length-insert _ active (Absent-active p t.sequence absent a));
  forward = λ when q there.
      elim (or_cases _ _ (sym (has-insert (when, q) (t.expiration, p) timers) ∙ there)) [
        | inl new ↦
            let e = eq_of_same (when, q) (t.expiration, p) new in
            let here : q ≡ p = ap (λ x. x.1) e in
            (
              t,
              subst (λ k. objects k ≡ some t) (sym here) alive,
              sym (ap (λ x. x.0) e),
              subst (λ k. k < last_address) (sym here) small,
              subst (λ k. has (k, t.sequence) (insert (p, t.sequence) active) ≡ true) (sym here)
                  (has-insert _ _ active ∙ or_left _ _ (same_refl (p, t.sequence))),
            )
        | inr old ↦
            let (t', alive', number, small', listed) = a.forward when q old in
            (t', alive', number, small', has-insert _ _ active ∙ or_right _ _ listed)
      ];
  backward = λ q s there.
      elim (or_cases _ _ (sym (has-insert (q, s) (p, t.sequence) active) ∙ there)) [
        | inl new ↦
            let e = eq_of_same (q, s) (p, t.sequence) new in
            let here : q ≡ p = ap (λ x. x.0) e in
            (
              t,
              subst (λ k. objects k ≡ some t) (sym here) alive,
              sym (ap (λ x. x.1) e),
              subst (λ k. has (t.expiration, k) (insert (t.expiration, p) timers) ≡ true) (sym here)
                  (has-insert _ _ timers ∙ or_left _ _ (same_refl (t.expiration, p))),
            )
        | inr old ↦
            let (t', alive', number, listed) = a.backward q s old in
            (t', alive', number, has-insert _ _ timers ∙ or_right _ _ listed)
      ];
}

-- Two living timers with different entries are at different addresses.
apart :
    (objects : ℕ → Option Timer) (entry : ℕ → Timer → Pair) (p q : ℕ) (t t' : Timer)
    → objects p ≡ some t
    → objects q ≡ some t'
    → not (same (entry q t') (entry p t)) ≡ true
    → (q == p) ≡ false
apart objects entry p q t t' alive alive' differ = elim (Bool-cases (q == p)) [
  | inr other ↦ other
  | inl e ↦
      let here : q ≡ p = (==_iff q p).0 e in
      let one : t' ≡ t = some_injective (sym alive' ∙ ap objects here ∙ alive) in
      absurd (
        false≢true (
          ap not (sym (ap₂ (λ k u. same (entry k u) (entry p t)) here one ∙ same_refl (entry p t)))
          ∙ differ))
]

differ_first : (p q a b : ℕ) → (q == p) ≡ false → not (same (q, a) (p, b)) ≡ true
unfolding same
differ_first p q a b e = rw e refl

differ_second : (p q a b : ℕ) → (q == p) ≡ false → not (same (a, q) (b, p)) ≡ true
unfolding same
differ_second p q a b e = elim (Bool-cases (a == b)) [ inl c ↦ rw (c, e) refl | inr c ↦ rw c refl ]

-- A timer that leaves both sets.
pub erase-Agrees :
    {timers active : List Pair} {objects : ℕ → Option Timer} (p : ℕ) (t : Timer)
    → objects p ≡ some t
    → has (t.expiration, p) timers ≡ true
    → has (p, t.sequence) active ≡ true
    → Agrees timers active objects
    → Agrees (erase (t.expiration, p) timers) (erase (p, t.sequence) active) objects
      × Absent p (erase (t.expiration, p) timers)
erase-Agrees {timers} {active} {objects} p t alive in_timers in_active a = (
  record {
    timers_sorted = erase-Sorted _ timers a.timers_sorted;
    active_sorted = erase-Sorted _ active a.active_sorted;
    same_size =
        omega
          (arith, length-erase _ timers in_timers, length-erase _ active in_active, a.same_size);
    forward = λ when q there.
        let (listed, other) =
          and_parts _ _
            (sym (has-erase (when, q) (t.expiration, p) timers a.timers_sorted) ∙ there) in
        let (t', alive', time, small, number) = a.forward when q listed in
        (
          t',
          alive',
          time,
          small,
          has-erase _ _ active a.active_sorted
              ∙ both number (
                  differ_first p q _ _ (
                    apart objects (λ k u. (u.expiration, k)) p q t t' alive alive'
                      (ap (λ w. not (same (w, q) (t.expiration, p))) time ∙ other))),
        );
    backward = λ q s there.
        let (number, other) =
          and_parts _ _ (sym (has-erase (q, s) (p, t.sequence) active a.active_sorted) ∙ there) in
        let (t', alive', n, listed) = a.backward q s number in
        (
          t',
          alive',
          n,
          has-erase _ _ timers a.timers_sorted
              ∙ both listed (
                  differ_second p q _ _ (
                    apart objects (λ k u. (k, u.sequence)) p q t t' alive alive'
                      (ap (λ w. not (same (q, w) (p, t.sequence))) n ∙ other))),
        );
  },
  λ when. has-erase (when, p) (t.expiration, p) timers a.timers_sorted ∙ gone when,
)
  where
    both : {b c : Bool} → b ≡ true → c ≡ true → (b && c) ≡ true
    both e f = rw (e, f) refl

    gone : (when : ℕ) → (has (when, p) timers && not (same (when, p) (t.expiration, p))) ≡ false
    gone when = elim (Bool-cases (has (when, p) timers)) [
      | inr nothing ↦ rw nothing refl
      | inl there ↦
          let (t', alive', time, rest, number) = a.forward when p there in
          let now : t.expiration ≡ when =
            ap (λ u. u.expiration) (some_injective (sym alive ∙ alive')) ∙ time in
          ap₂ (λ b c. b && not c) there (ap (λ w. same (when, p) (w, p)) now ∙ same_refl (when, p))
    ]
