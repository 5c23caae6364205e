-- ===== src/TimeZone/Transitions.antt =====
-- Which transition a time goes by.
use muduo_pro.Common.{
  ℕ, ◌≡◌, refl, sym, ap, subst, ◌∙◌, inl, inr, ◌⊎◌, Bool, true, false, false≢true, Option, none,
  some, List, [], ◌∷◌, arith, ltb, ltb_false→le, if◌then◌else◌, Bool-cases, Option-cases, ◌>>=◌,
  get_elem?, ℤ, pos, negsuc,
}
use muduo_pro.TimeZone.{
  Transition, Localtime, Data, is_less, is_same, time_of, lower_bound, back, at_lower_bound,
  find_from, find_localtime,
}

-- Every transition comes before the next.
abbrev pub Sorted : Bool → List Transition → Type 0
Sorted gmt [] = Unit {0}
Sorted gmt (t ∷ []) = Unit {0}
Sorted gmt (t ∷ (u ∷ us)) = (is_less (time_of gmt t) (time_of gmt u) ≡ true) × Sorted gmt (u ∷ us)

-- The last transition that is not after the time.
abbrev pub last_not_after : Bool → ℤ → List Transition → Option Transition
last_not_after gmt time [] = none
last_not_after gmt time (t ∷ ts) =
    let later : Option Transition = last_not_after gmt time ts in
    elim later [ none ↦ if is_less time (time_of gmt t) then none else some t | some u ↦ some u ]

numbers : (a b : ℕ) → (ltb a b ≡ true) ⊎ ((a ≡ b) ⊎ (ltb b a ≡ true))
numbers a b = elim (Bool-cases (ltb a b)) [
  | inl less ↦ inl less
  | inr not_less ↦ elim (Bool-cases (ltb b a)) [
    | inl more ↦ inr (inr more)
    | inr not_more ↦ inr (inl (omega (arith, ltb_false→le a b not_less, ltb_false→le b a not_more)))
  ]
]

trichotomy : (a b : ℤ) → (is_less a b ≡ true) ⊎ ((a ≡ b) ⊎ (is_less b a ≡ true))
trichotomy (pos a) (pos b) = elim (numbers a b) [
  | inl less ↦ inl less
  | inr (inl same) ↦ inr (inl (ap pos same))
  | inr (inr more) ↦ inr (inr more)
]
trichotomy (pos a) (negsuc b) = inr (inr refl)
trichotomy (negsuc a) (pos b) = inl refl
trichotomy (negsuc a) (negsuc b) = elim (numbers b a) [
  | inl less ↦ inl less
  | inr (inl same) ↦ inr (inl (ap negsuc (sym same)))
  | inr (inr more) ↦ inr (inr more)
]

is_less_asym : (a b : ℤ) → is_less a b ≡ true → is_less b a ≡ false
is_less_asym (pos a) (pos b) h = ground arith
is_less_asym (pos a) (negsuc b) h = absurd (false≢true h)
is_less_asym (negsuc a) (pos b) h = refl
is_less_asym (negsuc a) (negsuc b) h = ground arith

is_less_irrefl : (a : ℤ) → is_less a a ≡ false
is_less_irrefl (pos a) = ground arith
is_less_irrefl (negsuc a) = ground arith

is_less_trans : (a b c : ℤ) → is_less a b ≡ true → is_less b c ≡ true → is_less a c ≡ true
is_less_trans (pos a) (pos b) (pos c) h k = ground arith
is_less_trans (pos a) (pos b) (negsuc c) h k = absurd (false≢true k)
is_less_trans (pos a) (negsuc b) c h k = absurd (false≢true h)
is_less_trans (negsuc a) (pos b) (pos c) h k = refl
is_less_trans (negsuc a) (pos b) (negsuc c) h k = absurd (false≢true k)
is_less_trans (negsuc a) (negsuc b) (pos c) h k = refl
is_less_trans (negsuc a) (negsuc b) (negsuc c) h k = ground arith

is_same_refl : (a : ℤ) → is_same a a ≡ true
is_same_refl (pos a) = ground arith
is_same_refl (negsuc a) = ground arith

is_same-less : (a b : ℤ) → is_less a b ≡ true → is_same a b ≡ false
is_same-less (pos a) (pos b) h = ground arith
is_same-less (pos a) (negsuc b) h = refl
is_same-less (negsuc a) (pos b) h = refl
is_same-less (negsuc a) (negsuc b) h = ground arith

module _ (gmt : Bool) (time : ℤ) where
  none_not_after :
      (t : Transition) (ts : List Transition)
      → Sorted gmt (t ∷ ts)
      → is_less time (time_of gmt t) ≡ true
      → last_not_after gmt time (t ∷ ts) ≡ none
  none_not_after t [] sorted h = rw h refl
  none_not_after t (u ∷ us) (first, sorted) h =
      rw
        (none_not_after u us sorted (is_less_trans time (time_of gmt t) (time_of gmt u) h first), h)
        refl

  some_not_after :
      (t : Transition) (ts : List Transition)
      → is_less time (time_of gmt t) ≡ false
      → (u : Transition) × (last_not_after gmt time (t ∷ ts) ≡ some u)
  some_not_after t ts h = elim (Option-cases (last_not_after gmt time ts)) [
    | inl nothing ↦ (t, rw (nothing, h) refl)
    | inr (u, e) ↦ (u, rw e refl)
  ]

  -- Where every later transition is after the time.
  this_is_last :
      (t : Transition) (ts : List Transition)
      → is_less time (time_of gmt t) ≡ false
      → last_not_after gmt time ts ≡ none
      → last_not_after gmt time (t ∷ ts) ≡ some t
  this_is_last t ts h nothing = rw (nothing, h) refl

  after_same :
      (t : Transition) (ts : List Transition)
      → Sorted gmt (t ∷ ts)
      → time ≡ time_of gmt t
      → last_not_after gmt time ts ≡ none
  after_same t [] sorted e = refl
  after_same t (u ∷ us) (first, sorted) e =
      none_not_after u us sorted (subst (λ x. is_less x (time_of gmt u) ≡ true) (sym e) first)

  same_not_less : (t : Transition) → time ≡ time_of gmt t → is_less time (time_of gmt t) ≡ false
  same_not_less t e =
      subst (λ x. is_less x (time_of gmt t) ≡ false) (sym e) (is_less_irrefl (time_of gmt t))

  keeps :
      (t : Transition) (ts : List Transition) (w : Transition)
      → last_not_after gmt time ts ≡ some w
      → last_not_after gmt time (t ∷ ts) ≡ last_not_after gmt time ts
  keeps t ts w e = rw e refl

  skips :
      (all : List Transition) (t u : Transition) (before from : List Transition)
      → at_lower_bound gmt time all (t ∷ (u ∷ before), from)
        ≡ at_lower_bound gmt time all (u ∷ before, from)
  skips all t u before [] = refl
  skips all t u before (v ∷ vs) = refl

  -- `lower_bound` from a transition on that is before the time.
  found :
      (t : Transition) (ts all : List Transition)
      → Sorted gmt (t ∷ ts)
      → is_less (time_of gmt t) time ≡ true
      → back all ≡ back (t ∷ ts)
      → at_lower_bound gmt time all (t ∷ (lower_bound gmt time ts).0, (lower_bound gmt time ts).1)
        ≡ last_not_after gmt time (t ∷ ts)
  found t [] all sorted less e =
      e ∙ sym (this_is_last t [] (is_less_asym (time_of gmt t) time less) refl)
  found t (u ∷ us) all (first, sorted) less e = elim (trichotomy time (time_of gmt u)) [
    | inl later ↦
        rw (is_less_asym time (time_of gmt u) later, is_same-less time (time_of gmt u) later)
          (sym (
            this_is_last t (u ∷ us) (is_less_asym (time_of gmt t) time less)
              (none_not_after u us sorted later)))
    | inr (inl same) ↦
        rw
          (
            subst (λ x. is_less (time_of gmt u) x ≡ false) (sym same)
                (is_less_irrefl (time_of gmt u)),
            subst (λ x. is_same x (time_of gmt u) ≡ true) (sym same) (is_same_refl (time_of gmt u)),
            after_same u us sorted same,
            same_not_less u same,
          )
          refl
    | inr (inr earlier) ↦
        let (w, e') = some_not_after u us (is_less_asym (time_of gmt u) time earlier) in
        rw earlier (
          skips all t u (lower_bound gmt time us).0 (lower_bound gmt time us).1
          ∙ found u us all sorted earlier e
          ∙ sym (keeps t (u ∷ us) w e'))
  ]

  chosen : Data → Option Transition → Option Localtime
  chosen data_ o = elim o [
    | none ↦ get_elem? data_.localtimes 0
    | some t ↦ get_elem? data_.localtimes t.localtime_idx
  ]

  chosen_lem :
      (data_ : Data) (o : Option Transition)
      → chosen data_ o ≡ elim o [
        | none ↦ get_elem? data_.localtimes 0
        | some t ↦ get_elem? data_.localtimes t.localtime_idx
      ]
  unfolding chosen
  chosen_lem data_ o = refl

  find_from_lem :
      (data_ : Data) (ts : List Transition)
      → Sorted gmt ts
      → find_from gmt time data_ ts ≡ chosen data_ (last_not_after gmt time ts)
  unfolding chosen
  find_from_lem data_ [] sorted = refl
  find_from_lem data_ (t ∷ ts) sorted = elim (trichotomy time (time_of gmt t)) [
    | inl later ↦ rw later (sym (ap (chosen data_) (none_not_after t ts sorted later)))
    | inr (inl same) ↦
        rw
          (
            same_not_less t same,
            subst (λ x. is_less (time_of gmt t) x ≡ false) (sym same)
                (is_less_irrefl (time_of gmt t)),
            subst (λ x. is_same x (time_of gmt t) ≡ true) (sym same) (is_same_refl (time_of gmt t)),
          )
          (sym (
            ap (chosen data_)
              (this_is_last t ts (same_not_less t same) (after_same t ts sorted same))))
    | inr (inr earlier) ↦
        let (w, e) = some_not_after t ts (is_less_asym (time_of gmt t) time earlier) in
        rw (is_less_asym (time_of gmt t) time earlier, earlier)
          (ap (λ o. o >>= (λ u. get_elem? data_.localtimes u.localtime_idx))
              (found t ts (t ∷ ts) sorted earlier refl ∙ e)
            ∙ sym (ap (chosen data_) e))
  ]

-- With transitions in order, `findLocaltime` gives the local time of the last transition that is not
-- after the time, and the first local time where there is none.
pub find_localtime_lem :
    (data_ : Data) (time : ℤ) (gmt : Bool)
    → Sorted gmt data_.transitions
    → find_localtime data_ time gmt ≡ elim (last_not_after gmt time data_.transitions) [
      | none ↦ get_elem? data_.localtimes 0
      | some t ↦ get_elem? data_.localtimes t.localtime_idx
    ]
unfolding find_localtime
find_localtime_lem data_ time gmt sorted =
    find_from_lem gmt time data_ data_.transitions sorted
    ∙ chosen_lem gmt time data_ (last_not_after gmt time data_.transitions)
