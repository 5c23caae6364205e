-- ===== src/Sets.antt =====
-- `std::set` of pairs of numbers, as a list in the order of the pairs, and what its operations do to
-- membership and size.
use muduo_pro.Common.{
  ℕ, suc, ◌≡◌, refl, sym, ap, ap₂, subst, ◌∙◌, inl, inr, Bool, true, false, false≢true, not, ◌&&◌,
  ◌||◌, List, [], ◌∷◌, ◌++◌, ltb, ◌==◌, if◌then◌else◌, length, arith, ◌⊎◌, Bool-cases,
}

abbrev pub Pair : Type 0
Pair = ℕ × ℕ

unfoldable pub before : Pair → Pair → Bool
before x y = ltb (x.0) (y.0) || (x.0 == y.0 && ltb (x.1) (y.1))

unfoldable pub same : Pair → Pair → Bool
same x y = x.0 == y.0 && x.1 == y.1

unfoldable pub has : Pair → List Pair → Bool
has x [] = false
has x (y ∷ ys) = same x y || has x ys

unfoldable pub insert : Pair → List Pair → List Pair
insert x [] = x ∷ []
insert x (y ∷ ys) =
    let rest = insert x ys in
    if before x y then x ∷ y ∷ ys else (if same x y then y ∷ ys else y ∷ rest)

unfoldable pub erase : Pair → List Pair → List Pair
erase x [] = []
erase x (y ∷ ys) = let rest = erase x ys in if same x y then ys else y ∷ rest

-- The elements before `x`, and those from `lower_bound(x)` on.
unfoldable pub split_at_bound : Pair → List Pair → List Pair × List Pair
split_at_bound x [] = ([], [])
split_at_bound x (y ∷ ys) =
    let rest = split_at_bound x ys in if before y x then (y ∷ rest.0, rest.1) else ([], y ∷ ys)

-- Each element is before all later ones.
abbrev pub Sorted : List Pair → Type 0
Sorted [] = Unit {0}
Sorted (x ∷ xs) = ((y : Pair) → has y xs ≡ true → before x y ≡ true) × Sorted xs

pub same_refl : (x : Pair) → same x x ≡ true
unfolding same
same_refl x = ground arith

pub eq_of_same : (x y : Pair) → same x y ≡ true → x ≡ y
unfolding same
eq_of_same (a, b) (c, d) e = ap₂ (λ k l. (k, l)) (first e) (second e)
  where
    first : (a == c && b == d) ≡ true → a ≡ c
    first e = ground arith

    second : (a == c && b == d) ≡ true → b ≡ d
    second e = ground arith

pub same_sym : (x y : Pair) → same x y ≡ true → same y x ≡ true
same_sym x y e = rw (eq_of_same x y e) (same_refl y)

pub before_irrefl : (x : Pair) → before x x ≡ false
unfolding before
before_irrefl (a, b) = ground arith

pub before_trans : (x y z : Pair) → before x y ≡ true → before y z ≡ true → before x z ≡ true
unfolding before
before_trans (a, b) (c, d) (e, f) h k = ground arith

-- Of two pairs that are not the same one is before the other.
pub before_total : (x y : Pair) → before x y ≡ false → same x y ≡ false → before y x ≡ true
unfolding before same
before_total (a, b) (c, d) h k = ground arith

or_idem : (a b : Bool) → (a || (a || b)) ≡ (a || b)
or_idem true b = refl
or_idem false b = refl

or_swap : (a b c : Bool) → (a || (b || c)) ≡ (b || (a || c))
or_swap true true c = refl
or_swap true false c = refl
or_swap false b c = refl

-- What a disjunction and a conjunction give.
pub or_cases : (a b : Bool) → (a || b) ≡ true → (a ≡ true) ⊎ (b ≡ true)
or_cases true b e = inl refl
or_cases false b e = inr e

pub or_left : (a b : Bool) → a ≡ true → (a || b) ≡ true
or_left true b e = refl
or_left false b e = absurd (false≢true e)

pub or_right : (a b : Bool) → b ≡ true → (a || b) ≡ true
or_right true b e = refl
or_right false b e = e

pub or_none : (a b : Bool) → (a || b) ≡ false → (a ≡ false) × (b ≡ false)
or_none true b e = absurd (false≢true (sym e))
or_none false b e = (refl, e)

pub erase_head : (x : Pair) (s : List Pair) → erase x (x ∷ s) ≡ s
unfolding erase
erase_head x s = rw (same_refl x) refl

pub and_parts : (a b : Bool) → (a && b) ≡ true → (a ≡ true) × (b ≡ true)
and_parts true b e = (refl, e)
and_parts false b e = absurd (false≢true e)

pub has-insert : (x y : Pair) (s : List Pair) → has x (insert y s) ≡ (same x y || has x s)
unfolding has insert
has-insert x y [] = refl
has-insert x y (z ∷ zs) = elim (Bool-cases (before y z)) [
  | inl b ↦ rw b refl
  | inr nb ↦ elim (Bool-cases (same y z)) [
    | inl e ↦
        rw (nb, e)
          (sym (or_idem (same x z) (has x zs))
            ∙ ap (λ w. same x w || (same x z || has x zs)) (sym (eq_of_same y z e)))
    | inr ne ↦ rw (nb, ne, has-insert x y zs) (or_swap (same x z) (same x y) (has x zs))
  ]
]

-- A sorted set does not hold its first element again.
head_once : (x : Pair) (xs : List Pair) → Sorted (x ∷ xs) → has x xs ≡ false
head_once x xs s = elim (Bool-cases (has x xs)) [
  | inl there ↦ absurd (false≢true (sym (before_irrefl x) ∙ s.0 x there))
  | inr absent ↦ absent
]

pub has-erase :
    (x y : Pair) (s : List Pair) → Sorted s → has x (erase y s) ≡ (has x s && not (same x y))
unfolding has erase
has-erase x y [] s = refl
has-erase x y (z ∷ zs) s = elim (Bool-cases (same y z)) [
  | inl e ↦ rw e (dropped (eq_of_same y z e))
  | inr ne ↦ rw (ne, has-erase x y zs s.1) (kept ne)
]
  where
    and_false : (b : Bool) → (b && false) ≡ false
    and_false true = refl
    and_false false = refl

    and_true : (b : Bool) → (b && true) ≡ b
    and_true true = refl
    and_true false = refl

    dropped : y ≡ z → has x zs ≡ ((same x z || has x zs) && not (same x y))
    dropped e = elim (Bool-cases (same x z)) [
      | inl at_z ↦
          subst (λ k. has k zs ≡ false) (sym (eq_of_same x z at_z)) (head_once z zs s)
          ∙ sym (and_false (same x z || has x zs))
          ∙ ap (λ b. (same x z || has x zs) && not b) (sym (ap (same x) e ∙ at_z))
      | inr other ↦ rw (ap (same x) e, other) (sym (and_true (has x zs)))
    ]

    same_of : (y z x : Pair) → same x y ≡ true → same x z ≡ true → same y z ≡ true
    same_of y z x e f = subst (λ k. same k z ≡ true) (eq_of_same x y e) f

    kept :
        same y z ≡ false
        → (same x z || has x zs && not (same x y)) ≡ ((same x z || has x zs) && not (same x y))
    kept ne = elim (Bool-cases (same x z)) [
      | inr other ↦ rw other refl
      | inl at_z ↦ elim (Bool-cases (same x y)) [
        | inr apart ↦ rw (at_z, apart) refl
        | inl at_y ↦ absurd (false≢true (sym ne ∙ same_of y z x at_y at_z))
      ]
    ]

pub insert-Sorted : (x : Pair) (s : List Pair) → Sorted s → Sorted (insert x s)
unfolding has insert
insert-Sorted x [] s = (λ y e. absurd (false≢true e), tt)
insert-Sorted x (z ∷ zs) s = elim (Bool-cases (before x z)) [
  | inl b ↦ rw b ((λ y e. first b y e), s)
  | inr nb ↦ elim (Bool-cases (same x z)) [
    | inl e ↦ rw (nb, e) s
    | inr ne ↦ rw (nb, ne) (λ y e. later nb ne y e, insert-Sorted x zs s.1)
  ]
]
  where
    first : before x z ≡ true → (y : Pair) → has y (z ∷ zs) ≡ true → before x y ≡ true
    first b y e = elim (or_cases (same y z) (has y zs) e) [
      | inl at_z ↦ subst (λ k. before x k ≡ true) (sym (eq_of_same y z at_z)) b
      | inr in_zs ↦ before_trans x z y b (s.0 y in_zs)
    ]

    later :
        before x z ≡ false
        → same x z ≡ false
        → (y : Pair) → has y (insert x zs) ≡ true
        → before z y ≡ true
    later nb ne y e = elim (or_cases (same y x) (has y zs) (sym (has-insert y x zs) ∙ e)) [
      | inl at_x ↦
          subst (λ k. before z k ≡ true) (sym (eq_of_same y x at_x)) (before_total x z nb ne)
      | inr in_zs ↦ s.0 y in_zs
    ]

pub erase-Sorted : (x : Pair) (s : List Pair) → Sorted s → Sorted (erase x s)
unfolding erase
erase-Sorted x [] s = tt
erase-Sorted x (z ∷ zs) s = elim (Bool-cases (same x z)) [
  | inl e ↦ rw e (s.1)
  | inr ne ↦ rw ne (
    λ y e. s.0 y ((and_parts (has y zs) (not (same y x)) (sym (has-erase y x zs s.1) ∙ e)).0),
    erase-Sorted x zs s.1,
  )
]

pub length-insert :
    (x : Pair) (s : List Pair) → has x s ≡ false → length (insert x s) ≡ suc (length s)
unfolding has insert
length-insert x [] e = refl
length-insert x (z ∷ zs) e = elim (Bool-cases (same x z)) [
  | inl at_z ↦ absurd (false≢true (sym e ∙ rw at_z refl))
  | inr ne ↦ elim (Bool-cases (before x z)) [
    | inl b ↦ rw b refl
    | inr nb ↦ rw (nb, ne) (ap suc (length-insert x zs (rw ne at e)))
  ]
]

pub length-erase : (x : Pair) (s : List Pair) → has x s ≡ true → suc (length (erase x s)) ≡ length s
unfolding has erase
length-erase x [] e = absurd (false≢true e)
length-erase x (z ∷ zs) e = elim (Bool-cases (same x z)) [
  | inl at_z ↦ rw at_z refl
  | inr ne ↦ rw ne (ap suc (length-erase x zs (rw ne at e)))
]

pub split_at_bound-append :
    (x : Pair) (s : List Pair) → (split_at_bound x s).0 ++ (split_at_bound x s).1 ≡ s
unfolding split_at_bound
split_at_bound-append x [] = refl
split_at_bound-append x (z ∷ zs) = elim (Bool-cases (before z x)) [
  | inl b ↦ rw b (ap (λ ys. z ∷ ys) (split_at_bound-append x zs))
  | inr nb ↦ rw nb refl
]

-- The first part of a sorted set up to a bound.
pub split_at_bound-has :
    (x y : Pair) (s : List Pair)
    → Sorted s
    → (has y (split_at_bound x s).0 ≡ (has y s && before y x))
      × (has y (split_at_bound x s).1 ≡ (has y s && not (before y x)))
unfolding split_at_bound has
split_at_bound-has x y [] s = (refl, refl)
split_at_bound-has x y (z ∷ zs) s = elim (Bool-cases (before z x)) [
  | inl b ↦ rw (b, (split_at_bound-has x y zs s.1).0, (split_at_bound-has x y zs s.1).1) (inside b)
  | inr nb ↦ rw nb (elim (Bool-cases (has y (z ∷ zs))) [
    | inl there ↦ rw (there, beyond nb there) (refl, refl)
    | inr absent ↦ rw absent (refl, refl)
  ])
]
  where
    inside :
        before z x ≡ true
        → ((same y z || has y zs && before y x) ≡ ((same y z || has y zs) && before y x))
          × ((has y zs && not (before y x)) ≡ ((same y z || has y zs) && not (before y x)))
    inside b = elim (Bool-cases (same y z)) [
      | inr other ↦ rw other (refl, refl)
      | inl at_z ↦
          let bound : before y x ≡ true =
            subst (λ k. before k x ≡ true) (sym (eq_of_same y z at_z)) b in
          let once : has y zs ≡ false =
            subst (λ k. has k zs ≡ false) (sym (eq_of_same y z at_z)) (head_once z zs s) in
          rw (at_z, bound, once) (refl, refl)
    ]

    beyond : before z x ≡ false → has y (z ∷ zs) ≡ true → before y x ≡ false
    beyond nb there = elim (or_cases (same y z) (has y zs) there) [
      | inl at_z ↦ subst (λ k. before k x ≡ false) (sym (eq_of_same y z at_z)) nb
      | inr in_zs ↦ elim (Bool-cases (before y x)) [
        | inr apart ↦ apart
        | inl b ↦ absurd (false≢true (sym nb ∙ before_trans z y x (s.0 y in_zs) b))
      ]
    ]
