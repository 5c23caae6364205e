-- ===== src/Timers/Expire.antt =====
-- `getExpired`: which timers expire, and how they leave the sets.
use muduo_pro.Common.{
  ℕ, ◌<◌, ◌≡◌, refl, sym, ap, subst, ◌∙◌, inl, inr, Bool, true, false, false≢true, not, ◌&&◌, some,
  List, [], ◌∷◌, ◌++◌, ==_refl, Bool-cases, length, leb, lt→ltb, leb_false→lt, arith,
}
use muduo_pro.Sets.{
  Pair, has, erase, same, before, same_refl, or_left, or_none, erase_head, and_parts,
  split_at_bound, split_at_bound-has, split_at_bound-append,
}
use muduo_pro.Timers.{TimerQueue, last_address, erase_active, get_expired, is_after}
use muduo_pro.Timers.Shape.{Absent, Agrees, erase-Agrees}
use muduo_pro.Timers.Insert.{Valid, Limbo}

-- Absent from a list is absent from both of its parts.
Absent-left : (k : ℕ) (xs ys : List Pair) → Absent k (xs ++ ys) → Absent k xs
unfolding has
Absent-left k [] ys absent w = refl
Absent-left k (x ∷ xs) ys absent w =
    let here : same (w, k) x ≡ false =
      (or_none (same (w, k) x) (has (w, k) (xs ++ ys)) (absent w)).0 in
    let later : has (w, k) xs ≡ false =
      Absent-left k xs ys (λ u. (or_none (same (u, k) x) (has (u, k) (xs ++ ys)) (absent u)).1) w in
    rw (here, later) refl

Absent-right : (k : ℕ) (xs ys : List Pair) → Absent k (xs ++ ys) → Absent k ys
unfolding has
Absent-right k [] ys absent = absent
Absent-right k (x ∷ xs) ys absent = Absent-right k xs ys (λ w. (or_none _ _ (absent w)).1)

-- The expired timers leave the active ones, one by one.
pub erase_active-some :
    (es others : List Pair) (q : TimerQueue)
    → Agrees (es ++ others) q.active_timers q.objects
    → (active : List Pair) × (erase_active es q ≡ some (record q { active_timers = active }))
      × Agrees others active q.objects
      × Limbo es others q.objects
unfolding erase_active has
erase_active-some [] others q a = (q.active_timers, refl, a, tt)
erase_active-some ((when, p) ∷ es) others q a =
    let listed : has (when, p) ((when, p) ∷ (es ++ others)) ≡ true =
      or_left _ _ (same_refl (when, p)) in
    let (t, alive, time, small, active) = a.forward when p listed in
    let all : List Pair = (when, p) ∷ (es ++ others) in
    let (a', absent) =
      erase-Agrees p t alive (subst (λ w. has (w, p) all ≡ true) (sym time) listed) active a in
    let gone : erase (t.expiration, p) all ≡ es ++ others =
      ap (λ w. erase (w, p) all) time ∙ erase_head (when, p) (es ++ others) in
    let q₁ : TimerQueue = record q { active_timers = erase (p, t.sequence) q.active_timers } in
    let (left, e, agrees, limbo) =
      erase_active-some es others q₁ (subst (λ s. Agrees s q₁.active_timers q.objects) gone a') in
    let out : Absent p (es ++ others) = subst (Absent p) gone absent in
    (
      left,
      rw (alive, active) e,
      agrees,
      ((t, alive), small, Absent-left p es others out, Absent-right p es others out, limbo),
    )

before-bound :
    (when p now : ℕ) → p < last_address → before (when, p) (now, last_address) ≡ leb when now
unfolding before
before-bound when p now small = ground arith

-- The bound of `getExpired` splits the timers by their time.
split_by_time :
    (now when p : ℕ) (q : TimerQueue)
    → Valid q
    → (has (when, p) (split_at_bound (now, last_address) q.timers).0
        ≡ (has (when, p) q.timers && leb when now))
      × (has (when, p) (split_at_bound (now, last_address) q.timers).1
          ≡ (has (when, p) q.timers && not (leb when now)))
split_by_time now when p q v =
    let (early, late) = split_at_bound-has (now, last_address) (when, p) q.timers v.timers_sorted in
    elim (Bool-cases (has (when, p) q.timers)) [
      | inr absent ↦ (early ∙ rw absent refl, late ∙ rw absent refl)
      | inl there ↦
          let (t, alive, time, small, active) = v.forward when p there in
          (
            early ∙ rw (before-bound when p now small) refl,
            late ∙ rw (before-bound when p now small) refl,
          )
    ]

all_after :
    (now : ℕ) (s : List Pair)
    → ((when p : ℕ) → has (when, p) s ≡ true → leb when now ≡ false)
    → is_after now s ≡ true
unfolding has
all_after now [] h = refl
all_after now ((when, p) ∷ s) h =
    lt→ltb now when (leb_false→lt when now (h when p (or_left _ _ (same_refl (when, p)))))

rest_is_after :
    (now : ℕ) (q : TimerQueue)
    → Valid q
    → is_after now (split_at_bound (now, last_address) q.timers).1 ≡ true
rest_is_after now q v =
    all_after now (split_at_bound (now, last_address) q.timers).1
      λ when p there. late _ _ (sym (split_by_time now when p q v).1 ∙ there)
  where
    late : (a b : Bool) → (a && not b) ≡ true → b ≡ false
    late a true e = absurd (false≢true ((and_parts a false e).1))
    late a false e = refl

-- `getExpired` fails no assert. It returns all timers whose time has come and no others, leaves the
-- others in both sets, and the sets agree.
pub get_expired_lem :
    (now : ℕ) (q : TimerQueue)
    → Valid q
    → (es : List Pair) × (q' : TimerQueue) × (get_expired now q ≡ some (es, q'))
      × Valid q'
      × Limbo es q'.timers q'.objects
      × ((when p : ℕ)
          → (has (when, p) es ≡ (has (when, p) q.timers && leb when now))
            × (has (when, p) q'.timers ≡ (has (when, p) q.timers && not (leb when now))))
unfolding get_expired
get_expired_lem now q v =
    let es : List Pair = (split_at_bound (now, last_address) q.timers).0 in
    let others : List Pair = (split_at_bound (now, last_address) q.timers).1 in
    let whole : es ++ others ≡ q.timers = split_at_bound-append (now, last_address) q.timers in
    let (active, e, agrees, limbo) =
      erase_active-some es others (record q { timers = others })
        (subst (λ s. Agrees s q.active_timers q.objects) (sym whole) v) in
    (
      es,
      record q { timers = others; active_timers = active },
      rw
          (
            v.same_size,
            ==_refl (length q.active_timers),
            rest_is_after now q v,
            e,
            agrees.same_size,
            ==_refl (length active),
          )
          refl,
      agrees,
      limbo,
      λ when p. split_by_time now when p q v,
    )
