-- ===== src/PollPoller/Slots.antt =====
-- The channels and their places in the vector.
use muduo_pro.Common.{
  ℕ, zero, suc, ◌<◌, ◌≡◌, refl, sym, ap, ◌∙◌, inl, inr, true, false, some, some_injective, List, [],
  ◌∷◌, ◌++◌, arith, length, get_elem?, set, take, ◌==◌, ==_iff, ==_refl, Bool-cases, if◌then◌else◌,
  ℤ, pos, negsuc,
}
use muduo_pro.Poller.{put}
use muduo_pro.PollPoller.{PollPoller, Pollfd, stands_for, plain_fd}

module _ {ℓ} {A : Type ℓ} where
  pub get_elem?-set :
      (xs : List A) (i j : ℕ) (v : A)
      → i < length xs
      → get_elem? (set xs i v) j ≡ (if j == i then some v else get_elem? xs j)
  get_elem?-set [] i j v h = absurd (omega (arith, h))
  get_elem?-set (x ∷ xs) zero zero v h = refl
  get_elem?-set (x ∷ xs) zero (suc j) v h = rw (after_zero j)
    where
      after_zero : (j : ℕ) → (suc j == 0) ≡ false
      after_zero j = ground arith
  get_elem?-set (x ∷ xs) (suc i) zero v h = rw (before_suc i)
    where
      before_suc : (i : ℕ) → (0 == suc i) ≡ false
      before_suc i = ground arith
  get_elem?-set (x ∷ xs) (suc i) (suc j) v h =
      get_elem?-set xs i j v (omega (arith, h))
      ∙ ap (λ t. if t then some v else get_elem? xs j) (step j i)
    where
      step : (j i : ℕ) → (j == i) ≡ (suc j == suc i)
      step j i = ground arith

  pub get_elem?-take : (xs : List A) (n j : ℕ) → j < n → get_elem? (take n xs) j ≡ get_elem? xs j
  get_elem?-take xs zero j h = absurd (omega (arith, h))
  get_elem?-take [] (suc n) j h = refl
  get_elem?-take (x ∷ xs) (suc n) zero h = refl
  get_elem?-take (x ∷ xs) (suc n) (suc j) h = get_elem?-take xs n j (omega (arith, h))

  pub get_elem?-old :
      (xs ys : List A) (j : ℕ) → j < length xs → get_elem? (xs ++ ys) j ≡ get_elem? xs j
  get_elem?-old [] ys j h = absurd (omega (arith, h))
  get_elem?-old (x ∷ xs) ys zero h = refl
  get_elem?-old (x ∷ xs) ys (suc j) h = get_elem?-old xs ys j (omega (arith, h))

  pub get_elem?-new : (xs : List A) (y : A) → get_elem? (xs ++ (y ∷ [])) (length xs) ≡ some y
  get_elem?-new [] y = refl
  get_elem?-new (x ∷ xs) y = get_elem?-new xs y

  pub get_elem?-in_range : (xs : List A) (j : ℕ) (v : A) → get_elem? xs j ≡ some v → j < length xs
  get_elem?-in_range [] j v e = absurd cc
  get_elem?-in_range (x ∷ xs) zero v e = omega arith
  get_elem?-in_range (x ∷ xs) (suc j) v e = omega (arith, get_elem?-in_range xs j v e)

pub plain : (z : ℤ) (fd : ℕ) → stands_for z fd ≡ true → plain_fd z ≡ fd
plain (pos n) fd h = (==_iff n fd).0 h
plain (negsuc n) fd h = (==_iff n fd).0 h

-- A channel under its descriptor, its index, and its entry there.
pub record At (s : PollPoller) (fd p i : ℕ) (pfd : Pollfd) : Type 0 where
  pub own : (s.objects p).fd ≡ fd
  pub index : (s.objects p).index ≡ some i
  pub entry : get_elem? s.pollfds i ≡ some pfd
  pub stands : stands_for pfd.fd fd ≡ true

-- Every channel in the map has an entry, and every entry has a channel.
pub record Valid (s : PollPoller) : Type 0 where
  pub at : (fd p : ℕ) → s.channels fd ≡ some p → (i : ℕ) × (pfd : Pollfd) × At s fd p i pfd
  pub slot :
      (i : ℕ)
      → i < length s.pollfds
      → (fd p : ℕ) × (s.channels fd ≡ some p) × ((s.objects p).index ≡ some i)

pub differ : (a b : ℕ) → (a ≡ b → ⊥) → (a == b) ≡ false
differ a b ne = elim (Bool-cases (a == b)) [
  | inl same ↦ absurd (ne ((==_iff a b).0 same))
  | inr other ↦ other
]

-- Two channels with one index are one.
pub same_fd :
    (s : PollPoller) (fd fd' p q i : ℕ)
    → Valid s
    → s.channels fd ≡ some p
    → s.channels fd' ≡ some q
    → (s.objects p).index ≡ some i
    → (s.objects q).index ≡ some i
    → fd ≡ fd'
same_fd s fd fd' p q i v cp cq ip iq =
    let (j, a, x) = v.at fd p cp in
    let (k, b, y) = v.at fd' q cq in
    let ji : j ≡ i = some_injective (sym x.index ∙ ip) in
    let ki : k ≡ i = some_injective (sym y.index ∙ iq) in
    let one : a ≡ b =
      some_injective (sym x.entry ∙ ap (get_elem? s.pollfds) (ji ∙ sym ki) ∙ y.entry) in
    sym (plain a.fd fd x.stands) ∙ ap (λ e. plain_fd e.fd) one ∙ plain b.fd fd' y.stands

module _ {ℓ} {A : Type ℓ} (f : ℕ → A) (k : ℕ) (v : A) where
  pub put_at : put f k v k ≡ v
  put_at = rw (==_refl k) refl

  pub put_off : (j : ℕ) → (j == k) ≡ false → put f k v j ≡ f j
  put_off j e = rw e refl

-- The channel and its entry are as before.
pub At-kept :
    (s s' : PollPoller) (fd q i : ℕ) (pfd : Pollfd)
    → At s fd q i pfd
    → s'.objects q ≡ s.objects q
    → get_elem? s'.pollfds i ≡ some pfd
    → At s' fd q i pfd
At-kept s s' fd q i pfd a same entry = record {
  own = ap (λ c. c.fd) same ∙ a.own;
  index = ap (λ c. c.index) same ∙ a.index;
  entry = entry;
  stands = a.stands;
}

-- A channel under another descriptor is another channel.
pub other_channel :
    (s : PollPoller) (fd fd' p q : ℕ)
    → Valid s
    → s.channels fd ≡ some p
    → s.channels fd' ≡ some q
    → (fd == fd') ≡ false
    → (p == q) ≡ false
other_channel s fd fd' p q v cp cq e =
    let (i, a, x) = v.at fd p cp in
    let (j, b, y) = v.at fd' q cq in
    differ p q
      (λ same. clash ((==_iff fd fd').1 (sym x.own ∙ ap (λ r. (s.objects r).fd) same ∙ y.own)))
  where
    clash : (fd == fd') ≡ true → ⊥
    clash t = cc
