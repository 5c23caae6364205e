-- ===== src/PollPoller/Taken.antt =====
-- The two ways in which `removeChannel` of PollPoller takes the entry off.
use muduo_pro.Common.{
  ℕ, suc, ◌-◌, ◌<◌, ◌≡◌, refl, sym, ap, subst, ◌∙◌, inl, inr, true, false, Option, none, some,
  some_injective, arith, length, get_elem?, set, take, ◌==◌, ==_iff, ==_refl, Bool-cases,
  if◌then◌else◌, length-set, length-take,
}
use muduo_pro.Poller.{put}
use muduo_pro.PollPoller.{PollPoller, Pollfd, stands_for, plain_fd}
use muduo_pro.PollPoller.Slots.{
  get_elem?-set, get_elem?-take, get_elem?-in_range, put_at, put_off, same_fd, At-kept, At, Valid,
  differ, plain,
}

-- Two channels of the map with different indices.
module _ (s : PollPoller) (fd fd' p q i j : ℕ) where
  different_objects :
      (s.objects p).index ≡ some i
      → (s.objects q).index ≡ some j
      → (j == i) ≡ false
      → (q == p) ≡ false
  different_objects x y ne =
      differ q p
        (λ e. clash ((==_iff j i).1 (some_injective (sym y ∙ ap (λ r. (s.objects r).index) e ∙ x))))
    where
      clash : (j == i) ≡ true → ⊥
      clash t = cc

  pub different_fds :
      s.channels fd ≡ some p
      → s.channels fd' ≡ some q
      → (s.objects p).index ≡ some i
      → (s.objects q).index ≡ some j
      → (j == i) ≡ false
      → (fd' == fd) ≡ false
  different_fds c c' x y ne = differ fd' fd (λ e.
      clash ((==_iff q p).1 (some_injective (sym c' ∙ ap s.channels e ∙ c)))
        (different_objects x y ne))
    where
      clash : (q == p) ≡ true → (q == p) ≡ false → ⊥
      clash t f = cc

-- The channel that removeChannel takes off, at the place i.
module _ (s : PollPoller) (fd p i : ℕ) (pfd : Pollfd) (v : Valid s) (known : s.channels fd ≡ some p)
    (a : At s fd p i pfd) where
  unfoldable pub freed : ℕ → Option ℕ
  freed = put s.channels fd none

  -- A channel that stays, with its index.
  stays : (fd' q : ℕ) → freed fd' ≡ some q → (fd' == fd) ≡ false × (s.channels fd' ≡ some q)
  unfolding freed
  stays fd' q c = elim (Bool-cases (fd' == fd)) [
    | inl e ↦ absurd (none_some (sym (ap (λ b. if b then none else s.channels fd') e) ∙ c))
    | inr e ↦ (e, sym (put_off s.channels fd none fd' e) ∙ c)
  ]
    where
      none_some : none ≡ some q → ⊥
      none_some e = cc

  place_differs :
      (fd' q j : ℕ)
      → (fd' == fd) ≡ false
      → s.channels fd' ≡ some q
      → (s.objects q).index ≡ some j
      → (pfd' : Pollfd) → get_elem? s.pollfds j ≡ some pfd'
      → stands_for pfd'.fd fd' ≡ true
      → (j == i) ≡ false
  place_differs fd' q j ne c x pfd' entry stands = differ j i (λ e.
      let one : pfd' ≡ pfd = some_injective (sym entry ∙ ap (get_elem? s.pollfds) e ∙ a.entry) in
      clash (
        (==_iff fd' fd).1 (
          sym (plain pfd'.fd fd' stands) ∙ ap (λ r. plain_fd r.fd) one ∙ plain pfd.fd fd a.stands)))
    where
      clash : (fd' == fd) ≡ true → ⊥
      clash t = cc

  pub in_range : i < length s.pollfds
  in_range = get_elem?-in_range s.pollfds i pfd a.entry

  -- The entry is the last one.
  module _ (is_last : suc i ≡ length s.pollfds) where
    unfoldable pub popped : PollPoller
    popped = record s { pollfds = take (length s.pollfds - 1) s.pollfds; channels = freed }

    popped_places :
        (fd' q : ℕ) → freed fd' ≡ some q → (j : ℕ) × (pfd' : Pollfd) × At popped fd' q j pfd'
    unfolding popped
    popped_places fd' q c =
        let (ne, c') = stays fd' q c in
        let (j, old, b) = v.at fd' q c' in
        let apart = place_differs fd' q j ne c' b.index old b.entry b.stands in
        let lt = get_elem?-in_range s.pollfds j old b.entry in
        (
          j,
          old,
          At-kept s popped fd' q j old b refl (
              get_elem?-take s.pollfds (length s.pollfds - 1) j (ground (arith, apart, lt, is_last))
              ∙ b.entry),
        )

    popped-slot :
        (j : ℕ)
        → j < length popped.pollfds
        → (fd' q : ℕ) × (freed fd' ≡ some q) × ((s.objects q).index ≡ some j)
    unfolding popped freed
    popped-slot j lt =
        let (fd', q, c, x) =
          v.slot j (ground (arith, lt, length-take (length s.pollfds - 1) s.pollfds)) in
        let apart : (j == i) ≡ false =
          ground (arith, lt, length-take (length s.pollfds - 1) s.pollfds, is_last) in
        (
          fd',
          q,
          put_off s.channels fd none fd' (different_fds s fd fd' p q i j known c a.index x apart)
              ∙ c,
          x,
        )

    pub popped-Valid : Valid popped
    unfolding popped
    popped-Valid = record { at = popped_places; slot = popped-slot }

  -- The entry is swapped with the last one, whose channel is q.
  module _ (fd_l q : ℕ) (last : Pollfd) (not_last : (suc i == length s.pollfds) ≡ false)
      (known_l : s.channels fd_l ≡ some q) (at_l : At s fd_l q (length s.pollfds - 1) last) where
    unfoldable pub swapped : PollPoller
    swapped = record s {
      pollfds = take (length s.pollfds - 1) (set (set s.pollfds i last) (length s.pollfds - 1) pfd);
      objects = put s.objects q (record (s.objects q) { index = some i });
      channels = freed;
    }

    pub i_apart : (length s.pollfds - 1 == i) ≡ false
    i_apart = ground (arith, not_last, in_range)

    pub length-swapped : length swapped.pollfds ≡ length s.pollfds - 1
    unfolding swapped
    length-swapped =
        let once = length-set s.pollfds i last in
        let twice = length-set (set s.pollfds i last) (length s.pollfds - 1) pfd in
        omega (
          arith,
          once,
          twice,
          length-take (length s.pollfds - 1)
              (set (set s.pollfds i last) (length s.pollfds - 1) pfd),
        )

    swapped_entry :
        (j : ℕ)
        → j < length s.pollfds - 1
        → get_elem? swapped.pollfds j ≡ (if j == i then some last else get_elem? s.pollfds j)
    unfolding swapped
    swapped_entry j lt =
        let below : (j == length s.pollfds - 1) ≡ false = ground (arith, lt) in
        let fits : length s.pollfds - 1 < length (set s.pollfds i last) =
          omega (arith, in_range, length-set s.pollfds i last) in
        get_elem?-take (set (set s.pollfds i last) (length s.pollfds - 1) pfd)
          (length s.pollfds - 1) j lt
        ∙ get_elem?-set (set s.pollfds i last) (length s.pollfds - 1) j pfd fits
        ∙ ap (λ b. if b then some pfd else get_elem? (set s.pollfds i last) j) below
        ∙ get_elem?-set s.pollfds i j last in_range

    moved-At : At swapped fd_l q i last
    unfolding swapped
    moved-At = record {
      own =
          ap (λ c. c.fd) (put_at s.objects q (record (s.objects q) { index = some i })) ∙ at_l.own;
      index = ap (λ c. c.index) (put_at s.objects q (record (s.objects q) { index = some i }));
      entry =
          swapped_entry i (ground (arith, not_last, in_range))
          ∙ ap (λ b. if b then some last else get_elem? s.pollfds i) (==_refl i);
      stands = at_l.stands;
    }

    swapped_places :
        (fd' r : ℕ) → freed fd' ≡ some r → (j : ℕ) × (pfd' : Pollfd) × At swapped fd' r j pfd'
    unfolding swapped
    swapped_places fd' r c =
        let (ne, c') = stays fd' r c in
        let (j, old, b) = v.at fd' r c' in
        let lt = get_elem?-in_range s.pollfds j old b.entry in
        elim (Bool-cases (j == length s.pollfds - 1)) [
          | inl e ↦
              let same : fd_l ≡ fd' =
                same_fd s fd_l fd' q r (length s.pollfds - 1) v known_l c' at_l.index
                  (b.index ∙ ap some ((==_iff j (length s.pollfds - 1)).0 e)) in
              let q_r : q ≡ r = some_injective (sym known_l ∙ ap s.channels same ∙ c') in
              (
                i,
                last,
                subst (λ d. At swapped d r i last) same
                    (subst (λ o. At swapped fd_l o i last) q_r moved-At),
              )
          | inr e ↦
              let apart = place_differs fd' r j ne c' b.index old b.entry b.stands in
              let other =
                different_objects s fd_l fd' q r (length s.pollfds - 1) j at_l.index b.index e in
              (
                j,
                old,
                At-kept s swapped fd' r j old b
                    (put_off s.objects q (record (s.objects q) { index = some i }) r other)
                    (swapped_entry j (ground (arith, e, lt))
                      ∙ ap (λ t. if t then some last else get_elem? s.pollfds j) apart
                      ∙ b.entry),
              )
        ]

    swapped-slot :
        (j : ℕ)
        → j < length swapped.pollfds
        → (fd' r : ℕ) × (freed fd' ≡ some r) × ((swapped.objects r).index ≡ some j)
    unfolding swapped freed
    swapped-slot j lt =
        let fits : j < length s.pollfds - 1 = subst (λ n. j < n) length-swapped lt in
        elim (Bool-cases (j == i)) [
          | inl e ↦ (
            fd_l,
            q,
            put_off s.channels fd none fd_l (
                  different_fds s fd fd_l p q i (length s.pollfds - 1) known known_l a.index
                    at_l.index i_apart)
                ∙ known_l,
            ap (λ c. c.index) (put_at s.objects q (record (s.objects q) { index = some i }))
                ∙ ap some (sym ((==_iff j i).0 e)),
          )
          | inr e ↦
              let (fd', r, c, x) = v.slot j (omega (arith, fits)) in
              let below : (j == length s.pollfds - 1) ≡ false = ground (arith, fits) in
              (
                fd',
                r,
                put_off s.channels fd none fd' (different_fds s fd fd' p r i j known c a.index x e)
                    ∙ c,
                ap (λ o. o.index)
                      (put_off s.objects q (record (s.objects q) { index = some i }) r
                        (different_objects s fd_l fd' q r (length s.pollfds - 1) j at_l.index x
                          below))
                    ∙ x,
              )
        ]

    pub swapped-Valid : Valid swapped
    unfolding swapped
    swapped-Valid = record { at = swapped_places; slot = swapped-slot }
