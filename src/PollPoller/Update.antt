-- ===== src/PollPoller/Update.antt =====
-- `updateChannel` of PollPoller, for a channel that is known.
use muduo_pro.Common.{
  ◌||◌, ℕ, ◌<◌, ◌≡◌, refl, sym, ap, subst, ◌∙◌, inl, inr, Bool, true, false, some, some_injective,
  length, get_elem?, set, ◌==◌, ==_iff, ==_refl, Bool-cases, if◌then◌else◌, ℤ, negsuc, length-set,
}
use muduo_pro.Channel.{is_zero}
use muduo_pro.PollPoller.{PollPoller, Pollfd, stands_for, is_ignored, refresh, update_channel}
use muduo_pro.PollPoller.Slots.{get_elem?-set, get_elem?-in_range, At-kept, At, Valid, same_fd}

-- What updateChannel does with a channel that is known.
module _ (s : PollPoller) (fd p i : ℕ) (pfd : Pollfd) where
  unfoldable pub refreshed : PollPoller
  refreshed = record s { pollfds = set s.pollfds i (refresh (s.objects p) pfd) }

  refresh-stands : At s fd p i pfd → stands_for (refresh (s.objects p) pfd).fd fd ≡ true
  refresh-stands a = elim (Bool-cases (is_zero (s.objects p).events)) [
    | inl none_left ↦
        subst (λ b. stands_for (if b then negsuc (s.objects p).fd else pfd.fd) fd ≡ true)
          (sym none_left) (ap (λ n. n == fd) a.own ∙ ==_refl fd)
    | inr some_left ↦
        subst (λ b. stands_for (if b then negsuc (s.objects p).fd else pfd.fd) fd ≡ true)
          (sym some_left) a.stands
  ]

  refreshed_entry :
      (j : ℕ)
      → i < length s.pollfds
      → get_elem? refreshed.pollfds j
        ≡ (if j == i then some (refresh (s.objects p) pfd) else get_elem? s.pollfds j)
  unfolding refreshed
  refreshed_entry j lt = get_elem?-set s.pollfds i j (refresh (s.objects p) pfd) lt

  pub refreshed-At : At s fd p i pfd → At refreshed fd p i (refresh (s.objects p) pfd)
  unfolding refreshed
  refreshed-At a = record {
    own = a.own;
    index = a.index;
    entry =
        refreshed_entry i (get_elem?-in_range s.pollfds i pfd a.entry)
        ∙ ap (λ b. if b then some (refresh (s.objects p) pfd) else get_elem? s.pollfds i)
            (==_refl i);
    stands = refresh-stands a;
  }

  refreshed_places :
      Valid s
      → s.channels fd ≡ some p
      → At s fd p i pfd
      → (fd' q : ℕ) → s.channels fd' ≡ some q
      → (j : ℕ) × (pfd' : Pollfd) × At refreshed fd' q j pfd'
  unfolding refreshed
  refreshed_places v known a fd' q c =
      let (j, old, b) = v.at fd' q c in
      elim (Bool-cases (j == i)) [
        | inl e ↦
            let same : fd ≡ fd' =
              same_fd s fd fd' p q i v known c a.index (b.index ∙ ap some ((==_iff j i).0 e)) in
            let p_q : p ≡ q = some_injective (sym known ∙ ap s.channels same ∙ c) in
            (
              i,
              refresh (s.objects p) pfd,
              subst (λ d. At refreshed d q i (refresh (s.objects p) pfd)) same
                  (subst (λ r. At refreshed fd r i (refresh (s.objects p) pfd)) p_q
                    (refreshed-At a)),
            )
        | inr e ↦ (
          j,
          old,
          At-kept s refreshed fd' q j old b refl (
              refreshed_entry j (get_elem?-in_range s.pollfds i pfd a.entry)
              ∙ ap (λ t. if t then some (refresh (s.objects p) pfd) else get_elem? s.pollfds j) e
              ∙ b.entry),
        )
      ]

  pub refreshed-Valid : Valid s → s.channels fd ≡ some p → At s fd p i pfd → Valid refreshed
  unfolding refreshed
  refreshed-Valid v known a = record {
    at = refreshed_places v known a;
    slot = λ j lt.
        v.slot j (subst (λ n. j < n) (length-set s.pollfds i (refresh (s.objects p) pfd)) lt);
  }

  update_refreshes : s.channels fd ≡ some p → At s fd p i pfd → update_channel p s ≡ some refreshed
  unfolding update_channel refreshed
  update_refreshes known a =
      rw
        (
          a.index,
          ap s.channels a.own,
          known,
          ==_refl p,
          a.entry,
          ap (stands_for pfd.fd) a.own,
          a.stands,
        )
        refl

-- updateChannel of a channel that is known keeps the vector and the map in step; the entry of the
-- channel gets its events, and is ignored from now on when it was ignored or no event is left.
pub update_known :
    (s : PollPoller) (fd p : ℕ)
    → Valid s
    → s.channels fd ≡ some p
    → (i : ℕ) × (old now : Pollfd) × (s' : PollPoller) × At s fd p i old
      × (update_channel p s ≡ some s')
      × Valid s'
      × At s' fd p i now
      × (now.events ≡ (s.objects p).events)
      × (is_ignored now.fd fd ≡ (is_zero (s.objects p).events || is_ignored old.fd fd))
unfolding refreshed
update_known s fd p v known =
    let (i, old, a) = v.at fd p known in
    (
      i,
      old,
      refresh (s.objects p) old,
      refreshed s fd p i old,
      a,
      update_refreshes s fd p i old known a,
      refreshed-Valid s fd p i old v known a,
      refreshed-At s fd p i old a,
      refl,
      ignored (is_zero (s.objects p).events) old.fd a.own,
    )
  where
    ignored :
        (b : Bool) (z : ℤ)
        → (s.objects p).fd ≡ fd
        → is_ignored (if b then negsuc (s.objects p).fd else z) fd ≡ (b || is_ignored z fd)
    ignored true z own = ap (λ n. n == fd) own ∙ ==_refl fd
    ignored false z own = refl
