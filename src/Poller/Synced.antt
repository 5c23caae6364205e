-- ===== src/Poller/Synced.antt =====
-- EPollPoller keeps the interest list of the kernel in step with its channels.
use muduo_pro.Common.{
  ℕ, ◌≡◌, refl, sym, ap, subst, ◌∙◌, inl, inr, true, false, false≢true, Option, none, some, ◌==◌,
  ==_iff, ==_refl, Bool-cases, some_injective, ◌⊎◌, arith,
}
use muduo_pro.Channel.{Events, is_zero}
use muduo_pro.Poller.{Index, new, added, deleted, PolledChannel, put, EpollCalls}
use muduo_pro.Poller.Epoll.{holds, EpollPoller}

-- Where a channel stands by its index, from its entries in the poller's table and the kernel's: a new
-- one is not in the poller's table; an added one is in both, with its events; a deleted one only in
-- the poller's, and awaits nothing.
abbrev pub Stands : Index → ℕ → Events → Option ℕ → Option (Events × ℕ) → Type 0
Stands new p ev owner kernel = holds owner p ≡ false
Stands added p ev owner kernel = (owner ≡ some p) × (kernel ≡ some (ev, p))
Stands deleted p ev owner kernel = (owner ≡ some p) × (kernel ≡ none) × (is_zero ev ≡ true)

-- The entry of a descriptor is free or that of `p`.
abbrev pub Only : ℕ → Option ℕ → Type 0
Only p owner = (owner ≡ none) ⊎ (owner ≡ some p)

taken {ℓ} :
    {A : Type ℓ} (owner : Option ℕ) (q p : ℕ) → (q == p) ≡ false → Only p owner → owner ≡ some q → A
taken owner q p other (inl free) own = cc
taken owner q p other (inr mine) own = absurd (
    false≢true
      (sym other ∙ subst (λ k. (q == k) ≡ true) (some_injective (sym own ∙ mine)) (==_refl q)))

-- A channel other than `p` does not depend on an entry that is only for `p`.
Stands-other :
    (i : Index) (q p : ℕ) (ev : Events) (owner owner' : Option ℕ)
    (kernel kernel' : Option (Events × ℕ))
    → (q == p) ≡ false
    → Only p owner
    → Only p owner'
    → Stands i q ev owner kernel
    → Stands i q ev owner' kernel'
Stands-other new q p ev owner owner' kernel kernel' other only (inl free) s = rw free refl
Stands-other new q p ev owner owner' kernel kernel' other only (inr mine) s = rw mine (flip other)
  where
    flip : (q == p) ≡ false → (p == q) ≡ false
    flip e = ground arith
Stands-other added q p ev owner owner' kernel kernel' other only only' (own, held) =
    taken owner q p other only own
Stands-other deleted q p ev owner owner' kernel kernel' other only only' (own, absent, quiet) =
    taken owner q p other only own

module _ (calls : EpollCalls) where
  open calls use {Instance, interest, epoll_ctl}

  -- How the channel at a pointer stands in a poller.
  abbrev pub StandsIn : EpollPoller calls → ℕ → PolledChannel → Type 0
  StandsIn s p ch = Stands ch.index p ch.events (s.channels ch.fd) (interest s.instance_ ch.fd)

  -- Every channel stands as its index says, and a descriptor that is in no table of the poller is not
  -- in the kernel's. A channel in the table of the poller is there under its own descriptor.
  pub record Synced (s : EpollPoller calls) : Type 0 where
    pub stands : (p : ℕ) → StandsIn s p (s.objects p)
    pub under : (fd p : ℕ) → s.channels fd ≡ some p → (s.objects p).fd ≡ fd
    pub free : (fd : ℕ) → s.channels fd ≡ none → interest s.instance_ fd ≡ none

  -- The user changes the events of a channel, then calls update.
  abbrev pub with_events : ℕ → Events → EpollPoller calls → EpollPoller calls
  with_events p ev s = record s { objects = put s.objects p (record (s.objects p) { events = ev }) }

  -- A poller that differs from another at the channel `p` and its descriptor only.
  pub record Differs (p : ℕ) (s s' : EpollPoller calls) : Type 0 where
    pub objects_same : (q : ℕ) → (q == p) ≡ false → s'.objects q ≡ s.objects q
    pub fd_same : (s'.objects p).fd ≡ (s.objects p).fd
    pub channels_same : (fd : ℕ) → (fd == (s.objects p).fd) ≡ false → s'.channels fd ≡ s.channels fd
    pub interest_same :
        (fd : ℕ)
        → (fd == (s.objects p).fd) ≡ false
        → interest s'.instance_ fd ≡ interest s.instance_ fd
    pub owned : Only p (s.channels (s.objects p).fd)
    pub owned' : Only p (s'.channels (s.objects p).fd)

  pub Differs-Synced :
      {s s' : EpollPoller calls} (p : ℕ)
      → Synced s
      → Differs p s s'
      → StandsIn s' p (s'.objects p)
      → (s'.channels (s.objects p).fd ≡ none → interest s'.instance_ (s.objects p).fd ≡ none)
      → Synced s'
  Differs-Synced {s} {s'} p y d here released = record {
    stands = λ q. elim (Bool-cases (q == p)) [
      | inl e ↦ subst (λ k. StandsIn s' k (s'.objects k)) (sym ((==_iff q p).0 e)) here
      | inr other ↦ subst (StandsIn s' q) (sym (d.objects_same q other)) (stands_other q other)
    ];
    under = λ fd q listed. listed_under fd q listed;
    free = λ fd empty. elim (Bool-cases (fd == (s.objects p).fd)) [
      | inl e ↦
          let same_fd = (==_iff fd (s.objects p).fd).0 e in
          subst (λ k. interest s'.instance_ k ≡ none) (sym same_fd)
            (released (ap s'.channels (sym same_fd) ∙ empty))
      | inr other ↦ d.interest_same fd other ∙ y.free fd (sym (d.channels_same fd other) ∙ empty)
    ];
  }
    where
      at_p : (fd q : ℕ) → s'.channels fd ≡ some q → (q == p) ≡ true → (s.objects p).fd ≡ fd
      at_p fd q listed e = elim (Bool-cases (fd == (s.objects p).fd)) [
        | inl f ↦ sym ((==_iff fd (s.objects p).fd).0 f)
        | inr apart ↦
            y.under fd p (sym (d.channels_same fd apart) ∙ listed ∙ ap some ((==_iff q p).0 e))
      ]

      elsewhere : (fd q : ℕ) → s'.channels fd ≡ some q → (q == p) ≡ false → (s.objects q).fd ≡ fd
      elsewhere fd q listed other = elim (Bool-cases (fd == (s.objects p).fd)) [
        | inl f ↦
            taken (s'.channels (s.objects p).fd) q p other d.owned'
              (ap s'.channels (sym ((==_iff fd (s.objects p).fd).0 f)) ∙ listed)
        | inr apart ↦ y.under fd q (sym (d.channels_same fd apart) ∙ listed)
      ]

      listed_under : (fd q : ℕ) → s'.channels fd ≡ some q → (s'.objects q).fd ≡ fd
      listed_under fd q listed = elim (Bool-cases (q == p)) [
        | inl e ↦
            subst (λ k. (s'.objects k).fd ≡ fd) (sym ((==_iff q p).0 e))
              (d.fd_same ∙ at_p fd q listed e)
        | inr other ↦ ap (λ ch. ch.fd) (d.objects_same q other) ∙ elsewhere fd q listed other
      ]

      stands_other : (q : ℕ) → (q == p) ≡ false → StandsIn s' q (s.objects q)
      stands_other q other = elim (Bool-cases ((s.objects q).fd == (s.objects p).fd)) [
        | inr apart ↦
            rw (d.channels_same (s.objects q).fd apart, d.interest_same (s.objects q).fd apart)
              (y.stands q)
        | inl e ↦
            let same_fd = (==_iff (s.objects q).fd (s.objects p).fd).0 e in
            Stands-other (s.objects q).index q p (s.objects q).events (s.channels (s.objects q).fd)
              (s'.channels (s.objects q).fd) (interest s.instance_ (s.objects q).fd)
              (interest s'.instance_ (s.objects q).fd) other
              (subst (λ k. Only p (s.channels k)) (sym same_fd) d.owned)
              (subst (λ k. Only p (s'.channels k)) (sym same_fd) d.owned') (y.stands q)
      ]

  pub taken_by : {p : ℕ} {owner : Option ℕ} {A : Type 0} → owner ≡ some p → owner ≡ none → A
  taken_by own absent = cc

  pub holds_own : (owner : Option ℕ) (p : ℕ) → owner ≡ some p → holds owner p ≡ true
  holds_own owner p e = rw (e, ==_refl p) refl

  pub put_here {ℓ} : {A : Type ℓ} (f : ℕ → A) (k : ℕ) (v : A) → put f k v k ≡ v
  put_here f k v = rw (==_refl k) refl

  pub put_other {ℓ} :
      {A : Type ℓ} (f : ℕ → A) (k j : ℕ) (v : A) → (j == k) ≡ false → put f k v j ≡ f j
  put_other f k j v e = rw e refl

  -- A poller after a call for the channel `p`, whose object became `a` and then `b`.
  abbrev pub after :
      EpollPoller calls
      → ℕ
      → PolledChannel
      → PolledChannel
      → (ℕ → Option ℕ)
      → Instance
      → EpollPoller calls
  after s p a b channels k = record s {
    instance_ = k;
    channels = channels;
    objects = put (put s.objects p a) p b;
  }

  pub after-Synced :
      {s : EpollPoller calls} (p : ℕ) (a b : PolledChannel) (channels : ℕ → Option ℕ) (k : Instance)
      → Synced s
      → b.fd ≡ (s.objects p).fd
      → ((fd : ℕ) → (fd == (s.objects p).fd) ≡ false → channels fd ≡ s.channels fd)
      → ((fd : ℕ) → (fd == (s.objects p).fd) ≡ false → interest k fd ≡ interest s.instance_ fd)
      → Only p (s.channels (s.objects p).fd)
      → Only p (channels (s.objects p).fd)
      → Stands b.index p b.events (channels (s.objects p).fd) (interest k (s.objects p).fd)
      → (channels (s.objects p).fd ≡ none → interest k (s.objects p).fd ≡ none)
      → Synced (after s p a b channels k)
  after-Synced {s} p a b channels k y fd_same c i owned owned' here released =
      Differs-Synced p y
        (record {
          objects_same = λ q other. rw other refl;
          fd_same = ap (λ ch. ch.fd) (put_here (put s.objects p a) p b) ∙ fd_same;
          channels_same = c;
          interest_same = i;
          owned = owned;
          owned' = owned';
        })
        (subst (StandsIn (after s p a b channels k) p) (sym (put_here (put s.objects p a) p b)) (
          subst (λ fd. Stands b.index p b.events (channels fd) (interest k fd)) (sym fd_same) here))
        released
