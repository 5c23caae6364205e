-- ===== src/Poller/Update.antt =====
-- `updateChannel` and `removeChannel` of EPollPoller.
use muduo_pro.Common.{
  ℕ, ◌≡◌, refl, sym, ap, subst, ◌∙◌, inl, inr, true, false, false≢true, none, some, ◌==◌,
  Bool-cases,
}
use muduo_pro.Channel.{Events, is_zero}
use muduo_pro.Poller.{
  Index, new, added, deleted, PolledChannel, put, Operation, ctl_add, ctl_mod, ctl_del, EpollCalls,
  IsDocumented,
}
use muduo_pro.Poller.Epoll.{
  EpollPoller, set_index, update, update_by, update_channel, remove_channel,
}
use muduo_pro.Poller.Synced.{
  Stands, StandsIn, Synced, with_events, Differs-Synced, after, after-Synced, taken_by, holds_own,
  put_here, put_other,
}

module _ (calls : EpollCalls) (documented : IsDocumented calls) where
  open calls use {Instance, interest, epoll_ctl}

  update-some :
      (op : Operation) (p : ℕ) (ch : PolledChannel) (s : EpollPoller calls) {k : Instance}
      → epoll_ctl op ch.fd ch.events p s.instance_ ≡ some k
      → update calls op p ch s ≡ some (record s { instance_ = k })
  unfolding update
  update-some op p ch s e = rw (e, update) refl

  read :
      (p : ℕ) (ev : Events) (s : EpollPoller calls)
      → update_channel calls p (with_events calls p ev s)
        ≡ update_by calls
            (s.objects p).index
            p
            (record (s.objects p) { events = ev })
            (with_events calls p ev s)
  unfolding update_channel
  read p ev s =
      ap (λ ch. update_by calls ch.index p ch (with_events calls p ev s))
        (put_here calls s.objects p (record (s.objects p) { events = ev }))

  -- `update_channel` of a channel whose events the user has changed, by its index before.
  update_new :
      (p : ℕ) (ev : Events) (s : EpollPoller calls)
      → Synced calls s
      → (s.objects p).index ≡ new
      → s.channels (s.objects p).fd ≡ none
      → (s' : EpollPoller calls) × (update_channel calls p (with_events calls p ev s) ≡ some s')
        × Synced calls s'
  unfolding update_channel update set_index
  update_new p ev s y i free =
      let (k, e, entry) =
        documented.adds (s.objects p).fd p ev s.instance_ (y.free (s.objects p).fd free) in
      let a : PolledChannel = record (s.objects p) { events = ev } in
      let b : PolledChannel = record a { index = added } in
      let owner : put s.channels (s.objects p).fd (some p) (s.objects p).fd ≡ some p =
        put_here calls s.channels (s.objects p).fd (some p) in
      (
        after calls s p a b (put s.channels (s.objects p).fd (some p)) k,
        read p ev s ∙ rw (i, free) (update-some ctl_add p (record a { index = new }) _ e),
        after-Synced calls p a b (put s.channels (s.objects p).fd (some p)) k y refl
            (λ j other. put_other calls s.channels (s.objects p).fd j (some p) other)
            (λ j other.
              entry j
              ∙ put_other calls (interest s.instance_) (s.objects p).fd j (some (ev, p)) other)
            (inl free) (inr owner)
            (
              owner,
              entry (s.objects p).fd
                  ∙ put_here calls (interest s.instance_) (s.objects p).fd (some (ev, p)),
            )
            (λ absent. taken_by calls owner absent),
      )

  update_deleted :
      (p : ℕ) (ev : Events) (s : EpollPoller calls)
      → Synced calls s
      → (s.objects p).index ≡ deleted
      → (s' : EpollPoller calls) × (update_channel calls p (with_events calls p ev s) ≡ some s')
        × Synced calls s'
  unfolding update_channel set_index
  update_deleted p ev s y i =
      let (own, absent, quiet) =
        subst
          (λ i.
            Stands i p (s.objects p).events (s.channels (s.objects p).fd)
              (interest s.instance_ (s.objects p).fd))
          i (y.stands p) in
      let (k, e, entry) = documented.adds (s.objects p).fd p ev s.instance_ absent in
      let a : PolledChannel = record (s.objects p) { events = ev } in
      let b : PolledChannel = record a { index = added } in
      (
        after calls s p a b s.channels k,
        read p ev s ∙ rw (i, holds_own calls _ p own) (update-some ctl_add p _ _ e),
        after-Synced calls p a b s.channels k y refl (λ j other. refl)
            (λ j other.
              entry j
              ∙ put_other calls (interest s.instance_) (s.objects p).fd j (some (ev, p)) other)
            (inr own) (inr own)
            (
              own,
              entry (s.objects p).fd
                  ∙ put_here calls (interest s.instance_) (s.objects p).fd (some (ev, p)),
            )
            (λ absent. taken_by calls own absent),
      )

  update_added :
      (p : ℕ) (ev : Events) (s : EpollPoller calls)
      → Synced calls s
      → (s.objects p).index ≡ added
      → (s' : EpollPoller calls) × (update_channel calls p (with_events calls p ev s) ≡ some s')
        × Synced calls s'
  unfolding update_channel set_index
  update_added p ev s y i =
      let (own, held) =
        subst
          (λ i.
            Stands i p (s.objects p).events (s.channels (s.objects p).fd)
              (interest s.instance_ (s.objects p).fd))
          i (y.stands p) in
      elim (Bool-cases (is_zero ev)) [
        | inl quiet ↦
            let (k, e, entry) =
              documented.deletes (s.objects p).fd p ev (s.objects p).events s.instance_ held in
            let a : PolledChannel = record (s.objects p) { events = ev } in
            let b : PolledChannel = record a { index = deleted } in
            (
              after calls s p a b s.channels k,
              read p ev s
                  ∙ rw
                      (
                        i,
                        holds_own calls _ p own,
                        quiet,
                        update-some ctl_del p (record a { index = added })
                            (record s { objects = put s.objects p (record a { index = added }) }) e,
                      )
                      refl,
              after-Synced calls p a b s.channels k y refl (λ j other. refl)
                  (λ j other.
                    entry j ∙ put_other calls (interest s.instance_) (s.objects p).fd j none other)
                  (inr own) (inr own)
                  (
                    own,
                    entry (s.objects p).fd
                        ∙ put_here calls (interest s.instance_) (s.objects p).fd none,
                    quiet,
                  )
                  (λ absent. taken_by calls own absent),
            )
        | inr busy ↦
            let (k, e, entry) =
              documented.modifies (s.objects p).fd p ev (s.objects p).events s.instance_ held in
            let a : PolledChannel = record (s.objects p) { events = ev } in
            (
              record s { instance_ = k; objects = put s.objects p a },
              read p ev s ∙ rw (i, holds_own calls _ p own, busy) (update-some ctl_mod p _ _ e),
              Differs-Synced calls p y
                  (record {
                    objects_same = λ q other. rw other refl;
                    fd_same = ap (λ ch. ch.fd) (put_here calls s.objects p a);
                    channels_same = λ j other. refl;
                    interest_same = λ j other.
                        entry j
                        ∙ put_other calls (interest s.instance_) (s.objects p).fd j (some (ev, p))
                            other;
                    owned = inr own;
                    owned' = inr own;
                  })
                  (subst
                    (StandsIn calls (record s { instance_ = k; objects = put s.objects p a }) p)
                    (sym (put_here calls s.objects p a))
                    (subst
                      (λ i.
                        Stands i p ev (s.channels (s.objects p).fd) (interest k (s.objects p).fd))
                      (sym i)
                      (
                        own,
                        entry (s.objects p).fd
                            ∙ put_here calls (interest s.instance_) (s.objects p).fd (some (ev, p)),
                      )))
                  (λ absent. taken_by calls own absent),
            )
      ]

  -- A channel may await other events at any time: `updateChannel` then fails no assert and no
  -- `epoll_ctl` that is fatal, and the kernel awaits for every channel in the poller what the channel
  -- asks for, or nothing where it asks for nothing. A new channel needs that no other channel has its
  -- descriptor; epoll is taken to behave as documented.
  pub update_channel_lem :
      (p : ℕ) (ev : Events) (s : EpollPoller calls)
      → Synced calls s
      → ((s.objects p).index ≡ new → s.channels (s.objects p).fd ≡ none)
      → (s' : EpollPoller calls) × (update_channel calls p (with_events calls p ev s) ≡ some s')
        × Synced calls s'
  update_channel_lem p ev s y fresh = by_index (s.objects p).index refl
    where
      by_index :
          (i : Index)
          → (s.objects p).index ≡ i
          → (s' : EpollPoller calls) × (update_channel calls p (with_events calls p ev s) ≡ some s')
            × Synced calls s'
      by_index new i = update_new p ev s y i (fresh i)
      by_index added i = update_added p ev s y i
      by_index deleted i = update_deleted p ev s y i

  -- `removeChannel` of a channel that awaits nothing takes it out of both tables.
  pub remove_channel_lem :
      (p : ℕ) (s : EpollPoller calls)
      → Synced calls s
      → s.channels (s.objects p).fd ≡ some p
      → is_zero (s.objects p).events ≡ true
      → (s' : EpollPoller calls) × (remove_channel calls p s ≡ some s')
        × Synced calls s'
        × (s'.channels (s.objects p).fd ≡ none)
        × (interest s'.instance_ (s.objects p).fd ≡ none)
  unfolding remove_channel set_index
  remove_channel_lem p s y own quiet = by_index (s.objects p).index refl (y.stands p)
    where
      Result : Type 0
      Result =
          (s' : EpollPoller calls) × (remove_channel calls p s ≡ some s')
          × Synced calls s'
          × (s'.channels (s.objects p).fd ≡ none)
          × (interest s'.instance_ (s.objects p).fd ≡ none)

      out : (k : Instance) → EpollPoller calls
      out k = record s {
        instance_ = k;
        channels = put s.channels (s.objects p).fd none;
        objects = put s.objects p (record (s.objects p) { index = new });
      }

      released : put s.channels (s.objects p).fd none (s.objects p).fd ≡ none
      released = put_here calls s.channels (s.objects p).fd none

      out-Synced :
          (k : Instance)
          → ((j : ℕ) → (j == (s.objects p).fd) ≡ false → interest k j ≡ interest s.instance_ j)
          → interest k (s.objects p).fd ≡ none
          → Synced calls (out k)
      out-Synced k others absent =
          Differs-Synced calls p y
            (record {
              objects_same = λ q other. rw other refl;
              fd_same =
                  ap (λ ch. ch.fd)
                    (put_here calls s.objects p (record (s.objects p) { index = new }));
              channels_same = λ j other. put_other calls s.channels (s.objects p).fd j none other;
              interest_same = others;
              owned = inr own;
              owned' = inl released;
            })
            (subst (StandsIn calls (out k) p)
              (sym (put_here calls s.objects p (record (s.objects p) { index = new })))
              (rw released refl))
            (λ _. absent)

      by_index :
          (i : Index)
          → (s.objects p).index ≡ i
          → Stands i p
              (s.objects p).events
              (s.channels (s.objects p).fd)
              (interest s.instance_ (s.objects p).fd)
          → Result
      by_index new i stands = absurd (false≢true (sym stands ∙ holds_own calls _ p own))
      by_index deleted i (own', absent, quiet') = (
        out s.instance_,
        rw (quiet, holds_own calls _ p own, i) refl,
        out-Synced s.instance_ (λ j other. refl) absent,
        released,
        absent,
      )
      by_index added i (own', held) =
          let (k, e, entry) =
            documented.deletes (s.objects p).fd p (s.objects p).events (s.objects p).events
              s.instance_ held in
          let gone =
            entry (s.objects p).fd ∙ put_here calls (interest s.instance_) (s.objects p).fd none in
          (
            out k,
            rw
                (
                  quiet,
                  holds_own calls _ p own,
                  i,
                  update-some ctl_del p (record (s.objects p) { index = added })
                      (record s { channels = put s.channels (s.objects p).fd none }) e,
                )
                refl,
            out-Synced k
                (λ j other.
                  entry j ∙ put_other calls (interest s.instance_) (s.objects p).fd j none other)
                gone,
            released,
            gone,
          )
