-- ===== src/Poller/Epoll.antt =====
-- muduo/net/poller/EPollPoller.h and EPollPoller.cc. `none` is a failed assert or LOG_SYSFATAL.
use muduo_pro.Common.{
  ℕ, ◌*◌, Bool, true, false, Option, none, some, List, [], ◌∷◌, leb, ◌==◌, if◌then◌else◌, ◌>>=◌,
  ◌>>◌, guard, length,
}
use muduo_pro.Channel.{Events, is_zero}
use muduo_pro.Poller.{
  Index, new, added, deleted, PolledChannel, put, Operation, ctl_add, ctl_mod, ctl_del, EpollCalls,
}

-- Whether a map holds this pointer, or nothing.
abbrev pub holds : Option ℕ → ℕ → Bool
holds none p = false
holds (some q) p = q == p

abbrev pub is_empty : Option ℕ → Bool
is_empty none = true
is_empty (some q) = false

abbrev pub init_event_list_size : ℕ
init_event_list_size = 16

module _ (calls : EpollCalls) where
  open calls use {Instance, epoll_ctl}

  -- `event_slots` is the size of the vector events_, `objects` the channels behind their pointers.
  pub record EpollPoller : Type 0 where
    pub instance_ : Instance
    pub event_slots : ℕ
    pub channels : ℕ → Option ℕ
    pub objects : ℕ → PolledChannel

  unfoldable pub new_poller : Instance → (ℕ → PolledChannel) → EpollPoller
  new_poller k objects = record {
    instance_ = k;
    event_slots = init_event_list_size;
    channels = λ fd. none;
    objects = objects;
  }

  unfoldable pub set_index : ℕ → PolledChannel → Index → EpollPoller → EpollPoller
  set_index p ch index s = record s { objects = put s.objects p (record ch { index = index }) }

  -- For the channel `ch` at `p`. An error of EPOLL_CTL_DEL is only logged.
  unfoldable pub update : Operation → ℕ → PolledChannel → EpollPoller → Option EpollPoller
  update op p ch s = elim (epoll_ctl op ch.fd ch.events p s.instance_) [
    | some k ↦ some (record s { instance_ = k })
    | none ↦ elim op [ ctl_del ↦ some s | ctl_add ↦ none | ctl_mod ↦ none ]
  ]

  -- By the index of the channel.
  abbrev pub update_by : Index → ℕ → PolledChannel → EpollPoller → Option EpollPoller
  update_by new p ch s = do
    guard (is_empty (s.channels ch.fd))
    update ctl_add p ch
        (set_index p ch added (record s { channels = put s.channels ch.fd (some p) }))
  update_by deleted p ch s = do
    guard (holds (s.channels ch.fd) p)
    update ctl_add p ch (set_index p ch added s)
  update_by added p ch s = do
    guard (holds (s.channels ch.fd) p)
    if is_zero ch.events
        then (do s' ← update ctl_del p ch s; some (set_index p ch deleted s'))
        else update ctl_mod p ch s

  unfoldable pub update_channel : ℕ → EpollPoller → Option EpollPoller
  update_channel p s = let ch = s.objects p in update_by ch.index p ch s

  -- The end of `removeChannel`; a new channel fails its assert.
  abbrev pub remove_by : Index → ℕ → PolledChannel → EpollPoller → Option EpollPoller
  remove_by new p ch s = none
  remove_by deleted p ch s = some (set_index p ch new s)
  remove_by added p ch s = do s' ← update ctl_del p ch s; some (set_index p ch new s')

  unfoldable pub remove_channel : ℕ → EpollPoller → Option EpollPoller
  remove_channel p s =
      let ch = s.objects p in
      (do
        guard (is_zero ch.events)
        guard (holds (s.channels ch.fd) p)
        remove_by ch.index p ch (record s { channels = put s.channels ch.fd none }))

  -- The events that epoll_wait reported, with the pointers of the channels.
  unfoldable pub fill_active_channels :
      List (ℕ × Events) → EpollPoller → Option (List ℕ × EpollPoller)
  fill_active_channels [] s = some ([], s)
  fill_active_channels ((p, came) ∷ reported) s = do
    guard (holds (s.channels (s.objects p).fd) p)
    (active, s') ←
        fill_active_channels reported
          (record s { objects = put s.objects p (record (s.objects p) { revents = came }) })
    some (p ∷ active, s')

  -- `none` is an error of epoll_wait, which is only logged.
  unfoldable pub poll : Option (List (ℕ × Events)) → EpollPoller → Option (List ℕ × EpollPoller)
  poll none s = some ([], s)
  poll (some []) s = some ([], s)
  poll (some (event ∷ reported)) s = do
    guard (leb (length (event ∷ reported)) s.event_slots)
    (active, s') ← fill_active_channels (event ∷ reported) s
    some (
      active,
      if length (event ∷ reported) == s.event_slots
          then record s' { event_slots = s.event_slots * 2 }
          else s',
    )
