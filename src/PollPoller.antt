-- ===== src/PollPoller.antt =====
-- muduo/net/poller/PollPoller.h and PollPoller.cc: the vector given to poll, and the channels' indices
-- in it. `none` is a failed assert, or a null pointer that is used.
pub mod Slots
pub mod Enter
pub mod Update
pub mod Taken
pub mod Remove
pub mod Fill
mod Tests
use muduo_pro.Common.{
  ℕ, zero, suc, ◌+◌, ◌-◌, Bool, true, false, ◌&&◌, ◌||◌, Option, none, some, List, [], ◌∷◌, ◌++◌,
  ltb, ◌==◌, if◌then◌else◌, ◌>>=◌, ◌>>◌, guard, length, get_elem?, set, take, ℤ, pos, negsuc,
}
use muduo_pro.Channel.{Events, none_event, is_zero}
use muduo_pro.Poller.{put}
use muduo_pro.Poller.Epoll.{holds, is_empty}

-- An index below 0 is `none`.
pub record PollChannel : Type 0 where
  pub fd : ℕ
  pub events : Events
  pub revents : Events
  pub index : Option ℕ

-- struct pollfd; -fd - 1, which poll ignores, is `negsuc fd`.
pub record Pollfd : Type 0 where
  pub fd : ℤ
  pub events : Events
  pub revents : Events

pub record PollPoller : Type 0 where
  pub pollfds : List Pollfd
  pub channels : ℕ → Option ℕ
  pub objects : ℕ → PollChannel

abbrev pub stands_for : ℤ → ℕ → Bool
stands_for (pos n) fd = n == fd
stands_for (negsuc n) fd = n == fd

abbrev pub is_ignored : ℤ → ℕ → Bool
is_ignored (pos n) fd = false
is_ignored (negsuc n) fd = n == fd

-- The descriptor behind a negated one or a plain one.
abbrev pub plain_fd : ℤ → ℕ
plain_fd (pos n) = n
plain_fd (negsuc n) = n

-- An existing entry for the channel.
abbrev pub refresh : PollChannel → Pollfd → Pollfd
refresh ch pfd = record {
  fd = if is_zero ch.events then negsuc ch.fd else pfd.fd;
  events = ch.events;
  revents = none_event;
}

abbrev pub update_at_index : Option ℕ → ℕ → PollChannel → PollPoller → Option PollPoller
update_at_index none p ch s = do
  guard (is_empty (s.channels ch.fd))
  some (record s {
    pollfds =
        s.pollfds ++ (record { fd = pos ch.fd; events = ch.events; revents = none_event } ∷ []);
    objects = put s.objects p (record ch { index = some (length s.pollfds) });
    channels = put s.channels ch.fd (some p);
  })
update_at_index (some idx) p ch s = do
  guard (holds (s.channels ch.fd) p)
  pfd ← get_elem? s.pollfds idx
  guard (stands_for pfd.fd ch.fd)
  some (record s { pollfds = set s.pollfds idx (refresh ch pfd) })

unfoldable pub update_channel : ℕ → PollPoller → Option PollPoller
update_channel p s = update_at_index (s.objects p).index p (s.objects p) s

-- The end of removeChannel: the entry is swapped with the last and taken off, and the channel of the
-- last gets its index. The channel that is removed keeps its own.
unfoldable pub take_off : ℕ → PollPoller → Option PollPoller
take_off idx s =
    if suc idx == length s.pollfds
    then some (record s { pollfds = take (length s.pollfds - 1) s.pollfds })
    else (do
      here ← get_elem? s.pollfds idx
      last ← get_elem? s.pollfds (length s.pollfds - 1)
      q ← s.channels (plain_fd last.fd)
      some (record s {
        pollfds =
            take (length s.pollfds - 1) (set (set s.pollfds idx last) (length s.pollfds - 1) here);
        objects = put s.objects q (record (s.objects q) { index = some idx });
      }))

unfoldable pub remove_channel : ℕ → PollPoller → Option PollPoller
remove_channel p s = do
  guard (holds (s.channels (s.objects p).fd) p)
  guard (is_zero (s.objects p).events)
  idx ← (s.objects p).index
  pfd ← get_elem? s.pollfds idx
  guard (is_ignored pfd.fd (s.objects p).fd && is_zero pfd.events)
  take_off idx (record s { channels = put s.channels (s.objects p).fd none })

-- The descriptor of an entry in the map: one that is negated is not a key.
abbrev pub look_up : ℤ → (ℕ → Option ℕ) → Option ℕ
look_up (pos n) channels = channels n
look_up (negsuc n) channels = none

-- The rest of the vector and numEvents.
unfoldable pub fill_from : List Pollfd → ℕ → PollPoller → Option (List ℕ × PollPoller)
fill_from [] n s = some ([], s)
fill_from (pfd ∷ rest) zero s = some ([], s)
fill_from (pfd ∷ rest) (suc n) s = elim (is_zero pfd.revents) [
  | true ↦ fill_from rest (suc n) s
  | false ↦ (do
    p ← look_up pfd.fd s.channels
    guard (stands_for pfd.fd (s.objects p).fd)
    (active, s') ←
        fill_from rest n
          (record s { objects = put s.objects p (record (s.objects p) { revents = pfd.revents }) })
    some (p ∷ active, s'))
]

unfoldable pub fill_active_channels : ℕ → PollPoller → Option (List ℕ × PollPoller)
fill_active_channels n s = fill_from s.pollfds n s
