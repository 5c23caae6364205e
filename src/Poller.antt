-- ===== src/Poller.antt =====
-- muduo/net/Poller.h and the pollers in muduo/net/poller: what the two of them share, and the system
-- call that EPollPoller rests on.
pub mod Epoll
pub mod Synced
pub mod Update
mod Tests
use muduo_pro.Common.{ℕ, ◌≡◌, ◌==◌, if◌then◌else◌, Option, none, some}
use muduo_pro.Channel.{Events}

-- A channel as a poller sees it. `kNew`, `kAdded` and `kDeleted` are the values of its index.
pub data Index : Type 0 where
  new : Index
  added : Index
  deleted : Index

pub record PolledChannel : Type 0 where
  pub fd : ℕ
  pub events : Events
  pub revents : Events
  pub index : Index

-- `std::map<int, Channel *>`, and other maps with numbers as keys.
abbrev pub put {ℓ} : {A : Type ℓ} → (ℕ → A) → ℕ → A → ℕ → A
put f k v j = if j == k then v else f j

pub data Operation : Type 0 where
  ctl_add : Operation
  ctl_mod : Operation
  ctl_del : Operation

-- epoll: its interest list gives the events and the pointer for a descriptor; `epoll_ctl` gives the
-- new instance, or `none` for an error.
pub record EpollCalls : Type 1 where
  pub Instance : Type 0
  pub interest : Instance → ℕ → Option (Events × ℕ)
  pub epoll_ctl : Operation → ℕ → Events → ℕ → Instance → Option Instance

-- As the manual page says: a descriptor is added if it is not there, changed and deleted if it is,
-- and others stay as they are.
pub record IsDocumented (calls : EpollCalls) : Type 0 where
  pub adds :
      (fd p : ℕ) (ev : Events) (k : calls.Instance)
      → calls.interest k fd ≡ none
      → (k' : calls.Instance) × (calls.epoll_ctl ctl_add fd ev p k ≡ some k')
        × ((j : ℕ) → calls.interest k' j ≡ put (calls.interest k) fd (some (ev, p)) j)
  pub modifies :
      (fd p : ℕ) (ev old : Events) (k : calls.Instance)
      → calls.interest k fd ≡ some (old, p)
      → (k' : calls.Instance) × (calls.epoll_ctl ctl_mod fd ev p k ≡ some k')
        × ((j : ℕ) → calls.interest k' j ≡ put (calls.interest k) fd (some (ev, p)) j)
  pub deletes :
      (fd p : ℕ) (ev old : Events) (k : calls.Instance)
      → calls.interest k fd ≡ some (old, p)
      → (k' : calls.Instance) × (calls.epoll_ctl ctl_del fd ev p k ≡ some k')
        × ((j : ℕ) → calls.interest k' j ≡ put (calls.interest k) fd none j)
