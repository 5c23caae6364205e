-- ===== src/Poller/Tests.antt =====
-- An epoll that behaves as documented, and the theorems about EPollPoller over it.
use muduo_pro.Common.{
  Bool-cases, inl, inr, ==_iff, subst, some_injective, ℕ, ◌≡◌, refl, sym, ap, ◌∙◌, true, false,
  Option, none, some, ◌==◌, if◌then◌else◌,
}
use muduo_pro.Channel.{Events, none_event, read_event}
use muduo_pro.Poller.{
  new, deleted, put, Operation, ctl_add, ctl_mod, ctl_del, EpollCalls, IsDocumented,
}
use muduo_pro.Poller.Epoll.{EpollPoller, update_channel, remove_channel}
use muduo_pro.Poller.Synced.{Synced, with_events}
use muduo_pro.Poller.Update.{update_channel_lem, remove_channel_lem}

-- The interest list as a function.
abbrev Table : Type 0
Table = ℕ → Option (Events × ℕ)

abbrev ctl_by : Operation → Option (Events × ℕ) → ℕ → Events → ℕ → Table → Option Table
ctl_by ctl_add none fd ev p k = some (put k fd (some (ev, p)))
ctl_by ctl_mod (some old) fd ev p k = some (put k fd (some (ev, p)))
ctl_by ctl_del (some old) fd ev p k = some (put k fd none)
ctl_by _ _ fd ev p k = none

abbrev table_calls : EpollCalls
table_calls = record {
  Instance = Table;
  interest = λ k fd. k fd;
  epoll_ctl = λ op fd ev p k. ctl_by op (k fd) fd ev p k;
}

table-IsDocumented : IsDocumented table_calls
table-IsDocumented = record {
  adds = λ fd p ev k free. (put k fd (some (ev, p)), rw free refl, λ j. refl);
  modifies = λ fd p ev old k there. (put k fd (some (ev, p)), rw there refl, λ j. refl);
  deletes = λ fd p ev old k there. (put k fd none, rw there refl, λ j. refl);
}

-- A channel at address 3 for descriptor 5, and every other one for descriptor 0.
abbrev start : EpollPoller table_calls
start = record {
  instance_ = λ fd. none;
  event_slots = 16;
  channels = λ fd. none;
  objects = λ p. record {
    fd = if p == 3 then 5 else 0;
    events = none_event;
    revents = none_event;
    index = new;
  };
}

start-Synced : Synced table_calls start
start-Synced = record { stands = λ p. refl; under = λ fd p e. cc; free = λ fd e. refl }

update_channel_lem_example :
    (s' : EpollPoller table_calls) × (update_channel table_calls 3
        (with_events table_calls 3 read_event start)
      ≡ some s')
    × Synced table_calls s'
update_channel_lem_example =
    update_channel_lem table_calls table-IsDocumented 3 read_event start start-Synced (λ _. refl)

-- The channel is registered and awaits nothing.
abbrev idle : EpollPoller table_calls
idle = record start {
  channels = put (λ fd. none) 5 (some 3);
  objects = put start.objects 3 (record (start.objects 3) { index = deleted });
}

idle-Synced : Synced table_calls idle
idle-Synced = record {
  stands = λ p. elim (Bool-cases (p == 3)) [
    | inl e ↦ rw e (ap some (sym ((==_iff p 3).0 e)), refl, refl)
    | inr other ↦ rw other refl
  ];
  under = λ fd p e. elim (Bool-cases (fd == 5)) [
    | inl f ↦
        subst (λ k. (idle.objects k).fd ≡ fd) (some_injective (sym (at_five fd f) ∙ e))
          (sym ((==_iff fd 5).0 f))
    | inr other ↦ nothing p (sym (elsewhere fd other) ∙ e)
  ];
  free = λ fd e. refl;
}
  where
    at_five : (fd : ℕ) → (fd == 5) ≡ true → idle.channels fd ≡ some 3
    at_five fd f = rw f refl

    elsewhere : (fd : ℕ) → (fd == 5) ≡ false → idle.channels fd ≡ none
    elsewhere fd f = rw f refl

    nothing : {A : Type 0} (p : ℕ) → none ≡ some p → A
    nothing p e = cc

remove_channel_lem_example :
    (s' : EpollPoller table_calls) × (remove_channel table_calls 3 idle ≡ some s')
    × Synced table_calls s'
    × (s'.channels 5 ≡ none)
    × (s'.instance_ 5 ≡ none)
remove_channel_lem_example =
    remove_channel_lem table_calls table-IsDocumented 3 idle idle-Synced refl refl
