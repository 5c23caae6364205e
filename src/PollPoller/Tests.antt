-- ===== src/PollPoller/Tests.antt =====
-- Runs and witnesses for PollPoller.
use muduo_pro.Common.{
  ℕ, ◌≡◌, refl, true, Option, none, some, List, [], ◌∷◌, arith, ◌>>=◌, pos, ◌||◌,
}
use muduo_pro.Channel.{none_event, read_event, is_zero}
use muduo_pro.PollPoller.{
  PollPoller, Pollfd, refresh, is_ignored, fill_from, fill_active_channels, update_channel,
  take_off, remove_channel,
}
use muduo_pro.PollPoller.Slots.{At, Valid}
use muduo_pro.PollPoller.Enter.{new_entry, entered, entered-At, entered-Valid}
use muduo_pro.PollPoller.Update.{refreshed, refreshed-At, refreshed-Valid, update_known}
use muduo_pro.PollPoller.Remove.{Removed, remove_channel-Removed}

-- A channel for descriptor 5 at address 3, no event awaited.
abbrev start : PollPoller
start = record {
  pollfds = [];
  channels = λ fd. none;
  objects = λ p. record { fd = 5; events = none_event; revents = none_event; index = none };
}

start-Valid : Valid start
start-Valid = record { at = λ fd p c. absurd cc; slot = λ i lt. absurd (omega (arith, lt)) }

abbrev known : PollPoller
known = entered 3 start

known-Valid : Valid known
known-Valid = entered-Valid 3 start start-Valid refl refl

known-At : At known 5 3 0 (new_entry 3 start)
known-At = entered-At 3 start

abbrev disabled : PollPoller
disabled = refreshed known 5 3 0 (new_entry 3 start)

-- updateChannel twice and removeChannel: nothing is left.
abbrev add_and_remove : Option (List Pollfd)
add_and_remove = do
  a ← update_channel 3 start
  b ← update_channel 3 a
  c ← remove_channel 3 b
  some c.pollfds

add_and_remove_test : add_and_remove ≡ some []
unfolding update_channel remove_channel take_off
add_and_remove_test = refl

at_three : known.channels 5 ≡ some 3
unfolding entered
at_three = refl

update_known_example :
    (i : ℕ) × (old now : Pollfd) × (s' : PollPoller) × At known 5 3 i old
    × (update_channel 3 known ≡ some s')
    × Valid s'
    × At s' 5 3 i now
    × (now.events ≡ (known.objects 3).events)
    × (is_ignored now.fd 5 ≡ (is_zero (known.objects 3).events || is_ignored old.fd 5))
update_known_example = update_known known 5 3 known-Valid at_three

disabled-Valid : Valid disabled
disabled-Valid = refreshed-Valid known 5 3 0 (new_entry 3 start) known-Valid at_three known-At

disabled-At : At disabled 5 3 0 (refresh (known.objects 3) (new_entry 3 start))
disabled-At = refreshed-At known 5 3 0 (new_entry 3 start) known-At

still_there : disabled.channels 5 ≡ some 3
unfolding entered refreshed
still_there = refl

ignored : is_ignored (refresh (known.objects 3) (new_entry 3 start)).fd 5 ≡ true
unfolding entered
ignored = refl

unused : is_zero (refresh (known.objects 3) (new_entry 3 start)).events ≡ true
unfolding entered
unused = refl

awaits_nothing : is_zero (disabled.objects 3).events ≡ true
unfolding entered refreshed
awaits_nothing = refl

remove_channel-Removed_example :
    (s' : PollPoller) × (remove_channel 3 disabled ≡ some s') × Removed disabled s' 5
remove_channel-Removed_example =
    remove_channel-Removed disabled 5 3 0 (refresh (known.objects 3) (new_entry 3 start))
      disabled-Valid still_there disabled-At ignored unused awaits_nothing

-- poll has reported something for the one channel.
abbrev readable : PollPoller
readable = record known {
  pollfds = record { fd = pos 5; events = read_event; revents = read_event } ∷ [];
}

abbrev active_channels : Option (List ℕ)
active_channels = do (active, s) ← fill_active_channels 1 readable; some active

active_channels_test : active_channels ≡ some (3 ∷ [])
unfolding fill_active_channels fill_from entered
active_channels_test = refl
