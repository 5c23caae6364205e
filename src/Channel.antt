-- ===== src/Channel.antt =====
-- muduo/net/Channel.h and muduo/net/Channel.cc: the events that a file descriptor waits for, and
-- the order in which the events that came are handed to its callbacks. A mask of events is a record
-- with a field for each bit.
use muduo_pro.Common.{
  ℕ, Bool, true, false, not, ◌&&◌, ◌||◌, Option, none, some, List, [], ◌∷◌, ◌++◌, if◌then◌else◌,
  ◌>>◌, guard,
}

pub record Events : Type 0 where
  pub pollin : Bool
  pub pollpri : Bool
  pub pollout : Bool
  pub pollerr : Bool
  pub pollhup : Bool
  pub pollnval : Bool
  pub pollrdhup : Bool

abbrev pub none_event : Events
none_event = record {
  pollin = false;
  pollpri = false;
  pollout = false;
  pollerr = false;
  pollhup = false;
  pollnval = false;
  pollrdhup = false;
}

abbrev pub read_event : Events
read_event = record none_event { pollin = true; pollpri = true }

abbrev pub write_event : Events
write_event = record none_event { pollout = true }

-- `a | b`.
abbrev pub with_events : Events → Events → Events
with_events a b = record {
  pollin = a.pollin || b.pollin;
  pollpri = a.pollpri || b.pollpri;
  pollout = a.pollout || b.pollout;
  pollerr = a.pollerr || b.pollerr;
  pollhup = a.pollhup || b.pollhup;
  pollnval = a.pollnval || b.pollnval;
  pollrdhup = a.pollrdhup || b.pollrdhup;
}

-- `a & ~b`.
abbrev pub without_events : Events → Events → Events
without_events a b = record {
  pollin = a.pollin && not b.pollin;
  pollpri = a.pollpri && not b.pollpri;
  pollout = a.pollout && not b.pollout;
  pollerr = a.pollerr && not b.pollerr;
  pollhup = a.pollhup && not b.pollhup;
  pollnval = a.pollnval && not b.pollnval;
  pollrdhup = a.pollrdhup && not b.pollrdhup;
}

-- `a == 0`.
abbrev pub is_zero : Events → Bool
is_zero a =
    not a.pollin
    && not a.pollpri
    && not a.pollout
    && not a.pollerr
    && not a.pollhup
    && not a.pollnval
    && not a.pollrdhup

-- `polled` is what the poller was last told by `update`, nothing before that and after `remove`.
-- The callbacks are known by whether they are set.
pub record Channel : Type 0 where
  pub events : Events
  pub revents : Events
  pub polled : Option Events
  pub tied : Bool
  pub read_callback : Bool
  pub write_callback : Bool
  pub close_callback : Bool
  pub error_callback : Bool

unfoldable pub new_channel : Channel
new_channel = record {
  events = none_event;
  revents = none_event;
  polled = none;
  tied = false;
  read_callback = false;
  write_callback = false;
  close_callback = false;
  error_callback = false;
}

unfoldable pub update : Channel → Channel
update ch = record ch { polled = some ch.events }

abbrev pub is_none_event : Channel → Bool
is_none_event ch = is_zero ch.events

abbrev pub is_writing : Channel → Bool
is_writing ch = ch.events.pollout

unfoldable pub enable_reading : Channel → Channel
unfolding update
enable_reading ch = update (record ch { events = with_events ch.events read_event })

unfoldable pub enable_writing : Channel → Channel
unfolding update
enable_writing ch = update (record ch { events = with_events ch.events write_event })

unfoldable pub disable_writing : Channel → Channel
unfolding update
disable_writing ch = update (record ch { events = without_events ch.events write_event })

unfoldable pub disable_all : Channel → Channel
unfolding update
disable_all ch = update (record ch { events = none_event })

unfoldable pub remove : Channel → Option Channel
remove ch = do guard (is_none_event ch); some (record ch { polled = none })

unfoldable pub tie : Channel → Channel
tie ch = record ch { tied = true }

pub data EventCall : Type 0 where
  call_close : EventCall
  call_error : EventCall
  call_read : ℕ → EventCall
  call_write : EventCall

-- A callback is called if its event came and it is set.
abbrev pub call_if : Bool → Bool → EventCall → List EventCall
call_if came is_set call = if came then (if is_set then call ∷ [] else []) else []

unfoldable pub handle_event_with_guard : Channel → ℕ → List EventCall
handle_event_with_guard ch time =
    call_if (ch.revents.pollhup && not ch.revents.pollin) ch.close_callback call_close
    ++ call_if (ch.revents.pollerr || ch.revents.pollnval) ch.error_callback call_error
    ++ call_if (ch.revents.pollin || ch.revents.pollpri || ch.revents.pollrdhup) ch.read_callback
        (call_read time)
    ++ call_if ch.revents.pollout ch.write_callback call_write

-- `alive`: whether the object to which the channel is tied still exists.
unfoldable pub handle_event : Channel → Bool → ℕ → List EventCall
handle_event ch alive time =
    if ch.tied
    then (if alive then handle_event_with_guard ch time else [])
    else handle_event_with_guard ch time
