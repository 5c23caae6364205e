-- ===== src/EventLoop.antt =====
-- muduo/net/EventLoop.h and EventLoop.cc: one loop, its own thread, and any number of others that
-- hand it functors or stop it. What a thread does between two points where another may come between
-- is one step. `none` is a failed assert, or a step that the thread is not at.
pub mod Wakeups
pub mod Turn
mod Tests
use muduo_pro.Common.{
  ℕ, suc, ◌+◌, ◌-◌, ◌≡◌, Bool, true, false, not, ◌||◌, Option, none, some, List, [], ◌∷◌, ◌++◌, ltb,
  if◌then◌else◌, ◌>>=◌,
}

-- The eventfd `wakeupFd_`: `write` adds one to its counter, `read` takes the counter, and `readable`
-- is whether poll finds it ready.
pub record EventfdCalls : Type 1 where
  pub Eventfd : Type 0
  pub write : Eventfd → Eventfd
  pub read : Eventfd → Eventfd
  pub readable : Eventfd → Bool

-- As the manual page says, a counter above zero can be read, also when it is full and a write fails.
pub record IsDocumented (calls : EventfdCalls) : Type 0 where
  pub written : (e : calls.Eventfd) → calls.readable (calls.write e) ≡ true

-- Where the thread of the loop is: outside of `loop`, at the test of `while`, in poll, among the
-- callbacks of channels, before the swap of doPendingFunctors, and among the functors.
pub data Place : Type 0 where
  outside : Place
  at_test : Place
  polling : Place
  handling : Place
  before_swap : Place
  calling : Place

-- An active channel: the wakeup channel, or some other.
pub data Active : Type 0 where
  wakeup_channel : Active
  other_channel : Active

pub data Caller : Type 0 where
  loop_thread : Caller
  other_thread : Caller

-- Functors are numbers. `functors` is the local variable of doPendingFunctors; `wakeups` counts the
-- other threads that are to call `wakeup` next; `queued`, `called` and `ran` list what was queued,
-- what of it has been called, and what runInLoop called at once.
pub record EventLoop (calls : EventfdCalls) : Type 0 where
  pub place : Place
  pub looping : Bool
  pub quit : Bool
  pub event_handling : Bool
  pub calling_pending_functors : Bool
  pub iteration : ℕ
  pub active_channels : List Active
  pub pending_functors : List ℕ
  pub functors : List ℕ
  pub wakeup_fd : calls.Eventfd
  pub wakeups : ℕ
  pub queued : List ℕ
  pub called : List ℕ
  pub ran : List ℕ

abbrev pub is_in_loop_thread : Caller → Bool
is_in_loop_thread loop_thread = true
is_in_loop_thread other_thread = false

module _ (calls : EventfdCalls) where
  abbrev pub new_loop : calls.Eventfd → EventLoop calls
  new_loop e = record {
    place = outside;
    looping = false;
    quit = false;
    event_handling = false;
    calling_pending_functors = false;
    iteration = 0;
    active_channels = [];
    pending_functors = [];
    functors = [];
    wakeup_fd = e;
    wakeups = 0;
    queued = [];
    called = [];
    ran = [];
  }

  abbrev pub wakeup : EventLoop calls → EventLoop calls
  wakeup s = record s { wakeup_fd = calls.write s.wakeup_fd }

  abbrev pub handle_read : EventLoop calls → EventLoop calls
  handle_read s = record s { wakeup_fd = calls.read s.wakeup_fd }

  -- A call of `wakeup` after the change of a flag or of the queue: of another thread, a later step.
  abbrev pub then_wakeup : Caller → EventLoop calls → EventLoop calls
  then_wakeup loop_thread s = wakeup s
  then_wakeup other_thread s = record s { wakeups = suc s.wakeups }

  -- The method `quit`.
  abbrev pub quit_by : Caller → EventLoop calls → EventLoop calls
  quit_by caller s =
      let s' : EventLoop calls = record s { quit = true } in
      if not (is_in_loop_thread caller) then then_wakeup caller s' else s'

  abbrev pub push_back : ℕ → EventLoop calls → EventLoop calls
  push_back cb s = record s {
    pending_functors = s.pending_functors ++ (cb ∷ []);
    queued = s.queued ++ (cb ∷ []);
  }

  unfoldable pub queue_in_loop : Caller → ℕ → EventLoop calls → EventLoop calls
  queue_in_loop caller cb s =
      if not (is_in_loop_thread caller) || s.calling_pending_functors
      then then_wakeup caller (push_back cb s)
      else push_back cb s

  unfoldable pub run_in_loop : Caller → ℕ → EventLoop calls → EventLoop calls
  run_in_loop caller cb s =
      if is_in_loop_thread caller
      then record s { ran = s.ran ++ (cb ∷ []) }
      else queue_in_loop caller cb s

  -- `loop` up to its `while`.
  unfoldable pub enter : EventLoop calls → Option (EventLoop calls)
  enter s =
      if s.looping then none else some (record s { looping = true; quit = false; place = at_test })

  abbrev pub test : EventLoop calls → EventLoop calls
  test s =
      if s.quit
      then record s { looping = false; place = outside }
      else record s { active_channels = []; place = polling }

  abbrev pub poll_returns : List Active → EventLoop calls → EventLoop calls
  poll_returns active s = record s {
    active_channels = active;
    iteration = suc s.iteration;
    event_handling = true;
    place = handling;
  }

  -- `handleEvent` of an active channel, before the calls that its callback makes.
  abbrev pub handle_event : Active → EventLoop calls → EventLoop calls
  handle_event wakeup_channel s = handle_read s
  handle_event other_channel s = s

  abbrev pub handle_from : List Active → EventLoop calls → EventLoop calls
  handle_from [] s = record s {
    event_handling = false;
    calling_pending_functors = true;
    place = before_swap;
  }
  handle_from (a ∷ active) s = handle_event a (record s { active_channels = active })

  abbrev pub swap : EventLoop calls → EventLoop calls
  swap s = record s { functors = s.pending_functors; pending_functors = []; place = calling }

  abbrev pub call_from : List ℕ → EventLoop calls → EventLoop calls
  call_from [] s = record s { calling_pending_functors = false; place = at_test }
  call_from (f ∷ fs) s = record s { functors = fs; called = s.called ++ (f ∷ []) }

  -- The next thing that the thread of the loop does in `loop`, with what poll finds.
  abbrev pub next_from : Place → List Active → EventLoop calls → Option (EventLoop calls)
  next_from outside active s = none
  next_from at_test active s = some (test s)
  next_from polling active s = some (poll_returns active s)
  next_from handling active s = some (handle_from s.active_channels s)
  next_from before_swap active s = some (swap s)
  next_from calling active s = some (call_from s.functors s)

pub data Step : Type 0 where
  enters_loop : Step
  goes_on : List Active → Step
  queues : Caller → ℕ → Step
  runs : Caller → ℕ → Step
  quits : Caller → Step
  wakes : Step

module _ (calls : EventfdCalls) where
  unfoldable pub step : Step → EventLoop calls → Option (EventLoop calls)
  unfolding queue_in_loop run_in_loop enter
  step enters_loop s = enter calls s
  step (goes_on active) s = next_from calls s.place active s
  step (queues caller cb) s = some (queue_in_loop calls caller cb s)
  step (runs caller cb) s = some (run_in_loop calls caller cb s)
  step (quits caller) s = some (quit_by calls caller s)
  step wakes s =
      if ltb 0 s.wakeups then some (wakeup calls (record s { wakeups = s.wakeups - 1 })) else none

  unfoldable pub run : List Step → EventLoop calls → Option (EventLoop calls)
  run [] s = some s
  run (x ∷ xs) s = do s' ← step x s; run xs s'
