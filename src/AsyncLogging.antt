-- ===== src/AsyncLogging.antt =====
-- muduo/base/AsyncLogging.h and AsyncLogging.cc: threads that log fill buffers, and a thread of the
-- logger writes full ones to the file. What a thread does under the mutex, or between two uses of it,
-- is one step. `none` is a failed assert, a null pointer that is used, or a step the thread is not at.
pub mod Spares
pub mod Order
mod Tests
use muduo_pro.Common.{
  ℕ, suc, ◌+◌, ◌-◌, ◌*◌, Bool, true, false, not, Option, none, some, List, [], ◌∷◌, ◌++◌, ltb,
  if◌then◌else◌, ◌>>=◌, ◌>>◌, guard, length, take, replicate,
}
use muduo_pro.Logging.{FixedBuffer, avail, contents, append}

-- Where the thread of the logger is: before the test of its loop, in its wait for a full buffer,
-- outside of the mutex with buffers to write, or at its end.
pub data Place : Type 0 where
  at_test : Place
  waiting : Place
  writing : Place
  ended : Place

-- A null pointer is `none`. `written` is what was appended to the file, `dropped` how many buffers were
-- erased unwritten.
pub record AsyncLogging : Type 0 where
  pub running : Bool
  pub current_buffer : Option FixedBuffer
  pub next_buffer : Option FixedBuffer
  pub buffers : List FixedBuffer
  pub place : Place
  pub new_buffer1 : Option FixedBuffer
  pub new_buffer2 : Option FixedBuffer
  pub buffers_to_write : List FixedBuffer
  pub written : List ℕ
  pub dropped : ℕ

abbrev pub large_buffer : ℕ
large_buffer = 4000 * 1000

abbrev pub is_null : Option FixedBuffer → Bool
is_null none = true
is_null (some b) = false

abbrev pub is_empty : List FixedBuffer → Bool
is_empty [] = true
is_empty (b ∷ bs) = false

-- What the loop that appends the buffers to the file appends.
abbrev pub texts : List FixedBuffer → List ℕ
texts [] = []
texts (b ∷ bs) = contents b ++ texts bs

-- `pop_back` of a vector that is not empty: the others, and the last.
abbrev pub pop_back : List FixedBuffer → Option (List FixedBuffer × FixedBuffer)
pop_back [] = none
pop_back (b ∷ []) = some ([], b)
pop_back (b ∷ (c ∷ cs)) = do (bs, last) ← pop_back (c ∷ cs); some (b ∷ bs, last)

-- `reset` of a buffer.
abbrev pub reset : FixedBuffer → FixedBuffer
reset b = record b { cur = 0 }

-- A spare buffer that is there stays, and one that is not is taken from the back of the vector.
abbrev pub refill :
    Option FixedBuffer → List FixedBuffer → Option (Option FixedBuffer × List FixedBuffer)
refill (some b) bs = some (some b, bs)
refill none bs = do (rest, last) ← pop_back bs; some (some (reset last), rest)

abbrev pub collect_into : FixedBuffer → AsyncLogging → AsyncLogging
collect_into current s =
    let s' : AsyncLogging = record s {
      current_buffer = s.new_buffer1;
      new_buffer1 = none;
      buffers_to_write = s.buffers ++ (current ∷ []);
      buffers = s.buffers_to_write;
      place = writing;
    } in
    if is_null s.next_buffer
    then record s' { next_buffer = s.new_buffer2; new_buffer2 = none }
    else s'

-- The end of the critical section.
unfoldable pub collect : AsyncLogging → Option AsyncLogging
collect s = do current ← s.current_buffer; some (collect_into current s)

abbrev pub is_ready : Option FixedBuffer → Bool
is_ready none = false
is_ready (some b) = not (ltb 0 b.cur)

-- The start of a round of the loop, up to the wait or to the end of the critical section.
unfoldable pub begin_round : AsyncLogging → Option AsyncLogging
begin_round s = do
  guard (is_ready s.new_buffer1)
  guard (is_ready s.new_buffer2)
  guard (is_empty s.buffers_to_write)
  (if is_empty s.buffers then some (record s { place = waiting }) else collect s)

-- The buffers have `size` bytes; `notice` is the line that tells how many are dropped.
module _ (size : ℕ) (notice : ℕ → List ℕ) where
  abbrev pub new_buffer : FixedBuffer
  new_buffer = record { bytes = replicate size 0; cur = 0 }

  -- After `start`, when the thread comes to its loop.
  abbrev pub started : AsyncLogging
  started = record {
    running = true;
    current_buffer = some new_buffer;
    next_buffer = some new_buffer;
    buffers = [];
    place = at_test;
    new_buffer1 = some new_buffer;
    new_buffer2 = some new_buffer;
    buffers_to_write = [];
    written = [];
    dropped = 0;
  }

  -- The next buffer, or one more.
  abbrev pub next_or_new : Option FixedBuffer → FixedBuffer
  next_or_new none = new_buffer
  next_or_new (some b) = b

  unfoldable pub append_line : List ℕ → AsyncLogging → Option AsyncLogging
  append_line line s = do
    current ← s.current_buffer
    (if ltb (length line) (avail current)
        then (do b ← append line current; some (record s { current_buffer = some b }))
        else (do
          b ← append line (next_or_new s.next_buffer)
          some (record s {
            buffers = s.buffers ++ (current ∷ []);
            current_buffer = some b;
            next_buffer = none;
          })))

  -- Writing to the file, and the rest of the round.
  unfoldable pub end_round : AsyncLogging → Option AsyncLogging
  end_round s = do
    guard (not (is_empty s.buffers_to_write))
    let many = ltb 25 (length s.buffers_to_write)
    let kept = if many then take 2 s.buffers_to_write else s.buffers_to_write
    (buffer1, left) ← refill s.new_buffer1 (if ltb 2 (length kept) then take 2 kept else kept)
    (buffer2, _) ← refill s.new_buffer2 left
    some (record s {
      written =
          s.written
          ++ ((if many then notice (length s.buffers_to_write - 2) else []) ++ texts kept);
      dropped = s.dropped + (length s.buffers_to_write - length kept);
      new_buffer1 = buffer1;
      new_buffer2 = buffer2;
      buffers_to_write = [];
      place = at_test;
    })

  abbrev pub go_from : Place → AsyncLogging → Option AsyncLogging
  go_from at_test s = if s.running then begin_round s else some (record s { place = ended })
  go_from waiting s = collect s
  go_from writing s = end_round s
  go_from ended s = none

pub data Step : Type 0 where
  appends : List ℕ → Step
  goes_on : Step
  stops : Step

module _ (size : ℕ) (notice : ℕ → List ℕ) where
  unfoldable pub step : Step → AsyncLogging → Option AsyncLogging
  step (appends line) s = append_line size notice line s
  step goes_on s = go_from size notice s.place s
  step stops s = some (record s { running = false })
