-- ===== src/LogFile.antt =====
-- muduo/base/LogFile.h and LogFile.cc: the files that a logger writes, in turn. Times are in seconds.
pub mod Write
pub mod Files
mod Tests
use muduo_pro.Common.{
  ℕ, zero, suc, ◌+◌, ◌-◌, ◌*◌, ◌/◌, Bool, true, false, Option, none, some, List, [], ◌∷◌, ◌++◌, ltb,
  ◌==◌, if◌then◌else◌, ◌>>=◌, length, take, drop, min,
}

-- `written` is what the stream has taken, and the first `flushed` of these bytes have left its buffer.
pub record File : Type 0 where
  pub opened_at : ℕ
  pub written : List ℕ
  pub flushed : ℕ
  pub written_bytes : ℕ

-- The file of `opened_at` has that time in its name. `files` begins with file_, then come those
-- that were closed, the newest first; none at all is the null pointer.
pub record LogFile : Type 0 where
  pub roll_size : ℕ
  pub flush_interval : ℕ
  pub count : ℕ
  pub start_of_period : ℕ
  pub last_roll : ℕ
  pub last_flush : ℕ
  pub files : List File

abbrev pub check_time_roll : ℕ
check_time_roll = 1024

abbrev pub roll_per_seconds : ℕ
roll_per_seconds = 60 * 60 * 24

-- The loop of File::append: `answer k` is the size that fwrite_unlocked would take in its call
-- number k. `none` is a loop that has not ended in the rounds given.
unfoldable pub write_rest : (ℕ → ℕ) → ℕ → ℕ → List ℕ → Option (List ℕ)
write_rest answer zero k rest = none
write_rest answer (suc rounds) k [] = some []
write_rest answer (suc rounds) k (b ∷ rest) =
    let x : ℕ = min (answer k) (length (b ∷ rest)) in
    let more = write_rest answer rounds (suc k) (drop x (b ∷ rest)) in
    if x == 0 then some [] else (do out ← more; some (take x (b ∷ rest) ++ out))

unfoldable pub file_append : (ℕ → ℕ) → List ℕ → File → Option File
file_append answer line f = do
  let n : ℕ = min (answer 0) (length line)
  out ← write_rest answer (suc (length line)) 1 (drop n line)
  some (record f {
    written = f.written ++ (take n line ++ out);
    written_bytes = f.written_bytes + length line;
  })

abbrev pub flush_file : File → File
flush_file f = record f { flushed = length f.written }

-- The first of the files is flushed, also when it is closed.
abbrev pub flush : List File → List File
flush [] = []
flush (f ∷ fs) = flush_file f ∷ fs

unfoldable pub roll_file : ℕ → LogFile → LogFile
roll_file now s =
    if ltb s.last_roll now
    then record s {
      last_roll = now;
      last_flush = now;
      start_of_period = now / roll_per_seconds * roll_per_seconds;
      files =
          record { opened_at = now; written = []; flushed = 0; written_bytes = 0 } ∷ flush s.files;
    }
    else s

unfoldable pub new_log_file : ℕ → ℕ → ℕ → LogFile
new_log_file roll_size flush_interval now = roll_file now (record {
  roll_size = roll_size;
  flush_interval = flush_interval;
  count = 0;
  start_of_period = 0;
  last_roll = 0;
  last_flush = 0;
  files = [];
})

-- A call of append: the line, what the stream takes, and the times that append_unlocked and rollFile
-- read.
pub record Append : Type 0 where
  pub line : List ℕ
  pub answer : ℕ → ℕ
  pub checked_at : ℕ
  pub rolled_at : ℕ

unfoldable pub check_period : Append → LogFile → LogFile
check_period a s =
    if a.checked_at / roll_per_seconds * roll_per_seconds == s.start_of_period
    then (if ltb s.flush_interval (a.checked_at - s.last_flush)
        then record s { last_flush = a.checked_at; files = flush s.files }
        else s)
    else roll_file a.rolled_at s

unfoldable pub roll_or_flush : Append → ℕ → LogFile → LogFile
roll_or_flush a written_bytes s =
    if ltb s.roll_size written_bytes
    then roll_file a.rolled_at s
    else (if ltb check_time_roll s.count
        then check_period a (record s { count = 0 })
        else record s { count = suc s.count })

abbrev pub append_to : Append → LogFile → List File → Option LogFile
append_to a s [] = none
append_to a s (f ∷ fs) = do
  f' ← file_append a.answer a.line f
  some (roll_or_flush a f'.written_bytes (record s { files = f' ∷ fs }))

unfoldable pub append_unlocked : Append → LogFile → Option LogFile
append_unlocked a s = append_to a s s.files

unfoldable pub append_all : List Append → LogFile → Option LogFile
append_all [] s = some s
append_all (a ∷ rest) s = do s' ← append_unlocked a s; append_all rest s'
