-- ===== src/LogFile/Tests.antt =====
-- Runs and witnesses for LogFile.
use muduo_pro.Common.{ℕ, zero, suc, ◌≡◌, refl, Option, some, List, [], ◌∷◌, ◌++◌, ◌>>=◌, arith, map}
use muduo_pro.LogFile.{
  File, LogFile, new_log_file, Append, file_append, write_rest, append_unlocked, append_all,
  roll_file, roll_or_flush,
}
use muduo_pro.LogFile.Write.{AllBut, file_append_returns}
use muduo_pro.LogFile.Files.{Keeping, lines, append_all-Keeping}

abbrev empty_file : File
empty_file = record { opened_at = 7; written = []; flushed = 0; written_bytes = 0 }

-- The stream takes two bytes, then one, then none.
abbrev tired : ℕ → ℕ
tired zero = 2
tired (suc zero) = 1
tired (suc (suc k)) = 0

-- The last byte is lost, and counted.
tired_test :
    file_append tired (1 ∷ 2 ∷ 3 ∷ 4 ∷ []) empty_file
    ≡ some (record empty_file { written = 1 ∷ 2 ∷ 3 ∷ []; written_bytes = 4 })
unfolding file_append write_rest
tired_test = refl

file_append_returns_example :
    (out lost : List ℕ) × (out ++ lost ≡ 1 ∷ 2 ∷ 3 ∷ 4 ∷ [])
    × (file_append tired (1 ∷ 2 ∷ 3 ∷ 4 ∷ []) empty_file
        ≡ some (record empty_file { written = [] ++ out; written_bytes = 4 }))
    × AllBut tired lost
file_append_returns_example = file_append_returns tired (1 ∷ 2 ∷ 3 ∷ 4 ∷ []) empty_file

-- Three lines, one byte at a time; the second is too long for its file, and the clock has moved.
abbrev calls : List Append
calls =
    record { line = 1 ∷ 2 ∷ []; answer = λ k. 1; checked_at = 100; rolled_at = 100 }
    ∷ record { line = 3 ∷ 4 ∷ []; answer = λ k. 1; checked_at = 101; rolled_at = 101 }
    ∷ record { line = 5 ∷ []; answer = λ k. 1; checked_at = 102; rolled_at = 102 }
    ∷ []

abbrev files_after : Option (List (List ℕ))
files_after = do s ← append_all calls (new_log_file 3 3 100); some (map (λ f. f.written) s.files)

files_after_test : files_after ≡ some ((5 ∷ []) ∷ (1 ∷ 2 ∷ 3 ∷ 4 ∷ []) ∷ [])
unfolding append_all append_unlocked new_log_file file_append write_rest roll_file roll_or_flush
files_after_test = refl

append_all-Keeping_example :
    (s : LogFile) × (append_all calls (new_log_file 3 3 100) ≡ some s) × Keeping s (lines calls)
append_all-Keeping_example =
    append_all-Keeping 3 3 99 calls
      ((λ k. omega arith), ((λ k. omega arith), ((λ k. omega arith), tt)))
