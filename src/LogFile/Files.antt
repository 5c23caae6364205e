-- ===== src/LogFile/Files.antt =====
-- The files of a LogFile through any history of calls of append.
use muduo_pro.Common.{
  ℕ, suc, ◌+◌, ◌-◌, ◌*◌, ◌/◌, ◌<◌, ◌≡◌, refl, sym, ap, subst, ◌∙◌, inl, inr, true, some, List, [],
  ◌∷◌, ◌++◌, ltb, ◌==◌, ◌>>=◌, length, arith, Bool-cases, ltb→lt, append-nil, append_assoc,
}
use muduo_pro.LogFile.{
  File, LogFile, flush_file, flush, roll_file, new_log_file, Append, check_period, roll_or_flush,
  append_to, append_unlocked, append_all, roll_per_seconds, check_time_roll,
}
use muduo_pro.LogFile.Write.{KeepsTaking, file_append_all}

-- The bytes of all files, the oldest first.
abbrev pub contents : List File → List ℕ
contents [] = []
contents (f ∷ fs) = contents fs ++ f.written

-- No two files have the same time in their names: each is opened later than the one before it.
abbrev pub Before : List File → ℕ → Type 0
Before [] t = Unit
Before (f ∷ fs) t = (f.opened_at < t) × Before fs f.opened_at

-- A file is open, the one of the last roll, and the files hold these bytes.
pub data Keeping (s : LogFile) (bytes : List ℕ) : Type 0 where
  keeping :
      (f : File) (fs : List File)
      → s.files ≡ f ∷ fs
      → f.opened_at ≡ s.last_roll
      → Before fs f.opened_at
      → contents fs ++ f.written ≡ bytes
      → Keeping s bytes

abbrev pub lines : List Append → List ℕ
lines [] = []
lines (a ∷ rest) = a.line ++ lines rest

abbrev pub AllTaken : List Append → Type 0
AllTaken [] = Unit
AllTaken (a ∷ rest) = KeepsTaking a.answer × AllTaken rest

-- A step that leaves the files, but may flush.
same_files :
    (s s' : LogFile) (bytes : List ℕ)
    → s'.files ≡ s.files
    → s'.last_roll ≡ s.last_roll
    → Keeping s bytes
    → Keeping s' bytes
same_files s s' bytes e r (keeping f fs h o b c) = keeping f fs (e ∙ h) (o ∙ sym r) b c

flushed_files :
    (s s' : LogFile) (bytes : List ℕ)
    → s'.files ≡ flush s.files
    → s'.last_roll ≡ s.last_roll
    → Keeping s bytes
    → Keeping s' bytes
flushed_files s s' bytes e r (keeping f fs h o b c) =
    keeping (flush_file f) fs (e ∙ ap flush h) (o ∙ sym r) b c

roll_file-Keeping :
    (now : ℕ) (s : LogFile) (bytes : List ℕ) → Keeping s bytes → Keeping (roll_file now s) bytes
unfolding roll_file
roll_file-Keeping now s bytes (keeping f fs h o b c) = elim (Bool-cases (ltb s.last_roll now)) [
  | inl later ↦ rw later (
      keeping (record { opened_at = now; written = []; flushed = 0; written_bytes = 0 })
        (flush_file f ∷ fs)
        (ap
          (λ l. record { opened_at = now; written = []; flushed = 0; written_bytes = 0 } ∷ flush l)
          h)
        refl (subst (λ t. t < now) (sym o) (ltb→lt s.last_roll now later), b)
        (append-nil (contents fs ++ f.written) ∙ c))
  | inr same ↦ rw same (keeping f fs h o b c)
]

check_period-Keeping :
    (a : Append) (s : LogFile) (bytes : List ℕ) → Keeping s bytes → Keeping (check_period a s) bytes
unfolding check_period
check_period-Keeping a s bytes k =
    elim (Bool-cases (a.checked_at / roll_per_seconds * roll_per_seconds == s.start_of_period)) [
      | inr other ↦ rw other (roll_file-Keeping a.rolled_at s bytes k)
      | inl same ↦ elim (Bool-cases (ltb s.flush_interval (a.checked_at - s.last_flush))) [
        | inl due ↦
            rw (same, due)
              (flushed_files s (record s { last_flush = a.checked_at; files = flush s.files }) bytes
                refl refl k)
        | inr early ↦ rw (same, early) k
      ]
    ]

roll_or_flush-Keeping :
    (a : Append) (n : ℕ) (s : LogFile) (bytes : List ℕ)
    → Keeping s bytes
    → Keeping (roll_or_flush a n s) bytes
unfolding roll_or_flush
roll_or_flush-Keeping a n s bytes k = elim (Bool-cases (ltb s.roll_size n)) [
  | inl full ↦ rw full (roll_file-Keeping a.rolled_at s bytes k)
  | inr room ↦ elim (Bool-cases (ltb check_time_roll s.count)) [
    | inl checked ↦
        rw (room, checked)
          (check_period-Keeping a (record s { count = 0 }) bytes
            (same_files s (record s { count = 0 }) bytes refl refl k))
    | inr counted ↦
        rw (room, counted) (same_files s (record s { count = suc s.count }) bytes refl refl k)
  ]
]

append_unlocked-Keeping :
    (a : Append) (s : LogFile) (bytes : List ℕ)
    → KeepsTaking a.answer
    → Keeping s bytes
    → (s' : LogFile) × (append_unlocked a s ≡ some s') × Keeping s' (bytes ++ a.line)
unfolding append_unlocked
append_unlocked-Keeping a s bytes taking (keeping f fs h o b c) =
    let f' : File = record f {
      written = f.written ++ a.line;
      written_bytes = f.written_bytes + length a.line;
    } in
    (
      roll_or_flush a f'.written_bytes (record s { files = f' ∷ fs }),
      ap (append_to a s) h
          ∙ ap
              (λ r.
                r >>= (λ g. some (roll_or_flush a g.written_bytes (record s { files = g ∷ fs }))))
              (file_append_all a.answer a.line f taking),
      roll_or_flush-Keeping a f'.written_bytes (record s { files = f' ∷ fs }) (bytes ++ a.line)
          (keeping f' fs refl o b
            (sym (append_assoc (contents fs) f.written a.line) ∙ ap (λ l. l ++ a.line) c)),
    )

append_all-keeps :
    (calls : List Append) (s : LogFile) (bytes : List ℕ)
    → AllTaken calls
    → Keeping s bytes
    → (s' : LogFile) × (append_all calls s ≡ some s') × Keeping s' (bytes ++ lines calls)
unfolding append_all
append_all-keeps [] s bytes taking k =
    (s, refl, subst (λ l. Keeping s l) (sym (append-nil bytes)) k)
append_all-keeps (a ∷ rest) s bytes (t, taking) k =
    let (s1, e1, k1) = append_unlocked-Keeping a s bytes t k in
    let (s2, e2, k2) = append_all-keeps rest s1 (bytes ++ a.line) taking k1 in
    (s2, rw e1 e2, subst (λ l. Keeping s2 l) (append_assoc bytes a.line (lines rest)) k2)

new_log_file-Keeping :
    (roll_size flush_interval now : ℕ)
    → Keeping (new_log_file roll_size flush_interval (suc now)) []
unfolding new_log_file roll_file
new_log_file-Keeping roll_size flush_interval now = rw (later now) (
    keeping (record { opened_at = suc now; written = []; flushed = 0; written_bytes = 0 }) [] refl
      refl tt refl)
  where
    later : (n : ℕ) → ltb 0 (suc n) ≡ true
    later n = ground arith

-- Of a LogFile that is made after time 0, on a stream that keeps taking bytes: any calls of append
-- return, the files then hold all the lines in their order, and each file was opened later than the
-- one before it, whatever the times that are read.
pub append_all-Keeping :
    (roll_size flush_interval now : ℕ) (calls : List Append)
    → AllTaken calls
    → (s : LogFile) × (append_all calls (new_log_file roll_size flush_interval (suc now)) ≡ some s)
      × Keeping s (lines calls)
append_all-Keeping roll_size flush_interval now calls taking =
    append_all-keeps calls (new_log_file roll_size flush_interval (suc now)) [] taking
      (new_log_file-Keeping roll_size flush_interval now)
