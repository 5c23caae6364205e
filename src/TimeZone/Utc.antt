-- ===== src/TimeZone/Utc.antt =====
-- UTC: a time turned into a struct tm, and back.
use muduo_pro.Common.{
  ℕ, zero, suc, ◌+◌, ◌-◌, ◌*◌, ◌/◌, ◌%◌, ◌≤◌, ◌<◌, ◌≡◌, refl, sym, ap, ◌∙◌, some, arith, le→leb,
  lt→leb, ℤ, pos, negsuc, neg, minus, ◌+ℤ◌, times, to_natural,
}
use muduo_pro.TimeZone.{Tm, step_back, seconds_and_days}

minus-pos : (a b : ℕ) → b ≤ a → minus a b ≡ pos (a - b)
minus-pos a b h = rw (le→leb b a h) refl

minus-negsuc : (a b : ℕ) → a < b → minus a b ≡ negsuc (b - a - 1)
minus-negsuc a b h = rw (lt→leb b a h) refl

neg-negsuc : (m n : ℕ) → m ≡ suc n → neg m ≡ negsuc n
neg-negsuc m n e = ap neg e

-- A number of days and seconds that stands for a time.
abbrev Stands : ℤ → ℕ → ℕ → Type 0
Stands t j s = times (minus j 2440588) 86400 +ℤ pos s ≡ t

from_1970 : (j s n : ℕ) → 2440588 ≤ j → n ≡ (j - 2440588) * 86400 + s → Stands (pos n) j s
from_1970 j s n h e = ap (λ d. times d 86400 +ℤ pos s) (minus-pos j 2440588 h) ∙ ap pos (sym e)

before_1970 :
    (j s n : ℕ)
    → j < 2440588
    → s < 86400
    → (2440588 - j) * 86400 ≡ suc n + s
    → Stands (negsuc n) j s
before_1970 j s n h small e =
    ap (λ d. times d 86400 +ℤ pos s) (minus-negsuc j 2440588 h)
    ∙ ap (λ d. d +ℤ pos s)
        (neg-negsuc (suc (2440588 - j - 1) * 86400) (n + s) (omega (arith, e, h)))
    ∙ minus-negsuc s (suc (n + s)) (omega arith)
    ∙ ap negsuc (omega arith)

-- What the seconds and days of a time are.
abbrev Parts : ℤ → ℤ × ℤ → Type 0
Parts t parts =
    (s j : ℕ) × (to_natural (parts.0) ≡ some s)
    × (to_natural (parts.1 +ℤ pos 2440588) ≡ some j)
    × (s < 86400)
    × (1721120 ≤ j)
    × (j < 536838868)
    × Stands t j s

back_from_negative :
    (q r n : ℕ)
    → suc n ≡ q * 86400 + r
    → r < 86400
    → suc n ≤ 719468 * 86400
    → Parts (negsuc n) (step_back (neg r) (neg q))
back_from_negative zero zero n e small low = absurd (omega (arith, e))
back_from_negative (suc q) zero n e small low = (
  0,
  2440588 - suc q,
  refl,
  ap to_natural (minus-pos 2440588 (suc q) (omega (arith, e, low))),
  omega arith,
  omega (arith, e, low),
  omega arith,
  before_1970 (2440588 - suc q) 0 n (omega arith) (omega arith) (omega (arith, e, low)),
)
back_from_negative zero (suc r) n e small low = (
  86400 - suc r,
  2440587,
  ap to_natural (minus-pos 86400 (suc r) (omega (arith, small))),
  refl,
  omega arith,
  omega arith,
  omega arith,
  before_1970 2440587 (86400 - suc r) n (omega arith) (omega arith) (omega (arith, e, small)),
)
back_from_negative (suc q) (suc r) n e small low = (
  86400 - suc r,
  2440588 - suc (suc q),
  ap to_natural (minus-pos 86400 (suc r) (omega (arith, small))),
  ap to_natural (minus-pos 2440588 (suc (suc (q + 0))) (omega (arith, e, low)))
      ∙ ap some (omega arith),
  omega arith,
  omega (arith, e, low),
  omega arith,
  before_1970 (2440588 - suc (suc q)) (86400 - suc r) n (omega arith) (omega arith)
      (omega (arith, e, small, low)),
)

-- From March 1 of the year 0 on, up to the last day for which the calendar does not overflow.
abbrev pub IsLate : ℤ → Type 0
IsLate (pos n) = n < 534398280 * 86400
IsLate (negsuc n) = suc n ≤ 719468 * 86400

parts : (t : ℤ) → IsLate t → Parts t (seconds_and_days t)
parts (pos n) late = (
  n % 86400,
  n / 86400 + 2440588,
  refl,
  refl,
  omega arith,
  omega arith,
  omega (arith, late),
  from_1970 (n / 86400 + 2440588) (n % 86400) n (omega arith) (omega arith),
)
parts (negsuc n) late =
    back_from_negative (suc n / 86400) (suc n % 86400) n (omega arith) (omega arith) late

-- What is in range.
pub record InRange (tm : Tm) : Type 0 where
  pub seconds : tm.tm_sec < 60
  pub minutes : tm.tm_min < 60
  pub hours : tm.tm_hour < 24
  pub month : tm.tm_mon < 12
  pub first_day : 1 ≤ tm.tm_mday
  pub last_day : tm.tm_mday ≤ 31
  pub day_of_week : tm.tm_wday < 7
