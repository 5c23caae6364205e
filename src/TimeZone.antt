-- ===== src/TimeZone.antt =====
-- muduo/base/TimeZone.h and TimeZone.cc: UTC and local times, and the transitions of a time zone. A
-- `time_t` is an integer; a day number below 0 or beyond an int is `none`, as in Date
-- they are natural numbers.
pub mod Utc
pub mod Transitions
mod Tests
use muduo_pro.Common.{
  ℕ, ◌+◌, ◌-◌, ◌*◌, ◌/◌, ◌%◌, ◌^◌, ◌==◌, guard, ◌>>◌, Bool, true, false, not, ◌&&◌, Option, none,
  some, List, [], ◌∷◌, ◌++◌, ltb, if◌then◌else◌, ◌>>=◌, get_elem?, ℤ, pos, negsuc, neg, is_negative,
  minus, ◌+ℤ◌, times, quotient_by, remainder_by, to_natural,
}
use muduo_pro.Date.{YearMonthDay, get_julian_day_number, get_year_month_day, week_day}

abbrev pub seconds_per_day : ℕ
seconds_per_day = 24 * 60 * 60

abbrev pub julian_day_of_1970_01_01 : ℕ
julian_day_of_1970_01_01 = 2440588

-- struct tm, without what a zone adds to it.
pub record Tm : Type 0 where
  pub tm_year : ℤ
  pub tm_mon : ℕ
  pub tm_mday : ℕ
  pub tm_hour : ℕ
  pub tm_min : ℕ
  pub tm_sec : ℕ
  pub tm_wday : ℕ
  pub tm_yday : ℕ

-- The seconds and the day, by division toward zero and a step back where seconds are negative.
abbrev pub step_back : ℤ → ℤ → ℤ × ℤ
step_back seconds days =
    if is_negative seconds
    then (seconds +ℤ pos seconds_per_day, days +ℤ negsuc 0)
    else (seconds, days)

abbrev pub seconds_and_days : ℤ → ℤ × ℤ
seconds_and_days t = step_back (remainder_by seconds_per_day t) (quotient_by seconds_per_day t)

-- Whether a cast to int keeps the number.
abbrev pub is_int : ℤ → Bool
is_int (pos n) = ltb n (2 ^ 31)
is_int (negsuc n) = ltb n (2 ^ 31)

abbrev pub day_of_year : Bool → ℕ → ℕ → Option ℕ
day_of_year false julian_day_number year = some 0
day_of_year true julian_day_number year = do
  start_of_year ← get_julian_day_number year 1 1
  some (julian_day_number - start_of_year)

-- `fillHMS` and the fields of the date.
abbrev pub fill : ℕ → ℕ → YearMonthDay → ℕ → Tm
fill seconds julian_day_number ymd yday = record {
  tm_sec = seconds % 60;
  tm_min = seconds / 60 % 60;
  tm_hour = seconds / 60 / 60;
  tm_year = minus ymd.year 1900;
  tm_mon = ymd.month - 1;
  tm_mday = ymd.day;
  tm_wday = week_day (record { julian_day_number = julian_day_number });
  tm_yday = yday;
}

-- A day that is no int is `none`, as is an overflow in the calendar.
unfoldable pub to_utc_time : ℤ → Bool → Option Tm
to_utc_time t yday = do
  guard (is_int (quotient_by seconds_per_day t))
  seconds ← to_natural ((seconds_and_days t).0)
  julian_day_number ← to_natural ((seconds_and_days t).1 +ℤ pos julian_day_of_1970_01_01)
  ymd ← get_year_month_day julian_day_number
  day ← day_of_year yday julian_day_number ymd.year
  some (fill seconds julian_day_number ymd day)

unfoldable pub from_utc_time : ℕ → ℕ → ℕ → ℕ → ℕ → ℕ → Option ℤ
from_utc_time year month day hour minute seconds = do
  julian_day_number ← get_julian_day_number year month day
  guard (ltb (hour * 3600 + minute * 60 + seconds) (2 ^ 31))
  let days : ℤ = minus julian_day_number julian_day_of_1970_01_01
  some (times days seconds_per_day +ℤ pos (hour * 3600 + minute * 60 + seconds))

-- `fromUtcTime` of a struct tm, for years from 0 on.
unfoldable pub from_utc_tm : Tm → Option ℤ
from_utc_tm utc = do
  year ← to_natural (utc.tm_year +ℤ pos 1900)
  from_utc_time year (utc.tm_mon + 1) utc.tm_mday utc.tm_hour utc.tm_min utc.tm_sec

pub record Transition : Type 0 where
  pub gmttime : ℤ
  pub localtime : ℤ
  pub localtime_idx : ℕ

pub record Localtime : Type 0 where
  pub gmt_offset : ℤ
  pub is_dst : Bool
  pub arrb_idx : ℕ

pub record Data : Type 0 where
  pub transitions : List Transition
  pub localtimes : List Localtime
  pub abbreviation : List ℕ

abbrev pub is_less : ℤ → ℤ → Bool
is_less (pos a) (pos b) = ltb a b
is_less (pos a) (negsuc b) = false
is_less (negsuc a) (pos b) = true
is_less (negsuc a) (negsuc b) = ltb b a

abbrev pub is_same : ℤ → ℤ → Bool
is_same (pos a) (pos b) = a == b
is_same (negsuc a) (negsuc b) = a == b
is_same _ _ = false

-- `Comp`, with the flag that tells which time is compared.
abbrev pub time_of : Bool → Transition → ℤ
time_of compare_gmt t = if compare_gmt then t.gmttime else t.localtime

-- `std::lower_bound`: what comes before it, and what stands from it on.
abbrev pub lower_bound : Bool → ℤ → List Transition → List Transition × List Transition
lower_bound compare_gmt time [] = ([], [])
lower_bound compare_gmt time (t ∷ ts) =
    let rest : List Transition × List Transition = lower_bound compare_gmt time ts in
    if is_less (time_of compare_gmt t) time then (t ∷ rest.0, rest.1) else ([], t ∷ ts)

abbrev pub back : List Transition → Option Transition
back [] = none
back (t ∷ []) = some t
back (t ∷ (u ∷ us)) = back (u ∷ us)

-- `findLocaltime` where the time is not before the first transition: the transition it goes by.
abbrev pub at_lower_bound :
    Bool → ℤ → List Transition → List Transition × List Transition → Option Transition
at_lower_bound compare_gmt time all (before, []) = back all
at_lower_bound compare_gmt time all (before, t ∷ ts) =
    if is_same time (time_of compare_gmt t) then some t else back before

abbrev pub find_from : Bool → ℤ → Data → List Transition → Option Localtime
find_from compare_gmt time data_ [] = get_elem? data_.localtimes 0
find_from compare_gmt time data_ (first ∷ ts) =
    if is_less time (time_of compare_gmt first) then get_elem? data_.localtimes 0 else (do
      t ← at_lower_bound compare_gmt time (first ∷ ts) (lower_bound compare_gmt time (first ∷ ts))
      get_elem? data_.localtimes t.localtime_idx)

-- `none` is an access outside of a vector, or a failed assert.
unfoldable pub find_localtime : Data → ℤ → Bool → Option Localtime
find_localtime data_ time compare_gmt = find_from compare_gmt time data_ data_.transitions

-- The local time that `toLocalTime` gives to gmtime_r, with the offset and whether it is summer time.
unfoldable pub to_local_seconds : Data → ℤ → Option (ℤ × Localtime)
to_local_seconds data_ seconds = do
  local ← find_localtime data_ seconds true
  some (seconds +ℤ local.gmt_offset, local)
