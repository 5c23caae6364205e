-- ===== src/Date.antt =====
-- muduo/base/Date.h and Date.cc: dates of the Gregorian calendar as Julian day numbers. An `int` is a
-- natural number, and `none` is an overflow; the theorems are about the days on which no value of the
-- code is negative.
pub mod RoundTrip
mod Tests
use muduo_pro.Common.{
  ℕ, ◌+◌, ◌-◌, ◌*◌, ◌/◌, ◌%◌, ◌^◌, Bool, Option, none, some, ltb, leb, ◌==◌, guard, ◌>>=◌, ◌>>◌,
}

pub record YearMonthDay : Type 0 where
  pub year : ℕ
  pub month : ℕ
  pub day : ℕ

-- What `getJulianDayNumber` computes.
unfoldable pub day_number : ℕ → ℕ → ℕ → ℕ
day_number year month day =
    let a : ℕ = (14 - month) / 12 in
    let y : ℕ = year + 4800 - a in
    let m : ℕ = month + 12 * a - 3 in
    day + (153 * m + 2) / 5 + y * 365 + y / 4 - y / 100 + y / 400 - 32045

-- For a later month `a` is negative, and the largest value of the code has to fit an int.
unfoldable pub get_julian_day_number : ℕ → ℕ → ℕ → Option ℕ
get_julian_day_number year month day =
    let a : ℕ = (14 - month) / 12 in
    let y : ℕ = year + 4800 - a in
    let m : ℕ = month + 12 * a - 3 in
    (do
      guard (leb month 25)
      guard (ltb (day + (153 * m + 2) / 5 + y * 365 + y / 4) (2 ^ 31))
      some (day_number year month day))

-- What `getYearMonthDay` computes.
unfoldable pub date_of : ℕ → YearMonthDay
date_of julian_day_number =
    let a : ℕ = julian_day_number + 32044 in
    let b : ℕ = (4 * a + 3) / 146097 in
    let c : ℕ = a - b * 146097 / 4 in
    let d : ℕ = (4 * c + 3) / 1461 in
    let e : ℕ = c - 1461 * d / 4 in
    let m : ℕ = (5 * e + 2) / 153 in
    record {
      day = e - (153 * m + 2) / 5 + 1;
      month = m + 3 - 12 * (m / 10);
      year = b * 100 + d + m / 10 - 4800;
    }

-- `4 * a + 3` is the largest value of the code.
unfoldable pub get_year_month_day : ℕ → Option YearMonthDay
get_year_month_day julian_day_number = do
  guard (ltb (4 * (julian_day_number + 32044) + 3) (2 ^ 31))
  some (date_of julian_day_number)

-- The class Date.
pub record Date : Type 0 where
  pub julian_day_number : ℕ

abbrev pub of_year_month_day : ℕ → ℕ → ℕ → Option Date
of_year_month_day y m d = do
  n ← get_julian_day_number y m d
  some (record { julian_day_number = n })

abbrev pub year_month_day : Date → Option YearMonthDay
year_month_day date = get_year_month_day date.julian_day_number

abbrev pub valid : Date → Bool
valid date = ltb 0 date.julian_day_number

abbrev pub week_day : Date → ℕ
week_day date = (date.julian_day_number + 1) % 7

abbrev pub before : Date → Date → Bool
before x y = ltb x.julian_day_number y.julian_day_number

abbrev pub same : Date → Date → Bool
same x y = x.julian_day_number == y.julian_day_number
