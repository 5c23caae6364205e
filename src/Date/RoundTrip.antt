-- ===== src/Date/RoundTrip.antt =====
-- A day number turned into a date and back.
use muduo_pro.Common.{
  ℕ, ◌+◌, ◌-◌, ◌*◌, ◌/◌, ◌<◌, ◌^◌, ◌≤◌, ◌≡◌, refl, ap, ◌∙◌, arith, some, lt→ltb, le→leb,
}
use muduo_pro.Date.{YearMonthDay, day_number, date_of, get_julian_day_number, get_year_month_day}

-- The day of the century, of the year from March on, and the month from March on.
century_bound : (a : ℕ) → a - (4 * a + 3) / 146097 * 146097 / 4 ≤ 36524
century_bound a = omega arith

century_le : (a : ℕ) → (4 * a + 3) / 146097 * 146097 / 4 ≤ a
century_le a = omega arith

year_bound : (c : ℕ) → c ≤ 36524 → (4 * c + 3) / 1461 ≤ 99
year_bound c h = omega (arith, h)

day_bound : (c : ℕ) → c - 1461 * ((4 * c + 3) / 1461) / 4 ≤ 365
day_bound c = omega arith

year_le : (c : ℕ) → 1461 * ((4 * c + 3) / 1461) / 4 ≤ c
year_le c = omega arith

month_bound : (e : ℕ) → e ≤ 365 → (5 * e + 2) / 153 ≤ 11
month_bound e h = omega (arith, h)

month_le : (e : ℕ) → (153 * ((5 * e + 2) / 153) + 2) / 5 ≤ e
month_le e = omega arith

next_year : (m : ℕ) → m ≤ 11 → (14 - (m + 3 - 12 * (m / 10))) / 12 ≡ m / 10
next_year m h = omega (arith, h)

same_year : (y m : ℕ) → 4800 ≤ y + m / 10 → y + m / 10 - 4800 + 4800 - m / 10 ≡ y
same_year y m h = omega (arith, h)

same_month : (m : ℕ) → m ≤ 11 → m + 3 - 12 * (m / 10) + 12 * (m / 10) - 3 ≡ m
same_month m h = omega (arith, h)

leap_days :
    (b d : ℕ)
    → d ≤ 99
    → (365 * (b * 100 + d) + (b * 100 + d) / 4 ≡ (b * 100 + d) / 100 + b * 36524 + 1461 * d / 4)
      × ((b * 100 + d) / 400 ≡ b / 4)
      × (b * 146097 / 4 ≡ b * 36524 + b / 4)
leap_days b d h = (omega (arith, h), omega (arith, h), omega arith)

-- `getJulianDayNumber` of a year and month counted from March of the year -4800.
from_parts :
    (b d m : ℕ) (x : ℕ)
    → d ≤ 99
    → m ≤ 11
    → 4800 ≤ b * 100 + d + m / 10
    → day_number (b * 100 + d + m / 10 - 4800) (m + 3 - 12 * (m / 10)) (x + 1)
      ≡ x + (153 * m + 2) / 5 + 1461 * d / 4 + b * 146097 / 4 - 32044
unfolding day_number
from_parts b d m x hd hm hy =
    let (years, centuries, quarter) = leap_days b d hd in
    rw (next_year m hm, same_year (b * 100 + d) m hy, same_month m hm)
      (omega (arith, years, centuries, quarter))

from_days :
    (n b c d e m : ℕ)
    → d ≤ 99
    → m ≤ 11
    → 48 ≤ b
    → b * 146097 / 4 ≤ n + 32044
    → c ≡ n + 32044 - b * 146097 / 4
    → 1461 * d / 4 ≤ c
    → e ≡ c - 1461 * d / 4
    → (153 * m + 2) / 5 ≤ e
    → day_number (b * 100 + d + m / 10 - 4800) (m + 3 - 12 * (m / 10)) (e - (153 * m + 2) / 5 + 1)
      ≡ n
from_days n b c d e m hd hm hb b_le hc c_le he e_le =
    from_parts b d m (e - (153 * m + 2) / 5) hd hm (omega (arith, hb))
    ∙ omega (arith, b_le, hc, c_le, he, e_le)

century_from : (n : ℕ) → 1721120 ≤ n → 48 ≤ (4 * (n + 32044) + 3) / 146097
century_from n h = omega (arith, h)

-- The date of a day number has a month from 1 to 12 and a day from 1 to 31.
date_of_lem :
    (n : ℕ)
    → (1 ≤ (date_of n).month)
      × ((date_of n).month ≤ 12)
      × (1 ≤ (date_of n).day)
      × ((date_of n).day ≤ 31)
unfolding date_of
date_of_lem n =
    let a : ℕ = n + 32044 in
    let c : ℕ = a - (4 * a + 3) / 146097 * 146097 / 4 in
    let e : ℕ = c - 1461 * ((4 * c + 3) / 1461) / 4 in
    let (low, high) = months ((5 * e + 2) / 153) (month_bound e (day_bound c)) in
    (low, high, omega arith, days e)
  where
    months : (m : ℕ) → m ≤ 11 → (1 ≤ m + 3 - 12 * (m / 10)) × (m + 3 - 12 * (m / 10) ≤ 12)
    months m h = (omega (arith, h), omega (arith, h))

    days : (e : ℕ) → e - (153 * ((5 * e + 2) / 153) + 2) / 5 + 1 ≤ 31
    days e = omega arith

day_number-date_of :
    (n : ℕ)
    → 1721120 ≤ n
    → (day_number (date_of n).year (date_of n).month (date_of n).day ≡ n)
      × (1 ≤ (date_of n).month)
      × ((date_of n).month ≤ 12)
      × (1 ≤ (date_of n).day)
      × ((date_of n).day ≤ 31)
unfolding date_of
day_number-date_of n h =
    let a : ℕ = n + 32044 in
    let b : ℕ = (4 * a + 3) / 146097 in
    let c : ℕ = a - b * 146097 / 4 in
    let d : ℕ = (4 * c + 3) / 1461 in
    let e : ℕ = c - 1461 * d / 4 in
    let m : ℕ = (5 * e + 2) / 153 in
    let (low, high, first, last) = date_of_lem n in
    (
      from_days n b c d e m (year_bound c (century_bound a)) (month_bound e (day_bound c))
          (century_from n h) (century_le a) refl (year_le c) refl (month_le e),
      low,
      high,
      first,
      last,
    )

-- The largest value of `getJulianDayNumber`, and the year, by the day number.
bounded :
    (n y first s : ℕ)
    → s ≡ first + y * 365 + y / 4
    → s - y / 100 + y / 400 - 32045 ≡ n
    → n < 536838868
    → 1 ≤ n
    → (s < 2 ^ 31) × (y ≤ 1480000)
bounded n y first s e same small some_day =
    (omega (arith, e, same, small, some_day), omega (arith, e, same, small, some_day))

-- A day number from March 1 of the year 0 on, up to the last for which `getYearMonthDay` does not
-- overflow, is the number of the date that it stands for, and that date has a month from 1 to 12 and a
-- day from 1 to 31, and its year can be used for a day number again.
pub get_julian_day_number-get_year_month_day :
    (n : ℕ)
    → 1721120 ≤ n
    → n < 536838868
    → (ymd : YearMonthDay) × (get_year_month_day n ≡ some ymd)
      × (get_julian_day_number ymd.year ymd.month ymd.day ≡ some n)
      × (1 ≤ ymd.month)
      × (ymd.month ≤ 12)
      × (1 ≤ ymd.day)
      × (ymd.day ≤ 31)
      × (ymd.year ≤ 1480000)
unfolding get_year_month_day get_julian_day_number
get_julian_day_number-get_year_month_day n late small =
    let (same, low, high, first, last) = day_number-date_of n late in
    let ymd : YearMonthDay = date_of n in
    let a : ℕ = (14 - (date_of n).month) / 12 in
    let y : ℕ = (date_of n).year + 4800 - (14 - (date_of n).month) / 12 in
    let m : ℕ = (date_of n).month + 12 * ((14 - (date_of n).month) / 12) - 3 in
    let (fits, years) =
      bounded n y ((date_of n).day + (153 * m + 2) / 5)
        ((date_of n).day + (153 * m + 2) / 5 + y * 365 + y / 4) refl (unfold day_number in same)
        small (omega (arith, late)) in
    (
      date_of n,
      rw (lt→ltb (4 * (n + 32044) + 3) (2 ^ 31) (omega (arith, small))) refl,
      rw
          (
            le→leb (date_of n).month 25 (omega (arith, high)),
            lt→ltb ((date_of n).day + (153 * m + 2) / 5 + y * 365 + y / 4) (2 ^ 31) fits,
          )
          (ap some same),
      low,
      high,
      first,
      last,
      omega (arith, years),
    )
