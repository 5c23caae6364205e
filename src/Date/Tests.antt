-- ===== src/Date/Tests.antt =====
-- Dates at concrete days.
use mathlib.Core.Option
use muduo_pro.Common.{some, ◌≤◌, ◌≡◌, refl, arith}
use muduo_pro.Date.{
  YearMonthDay, day_number, date_of, get_julian_day_number, get_year_month_day, week_day,
  of_year_month_day,
}
use muduo_pro.Date.RoundTrip.{get_julian_day_number-get_year_month_day}

-- A leap day, and a Tuesday.
leap_day : get_year_month_day 2451604 ≡ some (record { year = 2000; month = 2; day = 29 })
unfolding get_year_month_day date_of
leap_day = refl

leap_day_week_day : Option.map week_day (of_year_month_day 2000 2 29) ≡ some 2
unfolding get_julian_day_number day_number
leap_day_week_day = refl

get_julian_day_number-get_year_month_day_example :
    (ymd : YearMonthDay) × (get_year_month_day 2440588 ≡ some ymd)
    × (get_julian_day_number ymd.year ymd.month ymd.day ≡ some 2440588)
    × (1 ≤ ymd.month)
    × (ymd.month ≤ 12)
    × (1 ≤ ymd.day)
    × (ymd.day ≤ 31)
    × (ymd.year ≤ 1480000)
get_julian_day_number-get_year_month_day_example =
    get_julian_day_number-get_year_month_day 2440588 (omega arith) (omega arith)
