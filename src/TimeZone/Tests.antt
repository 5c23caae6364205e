-- ===== src/TimeZone/Tests.antt =====
-- Times at concrete values.
use muduo_pro.Common.{◌≡◌, refl, true, false, none, some, [], ◌∷◌, get_elem?, pos}
use muduo_pro.Date.{day_number, get_julian_day_number}
use muduo_pro.TimeZone.{julian_day_of_1970_01_01, Data, find_localtime}
use muduo_pro.TimeZone.Transitions.{last_not_after, find_localtime_lem}

-- Summer time from 100 to 200.
abbrev summer : Data
summer = record {
  transitions =
      record { gmttime = pos 100; localtime = pos 107; localtime_idx = 1 }
      ∷ (record { gmttime = pos 200; localtime = pos 206; localtime_idx = 0 } ∷ []);
  localtimes =
      record { gmt_offset = pos 6; is_dst = false; arrb_idx = 0 }
      ∷ (record { gmt_offset = pos 7; is_dst = true; arrb_idx = 4 } ∷ []);
  abbreviation = [];
}

find_localtime_lem_example :
    find_localtime summer (pos 150) true ≡ elim (last_not_after true (pos 150) summer.transitions) [
      | none ↦ get_elem? summer.localtimes 0
      | some t ↦ get_elem? summer.localtimes t.localtime_idx
    ]
find_localtime_lem_example = find_localtime_lem summer (pos 150) true (refl, tt)

at_the_transition :
    find_localtime summer (pos 200) true
    ≡ some (record { gmt_offset = pos 6; is_dst = false; arrb_idx = 0 })
unfolding find_localtime
at_the_transition = refl

day_of_1970 : get_julian_day_number 1970 1 1 ≡ some julian_day_of_1970_01_01
unfolding get_julian_day_number day_number
day_of_1970 = refl
