-- ===== src/Calendar.antt =====
-- Dates of the proleptic Gregorian calendar, as package time computes them in UTC: a date is the
-- number of days since 1 January of the year 1, a Monday. A year is counted from 0 for the year 1,
-- and a month is 12 times its year and its place in it, from 0.
mod Years
mod Months
pub mod Spans
use offbook.Common.{ℕ, ◌+◌, ◌-◌, ◌*◌, ◌/◌, ◌%◌, Bool, not, ◌&&◌, ◌||◌, ltb, ◌==◌, if◌then◌else◌}

-- The first day of a year.
unfoldable pub year_start : ℕ → ℕ
year_start y = 365 * y + y / 4 - y / 100 + y / 400

-- What is left of a cycle of four parts, of which the last is longer by a day.
abbrev pub part : ℕ → ℕ → ℕ
part length day = let n = day / length in n - n / 4

unfoldable pub year_of : ℕ → ℕ
year_of day =
    let rest400 = day % 146097 in
    let centuries = part 36524 rest400 in
    let rest100 = rest400 - 36524 * centuries in
    let rest4 = rest100 % 1461 in
    400 * (day / 146097) + 100 * centuries + 4 * (rest100 / 1461) + part 365 rest4

-- 1 where the year has a 29 February.
unfoldable pub leap_day : ℕ → ℕ
leap_day y =
    if ((y + 1) % 4 == 0) && (not ((y + 1) % 100 == 0) || ((y + 1) % 400 == 0)) then 1 else 0

-- The days of a year before its month.
unfoldable pub days_before : ℕ → ℕ → ℕ
days_before leap month =
    if month == 0
    then 0
    else if month == 1
    then 31
    else if month == 2
    then 59 + leap
    else if month == 3
    then 90 + leap
    else if month == 4
    then 120 + leap
    else if month == 5
    then 151 + leap
    else if month == 6
    then 181 + leap
    else if month == 7
    then 212 + leap
    else if month == 8
    then 243 + leap
    else if month == 9
    then 273 + leap
    else if month == 10
    then 304 + leap
    else 334 + leap

-- The month of a day of the year.
unfoldable pub month_in_year : ℕ → ℕ → ℕ
month_in_year leap day =
    if ltb day 31
    then 0
    else if ltb day (59 + leap)
    then 1
    else if ltb day (90 + leap)
    then 2
    else if ltb day (120 + leap)
    then 3
    else if ltb day (151 + leap)
    then 4
    else if ltb day (181 + leap)
    then 5
    else if ltb day (212 + leap)
    then 6
    else if ltb day (243 + leap)
    then 7
    else if ltb day (273 + leap)
    then 8
    else if ltb day (304 + leap)
    then 9
    else if ltb day (334 + leap)
    then 10
    else 11

-- The first day of a month, and the month of a day.
unfoldable pub month_start : ℕ → ℕ
month_start m = year_start (m / 12) + days_before (leap_day (m / 12)) (m % 12)

unfoldable pub month_of : ℕ → ℕ
month_of day =
    12 * year_of day + month_in_year (leap_day (year_of day)) (day - year_start (year_of day))

-- `AddDate(0, n, 0)` and `AddDate(0, -n, 0)`: the day of the month is kept, and one past the end of
-- the month counts on into the next.
unfoldable pub add_months : ℕ → ℕ → ℕ
add_months n day = month_start (month_of day + n) + (day - month_start (month_of day))

unfoldable pub sub_months : ℕ → ℕ → ℕ
sub_months n day = month_start (month_of day - n) + (day - month_start (month_of day))
