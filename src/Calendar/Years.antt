-- ===== src/Calendar/Years.antt =====
-- Every day lies in its year.
use offbook.Common.{ℕ, suc, ◌≤◌, ◌<◌, arith}
use offbook.Calendar.{year_start, year_of}

pub year_of-below : (day : ℕ) → year_start (year_of day) ≤ day
unfolding year_start year_of
year_of-below day = omega arith

pub year_of-above : (day : ℕ) → day < year_start (suc (year_of day))
unfolding year_start year_of
year_of-above day = omega arith
