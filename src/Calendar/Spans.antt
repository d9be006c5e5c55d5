-- ===== src/Calendar/Spans.antt =====
-- Weeks, months and years as spans of days: each tiles the days.
use offbook.Common.{ℕ, zero, suc, ◌+◌, ◌-◌, ◌*◌, ◌/◌, ◌≤◌, ◌<◌, ◌≡◌, arith}
use offbook.Calendar.{year_start, year_of, month_start, month_of, add_months, sub_months}
use offbook.Calendar.Years.{year_of-below, year_of-above}
use offbook.Calendar.Months.{
  month_start_year, month_start_grows, month_of-below, month_of-above, year_start-suc,
}

pub data Span : Type 0 where
  week month year : Span

-- The span of a number, and its first day.
abbrev pub index : Span → ℕ → ℕ
index week day = day / 7
index month day = month_of day
index year day = year_of day

abbrev pub bound : Span → ℕ → ℕ
bound week k = 7 * k
bound month k = month_start k
bound year k = year_start k

pub bound_grows : (s : Span) (k : ℕ) → bound s k < bound s (suc k)
bound_grows week k = omega arith
bound_grows month k = month_start_grows k
bound_grows year k = omega (arith, year_start-suc k)

pub index-below : (s : Span) (day : ℕ) → bound s (index s day) ≤ day
index-below week day = omega arith
index-below month day = month_of-below day
index-below year day = year_of-below day

pub index-above : (s : Span) (day : ℕ) → day < bound s (suc (index s day))
index-above week day = omega arith
index-above month day = month_of-above day
index-above year day = year_of-above day

pub bound_mono : (s : Span) (j n : ℕ) → bound s j ≤ bound s (j + n)
bound_mono s j zero = let e : j + 0 ≡ j = omega arith in rw e (omega arith)
bound_mono s j (suc n) =
    let e : j + suc n ≡ suc (j + n) = omega arith in
    rw e (omega (arith, bound_mono s j n, bound_grows s (j + n)))

pub bound_le : (s : Span) (j k : ℕ) → j ≤ k → bound s j ≤ bound s k
bound_le s j k h = let e : k ≡ j + (k - j) = omega arith in rw e (bound_mono s j (k - j))

-- The days of a span are those with its number.
pub index_unique :
    (s : Span) (k day : ℕ) → bound s k ≤ day → day < bound s (suc k) → index s day ≡ k
index_unique s k day h l = grind (
  arith,
  bound_le s (suc k) (index s day),
  bound_le s (suc (index s day)) k,
  index-below s day,
  index-above s day,
)

pub index-bound : (s : Span) (k : ℕ) → index s (bound s k) ≡ k
index-bound s k = index_unique s k (bound s k) (omega arith) (bound_grows s k)

-- `AddDate` by one span, forward and back.
unfoldable pub next_start : Span → ℕ → ℕ
next_start week day = day + 7
next_start month day = add_months 1 day
next_start year day = add_months 12 day

unfoldable pub prev_start : Span → ℕ → ℕ
prev_start week day = day - 7
prev_start month day = sub_months 1 day
prev_start year day = sub_months 12 day

year_is_month : (k : ℕ) → month_of (year_start k) ≡ 12 * k
year_is_month k = rw (← month_start_year k) (index-bound month (12 * k))

pub next_start-bound : (s : Span) (k : ℕ) → next_start s (bound s k) ≡ bound s (suc k)
unfolding next_start add_months
next_start-bound week k = omega arith
next_start-bound month k =
    rw (index-bound month k) (let e : k + 1 ≡ suc k = omega arith in rw e (omega arith))
next_start-bound year k =
    rw (year_is_month k, month_start_year k)
      (let e : 12 * k + 12 ≡ 12 * suc k = omega arith in
        rw (e, month_start_year (suc k)) (omega arith))

pub prev_start-bound : (s : Span) (k : ℕ) → prev_start s (bound s (suc k)) ≡ bound s k
unfolding prev_start sub_months
prev_start-bound week k = omega arith
prev_start-bound month k =
    rw (index-bound month (suc k)) (let e : suc k - 1 ≡ k = omega arith in rw e (omega arith))
prev_start-bound year k =
    rw (year_is_month (suc k), month_start_year (suc k))
      (let e : 12 * suc k - 12 ≡ 12 * k = omega arith in rw (e, month_start_year k) (omega arith))
