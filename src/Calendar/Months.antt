-- ===== src/Calendar/Months.antt =====
-- Every day lies in its month, and the months follow one another.
use offbook.Common.{
  ℕ, suc, ◌+◌, ◌-◌, ◌*◌, ◌/◌, ◌%◌, ◌≤◌, ◌<◌, ◌≡◌, refl, subst, ◌∙◌, inl, inr, ◌⊎◌, arith, ==_iff,
  Bool-cases, ◌==◌,
}
use offbook.Calendar.{
  year_start, year_of, leap_day, days_before, month_in_year, month_start, month_of,
}
use offbook.Calendar.Years.{year_of-below, year_of-above}

leap_day-le : (y : ℕ) → leap_day y ≤ 1
unfolding leap_day
leap_day-le y = ground arith

pub year_start-suc : (y : ℕ) → year_start (suc y) ≡ year_start y + (365 + leap_day y)
unfolding year_start leap_day
year_start-suc y = ground arith

month_in_year-le : (leap day : ℕ) → month_in_year leap day ≤ 11
unfolding month_in_year
month_in_year-le leap day = ground arith

month_in_year-below :
    (leap day : ℕ) → leap ≤ 1 → day < 365 + leap → days_before leap (month_in_year leap day) ≤ day
unfolding month_in_year days_before
month_in_year-below leap day h k = ground arith

month_in_year-above :
    (leap day : ℕ)
    → leap ≤ 1
    → day < 365 + leap
    → ((month_in_year leap day ≡ 11) ⊎ (day < days_before leap (suc (month_in_year leap day))))
unfolding month_in_year days_before
month_in_year-above leap day h k = ground arith

days_before-suc : (leap m : ℕ) → m < 11 → days_before leap m < days_before leap (suc m)
unfolding days_before
days_before-suc leap m h = ground arith

month_start_at :
    (y p : ℕ) → p ≤ 11 → month_start (12 * y + p) ≡ year_start y + days_before (leap_day y) p
unfolding month_start
month_start_at y p h =
    let year : (12 * y + p) / 12 ≡ y = omega arith in
    let place : (12 * y + p) % 12 ≡ p = omega arith in rw (year, place) refl

pub month_start_year : (y : ℕ) → month_start (12 * y) ≡ year_start y
unfolding days_before
month_start_year y =
    let e : 12 * y + 0 ≡ 12 * y = omega arith in
    subst (λ m. month_start m ≡ year_start y) e (month_start_at y 0 (omega arith) ∙ omega arith)

month_start_next :
    (y p : ℕ)
    → p < 11
    → month_start (suc (12 * y + p)) ≡ year_start y + days_before (leap_day y) (suc p)
month_start_next y p h =
    let e : suc (12 * y + p) ≡ 12 * y + suc p = omega arith in rw e (month_start_at y (suc p) h)

month_start_december : (y : ℕ) → month_start (suc (12 * y + 11)) ≡ year_start y + (365 + leap_day y)
month_start_december y =
    let e : suc (12 * y + 11) ≡ 12 * suc y = omega arith in
    rw e (month_start_year (suc y) ∙ year_start-suc y)

month_start_grows_at :
    (y p : ℕ) → p ≤ 11 → month_start (12 * y + p) < month_start (suc (12 * y + p))
unfolding days_before
month_start_grows_at y p h = elim (Bool-cases (p == 11)) [
  | inl e ↦
      let q : p ≡ 11 = ground arith in
      rw q (omega (arith, month_start_december y, month_start_at y 11))
  | inr e ↦
      ground (arith, month_start_next y p, month_start_at y p h, days_before-suc (leap_day y) p)
]

pub month_start_grows : (m : ℕ) → month_start m < month_start (suc m)
month_start_grows m =
    let e : m ≡ 12 * (m / 12) + m % 12 = omega arith in
    rw e (month_start_grows_at (m / 12) (m % 12) (omega arith))

pub month_of-below : (day : ℕ) → month_start (month_of day) ≤ day
unfolding month_of
month_of-below day = omega (
  arith,
  month_start_at y p (month_in_year-le leap rest),
  year_of-below day,
  year_of-above day,
  year_start-suc y,
  month_in_year-below leap rest (leap_day-le y)
      (omega (arith, year_of-below day, year_of-above day, year_start-suc y)),
)
  where
    y : ℕ
    y = year_of day

    leap : ℕ
    leap = leap_day y

    rest : ℕ
    rest = day - year_start y

    p : ℕ
    p = month_in_year leap rest

pub month_of-above : (day : ℕ) → day < month_start (suc (month_of day))
unfolding month_of
month_of-above day = elim (month_in_year-above leap rest (leap_day-le y) within) [
  | inl q ↦ rw q (omega (arith, month_start_december y, within, year_of-below day))
  | inr q ↦ elim (Bool-cases (p == 11)) [
    | inl e ↦
        let s : p ≡ 11 = (==_iff p 11).0 e in
        rw s (omega (arith, month_start_december y, within, year_of-below day))
    | inr e ↦ omega (
      arith,
      month_start_next y p (ground (arith, e, month_in_year-le leap rest)),
      q,
      year_of-below day,
    )
  ]
]
  where
    y : ℕ
    y = year_of day

    leap : ℕ
    leap = leap_day y

    rest : ℕ
    rest = day - year_start y

    p : ℕ
    p = month_in_year leap rest

    within : rest < 365 + leap
    within = omega (arith, year_of-below day, year_of-above day, year_start-suc y)
