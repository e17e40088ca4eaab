-- ===== src/Traffic/Calendar/RoundTrip.antt =====
-- src/traffic.rs: `days_from_civil` after `civil_from_days`.
use runman_agent.Prelude.{ℕ, ◌+◌, ◌-◌, ◌*◌, ◌/◌, ◌≤◌, ◌<◌, ◌≡◌, refl, ◌∙◌, arith}
use runman_agent.Prelude.Int.{
  ℤ, pos, ◌+ℤ◌, div_euclid, rem_euclid, div_euclid_parts, rem_euclid-lt, +ℤ_parts, eq_of_parts,
}
use runman_agent.Traffic.Calendar.{year_of_era, days_before_year, days_from_civil, civil_from_days}
use runman_agent.Traffic.Calendar.Months.{
  month_of, carry, year_of, day_number, days_from_civil-month_of, day_number_parts,
}
use runman_agent.Traffic.Calendar.Years.{year_of_era-lt, year_lower}

-- The parts of `civil_from_days`.
abbrev pub era_of : ℤ → ℤ
era_of z = div_euclid (z +ℤ pos 719468) 146097

abbrev pub day_of_era : ℤ → ℕ
day_of_era z = rem_euclid (z +ℤ pos 719468) 146097

abbrev pub day_of_year : ℕ → ℕ
day_of_year doe = doe - days_before_year (year_of_era doe)

abbrev pub march_month : ℕ → ℕ
march_month doy = (5 * doy + 2) / 153

abbrev pub month_day : ℕ → ℕ
month_day doy = doy - (153 * march_month doy + 2) / 5 + 1

day_of_year-le : (doe : ℕ) → doe < 146097 → day_of_year doe ≤ 365
unfolding year_of_era days_before_year
day_of_year-le doe h = omega arith

pub civil_from_days_parts :
    (z : ℤ)
    → let doe = day_of_era z in
      let doy = day_of_year doe in
      let m = month_of (march_month doy) in
      civil_from_days z ≡ (year_of (era_of z) (year_of_era doe) +ℤ pos (carry m), m, month_day doy)
unfolding civil_from_days
civil_from_days_parts z = refl

module _ (z : ℤ) where
  pub day_of_era-lt : day_of_era z < 146097
  day_of_era-lt = rem_euclid-lt (z +ℤ pos 719468) 146097 (omega arith)

  march_month_start : (doy : ℕ) → (153 * march_month doy + 2) / 5 ≤ doy
  march_month_start doy = omega arith

  pub march_month-le : march_month (day_of_year (day_of_era z)) ≤ 11
  march_month-le = omega (arith, day_of_year-le (day_of_era z) day_of_era-lt)

  day_number_lem :
      let doy = day_of_year (day_of_era z) in
      day_number (era_of z) (year_of_era (day_of_era z)) (march_month doy) (month_day doy) ≡ z
  day_number_lem = eq_of_parts _ _ (
      omega (
        arith,
        day_number_parts (era_of z) (year_of_era (day_of_era z)) _ _,
        +ℤ_parts z (pos 719468),
        div_euclid_parts (z +ℤ pos 719468) 146097,
        year_lower (day_of_era z) day_of_era-lt,
        march_month_start (day_of_year (day_of_era z)),
      ))

-- Every day number converted to a date and back gives the day number.
pub days_from_civil-civil_from_days :
    (z : ℤ) → let (y, m, d) = civil_from_days z in days_from_civil y m d ≡ z
days_from_civil-civil_from_days z = rw (civil_from_days_parts z) (
    days_from_civil-month_of (era_of z) (year_of_era (day_of_era z))
      (year_of_era-lt (day_of_era z) (day_of_era-lt z)) _ _ (march_month-le z)
    ∙ day_number_lem z)
