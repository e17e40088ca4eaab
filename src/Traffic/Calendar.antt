-- ===== src/Traffic/Calendar.antt =====
-- src/traffic.rs, the proleptic Gregorian calendar. A date is (year, month, day); the quantities
-- that are never negative (month, day, day of era) are natural numbers, the others integers.
use runman_agent.Prelude.{ℕ, ◌+◌, ◌-◌, ◌*◌, ◌/◌, ◌%◌, Bool, leb, ltb, ◌==◌, if◌then◌else◌}
use runman_agent.Prelude.Int.{ℤ, pos, negsuc, ◌+ℤ◌, ◌-ℤ◌, ◌*ℤ◌, div_euclid, rem_euclid}
pub mod Years
pub mod Months
pub mod RoundTrip
pub mod NextMonth
pub mod MonthLength

-- (year, month) after (y, m).
unfoldable pub next_month : ℤ → ℕ → ℤ × ℕ
next_month y m = if m == 12 then (y +ℤ pos 1, 1) else (y, m + 1)

-- The year of the era, from the day of the era.
unfoldable pub year_of_era : ℕ → ℕ
year_of_era doe = (doe - doe / 1460 + doe / 36524 - doe / 146096) / 365

-- Days of the era before its year `yoe` begins (on 1 March).
unfoldable pub days_before_year : ℕ → ℕ
days_before_year yoe = 365 * yoe + yoe / 4 - yoe / 100

unfoldable pub civil_from_days : ℤ → ℤ × ℕ × ℕ
unfolding year_of_era days_before_year
civil_from_days z0 =
    let z = z0 +ℤ pos 719468 in
    let era = div_euclid z 146097 in
    let doe = rem_euclid z 146097 in
    let yoe = year_of_era doe in
    let doy = doe - days_before_year yoe in
    let mp = (5 * doy + 2) / 153 in
    let d = doy - (153 * mp + 2) / 5 + 1 in
    let m = if ltb mp 10 then mp + 3 else mp - 9 in
    let y = pos yoe +ℤ era *ℤ pos 400 +ℤ pos (if leb m 2 then 1 else 0) in (y, m, d)

unfoldable pub days_from_civil : ℤ → ℕ → ℕ → ℤ
unfolding days_before_year
days_from_civil y0 m d =
    let y = if leb m 2 then y0 -ℤ pos 1 else y0 in
    let era = div_euclid y 400 in
    let yoe = rem_euclid y 400 in
    let mp = if ltb 2 m then m - 3 else m + 9 in
    let doy = pos ((153 * mp + 2) / 5 + d) -ℤ pos 1 in
    let doe = pos (days_before_year yoe) +ℤ doy in era *ℤ pos 146097 +ℤ doe -ℤ pos 719468
