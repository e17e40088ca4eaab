-- ===== src/Traffic/Calendar/MonthLength.antt =====
-- src/traffic.rs: the lengths of the months.
use runman_agent.Prelude.{ℕ, ◌+◌, ◌-◌, ◌*◌, ◌/◌, ◌≤◌, ◌<◌, ◌≡◌, subst, arith, ltb, if◌then◌else◌}
use runman_agent.Prelude.Int.{
  ℤ, pos, ◌+ℤ◌, ◌-ℤ◌, ◌*ℤ◌, div_euclid_parts, div_euclid, rem_euclid, rem_euclid-lt, *ℤ_parts,
  +ℤ_parts, -ℤ_parts, eq_of_parts,
}
use runman_agent.Traffic.Calendar.{days_before_year, days_from_civil, next_month}
use runman_agent.Traffic.Calendar.Months.{
  month_of, carry, year_of, day_number, days_from_civil-month_of, day_number_parts,
}
use runman_agent.Traffic.Calendar.NextMonth.{first_of, next_offset, first_of_next}

next_offset_bounds :
    (yoe mp : ℕ)
    → yoe < 400
    → mp ≤ 11
    → (days_before_year yoe + (153 * mp + 2) / 5 + 28 ≤ next_offset yoe mp)
      × (next_offset yoe mp ≤ days_before_year yoe + (153 * mp + 2) / 5 + 31)
unfolding days_before_year
next_offset_bounds yoe mp h k = (ground arith, ground arith)

-- The first of the next month is 28 to 31 days after the first of a month.
abbrev pub HasLength : ℤ → ℕ → Type 0
HasLength y m =
    (n : ℕ) × (28 ≤ n) × (n ≤ 31) × (first_of (next_month y m) ≡ days_from_civil y m 1 +ℤ pos n)

HasLength-month_of :
    (era : ℤ) (yoe mp : ℕ)
    → yoe < 400
    → mp ≤ 11
    → HasLength (year_of era yoe +ℤ pos (carry (month_of mp))) (month_of mp)
HasLength-month_of era yoe mp h k =
    let bounds = next_offset_bounds yoe mp h k in
    let n = next_offset yoe mp - (days_before_year yoe + (153 * mp + 2) / 5) in
    (
      n,
      omega arith,
      omega arith,
      rw (days_from_civil-month_of era yoe h mp 1 k) (
          eq_of_parts _ _ (
            omega (
              arith,
              first_of_next era yoe mp h k,
              day_number_parts era yoe mp 1,
              +ℤ_parts (day_number era yoe mp 1) (pos n),
            ))),
    )

-- The month from March of a calendar month.
abbrev from_march : ℕ → ℕ
from_march m = if ltb 2 m then m - 3 else m + 9

pub HasLength-month : (y : ℤ) (m : ℕ) → 1 ≤ m → m ≤ 12 → HasLength y m
HasLength-month y m h k =
    let y' = y -ℤ pos (carry m) in
    let era = div_euclid y' 400 in
    let yoe = rem_euclid y' 400 in
    let e : month_of (from_march m) ≡ m = ground arith in
    let same_year : year_of era yoe +ℤ pos (carry m) ≡ y = eq_of_parts _ _ (
      omega (
        arith,
        +ℤ_parts (year_of era yoe) (pos (carry m)),
        +ℤ_parts (pos yoe) (era *ℤ pos 400),
        *ℤ_parts era 400,
        -ℤ_parts y (pos (carry m)),
        div_euclid_parts y' 400,
      )) in
    subst (λ (x : ℤ). HasLength x m) same_year
      (subst (λ (x : ℕ). HasLength (year_of era yoe +ℤ pos (carry x)) x) e
        (HasLength-month_of era yoe (from_march m) (rem_euclid-lt y' 400 (omega arith))
          (ground arith)))
