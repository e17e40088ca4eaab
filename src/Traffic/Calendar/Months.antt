-- ===== src/Traffic/Calendar/Months.antt =====
-- The day number of a date that is given by its era, year of the era and month from March.
use runman_agent.Prelude.{
  ℕ, ◌+◌, ◌-◌, ◌*◌, ◌/◌, ◌≤◌, ◌<◌, ◌≡◌, arith, ltb, leb, if◌then◌else◌, Bool-cases, inl, inr,
}
use runman_agent.Prelude.Int.{
  ℤ, pos, pos_part, neg_part, ◌+ℤ◌, ◌-ℤ◌, ◌*ℤ◌, div_euclid, rem_euclid, div_euclid_parts,
  rem_euclid-lt, int_laws, *ℤ_parts, +ℤ_parts, eq_of_parts,
}
use runman_agent.Traffic.Calendar.{days_before_year, days_from_civil}

-- The calendar month of the month `mp` that is counted from March.
abbrev pub month_of : ℕ → ℕ
month_of mp = if ltb mp 10 then mp + 3 else mp - 9

-- January and February belong to the next calendar year.
abbrev pub carry : ℕ → ℕ
carry m = if leb m 2 then 1 else 0

abbrev pub year_of : ℤ → ℕ → ℤ
year_of era yoe = pos yoe +ℤ era *ℤ pos 400

abbrev pub day_number : ℤ → ℕ → ℕ → ℕ → ℤ
day_number era yoe mp d =
    era *ℤ pos 146097
    +ℤ (pos (days_before_year yoe) +ℤ (pos ((153 * mp + 2) / 5 + d) -ℤ pos 1))
    -ℤ pos 719468

day_sum_parts :
    (a : ℤ) (b c : ℕ)
    → pos_part (a +ℤ (pos b +ℤ (pos c -ℤ pos 1)) -ℤ pos 719468) + neg_part a + 719469
      ≡ neg_part (a +ℤ (pos b +ℤ (pos c -ℤ pos 1)) -ℤ pos 719468) + pos_part a + b + c
day_sum_parts a b c = omega int_laws

-- Within a month the day numbers count up.
pub days_from_civil-day :
    (y : ℤ) (m d : ℕ)
    → pos_part (days_from_civil y m d) + neg_part (days_from_civil y m 1) + 1
      ≡ neg_part (days_from_civil y m d) + pos_part (days_from_civil y m 1) + d
unfolding days_from_civil
days_from_civil-day y m d =
    let y' = if leb m 2 then y -ℤ pos 1 else y in
    let a = div_euclid y' 400 *ℤ pos 146097 in
    let b = days_before_year (rem_euclid y' 400) in
    let c = (153 * (if ltb 2 m then m - 3 else m + 9) + 2) / 5 in
    omega (arith, day_sum_parts a b (c + d), day_sum_parts a b (c + 1))

pub day_number_parts :
    (era : ℤ) (yoe mp d : ℕ)
    → pos_part (day_number era yoe mp d) + neg_part era * 146097 + 719469
      ≡ neg_part (day_number era yoe mp d)
        + pos_part era * 146097
        + days_before_year yoe
        + (153 * mp + 2) / 5
        + d
day_number_parts era yoe mp d = omega (
  arith,
  day_sum_parts (era *ℤ pos 146097) (days_before_year yoe) ((153 * mp + 2) / 5 + d),
  *ℤ_parts era 146097,
)

module _ (era : ℤ) (yoe : ℕ) (h : yoe < 400) where
  rem_year_of : rem_euclid (year_of era yoe) 400 ≡ yoe
  rem_year_of = omega (
    arith,
    div_euclid_parts (year_of era yoe) 400,
    rem_euclid-lt (year_of era yoe) 400,
    +ℤ_parts (pos yoe) (era *ℤ pos 400),
    *ℤ_parts era 400,
  )

  div_year_of : div_euclid (year_of era yoe) 400 ≡ era
  div_year_of = eq_of_parts _ _ (
      omega (
        arith,
        div_euclid_parts (year_of era yoe) 400,
        rem_year_of,
        +ℤ_parts (pos yoe) (era *ℤ pos 400),
        *ℤ_parts era 400,
      ))

  year_before_carry :
      (m : ℕ)
      → (if leb m 2
          then (year_of era yoe +ℤ pos (carry m)) -ℤ pos 1
          else year_of era yoe +ℤ pos (carry m))
        ≡ year_of era yoe
  year_before_carry m = elim (Bool-cases (leb m 2)) [
    | inl early ↦ rw early (omega int_laws)
    | inr late ↦ rw late (omega int_laws)
  ]

  month_from_march :
      (mp : ℕ) → mp ≤ 11 → (if ltb 2 (month_of mp) then month_of mp - 3 else month_of mp + 9) ≡ mp
  month_from_march mp k = ground arith

  pub days_from_civil-month_of :
      (mp d : ℕ)
      → mp ≤ 11
      → days_from_civil (year_of era yoe +ℤ pos (carry (month_of mp))) (month_of mp) d
        ≡ day_number era yoe mp d
  unfolding days_from_civil
  days_from_civil-month_of mp d k =
      rw (year_before_carry (month_of mp), month_from_march mp k, rem_year_of, div_year_of)
