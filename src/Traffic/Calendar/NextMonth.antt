-- ===== src/Traffic/Calendar/NextMonth.antt =====
-- src/traffic.rs: the date of a day, and the month that it lies in.
use runman_agent.Prelude.{
  ℕ, ◌+◌, ◌-◌, ◌*◌, ◌/◌, ◌≤◌, ◌<◌, ◌≡◌, refl, ap, arith, ltb, if◌then◌else◌, dec_lt,
}
use runman_agent.Prelude.Int.{
  ℤ, pos, pos_part, neg_part, ◌+ℤ◌, ◌<ℤ◌, div_euclid_parts, int_laws, *ℤ_parts, +ℤ_parts,
  eq_of_parts,
}
use runman_agent.Traffic.Calendar.{
  year_of_era, days_before_year, days_from_civil, civil_from_days, next_month,
}
use runman_agent.Traffic.Calendar.Months.{
  month_of, carry, year_of, day_number, days_from_civil-month_of, day_number_parts,
}
use runman_agent.Traffic.Calendar.Years.{year_of_era-lt, year_lower, year_upper}
use runman_agent.Traffic.Calendar.RoundTrip.{
  era_of, day_of_era, day_of_year, march_month, civil_from_days_parts, day_of_era-lt,
  march_month-le,
}

-- Days of the era before the month that follows `mp`.
abbrev pub next_offset : ℕ → ℕ → ℕ
next_offset yoe mp =
    if ltb mp 11
    then days_before_year yoe + (153 * (mp + 1) + 2) / 5
    else days_before_year (yoe + 1) + (yoe + 1) / 400

abbrev pub first_of : ℤ × ℕ → ℤ
first_of p = days_from_civil p.0 p.1 1

+ℤ-zero : (a : ℤ) → a +ℤ pos 0 ≡ a
+ℤ-zero a = eq_of_parts _ _ (omega int_laws)

offset_in_year :
    (yoe mp : ℕ) → mp < 11 → next_offset yoe mp ≡ days_before_year yoe + (153 * (mp + 1) + 2) / 5
offset_in_year yoe mp h = ground arith

module _ (era : ℤ) (yoe : ℕ) where
  next_in_year :
      (mp : ℕ)
      → mp < 11
      → next_month (year_of era yoe +ℤ pos (carry (month_of mp))) (month_of mp)
        ≡ (year_of era yoe +ℤ pos (carry (month_of (mp + 1))), month_of (mp + 1))
  unfolding next_month
  next_in_year mp h = ground (arith, +ℤ-zero (year_of era yoe))

  next_of_february : next_month (year_of era yoe +ℤ pos 1) 2 ≡ (year_of era (yoe + 1) +ℤ pos 0, 3)
  unfolding next_month
  next_of_february = ap (λ (y : ℤ). (y, 3)) (eq_of_parts _ _ (omega int_laws))

-- The year 400 of an era is the year 0 of the next.
next_era : (era : ℤ) → year_of era 400 +ℤ pos 0 ≡ year_of (era +ℤ pos 1) 0 +ℤ pos 0
next_era era = eq_of_parts _ _ (omega (int_laws, *ℤ_parts era 400, *ℤ_parts (era +ℤ pos 1) 400))

abbrev pub StartsAt : ℤ → ℤ → ℕ → Type 0
StartsAt z era n =
    pos_part z + neg_part era * 146097 + 719468 ≡ neg_part z + pos_part era * 146097 + n

first_of_march :
    (era : ℤ) (yoe : ℕ)
    → yoe ≤ 400
    → StartsAt
        (days_from_civil (year_of era yoe +ℤ pos 0) 3 1)
        era
        (days_before_year yoe + yoe / 400)
first_of_march era yoe h = elim (dec_lt yoe 400) [
  | yes below ↦
      rw (days_from_civil-month_of era yoe below 0 1 (omega arith))
        (omega (arith, day_number_parts era yoe 0 1))
  | no above ↦
      let e : yoe ≡ 400 = omega arith in
      rw e (
        rw (next_era era, days_from_civil-month_of (era +ℤ pos 1) 0 (omega arith) 0 1 (omega arith))
          (unfold days_before_year in
            omega (arith, day_number_parts (era +ℤ pos 1) 0 0 1, +ℤ_parts era (pos 1))))
]

pub first_of_next :
    (era : ℤ) (yoe mp : ℕ)
    → yoe < 400
    → mp ≤ 11
    → StartsAt
        (first_of (next_month (year_of era yoe +ℤ pos (carry (month_of mp))) (month_of mp)))
        era
        (next_offset yoe mp)
first_of_next era yoe mp h k = elim (dec_lt mp 11) [
  | yes below ↦
      rw
        (
          next_in_year era yoe mp below,
          days_from_civil-month_of era yoe h (mp + 1) 1 (omega arith),
          offset_in_year yoe mp below,
        )
        (omega (arith, day_number_parts era yoe (mp + 1) 1))
  | no above ↦
      let e : mp ≡ 11 = omega arith in
      rw e (rw (next_of_february era yoe) (first_of_march era (yoe + 1) (omega arith)))
]

-- What is known of the date (y, m, d) of the day `z`.
pub record IsDateOf (z : ℤ) (y : ℤ) (m d : ℕ) : Type 0 where
  pub month_pos : 1 ≤ m
  pub month_le : m ≤ 12
  pub day_pos : 1 ≤ d
  pub day_in_month : days_from_civil y m 1 +ℤ pos d ≡ z +ℤ pos 1
  pub before_next : z <ℤ first_of (next_month y m)

month_of_range : (mp : ℕ) → mp ≤ 11 → (1 ≤ month_of mp) × (month_of mp ≤ 12)
month_of_range mp h = ground arith

module _ (z era : ℤ) (doe yoe mp : ℕ) (h : yoe < 400) (k : mp ≤ 11) (at_day : StartsAt z era doe)
    (begun : days_before_year yoe + (153 * mp + 2) / 5 ≤ doe)
    (in_month : doe < next_offset yoe mp) where
  IsDateOf-month_of :
      IsDateOf z
        (year_of era yoe +ℤ pos (carry (month_of mp)))
        (month_of mp)
        (doe - days_before_year yoe - (153 * mp + 2) / 5 + 1)
  IsDateOf-month_of = record {
    month_pos = (month_of_range mp k).0;
    month_le = (month_of_range mp k).1;
    day_pos = omega arith;
    day_in_month = rw (days_from_civil-month_of era yoe h mp 1 k) (
        eq_of_parts _ _ (
          omega (
            arith,
            day_number_parts era yoe mp 1,
            +ℤ_parts (day_number era yoe mp 1)
                (pos (doe - days_before_year yoe - (153 * mp + 2) / 5 + 1)),
            +ℤ_parts z (pos 1),
          )));
    before_next = omega (arith, first_of_next era yoe mp h k);
  }

module _ (doe : ℕ) (h : doe < 146097) where
  day_lt_next_offset :
      (mp : ℕ) → march_month (day_of_year doe) ≡ mp → doe < next_offset (year_of_era doe) mp
  day_lt_next_offset mp e = elim (dec_lt mp 11) [
    | yes below ↦ rw (offset_in_year (year_of_era doe) mp below) (omega (arith, year_lower doe h))
    | no above ↦ ground (arith, year_upper doe h)
  ]

-- A day lies in the month of its date, and the date counts its days from the first of the month.
pub civil_from_days-IsDateOf : (z : ℤ) → let (y, m, d) = civil_from_days z in IsDateOf z y m d
civil_from_days-IsDateOf z =
    let doe = day_of_era z in
    let below = day_of_era-lt z in
    rw (civil_from_days_parts z) (
      IsDateOf-month_of z (era_of z) doe (year_of_era doe) (march_month (day_of_year doe))
        (year_of_era-lt doe below) (march_month-le z)
        (omega (arith, div_euclid_parts (z +ℤ pos 719468) 146097, +ℤ_parts z (pos 719468)))
        (omega (arith, year_lower doe below)) (day_lt_next_offset doe below _ refl))
