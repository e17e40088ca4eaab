-- ===== src/Traffic/Schedule/Starts.antt =====
-- Where the period of a month starts, relative to the days of the month.
use runman_agent.Prelude.{ℕ, ◌+◌, ◌*◌, ◌^◌, ◌≤◌, ◌<◌, ◌≡◌, ap, arith, min}
use runman_agent.Prelude.Int.{
  ℤ, pos, pos_part, neg_part, ◌+ℤ◌, ◌-ℤ◌, ◌*ℤ◌, div_euclid_parts, rem_euclid-lt, *ℤ_parts, +ℤ_parts,
  -ℤ_parts,
}
use runman_agent.Traffic.Calendar.{days_from_civil, next_month}
use runman_agent.Traffic.Calendar.Months.{days_from_civil-day}
use runman_agent.Traffic.Calendar.NextMonth.{first_of}
use runman_agent.Traffic.Calendar.MonthLength.{HasLength-month}
use runman_agent.Traffic.Schedule.{days_in_month, start_of, as_u32}

as_u32-lt : (z : ℤ) (n : ℕ) → n < 2 ^ 32 → pos_part z ≡ neg_part z + n → as_u32 z ≡ n
as_u32-lt z n h e = omega (arith, div_euclid_parts z (2 ^ 32), rem_euclid-lt z (2 ^ 32))

-- The cast to `u32` loses nothing, and the days of a month are those up to the next.
pub days_in_month-HasLength :
    (y : ℤ) (m : ℕ)
    → 1 ≤ m
    → m ≤ 12
    → (28 ≤ days_in_month y m)
      × (days_in_month y m ≤ 31)
      × (first_of (next_month y m) ≡ days_from_civil y m 1 +ℤ pos (days_in_month y m))
days_in_month-HasLength y m h k =
    let (n, low, high, e) = HasLength-month y m h k in
    let first = days_from_civil y m 1 in
    let next = first_of (next_month y m) in
    let d : days_in_month y m ≡ n =
      unfold days_in_month in
      as_u32-lt (next -ℤ first) n (omega arith) (
        omega (arith, -ℤ_parts next first, +ℤ_parts first (pos n), ap pos_part e, ap neg_part e)) in
    rw d (low, high, e)

module _ (a : ℕ × ℕ) (y : ℤ) (m : ℕ) (h : 1 ≤ m) (k : m ≤ 12) where
  pub start_of_parts :
      let d = min a.0 (days_in_month y m) in
      pos_part (start_of a y m) + (neg_part (days_from_civil y m 1) + 1) * 86400
      ≡ neg_part (start_of a y m) + (pos_part (days_from_civil y m 1) + d) * 86400 + a.1
  unfolding start_of
  start_of_parts =
      let d = min a.0 (days_in_month y m) in
      let z = days_from_civil y m d in
      omega
        (arith, +ℤ_parts (z *ℤ pos 86400) (pos a.1), *ℤ_parts z 86400, days_from_civil-day y m d)

  -- A period starts on a day of its month.
  pub first-le-start :
      1 ≤ a.0
      → (pos_part (days_from_civil y m 1) * 86400 + neg_part (start_of a y m)
          ≤ pos_part (start_of a y m) + neg_part (days_from_civil y m 1) * 86400)
  first-le-start q =
      let (low, high, e) = days_in_month-HasLength y m h k in omega (arith, start_of_parts)

  pub start-lt-next :
      a.1 < 86400
      → (pos_part (start_of a y m) + neg_part (first_of (next_month y m)) * 86400
          < pos_part (first_of (next_month y m)) * 86400 + neg_part (start_of a y m))
  start-lt-next q =
      let (low, high, e) = days_in_month-HasLength y m h k in
      omega (
        arith,
        start_of_parts,
        +ℤ_parts (days_from_civil y m 1) (pos (days_in_month y m)),
        ap pos_part e,
        ap neg_part e,
      )
