-- ===== src/Traffic/Schedule/Periods.antt =====
-- src/traffic.rs: the period that is found for a time.
use runman_agent.Prelude.{
  ℕ, ◌+◌, ◌-◌, ◌*◌, ◌≤◌, ◌<◌, ◌≡◌, refl, ap, arith, ◌==◌, if◌then◌else◌, Bool-cases, inl, inr, true,
  false,
}
use runman_agent.Prelude.Int.{
  ℤ, pos, pos_part, neg_part, ◌+ℤ◌, ◌-ℤ◌, ◌≤ℤ◌, ◌<ℤ◌, leb_ℤ, div_euclid_parts, rem_euclid-lt,
  div_euclid, int_laws, +ℤ_parts, eq_of_parts,
}
use runman_agent.Traffic.Calendar.{days_from_civil, civil_from_days, next_month}
use runman_agent.Traffic.Calendar.NextMonth.{first_of, IsDateOf, civil_from_days-IsDateOf}
use runman_agent.Traffic.Schedule.{
  Schedule, ResetMode, offset, anchor, anchor_for, start_of, period_month,
}
use runman_agent.Traffic.Schedule.Starts.{first-le-start, start-lt-next}

abbrev pub IsMonth : ℤ × ℕ → Type 0
IsMonth p = (1 ≤ p.1) × (p.1 ≤ 12)

abbrev pub previous : ℤ × ℕ → ℤ × ℕ
previous p = if p.1 == 1 then (p.0 -ℤ pos 1, 12) else (p.0, p.1 - 1)

pub previous-IsMonth : (p : ℤ × ℕ) → IsMonth p → IsMonth (previous p)
previous-IsMonth p h = ground arith

pub next_month-IsMonth : (p : ℤ × ℕ) → IsMonth p → IsMonth (next_month p.0 p.1)
unfolding next_month
next_month-IsMonth p h = ground arith

-ℤ-+ℤ : (y : ℤ) → y -ℤ pos 1 +ℤ pos 1 ≡ y
-ℤ-+ℤ y = eq_of_parts _ _ (omega int_laws)

pub next_month-previous : (p : ℤ × ℕ) → IsMonth p → next_month (previous p).0 (previous p).1 ≡ p
unfolding next_month
next_month-previous p h = ground (arith, -ℤ-+ℤ p.0)

-- The local time of a moment.
abbrev pub local_time : Schedule → ℕ → ℤ
local_time s now = pos now +ℤ offset s

anchor_for_bounds :
    (mode : ResetMode) (s : Schedule) (created : ℕ)
    → 1 ≤ s.reset_day
    → (1 ≤ (anchor_for mode s created).0) × ((anchor_for mode s created).1 < 86400)
unfolding anchor_for
anchor_for_bounds ResetMode.fixed s created h = (h, omega arith)
anchor_for_bounds ResetMode.creation s created h =
    let local = pos created +ℤ offset s in
    let date = civil_from_days-IsDateOf (div_euclid local 86400) in
    let day : 1 ≤ (civil_from_days (div_euclid local 86400)).2 = date.day_pos in
    ground (arith, day, rem_euclid-lt local 86400)

pub anchor_bounds :
    (s : Schedule) (created : ℕ)
    → 1 ≤ s.reset_day
    → (1 ≤ (anchor s created).0) × ((anchor s created).1 < 86400)
unfolding anchor
anchor_bounds s created h = anchor_for_bounds s.mode s created h

-- The time `t` lies in the period of the month `p`, for the anchor `a`.
abbrev pub InPeriod : ℕ × ℕ → ℤ × ℕ → ℤ → Type 0
InPeriod a p t =
    IsMonth p
    × (start_of a p.0 p.1 ≤ℤ t)
    × (t <ℤ start_of a (next_month p.0 p.1).0 (next_month p.0 p.1).1)

abbrev pub IsAnchor : ℕ × ℕ → Type 0
IsAnchor a = (1 ≤ a.0) × (a.1 < 86400)

module _ (a : ℕ × ℕ) (bounds : IsAnchor a) (t : ℤ) (p : ℤ × ℕ) (month : IsMonth p) where
  -- From the first of the month on, no earlier period than the one before runs.
  started_before :
      pos_part (first_of p) * 86400 + neg_part t ≤ pos_part t + neg_part (first_of p) * 86400
      → t <ℤ start_of a p.0 p.1
      → InPeriod a (previous p) t
  started_before from_first early =
      let e = next_month-previous p month in
      let q = previous-IsMonth p month in
      let ends = start-lt-next a (previous p).0 (previous p).1 q.0 q.1 bounds.1 in
      let before = rw e at ends in (q, omega arith, rw e early)

  -- Before the first of the next month, no later period runs.
  not_yet_next :
      pos_part t + neg_part (first_of (next_month p.0 p.1)) * 86400
        < pos_part (first_of (next_month p.0 p.1)) * 86400 + neg_part t
      → start_of a p.0 p.1 ≤ℤ t
      → InPeriod a p t
  not_yet_next before begun =
      let n = next_month p.0 p.1 in
      let q = next_month-IsMonth p month in
      (month, begun, omega (arith, first-le-start a n.0 n.1 q.0 q.1 bounds.0))

-- The period of the time `t`, for the anchor `a`.
abbrev pub period_at : ℕ × ℕ → ℤ → ℤ × ℕ
period_at a t =
    let (y, m, d) = civil_from_days (div_euclid t 86400) in
    if leb_ℤ (start_of a y m) t then (y, m) else previous (y, m)

pub period_month_lem :
    (s : Schedule) (created now : ℕ)
    → period_month s created now ≡ period_at (anchor s created) (local_time s now)
unfolding period_month
period_month_lem s created now = refl

leb_ℤ-true : (a b : ℤ) → leb_ℤ a b ≡ true → a ≤ℤ b
leb_ℤ-true a b h = ground arith

leb_ℤ-false : (a b : ℤ) → leb_ℤ a b ≡ false → b <ℤ a
leb_ℤ-false a b h = ground arith

period_at-InPeriod :
    (a : ℕ × ℕ)
    → IsAnchor a
    → (t : ℤ) (y : ℤ) (m d : ℕ) → IsDateOf (div_euclid t 86400) y m d
    → InPeriod a (if leb_ℤ (start_of a y m) t then (y, m) else previous (y, m)) t
period_at-InPeriod a bounds t y m d date = elim (Bool-cases (leb_ℤ (start_of a y m) t)) [
  | inl begun ↦ rw begun (
      not_yet_next a bounds t (y, m) (date.month_pos, date.month_le)
        (omega (arith, div_euclid_parts t 86400, rem_euclid-lt t 86400, date.before_next))
        (leb_ℤ-true (start_of a y m) t begun))
  | inr early ↦ rw early (
      started_before a bounds t (y, m) (date.month_pos, date.month_le)
        (omega (
          arith,
          div_euclid_parts t 86400,
          ap pos_part date.day_in_month,
          ap neg_part date.day_in_month,
          +ℤ_parts (days_from_civil y m 1) (pos d),
          +ℤ_parts (div_euclid t 86400) (pos 1),
        ))
        (leb_ℤ-false (start_of a y m) t early))
]

-- If the day of the schedule is at least 1, the period that is found for a moment has begun by its
-- local time, and the period of the month after has not.
pub period_month-InPeriod :
    (s : Schedule) (created now : ℕ)
    → 1 ≤ s.reset_day
    → InPeriod (anchor s created) (period_month s created now) (local_time s now)
period_month-InPeriod s created now h =
    let t = local_time s now in
    let date = civil_from_days-IsDateOf (div_euclid t 86400) in
    rw (period_month_lem s created now)
      (period_at-InPeriod (anchor s created) (anchor_bounds s created h) t _ _ _ date)
