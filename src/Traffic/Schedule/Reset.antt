-- ===== src/Traffic/Schedule/Reset.antt =====
-- When the counters of an instance restart next.
use runman_agent.Prelude.{ℕ, ◌+◌, ◌*◌, ◌≤◌, ◌<◌, ◌≡◌, ap, arith}
use runman_agent.Prelude.Int.{ℤ, pos, pos_part, neg_part, +ℤ_parts, pos_part-sub_add}
use runman_agent.Traffic.Calendar.{next_month, days_from_civil}
use runman_agent.Traffic.Schedule.{
  Schedule, anchor, start_of, period_month, next_reset, offset, days_in_month,
}
use runman_agent.Traffic.Schedule.Starts.{start_of_parts, days_in_month-HasLength}
use runman_agent.Traffic.Schedule.Periods.{
  IsMonth, local_time, next_month-IsMonth, anchor_bounds, period_month-InPeriod,
}
use runman_agent.Traffic.Schedule.Order.{start-lt-start, InPeriod-unique}

module _ (s : Schedule) (created now : ℕ) (day : 1 ≤ s.reset_day) where
  abbrev next_period : ℤ × ℕ
  next_period = let p = period_month s created now in next_month p.0 p.1

  -- The cast to `u64` loses nothing: the period ends after 1970.
  pub local_time-next_reset :
      local_time s (next_reset s created now)
      ≡ start_of (anchor s created) next_period.0 next_period.1
  unfolding next_reset
  local_time-next_reset =
      let here = period_month-InPeriod s created now day in
      pos_part-sub_add (start_of (anchor s created) next_period.0 next_period.1) (offset s)
        (omega (arith, +ℤ_parts (pos now) (offset s)))

  -- If the day of the schedule is at least 1, the next reset is after the present.
  pub lt-next_reset : now < next_reset s created now
  lt-next_reset =
      let here = period_month-InPeriod s created now day in
      omega (
        arith,
        +ℤ_parts (pos now) (offset s),
        +ℤ_parts (pos (next_reset s created now)) (offset s),
        ap pos_part local_time-next_reset,
        ap neg_part local_time-next_reset,
      )

  -- If the day of the schedule is at least 1, the period of any moment from the present on and before
  -- the next reset is the present one.
  pub period_month-until_reset :
      (t : ℕ)
      → now ≤ t
      → t < next_reset s created now
      → period_month s created t ≡ period_month s created now
  period_month-until_reset t h k =
      let here = period_month-InPeriod s created now day in
      let shift = +ℤ_parts (pos t) (offset s) in
      InPeriod-unique (anchor s created) (anchor_bounds s created day) (local_time s t) _ _
        (period_month-InPeriod s created t day)
        (
          here.0,
          omega (arith, +ℤ_parts (pos now) (offset s)),
          omega (
            arith,
            +ℤ_parts (pos (next_reset s created now)) (offset s),
            ap pos_part local_time-next_reset,
            ap neg_part local_time-next_reset,
          ),
        )

  -- If the day of the schedule is at least 1, the period at the next reset is that of the month after
  -- the present period's.
  pub period_month-next_reset : period_month s created (next_reset s created now) ≡ next_period
  period_month-next_reset =
      let bounds = anchor_bounds s created day in
      let here = period_month-InPeriod s created now day in
      let after = next_month-IsMonth (period_month s created now) here.0 in
      let e = local_time-next_reset in
      InPeriod-unique (anchor s created) bounds (local_time s (next_reset s created now)) _ _
        (period_month-InPeriod s created (next_reset s created now) day)
        (
          after,
          rw e (omega arith),
          rw e (start-lt-start (anchor s created) bounds next_period after),
        )

  start_gap :
      (a : ℕ × ℕ)
      → (p : ℤ × ℕ) → IsMonth p
      → let n = next_month p.0 p.1 in
        pos_part (start_of a n.0 n.1) + neg_part (start_of a p.0 p.1)
        ≤ neg_part (start_of a n.0 n.1) + pos_part (start_of a p.0 p.1) + 31 * 86400
  start_gap a p h =
      let n = next_month p.0 p.1 in
      let k = next_month-IsMonth p h in
      let (low, high, e) = days_in_month-HasLength p.0 p.1 h.0 h.1 in
      let (low', high', _) = days_in_month-HasLength n.0 n.1 k.0 k.1 in
      omega (
        arith,
        start_of_parts a p.0 p.1 h.0 h.1,
        start_of_parts a n.0 n.1 k.0 k.1,
        +ℤ_parts (days_from_civil p.0 p.1 1) (pos (days_in_month p.0 p.1)),
        ap pos_part e,
        ap neg_part e,
      )

  -- If the day of the schedule is at least 1, the next reset is at most 31 days after the present.
  pub next_reset-le : next_reset s created now ≤ now + 31 * 86400
  next_reset-le =
      let here = period_month-InPeriod s created now day in
      omega (
        arith,
        +ℤ_parts (pos now) (offset s),
        +ℤ_parts (pos (next_reset s created now)) (offset s),
        ap pos_part local_time-next_reset,
        ap neg_part local_time-next_reset,
        start_gap (anchor s created) (period_month s created now) here.0,
      )
