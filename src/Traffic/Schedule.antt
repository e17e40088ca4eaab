-- ===== src/Traffic/Schedule.antt =====
-- src/traffic.rs, when monthly counters restart: `ResetMode`, `Schedule` and its methods. Times are
-- seconds since 1970; `i64` is read as an integer, which the values below 2^62 never leave.
use runman_agent.Prelude.{ℕ, ◌+◌, ◌-◌, ◌*◌, ◌^◌, min, ltb, ◌==◌, if◌then◌else◌}
use runman_agent.Prelude.Int.{ℤ, pos, pos_part, ◌+ℤ◌, ◌-ℤ◌, ◌*ℤ◌, leb_ℤ, div_euclid, rem_euclid}
use runman_agent.Traffic.Calendar.{civil_from_days, days_from_civil, next_month}
pub mod Starts
pub mod Periods
pub mod Order
pub mod Reset

pub data ResetMode : Type 0 where
  fixed creation : ResetMode

pub record Schedule : Type 0 where
  pub mode : ResetMode
  pub reset_day : ℕ
  pub utc_offset_min : ℤ

unfoldable pub offset : Schedule → ℤ
offset s = s.utc_offset_min *ℤ pos 60

-- `x as u32` of an i64.
abbrev pub as_u32 : ℤ → ℕ
as_u32 z = rem_euclid z (2 ^ 32)

unfoldable pub anchor_for : ResetMode → Schedule → ℕ → ℕ × ℕ
unfolding offset
anchor_for ResetMode.fixed s created = (s.reset_day, 0)
anchor_for ResetMode.creation s created =
    if ltb 0 created
    then (let local = pos created +ℤ offset s in
        ((civil_from_days (div_euclid local 86400)).2, rem_euclid local 86400))
    else (s.reset_day, 0)

-- Day of month and second of day on which periods start.
unfoldable pub anchor : Schedule → ℕ → ℕ × ℕ
unfolding anchor_for
anchor s created = anchor_for s.mode s created

unfoldable pub days_in_month : ℤ → ℕ → ℕ
days_in_month y m =
    let (ny, nm) = next_month y m in as_u32 (days_from_civil ny nm 1 -ℤ days_from_civil y m 1)

-- Local time at which the period of the month (y, m) starts.
unfoldable pub start_of : ℕ × ℕ → ℤ → ℕ → ℤ
unfolding days_in_month
start_of (day, tod) y m = days_from_civil y m (min day (days_in_month y m)) *ℤ pos 86400 +ℤ pos tod

unfoldable pub period_month : Schedule → ℕ → ℕ → ℤ × ℕ
unfolding anchor start_of offset
period_month s created now =
    let local = pos now +ℤ offset s in
    let (y, m, d) = civil_from_days (div_euclid local 86400) in
    if leb_ℤ (start_of (anchor s created) y m) local
    then (y, m)
    else if m == 1
    then (y -ℤ pos 1, 12)
    else (y, m - 1)

-- Unix time at which that period ends; `as u64` after `max(0)`.
unfoldable pub next_reset : Schedule → ℕ → ℕ → ℕ
unfolding period_month start_of anchor offset
next_reset s created now =
    let (y, m) = period_month s created now in
    let (ny, nm) = next_month y m in pos_part (start_of (anchor s created) ny nm -ℤ offset s)
