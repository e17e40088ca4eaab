-- ===== src/Traffic/Tests.antt =====
-- Tests of the traffic component, and its theorems at concrete inputs. The dates are those of the
-- tests in src/traffic.rs.
use runman_agent.Prelude.{ℕ, ◌≡◌, refl, [], ◌∷◌, arith}
use runman_agent.Prelude.Int.{pos, ◌+ℤ◌, ◌-ℤ◌, ◌*ℤ◌, div_euclid, rem_euclid}
use runman_agent.Traffic.Calendar.{civil_from_days, days_from_civil, next_month}
use runman_agent.Traffic.Calendar.RoundTrip.{days_from_civil-civil_from_days}
use runman_agent.Traffic.Schedule.{creation, fixed, Schedule, period_month, next_reset}
use runman_agent.Traffic.Schedule.Reset.{period_month-until_reset, period_month-next_reset}
use runman_agent.Traffic.Counters.{Traffic, default}
use runman_agent.Traffic.Counters.Totals.{Sample, Grown, feed, feed-Grown}

-- The day 20751 is 2026-10-25.
civil_from_days_test : civil_from_days (pos 20751) ≡ (pos 2026, 10, 25)
unfolding civil_from_days ◌+ℤ◌ ◌-ℤ◌ ◌*ℤ◌ div_euclid rem_euclid
civil_from_days_test = refl

days_from_civil_test : days_from_civil (pos 2026) 10 25 ≡ pos 20751
unfolding days_from_civil ◌+ℤ◌ ◌-ℤ◌ ◌*ℤ◌ div_euclid rem_euclid
days_from_civil_test = refl

days_from_civil-civil_from_days_example : days_from_civil (pos 2026) 10 25 ≡ pos 20751
unfolding civil_from_days ◌+ℤ◌ ◌-ℤ◌ ◌*ℤ◌ div_euclid rem_euclid
days_from_civil-civil_from_days_example = days_from_civil-civil_from_days (pos 20751)

-- Created 2026-10-15 09:30 UTC: periods run from the 15th, 09:30.
abbrev anniversary : Schedule
anniversary = record { mode = creation; reset_day = 1; utc_offset_min = pos 0 }

abbrev created_at : ℕ
created_at = 1792056600

next_reset_test : next_reset anniversary created_at created_at ≡ 1794735000
unfolding next_reset civil_from_days days_from_civil next_month ◌+ℤ◌ ◌-ℤ◌ ◌*ℤ◌ div_euclid rem_euclid
next_reset_test = refl

period_month_test : period_month anniversary created_at 1794734999 ≡ (pos 2026, 10)
unfolding period_month civil_from_days days_from_civil next_month ◌+ℤ◌ ◌-ℤ◌ ◌*ℤ◌ div_euclid
    rem_euclid
period_month_test = refl

-- UTC+8: 2026-10-31 20:00 UTC is already November.
abbrev beijing : Schedule
beijing = record { mode = fixed; reset_day = 1; utc_offset_min = pos 480 }

period_month-beijing : period_month beijing 0 1793476800 ≡ (pos 2026, 11)
unfolding period_month civil_from_days days_from_civil next_month ◌+ℤ◌ ◌-ℤ◌ ◌*ℤ◌ div_euclid
    rem_euclid
period_month-beijing = refl

period_month-until_reset_example :
    period_month anniversary created_at 1794734999 ≡ period_month anniversary created_at created_at
period_month-until_reset_example =
    period_month-until_reset anniversary created_at created_at (omega arith) 1794734999
      (omega arith)
      (unfold next_reset civil_from_days days_from_civil next_month ◌+ℤ◌ ◌-ℤ◌ ◌*ℤ◌ div_euclid
          rem_euclid in
        omega arith)

period_month-next_reset_example :
    period_month anniversary created_at (next_reset anniversary created_at created_at)
    ≡ next_month
        (period_month anniversary created_at created_at).0
        (period_month anniversary created_at created_at).1
period_month-next_reset_example =
    period_month-next_reset anniversary created_at created_at (omega arith)

-- The instance was rebooted: the counters of the new interface already exceed the old.
abbrev before_reboot : Traffic
before_reboot = record default {
  total_out = 150;
  total_in = 1300;
  month_out = 150;
  month_in = 1300;
  period = "2026-10";
  last_ifindex = 7;
  last_rx = 150;
  last_tx = 1300;
}

abbrev after_reboot : ℕ → ℕ → Sample
after_reboot r t = record { rx = r; tx = t }

feed-Grown_example :
    Grown "2026-10" 600 2100 before_reboot
      (feed 9 "2026-10" (after_reboot 500 2000 ∷ after_reboot 600 2100 ∷ []) before_reboot)
feed-Grown_example =
    feed-Grown 9 "2026-10" (after_reboot 500 2000 ∷ after_reboot 600 2100 ∷ []) before_reboot
      (omega arith) (omega arith)
