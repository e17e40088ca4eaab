-- ===== src/Speedtest.antt =====
-- src/speedtest.rs: the bandwidth that is reported, a measurement or the owner's correction of it.
use runman_agent.Prelude.{
  ℕ, ◌*◌, ◌^◌, ◌-◌, ◌≤◌, ◌<◌, ◌≡◌, min, Bool, true, false, ◌&&◌, ltb, ◌==◌, arith, if◌then◌else◌,
}
use runman_agent.Prelude.Effect.{Result, ok, err}
mod Tests

pub record Measurement : Type 0 where
  pub down_mbps : ℕ
  pub up_mbps : ℕ
  pub at : ℕ

unfoldable pub mbps : Measurement → ℕ
mbps m = min m.down_mbps m.up_mbps

abbrev pub u32_max : ℕ
u32_max = 2 ^ 32 - 1

-- `measured.saturating_mul(MAX_CORRECTION)`
abbrev pub max_correction : ℕ → ℕ
max_correction measured = min (measured * 2) u32_max

unfoldable pub effective : ℕ → ℕ → ℕ
effective measured configured =
    if configured == 0
    then measured
    else if measured == 0
    then configured
    else min configured (max_correction measured)

-- The error holds the highest bandwidth.
unfoldable pub check_correction : ℕ → ℕ → Result ℕ Unit
check_correction measured configured =
    if ltb 0 measured && ltb (max_correction measured) configured
    then err (max_correction measured)
    else ok tt

-- The bandwidth that the answer to a correction leaves: the correction, or the highest that is accepted.
abbrev pub allowed : Result ℕ Unit → ℕ → ℕ
allowed (ok u) configured = configured
allowed (err most) configured = most

-- For a correction other than 0, what is reported is the correction if it is accepted, and the highest
-- bandwidth of the error if it is refused; and what is reported would be accepted.
pub check_correction-effective :
    (measured configured : ℕ)
    → 1 ≤ configured
    → (effective measured configured ≡ allowed (check_correction measured configured) configured)
      × (check_correction measured (effective measured configured) ≡ ok tt)
unfolding check_correction effective
check_correction-effective measured configured h = (ground arith, ground arith)
