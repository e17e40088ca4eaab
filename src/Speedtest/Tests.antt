-- ===== src/Speedtest/Tests.antt =====
-- Tests of the model of src/speedtest.rs.
use runman_agent.Prelude.{◌≡◌, refl, arith}
use runman_agent.Prelude.Effect.{ok}
use runman_agent.Speedtest.{effective, allowed, check_correction, check_correction-effective}

capped : effective 100 500 ≡ 200
unfolding effective
capped = refl

check_correction-effective_example :
    (effective 100 500 ≡ allowed (check_correction 100 500) 500)
    × (check_correction 100 (effective 100 500) ≡ ok tt)
check_correction-effective_example = check_correction-effective 100 500 (omega arith)
