-- ===== src/Diagnostics/Tests/Verdicts.antt =====
-- The verdicts at concrete observations.
use xray_checker_modify.Base.{true, false, some, ◌≡◌, ◌⊎◌, refl, codes, pos}
use xray_checker_modify.Diagnostics.Types.{Observation}
use xray_checker_modify.Diagnostics.Verdict.{
  Verdict, SpeedOutcome, SpeedEvidence, max_rate, judge_speed, alternative_online, status_online,
}
use xray_checker_modify.Diagnostics.Verdict.Reproduced.{SlowToo, judge_speed-reproduced}
use xray_checker_modify.Diagnostics.Tests.{answer}

abbrev slow_run : SpeedEvidence
slow_run = record {
  outcome = SpeedOutcome.low_speed;
  threshold_mbps = pos 20000000;
  observed_mbps = pos 4500000;
  server_id = codes "ovh-proof";
}

abbrev slow_answer : Observation
slow_answer = record answer {
  speed_server_id = codes "ovh-proof";
  throughput = some (record {
    bytes = pos 9000000;
    duration_millis = pos 8000;
    mbps = pos 9;
    ttfb_millis = pos 80;
  });
}

is_reproduced : (judge_speed slow_run slow_answer true).0 ≡ Verdict.reproduced
unfolding judge_speed max_rate
is_reproduced = refl

judge_speed-reproduced_example :
    (true ≡ true)
    × (alternative_online slow_answer.alternative_endpoint ≡ false)
    × ((status_online slow_answer.status ≡ false) ⊎ SlowToo slow_run slow_answer)
judge_speed-reproduced_example = judge_speed-reproduced slow_run slow_answer true is_reproduced
