-- ===== src/Diagnostics/Verdict/Reproduced.antt =====
-- diagnostics/verdict.go: when the verdict is that the problem was reproduced.
use xray_checker_modify.Base.{
  Bool, true, false, Option, none, some, ◌≡◌, ◌⊎◌, refl, ℤ, pos, ltb_ℤ, inl, inr, arith, Bool-cases,
}
use xray_checker_modify.Diagnostics.Types.{Observation, ThroughputEvidence}
use xray_checker_modify.Diagnostics.Verdict.{
  reproduced, SpeedEvidence, status_online, alternative_online, millionths, plus_one, much_faster,
  judge_rate, judge_throughput, judge_speed, judge_availability, speed_server_comparable,
}

-- The agent's rate, with all that it may have been rounded down by, is below the threshold; it is not
-- more than the factor above the run's; and it was measured against the run's own server.
pub record SlowToo (e : SpeedEvidence) (o : Observation) : Type 0 where
  pub throughput : ThroughputEvidence
  pub measured : o.throughput ≡ some throughput
  pub online : status_online o.status ≡ true
  pub below : ltb_ℤ e.threshold_mbps (plus_one (millionths throughput.mbps)) ≡ false
  pub same_range : much_faster e (millionths throughput.mbps) ≡ false
  pub same_server : speed_server_comparable e o ≡ true

rate-reproduced :
    (e : SpeedEvidence) (o : Observation) (agent : ℤ)
    → (judge_rate e o agent).0 ≡ reproduced
    → (ltb_ℤ e.threshold_mbps (plus_one agent) ≡ false)
      × (much_faster e agent ≡ false)
      × (speed_server_comparable e o ≡ true)
unfolding speed_server_comparable
rate-reproduced e o agent h = ground arith

throughput-reproduced :
    (e : SpeedEvidence) (o : Observation) (t : Option ThroughputEvidence)
    → o.throughput ≡ t
    → status_online o.status ≡ true
    → (judge_throughput e o t).0 ≡ reproduced
    → SlowToo e o
throughput-reproduced e o none same up h = absurd (ground arith)
throughput-reproduced e o (some t) same up h =
    let r = rate-reproduced e o (millionths t.mbps) h in
    record {
      throughput = t;
      measured = same;
      online = up;
      below = r.0;
      same_range = r.1;
      same_server = r.2;
    }

-- JudgeSpeed says that the problem is reproduced only of a reliable observation whose alternative
-- endpoint, if any, did not work, and for one of two reasons: the agent could not complete the probe,
-- or its rate plus one Mbps is no more than the threshold, is in the run's range when that was slow,
-- and was measured against the run's own server.
pub judge_speed-reproduced :
    (e : SpeedEvidence) (o : Observation) (reliable : Bool)
    → (judge_speed e o reliable).0 ≡ reproduced
    → (reliable ≡ true)
      × (alternative_online o.alternative_endpoint ≡ false)
      × ((status_online o.status ≡ false) ⊎ SlowToo e o)
unfolding judge_speed
judge_speed-reproduced e o false h = absurd (ground arith)
judge_speed-reproduced e o true h = elim (Bool-cases (alternative_online o.alternative_endpoint)) [
  | inl a ↦ absurd (ground (arith, rw a at h))
  | inr a ↦ elim (Bool-cases (status_online o.status)) [
    | inr s ↦ (refl, a, inl s)
    | inl s ↦ elim (Bool-cases (ltb_ℤ (pos 0) e.threshold_mbps)) [
      | inl p ↦ (refl, a, inr (throughput-reproduced e o o.throughput refl s (rw (a, s, p) at h)))
      | inr p ↦ absurd (ground (arith, rw (a, s, p) at h))
    ]
  ]
]

-- Where the agent could not complete the probe, the two judgements are one: JudgeAvailability and
-- JudgeSpeed give the same verdict for the same reason, whatever the run had established.
pub judge_speed-judge_availability :
    (e : SpeedEvidence) (o : Observation) (reliable : Bool)
    → status_online o.status ≡ false
    → judge_speed e o reliable ≡ judge_availability o reliable
unfolding judge_speed judge_availability
judge_speed-judge_availability e o reliable h = rw h refl
