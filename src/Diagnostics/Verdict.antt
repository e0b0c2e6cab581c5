-- ===== src/Diagnostics/Verdict.antt =====
-- diagnostics/verdict.go: what an observation settles about the problem that asked for it. A rate that
-- Go holds as a float64 is a whole number of millionths of a Mbps, and its arithmetic is exact; NaN and
-- the infinities are left out.
pub mod Reproduced
use xray_checker_modify.Base.{
  ℕ, ◌+◌, ◌-◌, ◌*◌, Bool, true, false, ◌&&◌, ◌||◌, not, Option, none, some, List, [], ◌∷◌, Text,
  codes, text_eq, ℤ, pos, negsuc, ltb, ltb_ℤ, if◌then◌else◌, is_empty,
}
use xray_checker_modify.Diagnostics.Types.{
  ProbeStatus, AlternativeEndpointObservation, ThroughputEvidence, Observation,
}

pub data Verdict : Type 0 where
  reproduced not_reproduced path_limited inconclusive unreliable : Verdict

-- The fixed reasons, and the empty one.
pub data Reason : Type 0 where
  no_reason direct_control_failed no_throughput alternative_worked different_server : Reason
  near_threshold agent_also_below_threshold : Reason

-- AutomationOutcomeLowSpeed, AutomationOutcomeTechnical, or any other text.
pub data SpeedOutcome : Type 0 where
  low_speed technical other : SpeedOutcome

pub record SpeedEvidence : Type 0 where
  pub outcome : SpeedOutcome
  pub threshold_mbps : ℤ
  pub observed_mbps : ℤ
  pub server_id : Text

abbrev pub status_online : ProbeStatus → Bool
status_online ProbeStatus.online = true
status_online _ = false

abbrev pub alternative_online : Option AlternativeEndpointObservation → Bool
alternative_online none = false
alternative_online (some a) = status_online a.status

abbrev pub is_low_speed : SpeedOutcome → Bool
is_low_speed low_speed = true
is_low_speed _ = false

-- A whole number of Mbps in millionths, a rate and one Mbps, and three times a rate.
abbrev pub millionths : ℤ → ℤ
millionths (pos n) = pos (n * 1000000)
millionths (negsuc n) = negsuc (n * 1000000 + 999999)

abbrev pub plus_one : ℤ → ℤ
plus_one (pos n) = pos (n + 1000000)
plus_one (negsuc n) = if ltb n 1000000 then pos (999999 - n) else negsuc (n - 1000000)

abbrev pub path_rate_factor_times : ℤ → ℤ
path_rate_factor_times (pos n) = pos (3 * n)
path_rate_factor_times (negsuc n) = negsuc (3 * n + 2)

-- maxFloat
unfoldable pub max_rate : ℤ → ℤ → ℤ
max_rate left right = if ltb_ℤ right left then left else right

-- SpeedServerComparable
unfoldable pub speed_server_comparable : SpeedEvidence → Observation → Bool
speed_server_comparable e o = not (is_empty e.server_id) && text_eq o.speed_server_id e.server_id

-- JudgeSpeed, from the rate on and as a whole.
abbrev pub much_faster : SpeedEvidence → ℤ → Bool
unfolding max_rate
much_faster e agent =
    is_low_speed e.outcome
    && ltb_ℤ (path_rate_factor_times (max_rate e.observed_mbps (pos 1000000))) agent

abbrev pub judge_rate : SpeedEvidence → Observation → ℤ → Verdict × Reason
judge_rate e o agent =
    if much_faster e agent
    then (if ltb_ℤ agent e.threshold_mbps
        then (path_limited, agent_also_below_threshold)
        else (path_limited, no_reason))
    else if not (ltb_ℤ agent e.threshold_mbps)
    then (not_reproduced, no_reason)
    else if ltb_ℤ e.threshold_mbps (plus_one agent)
    then (inconclusive, near_threshold)
    else if is_empty e.server_id || not (text_eq o.speed_server_id e.server_id)
    then (inconclusive, different_server)
    else (reproduced, no_reason)

abbrev pub judge_throughput :
    SpeedEvidence → Observation → Option ThroughputEvidence → Verdict × Reason
judge_throughput e o none =
    if is_low_speed e.outcome then (unreliable, no_throughput) else (not_reproduced, no_reason)
judge_throughput e o (some t) = judge_rate e o (millionths t.mbps)

unfoldable pub judge_speed : SpeedEvidence → Observation → Bool → Verdict × Reason
judge_speed e o reliable =
    if not reliable
    then (unreliable, direct_control_failed)
    else if alternative_online o.alternative_endpoint
    then (not_reproduced, alternative_worked)
    else if not (status_online o.status)
    then (reproduced, no_reason)
    else if not (ltb_ℤ (pos 0) e.threshold_mbps)
    then (not_reproduced, no_reason)
    else judge_throughput e o o.throughput

-- JudgeAvailability
unfoldable pub judge_availability : Observation → Bool → Verdict × Reason
judge_availability o reliable =
    if not reliable
    then (unreliable, direct_control_failed)
    else if status_online o.status
    then (not_reproduced, no_reason)
    else if alternative_online o.alternative_endpoint
    then (not_reproduced, alternative_worked)
    else (reproduced, no_reason)
