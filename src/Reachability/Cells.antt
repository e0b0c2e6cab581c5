-- ===== src/Reachability/Cells.antt =====
-- reachability/matrix.go: a verdict and a cell.
use xray_checker_modify.Base.{ℕ, Bool, true, false, Text, ℤ, ◌&&◌, leb}
use xray_checker_modify.Diagnostics.Types.{Time, ProbeStatus, FailureStage}

pub data Verdict : Type 0 where
  unknown agreed_up agreed_down agent_only_failure local_only_failure : Verdict

-- Verdict.Divergent
abbrev pub divergent : Verdict → Bool
divergent agent_only_failure = true
divergent local_only_failure = true
divergent _ = false

abbrev pub is_unknown : Verdict → Bool
is_unknown unknown = true
is_unknown _ = false

abbrev pub same_verdict : Verdict → Verdict → Bool
same_verdict unknown unknown = true
same_verdict agreed_up agreed_up = true
same_verdict agreed_down agreed_down = true
same_verdict agent_only_failure agent_only_failure = true
same_verdict local_only_failure local_only_failure = true
same_verdict _ _ = false

abbrev pub is_online : ProbeStatus → Bool
is_online ProbeStatus.online = true
is_online _ = false

pub record Cell : Type 0 where
  pub agent_id : Text
  pub verdict : Verdict
  pub agent_status : ProbeStatus
  pub local_status : ProbeStatus
  pub checked_at : Time
  pub local_checked_at : Time
  pub latency_millis : ℤ
  pub failure_code : Text
  pub failure_stage : FailureStage
  pub tcp_reached : Bool
  pub detail : Text
  pub since : Time
  pub streak : ℕ
  pub unreachable : Bool
  pub stale : Bool
  pub generation : ℕ

-- Cell.Confirmed, with confirmSweeps = 2
unfoldable pub confirmed : Cell → Bool
confirmed c = c.unreachable && leb 2 c.streak
