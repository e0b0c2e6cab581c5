-- ===== src/Diagnostics/Types.antt =====
-- diagnostics/types.go. A time is the number of nanoseconds since Go's zero time, which is 0; an
-- int64 that may be negative is an integer. A string that the code compares with constants is a
-- constructor for each of them and one, `unsupported`, for any other.
use xray_checker_modify.Base.{
  ℕ, Bool, true, false, Option, List, Text, ℤ, ltb_ℤ, pos, ◌||◌, if◌then◌else◌,
}

abbrev pub Time : Type 0
Time = ℕ

pub data Trigger : Type 0 where
  manual auto_proxy_failure auto_offline auto_check_endpoint auto_ambiguous_failure : Trigger
  auto_speed_fallback reachability_sweep : Trigger
  unsupported : Trigger

-- Trigger.Automatic
unfoldable pub automatic : Trigger → Bool
automatic manual = false
automatic _ = true

pub data SessionState : Type 0 where
  requested dispatching running completed partial expired cancelled : SessionState

-- SessionState.Terminal
unfoldable pub session_terminal : SessionState → Bool
session_terminal completed = true
session_terminal partial = true
session_terminal expired = true
session_terminal cancelled = true
session_terminal _ = false

pub data JobState : Type 0 where
  pending dispatched running completed expired cancelled : JobState

-- JobState.Terminal
unfoldable pub job_terminal : JobState → Bool
job_terminal completed = true
job_terminal expired = true
job_terminal cancelled = true
job_terminal _ = false

-- `absent` is the empty status.
pub data ProbeStatus : Type 0 where
  unknown online proxy_failure offline : ProbeStatus
  absent unsupported : ProbeStatus

pub data ProbeMethod : Type 0 where
  ip status download latency stability tls dns : ProbeMethod
  unsupported : ProbeMethod

-- ProbeMethod.Valid and ProbeMethod.Tunnelled
unfoldable pub method_valid : ProbeMethod → Bool
method_valid unsupported = false
method_valid _ = true

unfoldable pub tunnelled : ProbeMethod → Bool
tunnelled ip = true
tunnelled status = true
tunnelled download = true
tunnelled latency = true
tunnelled stability = true
tunnelled _ = false

-- `absent` is the empty stage.
pub data FailureStage : Type 0 where
  absent configuration xray_start proxy tcp ping direct endpoint dns tls : FailureStage
  unsupported : FailureStage

pub record FailureEvidence : Type 0 where
  pub code : Text
  pub stage : FailureStage

pub record CheckEvidence : Type 0 where
  pub checked : Bool
  pub online : Bool
  pub latency_millis : ℤ
  pub failure_code : Text

pub record ThroughputEvidence : Type 0 where
  pub bytes : ℤ
  pub duration_millis : ℤ
  pub mbps : ℤ
  pub ttfb_millis : ℤ

pub record LocalResultSnapshot : Type 0 where
  pub status : ProbeStatus
  pub checked_at : Time
  pub latency_millis : ℤ
  pub failure : FailureEvidence
  pub tcp : CheckEvidence
  pub ping : CheckEvidence

-- A rate that Go holds as a float64 is an integer of millionths of a Mbps.
pub record AutomationContext : Type 0 where
  pub kind : Text
  pub outcome : Text
  pub source : Text
  pub threshold_mbps : ℤ
  pub observed_mbps : ℤ
  pub fallback_attempts : ℤ
  pub measured_bytes : ℤ
  pub speed_server_id : Text

-- ProfileDownloadBytes
unfoldable pub profile_download_bytes : ℤ → ℤ × Bool
profile_download_bytes bytes =
    if ltb_ℤ bytes (pos 1000000) || ltb_ℤ (pos 200000000) bytes
    then (pos 0, false)
    else (bytes, true)

pub record TestProfile : Type 0 where
  pub id : Text
  pub method : ProbeMethod
  pub alternative_profile_id : Text
  pub download_bytes : ℤ
  pub server_id : Text

pub record DiagnosticJob : Type 0 where
  pub job_id : Text
  pub session_id : Text
  pub agent_id : Text
  pub nonce : Text
  pub stable_id : Text
  pub config_generation : ℕ
  pub config_fingerprint : Text
  pub profile : TestProfile
  pub created_at : Time
  pub expires_at : Time
  pub state : JobState

pub record AlternativeEndpointObservation : Type 0 where
  pub profile_id : Text
  pub status : ProbeStatus
  pub latency_millis : ℤ
  pub failure : FailureEvidence

-- The evidence of the methods that the manager passes on unread (latency series, stability, TLS and
-- DNS) is left out.
pub record Observation : Type 0 where
  pub schema_version : ℕ
  pub agent_id : Text
  pub session_id : Text
  pub job_id : Text
  pub nonce : Text
  pub stable_id : Text
  pub config_generation : ℕ
  pub config_fingerprint : Text
  pub checked_at : Time
  pub duration_millis : ℤ
  pub endpoint_profile : Text
  pub status : ProbeStatus
  pub latency_millis : ℤ
  pub failure : FailureEvidence
  pub tcp : CheckEvidence
  pub ping : CheckEvidence
  pub direct_connectivity : CheckEvidence
  pub alternative_endpoint : Option AlternativeEndpointObservation
  pub throughput : Option ThroughputEvidence
  pub agent_version : Text
  pub speed_server_id : Text
  pub signature : List ℕ

pub record AcceptedObservation : Type 0 where
  pub observation : Observation
  pub accepted_at : Time
  pub reliable : Bool

pub record DiagnosticSession : Type 0 where
  pub session_id : Text
  pub stable_id : Text
  pub trigger : Trigger
  pub config_generation : ℕ
  pub config_fingerprint : Text
  pub local_result_snapshot : LocalResultSnapshot
  pub automation_context : AutomationContext
  pub requested_agents : List Text
  pub jobs : List DiagnosticJob
  pub agent_observations : List AcceptedObservation
  pub maintenance_diagnostic : Bool
  pub created_at : Time
  pub expires_at : Time
  pub state : SessionState

pub record CreateSessionRequest : Type 0 where
  pub stable_id : Text
  pub trigger : Trigger
  pub config_generation : ℕ
  pub config_fingerprint : Text
  pub local_result_snapshot : LocalResultSnapshot
  pub automation_context : AutomationContext
  pub requested_agents : List Text
  pub maintenance_diagnostic : Bool
  pub expires_at : Time

pub record RegisterJobRequest : Type 0 where
  pub session_id : Text
  pub agent_id : Text
  pub profile : TestProfile
  pub expires_at : Time
