-- ===== src/Reachability/Verdict.antt =====
-- reachability/verdict.go: CellFor, which turns a finished session into a cell.
pub mod Newest
use xray_checker_modify.Base.{
  Bool, true, false, ◌&&◌, ◌||◌, not, Option, none, some, List, [], ◌∷◌, Text, codes, text_eq, pos,
  if◌then◌else◌, trim_space,
}
use xray_checker_modify.Diagnostics.Types.{
  Time, SessionState, ProbeStatus, FailureStage, AcceptedObservation, DiagnosticSession,
}
use xray_checker_modify.Reachability.Cells.{
  Verdict, agreed_up, agreed_down, agent_only_failure, local_only_failure, Cell, is_online,
}

-- observationFor. The last entry of the agent is the one that a scan from the end meets first.
unfoldable pub observation_for :
    Option AcceptedObservation → List AcceptedObservation → Text → Option AcceptedObservation
observation_for found [] agent = found
observation_for found (a ∷ as') agent =
    observation_for (if text_eq a.observation.agent_id agent then some a else found) as' agent

-- detailForMissing
unfoldable pub detail_for_missing : SessionState → Text
detail_for_missing SessionState.expired = codes "diagnostic job expired before the agent answered"
detail_for_missing SessionState.cancelled = codes "diagnostic session was cancelled"
detail_for_missing _ = codes "agent returned no observation"

abbrev pub blank_cell : DiagnosticSession → Text → Time → Cell
blank_cell s agent now = record {
  agent_id = agent;
  verdict = Verdict.unknown;
  agent_status = ProbeStatus.absent;
  local_status = s.local_result_snapshot.status;
  checked_at = now;
  local_checked_at = s.local_result_snapshot.checked_at;
  latency_millis = pos 0;
  failure_code = [];
  failure_stage = FailureStage.absent;
  tcp_reached = false;
  detail = [];
  since = 0;
  streak = 0;
  unreachable = false;
  stale = false;
  generation = 0;
}

abbrev pub heard_cell : Cell → AcceptedObservation → Cell
heard_cell c a = record c {
  agent_status = a.observation.status;
  checked_at = a.observation.checked_at;
  latency_millis = a.observation.latency_millis;
  tcp_reached = a.observation.tcp.checked && a.observation.tcp.online;
  failure_code = trim_space a.observation.failure.code;
  failure_stage = a.observation.failure.stage;
}

abbrev pub no_local_result : ProbeStatus → Bool
no_local_result ProbeStatus.absent = true
no_local_result ProbeStatus.unknown = true
no_local_result _ = false

abbrev pub compare_up : Bool → Bool → Verdict
compare_up true true = agreed_up
compare_up false false = agreed_down
compare_up true false = agent_only_failure
compare_up false true = local_only_failure

abbrev pub judged_cell : Cell → AcceptedObservation → Cell
judged_cell c a =
    if not a.reliable
    then record c { detail = codes "agent lost its own connectivity during the probe" }
    else if no_local_result c.local_status
    then record c { detail = codes "controller had no recent result to compare" }
    else record c { verdict = compare_up (is_online c.local_status) (is_online c.agent_status) }

abbrev pub cell_of : DiagnosticSession → Cell → Option AcceptedObservation → Cell
cell_of s c none = record c { detail = detail_for_missing s.state }
cell_of s c (some a) = judged_cell (heard_cell c a) a

unfoldable pub cell_for : DiagnosticSession → Text → Time → Cell
unfolding observation_for detail_for_missing
cell_for s agent_id now =
    let agent = trim_space agent_id in
    cell_of s (blank_cell s agent now) (observation_for none s.agent_observations agent)
