-- ===== src/Reachability/Tests.antt =====
-- The reachability matrix at concrete sessions and cells.
use mathlib.Core.List.{Perm}
use xray_checker_modify.Base.{
  ℕ, Bool, true, false, ◌&&◌, ◌||◌, Option, none, some, List, [], ◌∷◌, ◌≡◌, refl, Text, codes,
  text_eq, pos, trim_space, lookup, insert, if◌then◌else◌, Sorted, All, text_lt, sort_by,
  insert_sorted,
}
use xray_checker_modify.Diagnostics.Types.{
  Time, Trigger, SessionState, ProbeStatus, FailureStage, FailureEvidence, CheckEvidence,
  AcceptedObservation, DiagnosticSession,
}
use xray_checker_modify.Diagnostics.Admission.{no_context}
use xray_checker_modify.Reachability.Cells.{Verdict, divergent, is_online, Cell, confirmed}
use xray_checker_modify.Reachability.Verdict.{cell_for, observation_for}
use xray_checker_modify.Reachability.Verdict.Newest.{Divergence, cell_for-divergent}
use xray_checker_modify.Reachability.Matrix.{Matrix, empty_matrix, record_cell, continued}
use xray_checker_modify.Base.{distinct, member}
use xray_checker_modify.Reachability.Matrix.{is_known, known_agent, retain}
use xray_checker_modify.Reachability.Matrix.Retained.{keys, retain-cell_at}
use xray_checker_modify.Reachability.Matrix.Streak.{
  cell_at, record_cell-stored, record_all, record_all-unconfirmed,
}
use xray_checker_modify.Reachability.Rows.{
  NodeRow, counts, local_up, agent_up, derive_row, rows, findings, Finding, local_status_of,
}
use xray_checker_modify.Reachability.Rows.Evidence.{
  evidence, summary, derive_row-evidence, derive_row-local, derive_row-unreachable,
}
use xray_checker_modify.Reachability.Preference.{prefer_agents, preferred}
use xray_checker_modify.Reachability.Preference.Standing.{MayPrecede}
use xray_checker_modify.Reachability.Preference.Order.{prefer_agents-Sorted}

abbrev unchecked : CheckEvidence
unchecked = record { checked = false; online = false; latency_millis = pos 0; failure_code = [] }

abbrev reached : CheckEvidence
reached = record { checked = true; online = true; latency_millis = pos 12; failure_code = [] }

abbrev no_failure : FailureEvidence
no_failure = record { code = []; stage = FailureStage.absent }

abbrev timed_out : FailureEvidence
timed_out = record { code = codes "tcp_timeout"; stage = FailureStage.tcp }

abbrev report : Text → ProbeStatus → FailureEvidence → AcceptedObservation
report agent status failure = record {
  observation = record {
    schema_version = 2;
    agent_id = agent;
    session_id = codes "diag-1";
    job_id = codes "job-1";
    nonce = codes "nonce-1";
    stable_id = codes "node-1";
    config_generation = 1;
    config_fingerprint = [];
    checked_at = 30;
    duration_millis = pos 5;
    endpoint_profile = codes "status-page";
    status = status;
    latency_millis = pos 20;
    failure = failure;
    tcp = unchecked;
    ping = unchecked;
    direct_connectivity = reached;
    alternative_endpoint = none;
    throughput = none;
    agent_version = codes "1.0";
    speed_server_id = [];
    signature = 1 ∷ [];
  };
  accepted_at = 31;
  reliable = true;
}

-- The agent first reached the node and then did not.
abbrev finished : DiagnosticSession
finished = record {
  session_id = codes "diag-1";
  stable_id = codes "node-1";
  trigger = Trigger.reachability_sweep;
  config_generation = 1;
  config_fingerprint = [];
  local_result_snapshot = record {
    status = ProbeStatus.online;
    checked_at = 25;
    latency_millis = pos 30;
    failure = no_failure;
    tcp = unchecked;
    ping = unchecked;
  };
  automation_context = no_context;
  requested_agents = codes "eu-1" ∷ [];
  jobs = [];
  agent_observations =
      report (codes "eu-1") ProbeStatus.online no_failure
      ∷ report (codes "eu-1") ProbeStatus.offline timed_out
      ∷ report (codes "us-1") ProbeStatus.online no_failure
      ∷ [];
  maintenance_diagnostic = false;
  created_at = 20;
  expires_at = 90;
  state = SessionState.completed;
}

diverges : divergent (cell_for finished (codes "eu-1 ") 40).verdict ≡ true
unfolding cell_for observation_for trim_space
diverges = refl

cell_for-divergent_example : Divergence finished (trim_space (codes "eu-1 "))
cell_for-divergent_example = cell_for-divergent finished (codes "eu-1 ") 40 diverges

abbrev failed_cell : Cell
failed_cell = cell_for finished (codes "eu-1") 40

-- A second result that was compared with a newer local sample.
abbrev newer_cell : Cell
newer_cell = record failed_cell { checked_at = 60; local_checked_at = 55 }

abbrev twice : Matrix
twice =
    (record_cell 61 (codes "node-1") newer_cell
      (record_cell 41 (codes "node-1") failed_cell empty_matrix).0).0

abbrev streak_of : Option Cell → ℕ × Time
streak_of none = (0, 0)
streak_of (some c) = (c.streak, c.since)

streak_grows : streak_of (cell_at (codes "node-1") (codes "eu-1") twice) ≡ (2, 30)
unfolding record_cell continued cell_for observation_for trim_space lookup insert
streak_grows = refl

-- The checker reached the node twice while the agent did not: one confirmed finding.
abbrev brief : List Finding → List (Text × Bool × Bool)
brief [] = []
brief (f ∷ fs) = (f.agent_id, f.is_local, f.is_confirmed) ∷ brief fs

finds : brief (findings twice) ≡ (codes "eu-1", false, true) ∷ []
unfolding findings rows derive_row sort_by insert_sorted text_lt local_status_of confirmed
    record_cell continued cell_for observation_for trim_space lookup insert
finds = refl

record_cell-stored_example :
    cell_at
      (codes "node-1")
      (codes "eu-1")
      (record_cell 41 (codes " node-1") failed_cell empty_matrix).0
    ≡ (if text_eq (trim_space (codes " node-1")) (codes "node-1")
          && text_eq (trim_space failed_cell.agent_id) (codes "eu-1")
        then some (record_cell 41 (codes " node-1") failed_cell empty_matrix).1
        else cell_at (codes "node-1") (codes "eu-1") empty_matrix)
unfolding trim_space cell_for observation_for
record_cell-stored_example =
    record_cell-stored 41 (codes " node-1") failed_cell empty_matrix (codes "node-1") (codes "eu-1")
      refl refl

abbrev or_failed : Option Cell → Cell
or_failed none = failed_cell
or_failed (some c) = c

abbrev rechecks : List (Time × Cell)
rechecks = (41, failed_cell) ∷ (42, failed_cell) ∷ (43, failed_cell) ∷ []

abbrev rechecked : Option Cell
rechecked =
    cell_at (trim_space (codes "node-1")) (codes "eu-1")
      (record_all (codes "node-1") rechecks empty_matrix)

is_there : rechecked ≡ some (or_failed rechecked)
unfolding record_all record_cell continued cell_for observation_for trim_space lookup insert
is_there = refl

record_all-unconfirmed_example :
    ((or_failed rechecked).streak ≡ 1)
    × (confirmed (record (or_failed rechecked) { unreachable = true }) ≡ false)
unfolding lookup cell_for observation_for trim_space
record_all-unconfirmed_example =
    record_all-unconfirmed 25 (codes "node-1") (codes "eu-1") rechecks empty_matrix
      (or_failed rechecked) true refl ((λ _. refl), ((λ _. refl), ((λ _. refl), tt))) is_there

-- One agent reached the node, another did not, and the checker did not.
abbrev cell : Text → Verdict → ProbeStatus → Bool → Cell
cell agent verdict status stale = record failed_cell {
  agent_id = agent;
  verdict = verdict;
  agent_status = status;
  local_status = ProbeStatus.offline;
  stale = stale;
  since = 30;
  streak = 2;
}

abbrev row : NodeRow
row = record {
  stable_id = codes "node-1";
  name = [];
  cells =
      cell (codes "eu-1") Verdict.agreed_down ProbeStatus.offline false
      ∷ cell (codes "us-1") Verdict.local_only_failure ProbeStatus.online false
      ∷ cell (codes "jp-1") Verdict.agreed_down ProbeStatus.offline true
      ∷ [];
  alive = false;
  local_unreachable = false;
  local_since = 0;
  local_streak = 0;
}

derive_row-evidence_example :
    summary (derive_row (record row { cells = evidence row.cells })) ≡ summary (derive_row row)
derive_row-evidence_example = derive_row-evidence row

derive_row-local_example : (agent_up row.cells ≡ true) × (local_up row.cells ≡ false)
unfolding derive_row cell_for observation_for
derive_row-local_example = derive_row-local row refl refl refl

derive_row-unreachable_example :
    All
      (λ c.
        c.unreachable ≡ true
        → (counts c ≡ true)
          × (is_online c.agent_status ≡ false)
          × ((agent_up row.cells || local_up row.cells) ≡ true))
      (derive_row row).cells
unfolding cell_for observation_for trim_space
derive_row-unreachable_example = derive_row-unreachable row refl (refl, (refl, (refl, tt)))

abbrev asked : List Text
asked = codes "eu-1" ∷ codes "jp-1" ∷ codes "us-1" ∷ []

abbrev known : Matrix
known =
    (record_cell 41 (codes "node-1") (cell_for finished (codes "us-1") 40)
      (record_cell 41 (codes "node-1") failed_cell empty_matrix).0).0

prefers :
    prefer_agents (codes "node-1") asked known ≡ codes "us-1" ∷ codes "jp-1" ∷ codes "eu-1" ∷ []
unfolding prefer_agents preferred sort_by insert_sorted record_cell continued cell_for
    observation_for trim_space lookup insert
prefers = refl

prefer_agents-Sorted_example :
    Perm (prefer_agents (codes "node-1") asked known) asked
    × Sorted (MayPrecede (codes "node-1") known) (prefer_agents (codes "node-1") asked known)
prefer_agents-Sorted_example = prefer_agents-Sorted (codes "node-1") asked known

abbrev kept_nodes : List (Text × Text)
kept_nodes = (codes "node-1", codes "Frankfurt") ∷ []

abbrev kept_agents : List (Text × Bool)
kept_agents = (codes "eu-1", true) ∷ []

one_row : distinct (keys known.cells) ≡ true
unfolding record_cell cell_for observation_for trim_space insert distinct member
one_row = refl

retain-cell_at_example :
    cell_at (codes "node-1") (codes "us-1") (retain kept_nodes kept_agents known) ≡ (
      if is_known (lookup (codes "node-1") kept_nodes)
        && known_agent (lookup (codes "us-1") kept_agents)
      then cell_at (codes "node-1") (codes "us-1") known
      else none)
retain-cell_at_example =
    retain-cell_at kept_nodes kept_agents known (codes "node-1") (codes "us-1") one_row
