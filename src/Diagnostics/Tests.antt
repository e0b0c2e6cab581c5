-- ===== src/Diagnostics/Tests.antt =====
-- The session manager and the verdicts at concrete inputs.
mod Eviction
mod Verdicts
mod Lives
use xray_checker_modify.Base.{
  Bool, true, false, Option, none, some, List, [], ◌∷◌, ◌++◌, ◌≡◌, ◌⊎◌, ◌≢◌, ◌||◌, refl, inr, Text,
  codes, text_eq, pos, length, ◌==◌, trim_space, is_empty, member, distinct, All, all, lookup,
  insert, byte_length, ◌≤◌, if◌then◌else◌,
}
use xray_checker_modify.Diagnostics.Types.{
  Trigger, SessionState, session_terminal, job_terminal, ProbeStatus, ProbeMethod, method_valid,
  FailureStage, FailureEvidence, CheckEvidence, TestProfile, Observation, DiagnosticSession,
  CreateSessionRequest, RegisterJobRequest, automatic, profile_download_bytes,
}
use xray_checker_modify.Diagnostics.Check.{unknown_session, first_failure}
use xray_checker_modify.Diagnostics.Validate.{
  valid_safe_value, valid_token, valid_profile_id, valid_failure_code, valid_failure_stage,
  after_prefix, valid_fingerprint, validate_probe_result, validate_check_evidence,
  validate_local_result_snapshot, valid_speed_server_id, validate_profile,
}
use xray_checker_modify.Diagnostics.Admission.{
  normalize_from, normalized_agent_ids, no_context, context_is, speed_context_valid,
  validate_create_session_request, validate_observation, validate_observation_time,
}
use xray_checker_modify.Diagnostics.Session.{derive_session_state, expire_session}
use xray_checker_modify.Diagnostics.Manager.{
  ManagerConfig, Manager, ok, empty_manager, find_session, store_session, job_at, store_job,
  find_job, expire, active_session_error,
}
use xray_checker_modify.Diagnostics.Capacity.{make_capacity, remove_until}
use xray_checker_modify.Diagnostics.Operations.{
  new_session, create_session, register_job, accept_observation, delete_session, delete_sessions,
  record_of,
}
use xray_checker_modify.Diagnostics.Manager.{is_found}
use xray_checker_modify.Diagnostics.Calls.{Call, create, register, accept, cancel, look, step, run}
use xray_checker_modify.Diagnostics.Calls.Replay.{
  Acceptance, IsRecorded, accept_observation-Acceptance,
}
use xray_checker_modify.Diagnostics.Calls.Nonces.{accept-once}
use xray_checker_modify.Diagnostics.Calls.Frozen.{step-ended}
use xray_checker_modify.Diagnostics.Lemmas.Deletion.{delete_session_lem, delete_sessions-clears}
use xray_checker_modify.Diagnostics.Lemmas.Refused.{accept-refuses_stage, accept-refuses_unknown}
use xray_checker_modify.Diagnostics.Admission.Agents.{normalized_agent_ids-different}
use xray_checker_modify.Diagnostics.Verdict.{
  Verdict, SpeedOutcome, SpeedEvidence, max_rate, judge_speed, judge_availability,
  alternative_online, status_online,
}
use xray_checker_modify.Diagnostics.Verdict.Reproduced.{
  SlowToo, judge_speed-reproduced, judge_speed-judge_availability,
}
use xray_checker_modify.Diagnostics.Calls.Invariant.{SessionsOk, run-SessionsOk}

abbrev cfg : ManagerConfig
cfg = record {
  session_ttl = 1000;
  observation_max_age = 300;
  clock_skew = 30;
  max_sessions = 2;
  max_agents_per_session = 8;
}

abbrev fingerprint : Text
fingerprint = codes "sha256:0123456789abcdef0123456789abcdef0123456789abcdef0123456789abcdef"

abbrev no_failure : FailureEvidence
no_failure = record { code = []; stage = FailureStage.absent }

abbrev unchecked : CheckEvidence
unchecked = record { checked = false; online = false; latency_millis = pos 0; failure_code = [] }

abbrev reached : CheckEvidence
reached = record { checked = true; online = true; latency_millis = pos 12; failure_code = [] }

abbrev request : CreateSessionRequest
request = record {
  stable_id = codes "node-1";
  trigger = Trigger.manual;
  config_generation = 3;
  config_fingerprint = fingerprint;
  local_result_snapshot = record {
    status = ProbeStatus.unknown;
    checked_at = 0;
    latency_millis = pos 0;
    failure = no_failure;
    tcp = unchecked;
    ping = unchecked;
  };
  automation_context = no_context;
  requested_agents = codes " eu-1 " ∷ codes "eu-1" ∷ [];
  maintenance_diagnostic = false;
  expires_at = 0;
}

abbrev profile : TestProfile
profile = record {
  id = codes "status-page";
  method = ProbeMethod.status;
  alternative_profile_id = [];
  download_bytes = pos 0;
  server_id = [];
}

abbrev job_request : RegisterJobRequest
job_request = record {
  session_id = codes "diag-1";
  agent_id = codes "eu-1";
  profile = profile;
  expires_at = 0;
}

abbrev answer : Observation
answer = record {
  schema_version = 2;
  agent_id = codes "eu-1";
  session_id = codes "diag-1";
  job_id = codes "job-1";
  nonce = codes "nonce-1";
  stable_id = codes "node-1";
  config_generation = 3;
  config_fingerprint = fingerprint;
  checked_at = 30;
  duration_millis = pos 5;
  endpoint_profile = codes "status-page";
  status = ProbeStatus.online;
  latency_millis = pos 20;
  failure = no_failure;
  tcp = reached;
  ping = unchecked;
  direct_connectivity = reached;
  alternative_endpoint = none;
  throughput = none;
  agent_version = codes "1.0";
  speed_server_id = [];
  signature = 1 ∷ [];
}

abbrev signed : Observation → Bool
signed o = length o.signature == 1

abbrev opening : List Call
opening =
    create 10 (some (codes "diag-1")) request
    ∷ register 20 (some (codes "job-1")) (some (codes "nonce-1")) job_request
    ∷ []

run-SessionsOk_example :
    SessionsOk 2 (run signed cfg (opening ++ accept 40 answer ∷ []) empty_manager).sessions
run-SessionsOk_example = run-SessionsOk signed cfg (opening ++ accept 40 answer ∷ [])

-- After the session is made, its job registered and answered, it is completed.
abbrev state_of : Option DiagnosticSession → Option SessionState
state_of none = none
state_of (some s) = some s.state

completes :
    state_of (
      find_session
        (codes "diag-1")
        (run signed cfg (opening ++ accept 40 answer ∷ []) empty_manager).sessions)
    ≡ some SessionState.completed
unfolding run step create_session register_job accept_observation normalized_agent_ids
    normalize_from valid_token valid_safe_value trim_space byte_length member
    validate_create_session_request context_is speed_context_valid automatic valid_fingerprint
    after_prefix validate_local_result_snapshot validate_check_evidence valid_failure_code
    valid_failure_stage valid_speed_server_id find_session expire expire_session make_capacity
    remove_until session_terminal active_session_error validate_profile valid_profile_id
    method_valid profile_download_bytes lookup insert store_session derive_session_state
    job_terminal validate_observation validate_probe_result validate_observation_time find_job
    job_at store_job first_failure
completes = refl

abbrev opened : Manager
opened = run signed cfg opening empty_manager

abbrev answered : Manager
answered = (accept_observation signed cfg 40 answer opened).0

takes_answer :
    accept_observation signed cfg 40 answer opened ≡ (answered, ok (record_of signed 40 answer))
unfolding run step create_session register_job accept_observation normalized_agent_ids
    normalize_from valid_token valid_safe_value trim_space byte_length member
    validate_create_session_request context_is speed_context_valid automatic valid_fingerprint
    after_prefix validate_local_result_snapshot validate_check_evidence valid_failure_code
    valid_failure_stage valid_speed_server_id find_session expire expire_session make_capacity
    remove_until session_terminal active_session_error validate_profile valid_profile_id
    method_valid profile_download_bytes lookup insert store_session derive_session_state
    job_terminal validate_observation validate_probe_result validate_observation_time find_job
    job_at store_job first_failure
takes_answer = refl

accept_observation-Acceptance_example :
    (q : Acceptance signed cfg 40 answer opened) × IsRecorded 40 answer q.found
      (expire 40 opened)
      answered
      (record_of signed 40 answer)
accept_observation-Acceptance_example =
    accept_observation-Acceptance signed cfg 40 answer opened answered (record_of signed 40 answer)
      takes_answer

abbrev second_answer : Observation
second_answer = record answer { checked_at = 50; latency_millis = pos 7 }

accept-once_example :
    (accept_observation signed cfg 60 second_answer
      (run signed cfg (look 50 (codes "diag-1") ∷ []) answered))
    ≢ (answered, ok (record_of signed 60 second_answer))
accept-once_example =
    accept-once signed cfg 40 60 answer second_answer opened answered answered
      (record_of signed 40 answer) (record_of signed 60 second_answer)
      (look 50 (codes "diag-1") ∷ []) takes_answer (refl, tt) refl refl

abbrev dummy : DiagnosticSession
dummy = new_session cfg 0 (codes "diag-1") request

abbrev or_dummy : Option DiagnosticSession → DiagnosticSession
or_dummy none = dummy
or_dummy (some s) = s

abbrev ended : DiagnosticSession
ended = or_dummy (find_session (codes "diag-1") answered.sessions)

ends : session_terminal ended.state ≡ true
unfolding run step create_session register_job accept_observation normalized_agent_ids
    normalize_from valid_token valid_safe_value trim_space byte_length member
    validate_create_session_request context_is speed_context_valid automatic valid_fingerprint
    after_prefix validate_local_result_snapshot validate_check_evidence valid_failure_code
    valid_failure_stage valid_speed_server_id find_session expire expire_session make_capacity
    remove_until session_terminal active_session_error validate_profile valid_profile_id
    method_valid profile_download_bytes lookup insert store_session derive_session_state
    job_terminal validate_observation validate_probe_result validate_observation_time find_job
    job_at store_job first_failure
ends = refl

stands : find_session (codes "diag-1") answered.sessions ≡ some ended
unfolding run step create_session register_job accept_observation normalized_agent_ids
    normalize_from valid_token valid_safe_value trim_space byte_length member
    validate_create_session_request context_is speed_context_valid automatic valid_fingerprint
    after_prefix validate_local_result_snapshot validate_check_evidence valid_failure_code
    valid_failure_stage valid_speed_server_id find_session expire expire_session make_capacity
    remove_until session_terminal active_session_error validate_profile valid_profile_id
    method_valid profile_download_bytes lookup insert store_session derive_session_state
    job_terminal validate_observation validate_probe_result validate_observation_time find_job
    job_at store_job first_failure
stands = refl

step-ended_example :
    (find_session (codes "diag-1") (step signed cfg (cancel 70 (codes "diag-1")) answered).sessions
      ≡ some ended)
    ⊎ (find_session
          (codes "diag-1")
          (step signed cfg (cancel 70 (codes "diag-1")) answered).sessions
        ≡ none)
step-ended_example =
    step-ended signed cfg (cancel 70 (codes "diag-1")) answered (codes "diag-1") ended ends stands

delete_session_lem_example :
    ((delete_session (codes " diag-1") opened).1 ≡ (
      if is_found (find_session (trim_space (codes " diag-1")) opened.sessions)
      then none
      else some unknown_session))
    × (find_session (codes "diag-1") (delete_session (codes " diag-1") opened).0.sessions ≡ (
        if text_eq (trim_space (codes " diag-1")) (codes "diag-1")
        then none
        else find_session (codes "diag-1") opened.sessions))
delete_session_lem_example = delete_session_lem (codes " diag-1") (codes "diag-1") opened

delete_sessions-clears_example :
    All
      (λ s.
        (is_empty (trim_space (codes "node-1"))
          || text_eq s.stable_id (trim_space (codes "node-1")))
        ≡ false)
      (delete_sessions (codes "node-1") opened).0.sessions
delete_sessions-clears_example = delete_sessions-clears (codes "node-1") opened

normalizes :
    normalized_agent_ids (codes " eu-1 " ∷ codes "us-1" ∷ codes "eu-1" ∷ [])
    ≡ some (codes "eu-1" ∷ codes "us-1" ∷ [])
unfolding normalized_agent_ids normalize_from valid_token valid_safe_value trim_space byte_length
    member
normalizes = refl

normalized_agent_ids-different_example :
    (distinct (codes "eu-1" ∷ codes "us-1" ∷ []) ≡ true)
    × (all valid_token (codes "eu-1" ∷ codes "us-1" ∷ []) ≡ true)
    × (all
          (λ raw. member (trim_space raw) (codes "eu-1" ∷ codes "us-1" ∷ []))
          (codes " eu-1 " ∷ codes "us-1" ∷ codes "eu-1" ∷ [])
        ≡ true)
    × (length (codes "eu-1" ∷ codes "us-1" ∷ [])
        ≤ length (codes " eu-1 " ∷ codes "us-1" ∷ codes "eu-1" ∷ []))
normalized_agent_ids-different_example =
    normalized_agent_ids-different (codes " eu-1 " ∷ codes "us-1" ∷ codes "eu-1" ∷ [])
      (codes "eu-1" ∷ codes "us-1" ∷ []) normalizes

abbrev tls_failure : Observation
tls_failure = record answer {
  status = ProbeStatus.offline;
  failure = record { code = codes "tls_timeout"; stage = FailureStage.tls };
}

accept-refuses_stage_example :
    accept_observation signed cfg 40 tls_failure opened
    ≢ (answered, ok (record_of signed 40 tls_failure))
accept-refuses_stage_example =
    accept-refuses_stage signed cfg 40 tls_failure opened answered (record_of signed 40 tls_failure)
      (inr refl)

abbrev unknown_answer : Observation
unknown_answer = record answer { status = ProbeStatus.unknown }

accept-refuses_unknown_example :
    accept_observation signed cfg 40 unknown_answer opened
    ≢ (answered, ok (record_of signed 40 unknown_answer))
accept-refuses_unknown_example =
    accept-refuses_unknown signed cfg 40 unknown_answer opened answered
      (record_of signed 40 unknown_answer) refl
