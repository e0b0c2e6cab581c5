-- ===== src/Diagnostics/Tests/Eviction.antt =====
-- A full manager, in which the session that has ended gives way to a new one.
use xray_checker_modify.Base.{
  true, false, some, [], ◌∷◌, ◌≡◌, ◌⊎◌, refl, codes, trim_space, member, distinct, lookup, insert,
  byte_length,
}
use xray_checker_modify.Diagnostics.Types.{
  session_terminal, job_terminal, method_valid, DiagnosticSession, automatic,
  profile_download_bytes,
}
use xray_checker_modify.Diagnostics.Check.{first_failure}
use xray_checker_modify.Diagnostics.Validate.{
  valid_safe_value, valid_token, valid_profile_id, valid_failure_code, valid_failure_stage,
  after_prefix, valid_fingerprint, validate_probe_result, validate_check_evidence,
  validate_local_result_snapshot, valid_speed_server_id, validate_profile,
}
use xray_checker_modify.Diagnostics.Admission.{
  normalize_from, normalized_agent_ids, context_is, speed_context_valid,
  validate_create_session_request, validate_observation, validate_observation_time,
}
use xray_checker_modify.Diagnostics.Session.{derive_session_state, expire_session}
use xray_checker_modify.Diagnostics.Manager.{
  Manager, find_session, store_session, job_at, store_job, find_job, expire, active_session_error,
}
use xray_checker_modify.Diagnostics.Manager.{remove_session}
use xray_checker_modify.Diagnostics.Capacity.{make_capacity, remove_until}
use xray_checker_modify.Diagnostics.Operations.{create_session, register_job, accept_observation}
use xray_checker_modify.Diagnostics.Calls.{create, step, run}
use xray_checker_modify.Diagnostics.Lemmas.Ids.{session_ids}
use xray_checker_modify.Diagnostics.Lemmas.Evicted.{create_session-open}
use xray_checker_modify.Diagnostics.Tests.{cfg, request, signed, answered, or_dummy}

abbrev full : Manager
full = run signed cfg (create 45 (some (codes "diag-2")) request ∷ []) answered

abbrev second : DiagnosticSession
second = or_dummy (find_session (codes "diag-2") full.sessions)

evicts :
    session_ids (create_session cfg 50 (some (codes "diag-3")) request full).0.sessions
    ≡ codes "diag-3" ∷ codes "diag-2" ∷ []
unfolding run remove_session step create_session register_job accept_observation
    normalized_agent_ids normalize_from valid_token valid_safe_value trim_space byte_length member
    validate_create_session_request context_is speed_context_valid automatic valid_fingerprint
    after_prefix validate_local_result_snapshot validate_check_evidence valid_failure_code
    valid_failure_stage valid_speed_server_id find_session expire expire_session make_capacity
    remove_until session_terminal active_session_error validate_profile valid_profile_id
    method_valid profile_download_bytes lookup insert store_session derive_session_state
    job_terminal validate_observation validate_probe_result validate_observation_time find_job
    job_at store_job first_failure
evicts = refl

two_sessions : distinct (session_ids full.sessions) ≡ true
unfolding run distinct step create_session register_job accept_observation normalized_agent_ids
    normalize_from valid_token valid_safe_value trim_space byte_length member
    validate_create_session_request context_is speed_context_valid automatic valid_fingerprint
    after_prefix validate_local_result_snapshot validate_check_evidence valid_failure_code
    valid_failure_stage valid_speed_server_id find_session expire expire_session make_capacity
    remove_until session_terminal active_session_error validate_profile valid_profile_id
    method_valid profile_download_bytes lookup insert store_session derive_session_state
    job_terminal validate_observation validate_probe_result validate_observation_time find_job
    job_at store_job first_failure
two_sessions = refl

second_stands : find_session (codes "diag-2") full.sessions ≡ some second
unfolding run step create_session register_job accept_observation normalized_agent_ids
    normalize_from valid_token valid_safe_value trim_space byte_length member
    validate_create_session_request context_is speed_context_valid automatic valid_fingerprint
    after_prefix validate_local_result_snapshot validate_check_evidence valid_failure_code
    valid_failure_stage valid_speed_server_id find_session expire expire_session make_capacity
    remove_until session_terminal active_session_error validate_profile valid_profile_id
    method_valid profile_download_bytes lookup insert store_session derive_session_state
    job_terminal validate_observation validate_probe_result validate_observation_time find_job
    job_at store_job first_failure
second_stands = refl

second_open : session_terminal (expire_session 50 second).state ≡ false
unfolding run step create_session register_job accept_observation normalized_agent_ids
    normalize_from valid_token valid_safe_value trim_space byte_length member
    validate_create_session_request context_is speed_context_valid automatic valid_fingerprint
    after_prefix validate_local_result_snapshot validate_check_evidence valid_failure_code
    valid_failure_stage valid_speed_server_id find_session expire expire_session make_capacity
    remove_until session_terminal active_session_error validate_profile valid_profile_id
    method_valid profile_download_bytes lookup insert store_session derive_session_state
    job_terminal validate_observation validate_probe_result validate_observation_time find_job
    job_at store_job first_failure
second_open = refl

create_session-open_example :
    (find_session
        (codes "diag-2")
        (create_session cfg 50 (some (codes "diag-3")) request full).0.sessions
      ≡ some second)
    ⊎ (find_session
          (codes "diag-2")
          (create_session cfg 50 (some (codes "diag-3")) request full).0.sessions
        ≡ some (expire_session 50 second))
create_session-open_example =
    create_session-open cfg 50 (some (codes "diag-3")) request full (codes "diag-2") second
      two_sessions second_stands second_open
