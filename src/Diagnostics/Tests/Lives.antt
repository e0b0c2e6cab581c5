-- ===== src/Diagnostics/Tests/Lives.antt =====
-- The lives of sessions, and the signature of an observation, at concrete inputs.
use xray_checker_modify.Base.{
  ◌<◌, true, Option, none, some, [], ◌∷◌, ◌++◌, ◌≡◌, ◌⊎◌, refl, codes, text_eq, if◌then◌else◌, All,
  Bool, lookup, insert, trim_space, byte_length, member,
}
use xray_checker_modify.Diagnostics.Types.{
  Observation, session_terminal, job_terminal, method_valid, automatic, profile_download_bytes,
}
use xray_checker_modify.Diagnostics.Check.{first_failure}
use xray_checker_modify.Diagnostics.Validate.{
  valid_safe_value, valid_token, valid_profile_id, valid_failure_code, valid_failure_stage,
  after_prefix, valid_fingerprint, validate_probe_result, validate_check_evidence,
  validate_local_result_snapshot, valid_speed_server_id, validate_profile,
}
use xray_checker_modify.Diagnostics.Admission.{
  normalize_from, normalized_agent_ids, context_is, speed_context_valid,
  validate_create_session_request, validate_observation, validate_observation_time,
}
use xray_checker_modify.Diagnostics.Session.{derive_session_state, expire_session}
use xray_checker_modify.Diagnostics.Manager.{
  Manager, FoundJob, empty_manager, ok, find_session, store_session, job_at, store_job, find_job,
  expire, active_session_error,
}
use xray_checker_modify.Diagnostics.Capacity.{make_capacity, remove_until}
use xray_checker_modify.Diagnostics.Operations.{
  create_session, register_job, new_job, accept_observation, record_of,
}
use xray_checker_modify.Diagnostics.Calls.{accept, look, step, run}
use xray_checker_modify.Diagnostics.Lemmas.Ids.{session_ids}
use xray_checker_modify.Diagnostics.Lifecycle.{absent, view, History}
use xray_checker_modify.Diagnostics.Lifecycle.Refines.{run-History}
use xray_checker_modify.Diagnostics.Lifecycle.Deadline.{step-InTime}
use xray_checker_modify.Diagnostics.Lifecycle.Answer.{IsAnswered, accept_observation-IsAnswered}
use xray_checker_modify.Diagnostics.Signature.{
  Bytes, KeyProvider, signing_payload, ed25519_verifier, verify_observation,
}
use xray_checker_modify.Diagnostics.Signature.Accepted.{IsSigned, accept_observation-IsSigned}
use xray_checker_modify.Diagnostics.Tests.{
  cfg, signed, opening, answer, opened, answered, takes_answer, dummy, profile,
}

run-History_example :
    History
      (opening ++ accept 40 answer ∷ [])
      absent
      (view (codes "diag-1") (run signed cfg (opening ++ accept 40 answer ∷ []) empty_manager))
run-History_example = run-History signed cfg (codes "diag-1") (opening ++ accept 40 answer ∷ [])

step-InTime_example :
    (session_ids (step signed cfg (look 5000 (codes "diag-1")) opened).sessions
      ≡ session_ids opened.sessions)
    × All
        (λ s. (session_terminal s.state ≡ true) ⊎ (5000 < s.expires_at))
        (step signed cfg (look 5000 (codes "diag-1")) opened).sessions
step-InTime_example = step-InTime signed cfg (look 5000 (codes "diag-1")) 5000 opened refl

abbrev or_found : Option FoundJob → FoundJob → FoundJob
or_found none f = f
or_found (some f) _ = f

abbrev asked : FoundJob
asked =
    or_found (find_job (expire 40 opened) (codes "job-1"))
      (record { session = dummy; job = new_job 0 [] [] 0 [] profile dummy; index = 0 })

finds_job : find_job (expire 40 opened) (codes "job-1") ≡ some asked
unfolding run step create_session register_job normalized_agent_ids normalize_from valid_token
    valid_safe_value trim_space byte_length member validate_create_session_request context_is
    speed_context_valid automatic valid_fingerprint after_prefix validate_local_result_snapshot
    validate_check_evidence valid_failure_code valid_failure_stage valid_speed_server_id
    find_session expire expire_session make_capacity remove_until session_terminal
    active_session_error validate_profile valid_profile_id method_valid profile_download_bytes
    lookup insert store_session derive_session_state job_terminal find_job job_at first_failure
finds_job = refl

accept_observation-IsAnswered_example : IsAnswered signed 40 answer asked answered
accept_observation-IsAnswered_example =
    accept_observation-IsAnswered signed cfg 40 answer opened answered (record_of signed 40 answer)
      asked takes_answer finds_job

-- A signature scheme in which a signature is its key twice.
abbrev key : Bytes
key = codes "0123456789abcdef0123456789abcdef"

abbrev doubled_key : Bytes → Bytes → Bytes → Bool
doubled_key k payload signature = text_eq signature (k ++ k)

abbrev marshal : Observation → Option Bytes
marshal o = some (o.job_id ++ o.nonce ++ o.signature)

abbrev provider : Option KeyProvider
provider = some (λ agent. if text_eq agent (codes "eu-1") then some key else none)

abbrev signed_answer : Observation
signed_answer = record answer { signature = key ++ key }

abbrev check : Observation → Bool
check = verify_observation marshal doubled_key provider

abbrev heard : Manager
heard = (accept_observation check cfg 40 signed_answer opened).0

takes_signed :
    accept_observation check cfg 40 signed_answer opened
    ≡ (heard, ok (record_of check 40 signed_answer))
unfolding run step create_session register_job accept_observation normalized_agent_ids
    normalize_from valid_token valid_safe_value trim_space byte_length member
    validate_create_session_request context_is speed_context_valid automatic valid_fingerprint
    after_prefix validate_local_result_snapshot validate_check_evidence valid_failure_code
    valid_failure_stage valid_speed_server_id find_session expire expire_session make_capacity
    remove_until session_terminal active_session_error validate_profile valid_profile_id
    method_valid profile_download_bytes lookup insert store_session derive_session_state
    job_terminal validate_observation validate_probe_result validate_observation_time find_job
    job_at store_job first_failure verify_observation ed25519_verifier signing_payload
takes_signed = refl

accept_observation-IsSigned_example : IsSigned marshal doubled_key provider signed_answer
accept_observation-IsSigned_example =
    accept_observation-IsSigned marshal doubled_key provider cfg 40 signed_answer opened heard
      (record_of check 40 signed_answer) takes_signed
