-- ===== src/Diagnostics/Operations/Registration.antt =====
-- diagnostics/manager.go: RegisterJob.
use xray_checker_modify.Base.{
  not, ◌||◌, Option, none, some, [], ◌∷◌, ◌++◌, Text, text_eq, ltb, ◌==◌, length, any,
  if◌then◌else◌, trim_space, lookup, insert, member,
}
use xray_checker_modify.Diagnostics.Types.{
  Time, JobState, DiagnosticJob, DiagnosticSession, RegisterJobRequest, TestProfile,
}
use xray_checker_modify.Diagnostics.Check.{
  invalid_request, unknown_session, duplicate_job, no_id, Check, ◌>>◌, fail_if,
}
use xray_checker_modify.Diagnostics.Validate.{valid_token, validate_profile}
use xray_checker_modify.Diagnostics.Session.{derive_session_state}
use xray_checker_modify.Diagnostics.Manager.{
  is_found, JobReference, Manager, Outcome, ok, err, nonce_key, find_session, store_session, expire,
  active_session_error,
}

-- RegisterJob, with the IDs that NewID gives for the job and its nonce.
abbrev pub new_job :
    Time → Text → Text → Time → Text → TestProfile → DiagnosticSession → DiagnosticJob
new_job now id nonce expires agent profile s = record {
  job_id = id;
  session_id = s.session_id;
  agent_id = agent;
  nonce = nonce;
  stable_id = s.stable_id;
  config_generation = s.config_generation;
  config_fingerprint = s.config_fingerprint;
  profile = profile;
  created_at = now;
  expires_at = expires;
  state = JobState.pending;
}

abbrev pub add_job :
    Time → DiagnosticJob → DiagnosticSession → Manager → Manager × Outcome DiagnosticJob
add_job now j s m =
    let longer = record s { jobs = s.jobs ++ j ∷ [] } in
    let placed : JobReference = record { session_id = s.session_id; index = length s.jobs } in
    (
      record m {
        sessions = store_session (derive_session_state longer now) m.sessions;
        jobs = insert j.job_id placed m.jobs;
        reserved_nonces = insert (nonce_key j.agent_id j.nonce) j.job_id m.reserved_nonces;
      },
      ok j,
    )

abbrev pub binding_refusal :
    Time → RegisterJobRequest → Time → Text → Text → DiagnosticSession → Manager → Check
binding_refusal now r expires id nonce s m = do
  fail_if (not (valid_token id) || not (valid_token nonce)) invalid_request
  fail_if (is_found (lookup id m.jobs)) invalid_request
  fail_if (is_found (lookup (nonce_key r.agent_id nonce) m.reserved_nonces)) invalid_request
  fail_if (not (ltb now expires) || ltb s.expires_at expires) invalid_request

abbrev pub register_named :
    Time
    → RegisterJobRequest
    → Text
    → Text
    → DiagnosticSession
    → Manager
    → Manager × Outcome DiagnosticJob
register_named now r id nonce s m =
    let expires = if r.expires_at == 0 then s.expires_at else r.expires_at in
    elim (binding_refusal now r expires id nonce s m) [
      | some e ↦ (m, err e)
      | none ↦ add_job now (new_job now id nonce expires r.agent_id r.profile s) s m
    ]

abbrev pub register_ids :
    Time
    → RegisterJobRequest
    → Option Text
    → Option Text
    → DiagnosticSession
    → Manager
    → Manager × Outcome DiagnosticJob
register_ids now r (some id) (some nonce) s m = register_named now r id nonce s m
register_ids now r _ _ s m = (m, err no_id)

abbrev pub agent_refusal : Text → DiagnosticSession → Check
agent_refusal agent s = do
  active_session_error s.state
  fail_if (not (member agent s.requested_agents)) invalid_request
  fail_if (any (λ j. text_eq j.agent_id agent) s.jobs) duplicate_job

abbrev pub register_found :
    Time
    → RegisterJobRequest
    → Option Text
    → Option Text
    → Option DiagnosticSession
    → Manager
    → Manager × Outcome DiagnosticJob
register_found now r id fresh none m = (m, err unknown_session)
register_found now r id nonce (some s) m = elim (agent_refusal r.agent_id s) [
  | some e ↦ (m, err e)
  | none ↦ register_ids now r id nonce s m
]

abbrev pub request_refusal : RegisterJobRequest → Check
request_refusal r = do
  fail_if (not (valid_token r.session_id) || not (valid_token r.agent_id)) invalid_request
  validate_profile r.profile

unfoldable pub register_job :
    Time
    → Option Text
    → Option Text
    → RegisterJobRequest
    → Manager
    → Manager × Outcome DiagnosticJob
register_job now id nonce r m =
    let t = record r { session_id = trim_space r.session_id; agent_id = trim_space r.agent_id } in
    let expired = expire now m in
    elim (request_refusal t) [
      | some e ↦ (m, err e)
      | none ↦ register_found now t id nonce (find_session t.session_id expired.sessions) expired
    ]
