-- ===== src/Diagnostics/Lemmas/Refused.antt =====
-- AcceptObservation: the failures that it takes from no agent, from the lists of validFailureStage
-- and validateProbeResult.
use xray_checker_modify.Base.{
  Bool, true, false, not, none, ◌≡◌, ◌⊎◌, ◌≢◌, arith, length, ◌==◌, ltb, all, ◌||◌, [], ◌∷◌,
  is_negative,
}
use xray_checker_modify.Diagnostics.Types.{
  Observation, AcceptedObservation, ProbeStatus, FailureEvidence, FailureStage, Time,
}
use xray_checker_modify.Diagnostics.Check.{
  Error, Check, ◌>>◌, fail_if, invalid_schema, invalid_request, invalid_signature,
}
use xray_checker_modify.Diagnostics.Validate.{
  validate_probe_result, valid_failure_stage, valid_token, valid_fingerprint,
}
use xray_checker_modify.Diagnostics.Admission.{validate_observation}
use xray_checker_modify.Diagnostics.Manager.{ManagerConfig, Manager, ok}
use xray_checker_modify.Diagnostics.Operations.{accept_observation}
use xray_checker_modify.Diagnostics.Lemmas.Refusal.{>>-none}
use xray_checker_modify.Diagnostics.Calls.Replay.{accept_observation-found}

passed : (b : Bool) (e : Error) {later : Check} → (fail_if b e >> later) ≡ none → later ≡ none
passed true e h = ground arith
passed false e h = h

probe-valid :
    (o : Observation)
    → validate_observation o ≡ none
    → validate_probe_result o.status o.failure ≡ none
unfolding validate_observation
probe-valid o h =
    let schema = passed (not (o.schema_version == 2)) invalid_schema h in
    let tokens =
      passed
        (not (
          all valid_token (
            o.agent_id ∷ o.session_id ∷ o.job_id ∷ o.nonce ∷ o.stable_id ∷ o.endpoint_profile
            ∷ o.agent_version ∷ [])))
        invalid_request schema in
    let fingerprint =
      passed (not (valid_fingerprint o.config_fingerprint)) invalid_request tokens in
    let numbers =
      passed (o.checked_at == 0 || is_negative o.duration_millis || is_negative o.latency_millis)
        invalid_request fingerprint in
    let signed =
      passed (length o.signature == 0 || ltb 512 (length o.signature)) invalid_signature numbers in
    let direct = passed (not o.direct_connectivity.checked) invalid_request signed in
    (>>-none (validate_probe_result o.status o.failure) _ direct).0

stage-refused :
    (st : ProbeStatus) (f : FailureEvidence)
    → (f.stage ≡ FailureStage.dns) ⊎ (f.stage ≡ FailureStage.tls)
    → validate_probe_result st f ≢ none
unfolding validate_probe_result valid_failure_stage
stage-refused st f h v = ground arith

-- An observation whose failure stands at the stage dns or tls, of any status and of any method, is
-- accepted in no state of the manager, whatever its signature.
pub accept-refuses_stage :
    (verify : Observation → Bool) (cfg : ManagerConfig) (now : Time) (o : Observation)
    (m n : Manager) (a : AcceptedObservation)
    → (o.failure.stage ≡ FailureStage.dns) ⊎ (o.failure.stage ≡ FailureStage.tls)
    → accept_observation verify cfg now o m ≢ (n, ok a)
accept-refuses_stage verify cfg now o m n a h e =
    stage-refused o.status o.failure h
      (probe-valid o (accept_observation-found verify cfg now o m n a e).valid)

status-refused :
    (st : ProbeStatus) (f : FailureEvidence)
    → st ≡ ProbeStatus.unknown
    → validate_probe_result st f ≢ none
unfolding validate_probe_result
status-refused st f h v = ground arith

-- An observation of the status unknown is accepted in no state of the manager.
pub accept-refuses_unknown :
    (verify : Observation → Bool) (cfg : ManagerConfig) (now : Time) (o : Observation)
    (m n : Manager) (a : AcceptedObservation)
    → o.status ≡ ProbeStatus.unknown
    → accept_observation verify cfg now o m ≢ (n, ok a)
accept-refuses_unknown verify cfg now o m n a h e =
    status-refused o.status o.failure h
      (probe-valid o (accept_observation-found verify cfg now o m n a e).valid)
