-- ===== src/Diagnostics/Admission.antt =====
-- diagnostics/manager.go: what a session request and an observation must satisfy on their own.
pub mod Agents
use xray_checker_modify.Base.{
  ℕ, ◌+◌, Bool, true, false, not, ◌&&◌, ◌||◌, Option, none, some, List, [], ◌∷◌, ◌++◌, Text, codes,
  text_eq, ℤ, pos, is_negative, is_zero, ltb, ◌==◌, length, all, if◌then◌else◌, trim_space,
  is_empty, member,
}
use xray_checker_modify.Diagnostics.Types.{
  Time, Trigger, manual, auto_proxy_failure, auto_offline, auto_check_endpoint,
  auto_ambiguous_failure, auto_speed_fallback, reachability_sweep, automatic, AutomationContext,
  AlternativeEndpointObservation, Observation, CreateSessionRequest,
}
use xray_checker_modify.Diagnostics.Check.{
  Error, invalid_schema, invalid_request, invalid_signature, stale_observation, Check, ◌>>◌,
  fail_if,
}
use xray_checker_modify.Diagnostics.Validate.{
  valid_token, valid_profile_id, valid_fingerprint, valid_speed_server_id, validate_probe_result,
  validate_check_evidence, validate_local_result_snapshot,
}

-- normalizedAgentIDs: `none` is an error, and an ID that came before is dropped.
unfoldable pub normalize_from : List Text → List Text → Option (List Text)
normalize_from seen [] = some seen
normalize_from seen (raw ∷ more) =
    let agent = trim_space raw in
    let skipped = normalize_from seen more in
    let added = normalize_from (seen ++ agent ∷ []) more in
    if not (valid_token agent) then none else if member agent seen then skipped else added

unfoldable pub normalized_agent_ids : List Text → Option (List Text)
unfolding normalize_from
normalized_agent_ids ids = normalize_from [] ids

abbrev pub no_context : AutomationContext
no_context = record {
  kind = [];
  outcome = [];
  source = [];
  threshold_mbps = pos 0;
  observed_mbps = pos 0;
  fallback_attempts = pos 0;
  measured_bytes = pos 0;
  speed_server_id = [];
}

-- ProxyFailureAutomationContext and OfflineAutomationContext
abbrev pub proxy_failure_context : AutomationContext
proxy_failure_context = record no_context {
  kind = codes "proxy_failure";
  source = codes "availability";
}

abbrev pub offline_context : AutomationContext
offline_context = record no_context { kind = codes "offline"; source = codes "availability" }

-- Equality of a context with one whose numbers are zero and whose outcome and server are empty.
unfoldable pub context_is : AutomationContext → AutomationContext → Bool
context_is c d =
    text_eq c.kind d.kind
    && text_eq c.source d.source
    && is_empty c.outcome
    && is_empty c.speed_server_id
    && is_zero c.threshold_mbps
    && is_zero c.observed_mbps
    && is_zero c.fallback_attempts
    && is_zero c.measured_bytes

unfoldable pub speed_context_valid : AutomationContext → Bool
speed_context_valid c =
    text_eq c.kind (codes "speed_fallback")
    && (text_eq c.outcome (codes "technical_error") || text_eq c.outcome (codes "low_speed"))
    && valid_token c.source
    && not (is_negative c.threshold_mbps)
    && not (is_negative c.observed_mbps)
    && not (is_negative c.measured_bytes)
    && not (is_negative c.fallback_attempts)
    && (is_empty c.speed_server_id || valid_speed_server_id c.speed_server_id)

-- Whether a trigger goes with a context. An unsupported trigger is refused before.
abbrev pub context_fits : Trigger → AutomationContext → Bool
context_fits auto_speed_fallback c = speed_context_valid c
context_fits auto_proxy_failure c = context_is c proxy_failure_context
context_fits auto_offline c = context_is c offline_context
context_fits _ c = context_is c no_context

abbrev pub is_unsupported : Trigger → Bool
is_unsupported Trigger.unsupported = true
is_unsupported _ = false

-- validateCreateSessionRequest. `now.Add(maxTTL)` is `now + max_ttl`.
unfoldable pub validate_create_session_request : CreateSessionRequest → Time → ℕ → ℕ → Check
unfolding valid_token valid_fingerprint valid_speed_server_id context_is speed_context_valid
    automatic validate_local_result_snapshot
validate_create_session_request r now max_ttl max_agents = do
  fail_if (not (valid_token r.stable_id)) invalid_request
  fail_if (is_unsupported r.trigger) invalid_request
  fail_if (r.maintenance_diagnostic && automatic r.trigger) invalid_request
  fail_if (not (context_fits r.trigger r.automation_context)) invalid_request
  fail_if (not (valid_fingerprint r.config_fingerprint)) invalid_request
  fail_if (length r.requested_agents == 0) invalid_request
  fail_if (ltb max_agents (length r.requested_agents)) invalid_request
  validate_local_result_snapshot r.local_result_snapshot
  if r.expires_at == 0
      then none
      else fail_if (not (ltb now r.expires_at) || ltb (now + max_ttl) r.expires_at) invalid_request

abbrev validate_alternative : Option AlternativeEndpointObservation → Check
validate_alternative none = none
validate_alternative (some a) = do
  fail_if (not (valid_profile_id a.profile_id) || is_negative a.latency_millis) invalid_request
  validate_probe_result a.status a.failure

-- validateObservation. The tokens are checked in the order of a map, all for one error.
unfoldable pub validate_observation : Observation → Check
validate_observation o = do
  fail_if (not (o.schema_version == 2)) invalid_schema
  fail_if
      (not (
        all valid_token (
          o.agent_id ∷ o.session_id ∷ o.job_id ∷ o.nonce ∷ o.stable_id ∷ o.endpoint_profile
          ∷ o.agent_version ∷ [])))
      invalid_request
  fail_if (not (valid_fingerprint o.config_fingerprint)) invalid_request
  fail_if (o.checked_at == 0 || is_negative o.duration_millis || is_negative o.latency_millis)
      invalid_request
  fail_if (length o.signature == 0 || ltb 512 (length o.signature)) invalid_signature
  fail_if (not o.direct_connectivity.checked) invalid_request
  validate_probe_result o.status o.failure
  validate_check_evidence o.tcp
  validate_check_evidence o.ping
  validate_check_evidence o.direct_connectivity
  validate_alternative o.alternative_endpoint
  fail_if (not (is_empty o.speed_server_id) && not (valid_speed_server_id o.speed_server_id))
      invalid_request

-- validateObservationTime, with the subtractions of a duration moved to the other side.
unfoldable pub validate_observation_time : Time → Time → Time → Time → ℕ → ℕ → Check
validate_observation_time checked_at now job_created_at job_expires_at max_age clock_skew = do
  fail_if (ltb (checked_at + max_age) now || ltb (now + clock_skew) checked_at) stale_observation
  fail_if
      (ltb (checked_at + clock_skew) job_created_at || ltb (job_expires_at + clock_skew) checked_at)
      stale_observation
