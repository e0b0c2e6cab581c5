-- ===== src/Diagnostics/Operations/Acceptance.antt =====
-- diagnostics/manager.go: AcceptObservation.
use xray_checker_modify.Base.{
  Bool, false, not, ◌&&◌, ◌||◌, Option, none, some, [], ◌∷◌, ◌++◌, text_eq, ◌==◌, is_empty, lookup,
  insert,
}
use xray_checker_modify.Diagnostics.Types.{
  Time, JobState, Observation, AcceptedObservation, AlternativeEndpointObservation, TestProfile,
}
use xray_checker_modify.Diagnostics.Check.{
  unknown_job, invalid_signature, stale_generation, binding_mismatch, replay_observation,
  duplicate_observation, Check, fail_if, first_failure,
}
use xray_checker_modify.Diagnostics.Admission.{validate_observation, validate_observation_time}
use xray_checker_modify.Diagnostics.Session.{derive_session_state, with_state, is_completed}
use xray_checker_modify.Diagnostics.Manager.{
  is_found, ManagerConfig, Manager, FoundJob, Outcome, ok, err, nonce_key, store_session, store_job,
  find_job, expire, active_session_error,
}

-- AcceptObservation. `verify` is the check of the signature over the observation's other fields;
-- the payload, which json.Marshal makes of them, is not built.
abbrev pub alternative_mismatch : Option AlternativeEndpointObservation → TestProfile → Bool
alternative_mismatch none p = false
alternative_mismatch (some a) p =
    is_empty p.alternative_profile_id || not (text_eq a.profile_id p.alternative_profile_id)

module _ (verify : Observation → Bool) where
  abbrev pub accept_refusal : ManagerConfig → Time → Observation → FoundJob → Manager → Check
  accept_refusal cfg now o f m =
      let j = f.job in
      let s = f.session in
      let misbound = not (
        o.schema_version == 2
        && text_eq o.session_id j.session_id
        && text_eq o.agent_id j.agent_id
        && text_eq o.nonce j.nonce
        && text_eq o.stable_id j.stable_id
        && text_eq o.config_fingerprint j.config_fingerprint
        && text_eq o.endpoint_profile j.profile.id) in
      first_failure (
        validate_observation_time o.checked_at now j.created_at j.expires_at cfg.observation_max_age
          cfg.clock_skew
        ∷ fail_if (not (verify o)) invalid_signature
        ∷ fail_if (is_completed j.state) duplicate_observation
        ∷ active_session_error s.state
        ∷ fail_if (is_found (lookup (nonce_key o.agent_id o.nonce) m.used_nonces))
            replay_observation
        ∷ fail_if
            (not (
              o.config_generation == j.config_generation
              && o.config_generation == s.config_generation))
            stale_generation
        ∷ fail_if misbound binding_mismatch
        ∷ fail_if (alternative_mismatch o.alternative_endpoint j.profile) binding_mismatch
        ∷ fail_if
            (not (is_empty o.speed_server_id)
              && not (text_eq o.speed_server_id j.profile.server_id))
            binding_mismatch
        ∷ [])

  abbrev pub record_of : Time → Observation → AcceptedObservation
  record_of now o = record {
    observation = o;
    accepted_at = now;
    reliable = o.direct_connectivity.checked && o.direct_connectivity.online;
  }

  abbrev pub accepted : Time → Observation → FoundJob → Manager → Manager
  accepted now o f m =
      let s = f.session in
      let heard = record s {
        jobs = store_job s.jobs f.index (with_state JobState.completed f.job);
        agent_observations = s.agent_observations ++ record_of now o ∷ [];
      } in
      record m {
        sessions = store_session (derive_session_state heard now) m.sessions;
        used_nonces = insert (nonce_key o.agent_id o.nonce) tt m.used_nonces;
      }

  abbrev pub accept_found :
      ManagerConfig
      → Time
      → Observation
      → Manager
      → Option FoundJob
      → Manager × Outcome AcceptedObservation
  accept_found cfg now o m none = (m, err unknown_job)
  accept_found cfg now o m (some f) = elim (accept_refusal cfg now o f m) [
    | some e ↦ (m, err e)
    | none ↦ (accepted now o f m, ok (record_of now o))
  ]

  unfoldable pub accept_observation :
      ManagerConfig → Time → Observation → Manager → Manager × Outcome AcceptedObservation
  accept_observation cfg now o m =
      let expired = expire now m in
      elim (validate_observation o) [
        | some e ↦ (m, err e)
        | none ↦ accept_found cfg now o expired (find_job expired o.job_id)
      ]
