-- ===== src/Diagnostics/Lemmas/Refusal.antt =====
-- What has been checked when no check of an operation refuses.
use xray_checker_modify.Base.{
  ℕ, Bool, true, false, not, ◌&&◌, none, some, ◌≡◌, ◌⊎◌, refl, Text, text_eq, text_eq→eq, ◌==◌,
  ==_iff, any, arith, is_empty, member, lookup, Bool-cases, inl, inr,
}
use xray_checker_modify.Diagnostics.Types.{Time, Observation, DiagnosticSession, DiagnosticJob}
use xray_checker_modify.Diagnostics.Check.{Error, Check, ◌>>◌, fail_if, first_failure-none}
use xray_checker_modify.Diagnostics.Admission.{validate_observation_time}
use xray_checker_modify.Diagnostics.Session.{is_completed}
use xray_checker_modify.Diagnostics.Manager.{
  ManagerConfig, Manager, FoundJob, nonce_key, active_session_error,
}
use xray_checker_modify.Diagnostics.Operations.{
  agent_refusal, mark_refusal, may_mark, Mark, accept_refusal, alternative_mismatch,
}
use xray_checker_modify.Diagnostics.Manager.{is_found}

pub >>-none : (a b : Check) → (a >> b) ≡ none → (a ≡ none) × (b ≡ none)
>>-none none b h = (refl, h)
>>-none (some e) b h = ground arith

pub fail_if-none : (b : Bool) (e : Error) → fail_if b e ≡ none → b ≡ false
fail_if-none b e h = ground arith

not-false : (b : Bool) → not b ≡ false → b ≡ true
not-false b h = ground arith

pub agent_refusal-none :
    (a : Text) (s : DiagnosticSession)
    → agent_refusal a s ≡ none
    → (active_session_error s.state ≡ none)
      × (member a s.requested_agents ≡ true)
      × (any (λ j. text_eq j.agent_id a) s.jobs ≡ false)
agent_refusal-none a s h =
    let first = >>-none (active_session_error s.state) _ h in
    let second = >>-none (fail_if (not (member a s.requested_agents)) _) _ first.1 in
    (first.0, not-false _ (fail_if-none _ _ second.0), fail_if-none _ _ second.1)

pub mark_refusal-none :
    (mark : Mark) (f : FoundJob)
    → mark_refusal mark f ≡ none
    → (active_session_error f.session.state ≡ none) × (may_mark mark f.job.state ≡ true)
mark_refusal-none mark f h =
    let first = >>-none (active_session_error f.session.state) _ h in
    (first.0, not-false _ (fail_if-none _ _ first.1))

seven_true :
    (a b c d e f g : Bool)
    → (a && b && c && d && e && f && g) ≡ true
    → (a ≡ true) × (b ≡ true) × (c ≡ true) × (d ≡ true) × (e ≡ true) × (f ≡ true) × (g ≡ true)
seven_true a b c d e f g h = ground arith

same_generation : (g a b : ℕ) → (g == a && g == b) ≡ true → (g ≡ a) × (g ≡ b)
same_generation g a b h = ground arith

same_server :
    (s t : Text) → (not (is_empty s) && not (text_eq s t)) ≡ false → (is_empty s ≡ true) ⊎ (s ≡ t)
same_server s t h = elim (Bool-cases (is_empty s)) [
  | inl e ↦ inl e
  | inr e ↦ inr (text_eq→eq s t (ground arith))
]

-- An observation is bound to a job: it names the job's session, agent, nonce, node, configuration
-- and profile, and no alternative profile and no server but the job's.
pub record IsBoundTo (j : DiagnosticJob) (o : Observation) : Type 0 where
  pub schema : o.schema_version ≡ 2
  pub session : o.session_id ≡ j.session_id
  pub agent : o.agent_id ≡ j.agent_id
  pub nonce : o.nonce ≡ j.nonce
  pub node : o.stable_id ≡ j.stable_id
  pub fingerprint : o.config_fingerprint ≡ j.config_fingerprint
  pub profile : o.endpoint_profile ≡ j.profile.id
  pub alternative : alternative_mismatch o.alternative_endpoint j.profile ≡ false
  pub server : (is_empty o.speed_server_id ≡ true) ⊎ (o.speed_server_id ≡ j.profile.server_id)

-- What an observation has met when AcceptObservation records it.
pub record IsAdmitted (verify : Observation → Bool) (cfg : ManagerConfig) (now : Time)
    (o : Observation) (f : FoundJob) (m : Manager) : Type 0 where
  pub timely :
      validate_observation_time o.checked_at now f.job.created_at f.job.expires_at
        cfg.observation_max_age cfg.clock_skew
      ≡ none
  pub verified : verify o ≡ true
  pub unanswered : is_completed f.job.state ≡ false
  pub active : active_session_error f.session.state ≡ none
  pub unused : is_found (lookup (nonce_key o.agent_id o.nonce) m.used_nonces) ≡ false
  pub generation :
      (o.config_generation ≡ f.job.config_generation)
      × (o.config_generation ≡ f.session.config_generation)
  pub bound : IsBoundTo f.job o

module _ (verify : Observation → Bool) (cfg : ManagerConfig) (now : Time) (o : Observation)
    (f : FoundJob) (m : Manager) where
  pub accept_refusal-none :
      accept_refusal verify cfg now o f m ≡ none → IsAdmitted verify cfg now o f m
  accept_refusal-none h =
      let c = first_failure-none _ h in
      let same = not-false _ (fail_if-none _ _ c.1.1.1.1.1.1.0) in
      let b = seven_true _ _ _ _ _ _ _ same in
      record {
        timely = c.0;
        verified = not-false _ (fail_if-none _ _ c.1.0);
        unanswered = fail_if-none _ _ c.1.1.0;
        active = c.1.1.1.0;
        unused = fail_if-none _ _ c.1.1.1.1.0;
        generation = same_generation _ _ _ (not-false _ (fail_if-none _ _ c.1.1.1.1.1.0));
        bound = record {
          schema = (==_iff _ _).0 b.0;
          session = text_eq→eq _ _ b.1;
          agent = text_eq→eq _ _ b.2;
          nonce = text_eq→eq _ _ b.3;
          node = text_eq→eq _ _ b.4;
          fingerprint = text_eq→eq _ _ b.5;
          profile = text_eq→eq _ _ b.6;
          alternative = fail_if-none _ _ c.1.1.1.1.1.1.1.0;
          server = same_server o.speed_server_id _ (fail_if-none _ _ c.1.1.1.1.1.1.1.1.0);
        };
      }
