-- ===== src/Diagnostics/Lemmas/Created.antt =====
-- What CreateSession does to the state.
use xray_checker_modify.Base.{
  ℕ, ◌<◌, Bool, true, false, not, ◌&&◌, Option, none, some, List, [], ◌∷◌, ◌≡◌, refl, Text, ◌==◌,
  length, arith, Bool-cases, Option-cases, inl, inr, distinct,
}
use xray_checker_modify.Diagnostics.Types.{
  Time, automatic, SessionState, session_terminal, DiagnosticSession, CreateSessionRequest,
}
use xray_checker_modify.Diagnostics.Check.{invalid_request, Check, ◌>>◌, fail_if}
use xray_checker_modify.Diagnostics.Validate.{valid_token, valid_fingerprint}
use xray_checker_modify.Diagnostics.Admission.{
  is_unsupported, context_fits, normalized_agent_ids, validate_create_session_request,
}
use xray_checker_modify.Diagnostics.Manager.{ManagerConfig, Manager, find_session, expire}
use xray_checker_modify.Diagnostics.Capacity.{make_capacity}
use xray_checker_modify.Diagnostics.Operations.{
  create_session, create_normalized, create_valid, place_session, add_session, new_session, trimmed,
}
use xray_checker_modify.Diagnostics.Lemmas.SessionOk.{SessionOk}
use xray_checker_modify.Diagnostics.Lemmas.Removal.{make_capacity-room}

module _ (cfg : ManagerConfig) (now : Time) (m : Manager) where
  abbrev roomy : Manager
  roomy = (make_capacity cfg.max_sessions (expire now m)).0

  pub data Created : Manager → Type 0 where
    refused : Created m
    aged : Created (expire now m)
    crowded : Created roomy
    added :
        (s : DiagnosticSession)
        → find_session s.session_id (expire now m).sessions ≡ none
        → SessionOk s
        → length roomy.sessions < cfg.max_sessions
        → session_terminal s.state ≡ false
        → s.agent_observations ≡ []
        → Created (record roomy { sessions = s ∷ roomy.sessions })

passed :
    (b : Bool) {later : Check}
    → (fail_if b invalid_request >> later) ≡ none
    → (b ≡ false) × (later ≡ none)
passed true h = ground arith
passed false h = (refl, h)

asked :
    (r : CreateSessionRequest) (now max_ttl max_agents : ℕ)
    → validate_create_session_request r now max_ttl max_agents ≡ none
    → 0 < length r.requested_agents
unfolding validate_create_session_request
asked r now max_ttl max_agents h =
    let after_id = passed (not (valid_token r.stable_id)) h in
    let after_trigger = passed (is_unsupported r.trigger) after_id.1 in
    let after_maintenance =
      passed (r.maintenance_diagnostic && automatic r.trigger) after_trigger.1 in
    let after_context =
      passed (not (context_fits r.trigger r.automation_context)) after_maintenance.1 in
    let after_fingerprint = passed (not (valid_fingerprint r.config_fingerprint)) after_context.1 in
    let after_asked = passed (length r.requested_agents == 0) after_fingerprint.1 in
    ground (arith, after_asked.0)

new-SessionOk :
    (cfg : ManagerConfig) (now : Time) (id : Text) (r : CreateSessionRequest)
    → 0 < length r.requested_agents
    → SessionOk (new_session cfg now id r)
unfolding distinct
new-SessionOk cfg now id r some_asked = record {
  bound = record { asked = some_asked; different = refl; requested = refl; answered = refl };
  closed = λ _. refl;
  settled = tt;
  lacking = λ _. some_asked;
}

requested_open : session_terminal SessionState.requested ≡ false
unfolding session_terminal
requested_open = refl

module _ (cfg : ManagerConfig) (now : Time) (m : Manager) where
  add-Created :
      (s : DiagnosticSession)
      → find_session s.session_id (expire now m).sessions ≡ none
      → SessionOk s
      → session_terminal s.state ≡ false
      → s.agent_observations ≡ []
      → Created cfg now m (add_session s (make_capacity cfg.max_sessions (expire now m))).0
  add-Created s fresh o live silent =
      let made = make_capacity cfg.max_sessions (expire now m) in
      elim (Bool-cases made.1) [
        | inl e ↦
            rw (e, add_session)
              (added s fresh o (make_capacity-room cfg.max_sessions (expire now m) e) live silent)
        | inr e ↦ rw (e, add_session) crowded
      ]

  place-Created :
      (s : DiagnosticSession)
      → SessionOk s
      → session_terminal s.state ≡ false
      → s.agent_observations ≡ []
      → Created cfg now m (place_session cfg s (expire now m)).0
  place-Created s o live silent =
      elim (Option-cases (find_session s.session_id (expire now m).sessions)) [
        | inl e ↦ rw e (add-Created s e o live silent)
        | inr (x, e) ↦ rw e aged
      ]

  valid-Created :
      (id : Option Text) (r : CreateSessionRequest) (c : Check)
      → (c ≡ none → 0 < length r.requested_agents)
      → Created cfg now m (create_valid cfg now id r m c).0
  valid-Created id r (some e) k = refused
  valid-Created none r none k = refused
  valid-Created (some id) r none k = elim (Bool-cases (valid_token id)) [
    | inl e ↦ rw e (
        place-Created (new_session cfg now id r) (new-SessionOk cfg now id r (k refl))
          requested_open refl)
    | inr e ↦ rw e refused
  ]

  normalized-Created :
      (id : Option Text) (r : CreateSessionRequest) (o : Option (List Text))
      → Created cfg now m (create_normalized cfg now id r m o).0
  normalized-Created id r none = refused
  normalized-Created id r (some agents) =
      valid-Created id (trimmed r agents) _
        (asked (trimmed r agents) now cfg.session_ttl cfg.max_agents_per_session)

  pub create_session-Created :
      (id : Option Text) (r : CreateSessionRequest)
      → Created cfg now m (create_session cfg now id r m).0
  unfolding create_session
  create_session-Created id r = normalized-Created id r (normalized_agent_ids r.requested_agents)
