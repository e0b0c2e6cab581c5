-- ===== src/Diagnostics/Operations/Creation.antt =====
-- diagnostics/manager.go: CreateSession.
use xray_checker_modify.Base.{
  ◌+◌, Bool, true, false, not, Option, none, some, List, [], ◌∷◌, Text, ◌==◌, if◌then◌else◌,
  trim_space,
}
use xray_checker_modify.Diagnostics.Types.{
  Time, SessionState, DiagnosticSession, CreateSessionRequest,
}
use xray_checker_modify.Diagnostics.Check.{invalid_request, capacity, no_id, Check}
use xray_checker_modify.Diagnostics.Validate.{valid_token}
use xray_checker_modify.Diagnostics.Admission.{
  normalized_agent_ids, validate_create_session_request,
}
use xray_checker_modify.Diagnostics.Manager.{
  is_found, ManagerConfig, Manager, Outcome, ok, err, find_session, expire,
}
use xray_checker_modify.Diagnostics.Capacity.{make_capacity}

-- CreateSession. The request is trimmed, and its agents are those normalized.
abbrev pub trimmed : CreateSessionRequest → List Text → CreateSessionRequest
trimmed r agents = record r {
  stable_id = trim_space r.stable_id;
  config_fingerprint = trim_space r.config_fingerprint;
  automation_context = record r.automation_context {
    kind = trim_space r.automation_context.kind;
    outcome = trim_space r.automation_context.outcome;
    source = trim_space r.automation_context.source;
  };
  requested_agents = agents;
}

abbrev pub new_session : ManagerConfig → Time → Text → CreateSessionRequest → DiagnosticSession
new_session cfg now id r = record {
  session_id = id;
  stable_id = r.stable_id;
  trigger = r.trigger;
  config_generation = r.config_generation;
  config_fingerprint = r.config_fingerprint;
  local_result_snapshot = r.local_result_snapshot;
  automation_context = r.automation_context;
  requested_agents = r.requested_agents;
  jobs = [];
  agent_observations = [];
  maintenance_diagnostic = r.maintenance_diagnostic;
  created_at = now;
  expires_at = if r.expires_at == 0 then now + cfg.session_ttl else r.expires_at;
  state = SessionState.requested;
}

abbrev pub add_session : DiagnosticSession → Manager × Bool → Manager × Outcome DiagnosticSession
add_session s (m, false) = (m, err capacity)
add_session s (m, true) = (record m { sessions = s ∷ m.sessions }, ok s)

abbrev pub place_session :
    ManagerConfig → DiagnosticSession → Manager → Manager × Outcome DiagnosticSession
place_session cfg s m =
    if is_found (find_session s.session_id m.sessions)
    then (m, err invalid_request)
    else add_session s (make_capacity cfg.max_sessions m)

abbrev pub create_valid :
    ManagerConfig
    → Time
    → Option Text
    → CreateSessionRequest
    → Manager
    → Check
    → Manager × Outcome DiagnosticSession
create_valid cfg now id r m (some e) = (m, err e)
create_valid cfg now none r m none = (m, err no_id)
create_valid cfg now (some id) r m none =
    if not (valid_token id)
    then (m, err invalid_request)
    else place_session cfg (new_session cfg now id r) (expire now m)

abbrev pub create_normalized :
    ManagerConfig
    → Time
    → Option Text
    → CreateSessionRequest
    → Manager
    → Option (List Text)
    → Manager × Outcome DiagnosticSession
create_normalized cfg now id r m none = (m, err invalid_request)
create_normalized cfg now id r m (some agents) =
    let t = trimmed r agents in
    create_valid cfg now id t m
      (validate_create_session_request t now cfg.session_ttl cfg.max_agents_per_session)

unfoldable pub create_session :
    ManagerConfig
    → Time
    → Option Text
    → CreateSessionRequest
    → Manager
    → Manager × Outcome DiagnosticSession
create_session cfg now id r m =
    create_normalized cfg now id r m (normalized_agent_ids r.requested_agents)
