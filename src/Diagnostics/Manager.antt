-- ===== src/Diagnostics/Manager.antt =====
-- diagnostics/manager.go: the session manager. An operation takes the time that `now` reads and what
-- NewID gives, and returns the new state with its result.
use xray_checker_modify.Base.{
  true, false, ℕ, zero, suc, Bool, Option, none, some, List, [], ◌∷◌, ◌++◌, map, Text, text_eq, ℤ,
  pos, negsuc, if◌then◌else◌, lookup, delete,
}
use xray_checker_modify.Diagnostics.Types.{
  Time, SessionState, DiagnosticJob, AcceptedObservation, DiagnosticSession,
}
use xray_checker_modify.Diagnostics.Check.{
  Error, session_expired, session_cancelled, invalid_transition, Check,
}
use xray_checker_modify.Diagnostics.Session.{expire_session}

pub record ManagerConfig : Type 0 where
  pub session_ttl : ℕ
  pub observation_max_age : ℕ
  pub clock_skew : ℕ
  pub max_sessions : ℕ
  pub max_agents_per_session : ℕ

pub record JobReference : Type 0 where
  pub session_id : Text
  pub index : ℕ

pub record Manager : Type 0 where
  pub sessions : List DiagnosticSession
  pub jobs : List (Text × JobReference)
  pub used_nonces : List (Text × Unit {0})
  pub reserved_nonces : List (Text × Text)

pub data Outcome {ℓ} (A : Type ℓ) : Type ℓ where
  ok : A → Outcome A
  err : Error → Outcome A

-- NewDiagnosticSessionManager: a limit of 0 is replaced, and a negative one refused.
abbrev or_default : ℤ → ℕ → Option ℕ
or_default (pos zero) d = some d
or_default (pos (suc n)) d = some (suc n)
or_default (negsuc n) d = none

abbrev with_limits : Option ℕ → Option ℕ → Option ℕ → Option ℕ → Option ℕ → Option ManagerConfig
with_limits (some ttl) (some age) (some skew) (some sessions) (some agents) = some (record {
  session_ttl = ttl;
  observation_max_age = age;
  clock_skew = skew;
  max_sessions = sessions;
  max_agents_per_session = agents;
})
with_limits _ _ _ _ _ = none

-- The defaults are 24 h, 5 min and 30 s in nanoseconds, 100 sessions and 8 agents.
unfoldable pub configured : Bool → ℤ → ℤ → ℤ → ℤ → ℤ → Option ManagerConfig
configured has_verifier ttl age skew sessions agents =
    if has_verifier
    then with_limits (or_default ttl 86400000000000) (or_default age 300000000000)
        (or_default skew 30000000000) (or_default sessions 100) (or_default agents 8)
    else none

abbrev pub empty_manager : Manager
empty_manager = record { sessions = []; jobs = []; used_nonces = []; reserved_nonces = [] }

-- agentID + "\x00" + nonce
abbrev pub nonce_key : Text → Text → Text
nonce_key agent nonce = agent ++ (0 ∷ nonce)

abbrev pub is_found {ℓ} : {A : Type ℓ} → Option A → Bool
is_found none = false
is_found (some _) = true

-- The map from session IDs: m.sessions[id].
unfoldable pub find_session : Text → List DiagnosticSession → Option DiagnosticSession
find_session id [] = none
find_session id (s ∷ ss) = if text_eq s.session_id id then some s else find_session id ss

-- A write through the pointer to a session.
unfoldable pub store_session : DiagnosticSession → List DiagnosticSession → List DiagnosticSession
store_session s [] = []
store_session s (t ∷ ss) =
    if text_eq t.session_id s.session_id then s ∷ ss else t ∷ store_session s ss

unfoldable pub drop_session : Text → List DiagnosticSession → List DiagnosticSession
drop_session id [] = []
drop_session id (s ∷ ss) =
    if text_eq s.session_id id then drop_session id ss else s ∷ drop_session id ss

unfoldable pub job_at : List DiagnosticJob → ℕ → Option DiagnosticJob
job_at [] i = none
job_at (j ∷ js) zero = some j
job_at (j ∷ js) (suc i) = job_at js i

unfoldable pub store_job : List DiagnosticJob → ℕ → DiagnosticJob → List DiagnosticJob
store_job [] i k = []
store_job (j ∷ js) zero k = k ∷ js
store_job (j ∷ js) (suc i) k = j ∷ store_job js i k

pub record FoundJob : Type 0 where
  pub session : DiagnosticSession
  pub job : DiagnosticJob
  pub index : ℕ

abbrev pub found_at : Option DiagnosticSession → ℕ → Option FoundJob
found_at none i = none
found_at (some s) i = elim (job_at s.jobs i) [
  | none ↦ none
  | some j ↦ some (record { session = s; job = j; index = i })
]

abbrev pub found_by : Manager → Option JobReference → Option FoundJob
found_by m none = none
found_by m (some r) = found_at (find_session r.session_id m.sessions) r.index

-- jobLocked
unfoldable pub find_job : Manager → Text → Option FoundJob
unfolding find_session job_at
find_job m id = found_by m (lookup id m.jobs)

-- expireLocked
unfoldable pub expire : Time → Manager → Manager
expire now m = record m { sessions = map (expire_session now) m.sessions }

-- activeSessionError
unfoldable pub active_session_error : SessionState → Check
active_session_error SessionState.expired = some session_expired
active_session_error SessionState.partial = some session_expired
active_session_error SessionState.cancelled = some session_cancelled
active_session_error SessionState.completed = some invalid_transition
active_session_error _ = none

-- removeSessionLocked
abbrev pub forget_jobs : List DiagnosticJob → Manager → Manager
forget_jobs [] m = m
forget_jobs (j ∷ js) m = forget_jobs js (record m {
  jobs = delete j.job_id m.jobs;
  reserved_nonces = delete (nonce_key j.agent_id j.nonce) m.reserved_nonces;
})

abbrev pub forget_observations : List AcceptedObservation → Manager → Manager
forget_observations [] m = m
forget_observations (a ∷ as') m = forget_observations as' (record m {
  used_nonces = delete (nonce_key a.observation.agent_id a.observation.nonce) m.used_nonces;
})

abbrev pub remove_found : Text → Manager → Option DiagnosticSession → Manager
remove_found id m none = m
remove_found id m (some s) =
    let cleared = forget_observations s.agent_observations (forget_jobs s.jobs m) in
    record cleared { sessions = drop_session id cleared.sessions }

unfoldable pub remove_session : Text → Manager → Manager
unfolding find_session drop_session
remove_session id m = remove_found id m (find_session id m.sessions)
