-- ===== src/Diagnostics/Session.antt =====
-- diagnostics/manager.go: the state of one session, deriveSessionStateLocked, and its expiry.
use xray_checker_modify.Base.{
  ℕ, ◌+◌, Bool, true, false, not, ◌&&◌, ◌||◌, List, [], ◌∷◌, map, ltb, ◌==◌, length, any,
  if◌then◌else◌,
}
use xray_checker_modify.Diagnostics.Types.{
  Time, JobState, SessionState, session_terminal, job_terminal, DiagnosticJob, DiagnosticSession,
}

abbrev pub is_completed : JobState → Bool
is_completed JobState.completed = true
is_completed _ = false

abbrev pub is_running : JobState → Bool
is_running JobState.running = true
is_running _ = false

-- How many jobs pass a test: the counters of the loop.
abbrev pub count_jobs : (JobState → Bool) → List DiagnosticJob → ℕ
count_jobs p [] = 0
count_jobs p (j ∷ js) = (if p j.state then 1 else 0) + count_jobs p js

abbrev pub with_state : JobState → DiagnosticJob → DiagnosticJob
with_state s j = record j { state = s }

-- A job that is not terminal becomes expired.
abbrev pub end_job : DiagnosticJob → DiagnosticJob
end_job j = if job_terminal j.state then j else with_state JobState.expired j

abbrev pub is_cancelled : SessionState → Bool
is_cancelled SessionState.cancelled = true
is_cancelled _ = false

unfoldable pub derive_session_state : DiagnosticSession → Time → DiagnosticSession
unfolding job_terminal
derive_session_state s now =
    let completed = count_jobs is_completed s.jobs in
    let terminal = count_jobs job_terminal s.jobs in
    let running = any (λ j. is_running j.state) s.jobs in
    let agents = length s.requested_agents in
    let all_requested_completed = ltb 0 agents && completed == agents in
    let deadline_reached = not (ltb now s.expires_at) in
    let all_registered_terminal = length s.jobs == agents && terminal == length s.jobs in
    if is_cancelled s.state
    then s
    else if all_requested_completed
    then record s { state = SessionState.completed }
    else if deadline_reached || all_registered_terminal
    then record s {
      jobs = map end_job s.jobs;
      state = if ltb 0 completed then SessionState.partial else SessionState.expired;
    }
    else if running || ltb 0 completed
    then record s { state = SessionState.running }
    else if ltb 0 (length s.jobs)
    then record s { state = SessionState.dispatching }
    else record s { state = SessionState.requested }

-- One round of the loops of expireLocked.
abbrev pub expire_job : Time → DiagnosticJob → DiagnosticJob
expire_job now j =
    if not (job_terminal j.state) && not (ltb now j.expires_at)
    then with_state JobState.expired j
    else j

unfoldable pub expire_session : Time → DiagnosticSession → DiagnosticSession
unfolding session_terminal derive_session_state
expire_session now s =
    if session_terminal s.state
    then s
    else derive_session_state (record s { jobs = map (expire_job now) s.jobs }) now
