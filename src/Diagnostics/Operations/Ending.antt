-- ===== src/Diagnostics/Operations/Ending.antt =====
-- diagnostics/manager.go: DeleteSession, DeleteSessions, CancelSession and Session.
use mathlib.Core.List.{foldl}
use xray_checker_modify.Base.{
  ℕ, ◌||◌, Option, none, some, List, [], ◌∷◌, map, Text, text_eq, length, if◌then◌else◌, trim_space,
  is_empty,
}
use xray_checker_modify.Diagnostics.Types.{
  Time, JobState, SessionState, session_terminal, job_terminal, DiagnosticJob, DiagnosticSession,
}
use xray_checker_modify.Diagnostics.Check.{unknown_session, invalid_transition, Check}
use xray_checker_modify.Diagnostics.Session.{with_state}
use xray_checker_modify.Diagnostics.Manager.{
  is_found, Manager, find_session, store_session, expire, remove_session,
}

-- DeleteSession
unfoldable pub delete_session : Text → Manager → Manager × Check
delete_session id m =
    let name = trim_space id in
    if is_found (find_session name m.sessions)
    then (remove_session name m, none)
    else (m, some unknown_session)

-- DeleteSessions
abbrev pub doomed : Text → List DiagnosticSession → List Text
doomed stable [] = []
doomed stable (s ∷ ss) =
    if is_empty stable || text_eq s.stable_id stable
    then s.session_id ∷ doomed stable ss
    else doomed stable ss

unfoldable pub delete_sessions : Text → Manager → Manager × ℕ
delete_sessions stable m =
    let ids = doomed (trim_space stable) m.sessions in
    (foldl (λ n id. remove_session id n) m ids, length ids)

-- CancelSession
abbrev pub cancel_job : DiagnosticJob → DiagnosticJob
cancel_job j = if job_terminal j.state then j else with_state JobState.cancelled j

abbrev pub cancelled : DiagnosticSession → DiagnosticSession
cancelled s = record s { jobs = map cancel_job s.jobs; state = SessionState.cancelled }

abbrev pub cancel_found : Manager → Option DiagnosticSession → Manager × Check
cancel_found m none = (m, some unknown_session)
cancel_found m (some s) =
    if session_terminal s.state
    then (m, some invalid_transition)
    else (record m { sessions = store_session (cancelled s) m.sessions }, none)

unfoldable pub cancel_session : Time → Text → Manager → Manager × Check
cancel_session now id m =
    let expired = expire now m in
    cancel_found expired (find_session (trim_space id) expired.sessions)

-- Session: a read that expires what is due.
unfoldable pub session : Time → Text → Manager → Manager × Option DiagnosticSession
session now id m =
    let expired = expire now m in (expired, find_session (trim_space id) expired.sessions)
