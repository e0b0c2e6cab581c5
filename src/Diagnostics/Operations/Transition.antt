-- ===== src/Diagnostics/Operations/Transition.antt =====
-- diagnostics/manager.go: transitionJob.
use xray_checker_modify.Base.{Bool, true, false, not, Option, none, some, Text, trim_space}
use xray_checker_modify.Diagnostics.Types.{Time, JobState, DiagnosticJob, DiagnosticSession}
use xray_checker_modify.Diagnostics.Check.{unknown_job, invalid_transition, Check, ◌>>◌, fail_if}
use xray_checker_modify.Diagnostics.Session.{derive_session_state, with_state}
use xray_checker_modify.Diagnostics.Manager.{
  Manager, FoundJob, store_session, store_job, find_job, expire, active_session_error,
}

-- MarkJobDispatched and MarkJobRunning: transitionJob, for the two states that they pass.
pub data Mark : Type 0 where
  dispatched running : Mark

abbrev pub mark_state : Mark → JobState
mark_state dispatched = JobState.dispatched
mark_state running = JobState.running

abbrev pub may_mark : Mark → JobState → Bool
may_mark dispatched JobState.pending = true
may_mark running JobState.pending = true
may_mark running JobState.dispatched = true
may_mark _ _ = false

abbrev pub put_job : Time → FoundJob → DiagnosticJob → DiagnosticSession
put_job now f j =
    derive_session_state (record f.session { jobs = store_job f.session.jobs f.index j }) now

abbrev pub mark_refusal : Mark → FoundJob → Check
mark_refusal mark f = do
  active_session_error f.session.state
  fail_if (not (may_mark mark f.job.state)) invalid_transition

abbrev pub mark_found : Mark → Time → Manager → Option FoundJob → Manager × Check
mark_found mark now m none = (m, some unknown_job)
mark_found mark now m (some f) = elim (mark_refusal mark f) [
  | some e ↦ (m, some e)
  | none ↦ (
    record m {
      sessions = store_session (put_job now f (with_state (mark_state mark) f.job)) m.sessions;
    },
    none,
  )
]

unfoldable pub transition_job : Mark → Time → Text → Manager → Manager × Check
transition_job mark now id m =
    let expired = expire now m in mark_found mark now expired (find_job expired (trim_space id))
