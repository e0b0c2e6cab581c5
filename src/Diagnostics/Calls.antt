-- ===== src/Diagnostics/Calls.antt =====
-- diagnostics/manager.go: the calls of a manager in the order in which its lock admits them, each
-- with what it reads of the clock and of NewID.
pub mod Invariant
pub mod Frozen
pub mod Replay
pub mod Nonces
use xray_checker_modify.Base.{Bool, true, false, Option, List, [], ◌∷◌, Text}
use xray_checker_modify.Diagnostics.Types.{
  Time, Observation, CreateSessionRequest, RegisterJobRequest,
}
use xray_checker_modify.Diagnostics.Manager.{ManagerConfig, Manager}
use xray_checker_modify.Diagnostics.Operations.{
  create_session, register_job, transition_job, Mark, accept_observation, delete_session,
  delete_sessions, cancel_session, session,
}

pub data Call : Type 0 where
  create : Time → Option Text → CreateSessionRequest → Call
  register : Time → Option Text → Option Text → RegisterJobRequest → Call
  mark : Mark → Time → Text → Call
  accept : Time → Observation → Call
  cancel : Time → Text → Call
  look : Time → Text → Call
  remove : Text → Call
  remove_all : Text → Call

module _ (verify : Observation → Bool) (cfg : ManagerConfig) where
  unfoldable pub step : Call → Manager → Manager
  step (create now id r) m = (create_session cfg now id r m).0
  step (register now id nonce r) m = (register_job now id nonce r m).0
  step (mark to now id) m = (transition_job to now id m).0
  step (accept now o) m = (accept_observation verify cfg now o m).0
  step (cancel now id) m = (cancel_session now id m).0
  step (look now id) m = (session now id m).0
  step (remove id) m = (delete_session id m).0
  step (remove_all stable) m = (delete_sessions stable m).0

  unfoldable pub run : List Call → Manager → Manager
  unfolding step
  run [] m = m
  run (c ∷ cs) m = run cs (step c m)
