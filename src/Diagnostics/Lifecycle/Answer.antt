-- ===== src/Diagnostics/Lifecycle/Answer.antt =====
-- AcceptObservation: what an accepted observation brings its session to.
use mathlib.Core.Path.{subst}
use xray_checker_modify.Base.{
  ◌+◌, ◌<◌, Bool, true, false, some, [], ◌∷◌, ◌++◌, ◌≡◌, ◌⊎◌, sym, ap, ◌∙◌, length, arith, inl, inr,
  ◌==◌, Bool-cases, some-eq,
}
use xray_checker_modify.Diagnostics.Types.{
  Time, Observation, AcceptedObservation, JobState, SessionState, session_terminal,
  DiagnosticSession,
}
use xray_checker_modify.Diagnostics.Session.{
  derive_session_state, count_jobs, is_completed, with_state, is_cancelled,
}
use xray_checker_modify.Diagnostics.Manager.{
  ManagerConfig, Manager, FoundJob, ok, expire, find_job, find_session, store_job,
}
use xray_checker_modify.Diagnostics.Operations.{accept_observation, accepted, record_of}
use xray_checker_modify.Diagnostics.Calls.Replay.{accept_observation-found}
use xray_checker_modify.Diagnostics.Lemmas.Counts.{count-store}
use xray_checker_modify.Diagnostics.Lemmas.Effect.{
  derive-session_id, derive-observations, active-open, open-cancelled,
}
use xray_checker_modify.Diagnostics.Lemmas.Find.{find-store_same}
use xray_checker_modify.Diagnostics.Lemmas.Found.{IsPlaced, find_job-IsPlaced}

-- What an answer brings a session to, if it is the last that was missing and if it is not.
abbrev pub Reached : Bool → SessionState → Type 0
Reached true st = st ≡ SessionState.completed
Reached false st = (st ≡ SessionState.partial) ⊎ (st ≡ SessionState.running)

derive-Reached :
    (s : DiagnosticSession) (now : Time)
    → is_cancelled s.state ≡ false
    → 0 < count_jobs is_completed s.jobs
    → Reached
        (count_jobs is_completed s.jobs == length s.requested_agents)
        (derive_session_state s now).state
unfolding derive_session_state
derive-Reached s now live some_done =
    elim (Bool-cases (count_jobs is_completed s.jobs == length s.requested_agents)) [
      | inl e ↦ rw e (ground (arith, live, some_done, e))
      | inr e ↦ rw e (ground (arith, live, some_done, e))
    ]

-- What an accepted observation leaves of the session of its job.
pub record IsAnswered (verify : Observation → Bool) (now : Time) (o : Observation) (f : FoundJob)
    (n : Manager) : Type 0 where
  pub after : DiagnosticSession
  pub stored : find_session f.session.session_id n.sessions ≡ some after
  pub heard : after.agent_observations ≡ f.session.agent_observations ++ record_of verify now o ∷ []
  pub reached :
      Reached
        (count_jobs is_completed f.session.jobs + 1 == length f.session.requested_agents)
        after.state

accepted-IsAnswered :
    (verify : Observation → Bool) (now : Time) (o : Observation) (f : FoundJob) (m : Manager)
    → IsPlaced m f
    → is_completed f.job.state ≡ false
    → session_terminal f.session.state ≡ false
    → IsAnswered verify now o f (accepted verify now o f m)
accepted-IsAnswered verify now o f m placed unanswered live =
    let s = f.session in
    let done = with_state JobState.completed f.job in
    let heard = record s {
      jobs = store_job s.jobs f.index done;
      agent_observations = s.agent_observations ++ record_of verify now o ∷ [];
    } in
    let counted = count-store is_completed s.jobs f.index f.job done placed.indexed in
    let one_more : count_jobs is_completed heard.jobs ≡ count_jobs is_completed s.jobs + 1 =
      omega (arith, rw unanswered at counted) in
    record {
      after = derive_session_state heard now;
      stored =
          find-store_same (derive_session_state heard now) s m.sessions
            (derive-session_id heard now) placed.stored;
      heard = derive-observations heard now;
      reached =
          subst
            (λ k. Reached (k == length s.requested_agents) (derive_session_state heard now).state)
            one_more
            (derive-Reached heard now (open-cancelled s.state live) (omega (arith, one_more)));
    }

-- An accepted observation is added to those of the session of its job. If with it every agent that
-- was asked has answered, then the session is completed, and otherwise it is running or partial.
pub accept_observation-IsAnswered :
    (verify : Observation → Bool) (cfg : ManagerConfig) (now : Time) (o : Observation)
    (m n : Manager) (a : AcceptedObservation) (f : FoundJob)
    → accept_observation verify cfg now o m ≡ (n, ok a)
    → find_job (expire now m) o.job_id ≡ some f
    → IsAnswered verify now o f n
accept_observation-IsAnswered verify cfg now o m n a f h j =
    let q = accept_observation-found verify cfg now o m n a h in
    subst (λ g. IsAnswered verify now o g n) (some-eq q.found f (sym q.by_id ∙ j))
      (subst (IsAnswered verify now o q.found) (ap (λ p. p.0) (sym q.effect ∙ h)) (
        accepted-IsAnswered verify now o q.found (expire now m)
          (find_job-IsPlaced (expire now m) o.job_id q.found q.by_id) q.admitted.unanswered
          (active-open q.found.session.state q.admitted.active)))
