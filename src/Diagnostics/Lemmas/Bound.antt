-- ===== src/Diagnostics/Lemmas/Bound.antt =====
-- The session invariant's first half for a session with one more job, a job in another state, and a
-- job that is answered.
use xray_checker_modify.Base.{
  ℕ, true, false, some, List, [], ◌∷◌, ◌++◌, ◌≡◌, refl, Text, text_eq, any, arith, member,
  distinct-append, all-append, length-append,
}
use xray_checker_modify.Diagnostics.Types.{
  JobState, DiagnosticJob, AcceptedObservation, DiagnosticSession,
}
use xray_checker_modify.Diagnostics.Session.{is_completed, with_state}
use xray_checker_modify.Diagnostics.Manager.{job_at, store_job}
use xray_checker_modify.Diagnostics.Lemmas.Counts.{
  job_agents, job_agents-append, count-append, agents-store, count-store,
}
use xray_checker_modify.Diagnostics.Lemmas.SessionOk.{IsBound}

any-agents :
    (a : Text) (js : List DiagnosticJob)
    → any (λ k. text_eq k.agent_id a) js ≡ false
    → member a (job_agents js) ≡ false
unfolding member
any-agents a [] h = refl
any-agents a (j ∷ js) h = ground (arith, any-agents a js)

-- A job for an agent that was asked for and has none yet.
pub longer-IsBound :
    (s : DiagnosticSession) (j : DiagnosticJob)
    → IsBound s
    → member j.agent_id s.requested_agents ≡ true
    → any (λ k. text_eq k.agent_id j.agent_id) s.jobs ≡ false
    → is_completed j.state ≡ false
    → IsBound (record s { jobs = s.jobs ++ j ∷ [] })
longer-IsBound s j b asked fresh p = record {
  asked = b.asked;
  different = rw (job_agents-append s.jobs j) (
      distinct-append (job_agents s.jobs) j.agent_id b.different
        (any-agents j.agent_id s.jobs fresh));
  requested = rw (job_agents-append s.jobs j) (
      all-append (λ t. member t s.requested_agents) (job_agents s.jobs) j.agent_id b.requested
        asked);
  answered = rw (count-append is_completed s.jobs j, p) (omega (arith, b.answered));
}

-- A job whose state changes but is not completed by it.
pub marked-IsBound :
    (s : DiagnosticSession) (i : ℕ) (j k : DiagnosticJob)
    → IsBound s
    → job_at s.jobs i ≡ some j
    → k.agent_id ≡ j.agent_id
    → is_completed k.state ≡ is_completed j.state
    → IsBound (record s { jobs = store_job s.jobs i k })
marked-IsBound s i j k b h e p = record {
  asked = b.asked;
  different = rw (agents-store s.jobs i j k h e) b.different;
  requested = rw (agents-store s.jobs i j k h e) b.requested;
  answered =
      let counted = rw p at (count-store is_completed s.jobs i j k h) in
      omega (arith, counted, b.answered);
}

-- A job that is completed together with its observation.
pub heard-IsBound :
    (s : DiagnosticSession) (i : ℕ) (j : DiagnosticJob) (a : AcceptedObservation)
    → IsBound s
    → job_at s.jobs i ≡ some j
    → is_completed j.state ≡ false
    → IsBound (record s {
      jobs = store_job s.jobs i (with_state JobState.completed j);
      agent_observations = s.agent_observations ++ a ∷ [];
    })
heard-IsBound s i j a b h p = record {
  asked = b.asked;
  different = rw (agents-store s.jobs i j (with_state JobState.completed j) h refl) b.different;
  requested = rw (agents-store s.jobs i j (with_state JobState.completed j) h refl) b.requested;
  answered =
      let counted =
        rw p at (count-store is_completed s.jobs i j (with_state JobState.completed j) h) in
      omega (arith, counted, b.answered, length-append s.agent_observations (a ∷ []));
}
