-- ===== src/Diagnostics/Lemmas/SessionOk.antt =====
-- The invariant of one session, and its proof for deriveSessionStateLocked and expiry.
use xray_checker_modify.Base.{
  Bool, ℕ, ◌≤◌, ◌<◌, true, false, not, ◌&&◌, ◌||◌, map, ◌≡◌, refl, sym, ◌∙◌, ltb, ◌==◌, length, any,
  if◌then◌else◌, arith, distinct, AllIn, distinct-length, Bool-cases, inl, inr,
}
use xray_checker_modify.Diagnostics.Types.{
  Time, SessionState, session_terminal, job_terminal, DiagnosticSession,
}
use xray_checker_modify.Diagnostics.Session.{
  is_completed, is_running, is_cancelled, count_jobs, end_job, expire_job, derive_session_state,
  expire_session,
}
use xray_checker_modify.Diagnostics.Lemmas.Counts.{
  job_agents, length-job_agents, completed-le-terminal, terminal-le-length, length-map, agents-end,
  completed-end, agents-expire, completed-expire, terminal-end,
}

-- What the state says of the number of answers and of the number of agents asked.
abbrev pub Settled : SessionState → ℕ → ℕ → Type 0
Settled SessionState.completed answers agents = answers ≡ agents
Settled SessionState.partial answers agents = (0 < answers) × (answers < agents)
Settled SessionState.expired answers agents = answers ≡ 0
Settled _ answers agents = Unit

-- The jobs are for different agents, all of them asked for, and each completed job has its
-- observation.
pub record IsBound (s : DiagnosticSession) : Type 0 where
  pub asked : 0 < length s.requested_agents
  pub different : distinct (job_agents s.jobs) ≡ true
  pub requested : AllIn (job_agents s.jobs) s.requested_agents
  pub answered : count_jobs is_completed s.jobs ≡ length s.agent_observations

-- Besides, a session that has ended has no open job, its state tells how it ended, and one that has not
-- still lacks an answer.
pub record SessionOk (s : DiagnosticSession) : Type 0 where
  pub bound : IsBound s
  pub closed : session_terminal s.state ≡ true → count_jobs job_terminal s.jobs ≡ length s.jobs
  pub settled : Settled s.state (count_jobs is_completed s.jobs) (length s.requested_agents)
  pub lacking :
      session_terminal s.state ≡ false → count_jobs is_completed s.jobs < length s.requested_agents

pub jobs-le-agents : (s : DiagnosticSession) → IsBound s → length s.jobs ≤ length s.requested_agents
jobs-le-agents s b =
    rw (← length-job_agents s.jobs)
      (distinct-length (job_agents s.jobs) s.requested_agents b.different b.requested)

pub IsBound-state :
    (s : DiagnosticSession) (st : SessionState) → IsBound s → IsBound (record s { state = st })
IsBound-state s st b = record {
  asked = b.asked;
  different = b.different;
  requested = b.requested;
  answered = b.answered;
}

ended-Settled :
    (answers agents : ℕ)
    → answers ≤ agents
    → (ltb 0 agents && answers == agents) ≡ false
    → 0 < agents
    → Settled (if ltb 0 answers then SessionState.partial else SessionState.expired) answers agents
ended-Settled answers agents le h pos = elim (Bool-cases (ltb 0 answers)) [
  | inl e ↦ rw e (ground arith)
  | inr e ↦ rw e (ground arith)
]

ended_terminal :
    (b : Bool)
    → session_terminal (if b then SessionState.partial else SessionState.expired) ≡ false
    → ⊥
unfolding session_terminal
ended_terminal b h = ground arith

module _ (s : DiagnosticSession) (now : Time) (b : IsBound s) where
  completed-le-agents : count_jobs is_completed s.jobs ≤ length s.requested_agents
  completed-le-agents =
      omega (arith, completed-le-terminal s.jobs, terminal-le-length s.jobs, jobs-le-agents s b)

  ended : IsBound (record s { jobs = map end_job s.jobs })
  ended = record {
    asked = b.asked;
    different = rw (agents-end s.jobs) b.different;
    requested = rw (agents-end s.jobs) b.requested;
    answered = completed-end s.jobs ∙ b.answered;
  }

  all_closed :
      (ltb 0 (length s.requested_agents)
          && count_jobs is_completed s.jobs == length s.requested_agents)
        ≡ true
      → count_jobs job_terminal s.jobs ≡ length s.jobs
  all_closed h =
      ground (arith, completed-le-terminal s.jobs, terminal-le-length s.jobs, jobs-le-agents s b)

  not_all :
      (ltb 0 (length s.requested_agents)
          && count_jobs is_completed s.jobs == length s.requested_agents)
        ≡ false
      → count_jobs is_completed s.jobs < length s.requested_agents
  not_all h = ground (arith, h, b.asked, completed-le-agents)

  open_session :
      (st : SessionState)
      → count_jobs is_completed s.jobs < length s.requested_agents
      → session_terminal st ≡ false
      → ((n m : ℕ) → Settled st n m)
      → SessionOk (record s { state = st })
  open_session st few o any_numbers = record {
    bound = IsBound-state s st b;
    closed = λ t. ground arith;
    settled = any_numbers _ _;
    lacking = λ _. few;
  }

  pub derive-SessionOk : is_cancelled s.state ≡ false → SessionOk (derive_session_state s now)
  unfolding derive_session_state session_terminal
  derive-SessionOk c =
      let agents = length s.requested_agents in
      let completed = count_jobs is_completed s.jobs in
      let all_terminal =
        length s.jobs == agents && count_jobs job_terminal s.jobs == length s.jobs in
      elim (Bool-cases (ltb 0 agents && completed == agents)) [
        | inl h ↦
            rw (c, h)
              (record {
                bound = IsBound-state s SessionState.completed b;
                closed = λ _. all_closed h;
                settled = ground arith;
                lacking = λ o. ground arith;
              })
        | inr h ↦ elim (Bool-cases (not (ltb now s.expires_at) || all_terminal)) [
          | inl d ↦
              rw (c, h, d)
                (record {
                  bound = IsBound-state (record s { jobs = map end_job s.jobs }) _ ended;
                  closed = λ _. terminal-end s.jobs ∙ sym (length-map end_job s.jobs);
                  settled =
                      rw (completed-end s.jobs)
                        (ended-Settled completed agents completed-le-agents h b.asked);
                  lacking = λ o. absurd (ended_terminal (ltb 0 completed) o);
                })
          | inr d ↦ elim (Bool-cases (any (λ j. is_running j.state) s.jobs || ltb 0 completed)) [
            | inl r ↦
                rw (c, h, d, r) (open_session SessionState.running (not_all h) refl (λ n m. tt))
            | inr r ↦ elim (Bool-cases (ltb 0 (length s.jobs))) [
              | inl l ↦
                  rw (c, h, d, r, l)
                    (open_session SessionState.dispatching (not_all h) refl (λ n m. tt))
              | inr l ↦
                  rw (c, h, d, r, l)
                    (open_session SessionState.requested (not_all h) refl (λ n m. tt))
            ]
          ]
        ]
      ]

expire-IsBound :
    (s : DiagnosticSession) (now : Time)
    → IsBound s
    → IsBound (record s { jobs = map (expire_job now) s.jobs })
expire-IsBound s now b = record {
  asked = b.asked;
  different = rw (agents-expire now s.jobs) b.different;
  requested = rw (agents-expire now s.jobs) b.requested;
  answered = completed-expire now s.jobs ∙ b.answered;
}

terminal_cancelled : (st : SessionState) → session_terminal st ≡ false → is_cancelled st ≡ false
unfolding session_terminal
terminal_cancelled st h = ground arith

pub expire-SessionOk :
    (now : Time) (s : DiagnosticSession) → SessionOk s → SessionOk (expire_session now s)
unfolding expire_session
expire-SessionOk now s o = elim (Bool-cases (session_terminal s.state)) [
  | inl h ↦ rw h o
  | inr h ↦ rw h (
      derive-SessionOk (record s { jobs = map (expire_job now) s.jobs }) now
        (expire-IsBound s now o.bound) (terminal_cancelled s.state h))
]
