-- ===== src/Diagnostics/Lemmas/Effect.antt =====
-- What an operation other than a creation or a deletion does to the sessions: nothing, or it writes
-- one session that has not ended, whose terms stand and which gets so many observations at most.
use xray_checker_modify.Base.{
  ℕ, ◌≤◌, length, append-nil, Bool, true, false, Option, none, some, List, [], ◌∷◌, ◌++◌, ◌≡◌, ◌⊎◌,
  refl, sym, ◌∙◌, Text, if◌then◌else◌, ◌==◌, arith, Bool-cases, Option-cases, inl, inr, trim_space,
}
use xray_checker_modify.Diagnostics.Types.{
  Time, JobState, SessionState, session_terminal, DiagnosticJob, Observation, DiagnosticSession,
  RegisterJobRequest, AcceptedObservation,
}
use xray_checker_modify.Diagnostics.Admission.{validate_observation}
use xray_checker_modify.Diagnostics.Session.{
  is_completed, with_state, derive_session_state, is_cancelled,
}
use xray_checker_modify.Diagnostics.Manager.{
  ManagerConfig, Manager, FoundJob, find_session, store_session, store_job, find_job, expire,
  active_session_error,
}
use xray_checker_modify.Diagnostics.Operations.{
  register_job, transition_job, accept_observation, cancel_session, Mark, cancelled, agent_refusal,
  binding_refusal, request_refusal, mark_refusal, accept_refusal, add_job, new_job, register_named,
  register_ids, register_found, mark_found, accept_found, cancel_found, cancel_job, may_mark,
  mark_state, record_of,
}
use xray_checker_modify.Diagnostics.Lemmas.Counts.{
  agents-cancel, completed-cancel, terminal-cancel, length-map,
}
use xray_checker_modify.Diagnostics.Lemmas.SessionOk.{SessionOk, derive-SessionOk}
use xray_checker_modify.Diagnostics.Lemmas.Bound.{longer-IsBound, marked-IsBound, heard-IsBound}
use xray_checker_modify.Diagnostics.Lemmas.Found.{self-find, find_job-IsPlaced}
use xray_checker_modify.Diagnostics.Lemmas.Refusal.{
  agent_refusal-none, mark_refusal-none, accept_refusal-none,
}

-- What a session is from its creation on: the rest of it begins empty.
abbrev pub terms : DiagnosticSession → DiagnosticSession
terms s = record s { jobs = []; agent_observations = []; state = SessionState.requested }

pub data Effect (most : ℕ) (ss : List DiagnosticSession) : List DiagnosticSession → Type 0 where
  kept : Effect most ss ss
  wrote :
      (t u : DiagnosticSession)
      → find_session t.session_id ss ≡ some t
      → session_terminal t.state ≡ false
      → u.session_id ≡ t.session_id
      → (SessionOk t → SessionOk u)
      → terms u ≡ terms t
      → (new : List AcceptedObservation) → length new ≤ most
      → u.agent_observations ≡ t.agent_observations ++ new
      → Effect most ss (store_session u ss)

pub active-open : (st : SessionState) → active_session_error st ≡ none → session_terminal st ≡ false
unfolding active_session_error session_terminal
active-open st h = ground arith

pub open-cancelled : (st : SessionState) → session_terminal st ≡ false → is_cancelled st ≡ false
unfolding session_terminal
open-cancelled st h = ground arith

pub derive-session_id :
    (s : DiagnosticSession) (now : Time) → (derive_session_state s now).session_id ≡ s.session_id
unfolding derive_session_state
derive-session_id s now = ground arith

pub derive-terms :
    (s : DiagnosticSession) (now : Time) → terms (derive_session_state s now) ≡ terms s
unfolding derive_session_state
derive-terms s now = ground arith

pub derive-observations :
    (s : DiagnosticSession) (now : Time)
    → (derive_session_state s now).agent_observations ≡ s.agent_observations
unfolding derive_session_state
derive-observations s now = ground arith

same_observations :
    (s t : DiagnosticSession)
    → s.agent_observations ≡ t.agent_observations
    → s.agent_observations ≡ t.agent_observations ++ []
same_observations s t h = h ∙ sym (append-nil t.agent_observations)

cancelled_terminal : session_terminal SessionState.cancelled ≡ false → ⊥
unfolding session_terminal
cancelled_terminal h = ground arith

cancelled-SessionOk : (s : DiagnosticSession) → SessionOk s → SessionOk (cancelled s)
cancelled-SessionOk s o = record {
  bound = record {
    asked = o.bound.asked;
    different = rw (agents-cancel s.jobs) o.bound.different;
    requested = rw (agents-cancel s.jobs) o.bound.requested;
    answered = completed-cancel s.jobs ∙ o.bound.answered;
  };
  closed = λ _. terminal-cancel s.jobs ∙ sym (length-map cancel_job s.jobs);
  settled = tt;
  lacking = λ h. absurd (cancelled_terminal h);
}

-- RegisterJob, from the inside out.
module _ (now : Time) (j : DiagnosticJob) (s : DiagnosticSession) (m : Manager) where
  add_job-Effect :
      find_session s.session_id m.sessions ≡ some s
      → agent_refusal j.agent_id s ≡ none
      → is_completed j.state ≡ false
      → Effect 0 m.sessions (add_job now j s m).0.sessions
  add_job-Effect found passed p =
      let q = agent_refusal-none j.agent_id s passed in
      let longer = record s { jobs = s.jobs ++ j ∷ [] } in
      wrote s (derive_session_state longer now) found (active-open s.state q.0)
        (derive-session_id longer now)
        (λ o.
          derive-SessionOk longer now (longer-IsBound s j o.bound q.1 q.2 p)
            (open-cancelled s.state (active-open s.state q.0)))
        (derive-terms longer now) [] (omega arith)
        (same_observations (derive_session_state longer now) s (derive-observations longer now))

module _ (now : Time) (r : RegisterJobRequest) where
  register_named-Effect :
      (id nonce : Text) (s : DiagnosticSession) (m : Manager)
      → find_session s.session_id m.sessions ≡ some s
      → agent_refusal r.agent_id s ≡ none
      → Effect 0 m.sessions (register_named now r id nonce s m).0.sessions
  register_named-Effect id nonce s m found passed =
      let expires = if r.expires_at == 0 then s.expires_at else r.expires_at in
      elim (Option-cases (binding_refusal now r expires id nonce s m)) [
        | inl e ↦
            rw (e, register_named)
              (add_job-Effect now (new_job now id nonce expires r.agent_id r.profile s) s m found
                passed refl)
        | inr (x, e) ↦ rw (e, register_named) kept
      ]

  register_ids-Effect :
      (id nonce : Option Text) (s : DiagnosticSession) (m : Manager)
      → find_session s.session_id m.sessions ≡ some s
      → agent_refusal r.agent_id s ≡ none
      → Effect 0 m.sessions (register_ids now r id nonce s m).0.sessions
  register_ids-Effect (some id) (some fresh) s m found passed =
      register_named-Effect id fresh s m found passed
  register_ids-Effect (some id) none s m found passed = kept
  register_ids-Effect none fresh s m found passed = kept

  register_found-Effect :
      (id nonce : Option Text) (key : Text) (m : Manager) (o : Option DiagnosticSession)
      → find_session key m.sessions ≡ o
      → Effect 0 m.sessions (register_found now r id nonce o m).0.sessions
  register_found-Effect id fresh key m none found = kept
  register_found-Effect id fresh key m (some s) found =
      elim (Option-cases (agent_refusal r.agent_id s)) [
        | inl e ↦
            rw (e, register_found)
              (register_ids-Effect id fresh s m (self-find key s m.sessions found) e)
        | inr (x, e) ↦ rw (e, register_found) kept
      ]

pub register_job-Effect :
    (now : Time) (id nonce : Option Text) (r : RegisterJobRequest) (m : Manager)
    → (register_job now id nonce r m ≡ (m, (register_job now id nonce r m).1))
      ⊎ Effect 0 (expire now m).sessions (register_job now id nonce r m).0.sessions
unfolding register_job
register_job-Effect now id fresh r m =
    let t = record r { session_id = trim_space r.session_id; agent_id = trim_space r.agent_id } in
    elim (Option-cases (request_refusal t)) [
      | inl e ↦ inr (
          rw (e, register_job)
            (register_found-Effect now t id fresh t.session_id (expire now m) _ refl))
      | inr (x, e) ↦ inl (rw (e, register_job) refl)
    ]

-- MarkJobDispatched and MarkJobRunning.
marking :
    (mark : Mark) (st : JobState)
    → may_mark mark st ≡ true
    → is_completed (mark_state mark) ≡ is_completed st
marking mark st h = ground arith

mark_found-Effect :
    (mark : Mark) (now : Time) (id : Text) (m : Manager) (o : Option FoundJob)
    → find_job m id ≡ o
    → Effect 0 m.sessions (mark_found mark now m o).0.sessions
mark_found-Effect mark now id m none h = kept
mark_found-Effect mark now id m (some f) h = elim (Option-cases (mark_refusal mark f)) [
  | inl e ↦
      let q = mark_refusal-none mark f e in
      let placed = find_job-IsPlaced m id f h in
      let s = f.session in
      let k = with_state (mark_state mark) f.job in
      let changed = record s { jobs = store_job s.jobs f.index k } in
      rw (e, mark_found)
        (wrote s (derive_session_state changed now) placed.stored (active-open s.state q.0)
          (derive-session_id changed now)
          (λ o.
            derive-SessionOk changed now
              (marked-IsBound s f.index f.job k o.bound placed.indexed refl
                (marking mark f.job.state q.1))
              (open-cancelled s.state (active-open s.state q.0)))
          (derive-terms changed now) [] (omega arith)
          (same_observations (derive_session_state changed now) s
            (derive-observations changed now)))
  | inr (x, e) ↦ rw (e, mark_found) kept
]

pub transition_job-Effect :
    (mark : Mark) (now : Time) (id : Text) (m : Manager)
    → Effect 0 (expire now m).sessions (transition_job mark now id m).0.sessions
unfolding transition_job
transition_job-Effect mark now id m =
    mark_found-Effect mark now (trim_space id) (expire now m) _ refl

-- AcceptObservation.
module _ (verify : Observation → Bool) (cfg : ManagerConfig) (now : Time) (o : Observation) where
  accept_found-Effect :
      (id : Text) (m : Manager) (p : Option FoundJob)
      → find_job m id ≡ p
      → Effect 1 m.sessions (accept_found verify cfg now o m p).0.sessions
  accept_found-Effect id m none h = kept
  accept_found-Effect id m (some f) h = elim (Option-cases (accept_refusal verify cfg now o f m)) [
    | inl e ↦
        let q = accept_refusal-none verify cfg now o f m e in
        let placed = find_job-IsPlaced m id f h in
        let s = f.session in
        let heard = record s {
          jobs = store_job s.jobs f.index (with_state JobState.completed f.job);
          agent_observations = s.agent_observations ++ record_of verify now o ∷ [];
        } in
        rw (e, accept_found)
          (wrote s (derive_session_state heard now) placed.stored (active-open s.state q.active)
            (derive-session_id heard now)
            (λ k.
              derive-SessionOk heard now
                (heard-IsBound s f.index f.job (record_of verify now o) k.bound placed.indexed
                  q.unanswered)
                (open-cancelled s.state (active-open s.state q.active)))
            (derive-terms heard now) (record_of verify now o ∷ []) (omega arith)
            (derive-observations heard now))
    | inr (x, e) ↦ rw (e, accept_found) kept
  ]

  pub accept_observation-Effect :
      (m : Manager)
      → (accept_observation verify cfg now o m ≡ (m, (accept_observation verify cfg now o m).1))
        ⊎ Effect 1 (expire now m).sessions (accept_observation verify cfg now o m).0.sessions
  unfolding accept_observation
  accept_observation-Effect m = elim (Option-cases (validate_observation o)) [
    | inl e ↦ inr (rw (e, accept_observation) (accept_found-Effect o.job_id (expire now m) _ refl))
    | inr (x, e) ↦ inl (rw (e, accept_observation) refl)
  ]

-- CancelSession.
cancel_found-Effect :
    (key : Text) (m : Manager) (o : Option DiagnosticSession)
    → find_session key m.sessions ≡ o
    → Effect 0 m.sessions (cancel_found m o).0.sessions
cancel_found-Effect key m none h = kept
cancel_found-Effect key m (some s) h = elim (Bool-cases (session_terminal s.state)) [
  | inl e ↦ rw e kept
  | inr e ↦ rw e (
      wrote s (cancelled s) (self-find key s m.sessions h) e refl (cancelled-SessionOk s) refl []
        (omega arith) (same_observations (cancelled s) s refl))
]

pub cancel_session-Effect :
    (now : Time) (id : Text) (m : Manager)
    → Effect 0 (expire now m).sessions (cancel_session now id m).0.sessions
unfolding cancel_session
cancel_session-Effect now id m = cancel_found-Effect (trim_space id) (expire now m) _ refl
