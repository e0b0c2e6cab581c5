-- ===== src/Diagnostics/Calls/Replay.antt =====
-- AcceptObservation: what an accepted observation has met, and that its nonce serves once.
use mathlib.Core.Path.{subst}
use xray_checker_modify.Base.{
  ℕ, zero, suc, Bool, true, false, Option, none, some, List, [], ◌∷◌, ◌++◌, map, ◌≡◌, refl, sym, ap,
  ◌∙◌, ◌⊎◌, inl, inr, ◌↔◌, ◌||◌, Option-cases, none-ne-some, some-eq, Text, text_eq, lookup,
  lookup-insert, arith,
}
use xray_checker_modify.Diagnostics.Types.{
  Time, Observation, AcceptedObservation, DiagnosticSession, DiagnosticJob, JobState, job_terminal,
}
use xray_checker_modify.Diagnostics.Check.{Error}
use xray_checker_modify.Diagnostics.Admission.{validate_observation}
use xray_checker_modify.Diagnostics.Session.{derive_session_state, with_state, end_job}
use xray_checker_modify.Diagnostics.Manager.{
  ManagerConfig, Manager, FoundJob, Outcome, ok, err, expire, find_job, find_session, job_at,
  store_job, nonce_key, is_found,
}
use xray_checker_modify.Diagnostics.Operations.{
  accept_observation, accept_found, accept_refusal, accepted, record_of,
}
use xray_checker_modify.Diagnostics.Lemmas.Refusal.{IsAdmitted, accept_refusal-none}
use xray_checker_modify.Diagnostics.Lemmas.Effect.{derive-session_id, derive-observations}
use xray_checker_modify.Diagnostics.Lemmas.Find.{find-store_same, find-store_other}
use xray_checker_modify.Diagnostics.Lemmas.Found.{find_job-IsPlaced, IsPlaced}

-- The job that an accepted observation answers, and what was checked of both.
pub record Acceptance (verify : Observation → Bool) (cfg : ManagerConfig) (now : Time)
    (o : Observation) (m : Manager) : Type 0 where
  pub found : FoundJob
  pub by_id : find_job (expire now m) o.job_id ≡ some found
  pub valid : validate_observation o ≡ none
  pub admitted : IsAdmitted verify cfg now o found (expire now m)
  pub effect :
      accept_observation verify cfg now o m
      ≡ (accepted verify now o found (expire now m), ok (record_of verify now o))

-- What an accepted observation changes: of the session of the job the jobs and the observations, and
-- of the nonces one. The time of acceptance and the connectivity of the agent go with the observation.
pub record IsRecorded (now : Time) (o : Observation) (f : FoundJob) (before after : Manager)
    (a : AcceptedObservation) : Type 0 where
  pub observation : a.observation ≡ o
  pub accepted_at : a.accepted_at ≡ now
  pub reliable :
      (a.reliable ≡ true)
      ↔ ((o.direct_connectivity.checked ≡ true) × (o.direct_connectivity.online ≡ true))
  pub written : DiagnosticSession
  pub stored : find_session f.session.session_id after.sessions ≡ some written
  pub heard : written.agent_observations ≡ f.session.agent_observations ++ a ∷ []
  pub completed : job_at written.jobs f.index ≡ some (record f.job { state = JobState.completed })
  pub others :
      (id : Text)
      → text_eq f.session.session_id id ≡ false
      → find_session id after.sessions ≡ find_session id before.sessions
  pub nonces :
      (k : Text)
      → is_found (lookup k after.used_nonces)
        ≡ (text_eq (nonce_key o.agent_id o.nonce) k || is_found (lookup k before.used_nonces))
  pub reserved : after.reserved_nonces ≡ before.reserved_nonces
  pub jobs : after.jobs ≡ before.jobs

ok-ne-err {ℓ κ} :
    {S : Type κ} {A : Type ℓ} (x : S) (y : S) (a : A) (e : Error)
    → ◌≡◌ {A = S × Outcome A} (x, err e) (y, ok a)
    → ⊥
ok-ne-err x y a e h = cc

module _ (verify : Observation → Bool) (cfg : ManagerConfig) (now : Time) (o : Observation) where
  found-Acceptance :
      (m : Manager) (p : Option FoundJob) (n : Manager) (a : AcceptedObservation)
      → validate_observation o ≡ none
      → find_job (expire now m) o.job_id ≡ p
      → accept_observation verify cfg now o m ≡ accept_found verify cfg now o (expire now m) p
      → accept_found verify cfg now o (expire now m) p ≡ (n, ok a)
      → Acceptance verify cfg now o m
  found-Acceptance m none n a v j same h = absurd (ok-ne-err _ _ _ _ h)
  found-Acceptance m (some f) n a v j same h =
      elim (Option-cases (accept_refusal verify cfg now o f (expire now m))) [
        | inl e ↦ record {
          found = f;
          by_id = j;
          valid = v;
          admitted = accept_refusal-none verify cfg now o f (expire now m) e;
          effect = same ∙ rw (e, accept_found) refl;
        }
        | inr (x, e) ↦ absurd (ok-ne-err _ _ _ _ (rw (e, accept_found) at h))
      ]

  pub accept_observation-found :
      (m n : Manager) (a : AcceptedObservation)
      → accept_observation verify cfg now o m ≡ (n, ok a)
      → Acceptance verify cfg now o m
  unfolding accept_observation
  accept_observation-found m n a h = elim (Option-cases (validate_observation o)) [
    | inl e ↦
        found-Acceptance m (find_job (expire now m) o.job_id) n a e refl
          (rw (e, accept_observation) refl) (rw (e, accept_observation) at h)
    | inr (x, e) ↦ absurd (ok-ne-err _ _ _ _ (rw (e, accept_observation) at h))
  ]

store_job-job_at :
    (js : List DiagnosticJob) (i : ℕ) (j k : DiagnosticJob)
    → job_at js i ≡ some j
    → job_at (store_job js i k) i ≡ some k
unfolding job_at store_job
store_job-job_at [] i j k h = absurd (none-ne-some j h)
store_job-job_at (x ∷ js) zero j k h = refl
store_job-job_at (x ∷ js) (suc i) j k h = store_job-job_at js i j k h

map-job_at :
    (g : DiagnosticJob → DiagnosticJob) (js : List DiagnosticJob) (i : ℕ) (k : DiagnosticJob)
    → job_at js i ≡ some k
    → g k ≡ k
    → job_at (map g js) i ≡ some k
unfolding job_at
map-job_at g [] i k h e = absurd (none-ne-some k h)
map-job_at g (x ∷ js) zero k h e = ap some (ap g (some-eq x k h) ∙ e)
map-job_at g (x ∷ js) (suc i) k h e = map-job_at g js i k h e

derive-jobs :
    (s : DiagnosticSession) (now : Time)
    → ((derive_session_state s now).jobs ≡ s.jobs)
      ⊎ ((derive_session_state s now).jobs ≡ map end_job s.jobs)
unfolding derive_session_state
derive-jobs s now = ground arith

end_job-completed :
    (j : DiagnosticJob)
    → end_job (with_state JobState.completed j) ≡ with_state JobState.completed j
unfolding job_terminal
end_job-completed j = refl

derive-completed :
    (s : DiagnosticSession) (now : Time) (i : ℕ) (j : DiagnosticJob)
    → job_at s.jobs i ≡ some (with_state JobState.completed j)
    → job_at (derive_session_state s now).jobs i ≡ some (with_state JobState.completed j)
derive-completed s now i j h = elim (derive-jobs s now) [
  | inl e ↦ rw e h
  | inr e ↦
      rw e (map-job_at end_job s.jobs i (with_state JobState.completed j) h (end_job-completed j))
]

module _ (verify : Observation → Bool) (now : Time) (o : Observation) (f : FoundJob)
    (m : Manager) where
  accepted-IsRecorded :
      IsPlaced m f → IsRecorded now o f m (accepted verify now o f m) (record_of verify now o)
  accepted-IsRecorded placed =
      let s = f.session in
      let done = with_state JobState.completed f.job in
      let heard = record s {
        jobs = store_job s.jobs f.index done;
        agent_observations = s.agent_observations ++ record_of verify now o ∷ [];
      } in
      let key = nonce_key o.agent_id o.nonce in
      record {
        observation = refl;
        accepted_at = refl;
        reliable = ground arith;
        written = derive_session_state heard now;
        stored =
            find-store_same (derive_session_state heard now) s m.sessions
              (derive-session_id heard now) placed.stored;
        heard = derive-observations heard now;
        completed =
            derive-completed heard now f.index f.job
              (store_job-job_at s.jobs f.index f.job done placed.indexed);
        others = λ id other.
            find-store_other id (derive_session_state heard now) m.sessions
              (ap (λ i. text_eq i id) (derive-session_id heard now) ∙ other);
        nonces = λ k. rw (lookup-insert key k tt m.used_nonces) (ground arith);
        reserved = refl;
        jobs = refl;
      }

or_accepted : AcceptedObservation → Outcome AcceptedObservation → AcceptedObservation
or_accepted d (ok a) = a
or_accepted d (err e) = d

-- An observation that is accepted is well formed, in time, of a valid signature, for a job that is
-- not completed in a session that has not ended, of that job's configuration generation, bound to
-- that job in each of its fields, and of a nonce that is not used. In the state that results the session
-- of the job has the observation last among those accepted, with the time, and that job completed,
-- and the nonce is used; other sessions, the other nonces and the index of the jobs are as they were
-- after the expiry that comes first.
pub accept_observation-Acceptance :
    (verify : Observation → Bool) (cfg : ManagerConfig) (now : Time) (o : Observation)
    (m n : Manager) (a : AcceptedObservation)
    → accept_observation verify cfg now o m ≡ (n, ok a)
    → (q : Acceptance verify cfg now o m) × IsRecorded now o q.found (expire now m) n a
unfolding or_accepted
accept_observation-Acceptance verify cfg now o m n a h =
    let q = accept_observation-found verify cfg now o m n a h in
    let e = sym q.effect ∙ h in
    (
      q,
      subst (λ x. IsRecorded now o q.found (expire now m) n x) (ap (λ p. or_accepted a p.1) e)
          (subst (λ x. IsRecorded now o q.found (expire now m) x (record_of verify now o))
            (ap (λ p. p.0) e)
            (accepted-IsRecorded verify now o q.found (expire now m)
              (find_job-IsPlaced (expire now m) o.job_id q.found q.by_id))),
    )
