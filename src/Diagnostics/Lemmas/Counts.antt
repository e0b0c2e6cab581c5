-- ===== src/Diagnostics/Lemmas/Counts.antt =====
-- Counts of a session's jobs, and what rewriting their states leaves.
use xray_checker_modify.Base.{
  ℕ, zero, suc, ◌+◌, ◌≤◌, Bool, some, List, [], ◌∷◌, ◌++◌, map, ◌≡◌, refl, ap, ap₂, Text, length,
  if◌then◌else◌, arith,
}
use xray_checker_modify.Diagnostics.Types.{Time, JobState, job_terminal, DiagnosticJob}
use xray_checker_modify.Diagnostics.Session.{is_completed, count_jobs, end_job, expire_job}
use xray_checker_modify.Diagnostics.Operations.{cancel_job}
use xray_checker_modify.Diagnostics.Manager.{job_at, store_job}

abbrev pub job_agents : List DiagnosticJob → List Text
job_agents [] = []
job_agents (j ∷ js) = j.agent_id ∷ job_agents js

pub length-job_agents : (js : List DiagnosticJob) → length (job_agents js) ≡ length js
length-job_agents [] = refl
length-job_agents (j ∷ js) = ap suc (length-job_agents js)

pub job_agents-append :
    (js : List DiagnosticJob) (k : DiagnosticJob)
    → job_agents (js ++ k ∷ []) ≡ job_agents js ++ k.agent_id ∷ []
job_agents-append [] k = refl
job_agents-append (j ∷ js) k = ap (λ (t : List Text). j.agent_id ∷ t) (job_agents-append js k)

pub count-append :
    (p : JobState → Bool) (js : List DiagnosticJob) (k : DiagnosticJob)
    → count_jobs p (js ++ k ∷ []) ≡ count_jobs p js + (if p k.state then 1 else 0)
count-append p [] k = omega arith
count-append p (j ∷ js) k = omega (arith, count-append p js k)

pub completed-le-terminal :
    (js : List DiagnosticJob) → count_jobs is_completed js ≤ count_jobs job_terminal js
unfolding job_terminal
completed-le-terminal [] = omega arith
completed-le-terminal (j ∷ js) = ground (arith, completed-le-terminal js)

pub terminal-le-length : (js : List DiagnosticJob) → count_jobs job_terminal js ≤ length js
terminal-le-length [] = omega arith
terminal-le-length (j ∷ js) = ground (arith, terminal-le-length js)

-- A change of the jobs' states that leaves those that are terminal.
record Keeps (f : DiagnosticJob → DiagnosticJob) : Type 0 where
  agent : (j : DiagnosticJob) → (f j).agent_id ≡ j.agent_id
  completion : (j : DiagnosticJob) → is_completed (f j).state ≡ is_completed j.state

module _ (f : DiagnosticJob → DiagnosticJob) (k : Keeps f) where
  agents-map : (js : List DiagnosticJob) → job_agents (map f js) ≡ job_agents js
  agents-map [] = refl
  agents-map (j ∷ js) = ap₂ ◌∷◌ (k.agent j) (agents-map js)

  completed-map :
      (js : List DiagnosticJob) → count_jobs is_completed (map f js) ≡ count_jobs is_completed js
  completed-map [] = refl
  completed-map (j ∷ js) = rw (k.completion j, completed-map js)

end_job-Keeps : Keeps end_job
unfolding job_terminal
end_job-Keeps = record { agent = λ j. ground arith; completion = λ j. ground arith }

expire_job-Keeps : (now : Time) → Keeps (expire_job now)
unfolding job_terminal
expire_job-Keeps now = record { agent = λ j. ground arith; completion = λ j. ground arith }

cancel_job-Keeps : Keeps cancel_job
unfolding job_terminal
cancel_job-Keeps = record { agent = λ j. ground arith; completion = λ j. ground arith }

pub length-map {ℓ κ} :
    {A : Type ℓ} {B : Type κ} (f : A → B) (xs : List A) → length (map f xs) ≡ length xs
length-map f [] = refl
length-map f (x ∷ xs) = ap suc (length-map f xs)

pub agents-end : (js : List DiagnosticJob) → job_agents (map end_job js) ≡ job_agents js
agents-end = agents-map end_job end_job-Keeps

pub completed-end :
    (js : List DiagnosticJob)
    → count_jobs is_completed (map end_job js) ≡ count_jobs is_completed js
completed-end = completed-map end_job end_job-Keeps

pub agents-expire :
    (now : Time) (js : List DiagnosticJob) → job_agents (map (expire_job now) js) ≡ job_agents js
agents-expire now = agents-map (expire_job now) (expire_job-Keeps now)

pub completed-expire :
    (now : Time) (js : List DiagnosticJob)
    → count_jobs is_completed (map (expire_job now) js) ≡ count_jobs is_completed js
completed-expire now = completed-map (expire_job now) (expire_job-Keeps now)

pub terminal-end : (js : List DiagnosticJob) → count_jobs job_terminal (map end_job js) ≡ length js
unfolding job_terminal
terminal-end [] = refl
terminal-end (j ∷ js) = ground (arith, terminal-end js)

pub agents-store :
    (js : List DiagnosticJob) (i : ℕ) (j k : DiagnosticJob)
    → job_at js i ≡ some j
    → k.agent_id ≡ j.agent_id
    → job_agents (store_job js i k) ≡ job_agents js
unfolding job_at store_job
agents-store [] i j k h e = refl
agents-store (x ∷ js) zero j k h e = ground arith
agents-store (x ∷ js) (suc i) j k h e =
    ap (λ (t : List Text). x.agent_id ∷ t) (agents-store js i j k h e)

pub length-store :
    (js : List DiagnosticJob) (i : ℕ) (k : DiagnosticJob) → length (store_job js i k) ≡ length js
unfolding store_job
length-store [] i k = refl
length-store (x ∷ js) zero k = refl
length-store (x ∷ js) (suc i) k = ap suc (length-store js i k)

pub count-store :
    (p : JobState → Bool) (js : List DiagnosticJob) (i : ℕ) (j k : DiagnosticJob)
    → job_at js i ≡ some j
    → count_jobs p (store_job js i k) + (if p j.state then 1 else 0)
      ≡ count_jobs p js + (if p k.state then 1 else 0)
unfolding job_at store_job
count-store p [] i j k h = ground arith
count-store p (x ∷ js) zero j k h = ground arith
count-store p (x ∷ js) (suc i) j k h = omega (arith, count-store p js i j k h)

pub agents-cancel : (js : List DiagnosticJob) → job_agents (map cancel_job js) ≡ job_agents js
agents-cancel = agents-map cancel_job cancel_job-Keeps

pub completed-cancel :
    (js : List DiagnosticJob)
    → count_jobs is_completed (map cancel_job js) ≡ count_jobs is_completed js
completed-cancel = completed-map cancel_job cancel_job-Keeps

pub terminal-cancel :
    (js : List DiagnosticJob) → count_jobs job_terminal (map cancel_job js) ≡ length js
unfolding job_terminal
terminal-cancel [] = refl
terminal-cancel (j ∷ js) = ground (arith, terminal-cancel js)
