-- ===== src/Diagnostics/Lemmas/Found.antt =====
-- Where a job that jobLocked finds stands.
use mathlib.Core.Path.{subst}
use xray_checker_modify.Base.{
  ℕ, Option, none, some, List, ◌≡◌, refl, sym, Text, lookup, Option-cases, inl, inr, none-ne-some,
  some-eq,
}
use xray_checker_modify.Diagnostics.Types.{DiagnosticSession}
use xray_checker_modify.Diagnostics.Manager.{
  JobReference, Manager, FoundJob, find_session, job_at, found_at, found_by, find_job,
}
use xray_checker_modify.Diagnostics.Lemmas.Find.{find-session_id}

-- The session is the one of its ID, and the job stands at the index.
pub record IsPlaced (m : Manager) (f : FoundJob) : Type 0 where
  pub stored : find_session f.session.session_id m.sessions ≡ some f.session
  pub indexed : job_at f.session.jobs f.index ≡ some f.job

pub self-find :
    (id : Text) (s : DiagnosticSession) (ss : List DiagnosticSession)
    → find_session id ss ≡ some s
    → find_session s.session_id ss ≡ some s
self-find id s ss h = subst (λ i. find_session i ss ≡ some s) (sym (find-session_id id ss h)) h

found_at-IsPlaced :
    (m : Manager) (id : Text) (o : Option DiagnosticSession) (i : ℕ) (f : FoundJob)
    → find_session id m.sessions ≡ o
    → found_at o i ≡ some f
    → IsPlaced m f
found_at-IsPlaced m id none i f h e = absurd (none-ne-some f e)
found_at-IsPlaced m id (some s) i f h e = elim (Option-cases (job_at s.jobs i)) [
  | inl n ↦ absurd (none-ne-some f (rw (n, found_at) at e))
  | inr (j, k) ↦
      subst (IsPlaced m) (some-eq _ f (rw (k, found_at) at e))
        (record { stored = self-find id s m.sessions h; indexed = k })
]

found_by-IsPlaced :
    (m : Manager) (o : Option JobReference) (f : FoundJob) → found_by m o ≡ some f → IsPlaced m f
found_by-IsPlaced m none f e = absurd (none-ne-some f e)
found_by-IsPlaced m (some r) f e =
    found_at-IsPlaced m r.session_id (find_session r.session_id m.sessions) r.index f refl e

pub find_job-IsPlaced :
    (m : Manager) (id : Text) (f : FoundJob) → find_job m id ≡ some f → IsPlaced m f
unfolding find_job
find_job-IsPlaced m id f e = found_by-IsPlaced m (lookup id m.jobs) f e
