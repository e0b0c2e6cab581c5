-- ===== src/Diagnostics/Calls/Nonces.antt =====
-- The used nonces under the calls that remove no session, and the refusal of a replay.
use mathlib.Core.Path.{subst}
use xray_checker_modify.Base.{
  Bool, true, false, Option, List, [], ◌∷◌, ◌≡◌, ◌≢◌, refl, sym, ap, ◌∙◌, Text, text_eq_refl, arith,
  All, lookup, insert, lookup-insert,
}
use xray_checker_modify.Diagnostics.Types.{
  Time, Observation, AcceptedObservation, RegisterJobRequest,
}
use xray_checker_modify.Diagnostics.Manager.{ManagerConfig, Manager, ok, nonce_key, expire}
use xray_checker_modify.Diagnostics.Operations.{
  accept_observation, session, register_job, transition_job, Mark, cancel_session,
}
use xray_checker_modify.Diagnostics.Manager.{is_found}
use xray_checker_modify.Diagnostics.Calls.{
  Call, create, register, mark, accept, cancel, look, remove, remove_all, step, run,
}
use xray_checker_modify.Diagnostics.Calls.Replay.{accept_observation-found}

-- A call that removes no session.
abbrev pub removes_none : Call → Bool
removes_none (create now id r) = false
removes_none (remove id) = false
removes_none (remove_all stable) = false
removes_none _ = true

abbrev pub IsUsed : Text → Manager → Type 0
IsUsed k m = is_found (lookup k m.used_nonces) ≡ true

module _ (k : Text) where
  register-IsUsed :
      (now : Time) (id fresh : Option Text) (r : RegisterJobRequest) (m : Manager)
      → IsUsed k m
      → IsUsed k (register_job now id fresh r m).0
  unfolding register_job expire
  register-IsUsed now id fresh r m u = ground arith

  mark-IsUsed :
      (to : Mark) (now : Time) (id : Text) (m : Manager)
      → IsUsed k m
      → IsUsed k (transition_job to now id m).0
  unfolding transition_job expire
  mark-IsUsed to now id m u = ground arith

  cancel-IsUsed :
      (now : Time) (id : Text) (m : Manager) → IsUsed k m → IsUsed k (cancel_session now id m).0
  unfolding cancel_session expire
  cancel-IsUsed now id m u = ground arith

  insert-IsUsed :
      (j : Text) (ns : List (Text × Unit {0}))
      → is_found (lookup k ns) ≡ true
      → is_found (lookup k (insert j tt ns)) ≡ true
  insert-IsUsed j ns u = rw (lookup-insert j k tt ns) (ground arith)

  accept-IsUsed :
      (verify : Observation → Bool) (cfg : ManagerConfig) (now : Time) (o : Observation)
      (m : Manager)
      → IsUsed k m
      → IsUsed k (accept_observation verify cfg now o m).0
  unfolding accept_observation expire
  accept-IsUsed verify cfg now o m u =
      ground (arith, insert-IsUsed (nonce_key o.agent_id o.nonce) m.used_nonces u)

module _ (verify : Observation → Bool) (cfg : ManagerConfig) (k : Text) where
  step-IsUsed :
      (c : Call) (m : Manager) → removes_none c ≡ true → IsUsed k m → IsUsed k (step verify cfg c m)
  unfolding step session expire
  step-IsUsed (create now id r) m h u = ground arith
  step-IsUsed (register now id fresh r) m h u = register-IsUsed k now id fresh r m u
  step-IsUsed (mark to now id) m h u = mark-IsUsed k to now id m u
  step-IsUsed (accept now o) m h u = accept-IsUsed k verify cfg now o m u
  step-IsUsed (cancel now id) m h u = cancel-IsUsed k now id m u
  step-IsUsed (look now id) m h u = u
  step-IsUsed (remove id) m h u = ground arith
  step-IsUsed (remove_all stable) m h u = ground arith

  run-IsUsed :
      (cs : List Call) (m : Manager)
      → All (λ c. removes_none c ≡ true) cs
      → IsUsed k m
      → IsUsed k (run verify cfg cs m)
  unfolding run
  run-IsUsed [] m h u = u
  run-IsUsed (c ∷ cs) m h u = run-IsUsed cs (step verify cfg c m) h.1 (step-IsUsed c m h.0 u)

module _ (verify : Observation → Bool) (cfg : ManagerConfig) where
  accepted-IsUsed :
      (now : Time) (o : Observation) (m n : Manager) (a : AcceptedObservation)
      → accept_observation verify cfg now o m ≡ (n, ok a)
      → IsUsed (nonce_key o.agent_id o.nonce) n
  accepted-IsUsed now o m n a h =
      let q = accept_observation-found verify cfg now o m n a h in
      subst (IsUsed (nonce_key o.agent_id o.nonce)) (ap (λ p. p.0) (sym q.effect ∙ h)) (
        rw
          (
            lookup-insert (nonce_key o.agent_id o.nonce) (nonce_key o.agent_id o.nonce) tt
                (expire now m).used_nonces,
            text_eq_refl (nonce_key o.agent_id o.nonce),
          )
          refl)

  used-refused :
      (now : Time) (o : Observation) (m n : Manager) (a : AcceptedObservation)
      → IsUsed (nonce_key o.agent_id o.nonce) m
      → accept_observation verify cfg now o m ≢ (n, ok a)
  unfolding expire
  used-refused now o m n a u h =
      let unused = (accept_observation-found verify cfg now o m n a h).admitted.unused in
      ground (arith, u, unused)

  -- Once an observation is accepted, then after any calls that remove no session (no creation, which
  -- may evict, and no deletion), at any times, no observation of the same agent and nonce is accepted.
  pub accept-once :
      (now later : Time) (o p : Observation) (m n after : Manager) (a b : AcceptedObservation)
      (cs : List Call)
      → accept_observation verify cfg now o m ≡ (n, ok a)
      → All (λ c. removes_none c ≡ true) cs
      → p.agent_id ≡ o.agent_id
      → p.nonce ≡ o.nonce
      → accept_observation verify cfg later p (run verify cfg cs n) ≢ (after, ok b)
  accept-once now later o p m n after a b cs h cs_keep agent nonce =
      used-refused later p (run verify cfg cs n) after b (
        rw (agent, nonce)
          (run-IsUsed verify cfg (nonce_key o.agent_id o.nonce) cs n cs_keep
            (accepted-IsUsed now o m n a h)))
