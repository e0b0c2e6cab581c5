-- ===== src/Diagnostics/Calls/Invariant.antt =====
-- The invariant of the manager, kept by every call.
use xray_checker_modify.Base.{
  ℕ, ◌≤◌, Bool, List, [], ◌∷◌, sym, ap, Text, length, All, arith, inl, inr, trim_space, Bool-cases,
}
use mathlib.Core.Path.{subst}
use xray_checker_modify.Diagnostics.Types.{Time, Observation, DiagnosticSession}
use xray_checker_modify.Diagnostics.Session.{expire_session}
use xray_checker_modify.Diagnostics.Manager.{
  ManagerConfig, Manager, find_session, drop_session, expire, empty_manager,
}
use xray_checker_modify.Diagnostics.Operations.{delete_session, delete_sessions, session, doomed}
use xray_checker_modify.Diagnostics.Manager.{is_found}
use xray_checker_modify.Diagnostics.Capacity.{make_capacity}
use xray_checker_modify.Diagnostics.Calls.{
  Call, create, register, mark, accept, cancel, look, remove, remove_all, step, run,
}
use xray_checker_modify.Diagnostics.Lemmas.Counts.{length-map}
use xray_checker_modify.Diagnostics.Lemmas.Ids.{
  session_ids, ids-store, ids-expire, member-drop, distinct-drop, find-member,
}
use xray_checker_modify.Base.{member, distinct, ◌≡◌, refl, false, true}
use xray_checker_modify.Diagnostics.Lemmas.SessionOk.{SessionOk, expire-SessionOk}
use xray_checker_modify.Diagnostics.Lemmas.Find.{
  All-find, All-store, All-drop, All-map, length-store,
}
use xray_checker_modify.Diagnostics.Lemmas.Effect.{
  Effect, kept, wrote, register_job-Effect, transition_job-Effect, accept_observation-Effect,
  cancel_session-Effect,
}
use xray_checker_modify.Diagnostics.Lemmas.Removal.{
  length-drop, remove-keeps, make_capacity-keeps, remove_all-keeps,
}
use xray_checker_modify.Diagnostics.Lemmas.Created.{
  Created, refused, aged, crowded, added, create_session-Created,
}

-- Every session is sound, no two have one ID, and there are no more than the limit.
pub record SessionsOk (max : ℕ) (ss : List DiagnosticSession) : Type 0 where
  pub sound : All SessionOk ss
  pub few : length ss ≤ max
  pub different : distinct (session_ids ss) ≡ true

nil-distinct : distinct [] ≡ true
unfolding distinct
nil-distinct = refl

cons-distinct :
    (t : Text) (ts : List Text)
    → member t ts ≡ false
    → distinct ts ≡ true
    → distinct (t ∷ ts) ≡ true
unfolding distinct
cons-distinct t ts h k = ground (arith, h, k)

module _ (max : ℕ) where
  pub expire-SessionsOk :
      (now : Time) (m : Manager)
      → SessionsOk max m.sessions
      → SessionsOk max (expire now m).sessions
  unfolding expire
  expire-SessionsOk now m o = record {
    sound = All-map SessionOk (expire_session now) m.sessions (expire-SessionOk now) o.sound;
    few = rw (length-map (expire_session now) m.sessions) o.few;
    different = rw (ids-expire now m.sessions) o.different;
  }

  drop-SessionsOk :
      (id : Text) (ss : List DiagnosticSession)
      → SessionsOk max ss
      → SessionsOk max (drop_session id ss)
  drop-SessionsOk id ss o = record {
    sound = All-drop SessionOk id ss o.sound;
    few = omega (arith, length-drop id ss, o.few);
    different = distinct-drop id ss o.different;
  }

  Effect-SessionsOk :
      {most : ℕ} {ss ts : List DiagnosticSession}
      → Effect most ss ts
      → SessionsOk max ss
      → SessionsOk max ts
  Effect-SessionsOk kept o = o
  Effect-SessionsOk {most} {ss} (wrote t u found live same k terms_kept new few heard) o = record {
    sound = All-store SessionOk u ss o.sound (k (All-find SessionOk t.session_id ss o.sound found));
    few = rw (length-store u ss) o.few;
    different = rw (ids-store u ss) o.different;
  }

module _ (cfg : ManagerConfig) where
  make_capacity-SessionsOk :
      (m : Manager)
      → SessionsOk cfg.max_sessions m.sessions
      → SessionsOk cfg.max_sessions (make_capacity cfg.max_sessions m).0.sessions
  make_capacity-SessionsOk =
      make_capacity-keeps (SessionsOk cfg.max_sessions) (drop-SessionsOk cfg.max_sessions)
        cfg.max_sessions

  Created-SessionsOk :
      (now : Time) (m : Manager) {n : Manager}
      → Created cfg now m n
      → SessionsOk cfg.max_sessions m.sessions
      → SessionsOk cfg.max_sessions n.sessions
  Created-SessionsOk now m refused o = o
  Created-SessionsOk now m aged o = expire-SessionsOk cfg.max_sessions now m o
  Created-SessionsOk now m crowded o =
      make_capacity-SessionsOk (expire now m) (expire-SessionsOk cfg.max_sessions now m o)
  Created-SessionsOk now m (added s fresh k room live_new silent) o = record {
    sound = (
      k,
      (make_capacity-SessionsOk (expire now m) (expire-SessionsOk cfg.max_sessions now m o)).sound,
    );
    few = omega (arith, room);
    different =
        cons-distinct s.session_id _
          (make_capacity-keeps (λ ss. member s.session_id (session_ids ss) ≡ false)
            (λ i ss h. member-drop s.session_id i ss h) cfg.max_sessions (expire now m)
            (find-member s.session_id (expire now m).sessions fresh))
          (make_capacity-SessionsOk (expire now m)
            (expire-SessionsOk cfg.max_sessions now m o)).different;
  }

  delete_session-SessionsOk :
      (id : Text) (m : Manager)
      → SessionsOk cfg.max_sessions m.sessions
      → SessionsOk cfg.max_sessions (delete_session id m).0.sessions
  unfolding delete_session
  delete_session-SessionsOk id m o =
      elim (Bool-cases (is_found (find_session (trim_space id) m.sessions))) [
        | inl e ↦ rw e (
            remove-keeps (SessionsOk cfg.max_sessions) (drop-SessionsOk cfg.max_sessions)
              (trim_space id) m o)
        | inr e ↦ rw e o
      ]

  delete_sessions-SessionsOk :
      (stable : Text) (m : Manager)
      → SessionsOk cfg.max_sessions m.sessions
      → SessionsOk cfg.max_sessions (delete_sessions stable m).0.sessions
  unfolding delete_sessions
  delete_sessions-SessionsOk stable m o =
      remove_all-keeps (SessionsOk cfg.max_sessions) (drop-SessionsOk cfg.max_sessions)
        (doomed (trim_space stable) m.sessions) m o

module _ (verify : Observation → Bool) (cfg : ManagerConfig) where
  pub step-SessionsOk :
      (c : Call) (m : Manager)
      → SessionsOk cfg.max_sessions m.sessions
      → SessionsOk cfg.max_sessions (step verify cfg c m).sessions
  unfolding step session
  step-SessionsOk (create now id r) m o =
      Created-SessionsOk cfg now m (create_session-Created cfg now m id r) o
  step-SessionsOk (register now id fresh r) m o = elim (register_job-Effect now id fresh r m) [
    | inl e ↦ subst (λ n. SessionsOk cfg.max_sessions n.sessions) (sym (ap (λ p. p.0) e)) o
    | inr k ↦ Effect-SessionsOk cfg.max_sessions k (expire-SessionsOk cfg.max_sessions now m o)
  ]
  step-SessionsOk (mark to now id) m o =
      Effect-SessionsOk cfg.max_sessions (transition_job-Effect to now id m)
        (expire-SessionsOk cfg.max_sessions now m o)
  step-SessionsOk (accept now x) m o = elim (accept_observation-Effect verify cfg now x m) [
    | inl e ↦ subst (λ n. SessionsOk cfg.max_sessions n.sessions) (sym (ap (λ p. p.0) e)) o
    | inr k ↦ Effect-SessionsOk cfg.max_sessions k (expire-SessionsOk cfg.max_sessions now m o)
  ]
  step-SessionsOk (cancel now id) m o =
      Effect-SessionsOk cfg.max_sessions (cancel_session-Effect now id m)
        (expire-SessionsOk cfg.max_sessions now m o)
  step-SessionsOk (look now id) m o = expire-SessionsOk cfg.max_sessions now m o
  step-SessionsOk (remove id) m o = delete_session-SessionsOk cfg id m o
  step-SessionsOk (remove_all stable) m o = delete_sessions-SessionsOk cfg stable m o

  from-SessionsOk :
      (cs : List Call) (m : Manager)
      → SessionsOk cfg.max_sessions m.sessions
      → SessionsOk cfg.max_sessions (run verify cfg cs m).sessions
  unfolding run
  from-SessionsOk [] m o = o
  from-SessionsOk (c ∷ cs) m o = from-SessionsOk cs (step verify cfg c m) (step-SessionsOk c m o)

  -- Whatever calls a manager that starts empty gets, at whatever times, there are then no more
  -- sessions than the limit, no two of one ID, and of each of them: an agent was asked; its jobs are
  -- for different agents, each of them asked; its completed jobs are as many as its observations; a
  -- session that has ended has no open job; a completed session has an answer for each agent, a
  -- partial one has some but not all, an expired one has none, and one that has not ended lacks some.
  pub run-SessionsOk :
      (cs : List Call) → SessionsOk cfg.max_sessions (run verify cfg cs empty_manager).sessions
  run-SessionsOk cs =
      from-SessionsOk cs empty_manager
        (record { sound = tt; few = omega arith; different = nil-distinct })
