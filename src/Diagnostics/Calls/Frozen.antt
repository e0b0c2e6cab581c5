-- ===== src/Diagnostics/Calls/Frozen.antt =====
-- A session that has ended is written no more.
use mathlib.Core.Path.{subst}
use xray_checker_modify.Base.{
  ℕ, Bool, true, none, some, List, ◌∷◌, ◌≡◌, ◌⊎◌, refl, sym, ap, ◌∙◌, Text, text_eq, text_eq→eq,
  arith, inl, inr, trim_space, Bool-cases, none-ne-some, some-eq,
}
use xray_checker_modify.Diagnostics.Types.{Time, Observation, DiagnosticSession, session_terminal}
use xray_checker_modify.Diagnostics.Session.{expire_session}
use xray_checker_modify.Diagnostics.Capacity.{make_capacity}
use xray_checker_modify.Diagnostics.Manager.{
  ManagerConfig, Manager, find_session, drop_session, expire,
}
use xray_checker_modify.Diagnostics.Operations.{delete_session, delete_sessions, session, doomed}
use xray_checker_modify.Diagnostics.Manager.{is_found}
use xray_checker_modify.Diagnostics.Calls.{
  Call, create, register, mark, accept, cancel, look, remove, remove_all, step,
}
use xray_checker_modify.Diagnostics.Lemmas.Find.{find-expire, find-store_other}
use xray_checker_modify.Diagnostics.Lemmas.Effect.{
  Effect, kept, wrote, register_job-Effect, transition_job-Effect, accept_observation-Effect,
  cancel_session-Effect,
}
use xray_checker_modify.Diagnostics.Lemmas.Removal.{
  find-drop, remove-keeps, make_capacity-keeps, remove_all-keeps,
}
use xray_checker_modify.Diagnostics.Lemmas.Created.{
  Created, refused, aged, crowded, added, create_session-Created,
}

-- The session of the ID is still this one, or there is none.
abbrev pub Stays : Text → DiagnosticSession → List DiagnosticSession → Type 0
Stays id s ss = (find_session id ss ≡ some s) ⊎ (find_session id ss ≡ none)

drop-Stays :
    (id : Text) (s : DiagnosticSession) (other : Text) (ss : List DiagnosticSession)
    → Stays id s ss
    → Stays id s (drop_session other ss)
drop-Stays id s other ss k = elim (Bool-cases (text_eq other id)) [
  | inl e ↦ inr (rw (find-drop id other ss, e) refl)
  | inr e ↦ rw (find-drop id other ss, e) k
]

expire-ended :
    (now : Time) (s : DiagnosticSession)
    → session_terminal s.state ≡ true
    → expire_session now s ≡ s
unfolding expire_session
expire-ended now s h = rw h refl

module _ (id : Text) (s : DiagnosticSession) (ended : session_terminal s.state ≡ true) where
  expire-found :
      (now : Time) (m : Manager)
      → find_session id m.sessions ≡ some s
      → find_session id (expire now m).sessions ≡ some s
  unfolding expire
  expire-found now m h = rw (find-expire now id m.sessions, h) (ap some (expire-ended now s ended))

  Effect-found :
      {most : ℕ} {ss ts : List DiagnosticSession}
      → Effect most ss ts
      → find_session id ss ≡ some s
      → find_session id ts ≡ some s
  Effect-found kept h = h
  Effect-found {most} {ss} (wrote t u found live same k terms_kept new few heard) h =
      elim (Bool-cases (text_eq u.session_id id)) [
        | inl e ↦
            let twin =
              subst (λ i. find_session i ss ≡ some t) (sym same ∙ text_eq→eq u.session_id id e)
                found in
            let one = some-eq t s (sym twin ∙ h) in absurd (ground (arith, one, live, ended))
        | inr e ↦ find-store_other id u ss e ∙ h
      ]

  pub make_capacity-Stays :
      (max : ℕ) (m : Manager)
      → find_session id m.sessions ≡ some s
      → Stays id s (make_capacity max m).0.sessions
  make_capacity-Stays max m h = make_capacity-keeps (Stays id s) (drop-Stays id s) max m (inl h)

  cons-Stays :
      (t : DiagnosticSession) (ss ts : List DiagnosticSession)
      → find_session t.session_id ss ≡ none
      → find_session id ss ≡ some s
      → Stays id s ts
      → Stays id s (t ∷ ts)
  unfolding find_session
  cons-Stays t ss ts fresh h k = elim (Bool-cases (text_eq t.session_id id)) [
    | inl e ↦ absurd (
        none-ne-some s
          (sym (subst (λ i. find_session i ss ≡ none) (text_eq→eq t.session_id id e) fresh) ∙ h))
    | inr e ↦ rw e k
  ]

  Created-Stays :
      (cfg : ManagerConfig) (now : Time) (m : Manager) {n : Manager}
      → Created cfg now m n
      → find_session id m.sessions ≡ some s
      → Stays id s n.sessions
  Created-Stays cfg now m refused h = inl h
  Created-Stays cfg now m aged h = inl (expire-found now m h)
  Created-Stays cfg now m crowded h =
      make_capacity-Stays cfg.max_sessions (expire now m) (expire-found now m h)
  Created-Stays cfg now m (added t fresh k room live_new silent) h =
      let before = expire-found now m h in
      cons-Stays t (expire now m).sessions _ fresh before
        (make_capacity-Stays cfg.max_sessions (expire now m) before)

  delete_session-Stays :
      (other : Text) (m : Manager)
      → find_session id m.sessions ≡ some s
      → Stays id s (delete_session other m).0.sessions
  unfolding delete_session
  delete_session-Stays other m h =
      elim (Bool-cases (is_found (find_session (trim_space other) m.sessions))) [
        | inl e ↦ rw e (remove-keeps (Stays id s) (drop-Stays id s) (trim_space other) m (inl h))
        | inr e ↦ rw e (inl h)
      ]

  delete_sessions-Stays :
      (stable : Text) (m : Manager)
      → find_session id m.sessions ≡ some s
      → Stays id s (delete_sessions stable m).0.sessions
  unfolding delete_sessions
  delete_sessions-Stays stable m h =
      remove_all-keeps (Stays id s) (drop-Stays id s) (doomed (trim_space stable) m.sessions) m
        (inl h)

-- A session that has ended is never changed: after any one call at any time the manager has the very
-- same session under its ID, or none under that ID (it was deleted, or evicted for a new one).
pub step-ended :
    (verify : Observation → Bool) (cfg : ManagerConfig) (c : Call) (m : Manager) (id : Text)
    (s : DiagnosticSession)
    → session_terminal s.state ≡ true
    → find_session id m.sessions ≡ some s
    → (find_session id (step verify cfg c m).sessions ≡ some s)
      ⊎ (find_session id (step verify cfg c m).sessions ≡ none)
unfolding step session
step-ended verify cfg (create now i r) m id s t h =
    Created-Stays id s t cfg now m (create_session-Created cfg now m i r) h
step-ended verify cfg (register now i fresh r) m id s t h =
    elim (register_job-Effect now i fresh r m) [
      | inl e ↦ subst (λ n. Stays id s n.sessions) (sym (ap (λ p. p.0) e)) (inl h)
      | inr k ↦ inl (Effect-found id s t k (expire-found id s t now m h))
    ]
step-ended verify cfg (mark to now i) m id s t h =
    inl (Effect-found id s t (transition_job-Effect to now i m) (expire-found id s t now m h))
step-ended verify cfg (accept now x) m id s t h =
    elim (accept_observation-Effect verify cfg now x m) [
      | inl e ↦ subst (λ n. Stays id s n.sessions) (sym (ap (λ p. p.0) e)) (inl h)
      | inr k ↦ inl (Effect-found id s t k (expire-found id s t now m h))
    ]
step-ended verify cfg (cancel now i) m id s t h =
    inl (Effect-found id s t (cancel_session-Effect now i m) (expire-found id s t now m h))
step-ended verify cfg (look now i) m id s t h = inl (expire-found id s t now m h)
step-ended verify cfg (remove i) m id s t h = delete_session-Stays id s t i m h
step-ended verify cfg (remove_all stable) m id s t h = delete_sessions-Stays id s t stable m h
