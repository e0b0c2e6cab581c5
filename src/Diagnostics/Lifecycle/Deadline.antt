-- ===== src/Diagnostics/Lifecycle/Deadline.antt =====
-- expireLocked: what the deadlines bring about.
use xray_checker_modify.Base.{
  ◌<◌, Bool, true, false, Option, none, some, List, [], ◌∷◌, map, ◌≡◌, ◌⊎◌, sym, ap, ◌∙◌, All, ltb,
  arith, Bool-cases, inl, inr, some-eq, none-ne-some,
}
use xray_checker_modify.Diagnostics.Types.{Time, Observation, session_terminal, DiagnosticSession}
use xray_checker_modify.Diagnostics.Session.{expire_session, derive_session_state}
use xray_checker_modify.Diagnostics.Manager.{ManagerConfig, Manager, expire}
use xray_checker_modify.Diagnostics.Operations.{session}
use xray_checker_modify.Diagnostics.Calls.{
  Call, create, register, mark, accept, cancel, look, remove, remove_all, step,
}
use xray_checker_modify.Diagnostics.Lemmas.Effect.{
  Effect, kept, wrote, transition_job-Effect, cancel_session-Effect,
}
use xray_checker_modify.Diagnostics.Lemmas.Find.{All-find, All-store}
use xray_checker_modify.Diagnostics.Lemmas.Ids.{session_ids, ids-expire, ids-store}

-- The time at which a call that always reads the clock reads it.
abbrev pub clock : Call → Option Time
clock (mark to now id) = some now
clock (cancel now id) = some now
clock (look now id) = some now
clock _ = none

abbrev pub IsInTime : Time → DiagnosticSession → Type 0
IsInTime now s = (session_terminal s.state ≡ true) ⊎ (now < s.expires_at)

expire_session-IsInTime : (now : Time) (s : DiagnosticSession) → IsInTime now (expire_session now s)
unfolding expire_session derive_session_state session_terminal
expire_session-IsInTime now s = elim (Bool-cases (ltb now s.expires_at)) [
  | inl e ↦ ground (arith, e)
  | inr e ↦ ground (arith, e)
]

All-everywhere :
    (P : DiagnosticSession → Type 0) (f : DiagnosticSession → DiagnosticSession)
    (ss : List DiagnosticSession)
    → ((s : DiagnosticSession) → P (f s))
    → All P (map f ss)
All-everywhere P f [] k = tt
All-everywhere P f (s ∷ ss) k = (k s, All-everywhere P f ss k)

-- That the sessions are those of the list before, and that each is in time.
abbrev pub InTime : Time → List DiagnosticSession → List DiagnosticSession → Type 0
InTime now ss ts = (session_ids ts ≡ session_ids ss) × All (IsInTime now) ts

expire-InTime : (now : Time) (m : Manager) → InTime now m.sessions (expire now m).sessions
unfolding expire
expire-InTime now m = (
  ids-expire now m.sessions,
  All-everywhere (IsInTime now) (expire_session now) m.sessions (expire_session-IsInTime now),
)

still-IsInTime :
    (now : Time) (t u : DiagnosticSession)
    → session_terminal t.state ≡ false
    → u.expires_at ≡ t.expires_at
    → IsInTime now t
    → IsInTime now u
still-IsInTime now t u live e (inl h) = absurd (ground (arith, h, live))
still-IsInTime now t u live e (inr h) = inr (omega (arith, h, e))

Effect-InTime :
    (now : Time) (rs : List DiagnosticSession) {most : _} {ss ts : List DiagnosticSession}
    → Effect most ss ts
    → InTime now rs ss
    → InTime now rs ts
Effect-InTime now rs kept h = h
Effect-InTime now rs {most} {ss} (wrote t u found live same_id ok terms_kept new few more) h = (
  ids-store u ss ∙ h.0,
  All-store (IsInTime now) u ss h.1 (
      still-IsInTime now t u live (ap DiagnosticSession.expires_at terms_kept)
        (All-find (IsInTime now) t.session_id ss h.1 found)),
)

-- A call of Session, CancelSession, MarkJobDispatched or MarkJobRunning, whatever it is for and
-- whether it succeeds or not, ends every session whose deadline has come by the time that it reads,
-- and removes none: afterwards the IDs are those before, in their order, and each session has ended
-- or has its deadline later than that time.
pub step-InTime :
    (verify : Observation → Bool) (cfg : ManagerConfig) (c : Call) (now : Time) (m : Manager)
    → clock c ≡ some now
    → (session_ids (step verify cfg c m).sessions ≡ session_ids m.sessions)
      × All
          (λ s. (session_terminal s.state ≡ true) ⊎ (now < s.expires_at))
          (step verify cfg c m).sessions
unfolding step session
step-InTime verify cfg (create t id r) now m h = absurd (none-ne-some now h)
step-InTime verify cfg (register t id fresh r) now m h = absurd (none-ne-some now h)
step-InTime verify cfg (accept t o) now m h = absurd (none-ne-some now h)
step-InTime verify cfg (remove id) now m h = absurd (none-ne-some now h)
step-InTime verify cfg (remove_all stable) now m h = absurd (none-ne-some now h)
step-InTime verify cfg (mark to t id) now m h =
    rw (sym (some-eq t now h))
      (Effect-InTime t m.sessions (transition_job-Effect to t id m) (expire-InTime t m))
step-InTime verify cfg (cancel t id) now m h =
    rw (sym (some-eq t now h))
      (Effect-InTime t m.sessions (cancel_session-Effect t id m) (expire-InTime t m))
step-InTime verify cfg (look t id) now m h = rw (sym (some-eq t now h)) (expire-InTime t m)
