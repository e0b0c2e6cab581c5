-- ===== src/Diagnostics/Lifecycle/Moves.antt =====
-- The ways of the abstract machine that the manager's expiries and writes are.
use mathlib.Core.Bool.{true≢false}
use mathlib.Core.Option
use mathlib.Core.Path.{subst}
use xray_checker_modify.Base.{
  ◌≤◌, true, false, Option, none, some, List, [], ◌∷◌, ◌++◌, ◌≡◌, refl, sym, ap, ap₂, ℕ, ◌∙◌, Text,
  text_eq, text_eq→eq, length, append-nil, arith, Bool-cases, inl, inr,
}
use xray_checker_modify.Diagnostics.Types.{
  Time, SessionState, session_terminal, AcceptedObservation, DiagnosticSession,
}
use xray_checker_modify.Diagnostics.Session.{expire_session, derive_session_state}
use xray_checker_modify.Diagnostics.Manager.{Manager, find_session, store_session, expire}
use xray_checker_modify.Diagnostics.Lemmas.Find.{find-expire, find-store_self, find-store_other}
use xray_checker_modify.Diagnostics.Lemmas.Effect.{Effect, kept, wrote, terms}
use xray_checker_modify.Diagnostics.Lifecycle.{
  Kind, creating, accepting, changing, removing, removes, View, active, ended, view_of, view, Way,
  stays, hears, answers, ends, evicts, lapses, deletes,
}

-- What an expiry does to a session.
pub data Passing : View → View → Type 0 where
  still : (v : View) → Passing v v
  lapsed :
      (t : DiagnosticSession) (as' : List AcceptedObservation) (st : SessionState)
      → session_terminal st ≡ true
      → Passing (active t as') (ended t as' st)

-- What a call does after an expiry.
pub follow : {k : Kind} {u v w : View} → removes k ≡ false → Passing u v → Way k v w → Way k u w
follow keeps (still v) q = q
follow {k} keeps (lapsed t as' st h) (stays k' v') = ends k t as' st keeps h
follow keeps (lapsed t as' st h) (evicts t' bs st') = lapses t as'
follow keeps (lapsed t as' st h) (deletes v) = absurd (true≢false keeps)

pub same : (k : Kind) {v w : View} → v ≡ w → Way k v w
same k {v} e = subst (Way k v) e (stays k v)

carried : {u v w x : View} → u ≡ v → w ≡ x → Passing v w → Passing u x
carried {u} {v} {w} {x} e f q = subst (Passing u) f (subst (λ y. Passing y w) (sym e) q)

pub between : {k : Kind} {u v w x : View} → u ≡ v → w ≡ x → Way k v w → Way k u x
between {k} {u} {v} {w} {x} e f q = subst (Way k u) f (subst (λ y. Way k y w) (sym e) q)

-- The views of a session that has ended and of one that has not.
pub view-ended :
    (s : DiagnosticSession)
    → session_terminal s.state ≡ true
    → view_of (some s) ≡ ended (terms s) s.agent_observations s.state
unfolding view_of
view-ended s h = rw h refl

pub view-active :
    (s : DiagnosticSession)
    → session_terminal s.state ≡ false
    → view_of (some s) ≡ active (terms s) s.agent_observations
unfolding view_of
view-active s h = rw h refl

-- A write to an open session, which may end it.
pub settled :
    (k : Kind) (t u : DiagnosticSession)
    → removes k ≡ false
    → session_terminal t.state ≡ false
    → terms u ≡ terms t
    → u.agent_observations ≡ t.agent_observations
    → Way k (view_of (some t)) (view_of (some u))
settled k t u keeps live e o = elim (Bool-cases (session_terminal u.state)) [
  | inl h ↦
      between (view-active t live)
        (ap₂ (λ x y. ended x y u.state) (sym e) (sym o) ∙ sym (view-ended u h))
        (ends k (terms t) t.agent_observations u.state keeps h)
  | inr h ↦ same k (view-active t live ∙ ap₂ active (sym e) (sym o) ∙ sym (view-active u h))
]

pub heard :
    (t u : DiagnosticSession) (a : AcceptedObservation)
    → session_terminal t.state ≡ false
    → terms u ≡ terms t
    → u.agent_observations ≡ t.agent_observations ++ a ∷ []
    → Way accepting (view_of (some t)) (view_of (some u))
heard t u a live e o = elim (Bool-cases (session_terminal u.state)) [
  | inl h ↦
      between (view-active t live)
        (ap (λ x. ended x u.agent_observations u.state) (sym e) ∙ sym (view-ended u h))
        (answers (terms t) t.agent_observations u.agent_observations a u.state o h)
  | inr h ↦
      between (view-active t live)
        (ap (λ x. active x u.agent_observations) (sym e) ∙ sym (view-active u h))
        (hears (terms t) t.agent_observations u.agent_observations a o)
]

-- How many observations a call of the kind may add.
abbrev pub heard_by : Kind → ℕ
heard_by accepting = 1
heard_by _ = 0

none_heard : (new : List AcceptedObservation) → length new ≤ 0 → new ≡ []
none_heard [] h = refl
none_heard (a ∷ new) h = absurd (omega (arith, h))

unheard :
    (k : Kind) (t u : DiagnosticSession) (new : List AcceptedObservation)
    → removes k ≡ false
    → session_terminal t.state ≡ false
    → terms u ≡ terms t
    → length new ≤ 0
    → u.agent_observations ≡ t.agent_observations ++ new
    → Way k (view_of (some t)) (view_of (some u))
unheard k t u new keeps live e few more = settled k t u keeps live e (
    more
    ∙ ap (λ (x : List AcceptedObservation). t.agent_observations ++ x) (none_heard new few)
    ∙ append-nil t.agent_observations)

pub written :
    (k : Kind) (t u : DiagnosticSession) (new : List AcceptedObservation)
    → removes k ≡ false
    → session_terminal t.state ≡ false
    → terms u ≡ terms t
    → length new ≤ heard_by k
    → u.agent_observations ≡ t.agent_observations ++ new
    → Way k (view_of (some t)) (view_of (some u))
written creating t u new keeps live e few more = unheard creating t u new keeps live e few more
written changing t u new keeps live e few more = unheard changing t u new keeps live e few more
written removing t u new keeps live e few more = unheard removing t u new keeps live e few more
written accepting t u [] keeps live e few more =
    settled accepting t u keeps live e (more ∙ append-nil t.agent_observations)
written accepting t u (a ∷ []) keeps live e few more = heard t u a live e more
written accepting t u (a ∷ b ∷ new) keeps live e few more = absurd (omega (arith, few))

expire-terms : (now : Time) (s : DiagnosticSession) → terms (expire_session now s) ≡ terms s
unfolding expire_session derive_session_state
expire-terms now s = ground arith

expire-observations :
    (now : Time) (s : DiagnosticSession)
    → (expire_session now s).agent_observations ≡ s.agent_observations
unfolding expire_session derive_session_state
expire-observations now s = ground arith

expire-ended :
    (now : Time) (s : DiagnosticSession)
    → session_terminal s.state ≡ true
    → expire_session now s ≡ s
unfolding expire_session
expire-ended now s h = rw h refl

expired-Passing :
    (now : Time) (s : DiagnosticSession)
    → session_terminal s.state ≡ false
    → Passing (view_of (some s)) (view_of (some (expire_session now s)))
expired-Passing now s live =
    let u = expire_session now s in
    let e = expire-terms now s in
    let o = expire-observations now s in
    elim (Bool-cases (session_terminal u.state)) [
      | inl h ↦
          carried (view-active s live)
            (ap₂ (λ x y. ended x y u.state) (sym e) (sym o) ∙ sym (view-ended u h))
            (lapsed (terms s) s.agent_observations u.state h)
      | inr h ↦
          carried (view-active s live) (ap₂ active (sym e) (sym o) ∙ sym (view-active u h))
            (still (active (terms s) s.agent_observations))
    ]

expire_session-Passing :
    (now : Time) (o : Option DiagnosticSession)
    → Passing (view_of o) (view_of (Option.map (expire_session now) o))
expire_session-Passing now none = still _
expire_session-Passing now (some s) = elim (Bool-cases (session_terminal s.state)) [
  | inl h ↦ carried refl (ap (λ x. view_of (some x)) (sym (expire-ended now s h))) (still _)
  | inr h ↦ expired-Passing now s h
]

pub expire-Passing :
    (now : Time) (id : Text) (m : Manager) → Passing (view id m) (view id (expire now m))
unfolding view expire
expire-Passing now id m =
    carried refl (ap view_of (sym (find-expire now id m.sessions)))
      (expire_session-Passing now (find_session id m.sessions))

pub expire-Way :
    (k : Kind) (now : Time) (id : Text) (m : Manager)
    → removes k ≡ false
    → Way k (view id m) (view id (expire now m))
expire-Way k now id m keeps = follow keeps (expire-Passing now id m) (stays k _)

pub Effect-Way :
    (k : Kind) (id : Text) {ss ts : List DiagnosticSession}
    → removes k ≡ false
    → Effect (heard_by k) ss ts
    → Way k (view_of (find_session id ss)) (view_of (find_session id ts))
Effect-Way k id keeps kept = stays k _
Effect-Way k id {ss} keeps (wrote t u found live same_id ok terms_kept new few more) =
    elim (Bool-cases (text_eq u.session_id id)) [
      | inl e ↦
          let before =
            subst (λ i. find_session i ss ≡ some t) (sym same_id ∙ text_eq→eq u.session_id id e)
              found in
          let self = subst (λ i. find_session i ss ≡ some t) (sym same_id) found in
          let after =
            subst (λ i. find_session i (store_session u ss) ≡ some u) (text_eq→eq u.session_id id e)
              (find-store_self u ss self) in
          between (ap view_of before) (ap view_of (sym after))
            (written k t u new keeps live terms_kept few more)
      | inr e ↦ same k (ap view_of (sym (find-store_other id u ss e)))
    ]
