-- ===== src/Diagnostics/Lemmas/Find.antt =====
-- The map of sessions: reading after writing, expiring and dropping.
use mathlib.Core.Option
use mathlib.Core.Option.{some-injective}
use mathlib.Core.Path.{subst}
use xray_checker_modify.Base.{
  false, some, List, [], ◌∷◌, map, ◌≡◌, refl, sym, ◌∙◌, ap, Text, text_eq, text_eq→eq, text_eq_iff,
  text_eq_refl, length, All, arith, Bool-cases, inl, inr, found_head, found_tail,
}
use xray_checker_modify.Diagnostics.Types.{Time, DiagnosticSession}
use xray_checker_modify.Diagnostics.Session.{derive_session_state, expire_session}
use xray_checker_modify.Diagnostics.Manager.{find_session, store_session, drop_session}

pub find-session_id :
    (id : Text) (ss : List DiagnosticSession) {s : DiagnosticSession}
    → find_session id ss ≡ some s
    → s.session_id ≡ id
unfolding find_session
find-session_id id [] h = ground arith
find-session_id id (t ∷ ss) h = elim (Bool-cases (text_eq t.session_id id)) [
  | inl e ↦
      ap DiagnosticSession.session_id
        (sym (found_head (text_eq t.session_id id) t _ (find_session id ss) e h))
      ∙ text_eq→eq t.session_id id e
  | inr e ↦ find-session_id id ss (found_tail (text_eq t.session_id id) t (find_session id ss) e h)
]

-- A write to a session that is there.
pub find-store_self :
    (s : DiagnosticSession) (ss : List DiagnosticSession) {t : DiagnosticSession}
    → find_session s.session_id ss ≡ some t
    → find_session s.session_id (store_session s ss) ≡ some s
unfolding find_session store_session
find-store_self s [] h = ground arith
find-store_self s (u ∷ ss) h = elim (Bool-cases (text_eq u.session_id s.session_id)) [
  | inl e ↦ rw (e, text_eq_refl s.session_id) refl
  | inr e ↦ rw (e, e) (find-store_self s ss (rw e at h))
]

pub find-store_same :
    (u s : DiagnosticSession) (ss : List DiagnosticSession)
    → u.session_id ≡ s.session_id
    → find_session s.session_id ss ≡ some s
    → find_session s.session_id (store_session u ss) ≡ some u
find-store_same u s ss e h =
    subst (λ i. find_session i (store_session u ss) ≡ some u) e
      (find-store_self u ss (subst (λ i. find_session i ss ≡ some s) (sym e) h))

pub find-store_other :
    (id : Text) (s : DiagnosticSession) (ss : List DiagnosticSession)
    → text_eq s.session_id id ≡ false
    → find_session id (store_session s ss) ≡ find_session id ss
unfolding find_session store_session
find-store_other id s [] n = refl
find-store_other id s (u ∷ ss) n = ground (
  arith,
  text_eq_iff u.session_id s.session_id,
  text_eq_iff u.session_id id,
  text_eq_iff s.session_id id,
  find-store_other id s ss,
)

pub expire-session_id :
    (now : Time) (s : DiagnosticSession) → (expire_session now s).session_id ≡ s.session_id
unfolding expire_session derive_session_state
expire-session_id now s = ground arith

pub find-expire :
    (now : Time) (id : Text) (ss : List DiagnosticSession)
    → find_session id (map (expire_session now) ss)
      ≡ Option.map (expire_session now) (find_session id ss)
unfolding find_session
find-expire now id [] = refl
find-expire now id (s ∷ ss) = elim (Bool-cases (text_eq s.session_id id)) [
  | inl e ↦ simp (expire-session_id now s, e)
  | inr e ↦ simp (expire-session_id now s, e) (find-expire now id ss)
]

pub find-drop_other :
    (id other : Text) (ss : List DiagnosticSession)
    → text_eq other id ≡ false
    → find_session id (drop_session other ss) ≡ find_session id ss
unfolding find_session drop_session
find-drop_other id other [] n = refl
find-drop_other id other (s ∷ ss) n = ground (
  arith,
  text_eq_iff s.session_id id,
  text_eq_iff s.session_id other,
  text_eq_iff other id,
  find-drop_other id other ss,
)

pub length-store :
    (s : DiagnosticSession) (ss : List DiagnosticSession) → length (store_session s ss) ≡ length ss
unfolding store_session
length-store s [] = refl
length-store s (t ∷ ss) = ground (arith, length-store s ss)

module _ {ℓ} (P : DiagnosticSession → Type ℓ) where
  pub All-find :
      (id : Text) (ss : List DiagnosticSession) {s : DiagnosticSession}
      → All P ss
      → find_session id ss ≡ some s
      → P s
  unfolding find_session
  All-find id [] a h = absurd (ground arith)
  All-find id (t ∷ ss) a h = elim (Bool-cases (text_eq t.session_id id)) [
    | inl e ↦ subst P (found_head (text_eq t.session_id id) t _ (find_session id ss) e h) a.0
    | inr e ↦ All-find id ss a.1 (found_tail (text_eq t.session_id id) t (find_session id ss) e h)
  ]

  pub All-store :
      (s : DiagnosticSession) (ss : List DiagnosticSession)
      → All P ss
      → P s
      → All P (store_session s ss)
  unfolding store_session
  All-store s [] a p = tt
  All-store s (t ∷ ss) a p = elim (Bool-cases (text_eq t.session_id s.session_id)) [
    | inl e ↦ rw e (p, a.1)
    | inr e ↦ rw e (a.0, All-store s ss a.1 p)
  ]

  pub All-drop : (id : Text) (ss : List DiagnosticSession) → All P ss → All P (drop_session id ss)
  unfolding drop_session
  All-drop id [] a = tt
  All-drop id (t ∷ ss) a = elim (Bool-cases (text_eq t.session_id id)) [
    | inl e ↦ rw e (All-drop id ss a.1)
    | inr e ↦ rw e (a.0, All-drop id ss a.1)
  ]

  pub All-map :
      (f : DiagnosticSession → DiagnosticSession) (ss : List DiagnosticSession)
      → ((s : DiagnosticSession) → P s → P (f s))
      → All P ss
      → All P (map f ss)
  All-map f [] k a = tt
  All-map f (s ∷ ss) k a = (k s a.0, All-map f ss k a.1)
