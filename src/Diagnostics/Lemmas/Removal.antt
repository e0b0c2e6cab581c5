-- ===== src/Diagnostics/Lemmas/Removal.antt =====
-- The sessions that a removal leaves: removeSessionLocked and makeCapacityLocked.
use mathlib.Core.List.{foldl}
use xray_checker_modify.Base.{
  ℕ, ◌≤◌, ◌<◌, true, Option, none, some, List, [], ◌∷◌, ◌≡◌, refl, sym, ap, Text, text_eq,
  text_eq_iff, ltb, length, if◌then◌else◌, arith, Bool-cases, inl, inr, ◌∙◌, none-ne-some,
}
use xray_checker_modify.Diagnostics.Types.{
  Time, DiagnosticJob, AcceptedObservation, DiagnosticSession,
}
use xray_checker_modify.Diagnostics.Manager.{
  Manager, find_session, drop_session, remove_session, forget_jobs, forget_observations,
  remove_found,
}
use xray_checker_modify.Diagnostics.Capacity.{make_capacity, remove_until, by_time, finished}

sessions-forget_jobs :
    (js : List DiagnosticJob) (m : Manager) → (forget_jobs js m).sessions ≡ m.sessions
sessions-forget_jobs [] m = refl
sessions-forget_jobs (j ∷ js) m = sessions-forget_jobs js _

sessions-forget_observations :
    (as' : List AcceptedObservation) (m : Manager)
    → (forget_observations as' m).sessions ≡ m.sessions
sessions-forget_observations [] m = refl
sessions-forget_observations (a ∷ as') m = sessions-forget_observations as' _

pub find-drop :
    (id other : Text) (ss : List DiagnosticSession)
    → find_session id (drop_session other ss)
      ≡ (if text_eq other id then none else find_session id ss)
unfolding find_session drop_session
find-drop id other [] = ground arith
find-drop id other (s ∷ ss) = ground (
  arith,
  text_eq_iff s.session_id id,
  text_eq_iff s.session_id other,
  text_eq_iff other id,
  find-drop id other ss,
)

drop-absent :
    (id : Text) (ss : List DiagnosticSession) → find_session id ss ≡ none → drop_session id ss ≡ ss
unfolding find_session drop_session
drop-absent id [] h = refl
drop-absent id (s ∷ ss) h = elim (Bool-cases (text_eq s.session_id id)) [
  | inl e ↦ absurd (none-ne-some s (sym (rw e at h)))
  | inr e ↦ rw e (ap (λ (t : List DiagnosticSession). s ∷ t) (drop-absent id ss (rw e at h)))
]

pub length-drop :
    (id : Text) (ss : List DiagnosticSession) → length (drop_session id ss) ≤ length ss
unfolding drop_session
length-drop id [] = omega arith
length-drop id (s ∷ ss) = ground (arith, length-drop id ss)

remove_found-sessions :
    (id : Text) (m : Manager) (o : Option DiagnosticSession)
    → find_session id m.sessions ≡ o
    → (remove_found id m o).sessions ≡ drop_session id m.sessions
remove_found-sessions id m none h = sym (drop-absent id m.sessions h)
remove_found-sessions id m (some s) h = ap (drop_session id) (
    sessions-forget_observations s.agent_observations (forget_jobs s.jobs m)
    ∙ sessions-forget_jobs s.jobs m)

pub remove-sessions :
    (id : Text) (m : Manager) → (remove_session id m).sessions ≡ drop_session id m.sessions
unfolding remove_session
remove-sessions id m = remove_found-sessions id m _ refl

-- What every removal keeps, the loop and the whole keep.
module _ (P : List DiagnosticSession → Type 0)
    (k : (id : Text) (ss : List DiagnosticSession) → P ss → P (drop_session id ss)) where
  pub remove-keeps : (id : Text) (m : Manager) → P m.sessions → P (remove_session id m).sessions
  remove-keeps id m p = rw (remove-sessions id m) (k id m.sessions p)

  remove_until-keeps :
      (max : ℕ) (ids : List (Text × Time)) (m : Manager)
      → P m.sessions
      → P (remove_until max ids m).0.sessions
  unfolding remove_until
  remove_until-keeps max [] m p = p
  remove_until-keeps max ((id, t) ∷ rest) m p =
      let q = remove-keeps id m p in
      elim (Bool-cases (ltb (length (remove_session id m).sessions) max)) [
        | inl e ↦ rw e q
        | inr e ↦ rw e (remove_until-keeps max rest (remove_session id m) q)
      ]

  pub make_capacity-keeps :
      (max : ℕ) (m : Manager) → P m.sessions → P (make_capacity max m).0.sessions
  unfolding make_capacity
  make_capacity-keeps max m p = elim (Bool-cases (ltb (length m.sessions) max)) [
    | inl e ↦ rw e p
    | inr e ↦ rw e (remove_until-keeps max (by_time (finished m.sessions)) m p)
  ]

  pub remove_all-keeps :
      (ids : List Text) (m : Manager)
      → P m.sessions
      → P (foldl (λ n id. remove_session id n) m ids).sessions
  remove_all-keeps [] m p = p
  remove_all-keeps (id ∷ ids) m p = remove_all-keeps ids (remove_session id m) (remove-keeps id m p)

remove_until-room :
    (max : ℕ) (ids : List (Text × Time)) (m : Manager)
    → (remove_until max ids m).1 ≡ true
    → length (remove_until max ids m).0.sessions < max
unfolding remove_until
remove_until-room max [] m h = ground arith
remove_until-room max ((id, t) ∷ rest) m h =
    elim (Bool-cases (ltb (length (remove_session id m).sessions) max)) [
      | inl e ↦ rw e (ground arith)
      | inr e ↦ rw e (remove_until-room max rest (remove_session id m) (rw e at h))
    ]

pub make_capacity-room :
    (max : ℕ) (m : Manager)
    → (make_capacity max m).1 ≡ true
    → length (make_capacity max m).0.sessions < max
unfolding make_capacity
make_capacity-room max m h = elim (Bool-cases (ltb (length m.sessions) max)) [
  | inl e ↦ rw e (ground arith)
  | inr e ↦ rw e (remove_until-room max (by_time (finished m.sessions)) m (rw e at h))
]
