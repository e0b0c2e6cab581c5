-- ===== src/Diagnostics/Lemmas/Ids.antt =====
-- The IDs of the sessions, which are the keys of the map of sessions.
use xray_checker_modify.Base.{
  true, false, none, List, [], ◌∷◌, map, ◌≡◌, refl, sym, ap, ap₂, Text, text_eq, text_eq→eq, arith,
  Bool-cases, inl, inr, member, distinct, none-ne-some,
}
use xray_checker_modify.Diagnostics.Types.{Time, DiagnosticSession}
use xray_checker_modify.Diagnostics.Session.{expire_session}
use xray_checker_modify.Diagnostics.Manager.{find_session, store_session, drop_session}
use xray_checker_modify.Diagnostics.Lemmas.Find.{expire-session_id}

abbrev pub session_ids : List DiagnosticSession → List Text
session_ids [] = []
session_ids (s ∷ ss) = s.session_id ∷ session_ids ss

pub ids-store :
    (s : DiagnosticSession) (ss : List DiagnosticSession)
    → session_ids (store_session s ss) ≡ session_ids ss
unfolding store_session
ids-store s [] = refl
ids-store s (t ∷ ss) = elim (Bool-cases (text_eq t.session_id s.session_id)) [
  | inl e ↦ rw e (ap (λ i. i ∷ session_ids ss) (sym (text_eq→eq t.session_id s.session_id e)))
  | inr e ↦ rw e (ap (λ (l : List Text). t.session_id ∷ l) (ids-store s ss))
]

pub ids-expire :
    (now : Time) (ss : List DiagnosticSession)
    → session_ids (map (expire_session now) ss) ≡ session_ids ss
ids-expire now [] = refl
ids-expire now (s ∷ ss) = ap₂ ◌∷◌ (expire-session_id now s) (ids-expire now ss)

pub member-drop :
    (t id : Text) (ss : List DiagnosticSession)
    → member t (session_ids ss) ≡ false
    → member t (session_ids (drop_session id ss)) ≡ false
unfolding member drop_session
member-drop t id [] h = refl
member-drop t id (s ∷ ss) h = ground (arith, member-drop t id ss)

pub distinct-drop :
    (id : Text) (ss : List DiagnosticSession)
    → distinct (session_ids ss) ≡ true
    → distinct (session_ids (drop_session id ss)) ≡ true
unfolding distinct drop_session
distinct-drop id [] h = refl
distinct-drop id (s ∷ ss) h = ground (arith, distinct-drop id ss, member-drop s.session_id id ss)

pub find-member :
    (id : Text) (ss : List DiagnosticSession)
    → find_session id ss ≡ none
    → member id (session_ids ss) ≡ false
unfolding member find_session
find-member id [] h = refl
find-member id (s ∷ ss) h = elim (Bool-cases (text_eq s.session_id id)) [
  | inl e ↦ absurd (none-ne-some s (sym (rw e at h)))
  | inr e ↦ rw e (find-member id ss (rw e at h))
]

pub member-find :
    (id : Text) (ss : List DiagnosticSession)
    → member id (session_ids ss) ≡ false
    → find_session id ss ≡ none
unfolding member find_session
member-find id [] h = refl
member-find id (s ∷ ss) h = ground (arith, member-find id ss)
