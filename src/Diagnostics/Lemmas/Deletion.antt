-- ===== src/Diagnostics/Lemmas/Deletion.antt =====
-- DeleteSession and DeleteSessions: what is left.
use mathlib.Core.Path.{subst}
use mathlib.Core.List.{foldl}
use xray_checker_modify.Base.{
  Bool, true, false, ◌||◌, none, some, List, [], ◌∷◌, ◌≡◌, refl, ap, ◌∙◌, Text, text_eq, text_eq→eq,
  text_eq_refl, text_eq_iff, if◌then◌else◌, All, arith, inl, inr, trim_space, is_empty, member,
  Bool-cases, Option-cases,
}
use xray_checker_modify.Diagnostics.Types.{DiagnosticSession}
use xray_checker_modify.Diagnostics.Check.{unknown_session}
use xray_checker_modify.Diagnostics.Manager.{Manager, find_session, drop_session, remove_session}
use xray_checker_modify.Diagnostics.Operations.{delete_session, delete_sessions, doomed}
use xray_checker_modify.Diagnostics.Manager.{is_found}
use xray_checker_modify.Diagnostics.Lemmas.Find.{All-drop}
use xray_checker_modify.Diagnostics.Lemmas.Removal.{find-drop, remove-sessions, remove_all-keeps}

absent-as_dropped :
    (id other : Text) (ss : List DiagnosticSession)
    → find_session id ss ≡ none
    → find_session other ss ≡ (if text_eq id other then none else find_session other ss)
absent-as_dropped id other ss h = elim (Bool-cases (text_eq id other)) [
  | inl e ↦ rw e (subst (λ i. find_session i ss ≡ none) (text_eq→eq id other e) h)
  | inr e ↦ rw e refl
]

All-absent : (ss : List DiagnosticSession) → All (λ s. member s.session_id [] ≡ false) ss
unfolding member
All-absent [] = tt
All-absent (s ∷ ss) = (refl, All-absent ss)

-- DeleteSession succeeds if and only if the manager has a session of the trimmed ID; and after it, in
-- either case, there is none of that ID, and under every other ID what there was.
pub delete_session_lem :
    (id other : Text) (m : Manager)
    → ((delete_session id m).1 ≡ (
        if is_found (find_session (trim_space id) m.sessions) then none else some unknown_session))
      × (find_session other (delete_session id m).0.sessions
          ≡ (if text_eq (trim_space id) other then none else find_session other m.sessions))
unfolding delete_session
delete_session_lem id other m = elim (Option-cases (find_session (trim_space id) m.sessions)) [
  | inl e ↦ rw e (refl, absent-as_dropped (trim_space id) other m.sessions e)
  | inr (s, e) ↦ rw e (
    refl,
    ap (find_session other) (remove-sessions (trim_space id) m)
        ∙ find-drop other (trim_space id) m.sessions,
  )
]

matches : Text → DiagnosticSession → Bool
matches stable s = is_empty stable || text_eq s.stable_id stable

doomed-All :
    (stable : Text) (ss : List DiagnosticSession) (ids : List Text)
    → ((i : Text) → member i (doomed stable ss) ≡ true → member i ids ≡ true)
    → All (λ s. matches stable s ≡ true → member s.session_id ids ≡ true) ss
unfolding member matches
doomed-All stable [] ids k = tt
doomed-All stable (s ∷ ss) ids k = (
  (λ h. k s.session_id (ground (arith, h, text_eq_refl s.session_id))),
  doomed-All stable ss ids (λ i h. k i (ground (arith, h))),
)

drop-gone :
    (id : Text) (ss : List DiagnosticSession)
    → All (λ s. text_eq id s.session_id ≡ false) (drop_session id ss)
unfolding drop_session
drop-gone id [] = tt
drop-gone id (s ∷ ss) = elim (Bool-cases (text_eq s.session_id id)) [
  | inl e ↦ rw e (drop-gone id ss)
  | inr e ↦
      rw e (
        ground (arith, e, text_eq_iff s.session_id id, text_eq_iff id s.session_id),
        drop-gone id ss,
      )
]

-- The sessions that are left have none of the IDs.
module _ {ℓ} (P Q R : DiagnosticSession → Type ℓ) where
  All-both :
      (ss : List DiagnosticSession)
      → ((s : DiagnosticSession) → P s → Q s → R s)
      → All P ss
      → All Q ss
      → All R ss
  All-both [] k a b = tt
  All-both (s ∷ ss) k a b = (k s a.0 b.0, All-both ss k a.1 b.1)

removed-gone :
    (ids : List Text) (m : Manager)
    → All
        (λ s. member s.session_id ids ≡ false)
        (foldl (λ n id. remove_session id n) m ids).sessions
unfolding member
removed-gone [] m = All-absent m.sessions
removed-gone (id ∷ ids) m =
    let first : All (λ s. text_eq id s.session_id ≡ false) (remove_session id m).sessions =
      rw (remove-sessions id m) (drop-gone id m.sessions) in
    All-both (λ s. text_eq id s.session_id ≡ false) (λ s. member s.session_id ids ≡ false)
      (λ s. (text_eq id s.session_id || member s.session_id ids) ≡ false)
      (foldl (λ n i. remove_session i n) (remove_session id m) ids).sessions
      (λ s p q. ground (arith, p, q))
      (remove_all-keeps (All (λ s. text_eq id s.session_id ≡ false))
        (All-drop (λ s. text_eq id s.session_id ≡ false)) ids (remove_session id m) first)
      (removed-gone ids (remove_session id m))

-- After DeleteSessions no session is left of the node whose trimmed ID was given, and none at all if
-- that ID is empty.
pub delete_sessions-clears :
    (stable : Text) (m : Manager)
    → All
        (λ s. (is_empty (trim_space stable) || text_eq s.stable_id (trim_space stable)) ≡ false)
        (delete_sessions stable m).0.sessions
unfolding delete_sessions matches
delete_sessions-clears stable m =
    let ids = doomed (trim_space stable) m.sessions in
    let named : DiagnosticSession → Type 0 =
      λ s. matches (trim_space stable) s ≡ true → member s.session_id ids ≡ true in
    All-both named (λ s. member s.session_id ids ≡ false)
      (λ s. matches (trim_space stable) s ≡ false)
      (foldl (λ n id. remove_session id n) m ids).sessions
      (λ s p q. elim (Bool-cases (matches (trim_space stable) s)) [
        | inl e ↦ absurd (ground (arith, p e, q))
        | inr e ↦ e
      ])
      (remove_all-keeps (All named) (All-drop named) ids m
        (doomed-All (trim_space stable) m.sessions ids (λ i h. h)))
      (removed-gone ids m)
