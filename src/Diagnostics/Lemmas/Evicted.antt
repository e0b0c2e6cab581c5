-- ===== src/Diagnostics/Lemmas/Evicted.antt =====
-- makeCapacityLocked and CreateSession: which sessions give way to a new one.
use mathlib.Core.Path.{subst}
use xray_checker_modify.Base.{
  ℕ, Bool, true, false, ◌||◌, Option, none, some, List, [], ◌∷◌, ◌≡◌, ◌⊎◌, refl, sym, ◌∙◌, ap, Text,
  text_eq, text_eq→eq, arith, Bool-cases, inl, inr, member, distinct, none-ne-some, some-eq, ltb,
  length,
}
use xray_checker_modify.Diagnostics.Types.{
  Time, DiagnosticSession, session_terminal, CreateSessionRequest,
}
use xray_checker_modify.Diagnostics.Session.{expire_session}
use xray_checker_modify.Diagnostics.Manager.{
  ManagerConfig, Manager, find_session, remove_session, expire,
}
use xray_checker_modify.Diagnostics.Capacity.{
  finished, insert_by_time, by_time, remove_until, make_capacity,
}
use xray_checker_modify.Diagnostics.Operations.{create_session}
use xray_checker_modify.Diagnostics.Lemmas.Find.{find-expire}
use xray_checker_modify.Diagnostics.Lemmas.Ids.{session_ids, ids-expire}
use xray_checker_modify.Diagnostics.Lemmas.Removal.{find-drop, remove-sessions}
use xray_checker_modify.Diagnostics.Lemmas.Created.{
  Created, refused, aged, crowded, added, create_session-Created,
}

-- Whether an ID is one of those that are to be removed.
abbrev named : Text → List (Text × Time) → Bool
named id [] = false
named id ((i, t) ∷ rest) = text_eq i id || named id rest

named-insert :
    (id : Text) (x : Text × Time) (xs : List (Text × Time))
    → named id (insert_by_time x xs) ≡ named id (x ∷ xs)
named-insert id x [] = refl
named-insert id (i, t) ((j, u) ∷ xs) = ground (arith, named-insert id (i, t) xs)

named-by_time : (id : Text) (xs : List (Text × Time)) → named id (by_time xs) ≡ named id xs
named-by_time id [] = refl
named-by_time id ((i, t) ∷ xs) =
    named-insert id (i, t) (by_time xs) ∙ ap (λ b. text_eq i id || b) (named-by_time id xs)

finished-absent :
    (id : Text) (ss : List DiagnosticSession)
    → member id (session_ids ss) ≡ false
    → named id (finished ss) ≡ false
unfolding member
finished-absent id [] h = refl
finished-absent id (s ∷ ss) h = ground (arith, finished-absent id ss)

finished-open :
    (id : Text) (ss : List DiagnosticSession) (s : DiagnosticSession)
    → distinct (session_ids ss) ≡ true
    → find_session id ss ≡ some s
    → session_terminal s.state ≡ false
    → named id (finished ss) ≡ false
unfolding distinct find_session
finished-open id [] s d h live = refl
finished-open id (t ∷ ss) s d h live = elim (Bool-cases (text_eq t.session_id id)) [
  | inl e ↦
      let same = some-eq t s (rw e at h) in
      let unended : session_terminal t.state ≡ false = rw same live in
      let alone : member id (session_ids ss) ≡ false =
        subst (λ i. member i (session_ids ss) ≡ false) (text_eq→eq t.session_id id e)
          (ground (arith, d)) in
      rw unended (finished-absent id ss alone)
  | inr e ↦
      let rest = finished-open id ss s (ground (arith, d)) (rw e at h) live in
      ground (arith, e, rest)
]

remove_until-found :
    (id : Text) (max : ℕ) (ids : List (Text × Time)) (m : Manager)
    → named id ids ≡ false
    → find_session id (remove_until max ids m).0.sessions ≡ find_session id m.sessions
unfolding remove_until
remove_until-found id max [] m h = refl
remove_until-found id max ((i, t) ∷ rest) m h =
    let other : text_eq i id ≡ false = ground (arith, h) in
    let once : find_session id (remove_session i m).sessions ≡ find_session id m.sessions =
      rw (remove-sessions i m, find-drop id i m.sessions, other) refl in
    elim (Bool-cases (ltb (length (remove_session i m).sessions) max)) [
      | inl e ↦ rw e once
      | inr e ↦
          rw e (remove_until-found id max rest (remove_session i m) (ground (arith, h)) ∙ once)
    ]

pub make_capacity-open :
    (id : Text) (max : ℕ) (m : Manager) (s : DiagnosticSession)
    → distinct (session_ids m.sessions) ≡ true
    → find_session id m.sessions ≡ some s
    → session_terminal s.state ≡ false
    → find_session id (make_capacity max m).0.sessions ≡ some s
unfolding make_capacity
make_capacity-open id max m s d h live = elim (Bool-cases (ltb (length m.sessions) max)) [
  | inl e ↦ rw e h
  | inr e ↦
      let spared =
        named-by_time id (finished m.sessions) ∙ finished-open id m.sessions s d h live in
      rw e (remove_until-found id max (by_time (finished m.sessions)) m spared ∙ h)
]

cons-other :
    (id : Text) (t : DiagnosticSession) (ss ts : List DiagnosticSession) (s : DiagnosticSession)
    → find_session t.session_id ss ≡ none
    → find_session id ss ≡ some s
    → find_session id (t ∷ ts) ≡ find_session id ts
unfolding find_session
cons-other id t ss ts s fresh h = elim (Bool-cases (text_eq t.session_id id)) [
  | inl e ↦ absurd (
      none-ne-some s
        (sym (subst (λ i. find_session i ss ≡ none) (text_eq→eq t.session_id id e) fresh) ∙ h))
  | inr e ↦ rw e refl
]

pub distinct-expire :
    (now : Time) (m : Manager)
    → distinct (session_ids m.sessions) ≡ true
    → distinct (session_ids (expire now m).sessions) ≡ true
unfolding expire
distinct-expire now m d = rw (ids-expire now m.sessions) d

module _ (cfg : ManagerConfig) (now : Time) (m : Manager) (id : Text) (s : DiagnosticSession) where
  expire-open :
      find_session id m.sessions ≡ some s
      → find_session id (expire now m).sessions ≡ some (expire_session now s)
  unfolding expire
  expire-open h = rw (find-expire now id m.sessions, h) refl

  Created-open :
      {n : Manager}
      → Created cfg now m n
      → distinct (session_ids m.sessions) ≡ true
      → find_session id m.sessions ≡ some s
      → session_terminal (expire_session now s).state ≡ false
      → (find_session id n.sessions ≡ some s)
        ⊎ (find_session id n.sessions ≡ some (expire_session now s))
  Created-open refused d h live = inl h
  Created-open aged d h live = inr (expire-open h)
  Created-open crowded d h live = inr (
      make_capacity-open id cfg.max_sessions (expire now m) (expire_session now s)
        (distinct-expire now m d) (expire-open h) live)
  Created-open (added t fresh k room live_new silent) d h live = inr (
      cons-other id t (expire now m).sessions _ (expire_session now s) fresh (expire-open h)
      ∙ make_capacity-open id cfg.max_sessions (expire now m) (expire_session now s)
          (distinct-expire now m d) (expire-open h) live)

-- A creation, whether it succeeds or not, removes no open session: a session that has not ended by that
-- time is still there afterwards, as it was or as it is once what is due has expired. The sessions
-- that the manager has must be of different IDs.
pub create_session-open :
    (cfg : ManagerConfig) (now : Time) (fresh : Option Text) (r : CreateSessionRequest)
    (m : Manager) (id : Text) (s : DiagnosticSession)
    → distinct (session_ids m.sessions) ≡ true
    → find_session id m.sessions ≡ some s
    → session_terminal (expire_session now s).state ≡ false
    → (find_session id (create_session cfg now fresh r m).0.sessions ≡ some s)
      ⊎ (find_session id (create_session cfg now fresh r m).0.sessions
          ≡ some (expire_session now s))
create_session-open cfg now fresh r m id s d h live =
    Created-open cfg now m id s (create_session-Created cfg now m fresh r) d h live
