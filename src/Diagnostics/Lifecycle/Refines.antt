-- ===== src/Diagnostics/Lifecycle/Refines.antt =====
-- Every call of the manager is a way through the abstract machine, for each ID.
use mathlib.Core.List.{foldl}
use mathlib.Core.Path.{subst}
use xray_checker_modify.Base.{
  Bool, true, false, Option, none, some, List, [], ◌∷◌, ◌≡◌, ◌⊎◌, trim_space, refl, sym, ap, ◌∙◌,
  Text, text_eq, text_eq→eq, Bool-cases, Option-cases, inl, inr, distinct,
}
use xray_checker_modify.Diagnostics.Types.{Time, Observation, session_terminal, DiagnosticSession}
use xray_checker_modify.Diagnostics.Manager.{
  ManagerConfig, Manager, empty_manager, find_session, drop_session, expire, is_found,
  remove_session,
}
use xray_checker_modify.Diagnostics.Capacity.{make_capacity}
use xray_checker_modify.Diagnostics.Operations.{session, delete_session, delete_sessions, doomed}
use xray_checker_modify.Diagnostics.Calls.{
  Call, create, register, mark, accept, cancel, look, remove, remove_all, step, run,
}
use xray_checker_modify.Diagnostics.Calls.Frozen.{make_capacity-Stays}
use xray_checker_modify.Diagnostics.Calls.Invariant.{SessionsOk, step-SessionsOk, run-SessionsOk}
use xray_checker_modify.Diagnostics.Lemmas.Effect.{
  register_job-Effect, transition_job-Effect, accept_observation-Effect, cancel_session-Effect,
  terms,
}
use xray_checker_modify.Diagnostics.Lemmas.Ids.{session_ids}
use xray_checker_modify.Diagnostics.Lemmas.Removal.{
  find-drop, make_capacity-keeps, remove-keeps, remove_all-keeps,
}
use xray_checker_modify.Diagnostics.Lemmas.Evicted.{make_capacity-open, distinct-expire}
use xray_checker_modify.Diagnostics.Lemmas.Created.{
  Created, refused, aged, crowded, added, create_session-Created,
}
use xray_checker_modify.Diagnostics.Lifecycle.{
  creating, accepting, changing, removing, absent, active, view_of, view, opens, evicts, deletes,
  Way, stays, History, nothing, call, kind,
}
use xray_checker_modify.Diagnostics.Lifecycle.Moves.{
  follow, same, between, view-ended, view-active, expire-Passing, expire-Way, Effect-Way,
}

shown :
    (s : DiagnosticSession)
    → session_terminal s.state ≡ false
    → s.agent_observations ≡ []
    → active (terms s) [] ≡ view_of (some s)
shown s live silent = sym (view-active s live ∙ ap (active (terms s)) silent)

module _ (id : Text) where
  drop-absent :
      (other : Text) (ss : List DiagnosticSession)
      → find_session id ss ≡ none
      → find_session id (drop_session other ss) ≡ none
  drop-absent other ss h = elim (Bool-cases (text_eq other id)) [
    | inl e ↦ rw (find-drop id other ss, e) refl
    | inr e ↦ rw (find-drop id other ss, e) h
  ]

  make_capacity-Way :
      (max : _) (m : Manager)
      → distinct (session_ids m.sessions) ≡ true
      → Way creating (view id m) (view id (make_capacity max m).0)
  unfolding view
  make_capacity-Way max m d = elim (Option-cases (find_session id m.sessions)) [
    | inl e ↦ same creating (
        ap view_of
          (e ∙ sym (make_capacity-keeps (λ ss. find_session id ss ≡ none) drop-absent max m e)))
    | inr (s, e) ↦ elim (Bool-cases (session_terminal s.state)) [
      | inr live ↦ same creating (ap view_of (e ∙ sym (make_capacity-open id max m s d e live)))
      | inl done ↦ elim (make_capacity-Stays id s done max m e) [
        | inl kept ↦ same creating (ap view_of (e ∙ sym kept))
        | inr gone ↦
            between (ap view_of e ∙ view-ended s done) (ap view_of (sym gone))
              (evicts (terms s) s.agent_observations s.state)
      ]
    ]
  ]

  module _ (cfg : ManagerConfig) (now : Time) (m : Manager)
      (d : distinct (session_ids m.sessions) ≡ true) where
    roomy-Way : Way creating (view id m) (view id (make_capacity cfg.max_sessions (expire now m)).0)
    roomy-Way =
        follow refl (expire-Passing now id m)
          (make_capacity-Way cfg.max_sessions (expire now m) (distinct-expire now m d))

    Created-Way : {n : Manager} → Created cfg now m n → Way creating (view id m) (view id n)
    unfolding view find_session
    Created-Way refused = stays creating _
    Created-Way aged = expire-Way creating now id m refl
    Created-Way crowded = roomy-Way
    Created-Way (added s fresh o room live silent) = elim (Bool-cases (text_eq s.session_id id)) [
      | inl e ↦
          let before =
            subst (λ i. find_session i (expire now m).sessions ≡ none)
              (text_eq→eq s.session_id id e) fresh in
          rw e (
            follow refl (expire-Passing now id m)
              (between (ap view_of before) (shown s live silent) (opens (terms s))))
      | inr e ↦ rw e roomy-Way
    ]

  -- What a deletion leaves of the session.
  abbrev Left : Option DiagnosticSession → List DiagnosticSession → Type 0
  Left o ss = (find_session id ss ≡ o) ⊎ (find_session id ss ≡ none)

  Left-drop :
      (o : Option DiagnosticSession) (other : Text) (ss : List DiagnosticSession)
      → Left o ss
      → Left o (drop_session other ss)
  Left-drop o other ss k = elim (Bool-cases (text_eq other id)) [
    | inl e ↦ inr (rw (find-drop id other ss, e) refl)
    | inr e ↦ rw (find-drop id other ss, e) k
  ]

  Left-Way :
      (m n : Manager)
      → Left (find_session id m.sessions) n.sessions
      → Way removing (view id m) (view id n)
  unfolding view
  Left-Way m n (inl e) = same removing (ap view_of (sym e))
  Left-Way m n (inr e) = between refl (ap view_of (sym e)) (deletes _)

  delete_session-Way :
      (other : Text) (m : Manager) → Way removing (view id m) (view id (delete_session other m).0)
  unfolding delete_session
  delete_session-Way other m =
      let o = find_session id m.sessions in
      elim (Bool-cases (is_found (find_session (trim_space other) m.sessions))) [
        | inl e ↦ rw e (
            Left-Way m (remove_session (trim_space other) m)
              (remove-keeps (Left o) (Left-drop o) (trim_space other) m (inl refl)))
        | inr e ↦ rw e (stays removing _)
      ]

  delete_sessions-Way :
      (stable : Text) (m : Manager)
      → Way removing (view id m) (view id (delete_sessions stable m).0)
  unfolding delete_sessions
  delete_sessions-Way stable m =
      let o = find_session id m.sessions in
      let ids = doomed (trim_space stable) m.sessions in
      Left-Way m (foldl (λ n i. remove_session i n) m ids)
        (remove_all-keeps (Left o) (Left-drop o) ids m (inl refl))

module _ (verify : Observation → Bool) (cfg : ManagerConfig) (id : Text) where
  step-Way :
      (c : Call) (m : Manager)
      → distinct (session_ids m.sessions) ≡ true
      → Way (kind c) (view id m) (view id (step verify cfg c m))
  unfolding step session view
  step-Way (create now i r) m d = Created-Way id cfg now m d (create_session-Created cfg now m i r)
  step-Way (register now i fresh r) m d = elim (register_job-Effect now i fresh r m) [
    | inl e ↦ same changing (ap (λ p. view id p.0) (sym e))
    | inr k ↦ follow refl (expire-Passing now id m) (Effect-Way changing id refl k)
  ]
  step-Way (mark to now i) m d =
      follow refl (expire-Passing now id m)
        (Effect-Way changing id refl (transition_job-Effect to now i m))
  step-Way (accept now o) m d = elim (accept_observation-Effect verify cfg now o m) [
    | inl e ↦ same accepting (ap (λ p. view id p.0) (sym e))
    | inr k ↦ follow refl (expire-Passing now id m) (Effect-Way accepting id refl k)
  ]
  step-Way (cancel now i) m d =
      follow refl (expire-Passing now id m)
        (Effect-Way changing id refl (cancel_session-Effect now i m))
  step-Way (look now i) m d = expire-Way changing now id m refl
  step-Way (remove i) m d = delete_session-Way id i m
  step-Way (remove_all stable) m d = delete_sessions-Way id stable m

  from-History :
      (cs : List Call) (m : Manager)
      → SessionsOk cfg.max_sessions m.sessions
      → History cs (view id m) (view id (run verify cfg cs m))
  unfolding run
  from-History [] m o = nothing _
  from-History (c ∷ cs) m o =
      call c cs _ _ _ (step-Way c m o.different)
        (from-History cs (step verify cfg c m) (step-SessionsOk verify cfg c m o))

  empty-History :
      (cs : List Call)
      → History cs (view id empty_manager) (view id (run verify cfg cs empty_manager))
  unfolding run
  empty-History cs = from-History cs empty_manager (run-SessionsOk verify cfg [])

  nothing_yet : view id empty_manager ≡ absent
  unfolding view find_session view_of
  nothing_yet = refl

  -- Whatever calls a manager that starts empty gets, what it has under an ID is a history of the
  -- abstract machine, one way for each call: a session is opened by a creation only, under an ID that
  -- has none; while it is open its terms stand, an acceptance adds at most one observation, behind those
  -- before, and no other call adds any; it ends by any call but a deletion, and from then on stays as it
  -- is until it goes; a creation may evict one that has ended or that it ends, and puts none in its
  -- place; and a deletion may remove any.
  pub run-History : (cs : List Call) → History cs absent (view id (run verify cfg cs empty_manager))
  run-History cs =
      subst (λ v. History cs v (view id (run verify cfg cs empty_manager))) nothing_yet
        (empty-History cs)
