-- ===== src/Diagnostics/Lifecycle.antt =====
-- diagnostics/manager.go: the life of one session as a machine that knows nothing of jobs, nonces,
-- times and limits. It holds the session's terms and the observations accepted for it.
pub mod Moves
pub mod Refines
pub mod Deadline
pub mod Answer
use xray_checker_modify.Base.{
  ℕ, Bool, true, false, Option, none, some, List, [], ◌∷◌, ◌++◌, ◌≡◌, Text, if◌then◌else◌,
}
use xray_checker_modify.Diagnostics.Types.{
  SessionState, session_terminal, AcceptedObservation, DiagnosticSession,
}
use xray_checker_modify.Diagnostics.Manager.{Manager, find_session}
use xray_checker_modify.Diagnostics.Lemmas.Effect.{terms}
use xray_checker_modify.Diagnostics.Calls.{
  Call, create, register, mark, accept, cancel, look, remove, remove_all,
}

-- What a call may do to a session.
pub data Kind : Type 0 where
  creating accepting changing removing : Kind

abbrev pub kind : Call → Kind
kind (create now id r) = creating
kind (register now id fresh r) = changing
kind (mark to now id) = changing
kind (accept now o) = accepting
kind (cancel now id) = changing
kind (look now id) = changing
kind (remove id) = removing
kind (remove_all stable) = removing

abbrev pub removes : Kind → Bool
removes removing = true
removes _ = false

pub data View : Type 0 where
  absent : View
  active : DiagnosticSession → List AcceptedObservation → View
  ended : DiagnosticSession → List AcceptedObservation → SessionState → View

unfoldable pub view_of : Option DiagnosticSession → View
view_of none = absent
view_of (some s) =
    if session_terminal s.state
    then ended (terms s) s.agent_observations s.state
    else active (terms s) s.agent_observations

-- What the machine shows of the session of an ID.
unfoldable pub view : Text → Manager → View
unfolding find_session view_of
view id m = view_of (find_session id m.sessions)

-- What one call of a kind does to the session of an ID: it stays as it is; it is opened where there was
-- none; it gets one observation and is open after it or ends with it; it ends; it goes once it has
-- ended, or ends and goes in one creation; or it is deleted.
pub data Way : Kind → View → View → Type 0 where
  stays : (k : Kind) (v : View) → Way k v v
  opens : (t : DiagnosticSession) → Way creating absent (active t [])
  hears :
      (t : DiagnosticSession) (as' bs : List AcceptedObservation) (a : AcceptedObservation)
      → bs ≡ as' ++ a ∷ []
      → Way accepting (active t as') (active t bs)
  answers :
      (t : DiagnosticSession) (as' bs : List AcceptedObservation) (a : AcceptedObservation)
      (st : SessionState)
      → bs ≡ as' ++ a ∷ []
      → session_terminal st ≡ true
      → Way accepting (active t as') (ended t bs st)
  ends :
      (k : Kind) (t : DiagnosticSession) (as' : List AcceptedObservation) (st : SessionState)
      → removes k ≡ false
      → session_terminal st ≡ true
      → Way k (active t as') (ended t as' st)
  evicts :
      (t : DiagnosticSession) (as' : List AcceptedObservation) (st : SessionState)
      → Way creating (ended t as' st) absent
  lapses :
      (t : DiagnosticSession) (as' : List AcceptedObservation) → Way creating (active t as') absent
  deletes : (v : View) → Way removing v absent

-- The ways of a sequence of calls.
pub data History : List Call → View → View → Type 0 where
  nothing : (v : View) → History [] v v
  call :
      (c : Call) (cs : List Call) (v w x : View)
      → Way (kind c) v w
      → History cs w x
      → History (c ∷ cs) v x
