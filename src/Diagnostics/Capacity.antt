-- ===== src/Diagnostics/Capacity.antt =====
-- diagnostics/manager.go: makeCapacityLocked, which drops finished sessions, the oldest first.
use xray_checker_modify.Base.{ℕ, Bool, true, false, List, [], ◌∷◌, Text, ltb, length, if◌then◌else◌}
use xray_checker_modify.Diagnostics.Types.{Time, session_terminal, DiagnosticSession}
use xray_checker_modify.Diagnostics.Manager.{Manager, remove_session}

abbrev pub finished : List DiagnosticSession → List (Text × Time)
finished [] = []
finished (s ∷ ss) =
    if session_terminal s.state then (s.session_id, s.created_at) ∷ finished ss else finished ss

-- sort.Slice by the time of creation; of two with one time the first stays first.
abbrev pub insert_by_time : Text × Time → List (Text × Time) → List (Text × Time)
insert_by_time x [] = x ∷ []
insert_by_time x (y ∷ ys) = if ltb y.1 x.1 then y ∷ insert_by_time x ys else x ∷ y ∷ ys

abbrev pub by_time : List (Text × Time) → List (Text × Time)
by_time [] = []
by_time (x ∷ xs) = insert_by_time x (by_time xs)

-- The loop: `false` is ErrCapacity. What was removed before stays removed.
unfoldable pub remove_until : ℕ → List (Text × Time) → Manager → Manager × Bool
remove_until max [] m = (m, false)
remove_until max ((id, _) ∷ rest) m =
    let smaller = remove_session id m in
    let further = remove_until max rest smaller in
    if ltb (length smaller.sessions) max then (smaller, true) else further

-- The state, and whether there is room.
unfoldable pub make_capacity : ℕ → Manager → Manager × Bool
unfolding remove_until session_terminal
make_capacity max m =
    if ltb (length m.sessions) max
    then (m, true)
    else remove_until max (by_time (finished m.sessions)) m
