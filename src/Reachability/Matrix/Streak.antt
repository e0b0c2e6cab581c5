-- ===== src/Reachability/Matrix/Streak.antt =====
-- reachability/matrix.go: what Record stores, and that one local sample read again confirms nothing.
use mathlib.Core.Path.{subst}
use xray_checker_modify.Base.{
  Bool, false, ◌&&◌, ◌||◌, Option, none, some, List, [], ◌∷◌, ◌≡◌, refl, sym, ◌∙◌, Text, text_eq,
  text_eq→eq, text_eq_refl, if◌then◌else◌, trim_space, is_empty, lookup, insert, lookup-insert, All,
  Bool-cases, inl, inr, some-eq, none-ne-some, arith,
}
use xray_checker_modify.Diagnostics.Types.{Time}
use xray_checker_modify.Reachability.Cells.{Cell, confirmed}
use xray_checker_modify.Reachability.Matrix.{
  Row, Matrix, or_empty, row_of, continued, current, record_cell,
}

-- The cell of an agent for a node.
abbrev pub cell_at : Text → Text → Matrix → Option Cell
cell_at stable agent m = lookup agent (row_of stable m)

row-insert :
    (stable other : Text) (agent : Text) (c : Cell) (m : Matrix) (rows : List (Text × Row))
    → or_empty (lookup other (insert stable (insert agent c (or_empty (lookup stable rows))) rows))
      ≡ (if text_eq stable other
          then insert agent c (or_empty (lookup other rows))
          else or_empty (lookup other rows))
row-insert stable other agent c m rows =
    rw (lookup-insert stable other (insert agent c (or_empty (lookup stable rows))) rows)
      (elim (Bool-cases (text_eq stable other)) [
        | inl e ↦ rw (e, text_eq→eq stable other e) refl
        | inr e ↦ rw e refl
      ])

-- Record stores the cell that it returns under the trimmed IDs, and every other cell stays as it was,
-- where neither of the IDs is blank.
pub record_cell-stored :
    (now : Time) (stable_id : Text) (cell : Cell) (m : Matrix) (other agent : Text)
    → is_empty (trim_space stable_id) ≡ false
    → is_empty (trim_space cell.agent_id) ≡ false
    → cell_at other agent (record_cell now stable_id cell m).0 ≡ (
        if text_eq (trim_space stable_id) other && text_eq (trim_space cell.agent_id) agent
        then some (record_cell now stable_id cell m).1
        else cell_at other agent m)
unfolding record_cell
record_cell-stored now stable_id cell m other agent h k =
    let stable = trim_space stable_id in
    let name = trim_space cell.agent_id in
    let next =
      continued (lookup name (row_of stable m))
        (current m.sweep_generation now (record cell { agent_id = name })) in
    rw (h, k, row-insert stable other name next m m.cells)
      (elim (Bool-cases (text_eq stable other)) [
        | inl e ↦ rw e (lookup-insert name agent next (or_empty (lookup other m.cells)))
        | inr e ↦ rw e refl
      ])

-- The stored cell of an agent, if there is one, has a streak of one from this local sample.
abbrev pub OneSample : Time → Text → Text → Matrix → Type 0
OneSample t stable agent m =
    (c : Cell) → cell_at stable agent m ≡ some c → (c.streak ≡ 1) × (c.local_checked_at ≡ t)

continued-one :
    (t : Time) (o : Option Cell) (c : Cell)
    → ((p : Cell) → o ≡ some p → (p.streak ≡ 1) × (p.local_checked_at ≡ t))
    → c.local_checked_at ≡ t
    → ((continued o c).streak ≡ 1) × ((continued o c).local_checked_at ≡ t)
unfolding continued
continued-one t none c k h = (refl, h)
continued-one t (some p) c k h =
    let q = k p refl in (ground (arith, q.0, q.1, h), ground (arith, h))

-- Many results recorded for one node, each with the time of its recording.
unfoldable pub record_all : Text → List (Time × Cell) → Matrix → Matrix
unfolding record_cell
record_all stable [] m = m
record_all stable ((now, c) ∷ cs) m = record_all stable cs (record_cell now stable c m).0

module _ (t : Time) (stable_id agent : Text) where
  record_cell-one :
      (now : Time) (cell : Cell) (m : Matrix)
      → (trim_space cell.agent_id ≡ agent → cell.local_checked_at ≡ t)
      → OneSample t (trim_space stable_id) agent m
      → OneSample t (trim_space stable_id) agent (record_cell now stable_id cell m).0
  unfolding record_cell
  record_cell-one now cell m h k c e =
      let stable = trim_space stable_id in
      let name = trim_space cell.agent_id in
      let here = current m.sweep_generation now (record cell { agent_id = name }) in
      elim (Bool-cases (is_empty stable || is_empty name)) [
        | inl blank ↦ k c (rw blank at e)
        | inr full ↦
            let stored =
              sym (
                record_cell-stored now stable_id cell m stable agent (ground (arith, full))
                  (ground (arith, full)))
              ∙ e in
            elim (Bool-cases (text_eq name agent)) [
              | inl own ↦
                  let named = text_eq→eq name agent own in
                  let same = some-eq _ c (rw (own, text_eq_refl stable, full) at stored) in
                  subst (λ x. (x.streak ≡ 1) × (x.local_checked_at ≡ t)) same
                    (continued-one t (cell_at stable name m) here
                      (λ p q. k p (subst (λ a. cell_at stable a m ≡ some p) named q)) (h named))
              | inr other ↦ k c (rw (other, text_eq_refl stable) at stored)
            ]
      ]

  record_all-one :
      (cs : List (Time × Cell)) (m : Matrix)
      → All (λ r. trim_space r.1.agent_id ≡ agent → r.1.local_checked_at ≡ t) cs
      → OneSample t (trim_space stable_id) agent m
      → OneSample t (trim_space stable_id) agent (record_all stable_id cs m)
  unfolding record_all
  record_all-one [] m h k = k
  record_all-one ((now, c) ∷ cs) m h k =
      record_all-one cs (record_cell now stable_id c m).0 h.1 (record_cell-one now c m h.0 k)

-- However often results of an agent are recorded for a node, with results of other agents between
-- them: if the agent had no cell there before, and all its results were compared with a local sample
-- of the same time, then its stored cell has a streak of one and is not confirmed, whatever the mark
-- `unreachable` that a reader of the row adds.
pub record_all-unconfirmed :
    (t : Time) (stable_id agent : Text) (cs : List (Time × Cell)) (m : Matrix) (c : Cell)
    (mark : Bool)
    → cell_at (trim_space stable_id) agent m ≡ none
    → All (λ r. trim_space r.1.agent_id ≡ agent → r.1.local_checked_at ≡ t) cs
    → cell_at (trim_space stable_id) agent (record_all stable_id cs m) ≡ some c
    → (c.streak ≡ 1) × (confirmed (record c { unreachable = mark }) ≡ false)
unfolding confirmed
record_all-unconfirmed t stable_id agent cs m c mark n h e =
    let one =
      record_all-one t stable_id agent cs m h (λ p q. absurd (none-ne-some p (sym n ∙ q))) c e in
    (one.0, ground (arith, one.0))
