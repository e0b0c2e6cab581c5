-- ===== src/Reachability/Matrix.antt =====
-- reachability/matrix.go: the matrix and the operations that change it. A matrix that is nil, which
-- each of them leaves alone, is left out.
pub mod Streak
pub mod Retained
use xray_checker_modify.Base.{
  ℕ, suc, ◌+◌, Bool, true, false, ◌&&◌, ◌||◌, not, Option, none, some, List, [], ◌∷◌, Text,
  if◌then◌else◌, trim_space, is_empty, lookup, insert, ltb, ◌==◌,
}
use xray_checker_modify.Diagnostics.Types.{Time}
use xray_checker_modify.Reachability.Cells.{Cell, same_verdict}

abbrev pub Row : Type 0
Row = List (Text × Cell)

pub record Matrix : Type 0 where
  pub cells : List (Text × Row)
  pub names : List (Text × Text)
  pub last_sweep_at : Time
  pub sweep_generation : ℕ

-- NewMatrix
abbrev pub empty_matrix : Matrix
empty_matrix = record { cells = []; names = []; last_sweep_at = 0; sweep_generation = 0 }

abbrev pub or_empty : Option Row → Row
or_empty none = []
or_empty (some row) = row

abbrev pub row_of : Text → Matrix → Row
row_of stable m = or_empty (lookup stable m.cells)

-- Record: a verdict that stays keeps its time, and a streak grows with a newer local sample only.
abbrev pub first_seen : Cell → Cell
first_seen c = record c { since = c.checked_at; streak = 1 }

unfoldable pub continued : Option Cell → Cell → Cell
continued none c = first_seen c
continued (some p) c =
    if same_verdict p.verdict c.verdict && not (p.since == 0)
    then record c {
      since = p.since;
      streak = if ltb p.local_checked_at c.local_checked_at then p.streak + 1 else p.streak;
    }
    else first_seen c

abbrev pub current : ℕ → Time → Cell → Cell
current generation now c = record c {
  checked_at = if c.checked_at == 0 then now else c.checked_at;
  generation = generation;
}

unfoldable pub record_cell : Time → Text → Cell → Matrix → Matrix × Cell
unfolding continued
record_cell now stable_id cell m =
    let stable = trim_space stable_id in
    let c = record cell { agent_id = trim_space cell.agent_id } in
    let row = row_of stable m in
    let next = continued (lookup c.agent_id row) (current m.sweep_generation now c) in
    if is_empty stable || is_empty c.agent_id
    then (m, c)
    else (record m { cells = insert stable (insert c.agent_id next row) m.cells }, next)

-- BeginSweep
unfoldable pub begin_sweep : Matrix → Matrix
begin_sweep m = record m { sweep_generation = m.sweep_generation + 1 }

-- Retain. `agents[id]` is false for an ID that the map has not.
abbrev pub known_agent : Option Bool → Bool
known_agent none = false
known_agent (some b) = b

unfoldable pub retain_cells : List (Text × Bool) → Row → Row
retain_cells agents [] = []
retain_cells agents ((id, c) ∷ row) =
    if known_agent (lookup id agents)
    then (id, c) ∷ retain_cells agents row
    else retain_cells agents row

abbrev pub is_known : Option Text → Bool
is_known none = false
is_known (some _) = true

abbrev pub no_cells : Row → Bool
no_cells [] = true
no_cells (_ ∷ _) = false

unfoldable pub retain_rows :
    List (Text × Text) → List (Text × Bool) → List (Text × Row) → List (Text × Row)
unfolding retain_cells
retain_rows nodes agents [] = []
retain_rows nodes agents ((id, row) ∷ rows) =
    let kept = retain_cells agents row in
    let rest = retain_rows nodes agents rows in
    if not (is_known (lookup id nodes)) || no_cells kept then rest else (id, kept) ∷ rest

unfoldable pub retain : List (Text × Text) → List (Text × Bool) → Matrix → Matrix
unfolding retain_rows
retain nodes agents m = record m { cells = retain_rows nodes agents m.cells; names = nodes }

-- MarkSweep
unfoldable pub mark_sweep : Time → Matrix → Matrix
mark_sweep at m = record m { last_sweep_at = at }
