-- ===== src/Reachability/Rows.antt =====
-- reachability/matrix.go: Rows, deriveRow and Findings, which read the matrix.
pub mod Evidence
use mathlib.Core.List.{foldl}
use xray_checker_modify.Base.{
  ℕ, Bool, true, false, ◌&&◌, ◌||◌, not, Option, none, some, List, [], ◌∷◌, ◌++◌, map, Text,
  text_eq, any, if◌then◌else◌, lookup, ltb, leb, ◌==◌, text_lt, sort_by,
}
use xray_checker_modify.Diagnostics.Types.{Time, ProbeStatus, FailureStage}
use xray_checker_modify.Reachability.Cells.{Cell, is_unknown, is_online, confirmed}
use xray_checker_modify.Reachability.Matrix.{Matrix, Row}

pub record NodeRow : Type 0 where
  pub stable_id : Text
  pub name : Text
  pub cells : List Cell
  pub alive : Bool
  pub local_unreachable : Bool
  pub local_since : Time
  pub local_streak : ℕ

-- A cell that is evidence: neither unknown nor stale.
abbrev pub counts : Cell → Bool
counts c = not (is_unknown c.verdict) && not c.stale

abbrev pub local_up : List Cell → Bool
local_up = any (λ c. counts c && is_online c.local_status)

abbrev pub agent_up : List Cell → Bool
agent_up = any (λ c. counts c && is_online c.agent_status)

abbrev pub judge_cell : Cell → Cell
judge_cell c = if counts c then record c { unreachable = not (is_online c.agent_status) } else c

abbrev pub judge_local : Bool → NodeRow → Cell → NodeRow
judge_local up row c =
    if not (counts c) || (up || is_online c.local_status) then row else record row {
      local_unreachable = true;
      local_streak = if ltb row.local_streak c.streak then c.streak else row.local_streak;
      local_since =
          if row.local_since == 0 || ltb c.since row.local_since then c.since else row.local_since;
    }

unfoldable pub derive_row : NodeRow → NodeRow
derive_row row =
    let up = local_up row.cells in
    let alive = row.alive || agent_up row.cells || up in
    let living = record row { alive = alive } in
    if not alive
    then living
    else record (foldl (judge_local up) living row.cells) { cells = map judge_cell row.cells }

-- Rows: by node and then by agent.
abbrev pub mark_stale : ℕ → Cell → Cell
mark_stale generation c = record c { stale = ltb 0 generation && not (c.generation == generation) }

abbrev pub cells_of : Row → List Cell
cells_of [] = []
cells_of ((_, c) ∷ row) = c ∷ cells_of row

abbrev pub or_blank : Option Text → Text
or_blank none = []
or_blank (some t) = t

abbrev pub row_from : Matrix → Text × Row → NodeRow
row_from m (id, row) = record {
  stable_id = id;
  name = or_blank (lookup id m.names);
  cells =
      sort_by (λ a b. text_lt a.agent_id b.agent_id)
        (map (mark_stale m.sweep_generation) (cells_of row));
  alive = false;
  local_unreachable = false;
  local_since = 0;
  local_streak = 0;
}

unfoldable pub rows : Matrix → List NodeRow
unfolding derive_row sort_by text_lt
rows m = map (λ r. derive_row (row_from m r)) (sort_by (λ a b. text_lt a.0 b.0) m.cells)

pub record Finding : Type 0 where
  pub stable_id : Text
  pub name : Text
  pub agent_id : Text
  pub is_local : Bool
  pub status : ProbeStatus
  pub failure_code : Text
  pub failure_stage : FailureStage
  pub tcp_reached : Bool
  pub since : Time
  pub streak : ℕ
  pub is_confirmed : Bool

-- localStatusOf
unfoldable pub local_status_of : List Cell → ProbeStatus
local_status_of [] = ProbeStatus.unknown
local_status_of (c ∷ cs) = if counts c then c.local_status else local_status_of cs

abbrev pub local_finding : NodeRow → Finding
local_finding row = record {
  stable_id = row.stable_id;
  name = row.name;
  agent_id = [];
  is_local = true;
  status = local_status_of row.cells;
  failure_code = [];
  failure_stage = FailureStage.absent;
  tcp_reached = false;
  since = row.local_since;
  streak = row.local_streak;
  is_confirmed = leb 2 row.local_streak;
}

abbrev pub cell_finding : NodeRow → Cell → Finding
cell_finding row c = record {
  stable_id = row.stable_id;
  name = row.name;
  agent_id = c.agent_id;
  is_local = false;
  status = c.agent_status;
  failure_code = c.failure_code;
  failure_stage = c.failure_stage;
  tcp_reached = c.tcp_reached;
  since = c.since;
  streak = c.streak;
  is_confirmed = confirmed c;
}

abbrev pub cell_findings : NodeRow → List Cell → List Finding
cell_findings row [] = []
cell_findings row (c ∷ cs) =
    if c.unreachable then cell_finding row c ∷ cell_findings row cs else cell_findings row cs

abbrev pub row_findings : NodeRow → List Finding
row_findings row =
    if not row.alive
    then []
    else (if row.local_unreachable then local_finding row ∷ [] else [])
      ++ cell_findings row row.cells

abbrev pub collect : List NodeRow → List Finding
collect [] = []
collect (r ∷ rs) = row_findings r ++ collect rs

-- Findings: the confirmed first, then the newest, then by node and agent.
abbrev pub finding_before : Finding → Finding → Bool
finding_before a b =
    if not a.is_confirmed && b.is_confirmed
    then false
    else if a.is_confirmed && not b.is_confirmed
    then true
    else if not (a.since == b.since)
    then ltb b.since a.since
    else if not (text_eq a.stable_id b.stable_id)
    then text_lt a.stable_id b.stable_id
    else text_lt a.agent_id b.agent_id

unfoldable pub findings : Matrix → List Finding
unfolding rows confirmed local_status_of sort_by text_lt
findings m = sort_by finding_before (collect (rows m))
