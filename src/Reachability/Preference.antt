-- ===== src/Reachability/Preference.antt =====
-- reachability/preference.go: PreferAgents, which ranks the agents for one node.
pub mod Standing
pub mod Order
use mathlib.Core.List.{Perm}
use xray_checker_modify.Base.{
  ℕ, suc, Bool, true, false, ◌&&◌, ◌||◌, not, Option, none, some, List, [], ◌∷◌, map, Text, ℤ, pos,
  ltb_ℤ, is_zero, if◌then◌else◌, trim_space, lookup, ltb, ◌==◌, sort_by,
}
use xray_checker_modify.Diagnostics.Types.{ProbeStatus}
use xray_checker_modify.Reachability.Cells.{Cell}
use xray_checker_modify.Reachability.Matrix.{Matrix, Row, row_of}

-- The classes reached, unknown and failed are 0, 1 and 2.
pub record Candidate : Type 0 where
  pub agent_id : Text
  pub rank : ℕ
  pub latency : ℤ
  pub arrival : ℕ

abbrev pub ranked : Text → ℕ → ProbeStatus → ℤ → Candidate
ranked agent index ProbeStatus.online latency = record {
  agent_id = agent;
  rank = 0;
  latency = latency;
  arrival = index;
}
ranked agent index ProbeStatus.offline latency = record {
  agent_id = agent;
  rank = 2;
  latency = pos 0;
  arrival = index;
}
ranked agent index ProbeStatus.proxy_failure latency = record {
  agent_id = agent;
  rank = 2;
  latency = pos 0;
  arrival = index;
}
ranked agent index _ latency = record {
  agent_id = agent;
  rank = 1;
  latency = pos 0;
  arrival = index;
}

-- A cell of an earlier pass is no evidence.
abbrev pub candidate : ℕ → Text → ℕ → Option Cell → Candidate
candidate generation agent index none = ranked agent index ProbeStatus.absent (pos 0)
candidate generation agent index (some c) =
    if ltb 0 generation && not (c.generation == generation)
    then ranked agent index ProbeStatus.absent (pos 0)
    else ranked agent index c.agent_status c.latency_millis

abbrev pub candidates : ℕ → Row → ℕ → List Text → List Candidate
candidates generation row index [] = []
candidates generation row index (agent ∷ agents) =
    candidate generation agent index (lookup (trim_space agent) row)
    ∷ candidates generation row (suc index) agents

abbrev pub same_latency : ℤ → ℤ → Bool
same_latency a b = not (ltb_ℤ a b) && not (ltb_ℤ b a)

unfoldable pub preferred : Candidate → Candidate → Bool
preferred a b =
    if not (a.rank == b.rank)
    then ltb a.rank b.rank
    else if a.rank == 0 && not (same_latency a.latency b.latency)
    then (if is_zero a.latency
        then false
        else if is_zero b.latency
        then true
        else ltb_ℤ a.latency b.latency)
    else ltb a.arrival b.arrival

unfoldable pub prefer_agents : Text → List Text → Matrix → List Text
unfolding preferred sort_by
prefer_agents stable agents m =
    map Candidate.agent_id
      (sort_by preferred (candidates m.sweep_generation (row_of (trim_space stable) m) 0 agents))
