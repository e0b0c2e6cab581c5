-- ===== src/Reachability/Verdict/Newest.antt =====
-- reachability/verdict.go: which observation CellFor reads, and when it finds a divergence.
use mathlib.Core.Path.{subst}
use xray_checker_modify.Base.{
  Bool, true, false, not, Option, none, some, List, [], ◌∷◌, ◌++◌, ◌≡◌, ◌⊎◌, ap, Text, text_eq,
  if◌then◌else◌, trim_space, All, Bool-cases, Option-cases, inl, inr, some-eq, none-ne-some, arith,
}
use xray_checker_modify.Diagnostics.Types.{Time, AcceptedObservation, DiagnosticSession}
use xray_checker_modify.Reachability.Cells.{Verdict, divergent, is_online}
use xray_checker_modify.Reachability.Verdict.{
  observation_for, cell_for, judged_cell, heard_cell, blank_cell, no_local_result, compare_up,
}

abbrev pub IsFrom : Text → AcceptedObservation → Type 0
IsFrom agent a = text_eq a.observation.agent_id agent ≡ true

-- The observation is in the list, it is the agent's, and no later one is.
pub record IsNewest (as' : List AcceptedObservation) (agent : Text) (a : AcceptedObservation)
    : Type 0 where
  pub earlier : List AcceptedObservation
  pub later : List AcceptedObservation
  pub split : as' ≡ earlier ++ a ∷ later
  pub own : IsFrom agent a
  pub last : All (λ b. text_eq b.observation.agent_id agent ≡ false) later

newest :
    (found : Option AcceptedObservation) (as' : List AcceptedObservation) (agent : Text)
    (a : AcceptedObservation)
    → observation_for found as' agent ≡ some a
    → ((found ≡ some a) × All (λ b. text_eq b.observation.agent_id agent ≡ false) as')
      ⊎ IsNewest as' agent a
unfolding observation_for
newest found [] agent a h = inl (h, tt)
newest found (b ∷ as') agent a h = elim (Bool-cases (text_eq b.observation.agent_id agent)) [
  | inl e ↦ elim (newest (some b) as' agent a (rw e at h)) [
    | inl (same, rest) ↦
        let b_is_a = some-eq b a same in
        inr (record {
          earlier = [];
          later = as';
          split = ap (λ (x : AcceptedObservation). x ∷ as') b_is_a;
          own = subst (IsFrom agent) b_is_a e;
          last = rest;
        })
    | inr n ↦ inr (record {
      earlier = b ∷ n.earlier;
      later = n.later;
      split = ap (λ (t : List AcceptedObservation). b ∷ t) n.split;
      own = n.own;
      last = n.last;
    })
  ]
  | inr e ↦ elim (newest found as' agent a (rw e at h)) [
    | inl (same, rest) ↦ inl (same, (e, rest))
    | inr n ↦ inr (record {
      earlier = b ∷ n.earlier;
      later = n.later;
      split = ap (λ (t : List AcceptedObservation). b ∷ t) n.split;
      own = n.own;
      last = n.last;
    })
  ]
]

pub observation_for-IsNewest :
    (as' : List AcceptedObservation) (agent : Text) (a : AcceptedObservation)
    → observation_for none as' agent ≡ some a
    → IsNewest as' agent a
observation_for-IsNewest as' agent a h = elim (newest none as' agent a h) [
  | inl (n, rest) ↦ absurd (none-ne-some a n)
  | inr n ↦ n
]

-- The evidence for a divergence.
pub record Divergence (s : DiagnosticSession) (agent : Text) : Type 0 where
  pub answer : AcceptedObservation
  pub newest : IsNewest s.agent_observations agent answer
  pub reliable : answer.reliable ≡ true
  pub local_known : no_local_result s.local_result_snapshot.status ≡ false
  pub apart : is_online s.local_result_snapshot.status ≡ not (is_online answer.observation.status)

judged-divergent :
    (c : Verdict) (reliable no_local local_online agent_online : Bool)
    → divergent (
        if not reliable
        then Verdict.unknown
        else if no_local
        then Verdict.unknown
        else compare_up local_online agent_online)
      ≡ true
    → (reliable ≡ true) × (no_local ≡ false) × (local_online ≡ not agent_online)
judged-divergent c reliable no_local local_online agent_online h = ground arith

judged_cell-verdict :
    (s : DiagnosticSession) (agent : Text) (now : Time) (a : AcceptedObservation)
    → (judged_cell (heard_cell (blank_cell s agent now) a) a).verdict ≡ (
        if not a.reliable
        then Verdict.unknown
        else if no_local_result s.local_result_snapshot.status
        then Verdict.unknown
        else compare_up (is_online s.local_result_snapshot.status) (is_online a.observation.status))
judged_cell-verdict s agent now a = ground arith

-- A cell is divergent only if the newest observation of the agent in the session is reliable, the
-- checker had a result of its own, and of the two exactly one found the node online.
pub cell_for-divergent :
    (s : DiagnosticSession) (agent : Text) (now : Time)
    → divergent (cell_for s agent now).verdict ≡ true
    → Divergence s (trim_space agent)
unfolding cell_for
cell_for-divergent s agent now h =
    let name = trim_space agent in
    elim (Option-cases (observation_for none s.agent_observations name)) [
      | inl e ↦ absurd (ground (arith, rw (e, cell_for) at h))
      | inr (a, e) ↦
          let judged = rw (e, cell_for) at h in
          let parts =
            judged-divergent Verdict.unknown _ _ _ _
              (subst (λ v. divergent v ≡ true) (judged_cell-verdict s name now a) judged) in
          record {
            answer = a;
            newest = observation_for-IsNewest s.agent_observations name a e;
            reliable = parts.0;
            local_known = parts.1;
            apart = parts.2;
          }
    ]
