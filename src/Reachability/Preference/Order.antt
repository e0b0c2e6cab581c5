-- ===== src/Reachability/Preference/Order.antt =====
-- reachability/preference.go: the agents that PreferAgents returns, and their order.
use mathlib.Core.Path.{subst}
use mathlib.Core.Bool.{true≢false}
use mathlib.Core.List.{Perm}
use mathlib.Core.List.Perm as PermLaws
use xray_checker_modify.Base.{
  ℕ, suc, ◌≤◌, true, false, Option, List, [], ◌∷◌, map, ◌≡◌, refl, sym, ◌∙◌, ap₂, Text, inl, inr, ℤ,
  ltb_ℤ, is_zero, Bool-cases, trim_space, lookup, sort_by, sort_by-Perm, sort_by-Sorted, Sorted,
  All-sort_by, All, arith,
}
use xray_checker_modify.Reachability.Cells.{Cell}
use xray_checker_modify.Reachability.Matrix.{Matrix, Row, row_of}
use xray_checker_modify.Reachability.Preference.Standing.{
  NoSlower, MayPrecede, IsRanked, cell_of, latency_in, candidate-IsRanked,
}
use xray_checker_modify.Reachability.Preference.{
  Candidate, candidate, candidates, preferred, prefer_agents, same_latency,
}

agent-candidate :
    (g : ℕ) (agent : Text) (i : ℕ) (o : Option Cell) → (candidate g agent i o).agent_id ≡ agent
agent-candidate g agent i o = ground arith

agents-candidates :
    (g : ℕ) (row : Row) (i : ℕ) (agents : List Text)
    → map Candidate.agent_id (candidates g row i agents) ≡ agents
agents-candidates g row i [] = refl
agents-candidates g row i (a ∷ agents) =
    ap₂ ◌∷◌ (agent-candidate g a i (lookup (trim_space a) row))
      (agents-candidates g row (suc i) agents)

-- PreferAgents returns the agents that it was given, each as often as it was given, in some order.
pub prefer_agents-Perm :
    (stable : Text) (agents : List Text) (m : Matrix) → Perm (prefer_agents stable agents m) agents
unfolding prefer_agents
prefer_agents-Perm stable agents m =
    let cs = candidates m.sweep_generation (row_of (trim_space stable) m) 0 agents in
    subst (Perm (map Candidate.agent_id (sort_by preferred cs)))
      (agents-candidates m.sweep_generation (row_of (trim_space stable) m) 0 agents)
      (PermLaws.map Candidate.agent_id (sort_by-Perm preferred cs))

-- The order of the candidates, without the order in which they came.
record NotAfter (a b : Candidate) : Type 0 where
  rank : a.rank ≤ b.rank
  latency : a.rank ≡ 0 → b.rank ≡ 0 → NoSlower a.latency b.latency

ltb_ℤ-trans : (a b c : ℤ) → ltb_ℤ b a ≡ false → ltb_ℤ c b ≡ false → ltb_ℤ c a ≡ false
ltb_ℤ-trans a b c p q = ground (arith, p, q)

ltb_ℤ-refl : (a : ℤ) → ltb_ℤ a a ≡ false
ltb_ℤ-refl a = ground arith

ltb_ℤ-asym : (a b : ℤ) → ltb_ℤ a b ≡ true → ltb_ℤ b a ≡ false
ltb_ℤ-asym a b h = ground (arith, h)

same_latency-le :
    (a b : ℤ) → same_latency a b ≡ true → (is_zero a ≡ is_zero b) × (ltb_ℤ b a ≡ false)
same_latency-le a b h = (ground (arith, h), ground (arith, h))

NoSlower-trans : (a b c : ℤ) → NoSlower a b → NoSlower b c → NoSlower a c
NoSlower-trans a b c p (inl z) = inl z
NoSlower-trans a b c (inl y) (inr q) = absurd (true≢false (sym y ∙ q.0))
NoSlower-trans a b c (inr p) (inr q) = inr (p.0, ltb_ℤ-trans a b c p.1 q.1)

NotAfter-trans : (a b c : Candidate) → NotAfter a b → NotAfter b c → NotAfter a c
NotAfter-trans a b c p q = record {
  rank = omega (arith, p.rank, q.rank);
  latency = λ x z.
      let y : b.rank ≡ 0 = omega (arith, q.rank, z) in
      NoSlower-trans a.latency b.latency c.latency (p.latency x y) (q.latency y z);
}

reached-NoSlower : (a b : ℤ) → same_latency a b ≡ true → NoSlower a b
reached-NoSlower a b h =
    let s = same_latency-le a b h in
    elim (Bool-cases (is_zero b)) [ inl z ↦ inl z | inr z ↦ inr (s.0 ∙ z, s.1) ]

same_latency-sym : (a b : ℤ) → same_latency a b ≡ same_latency b a
same_latency-sym a b = ground arith

latency_up :
    (a b : Candidate)
    → preferred a b ≡ true
    → a.rank ≡ 0
    → b.rank ≡ 0
    → NoSlower a.latency b.latency
unfolding preferred
latency_up a b h x z = elim (Bool-cases (same_latency a.latency b.latency)) [
  | inl s ↦ reached-NoSlower a.latency b.latency s
  | inr s ↦ elim (Bool-cases (is_zero b.latency)) [
    | inl k ↦ inl k
    | inr k ↦
        let chosen = rw (x, z, s, k) at h in
        inr (ground (arith, chosen), ltb_ℤ-asym a.latency b.latency (ground (arith, chosen)))
  ]
]

latency_down :
    (a b : Candidate)
    → preferred a b ≡ false
    → b.rank ≡ 0
    → a.rank ≡ 0
    → NoSlower b.latency a.latency
unfolding preferred
latency_down a b h z x = elim (Bool-cases (same_latency a.latency b.latency)) [
  | inl s ↦ reached-NoSlower b.latency a.latency (same_latency-sym b.latency a.latency ∙ s)
  | inr s ↦ elim (Bool-cases (is_zero a.latency)) [
    | inl k ↦ inl k
    | inr k ↦
        let chosen = rw (x, z, s, k) at h in inr (ground (arith, chosen), ground (arith, chosen))
  ]
]

up : (a b : Candidate) → preferred a b ≡ true → NotAfter a b
unfolding preferred
up a b h = record { rank = ground (arith, h); latency = latency_up a b h }

down : (a b : Candidate) → preferred a b ≡ false → NotAfter b a
unfolding preferred
down a b h = record { rank = ground (arith, h); latency = latency_down a b h }

module _ (stable : Text) (m : Matrix) where
  abbrev Stands : Candidate → Type 0
  Stands c = IsRanked m.sweep_generation (cell_of stable m c.agent_id) c

  candidates-Stands :
      (i : ℕ) (agents : List Text)
      → All Stands (candidates m.sweep_generation (row_of (trim_space stable) m) i agents)
  candidates-Stands i [] = tt
  candidates-Stands i (a ∷ agents) =
      let row = row_of (trim_space stable) m in
      let o = lookup (trim_space a) row in
      (
        subst
            (λ t.
              IsRanked m.sweep_generation (cell_of stable m t) (candidate m.sweep_generation a i o))
            (sym (agent-candidate m.sweep_generation a i o))
            (candidate-IsRanked m.sweep_generation a i o),
        candidates-Stands (suc i) agents,
      )

  NotAfter-MayPrecede :
      (a b : Candidate)
      → Stands a
      → Stands b
      → NotAfter a b
      → MayPrecede stable m a.agent_id b.agent_id
  NotAfter-MayPrecede a b p q r = record {
    reached = λ h. p.first.0 (omega (arith, r.rank, q.first.1 h));
    failed = λ h. q.last.0 (omega (arith, r.rank, p.last.1 h));
    faster = λ h k.
        let x = p.first.1 h in
        let y = q.first.1 k in
        subst (λ l. NoSlower l (latency_in (cell_of stable m b.agent_id))) (p.timed x)
          (subst (λ l. NoSlower a.latency l) (q.timed y) (r.latency x y));
  }

  each-MayPrecede :
      (a : Candidate) (cs : List Candidate)
      → Stands a
      → All Stands cs
      → All (NotAfter a) cs
      → All (MayPrecede stable m a.agent_id) (map Candidate.agent_id cs)
  each-MayPrecede a [] p h k = tt
  each-MayPrecede a (c ∷ cs) p h k =
      (NotAfter-MayPrecede a c p h.0 k.0, each-MayPrecede a cs p h.1 k.1)

  agents-MayPrecede :
      (cs : List Candidate)
      → All Stands cs
      → Sorted NotAfter cs
      → Sorted (MayPrecede stable m) (map Candidate.agent_id cs)
  agents-MayPrecede [] h k = tt
  agents-MayPrecede (c ∷ cs) h k = (each-MayPrecede c cs h.0 h.1 k.0, agents-MayPrecede cs h.1 k.1)

-- PreferAgents returns the agents that it was given, each as often as it was. One whose current cell for
-- the node says that it reached the node stands before all of which that is not so, and one whose
-- current cell says that it did not behind all of which that is not so, where a cell is current if
-- it is of the last sweep that has begun or no sweep has. Of two that reached it the one with the
-- smaller latency stands first, and one with no latency behind those that have one.
pub prefer_agents-Sorted :
    (stable : Text) (agents : List Text) (m : Matrix)
    → Perm (prefer_agents stable agents m) agents
      × Sorted (MayPrecede stable m) (prefer_agents stable agents m)
unfolding prefer_agents
prefer_agents-Sorted stable agents m =
    let cs = candidates m.sweep_generation (row_of (trim_space stable) m) 0 agents in
    (
      prefer_agents-Perm stable agents m,
      agents-MayPrecede stable m (sort_by preferred cs)
          (All-sort_by preferred (Stands stable m) cs (candidates-Stands stable m 0 agents))
          (sort_by-Sorted preferred NotAfter NotAfter-trans up down cs),
    )
