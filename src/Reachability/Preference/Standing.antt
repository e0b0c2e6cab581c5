-- ===== src/Reachability/Preference/Standing.antt =====
-- reachability/preference.go: what the matrix says of an agent and a node, and what the class of the
-- agent in PreferAgents has of it.

use xray_checker_modify.Base.{
  ℕ, ◌≤◌, true, false, ◌&&◌, not, Option, none, some, ◌≡◌, refl, Text, ◌⊎◌, inl, inr, ◌↔◌, ℤ, pos,
  ltb_ℤ, is_zero, ltb, ◌==◌, Bool-cases, trim_space, lookup, arith,
}
use xray_checker_modify.Diagnostics.Types.{ProbeStatus}
use xray_checker_modify.Reachability.Cells.{Cell}
use xray_checker_modify.Reachability.Matrix.{Matrix, row_of}
use xray_checker_modify.Reachability.Preference.{Candidate, ranked, candidate}

-- A cell that is of the last sweep that has begun, or any if none has.
abbrev pub IsCurrent : ℕ → Cell → Type 0
IsCurrent g c = (g ≡ 0) ⊎ (c.generation ≡ g)

-- A current cell that says that the agent reached the node, or that it did not.
abbrev pub SaysReached : ℕ → Option Cell → Type 0
SaysReached g none = ⊥
SaysReached g (some c) = IsCurrent g c × (c.agent_status ≡ ProbeStatus.online)

abbrev pub SaysFailed : ℕ → Option Cell → Type 0
SaysFailed g none = ⊥
SaysFailed g (some c) =
    IsCurrent g c
    × ((c.agent_status ≡ ProbeStatus.offline) ⊎ (c.agent_status ≡ ProbeStatus.proxy_failure))

-- The cell of the agent for the node.
abbrev pub cell_of : Text → Matrix → Text → Option Cell
cell_of stable m agent = lookup (trim_space agent) (row_of (trim_space stable) m)

abbrev pub Reached : Text → Matrix → Text → Type 0
Reached stable m agent = SaysReached m.sweep_generation (cell_of stable m agent)

abbrev pub Failed : Text → Matrix → Text → Type 0
Failed stable m agent = SaysFailed m.sweep_generation (cell_of stable m agent)

-- A latency that is not known is no better than any other.
abbrev pub NoSlower : ℤ → ℤ → Type 0
NoSlower a b = (is_zero b ≡ true) ⊎ ((is_zero a ≡ false) × (ltb_ℤ b a ≡ false))

abbrev pub latency_in : Option Cell → ℤ
latency_in none = pos 0
latency_in (some c) = c.latency_millis

-- The first agent may stand before the second.
pub record MayPrecede (stable : Text) (m : Matrix) (a b : Text) : Type 0 where
  pub reached : Reached stable m b → Reached stable m a
  pub failed : Failed stable m a → Failed stable m b
  pub faster :
      Reached stable m a
      → Reached stable m b
      → NoSlower (latency_in (cell_of stable m a)) (latency_in (cell_of stable m b))

-- What the rank and the latency of a candidate say of its agent's cell.
pub record IsRanked (g : ℕ) (o : Option Cell) (c : Candidate) : Type 0 where
  pub first : (c.rank ≡ 0) ↔ SaysReached g o
  pub last : (2 ≤ c.rank) ↔ SaysFailed g o
  pub timed : c.rank ≡ 0 → c.latency ≡ latency_in o

not_stale-IsCurrent :
    (g : ℕ) (c : Cell) → (ltb 0 g && not (c.generation == g)) ≡ false → IsCurrent g c
not_stale-IsCurrent g c h = ground (arith, h)

stale-not_current :
    (g : ℕ) (c : Cell) → (ltb 0 g && not (c.generation == g)) ≡ true → IsCurrent g c → ⊥
stale-not_current g c h k = ground (arith, h, k)

status-IsRanked :
    (g : ℕ) (agent : Text) (i : ℕ) (c : Cell) (st : ProbeStatus)
    → c.agent_status ≡ st
    → IsCurrent g c
    → IsRanked g (some c) (ranked agent i st c.latency_millis)
status-IsRanked g agent i c ProbeStatus.online e k = record {
  first = (λ _. (k, e), λ _. refl);
  last = (λ h. absurd (omega (arith, h)), λ h. absurd (ground (arith, e, h)));
  timed = λ _. refl;
}
status-IsRanked g agent i c ProbeStatus.offline e k = record {
  first = (λ h. absurd (omega (arith, h)), λ h. absurd (ground (arith, e, h)));
  last = (λ _. (k, inl e), λ _. omega arith);
  timed = λ h. absurd (omega (arith, h));
}
status-IsRanked g agent i c ProbeStatus.proxy_failure e k = record {
  first = (λ h. absurd (omega (arith, h)), λ h. absurd (ground (arith, e, h)));
  last = (λ _. (k, inr e), λ _. omega arith);
  timed = λ h. absurd (omega (arith, h));
}
status-IsRanked g agent i c ProbeStatus.unknown e k = record {
  first = (λ h. absurd (omega (arith, h)), λ h. absurd (ground (arith, e, h)));
  last = (λ h. absurd (omega (arith, h)), λ h. absurd (ground (arith, e, h)));
  timed = λ h. absurd (omega (arith, h));
}
status-IsRanked g agent i c ProbeStatus.absent e k = record {
  first = (λ h. absurd (omega (arith, h)), λ h. absurd (ground (arith, e, h)));
  last = (λ h. absurd (omega (arith, h)), λ h. absurd (ground (arith, e, h)));
  timed = λ h. absurd (omega (arith, h));
}
status-IsRanked g agent i c ProbeStatus.unsupported e k = record {
  first = (λ h. absurd (omega (arith, h)), λ h. absurd (ground (arith, e, h)));
  last = (λ h. absurd (omega (arith, h)), λ h. absurd (ground (arith, e, h)));
  timed = λ h. absurd (omega (arith, h));
}

unknown-IsRanked :
    (g : ℕ) (agent : Text) (i : ℕ) (o : Option Cell)
    → (SaysReached g o → ⊥)
    → (SaysFailed g o → ⊥)
    → IsRanked g o (ranked agent i ProbeStatus.absent (pos 0))
unknown-IsRanked g agent i o r f = record {
  first = (λ h. absurd (omega (arith, h)), λ h. absurd (r h));
  last = (λ h. absurd (omega (arith, h)), λ h. absurd (f h));
  timed = λ h. absurd (omega (arith, h));
}

pub candidate-IsRanked :
    (g : ℕ) (agent : Text) (i : ℕ) (o : Option Cell) → IsRanked g o (candidate g agent i o)
candidate-IsRanked g agent i none = unknown-IsRanked g agent i none (λ h. h) (λ h. h)
candidate-IsRanked g agent i (some c) = elim (Bool-cases (ltb 0 g && not (c.generation == g))) [
  | inl e ↦ rw e (
      unknown-IsRanked g agent i (some c) (λ h. stale-not_current g c e h.0)
        (λ h. stale-not_current g c e h.0))
  | inr e ↦ rw e (status-IsRanked g agent i c c.agent_status refl (not_stale-IsCurrent g c e))
]
