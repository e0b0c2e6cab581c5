-- ===== src/Reachability/Rows/Evidence.antt =====
-- reachability/matrix.go: what deriveRow concludes, and from which cells.
use mathlib.Core.List.{foldl}
use xray_checker_modify.Base.{
  ℕ, Bool, true, false, ◌||◌, not, List, [], ◌∷◌, map, ◌≡◌, refl, sym, ◌∙◌, ap, if◌then◌else◌, All,
  Bool-cases, inl, inr, arith,
}
use xray_checker_modify.Diagnostics.Types.{Time}
use xray_checker_modify.Reachability.Cells.{Cell, is_online}
use xray_checker_modify.Reachability.Rows.{
  NodeRow, counts, local_up, agent_up, judge_cell, judge_local, derive_row,
}

-- The cells that are evidence.
unfoldable pub evidence : List Cell → List Cell
evidence [] = []
evidence (c ∷ cs) = if counts c then c ∷ evidence cs else evidence cs

local_up-evidence : (cs : List Cell) → local_up (evidence cs) ≡ local_up cs
unfolding evidence
local_up-evidence [] = refl
local_up-evidence (c ∷ cs) = ground (arith, local_up-evidence cs)

agent_up-evidence : (cs : List Cell) → agent_up (evidence cs) ≡ agent_up cs
unfolding evidence
agent_up-evidence [] = refl
agent_up-evidence (c ∷ cs) = ground (arith, agent_up-evidence cs)

evidence-nil : evidence [] ≡ []
unfolding evidence
evidence-nil = refl

counted : (c : Cell) (cs : List Cell) → counts c ≡ true → evidence (c ∷ cs) ≡ c ∷ evidence cs
unfolding evidence
counted c cs h = rw h refl

uncounted : (c : Cell) (cs : List Cell) → counts c ≡ false → evidence (c ∷ cs) ≡ evidence cs
unfolding evidence
uncounted c cs h = rw h refl

skipped : (up : Bool) (row : NodeRow) (c : Cell) → counts c ≡ false → judge_local up row c ≡ row
skipped up row c h = rw h refl

judge-evidence :
    (up : Bool) (cs : List Cell) (row : NodeRow)
    → foldl (judge_local up) row (evidence cs) ≡ foldl (judge_local up) row cs
judge-evidence up [] row = ap (foldl (judge_local up) row) evidence-nil
judge-evidence up (c ∷ cs) row = elim (Bool-cases (counts c)) [
  | inl e ↦
      ap (foldl (judge_local up) row) (counted c cs e) ∙ judge-evidence up cs (judge_local up row c)
  | inr e ↦
      ap (foldl (judge_local up) row) (uncounted c cs e)
      ∙ judge-evidence up cs row
      ∙ ap (λ r. foldl (judge_local up) r cs) (sym (skipped up row c e))
]

-- What a row says of its node, without its cells.
abbrev pub summary : NodeRow → Bool × Bool × Time × ℕ
summary r = (r.alive, r.local_unreachable, r.local_since, r.local_streak)

judge_local-summary :
    (up : Bool) (row : NodeRow) (c : Cell) (others : List Cell)
    → judge_local up (record row { cells = others }) c
      ≡ record (judge_local up row c) { cells = others }
judge_local-summary up row c others =
    elim (Bool-cases (not (counts c) || (up || is_online c.local_status))) [
      | inl e ↦ rw e refl
      | inr e ↦ rw e refl
    ]

judge_local-cells :
    (up : Bool) (cs others : List Cell) (row : NodeRow)
    → summary (foldl (judge_local up) (record row { cells = others }) cs)
      ≡ summary (foldl (judge_local up) row cs)
judge_local-cells up [] others row = refl
judge_local-cells up (c ∷ cs) others row =
    ap (λ r. summary (foldl (judge_local up) r cs)) (judge_local-summary up row c others)
    ∙ judge_local-cells up cs others (judge_local up row c)

-- Whether the node lives, whether the checker fails to reach it, since when and how often, does not
-- depend on the unknown and the stale cells of the row: without them it is the same.
pub derive_row-evidence :
    (row : NodeRow)
    → summary (derive_row (record row { cells = evidence row.cells })) ≡ summary (derive_row row)
unfolding derive_row
derive_row-evidence row =
    let up = local_up row.cells in
    let alive = row.alive || agent_up row.cells || up in
    rw (local_up-evidence row.cells, agent_up-evidence row.cells)
      (elim (Bool-cases alive) [
        | inl e ↦
            rw
              (
                e,
                judge-evidence up row.cells
                    (record row { cells = evidence row.cells; alive = true }),
              )
              (judge_local-cells up row.cells (evidence row.cells) (record row { alive = true }))
        | inr e ↦ rw e refl
      ])

judge_local-up :
    (row : NodeRow) (c : Cell) → (judge_local true row c).local_unreachable ≡ row.local_unreachable
judge_local-up row c = ground arith

-- A checker that is up is not found unreachable.
foldl-up :
    (cs : List Cell) (row : NodeRow)
    → (foldl (judge_local true) row cs).local_unreachable ≡ row.local_unreachable
foldl-up [] row = refl
foldl-up (c ∷ cs) row = foldl-up cs (judge_local true row c) ∙ judge_local-up row c

-- The checker is said not to reach a node (in a row that Rows builds, where nothing is said before)
-- only if an agent with a cell that is evidence reached it, and no such cell says that the checker did.
pub derive_row-local :
    (row : NodeRow)
    → row.alive ≡ false
    → row.local_unreachable ≡ false
    → (derive_row row).local_unreachable ≡ true
    → (agent_up row.cells ≡ true) × (local_up row.cells ≡ false)
unfolding derive_row
derive_row-local row a l h =
    let up = local_up row.cells in
    let seen = agent_up row.cells in
    elim (Bool-cases up) [
      | inl u ↦
          let kept = foldl-up row.cells (record row { alive = true }) in
          absurd (ground (arith, l, kept, rw (a, u) at h))
      | inr u ↦ elim (Bool-cases seen) [
        | inl g ↦ (g, u)
        | inr g ↦ absurd (ground (arith, l, rw (a, u, g) at h))
      ]
    ]

judged :
    (cs : List Cell) {L : Type 0}
    → All (λ c. c.unreachable ≡ false) cs
    → L
    → All
        (λ c. c.unreachable ≡ true → (counts c ≡ true) × (is_online c.agent_status ≡ false) × L)
        (map judge_cell cs)
judged [] h l = tt
judged (c ∷ cs) h l = (
  (λ u. elim (Bool-cases (counts c)) [
    | inl e ↦ (rw e e, ground (arith, rw e at u), l)
    | inr e ↦ absurd (ground (arith, h.0, rw e at u))
  ]),
  judged cs h.1 l,
)

unmarked :
    (Q : Cell → Type 0) (cs : List Cell)
    → All (λ c. c.unreachable ≡ false) cs
    → All (λ c. c.unreachable ≡ true → Q c) cs
unmarked Q [] h = tt
unmarked Q (c ∷ cs) h = ((λ u. absurd (ground (arith, h.0, u))), unmarked Q cs h.1)

-- A cell is marked unreachable (in a row in which none was and that was not yet said to be alive) only
-- if it is evidence, its agent did not reach the node, and by a cell that is evidence another agent or
-- the checker did.
pub derive_row-unreachable :
    (row : NodeRow)
    → row.alive ≡ false
    → All (λ c. c.unreachable ≡ false) row.cells
    → All
        (λ c.
          c.unreachable ≡ true
          → (counts c ≡ true)
            × (is_online c.agent_status ≡ false)
            × ((agent_up row.cells || local_up row.cells) ≡ true))
        (derive_row row).cells
unfolding derive_row
derive_row-unreachable row a h = elim (Bool-cases (agent_up row.cells || local_up row.cells)) [
  | inl e ↦ rw (a, e) (judged row.cells h refl)
  | inr e ↦ rw (a, e) (unmarked _ row.cells h)
]
