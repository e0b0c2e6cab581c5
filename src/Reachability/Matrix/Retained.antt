-- ===== src/Reachability/Matrix/Retained.antt =====
-- reachability/matrix.go: what Retain keeps.
use mathlib.Core.Path.{subst}
use xray_checker_modify.Base.{
  Bool, true, false, ◌&&◌, ◌||◌, not, Option, none, some, List, [], ◌∷◌, ◌≡◌, refl, sym, ◌∙◌, Text,
  text_eq, text_eq→eq, if◌then◌else◌, lookup, arith, Bool-cases, inl, inr, member, distinct,
}
use xray_checker_modify.Reachability.Cells.{Cell}
use xray_checker_modify.Reachability.Matrix.{
  Row, Matrix, or_empty, known_agent, is_known, no_cells, retain_cells, retain_rows, retain,
}
use xray_checker_modify.Reachability.Matrix.Streak.{cell_at}

abbrev pub keys : List (Text × Row) → List Text
keys [] = []
keys ((id, _) ∷ rows) = id ∷ keys rows

abbrev pub only_if {ℓ} : {A : Type ℓ} → Bool → Option A → Option A
only_if b o = if b then o else none

lookup-retain_cells :
    (agents : List (Text × Bool)) (agent : Text) (row : Row)
    → lookup agent (retain_cells agents row)
      ≡ only_if (known_agent (lookup agent agents)) (lookup agent row)
unfolding lookup retain_cells
lookup-retain_cells agents agent [] = ground arith
lookup-retain_cells agents agent ((id, c) ∷ row) = elim (Bool-cases (text_eq id agent)) [
  | inl e ↦ rw (text_eq→eq id agent e) (ground (arith, lookup-retain_cells agents agent row))
  | inr e ↦ ground (arith, e, lookup-retain_cells agents agent row)
]

module _ (nodes : List (Text × Text)) (agents : List (Text × Bool)) (stable agent : Text) where
  lookup-retain_absent :
      (rows : List (Text × Row))
      → member stable (keys rows) ≡ false
      → lookup stable (retain_rows nodes agents rows) ≡ none
  unfolding lookup retain_rows member
  lookup-retain_absent [] h = refl
  lookup-retain_absent ((id, row) ∷ rows) h = ground (arith, lookup-retain_absent rows)

  -- The cell of the agent in a row that may have been dropped.
  abbrev in_row : Option Row → Option Cell
  in_row o = lookup agent (or_empty o)

  abbrev keeps : Bool
  keeps = is_known (lookup stable nodes) && known_agent (lookup agent agents)

  empty-lookup : (row : Row) → no_cells row ≡ true → lookup agent row ≡ none
  unfolding lookup
  empty-lookup [] h = refl
  empty-lookup (x ∷ row) h = ground arith

  none-only_if : (b : Bool) → ◌≡◌ {A = Option Cell} none (only_if b none)
  none-only_if true = refl
  none-only_if false = refl

  head-retained :
      (row : Row) (rest : List (Text × Row))
      → lookup stable rest ≡ none
      → in_row (
          if not (is_known (lookup stable nodes)) || no_cells (retain_cells agents row)
          then lookup stable rest
          else some (retain_cells agents row))
        ≡ only_if keeps (lookup agent row)
  unfolding lookup
  head-retained row rest absent = elim (Bool-cases (is_known (lookup stable nodes))) [
    | inr u ↦ rw (u, absent) refl
    | inl k ↦ elim (Bool-cases (no_cells (retain_cells agents row))) [
      | inl e ↦
          rw (k, e, absent)
            (sym (empty-lookup (retain_cells agents row) e) ∙ lookup-retain_cells agents agent row)
      | inr e ↦ rw (k, e) (lookup-retain_cells agents agent row)
    ]
  ]

  rows-retained :
      (rows : List (Text × Row))
      → distinct (keys rows) ≡ true
      → in_row (lookup stable (retain_rows nodes agents rows))
        ≡ only_if keeps (in_row (lookup stable rows))
  unfolding lookup retain_rows distinct
  rows-retained [] d = none-only_if keeps
  rows-retained ((id, row) ∷ rows) d =
      let dropped = not (is_known (lookup id nodes)) || no_cells (retain_cells agents row) in
      elim (Bool-cases (text_eq id stable)) [
        | inl e ↦
            let same = text_eq→eq id stable e in
            let kept = retain_cells agents row in
            let alone : member stable (keys rows) ≡ false =
              subst (λ i. member i (keys rows) ≡ false) same (ground (arith, d)) in
            let absent = lookup-retain_absent rows alone in
            let found = head-retained row (retain_rows nodes agents rows) absent in
            elim (Bool-cases dropped) [
              | inl o ↦
                  let gone =
                    subst (λ i. (not (is_known (lookup i nodes)) || no_cells kept) ≡ true) same o in
                  rw (e, o) (rw gone at found)
              | inr o ↦
                  let stays =
                    subst (λ i. (not (is_known (lookup i nodes)) || no_cells kept) ≡ false) same
                      o in
                  rw (e, o, e) (rw stays at found)
            ]
        | inr e ↦ elim (Bool-cases dropped) [
          | inl o ↦ rw (e, o) (rows-retained rows (ground (arith, d)))
          | inr o ↦ rw (e, o, e) (rows-retained rows (ground (arith, d)))
        ]
      ]

-- After Retain the matrix has a cell exactly where it had one before, the node is one of those given,
-- and the agent is one of those given as true; and that cell is as it was. No node may have two rows.
pub retain-cell_at :
    (nodes : List (Text × Text)) (agents : List (Text × Bool)) (m : Matrix) (stable agent : Text)
    → distinct (keys m.cells) ≡ true
    → cell_at stable agent (retain nodes agents m) ≡ (
        if is_known (lookup stable nodes) && known_agent (lookup agent agents)
        then cell_at stable agent m
        else none)
unfolding retain
retain-cell_at nodes agents m stable agent d = rows-retained nodes agents stable agent m.cells d
