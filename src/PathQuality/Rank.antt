-- ===== src/PathQuality/Rank.antt =====
-- pathquality/report.go: Ranked.
use mathlib.Core.List.{Perm}
use xray_checker_modify.Base.{
  ℕ, ◌<◌, Bool, true, false, not, ◌&&◌, List, [], ◌∷◌, ◌≡◌, ◌⊎◌, sym, ◌∙◌, Text, ◌==◌,
  if◌then◌else◌, text_lt, sort_by, sort_by-Perm, sort_by-SortedIn, Sorted, All, arith, Bool-cases,
  inl, inr,
}
use xray_checker_modify.Diagnostics.Types.{Time}
use xray_checker_modify.PathQuality.Measurement.{Options}
use xray_checker_modify.PathQuality.Report.{
  NodeInput, NodeReport, Report, FleetTally, share_lt, share_of, build_nodes, tally_results,
  new_tally, build,
}
use xray_checker_modify.PathQuality.Worst.{IsMost, IsMost-trans, share-IsMost, share-IsLess}

-- The order of the slice: BadShare differs if one of the two is less.
unfoldable pub ranks_before : NodeReport → NodeReport → Bool
ranks_before x y =
    let left = x.peak in
    let right = y.peak in
    if not (left.runs == 0) && right.runs == 0
    then true
    else if left.runs == 0 && not (right.runs == 0)
    then false
    else if share_lt right.bad_share left.bad_share
    then true
    else if share_lt left.bad_share right.bad_share
    then false
    else text_lt x.name y.name

unfoldable pub ranked : {Location : Type 0} → Report Location → List NodeReport
unfolding ranks_before
ranked r = sort_by ranks_before r.nodes

-- A node that ran in the peak stands before one that did not, and otherwise one with a share that is
-- at least as high.
abbrev pub IsRanked : NodeReport → NodeReport → Type 0
IsRanked x y =
    ((0 < x.peak.runs) × (y.peak.runs ≡ 0))
    ⊎ (((x.peak.runs == 0) ≡ (y.peak.runs == 0)) × IsMost y.peak.bad_share x.peak.bad_share)

abbrev IsFraction : NodeReport → Type 0
IsFraction x = 0 < x.peak.bad_share.1

IsRanked-trans : (x y z : NodeReport) → IsFraction y → IsRanked x y → IsRanked y z → IsRanked x z
IsRanked-trans x y z p (inl (ran, idle)) (inl (ran', idle')) = inl (ran, idle')
IsRanked-trans x y z p (inl (ran, idle)) (inr (same, most)) = inl (ran, ground (arith, same, idle))
IsRanked-trans x y z p (inr (same, most)) (inl (ran, idle)) = inl (ground (arith, same, ran), idle)
IsRanked-trans x y z p (inr (same, most)) (inr (same', most')) =
    inr (same ∙ same', IsMost-trans z.peak.bad_share y.peak.bad_share x.peak.bad_share p most' most)

before-IsRanked : (x y : NodeReport) → ranks_before x y ≡ true → IsRanked x y
unfolding ranks_before
before-IsRanked x y h = elim (Bool-cases (x.peak.runs == 0)) [
  | inl a ↦ elim (Bool-cases (y.peak.runs == 0)) [
    | inl b ↦ inr (a ∙ sym b, ahead h a b)
    | inr b ↦ absurd (ground (arith, h, a, b))
  ]
  | inr a ↦ elim (Bool-cases (y.peak.runs == 0)) [
    | inl b ↦ inl (ground (arith, a), ground (arith, b))
    | inr b ↦ inr (a ∙ sym b, ahead h a b)
  ]
]
  where
    ahead :
        {c : Bool}
        → ranks_before x y ≡ true
        → (x.peak.runs == 0) ≡ c
        → (y.peak.runs == 0) ≡ c
        → IsMost y.peak.bad_share x.peak.bad_share
    ahead h a b = elim (Bool-cases (share_lt y.peak.bad_share x.peak.bad_share)) [
      | inl e ↦ let less = share-IsLess y.peak.bad_share x.peak.bad_share e in omega (arith, less)
      | inr e ↦ share-IsMost x.peak.bad_share y.peak.bad_share (ground (arith, h, a, b, e))
    ]

after-IsRanked : (x y : NodeReport) → ranks_before x y ≡ false → IsRanked y x
unfolding ranks_before
after-IsRanked x y h = elim (Bool-cases (x.peak.runs == 0)) [
  | inl a ↦ elim (Bool-cases (y.peak.runs == 0)) [
    | inl b ↦ inr (b ∙ sym a, share-IsMost _ _ (ground (arith, h, a, b)))
    | inr b ↦ inl (ground (arith, b), ground (arith, a))
  ]
  | inr a ↦ elim (Bool-cases (y.peak.runs == 0)) [
    | inl b ↦ absurd (ground (arith, h, a, b))
    | inr b ↦ inr (b ∙ sym a, share-IsMost _ _ (ground (arith, h, a, b)))
  ]
]

share_of-some : (n b : ℕ) → 0 < (share_of n b).1
share_of-some n b = ground arith

module _ {Location : Type 0} (utc : Location) (hour_in : Location → Time → ℕ)
    (url_host : Text → Text) (options : Options Location) where
  nodes-IsFraction :
      (nodes : List NodeInput) (f : FleetTally)
      → All IsFraction (build_nodes utc hour_in url_host options nodes f).0
  unfolding build_nodes
  nodes-IsFraction [] f = tt
  nodes-IsFraction (node ∷ nodes) f =
      let read = tally_results utc hour_in url_host options node.results new_tally f in
      (share_of-some read.0.peak.runs read.0.peak.bad, nodes-IsFraction nodes read.1)

  build-IsFraction :
      (nodes : List NodeInput) → All IsFraction (build utc hour_in url_host nodes options).nodes
  unfolding build
  build-IsFraction nodes = nodes-IsFraction nodes _

  -- Ranked gives the rows of a report, each as often as the report has it, with every node that ran
  -- in the peak before every one that did not, and among those that ran with the shares of bad peak
  -- runs falling.
  pub ranked-build :
      (nodes : List NodeInput)
      → Perm
          (ranked (build utc hour_in url_host nodes options))
          (build utc hour_in url_host nodes options).nodes
        × Sorted IsRanked (ranked (build utc hour_in url_host nodes options))
  unfolding ranked
  ranked-build nodes =
      let rows = (build utc hour_in url_host nodes options).nodes in
      (
        sort_by-Perm ranks_before rows,
        sort_by-SortedIn ranks_before IsFraction IsRanked IsRanked-trans
            (λ x y p q. before-IsRanked x y) (λ x y p q. after-IsRanked x y) rows
            (build-IsFraction nodes),
      )
