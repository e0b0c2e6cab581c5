-- ===== src/PathQuality/Fleet.antt =====
-- pathquality/report.go: the fleet's hours against those of the nodes' rows, and the measurements
-- that Build leaves out as confirmations.
use xray_checker_modify.Base.{
  ℕ, ◌+◌, ◌<◌, Bool, true, false, ◌&&◌, List, [], ◌∷◌, ◌≡◌, refl, ◌∙◌, Text, if◌then◌else◌, length,
  arith, Bool-cases, inl, inr,
}
use xray_checker_modify.Diagnostics.Types.{Time}
use xray_checker_modify.PathQuality.Measurement.{Result, Options, bad, is_retry, in_range, included}
use xray_checker_modify.PathQuality.Report.{
  NodeInput, Cell, NodeReport, Tally, FleetTally, new_hours, new_fleet, count_run, with_medians,
  new_tally, zone, tally, tally_fleet, exclude, tally_results, build_nodes, build,
}
use xray_checker_modify.PathQuality.Counts.{
  at_hour, at_hour-update, length-update, runs-with_medians, bad-with_medians, no_runs, no_bad,
  length-new_hours, count,
}

-- What the rows, or the nodes, show together.
abbrev pub total {ℓ} : {A : Type ℓ} → (A → ℕ) → List A → ℕ
total shown [] = 0
total shown (x ∷ xs) = shown x + total shown xs

module _ {Location : Type 0} (utc : Location) (hour_in : Location → Time → ℕ)
    (url_host : Text → Text) (in_day : (l : Location) (at : Time) → hour_in l at < 24)
    (options : Options Location) where
  abbrev tally_all : List Result → Tally → FleetTally → Tally × FleetTally
  tally_all = tally_results utc hour_in url_host options

  abbrev all_nodes : List NodeInput → FleetTally → List NodeReport × FleetTally
  all_nodes = build_nodes utc hour_in url_host options

  length-fleet :
      (rs : List Result) (t : Tally) (f : FleetTally)
      → length (tally_all rs t f).1.fleet ≡ length f.fleet
  unfolding tally_results
  length-fleet [] t f = refl
  length-fleet (r ∷ rs) t f = elim (Bool-cases (included r options)) [
    | inl e ↦ rw e (
        length-fleet rs (tally utc hour_in url_host options r t)
          (tally_fleet utc hour_in url_host options r f)
        ∙ length-update _ _ f.fleet)
    | inr e ↦ ground (arith, e, length-fleet rs t (exclude utc hour_in url_host options r f))
  ]

  -- Either counter of a cell.
  module _ (counter : Cell → ℕ) (k : Result → ℕ)
      (grows : (r : Result) (c : Cell)
        → counter (count_run (bad r options.threshold) c) ≡ counter c + k r)
      (as_before : (h : ℕ) (cs : List Cell) (rs : List (List ℕ))
        → at_hour counter h (with_medians cs rs) ≡ at_hour counter h cs)
      (from_zero : (h : ℕ) → at_hour counter h new_hours ≡ 0) where
    fleet-hours :
        (h : ℕ) (rs : List Result) (t : Tally) (f : FleetTally)
        → length t.hours ≡ 24
        → length f.fleet ≡ 24
        → at_hour counter h (tally_all rs t f).1.fleet + at_hour counter h t.hours
          ≡ at_hour counter h f.fleet + at_hour counter h (tally_all rs t f).0.hours
    unfolding tally_results
    fleet-hours h [] t f d g = omega arith
    fleet-hours h (r ∷ rs) t f d g = elim (Bool-cases (included r options)) [
      | inl e ↦
          let i = hour_in (zone utc hour_in url_host options) r.checked_at in
          let below = in_day (zone utc hour_in url_host options) r.checked_at in
          let once =
            at_hour-update counter (count_run (bad r options.threshold)) (k r) (grows r) i h in
          let later =
            fleet-hours h rs (tally utc hour_in url_host options r t)
              (tally_fleet utc hour_in url_host options r f) (length-update i _ t.hours ∙ d)
              (length-update i _ f.fleet ∙ g) in
          rw e (
            omega (
              arith,
              later,
              once t.hours (omega (arith, below, d)),
              once f.fleet (omega (arith, below, g)),
            ))
      | inr e ↦
          let later = fleet-hours h rs t (exclude utc hour_in url_host options r f) d in
          ground (arith, e, later, g)
    ]

    nodes-fleet :
        (h : ℕ) (nodes : List NodeInput) (f : FleetTally)
        → length f.fleet ≡ 24
        → at_hour counter h (all_nodes nodes f).1.fleet
          ≡ at_hour counter h f.fleet
            + total (λ row. at_hour counter h row.hours) (all_nodes nodes f).0
    unfolding build_nodes
    nodes-fleet h [] f g = omega arith
    nodes-fleet h (node ∷ nodes) f g =
        let read = tally_all node.results new_tally f in
        let here = fleet-hours h node.results new_tally f length-new_hours g in
        let later = nodes-fleet h nodes read.1 (length-fleet node.results new_tally f ∙ g) in
        omega (arith, here, later, as_before h read.0.hours read.0.rates, from_zero h)

    build-fleet :
        (h : ℕ) (nodes : List NodeInput)
        → at_hour counter h (build utc hour_in url_host nodes options).fleet
          ≡ total
              (λ row. at_hour counter h row.hours)
              (build utc hour_in url_host nodes options).nodes
    unfolding build
    build-fleet h nodes =
        omega (arith, as_before h _ _, nodes-fleet h nodes _ length-new_hours, from_zero h)

  abbrev pub left_out : Result → Bool
  left_out r = is_retry r && in_range r.checked_at options

  counts_no_retry : (r : Result) → included r options ≡ true → is_retry r ≡ false
  unfolding included
  counts_no_retry r h = ground (arith, h)

  excluded-exclude :
      (r : Result) (f : FleetTally)
      → (exclude utc hour_in url_host options r f).excluded
        ≡ f.excluded + (if left_out r then 1 else 0)
  excluded-exclude r f = ground arith

  results-excluded :
      (rs : List Result) (t : Tally) (f : FleetTally)
      → (tally_all rs t f).1.excluded ≡ f.excluded + count left_out rs
  unfolding tally_results
  results-excluded [] t f = omega arith
  results-excluded (r ∷ rs) t f = elim (Bool-cases (included r options)) [
    | inl e ↦
        let later =
          results-excluded rs (tally utc hour_in url_host options r t)
            (tally_fleet utc hour_in url_host options r f) in
        rw (e, counts_no_retry r e) (omega (arith, later))
    | inr e ↦
        let later = results-excluded rs t (exclude utc hour_in url_host options r f) in
        rw e (omega (arith, later, excluded-exclude r f))
  ]

  nodes-excluded :
      (nodes : List NodeInput) (f : FleetTally)
      → (all_nodes nodes f).1.excluded
        ≡ f.excluded + total (λ node. count left_out node.results) nodes
  unfolding build_nodes
  nodes-excluded [] f = omega arith
  nodes-excluded (node ∷ nodes) f = omega (
    arith,
    nodes-excluded nodes (tally_all node.results new_tally f).1,
    results-excluded node.results new_tally f,
  )

  -- The fleet's runs and bad runs at an hour are the sums of those of the rows at that hour, and what
  -- is given as excluded is the number of the nodes' measurements that are confirmations in the range.
  -- An hour of a zone must be below 24.
  pub build-total :
      (nodes : List NodeInput) (h : ℕ)
      → (at_hour Cell.runs h (build utc hour_in url_host nodes options).fleet
          ≡ total
              (λ row. at_hour Cell.runs h row.hours)
              (build utc hour_in url_host nodes options).nodes)
        × (at_hour Cell.bad h (build utc hour_in url_host nodes options).fleet
            ≡ total
                (λ row. at_hour Cell.bad h row.hours)
                (build utc hour_in url_host nodes options).nodes)
        × ((build utc hour_in url_host nodes options).excluded
            ≡ total (λ node. count left_out node.results) nodes)
  unfolding build
  build-total nodes h = (
    build-fleet Cell.runs (λ r. 1) (λ r c. refl) runs-with_medians no_runs h nodes,
    build-fleet Cell.bad (λ r. if bad r options.threshold then 1 else 0) (λ r c. refl)
        bad-with_medians no_bad h nodes,
    omega (arith, nodes-excluded nodes new_fleet),
  )
