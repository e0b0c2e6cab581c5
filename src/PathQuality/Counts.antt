-- ===== src/PathQuality/Counts.antt =====
-- pathquality/report.go: the counters of a node's row against a count of its measurements.
use xray_checker_modify.Base.{
  ℕ, zero, suc, ◌+◌, ◌<◌, Bool, not, ◌&&◌, List, [], ◌∷◌, ◌≡◌, refl, ap, ◌∙◌, Text, ◌==◌,
  if◌then◌else◌, length, arith, Bool-cases, inl, inr,
}
use xray_checker_modify.Diagnostics.Types.{Time}
use xray_checker_modify.PathQuality.Measurement.{Result, Options, bad, in_peak, included}
use xray_checker_modify.PathQuality.Report.{
  NodeInput, Cell, NodeReport, Tally, FleetTally, new_hours, hours_from, update_at, count_run,
  with_medians, new_tally, zone, peak_zone, tally, tally_fleet, exclude, tally_results, node_report,
  build_nodes, build,
}

-- How many measurements pass a test.
abbrev pub count : (Result → Bool) → List Result → ℕ
count p [] = 0
count p (r ∷ rs) = (if p r then 1 else 0) + count p rs

-- What a counter shows at an hour.
abbrev pub at_hour : (Cell → ℕ) → ℕ → List Cell → ℕ
at_hour counter h [] = 0
at_hour counter zero (c ∷ cs) = counter c
at_hour counter (suc h) (c ∷ cs) = at_hour counter h cs

module _ (counter : Cell → ℕ) (f : Cell → Cell) (k : ℕ)
    (grows : (c : Cell) → counter (f c) ≡ counter c + k) where
  pub at_hour-update :
      (i h : ℕ) (cs : List Cell)
      → i < length cs
      → at_hour counter h (update_at i f cs) ≡ at_hour counter h cs + (if i == h then k else 0)
  unfolding update_at
  at_hour-update i h [] b = absurd (omega (arith, b))
  at_hour-update zero zero (c ∷ cs) b = grows c
  at_hour-update zero (suc h) (c ∷ cs) b = ground arith
  at_hour-update (suc i) zero (c ∷ cs) b = ground arith
  at_hour-update (suc i) (suc h) (c ∷ cs) b =
      ground (arith, at_hour-update i h cs (omega (arith, b)))

pub length-update {ℓ} :
    {A : Type ℓ} (i : ℕ) (f : A → A) (xs : List A) → length (update_at i f xs) ≡ length xs
unfolding update_at
length-update i f [] = refl
length-update zero f (x ∷ xs) = refl
length-update (suc i) f (x ∷ xs) = ap suc (length-update i f xs)

pub runs-with_medians :
    (h : ℕ) (cs : List Cell) (rs : List (List ℕ))
    → at_hour Cell.runs h (with_medians cs rs) ≡ at_hour Cell.runs h cs
runs-with_medians h [] rs = refl
runs-with_medians h (c ∷ cs) [] = refl
runs-with_medians zero (c ∷ cs) (r ∷ rs) = refl
runs-with_medians (suc h) (c ∷ cs) (r ∷ rs) = runs-with_medians h cs rs

pub bad-with_medians :
    (h : ℕ) (cs : List Cell) (rs : List (List ℕ))
    → at_hour Cell.bad h (with_medians cs rs) ≡ at_hour Cell.bad h cs
bad-with_medians h [] rs = refl
bad-with_medians h (c ∷ cs) [] = refl
bad-with_medians zero (c ∷ cs) (r ∷ rs) = refl
bad-with_medians (suc h) (c ∷ cs) (r ∷ rs) = bad-with_medians h cs rs

hours_from-runs : (first n h : ℕ) → at_hour Cell.runs h (hours_from first n) ≡ 0
hours_from-runs first zero h = refl
hours_from-runs first (suc n) zero = refl
hours_from-runs first (suc n) (suc h) = hours_from-runs (suc first) n h

hours_from-bad : (first n h : ℕ) → at_hour Cell.bad h (hours_from first n) ≡ 0
hours_from-bad first zero h = refl
hours_from-bad first (suc n) zero = refl
hours_from-bad first (suc n) (suc h) = hours_from-bad (suc first) n h

pub no_runs : (h : ℕ) → at_hour Cell.runs h new_hours ≡ 0
unfolding new_hours
no_runs h = hours_from-runs 0 24 h

pub no_bad : (h : ℕ) → at_hour Cell.bad h new_hours ≡ 0
unfolding new_hours
no_bad h = hours_from-bad 0 24 h

pub length-new_hours : length new_hours ≡ 24
unfolding new_hours
length-new_hours = refl

-- The counters after one measurement, and after a list of them.
module _ {Location : Type 0} (utc : Location) (hour_in : Location → Time → ℕ)
    (url_host : Text → Text) (in_day : (l : Location) (at : Time) → hour_in l at < 24)
    (options : Options Location) where
  abbrev pub counts : Result → Bool
  counts r = included r options

  abbrev pub counts_bad : Result → Bool
  counts_bad r = included r options && bad r options.threshold

  abbrev pub hour_of : Result → ℕ
  hour_of r = hour_in (zone utc hour_in url_host options) r.checked_at

  abbrev pub at_peak : Result → Bool
  at_peak r =
      in_peak (hour_in (peak_zone utc hour_in url_host options) r.checked_at) options.peak_start
        options.peak_end

  abbrev tally_all : List Result → Tally → FleetTally → Tally × FleetTally
  tally_all = tally_results utc hour_in url_host options

  -- Any number that a measurement which counts raises by one if it passes a test.
  module _ (shown : Tally → ℕ) (q : Result → Bool)
      (raised : (r : Result) (t : Tally)
        → length t.hours ≡ 24
        → shown (tally utc hour_in url_host options r t) ≡ shown t + (if q r then 1 else 0)) where
    tally_results-count :
        (rs : List Result) (t : Tally) (f : FleetTally)
        → length t.hours ≡ 24
        → shown (tally_all rs t f).0 ≡ shown t + count (λ r. counts r && q r) rs
    unfolding tally_results
    tally_results-count [] t f d = omega arith
    tally_results-count (r ∷ rs) t f d = elim (Bool-cases (included r options)) [
      | inl e ↦
          let later =
            tally_results-count rs (tally utc hour_in url_host options r t)
              (tally_fleet utc hour_in url_host options r f)
              (length-update (hour_of r) _ t.hours ∙ d) in
          rw e (omega (arith, later, raised r t d))
      | inr e ↦
          let later = tally_results-count rs t (exclude utc hour_in url_host options r f) d in
          rw e (omega (arith, later))
    ]

    counted_from_zero :
        (rs : List Result) (f : FleetTally)
        → shown new_tally ≡ 0
        → shown (tally_all rs new_tally f).0 ≡ count (λ r. counts r && q r) rs
    counted_from_zero rs f z = omega (arith, tally_results-count rs new_tally f length-new_hours, z)

  -- A node's row against its measurements: at each hour, in the peak and outside it.
  pub record IsCounted (node : NodeInput) (row : NodeReport) : Type 0 where
    pub named : row.stable_id ≡ node.stable_id
    pub hour_runs :
        (h : ℕ)
        → at_hour Cell.runs h row.hours ≡ count (λ r. counts r && hour_of r == h) node.results
    pub hour_bad :
        (h : ℕ)
        → at_hour Cell.bad h row.hours
          ≡ count (λ r. counts r && (bad r options.threshold && hour_of r == h)) node.results
    pub peak_runs : row.peak.runs ≡ count (λ r. counts r && at_peak r) node.results
    pub peak_bad :
        row.peak.bad ≡ count (λ r. counts r && (bad r options.threshold && at_peak r)) node.results
    pub off_runs : row.off_peak.runs ≡ count (λ r. counts r && not (at_peak r)) node.results
    pub off_bad :
        row.off_peak.bad
        ≡ count (λ r. counts r && (bad r options.threshold && not (at_peak r))) node.results

  hours-raised :
      (h : ℕ) (r : Result) (t : Tally)
      → length t.hours ≡ 24
      → at_hour Cell.runs h (tally utc hour_in url_host options r t).hours
        ≡ at_hour Cell.runs h t.hours + (if hour_of r == h then 1 else 0)
  hours-raised h r t d =
      at_hour-update Cell.runs (count_run (bad r options.threshold)) 1 (λ c. refl) (hour_of r) h
        t.hours (omega (arith, in_day (zone utc hour_in url_host options) r.checked_at, d))

  bad-raised :
      (h : ℕ) (r : Result) (t : Tally)
      → length t.hours ≡ 24
      → at_hour Cell.bad h (tally utc hour_in url_host options r t).hours
        ≡ at_hour Cell.bad h t.hours + (if bad r options.threshold && hour_of r == h then 1 else 0)
  bad-raised h r t d =
      let is_bad = bad r options.threshold in
      let once =
        at_hour-update Cell.bad (count_run is_bad) (if is_bad then 1 else 0) (λ c. refl) (hour_of r)
          h t.hours (omega (arith, in_day (zone utc hour_in url_host options) r.checked_at, d)) in
      ground (arith, once)

  node_report-IsCounted :
      (node : NodeInput) (f : FleetTally)
      → IsCounted node (node_report node (tally_all node.results new_tally f).0)
  node_report-IsCounted node f =
      let rs = node.results in
      let t = (tally_all rs new_tally f).0 in
      record {
        named = refl;
        hour_runs = λ h.
            runs-with_medians h t.hours t.rates
            ∙ counted_from_zero (λ u. at_hour Cell.runs h u.hours) (λ r. hour_of r == h)
                (hours-raised h) rs f (no_runs h);
        hour_bad = λ h.
            bad-with_medians h t.hours t.rates
            ∙ counted_from_zero (λ u. at_hour Cell.bad h u.hours)
                (λ r. bad r options.threshold && hour_of r == h) (bad-raised h) rs f (no_bad h);
        peak_runs = counted_from_zero (λ u. u.peak.runs) at_peak (λ r u d. ground arith) rs f refl;
        peak_bad =
            counted_from_zero (λ u. u.peak.bad) (λ r. bad r options.threshold && at_peak r)
              (λ r u d. ground arith) rs f refl;
        off_runs =
            counted_from_zero (λ u. u.off_peak.runs) (λ r. not (at_peak r)) (λ r u d. ground arith)
              rs f refl;
        off_bad =
            counted_from_zero (λ u. u.off_peak.bad)
              (λ r. bad r options.threshold && not (at_peak r)) (λ r u d. ground arith) rs f refl;
      }

  -- The rows stand in the order of the nodes.
  abbrev pub Counted : List NodeInput → List NodeReport → Type 0
  Counted [] [] = Unit
  Counted (node ∷ nodes) (row ∷ rows) = IsCounted node row × Counted nodes rows
  Counted _ _ = ⊥

  nodes-Counted :
      (nodes : List NodeInput) (f : FleetTally)
      → Counted nodes (build_nodes utc hour_in url_host options nodes f).0
  unfolding build_nodes
  nodes-Counted [] f = tt
  nodes-Counted (node ∷ nodes) f =
      (node_report-IsCounted node f, nodes-Counted nodes (tally_all node.results new_tally f).1)

  -- Build gives a row for each node, in their order, and every counter of a row is a count of the
  -- node's measurements that are included: at each hour of the zone, those of that hour; in the peak
  -- and outside it, those whose hour in the peak zone is of the peak and those whose is not; and the
  -- bad ones among them. An hour of a zone must be below 24.
  pub build-Counted :
      (nodes : List NodeInput) → Counted nodes (build utc hour_in url_host nodes options).nodes
  unfolding build
  build-Counted nodes = nodes-Counted nodes _
