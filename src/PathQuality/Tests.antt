-- ===== src/PathQuality/Tests.antt =====
-- The report at two nodes, in a zone whose hour is that of the clock.
use xray_checker_modify.Base.{
  ℕ, ◌+◌, ◌*◌, ◌/◌, ◌%◌, ◌<◌, true, false, none, some, List, [], ◌∷◌, ◌≡◌, refl, Text, codes, pos,
  arith, Sorted,
}
use native.Mathlib.Nat.{mod-lt}
use mathlib.Core.List.{Perm}
use xray_checker_modify.Diagnostics.Types.{Time}
use xray_checker_modify.PathQuality.Measurement.{Result, Options, included, in_range, bad, in_peak}
use xray_checker_modify.PathQuality.Report.{
  NodeInput, Cell, Source, build, report, worst_hour, build_nodes, tally_results, new_hours,
  update_at,
}
use xray_checker_modify.PathQuality.Counts.{count, at_hour, Counted, build-Counted}
use xray_checker_modify.PathQuality.Fleet.{total, left_out, build-total}
use xray_checker_modify.PathQuality.Worst.{IsWorst, worst_hour-IsWorst}
use xray_checker_modify.PathQuality.Rank.{ranked, IsRanked, ranked-build}

-- A zone is its distance from the zero zone in hours; a time counts nanoseconds.
abbrev hour : ℕ
hour = 3600000000000

abbrev hour_in : ℕ → Time → ℕ
hour_in ahead at = (at / hour + ahead) % 24

in_day : (ahead : ℕ) (at : Time) → hour_in ahead at < 24
in_day ahead at = mod-lt (at / hour + ahead) (omega arith)

abbrev same_host : Text → Text
same_host url = url

abbrev measured : Time → ℕ → Result
measured at mbps = record {
  checked_at = at;
  source = codes "manual";
  url = codes "speed.example";
  offline = false;
  error = [];
  timed_out = false;
  mbps = pos mbps;
  low_speed_threshold_mbps = pos 0;
  maintenance_probe = false;
  project_maintenance_probe = false;
  agent_diagnostic = some (codes "path_limited");
}

-- Two slow measurements in the evening, one of them again as its confirmation, and a fast one.
abbrev slow_evenings : NodeInput
slow_evenings = record {
  stable_id = codes "node-1";
  name = codes "Frankfurt";
  subscription = codes "Main";
  environment = true;
  results =
      measured (20 * hour) 20000000
      ∷ measured (44 * hour) 30000000
      ∷ record (measured (44 * hour) 30000000) { source = codes "speed-retry" }
      ∷ measured (9 * hour) 200000000
      ∷ [];
}

abbrev quiet : NodeInput
quiet = record {
  stable_id = codes "node-2";
  name = codes "Oslo";
  subscription = codes "Main";
  environment = true;
  results = measured (3 * hour) 150000000 ∷ [];
}

abbrev evening : Options ℕ
evening = record {
  from = 0;
  to = 100 * hour;
  location = some 0;
  peak_location = none;
  peak_start = 18;
  peak_end = 24;
  threshold = pos 100000000;
}

abbrev nodes : List NodeInput
nodes = quiet ∷ slow_evenings ∷ []

build-Counted_example :
    Counted 0 hour_in same_host in_day evening nodes (build 0 hour_in same_host nodes evening).nodes
build-Counted_example = build-Counted 0 hour_in same_host in_day evening nodes

build-total_example :
    (at_hour Cell.runs 20 (build 0 hour_in same_host nodes evening).fleet
      ≡ total
          (λ row. at_hour Cell.runs 20 row.hours)
          (build 0 hour_in same_host nodes evening).nodes)
    × (at_hour Cell.bad 20 (build 0 hour_in same_host nodes evening).fleet
        ≡ total
            (λ row. at_hour Cell.bad 20 row.hours)
            (build 0 hour_in same_host nodes evening).nodes)
    × ((build 0 hour_in same_host nodes evening).excluded
        ≡ total (λ node. count (left_out 0 hour_in same_host in_day evening) node.results) nodes)
build-total_example = build-total 0 hour_in same_host in_day evening nodes 20

abbrev cells : List Cell
cells =
    record { hour = 0; runs = 4; bad = 1; median_doubled = 0 }
    ∷ record { hour = 1; runs = 1; bad = 1; median_doubled = 0 }
    ∷ record { hour = 2; runs = 3; bad = 2; median_doubled = 0 }
    ∷ record { hour = 3; runs = 6; bad = 4; median_doubled = 0 }
    ∷ []

worst_hour-IsWorst_example : IsWorst cells (worst_hour cells)
worst_hour-IsWorst_example = worst_hour-IsWorst cells

finds_third : worst_hour cells ≡ some 2
unfolding worst_hour
finds_third = refl

ranked-build_example :
    Perm
      (ranked (build 0 hour_in same_host nodes evening))
      (build 0 hour_in same_host nodes evening).nodes
    × Sorted IsRanked (ranked (build 0 hour_in same_host nodes evening))
ranked-build_example = ranked-build 0 hour_in same_host evening nodes

abbrev source : Source ℕ
source = record {
  nodes = some nodes;
  threshold = some (pos 100000000);
  peak_location = some 3;
  peak_start = 18;
  peak_end = 24;
}

abbrev summary : ℕ × ℕ × ℕ
summary =
    let r = report 0 hour_in same_host source 0 (100 * hour) (some 0) none in
    (r.excluded, at_hour Cell.bad 20 r.fleet, at_hour Cell.runs 9 r.fleet)

summarises : summary ≡ (1, 2, 1)
unfolding report build build_nodes tally_results included in_range bad in_peak new_hours update_at
summarises = refl

evening_peaks : (in_peak 23 18 24 ≡ true) × (in_peak 1 22 2 ≡ true) × (in_peak 12 22 2 ≡ false)
unfolding in_peak
evening_peaks = (refl, refl, refl)
