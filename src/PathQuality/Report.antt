-- ===== src/PathQuality/Report.antt =====
-- pathquality/report.go: Build and Source.Report. A share is a fraction of two counters, which float64
-- quotients keep in order as long as the counters are below 2^26; a median is given doubled, since
-- that of an even number of rates is half the sum of two.
use xray_checker_modify.Base.{
  ℕ, zero, suc, ◌+◌, ◌-◌, ◌*◌, ◌/◌, ◌%◌, Bool, ◌&&◌, ◌||◌, Option, none, some, List, [], ◌∷◌, ◌++◌,
  Text, text_eq, ltb, leb, ◌==◌, if◌then◌else◌, ℤ, pos, is_empty, length, lookup, insert, sort_by,
}
use xray_checker_modify.Diagnostics.Types.{Time}
use xray_checker_modify.PathQuality.Measurement.{
  Result, Options, agent_diagnostic_running, bad, in_peak, successful_rate, is_retry, in_range,
  included,
}

pub record NodeInput : Type 0 where
  pub stable_id : Text
  pub name : Text
  pub subscription : Text
  pub environment : Bool
  pub results : List Result

pub record Cell : Type 0 where
  pub hour : ℕ
  pub runs : ℕ
  pub bad : ℕ
  pub median_doubled : ℕ

abbrev pub Share : Type 0
Share = ℕ × ℕ

-- Cell.Share and share: a zero share is 0/1.
abbrev pub share_of : ℕ → ℕ → Share
share_of runs bad = if runs == 0 then (0, 1) else (bad, runs)

abbrev pub share_lt : Share → Share → Bool
share_lt (a, b) (c, d) = ltb (a * d) (c * b)

pub record Window : Type 0 where
  pub runs : ℕ
  pub bad : ℕ
  pub bad_share : Share
  pub median_doubled : ℕ

pub record NodeReport : Type 0 where
  pub stable_id : Text
  pub name : Text
  pub subscription : Text
  pub environment : Bool
  pub hours : List Cell
  pub peak : Window
  pub off_peak : Window
  pub worst_hour : Option ℕ
  pub verdicts : List (Text × ℕ)
  pub servers : List (Text × ℕ)

-- The names of the zones are left to time.Location.String.
pub record Report (Location : Type 0) : Type 0 where
  pub from : Time
  pub to : Time
  pub time_zone : Location
  pub peak_zone : Location
  pub peak_start : ℕ
  pub peak_end : ℕ
  pub nodes : List NodeReport
  pub fleet : List Cell
  pub excluded : ℕ

-- newHours, and make([][]float64, 24)
abbrev pub hours_from : ℕ → ℕ → List Cell
hours_from first zero = []
hours_from first (suc n) =
    record { hour = first; runs = 0; bad = 0; median_doubled = 0 } ∷ hours_from (suc first) n

unfoldable pub new_hours : List Cell
new_hours = hours_from 0 24

abbrev pub no_rates : ℕ → List (List ℕ)
no_rates zero = []
no_rates (suc n) = [] ∷ no_rates n

-- A write to one entry of a slice.
unfoldable pub update_at {ℓ} : {A : Type ℓ} → ℕ → (A → A) → List A → List A
update_at i f [] = []
update_at zero f (x ∷ xs) = f x ∷ xs
update_at (suc i) f (x ∷ xs) = x ∷ update_at i f xs

-- median
abbrev nth : List ℕ → ℕ → ℕ
nth [] i = 0
nth (x ∷ xs) zero = x
nth (x ∷ xs) (suc i) = nth xs i

unfoldable pub median_doubled : List ℕ → ℕ
median_doubled values =
    let sorted = sort_by ltb values in
    let middle = length values / 2 in
    if length values == 0
    then 0
    else if length values % 2 == 1
    then 2 * nth sorted middle
    else nth sorted (middle - 1) + nth sorted middle

-- What the loop over a node's results writes, and what that over all nodes does.
pub record Tally : Type 0 where
  pub hours : List Cell
  pub rates : List (List ℕ)
  pub peak : Window
  pub off_peak : Window
  pub peak_rates : List ℕ
  pub off_rates : List ℕ
  pub verdicts : List (Text × ℕ)
  pub servers : List (Text × ℕ)

pub record FleetTally : Type 0 where
  pub fleet : List Cell
  pub fleet_rates : List (List ℕ)
  pub excluded : ℕ

abbrev pub no_window : Window
no_window = record { runs = 0; bad = 0; bad_share = (0, 1); median_doubled = 0 }

abbrev pub new_tally : Tally
new_tally = record {
  hours = new_hours;
  rates = no_rates 24;
  peak = no_window;
  off_peak = no_window;
  peak_rates = [];
  off_rates = [];
  verdicts = [];
  servers = [];
}

abbrev pub new_fleet : FleetTally
new_fleet = record { fleet = new_hours; fleet_rates = no_rates 24; excluded = 0 }

abbrev pub count_run : Bool → Cell → Cell
count_run is_bad c = record c { runs = c.runs + 1; bad = c.bad + (if is_bad then 1 else 0) }

abbrev pub count_window : Bool → Window → Window
count_window is_bad w = record w { runs = w.runs + 1; bad = w.bad + (if is_bad then 1 else 0) }

abbrev append_rate : Option ℕ → List ℕ → List ℕ
append_rate none rates = rates
append_rate (some rate) rates = rates ++ rate ∷ []

abbrev or_zero : Option ℕ → ℕ
or_zero none = 0
or_zero (some n) = n

abbrev increment : Text → List (Text × ℕ) → List (Text × ℕ)
increment key counts = insert key (or_zero (lookup key counts) + 1) counts

abbrev count_verdict : Option Text → List (Text × ℕ) → List (Text × ℕ)
count_verdict none counts = counts
count_verdict (some state) counts =
    if is_empty state || text_eq state agent_diagnostic_running
    then counts
    else increment state counts

abbrev count_server : Text → List (Text × ℕ) → List (Text × ℕ)
count_server host counts = if is_empty host then counts else increment host counts

-- The hours with their medians.
abbrev pub with_medians : List Cell → List (List ℕ) → List Cell
with_medians (c ∷ cs) (r ∷ rs) = record c { median_doubled = median_doubled r } ∷ with_medians cs rs
with_medians cs rs = cs

-- The search for WorstHour: an hour of two runs takes the place of one with a lower share.
abbrev pub takes_over : Cell → Option Cell → Bool
takes_over c none = leb 2 c.runs
takes_over c (some w) = leb 2 c.runs && share_lt (share_of w.runs w.bad) (share_of c.runs c.bad)

unfoldable pub worst_from : Option Cell → List Cell → Option Cell
worst_from found [] = found
worst_from found (c ∷ cs) = worst_from (if takes_over c found then some c else found) cs

abbrev pub worst_bad : Option Cell → Option ℕ
worst_bad none = none
worst_bad (some c) = if c.bad == 0 then none else some c.hour

unfoldable pub worst_hour : List Cell → Option ℕ
unfolding worst_from
worst_hour cells = worst_bad (worst_from none cells)

abbrev pub closed : Window → List ℕ → Window
closed w rates = record w {
  bad_share = share_of w.runs w.bad;
  median_doubled = median_doubled rates;
}

abbrev pub node_report : NodeInput → Tally → NodeReport
node_report node t =
    let hours = with_medians t.hours t.rates in
    record {
      stable_id = node.stable_id;
      name = node.name;
      subscription = node.subscription;
      environment = node.environment;
      hours = hours;
      peak = closed t.peak t.peak_rates;
      off_peak = closed t.off_peak t.off_rates;
      worst_hour = worst_hour hours;
      verdicts = t.verdicts;
      servers = t.servers;
    }

abbrev pub or_location : {Location : Type 0} → Option Location → Location → Location
or_location none l = l
or_location (some l) _ = l

pub record Source (Location : Type 0) : Type 0 where
  pub nodes : Option (List NodeInput)
  pub threshold : Option ℤ
  pub peak_location : Option Location
  pub peak_start : ℕ
  pub peak_end : ℕ

abbrev or_none : Option (List NodeInput) → List NodeInput
or_none none = []
or_none (some nodes) = nodes

abbrev or_no_threshold : Option ℤ → ℤ
or_no_threshold none = pos 0
or_no_threshold (some t) = t

abbrev or_peak : {Location : Type 0} → Option Location → Option Location → Option Location
or_peak none peak = peak
or_peak (some l) peak = some l

module _ {Location : Type 0} (utc : Location) (hour_in : Location → Time → ℕ)
    (url_host : Text → Text) where
  abbrev pub zone : Options Location → Location
  zone options = or_location options.location utc

  abbrev pub peak_zone : Options Location → Location
  peak_zone options = or_location options.peak_location (zone options)

  -- The body of the loop over a node's results, for one that counts.
  abbrev pub tally : Options Location → Result → Tally → Tally
  tally options r t =
      let is_bad = bad r options.threshold in
      let hour = hour_in (zone options) r.checked_at in
      let rate = successful_rate r in
      let peak =
        in_peak (hour_in (peak_zone options) r.checked_at) options.peak_start options.peak_end in
      record {
        hours = update_at hour (count_run is_bad) t.hours;
        rates = update_at hour (append_rate rate) t.rates;
        peak = if peak then count_window is_bad t.peak else t.peak;
        off_peak = if peak then t.off_peak else count_window is_bad t.off_peak;
        peak_rates = if peak then append_rate rate t.peak_rates else t.peak_rates;
        off_rates = if peak then t.off_rates else append_rate rate t.off_rates;
        verdicts = count_verdict r.agent_diagnostic t.verdicts;
        servers = count_server (url_host r.url) t.servers;
      }

  abbrev pub tally_fleet : Options Location → Result → FleetTally → FleetTally
  tally_fleet options r f =
      let hour = hour_in (zone options) r.checked_at in
      record f {
        fleet = update_at hour (count_run (bad r options.threshold)) f.fleet;
        fleet_rates = update_at hour (append_rate (successful_rate r)) f.fleet_rates;
      }

  abbrev pub exclude : Options Location → Result → FleetTally → FleetTally
  exclude options r f =
      if is_retry r && in_range r.checked_at options
      then record f { excluded = f.excluded + 1 }
      else f

  unfoldable pub tally_results :
      Options Location → List Result → Tally → FleetTally → Tally × FleetTally
  unfolding included
  tally_results options [] t f = (t, f)
  tally_results options (r ∷ rs) t f =
      if included r options
      then tally_results options rs (tally options r t) (tally_fleet options r f)
      else tally_results options rs t (exclude options r f)

  unfoldable pub build_nodes :
      Options Location → List NodeInput → FleetTally → List NodeReport × FleetTally
  unfolding tally_results
  build_nodes options [] f = ([], f)
  build_nodes options (node ∷ nodes) f =
      let read = tally_results options node.results new_tally f in
      let rest = build_nodes options nodes read.1 in (node_report node read.0 ∷ rest.0, rest.1)

  -- Build
  unfoldable pub build : List NodeInput → Options Location → Report Location
  unfolding build_nodes
  build nodes options =
      let built = build_nodes options nodes new_fleet in
      record {
        from = options.from;
        to = options.to;
        time_zone = zone options;
        peak_zone = peak_zone options;
        peak_start = options.peak_start;
        peak_end = options.peak_end;
        nodes = built.0;
        fleet = with_medians built.1.fleet built.1.fleet_rates;
        excluded = built.1.excluded;
      }

  -- Source.Report, with what the functions of the source give at the time.
  abbrev kept : Option (NodeInput → Bool) → List NodeInput → List NodeInput
  kept none nodes = nodes
  kept (some keep) [] = []
  kept (some keep) (n ∷ nodes) =
      if keep n then n ∷ kept (some keep) nodes else kept (some keep) nodes

  unfoldable pub report :
      Source Location → Time → Time → Option Location → Option (NodeInput → Bool) → Report Location
  report s from to location keep = build (kept keep (or_none s.nodes)) (record {
    from = from;
    to = to;
    location = or_peak location s.peak_location;
    peak_location = s.peak_location;
    peak_start = s.peak_start;
    peak_end = s.peak_end;
    threshold = or_no_threshold s.threshold;
  })
