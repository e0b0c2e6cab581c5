-- ===== src/PathQuality/Measurement.antt =====
-- pathquality/report.go: one measurement, and whether it counts and is bad. A rate that Go holds as a
-- float64 is a whole number of millionths of a Mbps. What time.Time.In makes of a time zone, and what
-- net/url makes of a URL, are parameters of the report.
use xray_checker_modify.Base.{
  ℕ, zero, suc, Bool, false, not, ◌&&◌, ◌||◌, Option, none, some, Text, codes, text_eq, ltb, leb,
  ◌==◌, if◌then◌else◌, ℤ, pos, negsuc, ltb_ℤ, is_empty,
}
use xray_checker_modify.Diagnostics.Types.{Time}

-- The fields of speedtest.Result that the report reads; the probe is its State, if there is one.
pub record Result : Type 0 where
  pub checked_at : Time
  pub source : Text
  pub url : Text
  pub offline : Bool
  pub error : Text
  pub timed_out : Bool
  pub mbps : ℤ
  pub low_speed_threshold_mbps : ℤ
  pub maintenance_probe : Bool
  pub project_maintenance_probe : Bool
  pub agent_diagnostic : Option Text

-- A time of 0 is Go's zero time, and no location is nil.
pub record Options (Location : Type 0) : Type 0 where
  pub from : Time
  pub to : Time
  pub location : Option Location
  pub peak_location : Option Location
  pub peak_start : ℕ
  pub peak_end : ℕ
  pub threshold : ℤ

-- speedtest.ConfirmationRetrySource and speedtest.AgentDiagnosticRunning
abbrev pub confirmation_retry_source : Text
confirmation_retry_source = codes "speed-retry"

abbrev pub agent_diagnostic_running : Text
agent_diagnostic_running = codes "running"

-- Bad
unfoldable pub bad : Result → ℤ → Bool
bad r fallback_threshold =
    let own = r.low_speed_threshold_mbps in
    let threshold = if ltb_ℤ (pos 0) own then own else fallback_threshold in
    r.offline
    || not (is_empty r.error)
    || r.timed_out
    || ltb_ℤ (pos 0) threshold && ltb_ℤ r.mbps threshold

-- inPeak
unfoldable pub in_peak : ℕ → ℕ → ℕ → Bool
in_peak hour start end =
    if start == end
    then false
    else if ltb start end
    then leb start hour && ltb hour end
    else leb start hour || ltb hour end

-- successfulRate
abbrev positive : ℤ → Option ℕ
positive (pos zero) = none
positive (pos (suc n)) = some (suc n)
positive (negsuc n) = none

unfoldable pub successful_rate : Result → Option ℕ
successful_rate r = if r.offline || not (is_empty r.error) then none else positive r.mbps

abbrev pub is_retry : Result → Bool
is_retry r = text_eq r.source confirmation_retry_source

module _ {Location : Type 0} where
  -- inRange
  unfoldable pub in_range : Time → Options Location → Bool
  in_range at options =
      (options.from == 0 || leb options.from at) && (options.to == 0 || ltb at options.to)

  -- included
  unfoldable pub included : Result → Options Location → Bool
  unfolding in_range
  included r options =
      if r.checked_at == 0 || not (in_range r.checked_at options)
      then false
      else if r.maintenance_probe || r.project_maintenance_probe
      then false
      else not (is_retry r)
