-- ===== src/Availability/Since.antt =====
-- checker/checker.go: since when a node fails, by a reading of the reports alone.
pub mod Dated
pub mod Fits
pub mod Runs
use mathlib.Core.Path.{subst}
use xray_checker_modify.Base.{
  ℕ, ◌≤◌, ◌<◌, Bool, true, false, not, ◌&&◌, Option, none, some, List, [], ◌∷◌, ◌≡◌, ◌⊎◌, refl, sym,
  ◌∙◌, ap, ◌==◌, if◌then◌else◌, Text, text_eq, text_eq→eq, arith, Bool-cases, Option-cases, if_same,
  inl, inr, lookup, insert, lookup-insert, lookup-delete, All, member,
}
use xray_checker_modify.Diagnostics.Types.{Time}
use xray_checker_modify.SourcePolicy.{monitoring_enabled}
use xray_checker_modify.Availability.Failure.{FailureDetails, ReachCheck}
use xray_checker_modify.Availability.Status.{
  AvailabilityState, online, proxy_failure, offline, same_state, ProxyStatusDetails,
  effective_status, service_failure_since, or_now, Sample, next_state, store_in_state,
  store_details, diagnosed_details, restored_details,
}
use xray_checker_modify.Availability.Checker.{
  ProxyChecker, accepts, restorable, Report, passed, failed, diagnosed, refreshed, restored_offline,
  restored_failing, cleared, handle, handle_all, store_status_details, store_offline_diagnostics,
  refresh_host_diagnostics, restore_status, clear_proxy_monitoring_state, online_sample,
  failed_sample, refreshed_sample,
}
use xray_checker_modify.Availability.Clocks.{
  IsClocked, up, down, failing, Before, nothing, clocked, effective-up, effective-down,
  effective-failing, since-down, since-failing, runs_on, next_state-online, store-IsClocked,
  diagnosed-IsClocked, diagnosed-online, restored-IsClocked, later-IsClocked,
}

-- The clock of the failure, which is 0 for a node with no status.
abbrev pub since_of : Option ProxyStatusDetails → Time
since_of none = 0
since_of (some d) = d.failing_since

-- What the reports alone say of the time since which a node fails, given that before them: an answer
-- ends the failure, the first report without one starts it, and what is restored brings its own.
module _ (c : ProxyChecker) (id : Text) where
  unfoldable pub next_since : Time → Report → Time → Time
  unfolding accepts restorable
  next_since now (passed i latency allow) since =
      if accepts c i allow && text_eq i id then 0 else since
  next_since now (failed i failure allow) since =
      if accepts c i allow && text_eq i id then or_now since now else since
  next_since now (diagnosed i host ping) since = since
  next_since now (refreshed i host ping) since = since
  next_since now (restored_offline i start host ping failure) since =
      if restorable c i start && text_eq i id then start else since
  next_since now (restored_failing i start host ping failure) since =
      if restorable c i start && text_eq i id then start else since
  next_since now (cleared i) since = if text_eq i id then 0 else since

  unfoldable pub failing_since_of : List (Time × Report) → Time → Time
  unfolding next_since
  failing_since_of [] since = since
  failing_since_of ((now, r) ∷ rs) since = failing_since_of rs (next_since now r since)

-- The times of the reports: none is zero, they do not fall, and what is restored began before.
abbrev pub IsPast : Time → Report → Type 0
IsPast now (restored_offline i start host ping failure) = start ≤ now
IsPast now (restored_failing i start host ping failure) = start ≤ now
IsPast now _ = Unit

abbrev pub InOrder : Time → List (Time × Report) → Type 0
InOrder t [] = Unit
InOrder t ((now, r) ∷ rs) = (0 < now) × (t ≤ now) × IsPast now r × InOrder now rs

abbrev pub last_time : Time → List (Time × Report) → Time
last_time t [] = t
last_time t ((now, r) ∷ rs) = last_time now rs
