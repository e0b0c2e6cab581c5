-- ===== src/Availability/Checker.antt =====
-- checker/checker.go: the status of all nodes, and the calls that write it in the order in which the
-- lock admits them, each with the time that it reads.
use xray_checker_modify.Base.{
  ◌≡◌, refl, ap, Bool-cases, inl, inr, Bool, true, false, not, ◌&&◌, ◌||◌, Option, none, some, List,
  [], ◌∷◌, Text, ◌==◌, if◌then◌else◌, ℤ, pos, is_empty, lookup, insert, delete, member,
}
use xray_checker_modify.Diagnostics.Types.{Time}
use xray_checker_modify.SourcePolicy.{Watch, monitoring_enabled}
use xray_checker_modify.Availability.Failure.{FailureDetails, ReachCheck}
use xray_checker_modify.Availability.Status.{
  AvailabilityState, ProxyStatusDetails, Sample, store_details, diagnosed_details, restored_details,
}

-- The part of ProxyChecker that is read and written: `known` are the stable IDs of its proxies.
pub record ProxyChecker : Type 0 where
  pub watch : Watch
  pub known : List Text
  pub status_details : List (Text × ProxyStatusDetails)

-- The guard of storeStatusDetailsLockedMode, and that of the restoring functions.
unfoldable pub accepts : ProxyChecker → Text → Bool → Bool
unfolding monitoring_enabled
accepts c id allow_maintenance =
    not (is_empty id) && (allow_maintenance || monitoring_enabled c.watch id)

unfoldable pub restorable : ProxyChecker → Text → Time → Bool
unfolding monitoring_enabled member
restorable c id since =
    not (is_empty id) && not (since == 0) && monitoring_enabled c.watch id && member id c.known

abbrev pub online_sample : ℤ → Sample
online_sample latency = record {
  is_online = true;
  latency = latency;
  host = none;
  ping = none;
  failure = none;
}

abbrev pub failed_sample : FailureDetails → Sample
failed_sample failure = record {
  is_online = false;
  latency = pos 0;
  host = none;
  ping = none;
  failure = some failure;
}

abbrev pub refreshed_sample : ReachCheck → ReachCheck → Sample
refreshed_sample host ping = record {
  is_online = false;
  latency = pos 0;
  host = some host;
  ping = some ping;
  failure = none;
}

abbrev put : Text → ProxyStatusDetails → ProxyChecker → ProxyChecker
put id d c = record c { status_details = insert id d c.status_details }

pub data Report : Type 0 where
  passed : Text → ℤ → Bool → Report
  failed : Text → FailureDetails → Bool → Report
  diagnosed : Text → ReachCheck → ReachCheck → Report
  refreshed : Text → ReachCheck → ReachCheck → Report
  restored_offline : Text → Time → ReachCheck → ReachCheck → FailureDetails → Report
  restored_failing : Text → Time → ReachCheck → ReachCheck → FailureDetails → Report
  cleared : Text → Report

module _ (to_lower : Text → Text) where
  -- storeStatusDetailsMode
  unfoldable pub store_status_details :
      Time → Text → Sample → Bool → ProxyChecker → ProxyChecker × Bool
  store_status_details now id s allow_maintenance c =
      if accepts c id allow_maintenance
      then (put id (store_details to_lower now s (lookup id c.status_details)) c, true)
      else (c, false)

  -- storeOfflineDiagnostics
  abbrev diagnosed_found :
      Time
      → Text
      → ReachCheck
      → ReachCheck
      → ProxyChecker
      → Option ProxyStatusDetails
      → ProxyChecker
  diagnosed_found now id host ping c none = c
  diagnosed_found now id host ping c (some d) =
      put id (diagnosed_details to_lower now host ping d) c

  unfoldable pub store_offline_diagnostics :
      Time → Text → ReachCheck → ReachCheck → ProxyChecker → ProxyChecker
  store_offline_diagnostics now id host ping c =
      diagnosed_found now id host ping c (lookup id c.status_details)

  -- markUnavailableAndCollectDiagnosticsMode: the checks of the host are made between the two writes.
  unfoldable pub mark_unavailable :
      Time
      → Time
      → Text
      → FailureDetails
      → Bool
      → ReachCheck
      → ReachCheck
      → ProxyChecker
      → ProxyChecker
  mark_unavailable now later id failure allow_maintenance host ping c =
      let stored = store_status_details now id (failed_sample failure) allow_maintenance c in
      if stored.1 then store_offline_diagnostics later id host ping stored.0 else stored.0

  -- RefreshHostDiagnosticsByStableID: what it writes. Without a status, or for a node that is online,
  -- that is nothing.
  abbrev refresh_found :
      Time
      → Text
      → ReachCheck
      → ReachCheck
      → ProxyChecker
      → Option ProxyStatusDetails
      → ProxyChecker
  refresh_found now id host ping c none = c
  refresh_found now id host ping c (some d) =
      if d.online then c else (store_status_details now id (refreshed_sample host ping) false c).0

  unfoldable pub refresh_host_diagnostics :
      Time → Text → ReachCheck → ReachCheck → ProxyChecker → ProxyChecker
  refresh_host_diagnostics now id host ping c =
      if monitoring_enabled c.watch id && member id c.known
      then refresh_found now id host ping c (lookup id c.status_details)
      else c

  -- RestoreOfflineStatus and RestoreProxyFailureStatus
  unfoldable pub restore_status :
      AvailabilityState
      → Time
      → Text
      → Time
      → ReachCheck
      → ReachCheck
      → FailureDetails
      → ProxyChecker
      → ProxyChecker × Bool
  restore_status state now id since host ping failure c =
      if restorable c id since
      then (put id (restored_details to_lower state now since host ping failure) c, true)
      else (c, false)

  -- clearProxyMonitoringState, without the metrics
  unfoldable pub clear_proxy_monitoring_state : Text → ProxyChecker → ProxyChecker
  clear_proxy_monitoring_state id c = record c { status_details = delete id c.status_details }

  unfoldable pub handle : Time → Report → ProxyChecker → ProxyChecker
  handle now (passed id latency allow_maintenance) c =
      (store_status_details now id (online_sample latency) allow_maintenance c).0
  handle now (failed id failure allow_maintenance) c =
      (store_status_details now id (failed_sample failure) allow_maintenance c).0
  handle now (diagnosed id host ping) c = store_offline_diagnostics now id host ping c
  handle now (refreshed id host ping) c = refresh_host_diagnostics now id host ping c
  handle now (restored_offline id since host ping failure) c =
      (restore_status AvailabilityState.offline now id since host ping failure c).0
  handle now (restored_failing id since host ping failure) c =
      (restore_status AvailabilityState.proxy_failure now id since host ping failure c).0
  handle now (cleared id) c = clear_proxy_monitoring_state id c

  unfoldable pub handle_all : List (Time × Report) → ProxyChecker → ProxyChecker
  handle_all [] c = c
  handle_all ((now, r) ∷ rs) c = handle_all rs (handle now r c)

  store-accepted :
      (now : Time) (id : Text) (s : Sample) (allow : Bool) (c : ProxyChecker)
      → accepts c id allow ≡ true
      → store_status_details now id s allow c
        ≡ (put id (store_details to_lower now s (lookup id c.status_details)) c, true)
  unfolding store_status_details
  store-accepted now id s allow c e = rw e refl

  store-refused :
      (now : Time) (id : Text) (s : Sample) (allow : Bool) (c : ProxyChecker)
      → accepts c id allow ≡ false
      → store_status_details now id s allow c ≡ (c, false)
  unfolding store_status_details
  store-refused now id s allow c e = rw e refl

  -- A failed check is two reports, if the checker accepts it, and otherwise none.
  mark_unavailable-handle :
      (now later : Time) (id : Text) (failure : FailureDetails) (allow : Bool)
      (host ping : ReachCheck) (c : ProxyChecker)
      → mark_unavailable now later id failure allow host ping c ≡ (
          if accepts c id allow
          then handle later (diagnosed id host ping) (handle now (failed id failure allow) c)
          else c)
  unfolding mark_unavailable handle
  mark_unavailable-handle now later id failure allow host ping c =
      elim (Bool-cases (accepts c id allow)) [
        | inl e ↦
            let stored : (store_status_details now id (failed_sample failure) allow c).1 ≡ true =
              ap (λ p. p.1) (store-accepted now id (failed_sample failure) allow c e) in
            rw (stored, e) refl
        | inr e ↦ rw (store-refused now id (failed_sample failure) allow c e, e) refl
      ]
