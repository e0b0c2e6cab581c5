-- ===== src/Availability/Tests.antt =====
-- A node that fails, is found to be offline, refreshed to a proxy failure, and answers again.
use xray_checker_modify.Base.{
  ℕ, true, false, Option, none, some, List, [], ◌∷◌, ◌≡◌, refl, Text, codes, pos, lookup, insert,
  member, trim_space, trim_left, trim_right, All, arith,
}
use xray_checker_modify.Diagnostics.Types.{Time}
use xray_checker_modify.SourcePolicy.{monitoring_enabled}
use xray_checker_modify.Availability.Failure.{
  FailureCode, FailureDetails, ReachCheck, compact_failure_detail, join_fields, contains,
  failure_details, failure_from_host_check, diagnose_failure,
}
use xray_checker_modify.Availability.Status.{
  ProxyStatusDetails, no_check, no_failure, effective_status, service_failure_since, classify,
  next_state, store_in_state, store_details, diagnosed_details,
}
use xray_checker_modify.Availability.Checker.{
  ProxyChecker, accepts, Report, passed, failed, diagnosed, refreshed, handle, handle_all,
  store_status_details, store_offline_diagnostics, refresh_host_diagnostics,
}
use xray_checker_modify.Availability.Clocks.{Before}
use xray_checker_modify.Availability.Since.{since_of, failing_since_of, InOrder, last_time}
use xray_checker_modify.Availability.Since.Runs.{handle_all-failing_since, handle_all-IsClocked}
use xray_checker_modify.Availability.Proven.{IsProven}
use xray_checker_modify.Availability.Proven.Runs.{handle_all-IsProven}

abbrev same_case : Text → Text
same_case t = t

abbrev node : Text
node = codes "node-1"

abbrev checker : ProxyChecker
checker = record {
  watch = record { source_policies = []; source_by_stable_id = []; maintenance = [] };
  known = node ∷ [];
  status_details = [];
}

abbrev lost : ReachCheck
lost = record no_check { checked = true; error = codes "i/o timeout" }

abbrev reached : ReachCheck
reached = record no_check { checked = true; online = true }

abbrev handshake : FailureDetails
handshake = record no_failure { code = FailureCode.proxy_handshake }

abbrev outage : List (Time × Report)
outage =
    (10, passed node (pos 40) false)
    ∷ (20, failed node handshake false)
    ∷ (21, diagnosed node lost lost)
    ∷ (30, failed node handshake false)
    ∷ (40, refreshed node reached lost)
    ∷ (50, failed node handshake false)
    ∷ (51, diagnosed node lost lost)
    ∷ []

in_order : InOrder 0 outage
in_order = (
  omega arith,
  omega arith,
  tt,
  (
    omega arith,
    omega arith,
    tt,
    (
      omega arith,
      omega arith,
      tt,
      (
        omega arith,
        omega arith,
        tt,
        (
          omega arith,
          omega arith,
          tt,
          (omega arith, omega arith, tt, (omega arith, omega arith, tt, tt)),
        ),
      ),
    ),
  ),
)

unknown_yet : lookup node checker.status_details ≡ none
unfolding lookup
unknown_yet = refl

handle_all-failing_since_example :
    since_of (lookup node (handle_all same_case outage checker).status_details)
    ≡ failing_since_of checker node outage 0
handle_all-failing_since_example =
    handle_all-failing_since same_case node checker outage unknown_yet in_order

handle_all-IsClocked_example :
    Before (last_time 0 outage) (lookup node (handle_all same_case outage checker).status_details)
handle_all-IsClocked_example =
    handle_all-IsClocked same_case node checker outage unknown_yet in_order

handle_all-IsProven_example :
    All (λ e. IsProven e.1) (handle_all same_case outage checker).status_details
handle_all-IsProven_example =
    handle_all-IsProven same_case checker outage refl
      (refl, (refl, (refl, (refl, (refl, (refl, (refl, tt)))))))

abbrev clocks : Option ProxyStatusDetails → ℕ × ℕ × ℕ
clocks none = (0, 0, 0)
clocks (some d) = (d.failing_since, d.proxy_failure_since, d.down_since)

-- The node fails since its first failed check, and is down since the last change to offline.
dates : clocks (lookup node (handle_all same_case outage checker).status_details) ≡ (20, 0, 51)
unfolding handle_all handle store_status_details store_offline_diagnostics refresh_host_diagnostics
    accepts monitoring_enabled trim_space trim_left trim_right lookup insert member store_details
    next_state store_in_state classify effective_status service_failure_since diagnosed_details
dates = refl

abbrev code_of : FailureDetails → FailureCode
code_of f = f.code

abbrev refused : ReachCheck
refused = record no_check { checked = true; error = codes "dial tcp:  connection refused" }

diagnoses : code_of (diagnose_failure same_case handshake refused lost) ≡ FailureCode.tcp_refused
unfolding diagnose_failure failure_from_host_check compact_failure_detail join_fields trim_space
    trim_left trim_right contains failure_details
diagnoses = refl

compacts : compact_failure_detail (codes " dial  tcp\n refused ") ≡ codes "dial tcp refused"
unfolding compact_failure_detail join_fields trim_space trim_left trim_right
compacts = refl
