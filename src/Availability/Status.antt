-- ===== src/Availability/Status.antt =====
-- checker/checker.go: what the checker keeps of a node, and each of the functions that write it. One
-- reading of the clock serves a whole function, and a time of 0 is Go's zero time.
use xray_checker_modify.Base.{
  Bool, true, false, not, ◌&&◌, Option, none, some, [], Text, ◌==◌, if◌then◌else◌, ℤ, pos,
}
use xray_checker_modify.Diagnostics.Types.{Time}
use xray_checker_modify.Availability.Failure.{
  FailureCode, is_absent, FailureDetails, ReachCheck, diagnose_failure,
}

-- AvailabilityState; `unset` is the empty one.
pub data AvailabilityState : Type 0 where
  unset online proxy_failure offline : AvailabilityState

abbrev pub same_state : AvailabilityState → AvailabilityState → Bool
same_state unset unset = true
same_state online online = true
same_state proxy_failure proxy_failure = true
same_state offline offline = true
same_state _ _ = false

pub record ProxyStatusDetails : Type 0 where
  pub online : Bool
  pub status : AvailabilityState
  pub latency : ℤ
  pub checked_at : Time
  pub last_changed_at : Time
  pub down_since : Time
  pub proxy_failure_since : Time
  pub failing_since : Time
  pub host_check : ReachCheck
  pub ping_check : ReachCheck
  pub check_failure : FailureDetails
  pub failure : FailureDetails

abbrev pub no_check : ReachCheck
no_check = record {
  checked = false;
  online = false;
  latency = pos 0;
  checked_at = 0;
  target = [];
  error = [];
}

abbrev pub no_failure : FailureDetails
no_failure = record { code = FailureCode.absent; summary = []; detail = [] }

-- EffectiveStatus
abbrev pub without_status : ProxyStatusDetails → AvailabilityState
without_status d =
    if d.online then online else if d.proxy_failure_since == 0 then offline else proxy_failure

abbrev status_or : AvailabilityState → AvailabilityState → AvailabilityState
status_or unset other = other
status_or state other = state

unfoldable pub effective_status : ProxyStatusDetails → AvailabilityState
effective_status d = status_or d.status (without_status d)

-- ServiceFailureSince
unfoldable pub service_failure_since : ProxyStatusDetails → Time
unfolding effective_status
service_failure_since d =
    let state = effective_status d in
    if same_state state online
    then 0
    else if not (d.failing_since == 0)
    then d.failing_since
    else if same_state state proxy_failure
    then d.proxy_failure_since
    else if same_state state offline
    then d.down_since
    else 0

-- classifyAvailabilityState, for a check that may not have been made.
abbrev pub unreachable : Option ReachCheck → Bool
unreachable none = false
unreachable (some c) = c.checked && not c.online

unfoldable pub classify : Bool → Option ReachCheck → Option ReachCheck → AvailabilityState
classify is_online host ping =
    if is_online
    then online
    else if unreachable host && unreachable ping
    then offline
    else proxy_failure

abbrev pub or_check : Option ReachCheck → ReachCheck → ReachCheck
or_check none c = c
or_check (some c) _ = c

abbrev or_failure : Option FailureDetails → FailureDetails → FailureDetails
or_failure none f = f
or_failure (some f) _ = f

abbrev pub is_none {ℓ} : {A : Type ℓ} → Option A → Bool
is_none none = true
is_none (some _) = false

-- A clock that runs on, or starts.
abbrev pub or_now : Time → Time → Time
or_now since now = if since == 0 then now else since

-- What a check has found: whether the node answered, and what is known of a node that did not.
pub record Sample : Type 0 where
  pub is_online : Bool
  pub latency : ℤ
  pub host : Option ReachCheck
  pub ping : Option ReachCheck
  pub failure : Option FailureDetails

-- The part of storeStatusDetailsLockedMode that reads the previous status: the state, and what the new
-- details start from.
unfoldable pub next_state : Sample → Option ProxyStatusDetails → AvailabilityState
unfolding effective_status classify
next_state s none = classify s.is_online s.host s.ping
next_state s (some previous) =
    if not s.is_online
      && is_none s.host
      && is_none s.ping
      && same_state (effective_status previous) offline
    then offline
    else classify s.is_online s.host s.ping

abbrev fresh : Time → Sample → AvailabilityState → ProxyStatusDetails
fresh now s state = record {
  online = s.is_online;
  status = state;
  latency = s.latency;
  checked_at = now;
  last_changed_at = now;
  down_since = 0;
  proxy_failure_since = 0;
  failing_since = 0;
  host_check = no_check;
  ping_check = no_check;
  check_failure = no_failure;
  failure = no_failure;
}

abbrev carried : Time → Sample → AvailabilityState → Option ProxyStatusDetails → ProxyStatusDetails
carried now s state none = fresh now s state
carried now s state (some p) =
    let before = effective_status p in
    record {
      online = s.is_online;
      status = state;
      latency = s.latency;
      checked_at = now;
      last_changed_at = if same_state before state then p.last_changed_at else now;
      down_since =
          if same_state state offline && same_state before offline then p.down_since else 0;
      proxy_failure_since =
          if same_state state proxy_failure && same_state before proxy_failure
          then p.proxy_failure_since
          else 0;
      failing_since =
          if not s.is_online && not (same_state before online) then service_failure_since p else 0;
      host_check = if s.is_online then no_check else p.host_check;
      ping_check = if s.is_online then no_check else p.ping_check;
      check_failure = if s.is_online then no_failure else p.check_failure;
      failure = if s.is_online then no_failure else p.failure;
    }

module _ (to_lower : Text → Text) where
  unfoldable pub store_in_state :
      Time → Sample → AvailabilityState → Option ProxyStatusDetails → ProxyStatusDetails
  store_in_state now s state previous =
      let d = carried now s state previous in
      let host = if s.is_online then d.host_check else or_check s.host d.host_check in
      let ping = if s.is_online then d.ping_check else or_check s.ping d.ping_check in
      let check = if s.is_online then d.check_failure else or_failure s.failure d.check_failure in
      record d {
        down_since = if same_state state offline then or_now d.down_since now else d.down_since;
        proxy_failure_since =
            if same_state state proxy_failure
            then or_now d.proxy_failure_since now
            else d.proxy_failure_since;
        failing_since = if s.is_online then d.failing_since else or_now d.failing_since now;
        host_check = host;
        ping_check = ping;
        check_failure = check;
        failure = if s.is_online then d.failure else diagnose_failure to_lower check host ping;
      }

  -- storeStatusDetailsLockedMode, past its guard
  unfoldable pub store_details : Time → Sample → Option ProxyStatusDetails → ProxyStatusDetails
  unfolding store_in_state next_state
  store_details now s previous = store_in_state now s (next_state s previous) previous

  -- storeOfflineDiagnostics, for details that are there.
  unfoldable pub diagnosed_details :
      Time → ReachCheck → ReachCheck → ProxyStatusDetails → ProxyStatusDetails
  diagnosed_details now host ping d =
      let state = classify false (some host) (some ping) in
      if d.online then d else record d {
        status = state;
        last_changed_at = if same_state (effective_status d) state then d.last_changed_at else now;
        down_since = if same_state state offline then or_now d.down_since now else 0;
        proxy_failure_since =
            if same_state state offline then 0 else or_now d.proxy_failure_since now;
        failing_since =
            if d.failing_since == 0 then or_now (service_failure_since d) now else d.failing_since;
        host_check = host;
        ping_check = ping;
        failure = diagnose_failure to_lower d.check_failure host ping;
      }

  -- RestoreOfflineStatus and RestoreProxyFailureStatus, for a time that is not zero.
  abbrev pub restored_failure : FailureDetails → ReachCheck → ReachCheck → FailureDetails
  restored_failure failure host ping =
      if is_absent failure.code then diagnose_failure to_lower no_failure host ping else failure

  abbrev pub restored_details :
      AvailabilityState
      → Time
      → Time
      → ReachCheck
      → ReachCheck
      → FailureDetails
      → ProxyStatusDetails
  restored_details state now since host ping failure = record {
    online = false;
    status = state;
    latency = pos 0;
    checked_at = now;
    last_changed_at = since;
    down_since = if same_state state offline then since else 0;
    proxy_failure_since = if same_state state offline then 0 else since;
    failing_since = since;
    host_check = host;
    ping_check = ping;
    check_failure = restored_failure failure host ping;
    failure = restored_failure failure host ping;
  }
