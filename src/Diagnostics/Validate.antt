-- ===== src/Diagnostics/Validate.antt =====
-- diagnostics/manager.go: the validation of requests, profiles, evidence and observations.
use xray_checker_modify.Base.{
  ℕ, Bool, true, false, not, ◌&&◌, ◌||◌, Option, none, some, List, [], ◌∷◌, Text, codes, text_eq,
  is_negative, is_zero, ltb, leb, ◌==◌, length, all, if◌then◌else◌, trim_space, byte_length,
  is_empty, map, member,
}
use xray_checker_modify.Diagnostics.Types.{
  ProbeStatus, unknown, online, proxy_failure, offline, ProbeMethod, download, method_valid,
  FailureStage, FailureEvidence, CheckEvidence, LocalResultSnapshot, profile_download_bytes,
  TestProfile,
}
use xray_checker_modify.Diagnostics.Check.{invalid_request, Check, ◌>>◌, fail_if}

-- validSafeValue
abbrev safe_character : ℕ → Bool
safe_character c =
    leb b'a' c && leb c b'z'
    || leb b'A' c && leb c b'Z'
    || leb b'0' c && leb c b'9'
    || c == b'-'
    || c == b'_'
    || c == b'.'
    || c == b':'

unfoldable pub valid_safe_value : Text → ℕ → Bool
unfolding byte_length
valid_safe_value value max_length =
    if is_empty value || ltb max_length (byte_length value) then false else all safe_character value

unfoldable pub valid_token : Text → Bool
unfolding valid_safe_value
valid_token value = valid_safe_value value 128

unfoldable pub valid_profile_id : Text → Bool
unfolding valid_safe_value
valid_profile_id value = valid_safe_value value 64

abbrev failure_codes : List Text
failure_codes = map codes (
    "configuration" ∷ "dns" ∷ "tcp_refused" ∷ "tcp_timeout" ∷ "host_unreachable"
    ∷ "network_unreachable" ∷ "proxy_handshake" ∷ "proxy_timeout" ∷ "tls" ∷ "tls_timeout"
    ∷ "tls_reset" ∷ "tls_eof" ∷ "tls_alert" ∷ "tls_failed" ∷ "dns_mismatch" ∷ "dns_literal_address"
    ∷ "http_status" ∷ "source_ip_unchanged" ∷ "download_incomplete" ∷ "check_endpoint" ∷ "unknown"
    ∷ [])

unfoldable pub valid_failure_code : Text → Bool
unfolding member
valid_failure_code value = member value failure_codes

-- The cases of the switch, which leave out the stages dns and tls.
unfoldable pub valid_failure_stage : FailureStage → Bool
valid_failure_stage FailureStage.configuration = true
valid_failure_stage FailureStage.xray_start = true
valid_failure_stage FailureStage.proxy = true
valid_failure_stage FailureStage.tcp = true
valid_failure_stage FailureStage.ping = true
valid_failure_stage FailureStage.direct = true
valid_failure_stage FailureStage.endpoint = true
valid_failure_stage _ = false

-- validFingerprint: "sha256:" and 64 hexadecimal digits in lower case.
abbrev lower_hex : ℕ → Bool
lower_hex c = leb b'0' c && leb c b'9' || leb b'a' c && leb c b'f'

unfoldable pub after_prefix : Text → Text → Option Text
after_prefix [] s = some s
after_prefix (a ∷ t) [] = none
after_prefix (a ∷ t) (c ∷ s) = if a == c then after_prefix t s else none

abbrev is_digest : Option Text → Bool
is_digest none = false
is_digest (some digest) = length digest == 64 && all lower_hex digest

unfoldable pub valid_fingerprint : Text → Bool
unfolding after_prefix
valid_fingerprint value = is_digest (after_prefix (codes "sha256:") value)

abbrev stage_absent : FailureStage → Bool
stage_absent FailureStage.absent = true
stage_absent _ = false

abbrev no_failure : FailureEvidence → Bool
no_failure f = is_empty f.code && stage_absent f.stage

abbrev pub classified : FailureEvidence → Bool
classified f = valid_failure_code f.code && valid_failure_stage f.stage

-- validateProbeResult
unfoldable pub validate_probe_result : ProbeStatus → FailureEvidence → Check
validate_probe_result online f = fail_if (not (no_failure f)) invalid_request
validate_probe_result proxy_failure f = fail_if (not (classified f)) invalid_request
validate_probe_result offline f = fail_if (not (classified f)) invalid_request
validate_probe_result unknown f = some invalid_request
validate_probe_result _ f = some invalid_request

-- validateCheckEvidence
unfoldable pub validate_check_evidence : CheckEvidence → Check
validate_check_evidence e = do
  fail_if (is_negative e.latency_millis) invalid_request
  if not e.checked
      then fail_if (e.online || not (is_zero e.latency_millis) || not (is_empty e.failure_code))
          invalid_request
      else if e.online
      then fail_if (not (is_empty e.failure_code)) invalid_request
      else fail_if (not (valid_failure_code e.failure_code)) invalid_request

-- validateLocalResultSnapshot
abbrev validate_local_status : LocalResultSnapshot → ProbeStatus → Check
validate_local_status s unknown =
    fail_if (not (no_failure s.failure) && not (classified s.failure)) invalid_request
validate_local_status s ProbeStatus.absent = some invalid_request
validate_local_status s ProbeStatus.unsupported = some invalid_request
validate_local_status s known = do
  fail_if (s.checked_at == 0) invalid_request
  validate_probe_result known s.failure

unfoldable pub validate_local_result_snapshot : LocalResultSnapshot → Check
unfolding validate_probe_result validate_check_evidence
validate_local_result_snapshot s = do
  fail_if (is_negative s.latency_millis) invalid_request
  validate_local_status s s.status
  validate_check_evidence s.tcp
  validate_check_evidence s.ping

-- validSpeedServerID: the catalogue of diagnostics/speedservers.go, by its IDs.
abbrev speed_servers : List Text
speed_servers = map codes (
    "hetzner-falkenstein-fsn1" ∷ "hostkey-frankfurt" ∷ "edis-frankfurt" ∷ "leaseweb-frankfurt-fra1"
    ∷ "hostkey-amsterdam" ∷ "edis-amsterdam" ∷ "leaseweb-amsterdam-ams1" ∷ "leaseweb-amsterdam-ams2"
    ∷ "edis-tallinn" ∷ "fairyhosting-estonia" ∷ "hostkey-helsinki" ∷ "edis-helsinki"
    ∷ "mynymbox-helsinki" ∷ "hetzner-helsinki-hel1" ∷ "hostkey-new-york" ∷ "edis-new-york"
    ∷ "leaseweb-new-york-nyc1" ∷ "leaseweb-washington-wdc2" ∷ "edis-los-angeles"
    ∷ "leaseweb-los-angeles-lax12" ∷ "edis-miami" ∷ "hostkey-london" ∷ "leaseweb-london-lon1"
    ∷ "edis-london" ∷ "hostkey-reykjavik" ∷ "edis-hafnarfjordur" ∷ "hostkey-paris" ∷ "edis-paris"
    ∷ "ovh-proof" ∷ "hostkey-madrid" ∷ "edis-seville" ∷ "hostkey-milan" ∷ "edis-milan"
    ∷ "hostkey-istanbul" ∷ "hostkey-warsaw" ∷ "edis-warsaw" ∷ "hostkey-zurich" ∷ "edis-zurich" ∷ [])

unfoldable pub valid_speed_server_id : Text → Bool
unfolding member trim_space
valid_speed_server_id id =
    let trimmed = trim_space id in not (is_empty trimmed) && member trimmed speed_servers

-- validateProfile
abbrev is_download : ProbeMethod → Bool
is_download download = true
is_download _ = false

unfoldable pub validate_profile : TestProfile → Check
unfolding valid_profile_id method_valid profile_download_bytes valid_speed_server_id
validate_profile p = do
  fail_if (not (valid_profile_id p.id)) invalid_request
  fail_if (not (method_valid p.method)) invalid_request
  fail_if
      (not (is_empty p.alternative_profile_id)
        && (not (valid_profile_id p.alternative_profile_id)
            || text_eq p.alternative_profile_id p.id))
      invalid_request
  fail_if
      (not (is_zero p.download_bytes)
        && (not (is_download p.method) || not (profile_download_bytes p.download_bytes).1))
      invalid_request
  fail_if
      (not (is_empty p.server_id)
        && (not (is_download p.method) || not (valid_speed_server_id p.server_id)))
      invalid_request
