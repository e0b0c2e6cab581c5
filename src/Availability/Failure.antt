-- ===== src/Availability/Failure.antt =====
-- checker/failure.go: why a check failed. The case of letters is the parameter `to_lower`, which is
-- strings.ToLower.
use xray_checker_modify.Base.{
  ◌-◌, Bool, true, false, not, ◌&&◌, ◌||◌, Option, none, some, List, [], ◌∷◌, ◌++◌, Text, codes,
  text_eq, leb, ◌==◌, if◌then◌else◌, ℤ, length, take, any, is_empty, trim_space, go_space,
}
use xray_checker_modify.Diagnostics.Types.{Time}

-- FailureCodeConfiguration and the constants after it; `absent` is the empty code.
pub data FailureCode : Type 0 where
  absent configuration dns tcp_refused tcp_timeout host_unreachable proxy_handshake : FailureCode
  proxy_timeout proxy_stream_closed tls http_status source_ip_unchanged : FailureCode
  download_incomplete check_endpoint unknown : FailureCode

abbrev pub is_absent : FailureCode → Bool
is_absent absent = true
is_absent _ = false

pub record FailureDetails : Type 0 where
  pub code : FailureCode
  pub summary : Text
  pub detail : Text

-- HostCheckDetails and PingCheckDetails, which have the same fields.
pub record ReachCheck : Type 0 where
  pub checked : Bool
  pub online : Bool
  pub latency : ℤ
  pub checked_at : Time
  pub target : Text
  pub error : Text

-- FailureSummary
unfoldable pub failure_summary : FailureCode → Text
failure_summary configuration = codes "Ошибка конфигурации проверки"
failure_summary dns = codes "DNS не разрешил адрес"
failure_summary tcp_refused = codes "TCP-порт отклоняет соединение"
failure_summary tcp_timeout = codes "TCP-порт не отвечает"
failure_summary host_unreachable = codes "Хост или маршрут недоступен"
failure_summary proxy_handshake = codes "Ошибка SOCKS/Xray соединения"
failure_summary proxy_timeout = codes "Проверка через прокси превысила таймаут"
failure_summary proxy_stream_closed = codes "Сервер закрыл соединение внутри туннеля"
failure_summary tls = codes "Ошибка TLS или сертификата"
failure_summary http_status = codes "Проверочный URL вернул ошибочный HTTP-статус"
failure_summary source_ip_unchanged = codes "Трафик не вышел через прокси"
failure_summary download_incomplete = codes "Проверочная загрузка не завершилась"
failure_summary check_endpoint = codes "Общий проверочный endpoint недоступен"
failure_summary absent = codes "Причина не определена"
failure_summary unknown = codes "Причина не определена"

-- strings.Fields and strings.Join with one space: a run of spaces becomes one, and none stands first.
-- The Boolean says whether a space is due before the next letter.
unfoldable pub join_fields : Bool → Bool → Text → Text
join_fields started due [] = []
join_fields started due (c ∷ s) =
    let spaced = join_fields started true s in
    let letter = join_fields true false s in
    if go_space c then spaced else if started && due then 32 ∷ c ∷ letter else c ∷ letter

-- compactFailureDetail
unfoldable pub compact_failure_detail : Text → Text
unfolding join_fields trim_space
compact_failure_detail value =
    let joined = join_fields false false (trim_space value) in
    if leb (length joined) 240 then joined else take (240 - 1) joined ++ codes "…"

abbrev starts : Text → Text → Bool
starts [] s = true
starts (c ∷ p) [] = false
starts (c ∷ p) (d ∷ s) = c == d && starts p s

-- strings.Contains
unfoldable pub contains : Text → Text → Bool
contains [] part = starts part []
contains (c ∷ s) part = starts part (c ∷ s) || contains s part

abbrev contains_one : Text → List Text → Bool
contains_one s parts = any (λ part. contains s part) parts

-- failureDetails
unfoldable pub failure_details : FailureCode → Text → FailureDetails
unfolding failure_summary compact_failure_detail
failure_details code detail = record {
  code = code;
  summary = failure_summary code;
  detail = compact_failure_detail detail;
}

-- An error: its text, and what errors.As and errors.Is find in it. `inner` is the text of the error in
-- a url.Error.
pub record CheckError : Type 0 where
  pub message : Text
  pub is_dns : Bool
  pub is_tls_record : Bool
  pub is_deadline : Bool
  pub is_timeout : Bool
  pub inner : Option Text
  pub is_eof : Bool

abbrev or_lower : (Text → Text) → Text → Option Text → Text
or_lower to_lower s none = s
or_lower to_lower s (some inner) = to_lower inner

pub data CheckMethod : Type 0 where
  ip status download other : CheckMethod

module _ (to_lower : Text → Text) where
  -- failureFromError, for an error that is not nil.
  unfoldable pub failure_from_error : CheckError → FailureDetails
  unfolding compact_failure_detail contains failure_details
  failure_from_error e =
      let detail = compact_failure_detail e.message in
      let lower = to_lower detail in
      let innermost = or_lower to_lower lower e.inner in
      let code =
        if e.is_dns || contains_one lower (codes "no such host" ∷ codes "server misbehaving" ∷ [])
        then dns
        else if e.is_tls_record
            || contains_one lower (codes "tls" ∷ codes "certificate" ∷ codes "x509" ∷ [])
        then tls
        else if e.is_deadline || e.is_timeout
        then proxy_timeout
        else if contains_one innermost
            (codes "socks" ∷ codes "proxyconnect" ∷ codes "proxy connect" ∷ [])
        then proxy_handshake
        else if contains innermost (codes "connection refused")
        then tcp_refused
        else if contains_one innermost (
            codes "network is unreachable"
            ∷ codes "no route to host"
            ∷ codes "host is unreachable"
            ∷ [])
        then host_unreachable
        else if e.is_eof
            || text_eq innermost (codes "eof")
            || contains_one innermost
                (codes "unexpected eof" ∷ codes "connection reset" ∷ codes "broken pipe" ∷ [])
        then proxy_stream_closed
        else unknown in
      failure_details code detail

  -- failureFromCheckResult
  unfoldable pub failure_from_check_result : CheckMethod → Text → FailureDetails
  unfolding contains failure_details trim_space
  failure_from_check_result ip message = failure_details source_ip_unchanged message
  failure_from_check_result status message = failure_details http_status message
  failure_from_check_result download message =
      if contains (to_lower (trim_space message)) (codes "http status")
      then failure_details http_status message
      else failure_details download_incomplete message
  failure_from_check_result other message = failure_details unknown message

  -- failureFromHostCheck
  unfoldable pub failure_from_host_check : ReachCheck → FailureDetails
  unfolding compact_failure_detail contains failure_details
  failure_from_host_check host =
      let detail = compact_failure_detail host.error in
      let lower = to_lower detail in
      let code =
        if contains_one lower
          (codes "no such host" ∷ codes "server misbehaving" ∷ codes "resolved to no" ∷ [])
        then dns
        else if contains lower (codes "connection refused")
        then tcp_refused
        else if contains_one lower (codes "timeout" ∷ codes "deadline exceeded" ∷ [])
        then tcp_timeout
        else host_unreachable in
      failure_details code detail

  -- joinFailureDetails, of two parts.
  abbrev joined : Text → Text → Text
  joined a b = if is_empty a then b else if is_empty b then a else a ++ codes "; " ++ b

  unfoldable pub join_failure_details : Text → Text → Text
  unfolding compact_failure_detail
  join_failure_details a b =
      compact_failure_detail (joined (compact_failure_detail a) (compact_failure_detail b))

  abbrev is_dns_code : FailureCode → Bool
  is_dns_code dns = true
  is_dns_code _ = false

  abbrev is_refused : FailureCode → Bool
  is_refused tcp_refused = true
  is_refused _ = false

  abbrev is_tcp_timeout : FailureCode → Bool
  is_tcp_timeout tcp_timeout = true
  is_tcp_timeout _ = false

  -- DiagnoseFailure
  unfoldable pub diagnose_failure : FailureDetails → ReachCheck → ReachCheck → FailureDetails
  unfolding failure_from_host_check join_failure_details failure_details
  diagnose_failure check host ping =
      let host_failure = failure_from_host_check host in
      if host.checked && not host.online
      then if is_dns_code host_failure.code || is_refused host_failure.code
        then host_failure
        else if is_tcp_timeout host_failure.code && ping.checked && ping.online
        then record host_failure { summary = codes "Хост отвечает, но TCP-порт недоступен" }
        else if ping.checked && not ping.online
        then record {
          code = host_unreachable;
          summary = codes "Хост или маршрут недоступен";
          detail = join_failure_details host.error ping.error;
        }
        else host_failure
      else if is_absent check.code
      then failure_details unknown (codes "proxy check failed")
      else check
