-- ===== src/Availability/Proven/Runs.antt =====
-- checker/checker.go: the statuses after any reports.
use mathlib.Core.Path.{subst}
use xray_checker_modify.Base.{
  Bool, true, false, ◌&&◌, List, [], ◌∷◌, ◌≡◌, sym, Text, arith, Bool-cases, Option-cases, inl, inr,
  lookup, Values, Values-insert, Values-delete, Values-lookup, All, member,
}
use xray_checker_modify.Diagnostics.Types.{Time}
use xray_checker_modify.SourcePolicy.{monitoring_enabled}
use xray_checker_modify.Availability.Failure.{ReachCheck}
use xray_checker_modify.Availability.Status.{ProxyStatusDetails, Sample}
use xray_checker_modify.Availability.Checker.{
  ProxyChecker, accepts, Report, passed, failed, diagnosed, refreshed, restored_offline,
  restored_failing, cleared, handle, handle_all, store_status_details, store_offline_diagnostics,
  refresh_host_diagnostics, clear_proxy_monitoring_state, online_sample, failed_sample,
  refreshed_sample,
}
use xray_checker_modify.Availability.Proven.{IsProven, Known, store-IsProven, diagnosed-IsProven}

AllProven : List (Text × ProxyStatusDetails) → Type 0
AllProven = Values IsProven

lookup-Known : (i : Text) (m : List (Text × ProxyStatusDetails)) → AllProven m → Known (lookup i m)
unfolding AllProven
lookup-Known i m h = elim (Option-cases (lookup i m)) [
  | inl e ↦ rw e tt
  | inr (d, e) ↦ rw e (Values-lookup IsProven i m d h e)
]

-- A report that brings no status from an earlier run of the program.
abbrev pub brings_none : Report → Bool
brings_none (restored_offline i since host ping failure) = false
brings_none (restored_failing i since host ping failure) = false
brings_none _ = true

module _ (to_lower : Text → Text) where
  store-AllProven :
      (now : Time) (i : Text) (s : Sample) (allow : Bool) (c : ProxyChecker)
      → AllProven c.status_details
      → AllProven (store_status_details to_lower now i s allow c).0.status_details
  unfolding store_status_details AllProven
  store-AllProven now i s allow c h = elim (Bool-cases (accepts c i allow)) [
    | inr a ↦ rw a h
    | inl a ↦ rw a (
        Values-insert IsProven i _ c.status_details
          (store-IsProven to_lower now s (lookup i c.status_details)
            (lookup-Known i c.status_details h))
          h)
  ]

  diagnosed-AllProven :
      (now : Time) (i : Text) (host ping : ReachCheck) (c : ProxyChecker)
      → AllProven c.status_details
      → AllProven (store_offline_diagnostics to_lower now i host ping c).status_details
  unfolding store_offline_diagnostics AllProven
  diagnosed-AllProven now i host ping c h = elim (Option-cases (lookup i c.status_details)) [
    | inl e ↦ rw e h
    | inr (d, e) ↦ rw e (
        Values-insert IsProven i _ c.status_details
          (diagnosed-IsProven to_lower now host ping d
            (Values-lookup IsProven i c.status_details d h e))
          h)
  ]

  refreshed-AllProven :
      (now : Time) (i : Text) (host ping : ReachCheck) (c : ProxyChecker)
      → AllProven c.status_details
      → AllProven (refresh_host_diagnostics to_lower now i host ping c).status_details
  unfolding refresh_host_diagnostics
  refreshed-AllProven now i host ping c h =
      elim (Bool-cases (monitoring_enabled c.watch i && member i c.known)) [
        | inr g ↦ rw g h
        | inl g ↦ elim (Option-cases (lookup i c.status_details)) [
          | inl e ↦ rw (g, e) h
          | inr (d, e) ↦ elim (Bool-cases d.online) [
            | inl o ↦ rw (g, e) (rw o h)
            | inr o ↦
                rw (g, e) (rw o (store-AllProven now i (refreshed_sample host ping) false c h))
          ]
        ]
      ]

  handle-AllProven :
      (now : Time) (r : Report) (c : ProxyChecker)
      → brings_none r ≡ true
      → AllProven c.status_details
      → AllProven (handle to_lower now r c).status_details
  unfolding handle clear_proxy_monitoring_state AllProven
  handle-AllProven now (passed i latency allow) c b h =
      store-AllProven now i (online_sample latency) allow c h
  handle-AllProven now (failed i failure allow) c b h =
      store-AllProven now i (failed_sample failure) allow c h
  handle-AllProven now (diagnosed i host ping) c b h = diagnosed-AllProven now i host ping c h
  handle-AllProven now (refreshed i host ping) c b h = refreshed-AllProven now i host ping c h
  handle-AllProven now (restored_offline i since host ping failure) c b h =
      absurd (ground (arith, b))
  handle-AllProven now (restored_failing i since host ping failure) c b h =
      absurd (ground (arith, b))
  handle-AllProven now (cleared i) c b h = Values-delete IsProven i c.status_details h

  from-AllProven :
      (rs : List (Time × Report)) (c : ProxyChecker)
      → All (λ e. brings_none e.1 ≡ true) rs
      → AllProven c.status_details
      → AllProven (handle_all to_lower rs c).status_details
  unfolding handle_all
  from-AllProven [] c b h = h
  from-AllProven ((now, r) ∷ rs) c b h =
      from-AllProven rs (handle to_lower now r c) b.1 (handle-AllProven now r c b.0 h)

  -- In a checker that starts with no status, after any reports that restore none from an earlier run of
  -- the program, a node is offline only if a TCP check and a ping of its host have both been made and
  -- have both failed: every status is online, or a proxy failure, or one with two failed checks.
  pub handle_all-IsProven :
      (c : ProxyChecker) (rs : List (Time × Report))
      → c.status_details ≡ []
      → All (λ e. brings_none e.1 ≡ true) rs
      → All (λ e. IsProven e.1) (handle_all to_lower rs c).status_details
  unfolding AllProven
  handle_all-IsProven c rs e b = from-AllProven rs c b (subst AllProven (sym e) tt)
