-- ===== src/Availability/Since/Runs.antt =====
-- checker/checker.go: the clocks after any reports.
use mathlib.Core.Path.{subst}
use xray_checker_modify.Base.{◌≤◌, ◌<◌, none, List, [], ◌∷◌, ◌≡◌, refl, ◌∙◌, Text, arith, lookup}
use xray_checker_modify.Diagnostics.Types.{Time}
use xray_checker_modify.Availability.Checker.{
  ProxyChecker, accepts, restorable, Report, passed, failed, diagnosed, refreshed, restored_offline,
  restored_failing, cleared, handle, handle_all, store_status_details, store_offline_diagnostics,
  refresh_host_diagnostics, restore_status, clear_proxy_monitoring_state, online_sample,
  failed_sample,
}
use xray_checker_modify.Availability.Clocks.{Before, nothing}
use xray_checker_modify.Availability.Since.{
  since_of, next_since, failing_since_of, IsPast, InOrder, last_time,
}
use xray_checker_modify.Availability.Since.Fits.{
  Fits, passed-Fits, failed-Fits, diagnosed-Fits, refreshed-Fits, restored-Fits, cleared-Fits,
}

module _ (to_lower : Text → Text) (id : Text) where
  handle-Fits :
      (c : ProxyChecker) (t now since : Time) (r : Report)
      → 0 < now
      → t ≤ now
      → IsPast now r
      → Fits t since (lookup id c.status_details)
      → Fits now (next_since c id now r since) (lookup id (handle to_lower now r c).status_details)
  unfolding handle next_since
  handle-Fits c t now since (passed i latency allow) pos later past f =
      passed-Fits to_lower id t now since pos later i (online_sample latency) allow c refl f
  handle-Fits c t now since (failed i failure allow) pos later past f =
      failed-Fits to_lower id t now since pos later i (failed_sample failure) allow c refl f
  handle-Fits c t now since (diagnosed i host ping) pos later past f =
      diagnosed-Fits to_lower id t now since pos later i host ping c f
  handle-Fits c t now since (refreshed i host ping) pos later past f =
      refreshed-Fits to_lower id t now since pos later i host ping c f
  handle-Fits c t now since (restored_offline i start host ping failure) pos later past f =
      (restored-Fits to_lower id t now since pos later i start host ping failure c past f).0
  handle-Fits c t now since (restored_failing i start host ping failure) pos later past f =
      (restored-Fits to_lower id t now since pos later i start host ping failure c past f).1
  handle-Fits c t now since (cleared i) pos later past f =
      cleared-Fits to_lower id t now since pos later i c f

  -- What the reports leave of the checker but the statuses.
  handle-watch :
      (c : ProxyChecker) (now : Time) (r : Report)
      → ((handle to_lower now r c).watch ≡ c.watch) × ((handle to_lower now r c).known ≡ c.known)
  unfolding handle store_status_details store_offline_diagnostics refresh_host_diagnostics
      restore_status clear_proxy_monitoring_state
  handle-watch c now (passed i latency allow) = (ground arith, ground arith)
  handle-watch c now (failed i failure allow) = (ground arith, ground arith)
  handle-watch c now (diagnosed i host ping) = (ground arith, ground arith)
  handle-watch c now (refreshed i host ping) = (ground arith, ground arith)
  handle-watch c now (restored_offline i start host ping failure) = (ground arith, ground arith)
  handle-watch c now (restored_failing i start host ping failure) = (ground arith, ground arith)
  handle-watch c now (cleared i) = (refl, refl)

  next_since-watch :
      (c d : ProxyChecker) (now since : Time) (r : Report)
      → d.watch ≡ c.watch
      → d.known ≡ c.known
      → next_since d id now r since ≡ next_since c id now r since
  unfolding next_since accepts restorable
  next_since-watch c d now since (passed i latency allow) w k = rw w refl
  next_since-watch c d now since (failed i failure allow) w k = rw w refl
  next_since-watch c d now since (diagnosed i host ping) w k = refl
  next_since-watch c d now since (refreshed i host ping) w k = refl
  next_since-watch c d now since (restored_offline i start host ping failure) w k = rw (w, k) refl
  next_since-watch c d now since (restored_failing i start host ping failure) w k = rw (w, k) refl
  next_since-watch c d now since (cleared i) w k = refl

  all-Fits :
      (c d : ProxyChecker) (t since : Time) (rs : List (Time × Report))
      → d.watch ≡ c.watch
      → d.known ≡ c.known
      → InOrder t rs
      → Fits t since (lookup id d.status_details)
      → Fits
          (last_time t rs)
          (failing_since_of c id rs since)
          (lookup id (handle_all to_lower rs d).status_details)
  unfolding handle_all failing_since_of
  all-Fits c d t since [] w k o f = f
  all-Fits c d t since ((now, r) ∷ rs) w k o f =
      let kept = handle-watch d now r in
      all-Fits c (handle to_lower now r d) now (next_since c id now r since) rs (kept.0 ∙ w)
        (kept.1 ∙ k) o.3
        (subst (λ x. Fits now x (lookup id (handle to_lower now r d).status_details))
          (next_since-watch c d now since r w k) (handle-Fits d t now since r o.0 o.1 o.2 f))

  start-Fits :
      (c : ProxyChecker) → lookup id c.status_details ≡ none → Fits 0 0 (lookup id c.status_details)
  start-Fits c h = rw h (record { right = nothing; dated = refl })

  -- For a node that has no status at first, the time since which its status says that it fails is, after
  -- any reports, the one that a reading of the reports alone gives: the time of the first failed check
  -- that the checker accepted after the last passed one that it did, whatever the diagnostics of the
  -- host found in between, or the one that was restored, or none. The times of the reports must not be
  -- zero and must not fall, and what is restored must not begin after its report.
  pub handle_all-failing_since :
      (c : ProxyChecker) (rs : List (Time × Report))
      → lookup id c.status_details ≡ none
      → InOrder 0 rs
      → since_of (lookup id (handle_all to_lower rs c).status_details) ≡ failing_since_of c id rs 0
  handle_all-failing_since c rs h o = (all-Fits c c 0 0 rs refl refl o (start-Fits c h)).dated

  -- For a node that has no status at first, after any reports: if it is online, it has no outage clock;
  -- if it is offline, it has a downtime and no proxy failure; if its proxy fails, it has that clock and
  -- no downtime; and no outage is dated later than the last report or before the failure that it is part
  -- of. The times of the reports must not be zero and must not fall, and what is restored must not begin
  -- after its report.
  pub handle_all-IsClocked :
      (c : ProxyChecker) (rs : List (Time × Report))
      → lookup id c.status_details ≡ none
      → InOrder 0 rs
      → Before (last_time 0 rs) (lookup id (handle_all to_lower rs c).status_details)
  handle_all-IsClocked c rs h o = (all-Fits c c 0 0 rs refl refl o (start-Fits c h)).right
