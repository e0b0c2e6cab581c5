-- ===== src/Availability/Since/Dated.antt =====
-- checker/checker.go: the clock of the failure after a write.
use xray_checker_modify.Base.{true, false, Option, none, some, ◌≡◌, refl, ap, ◌==◌, Text, arith}
use xray_checker_modify.Diagnostics.Types.{Time}
use xray_checker_modify.Availability.Failure.{ReachCheck}
use xray_checker_modify.Availability.Status.{
  AvailabilityState, online, ProxyStatusDetails, or_now, Sample, next_state, store_in_state,
  store_details, diagnosed_details,
}
use xray_checker_modify.Availability.Clocks.{
  IsClocked, up, down, failing, Before, nothing, clocked, effective-up, effective-down,
  effective-failing, since-down, since-failing, next_state-online, diagnosed-online,
}
use xray_checker_modify.Availability.Since.{since_of}

module _ (to_lower : Text → Text) (now : Time) (s : Sample) where
  store_in_state-online :
      (o : Option ProxyStatusDetails)
      → s.is_online ≡ true
      → (store_in_state to_lower now s online o).failing_since ≡ 0
  unfolding store_in_state
  store_in_state-online none e = rw e refl
  store_in_state-online (some p) e = rw e refl

  pub store_details-online :
      (o : Option ProxyStatusDetails)
      → s.is_online ≡ true
      → (store_details to_lower now s o).failing_since ≡ 0
  unfolding store_details
  store_details-online o e = rw (next_state-online s o e) (store_in_state-online o e)

  store_in_state-since :
      (t : Time) (st : AvailabilityState) (o : Option ProxyStatusDetails)
      → s.is_online ≡ false
      → Before t o
      → (store_in_state to_lower now s st o).failing_since ≡ or_now (since_of o) now
  unfolding store_in_state
  store_in_state-since t st none e nothing = rw e refl
  store_in_state-since t st (some p) e (clocked _ (up o k d f g)) = rw (e, effective-up p k, g) refl
  store_in_state-since t st (some p) e (clocked _ (down o k f g le at)) =
      rw (e, effective-down p k, since-down p k g) refl
  store_in_state-since t st (some p) e (clocked _ (failing o k d g le at)) =
      rw (e, effective-failing p k, since-failing p k g) refl

  pub store_details-since :
      (t : Time) (o : Option ProxyStatusDetails)
      → s.is_online ≡ false
      → Before t o
      → (store_details to_lower now s o).failing_since ≡ or_now (since_of o) now
  unfolding store_details
  store_details-since t o e h = store_in_state-since t (next_state s o) o e h

pub diagnosed-since :
    (to_lower : Text → Text) (t now : Time) (host ping : ReachCheck) (p : ProxyStatusDetails)
    → IsClocked t p
    → (diagnosed_details to_lower now host ping p).failing_since ≡ p.failing_since
unfolding diagnosed_details
diagnosed-since to_lower t now host ping p (up o k d f g) =
    ap ProxyStatusDetails.failing_since (diagnosed-online to_lower now host ping p o)
diagnosed-since to_lower t now host ping p (down o k f g le at) =
    let runs : (p.failing_since == 0) ≡ false = ground (arith, g) in rw (o, runs) refl
diagnosed-since to_lower t now host ping p (failing o k d g le at) =
    let runs : (p.failing_since == 0) ≡ false = ground (arith, g) in rw (o, runs) refl
