-- ===== src/Availability/Proven.antt =====
-- checker/checker.go: what has been found of a node that is offline.
pub mod Runs
use mathlib.Core.Path.{subst}
use xray_checker_modify.Base.{
  ℕ, Bool, true, false, not, ◌&&◌, Option, none, some, List, [], ◌∷◌, ◌≡◌, ◌⊎◌, refl, sym, ◌∙◌, ap,
  if◌then◌else◌, Text, arith, Bool-cases, Option-cases, inl, inr, lookup, Values, Values-insert,
  Values-delete, Values-lookup, All, member, none-ne-some, some-eq,
}
use xray_checker_modify.Diagnostics.Types.{Time}
use xray_checker_modify.SourcePolicy.{monitoring_enabled}
use xray_checker_modify.Availability.Failure.{FailureDetails, ReachCheck}
use xray_checker_modify.Availability.Status.{
  AvailabilityState, unset, online, proxy_failure, offline, same_state, ProxyStatusDetails,
  effective_status, unreachable, or_check, classify, is_none, Sample, next_state, store_in_state,
  store_details, diagnosed_details,
}
use xray_checker_modify.Availability.Checker.{
  ProxyChecker, accepts, Report, passed, failed, diagnosed, refreshed, restored_offline,
  restored_failing, cleared, handle, handle_all, store_status_details, store_offline_diagnostics,
  refresh_host_diagnostics, clear_proxy_monitoring_state, online_sample, failed_sample,
  refreshed_sample,
}
use xray_checker_modify.Availability.Clocks.{
  next_state-online, effective-up, effective-failing, diagnosed-online,
}

-- A node is online, or its proxy fails, or both the TCP check and the ping have been made and failed.
pub data IsProven (d : ProxyStatusDetails) : Type 0 where
  is_up : d.status ≡ online → IsProven d
  is_failing : d.status ≡ proxy_failure → IsProven d
  is_down :
      d.status ≡ offline
      → unreachable (some d.host_check) ≡ true
      → unreachable (some d.ping_check) ≡ true
      → IsProven d

both : (a b : Bool) → (a && b) ≡ true → (a ≡ true) × (b ≡ true)
both a b h = (ground (arith, h), ground (arith, h))

brought_check :
    (o : Option ReachCheck) (c : ReachCheck)
    → unreachable o ≡ true
    → unreachable (some (or_check o c)) ≡ true
brought_check none c h = absurd (ground (arith, h))
brought_check (some d) c h = h

kept_check : (o : Option ReachCheck) (c : ReachCheck) → is_none o ≡ true → or_check o c ≡ c
kept_check none c h = refl
kept_check (some d) c h = absurd (ground (arith, h))

up_ne_off : online ≡ offline → ⊥
up_ne_off h = ground (arith, h)

failing_ne_off : proxy_failure ≡ offline → ⊥
failing_ne_off h = ground (arith, h)

-- What may stand before a write.
abbrev pub Known : Option ProxyStatusDetails → Type 0
Known none = Unit
Known (some p) = IsProven p

module _ (to_lower : Text → Text) (now : Time) (s : Sample) where
  status-store :
      (st : AvailabilityState) (o : Option ProxyStatusDetails)
      → (store_in_state to_lower now s st o).status ≡ st
  unfolding store_in_state
  status-store st none = refl
  status-store st (some p) = refl

  -- The checks that a sample brings, and those that are kept.
  brought :
      (st : AvailabilityState) (o : Option ProxyStatusDetails)
      → s.is_online ≡ false
      → unreachable s.host ≡ true
      → unreachable s.ping ≡ true
      → (unreachable (some (store_in_state to_lower now s st o).host_check) ≡ true)
        × (unreachable (some (store_in_state to_lower now s st o).ping_check) ≡ true)
  unfolding store_in_state
  brought st none e h p = rw e (brought_check s.host _ h, brought_check s.ping _ p)
  brought st (some d) e h p = rw e (brought_check s.host _ h, brought_check s.ping _ p)

  kept_checks :
      (st : AvailabilityState) (p : ProxyStatusDetails)
      → s.is_online ≡ false
      → is_none s.host ≡ true
      → is_none s.ping ≡ true
      → ((store_in_state to_lower now s st (some p)).host_check ≡ p.host_check)
        × ((store_in_state to_lower now s st (some p)).ping_check ≡ p.ping_check)
  unfolding store_in_state
  kept_checks st p e h k = rw e (kept_check s.host p.host_check h, kept_check s.ping p.ping_check k)

  -- The three ways in which a state is found.
  data Reason (o : Option ProxyStatusDetails) : AvailabilityState → Type 0 where
    answered : Reason o online
    unproven : Reason o proxy_failure
    checked : unreachable s.host ≡ true → unreachable s.ping ≡ true → Reason o offline
    remembered :
        (p : ProxyStatusDetails)
        → o ≡ some p
        → is_none s.host ≡ true
        → is_none s.ping ≡ true
        → effective_status p ≡ offline
        → Reason o offline

  classify-Reason : (o : Option ProxyStatusDetails) → Reason o (classify false s.host s.ping)
  unfolding classify
  classify-Reason o = elim (Bool-cases (unreachable s.host && unreachable s.ping)) [
    | inl k ↦ let b = both _ _ k in rw k (checked b.0 b.1)
    | inr k ↦ rw k unproven
  ]

  same_state-eq : (a b : AvailabilityState) → same_state a b ≡ true → a ≡ b
  same_state-eq a b h = ground (arith, h)

  next_state-Reason :
      (o : Option ProxyStatusDetails) → s.is_online ≡ false → Reason o (next_state s o)
  unfolding next_state
  next_state-Reason none e =
      let found : next_state s none ≡ classify false s.host s.ping = rw e refl in
      subst (Reason none) (sym found) (classify-Reason none)
  next_state-Reason (some p) e =
      let keeps = is_none s.host && is_none s.ping && same_state (effective_status p) offline in
      elim (Bool-cases keeps) [
        | inl k ↦
            let first = both _ _ k in
            let nones = both _ _ first.0 in
            let found : next_state s (some p) ≡ offline = rw (e, k) refl in
            subst (Reason (some p)) (sym found)
              (remembered p refl nones.0 nones.1 (same_state-eq _ _ first.1))
        | inr k ↦
            let found : next_state s (some p) ≡ classify false s.host s.ping = rw (e, k) refl in
            subst (Reason (some p)) (sym found) (classify-Reason (some p))
      ]

  settle :
      (o : Option ProxyStatusDetails) (st : AvailabilityState)
      → s.is_online ≡ false
      → Known o
      → Reason o st
      → IsProven (store_in_state to_lower now s st o)
  settle o st e h answered = is_up (status-store online o)
  settle o st e h unproven = is_failing (status-store proxy_failure o)
  settle o st e h (checked a b) =
      let c = brought offline o e a b in is_down (status-store offline o) c.0 c.1
  settle o st e h (remembered p same no_host no_ping was_off) =
      subst (λ x. IsProven (store_in_state to_lower now s offline x)) (sym same)
        (still_off p e no_host no_ping was_off (subst Known same h))
    where
      still_off :
          (p : ProxyStatusDetails)
          → s.is_online ≡ false
          → is_none s.host ≡ true
          → is_none s.ping ≡ true
          → effective_status p ≡ offline
          → IsProven p
          → IsProven (store_in_state to_lower now s offline (some p))
      still_off p e no_host no_ping was_off (is_up k) =
          absurd (up_ne_off (sym (effective-up p k) ∙ was_off))
      still_off p e no_host no_ping was_off (is_failing k) =
          absurd (failing_ne_off (sym (effective-failing p k) ∙ was_off))
      still_off p e no_host no_ping was_off (is_down k a b) =
          let c = kept_checks offline p e no_host no_ping in
          is_down (status-store offline (some p))
            (subst (λ x. unreachable (some x) ≡ true) (sym c.0) a)
            (subst (λ x. unreachable (some x) ≡ true) (sym c.1) b)

  pub store-IsProven :
      (o : Option ProxyStatusDetails) → Known o → IsProven (store_details to_lower now s o)
  unfolding store_details
  store-IsProven o h = elim (Bool-cases s.is_online) [
    | inl e ↦ is_up (rw (next_state-online s o e) (status-store online o))
    | inr e ↦ settle o (next_state s o) e h (next_state-Reason o e)
  ]

pub diagnosed-IsProven :
    (to_lower : Text → Text) (now : Time) (host ping : ReachCheck) (d : ProxyStatusDetails)
    → IsProven d
    → IsProven (diagnosed_details to_lower now host ping d)
unfolding diagnosed_details classify
diagnosed-IsProven to_lower now host ping d h = elim (Bool-cases d.online) [
  | inl o ↦ subst IsProven (sym (diagnosed-online to_lower now host ping d o)) h
  | inr o ↦ elim (Bool-cases (unreachable (some host) && unreachable (some ping))) [
    | inl k ↦ let b = both _ _ k in is_down (rw (o, k) refl) (rw o b.0) (rw o b.1)
    | inr k ↦ is_failing (rw (o, k) refl)
  ]
]
