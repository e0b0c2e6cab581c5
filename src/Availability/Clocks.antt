-- ===== src/Availability/Clocks.antt =====
-- checker/checker.go: the clocks of a node's details.
use mathlib.Core.Path.{subst}
use xray_checker_modify.Base.{
  ◌≤◌, ◌<◌, Bool, true, false, ◌&&◌, Option, none, some, Text, ◌≡◌, ◌⊎◌, refl, sym, ◌==◌,
  if◌then◌else◌, arith, Bool-cases, inl, inr,
}
use xray_checker_modify.Diagnostics.Types.{Time}
use xray_checker_modify.Availability.Failure.{FailureDetails, ReachCheck}
use xray_checker_modify.Availability.Status.{
  online, proxy_failure, offline, same_state, ProxyStatusDetails, effective_status,
  service_failure_since, classify, unreachable, is_none, or_now, Sample, next_state, store_in_state,
  store_details, diagnosed_details, restored_details,
}

-- The clocks of a node that is up, of one that is down, and of one whose host may be up: the clock of
-- its state runs and no other, and that of its failure runs no later.
pub data IsClocked (t : Time) (d : ProxyStatusDetails) : Type 0 where
  up :
      d.online ≡ true
      → d.status ≡ online
      → d.down_since ≡ 0
      → d.proxy_failure_since ≡ 0
      → d.failing_since ≡ 0
      → IsClocked t d
  down :
      d.online ≡ false
      → d.status ≡ offline
      → d.proxy_failure_since ≡ 0
      → 0 < d.failing_since
      → d.failing_since ≤ d.down_since
      → d.down_since ≤ t
      → IsClocked t d
  failing :
      d.online ≡ false
      → d.status ≡ proxy_failure
      → d.down_since ≡ 0
      → 0 < d.failing_since
      → d.failing_since ≤ d.proxy_failure_since
      → d.proxy_failure_since ≤ t
      → IsClocked t d

-- What a clocked node shows, whichever state it is in.
pub effective-up : (d : ProxyStatusDetails) → d.status ≡ online → effective_status d ≡ online
unfolding effective_status
effective-up d h = rw h refl

pub effective-down : (d : ProxyStatusDetails) → d.status ≡ offline → effective_status d ≡ offline
unfolding effective_status
effective-down d h = rw h refl

pub effective-failing :
    (d : ProxyStatusDetails) → d.status ≡ proxy_failure → effective_status d ≡ proxy_failure
unfolding effective_status
effective-failing d h = rw h refl

-- The failure of a node that is not up is as old as its clock says.
pub since-down :
    (d : ProxyStatusDetails)
    → d.status ≡ offline
    → 0 < d.failing_since
    → service_failure_since d ≡ d.failing_since
unfolding service_failure_since
since-down d h p = rw (effective-down d h) (ground (arith, p))

pub since-failing :
    (d : ProxyStatusDetails)
    → d.status ≡ proxy_failure
    → 0 < d.failing_since
    → service_failure_since d ≡ d.failing_since
unfolding service_failure_since
since-failing d h p = rw (effective-failing d h) (ground (arith, p))

pub next_state-cases :
    (s : Sample) (o : Option ProxyStatusDetails)
    → s.is_online ≡ false
    → (next_state s o ≡ offline) ⊎ (next_state s o ≡ proxy_failure)
unfolding next_state classify
next_state-cases s none e = elim (Bool-cases (unreachable s.host && unreachable s.ping)) [
  | inl k ↦ inl (rw (e, k) refl)
  | inr k ↦ inr (rw (e, k) refl)
]
next_state-cases s (some p) e =
    elim (Bool-cases
      (is_none s.host && is_none s.ping && same_state (effective_status p) offline)) [
        | inl q ↦ inl (rw (e, q) refl)
        | inr q ↦ elim (Bool-cases (unreachable s.host && unreachable s.ping)) [
          | inl k ↦ inl (rw (e, q, k) refl)
          | inr k ↦ inr (rw (e, q, k) refl)
        ]
      ]

pub next_state-online :
    (s : Sample) (o : Option ProxyStatusDetails) → s.is_online ≡ true → next_state s o ≡ online
unfolding next_state classify
next_state-online s none e = rw e refl
next_state-online s (some p) e = rw e refl

-- What may stand before a write: nothing, or details whose clocks are right.
pub data Before (t : Time) : Option ProxyStatusDetails → Type 0 where
  nothing : Before t none
  clocked : (p : ProxyStatusDetails) → IsClocked t p → Before t (some p)

pub runs_on : (since now : Time) → 0 < since → or_now since now ≡ since
runs_on since now h = ground (arith, h)

module _ (to_lower : Text → Text) (t now : Time) (s : Sample) (pos_now : 0 < now)
    (later : t ≤ now) where
  store-up :
      (o : Option ProxyStatusDetails)
      → s.is_online ≡ true
      → IsClocked now (store_in_state to_lower now s online o)
  unfolding store_in_state
  store-up none e = up e refl refl refl (rw e refl)
  store-up (some p) e = up e refl refl refl (rw e refl)

  store-down :
      (o : Option ProxyStatusDetails)
      → s.is_online ≡ false
      → Before t o
      → IsClocked now (store_in_state to_lower now s offline o)
  unfolding store_in_state
  store-down none e nothing = down e refl refl (rw e pos_now) (rw e (omega arith)) (omega arith)
  store-down (some p) e (clocked _ (up o st d f g)) =
      down e refl refl (rw (e, effective-up p st) pos_now) (rw (e, effective-up p st) (omega arith))
        (rw (effective-up p st) (omega arith))
  store-down (some p) e (clocked _ (down o st f g le at)) =
      let before = effective-down p st in
      let back = since-down p st g in
      let failing_on = runs_on p.failing_since now g in
      let down_on = runs_on p.down_since now (omega (arith, g, le)) in
      down e refl refl (rw (e, before, back, failing_on) g)
        (rw (e, before, back, failing_on, down_on) le)
        (rw (before, down_on) (omega (arith, at, later)))
  store-down (some p) e (clocked _ (failing o st d g le at)) =
      let before = effective-failing p st in
      let back = since-failing p st g in
      let failing_on = runs_on p.failing_since now g in
      down e refl refl (rw (e, before, back, failing_on) g)
        (rw (e, before, back, failing_on) (omega (arith, le, at, later))) (rw before (omega arith))

  store-failing :
      (o : Option ProxyStatusDetails)
      → s.is_online ≡ false
      → Before t o
      → IsClocked now (store_in_state to_lower now s proxy_failure o)
  unfolding store_in_state
  store-failing none e nothing =
      failing e refl refl (rw e pos_now) (rw e (omega arith)) (omega arith)
  store-failing (some p) e (clocked _ (up o st d f g)) =
      failing e refl refl (rw (e, effective-up p st) pos_now)
        (rw (e, effective-up p st) (omega arith)) (rw (effective-up p st) (omega arith))
  store-failing (some p) e (clocked _ (failing o st d g le at)) =
      let before = effective-failing p st in
      let back = since-failing p st g in
      let failing_on = runs_on p.failing_since now g in
      let state_on = runs_on p.proxy_failure_since now (omega (arith, g, le)) in
      failing e refl refl (rw (e, before, back, failing_on) g)
        (rw (e, before, back, failing_on, state_on) le)
        (rw (before, state_on) (omega (arith, at, later)))
  store-failing (some p) e (clocked _ (down o st f g le at)) =
      let before = effective-down p st in
      let back = since-down p st g in
      let failing_on = runs_on p.failing_since now g in
      failing e refl refl (rw (e, before, back, failing_on) g)
        (rw (e, before, back, failing_on) (omega (arith, le, at, later))) (rw before (omega arith))

  pub store-IsClocked :
      (o : Option ProxyStatusDetails) → Before t o → IsClocked now (store_details to_lower now s o)
  unfolding store_details
  store-IsClocked o h = elim (Bool-cases s.is_online) [
    | inl e ↦ rw (next_state-online s o e) (store-up o e)
    | inr e ↦ elim (next_state-cases s o e) [
      | inl k ↦
          subst (λ st. IsClocked now (store_in_state to_lower now s st o)) (sym k)
            (store-down o e h)
      | inr k ↦
          subst (λ st. IsClocked now (store_in_state to_lower now s st o)) (sym k)
            (store-failing o e h)
    ]
  ]

first : (b : Bool) (x y : ProxyStatusDetails) → b ≡ true → (if b then x else y) ≡ x
first true x y h = refl
first false x y h = ground (arith, h)

pub diagnosed-online :
    (to_lower : Text → Text) (now : Time) (host ping : ReachCheck) (p : ProxyStatusDetails)
    → p.online ≡ true
    → diagnosed_details to_lower now host ping p ≡ p
unfolding diagnosed_details
diagnosed-online to_lower now host ping p o = first p.online p _ o

-- A clock that runs on or starts, not before another.
started : (f since now : Time) → f ≤ now → (since ≡ 0) ⊎ (f ≤ since) → f ≤ or_now since now
started f since now past (inl h) = ground (arith, h, past)
started f since now past (inr h) = ground (arith, h, past)

started-past : (since now : Time) → since ≤ now → or_now since now ≤ now
started-past since now past = ground (arith, past)

pub later-IsClocked :
    (t now : Time) (p : ProxyStatusDetails) → t ≤ now → IsClocked t p → IsClocked now p
later-IsClocked t now p later (up o st d f g) = up o st d f g
later-IsClocked t now p later (down o st f g le at) = down o st f g le (omega (arith, at, later))
later-IsClocked t now p later (failing o st d g le at) =
    failing o st d g le (omega (arith, at, later))

-- The other writes.
module _ (to_lower : Text → Text) (t now : Time) (later : t ≤ now) (host ping : ReachCheck) where
  diagnosed-clocks :
      (p : ProxyStatusDetails)
      → p.online ≡ false
      → 0 < p.failing_since
      → p.failing_since ≤ now
      → (p.down_since ≡ 0) ⊎ (p.failing_since ≤ p.down_since)
      → p.down_since ≤ now
      → (p.proxy_failure_since ≡ 0) ⊎ (p.failing_since ≤ p.proxy_failure_since)
      → p.proxy_failure_since ≤ now
      → IsClocked now (diagnosed_details to_lower now host ping p)
  unfolding diagnosed_details classify
  diagnosed-clocks p o g past d dt f ft =
      let runs : (p.failing_since == 0) ≡ false = ground (arith, g) in
      elim (Bool-cases (unreachable (some host) && unreachable (some ping))) [
        | inl k ↦
            down (rw o refl) (rw (o, k) refl) (rw (o, k) refl) (rw (o, runs) g)
              (rw (o, runs, k) (started p.failing_since p.down_since now past d))
              (rw (o, k) (started-past p.down_since now dt))
        | inr k ↦
            failing (rw o refl) (rw (o, k) refl) (rw (o, k) refl) (rw (o, runs) g)
              (rw (o, runs, k) (started p.failing_since p.proxy_failure_since now past f))
              (rw (o, k) (started-past p.proxy_failure_since now ft))
      ]

  pub diagnosed-IsClocked :
      (p : ProxyStatusDetails)
      → IsClocked t p
      → IsClocked now (diagnosed_details to_lower now host ping p)
  unfolding diagnosed_details
  diagnosed-IsClocked p (up o st d f g) =
      subst (IsClocked now) (sym (diagnosed-online to_lower now host ping p o))
        (later-IsClocked t now p later (up o st d f g))
  diagnosed-IsClocked p (down o st f g le at) =
      diagnosed-clocks p o g (omega (arith, le, at, later)) (inr le) (omega (arith, at, later))
        (inl f) (omega (arith, f))
  diagnosed-IsClocked p (failing o st d g le at) =
      diagnosed-clocks p o g (omega (arith, le, at, later)) (inl d) (omega (arith, d)) (inr le)
        (omega (arith, at, later))

  pub restored-IsClocked :
      (since : Time) (failure : FailureDetails)
      → 0 < since
      → since ≤ now
      → IsClocked now (restored_details to_lower offline now since host ping failure)
        × IsClocked now (restored_details to_lower proxy_failure now since host ping failure)
  restored-IsClocked since failure pos_since past = (
    down refl refl refl pos_since (omega arith) past,
    failing refl refl refl pos_since (omega arith) past,
  )
