-- ===== src/Availability/Since/Fits.antt =====
-- checker/checker.go: each write under an ID, whose clock stays the one that was read off.
use mathlib.Core.Path.{subst}
use xray_checker_modify.Base.{
  ◌≤◌, ◌<◌, Bool, true, false, ◌&&◌, Option, none, some, List, ◌≡◌, refl, sym, ◌∙◌, ap,
  if◌then◌else◌, Text, text_eq, text_eq→eq, arith, Bool-cases, Option-cases, if_same, inl, inr,
  lookup, insert, lookup-insert, lookup-delete, member,
}
use xray_checker_modify.Diagnostics.Types.{Time}
use xray_checker_modify.SourcePolicy.{monitoring_enabled}
use xray_checker_modify.Availability.Failure.{FailureDetails, ReachCheck}
use xray_checker_modify.Availability.Status.{
  proxy_failure, offline, ProxyStatusDetails, or_now, Sample, store_details, diagnosed_details,
}
use xray_checker_modify.Availability.Checker.{
  ProxyChecker, accepts, restorable, store_status_details, store_offline_diagnostics,
  refresh_host_diagnostics, restore_status, clear_proxy_monitoring_state, refreshed_sample,
}
use xray_checker_modify.Availability.Clocks.{
  IsClocked, up, down, failing, Before, nothing, clocked, runs_on, store-IsClocked,
  diagnosed-IsClocked, restored-IsClocked, later-IsClocked,
}
use xray_checker_modify.Availability.Since.{since_of}
use xray_checker_modify.Availability.Since.Dated.{
  store_details-online, store_details-since, diagnosed-since,
}

-- What stands under an ID, and since when it fails.
pub record Fits (t : Time) (since : Time) (o : Option ProxyStatusDetails) : Type 0 where
  pub right : Before t o
  pub dated : since_of o ≡ since

some-Fits :
    (t : Time) (d : ProxyStatusDetails) (since : Time)
    → IsClocked t d
    → d.failing_since ≡ since
    → Fits t since (some d)
some-Fits t d since k e = record { right = clocked d k; dated = e }

later-Fits :
    (t now since : Time) (o : Option ProxyStatusDetails)
    → t ≤ now
    → Fits t since o
    → Fits now since o
later-Fits t now since none later f = record { right = nothing; dated = f.dated }
later-Fits t now since (some d) later f = elim f.right [
  | clocked _ k ↦ some-Fits now d since (later-IsClocked t now d later k) f.dated
]

failing_some :
    (t : Time) (d : ProxyStatusDetails) → d.online ≡ false → IsClocked t d → 0 < d.failing_since
failing_some t d o (up k st e f g) = absurd (ground (arith, o, k))
failing_some t d o (down k st f g le at) = g
failing_some t d o (failing k st e g le at) = g

restorable_some :
    (c : ProxyChecker) (i : Text) (start : Time) → restorable c i start ≡ true → 0 < start
unfolding restorable
restorable_some c i start h = ground (arith, h)

module _ (to_lower : Text → Text) (id : Text) (t now since : Time) (pos_now : 0 < now)
    (later : t ≤ now) where
  -- A write under an ID that may be this one.
  put-Fits :
      (i : Text) (d : ProxyStatusDetails) (m : List (Text × ProxyStatusDetails)) (reached : Time)
      → (Fits t since (lookup i m) → Fits now reached (some d))
      → Fits t since (lookup id m)
      → Fits now (if text_eq i id then reached else since) (lookup id (insert i d m))
  put-Fits i d m reached k f = elim (Bool-cases (text_eq i id)) [
    | inl e ↦
        let here = subst (λ j. Fits t since (lookup j m)) (sym (text_eq→eq i id e)) f in
        rw (lookup-insert i id d m, e) (k here)
    | inr e ↦ rw (lookup-insert i id d m, e) (later-Fits t now since (lookup id m) later f)
  ]

  store-Fits :
      (i : Text) (s : Sample) (allow : Bool) (c : ProxyChecker) (reached : Time)
      → (Fits t since (lookup i c.status_details)
          → Fits now reached (some (store_details to_lower now s (lookup i c.status_details))))
      → Fits t since (lookup id c.status_details)
      → Fits now
          (if accepts c i allow && text_eq i id then reached else since)
          (lookup id (store_status_details to_lower now i s allow c).0.status_details)
  unfolding store_status_details
  store-Fits i s allow c reached k f = elim (Bool-cases (accepts c i allow)) [
    | inl a ↦ rw (a, store_status_details) (put-Fits i _ c.status_details reached k f)
    | inr a ↦
        rw (a, store_status_details) (later-Fits t now since (lookup id c.status_details) later f)
  ]

  pub passed-Fits :
      (i : Text) (s : Sample) (allow : Bool) (c : ProxyChecker)
      → s.is_online ≡ true
      → Fits t since (lookup id c.status_details)
      → Fits now
          (if accepts c i allow && text_eq i id then 0 else since)
          (lookup id (store_status_details to_lower now i s allow c).0.status_details)
  passed-Fits i s allow c e f =
      store-Fits i s allow c 0
        (λ here.
          some-Fits now _ 0 (store-IsClocked to_lower t now s pos_now later _ here.right)
            (store_details-online to_lower now s _ e))
        f

  pub failed-Fits :
      (i : Text) (s : Sample) (allow : Bool) (c : ProxyChecker)
      → s.is_online ≡ false
      → Fits t since (lookup id c.status_details)
      → Fits now
          (if accepts c i allow && text_eq i id then or_now since now else since)
          (lookup id (store_status_details to_lower now i s allow c).0.status_details)
  failed-Fits i s allow c e f =
      store-Fits i s allow c (or_now since now)
        (λ here.
          some-Fits now _ (or_now since now)
            (store-IsClocked to_lower t now s pos_now later _ here.right)
            (store_details-since to_lower now s t _ e here.right
              ∙ ap (λ x. or_now x now) here.dated))
        f

  -- A write that leaves the failure as old as it is.
  put_undated :
      (i : Text) (d : ProxyStatusDetails) (m : List (Text × ProxyStatusDetails))
      → (Fits t since (lookup i m) → Fits now since (some d))
      → Fits t since (lookup id m)
      → Fits now since (lookup id (insert i d m))
  put_undated i d m k f =
      subst (λ x. Fits now x (lookup id (insert i d m))) (if_same (text_eq i id) since)
        (put-Fits i d m since k f)

  diagnosed_here :
      (host ping : ReachCheck) (d : ProxyStatusDetails)
      → Fits t since (some d)
      → Fits now since (some (diagnosed_details to_lower now host ping d))
  diagnosed_here host ping d f = elim f.right [
    | clocked _ k ↦
        some-Fits now _ since (diagnosed-IsClocked to_lower t now later host ping d k)
          (diagnosed-since to_lower t now host ping d k ∙ f.dated)
  ]

  pub diagnosed-Fits :
      (i : Text) (host ping : ReachCheck) (c : ProxyChecker)
      → Fits t since (lookup id c.status_details)
      → Fits now since
          (lookup id (store_offline_diagnostics to_lower now i host ping c).status_details)
  unfolding store_offline_diagnostics
  diagnosed-Fits i host ping c f = elim (Option-cases (lookup i c.status_details)) [
    | inl e ↦ rw (e, store_offline_diagnostics) (later-Fits t now since _ later f)
    | inr (d, e) ↦
        rw (e, store_offline_diagnostics)
          (put_undated i (diagnosed_details to_lower now host ping d) c.status_details
            (λ here. diagnosed_here host ping d (subst (Fits t since) e here)) f)
  ]

  -- A refresh writes a node that fails, whose clock runs on.
  refreshed_here :
      (s : Sample) (d : ProxyStatusDetails)
      → s.is_online ≡ false
      → d.online ≡ false
      → Fits t since (some d)
      → Fits now since (some (store_details to_lower now s (some d)))
  refreshed_here s d e o f = elim f.right [
    | clocked _ k ↦
        some-Fits now _ since (store-IsClocked to_lower t now s pos_now later (some d) f.right) (
          store_details-since to_lower now s t (some d) e f.right
          ∙ runs_on d.failing_since now (failing_some t d o k)
          ∙ f.dated)
  ]

  refresh_writes :
      (i : Text) (host ping : ReachCheck) (c : ProxyChecker) (d : ProxyStatusDetails)
      → (monitoring_enabled c.watch i && member i c.known) ≡ true
      → lookup i c.status_details ≡ some d
      → d.online ≡ false
      → refresh_host_diagnostics to_lower now i host ping c
        ≡ (store_status_details to_lower now i (refreshed_sample host ping) false c).0
  unfolding refresh_host_diagnostics
  refresh_writes i host ping c d g e o = rw (g, e, refresh_host_diagnostics) (rw o refl)

  refresh_written :
      (i : Text) (host ping : ReachCheck) (c : ProxyChecker) (d : ProxyStatusDetails)
      → lookup i c.status_details ≡ some d
      → d.online ≡ false
      → Fits t since (lookup id c.status_details)
      → Fits now since (
          lookup id
            (store_status_details to_lower now i
              (refreshed_sample host ping)
              false
              c).0.status_details)
  refresh_written i host ping c d e o f =
      let s = refreshed_sample host ping in
      let written =
        store-Fits i s false c since
          (λ here.
            subst (λ x. Fits now since (some (store_details to_lower now s x))) (sym e)
              (refreshed_here s d refl o (subst (Fits t since) e here)))
          f in
      subst
        (λ x.
          Fits now x (lookup id (store_status_details to_lower now i s false c).0.status_details))
        (if_same (accepts c i false && text_eq i id) since) written

  pub refreshed-Fits :
      (i : Text) (host ping : ReachCheck) (c : ProxyChecker)
      → Fits t since (lookup id c.status_details)
      → Fits now since
          (lookup id (refresh_host_diagnostics to_lower now i host ping c).status_details)
  unfolding refresh_host_diagnostics
  refreshed-Fits i host ping c f =
      let unchanged = later-Fits t now since (lookup id c.status_details) later f in
      elim (Bool-cases (monitoring_enabled c.watch i && member i c.known)) [
        | inr g ↦ rw (g, refresh_host_diagnostics) unchanged
        | inl g ↦ elim (Option-cases (lookup i c.status_details)) [
          | inl e ↦ rw (g, e, refresh_host_diagnostics) unchanged
          | inr (d, e) ↦ elim (Bool-cases d.online) [
            | inl o ↦ rw (g, e, refresh_host_diagnostics) (rw o unchanged)
            | inr o ↦
                subst (λ x. Fits now since (lookup id x.status_details))
                  (sym (refresh_writes i host ping c d g e o))
                  (refresh_written i host ping c d e o f)
          ]
        ]
      ]

  pub restored-Fits :
      (i : Text) (start : Time) (host ping : ReachCheck) (failure : FailureDetails)
      (c : ProxyChecker)
      → start ≤ now
      → Fits t since (lookup id c.status_details)
      → Fits now (if restorable c i start && text_eq i id then start else since) (
          lookup id
            (restore_status to_lower offline now i start host ping failure c).0.status_details)
        × Fits now (if restorable c i start && text_eq i id then start else since) (
            lookup id
              (restore_status to_lower proxy_failure now i start host ping failure
                c).0.status_details)
  unfolding restore_status
  restored-Fits i start host ping failure c past f = elim (Bool-cases (restorable c i start)) [
    | inr g ↦
        let unchanged = later-Fits t now since (lookup id c.status_details) later f in
        rw (g, restore_status) (unchanged, unchanged)
    | inl g ↦
        let k =
          restored-IsClocked to_lower t now later host ping start failure
            (restorable_some c i start g) past in
        rw (g, restore_status)
          (
            put-Fits i _ c.status_details start (λ here. some-Fits now _ start k.0 refl) f,
            put-Fits i _ c.status_details start (λ here. some-Fits now _ start k.1 refl) f,
          )
  ]

  pub cleared-Fits :
      (i : Text) (c : ProxyChecker)
      → Fits t since (lookup id c.status_details)
      → Fits now
          (if text_eq i id then 0 else since)
          (lookup id (clear_proxy_monitoring_state to_lower i c).status_details)
  unfolding clear_proxy_monitoring_state
  cleared-Fits i c f = elim (Bool-cases (text_eq i id)) [
    | inl e ↦ rw (lookup-delete i id c.status_details, e) (record { right = nothing; dated = refl })
    | inr e ↦
        rw (lookup-delete i id c.status_details, e)
          (later-Fits t now since (lookup id c.status_details) later f)
  ]
