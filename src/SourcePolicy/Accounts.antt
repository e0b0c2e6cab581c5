-- ===== src/SourcePolicy/Accounts.antt =====
-- observation/policy.go and checker/observation.go: which nodes are accounted for.
use xray_checker_modify.Base.{
  Bool, true, false, ◌&&◌, Option, none, some, ◌≡◌, refl, Text, trim_space, is_empty, lookup, arith,
  Bool-cases, inl, inr, List,
}
use xray_checker_modify.SourcePolicy.{
  Policy, Watch, normalize_mode, paused, full_policy, policy_for, policy_of_source, no_source,
  set_source_policies, observation_policy_for, monitoring_enabled, speed_test_enabled,
  availability_accounted, environment_sourced, incidents_accounted,
}

environment-full :
    (w : Watch) (o : Option Text) → no_source o ≡ true → policy_of_source w o ≡ full_policy
environment-full w none h = refl
environment-full w (some source) h = rw h refl

environment_sourced-full :
    (w : Watch) (id : Text)
    → environment_sourced w id ≡ true
    → observation_policy_for w id ≡ full_policy
unfolding environment_sourced observation_policy_for
environment_sourced-full w id h = elim (Bool-cases (is_empty (trim_space id))) [
  | inl e ↦ rw e refl
  | inr e ↦ rw e (environment-full w (lookup (trim_space id) w.source_by_stable_id) (rw e at h))
]

-- An outage of a node counts as an incident exactly if the node is monitored and comes from a
-- subscription of the environment, whatever policies are set: those can only touch other nodes.
pub incidents_accounted_lem :
    (w : Watch) (id : Text)
    → incidents_accounted w id ≡ (monitoring_enabled w id && environment_sourced w id)
unfolding incidents_accounted availability_accounted
incidents_accounted_lem w id = elim (Bool-cases (environment_sourced w id)) [
  | inl e ↦ rw (e, environment_sourced-full w id e) (ground arith)
  | inr e ↦ rw e (ground arith)
]

found-policy :
    (w : Watch) (id source : Text) (p : Policy)
    → is_empty (trim_space id) ≡ false
    → lookup (trim_space id) w.source_by_stable_id ≡ some source
    → is_empty source ≡ false
    → lookup source w.source_policies ≡ some p
    → observation_policy_for w id ≡ p
unfolding observation_policy_for
found-policy w id source p named origin known set = rw (named, origin, known, set) refl

paused-policy :
    (mode : Text) (unlisted : Bool)
    → normalize_mode mode ≡ paused
    → ((policy_for mode unlisted).account_availability ≡ false)
      × ((policy_for mode unlisted).speed_test ≡ false)
unfolding policy_for
paused-policy mode unlisted h = rw h (ground arith, ground arith)

silent :
    (w : Watch) (id : Text) (p : Policy)
    → observation_policy_for w id ≡ p
    → p.account_availability ≡ false
    → p.speed_test ≡ false
    → (availability_accounted w id ≡ false)
      × (incidents_accounted w id ≡ false)
      × (speed_test_enabled w id ≡ false)
unfolding incidents_accounted availability_accounted speed_test_enabled
silent w id p h a t = rw (h, a, t) (ground arith, ground arith, ground arith)

-- Once the policies are set, a node of a source whose policy is that of the mode paused takes part in
-- nothing: its availability is not accounted, it opens no incident, and no speed test selects it.
pub set_source_policies-paused :
    (w : Watch) (policies : List (Text × Policy)) (id source mode : Text) (unlisted : Bool)
    → is_empty (trim_space id) ≡ false
    → lookup (trim_space id) w.source_by_stable_id ≡ some source
    → is_empty source ≡ false
    → lookup source (set_source_policies policies w).source_policies
      ≡ some (policy_for mode unlisted)
    → normalize_mode mode ≡ paused
    → (availability_accounted (set_source_policies policies w) id ≡ false)
      × (incidents_accounted (set_source_policies policies w) id ≡ false)
      × (speed_test_enabled (set_source_policies policies w) id ≡ false)
unfolding set_source_policies
set_source_policies-paused w policies id source mode unlisted named origin known set mode_paused =
    let p = paused-policy mode unlisted mode_paused in
    silent (set_source_policies policies w) id (policy_for mode unlisted)
      (found-policy (set_source_policies policies w) id source (policy_for mode unlisted) named
        origin known set)
      p.0 p.1
