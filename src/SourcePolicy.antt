-- ===== src/SourcePolicy.antt =====
-- observation/policy.go and checker/observation.go: what the checker does with the nodes of one
-- subscription source. Of the checker's state, this is the part that these files read and write.
pub mod Accounts
mod Tests
use xray_checker_modify.Base.{
  Bool, true, false, ◌&&◌, Option, none, some, List, [], ◌∷◌, Text, codes, text_eq, if◌then◌else◌,
  trim_space, is_empty, lookup, insert,
}

pub data Mode : Type 0 where
  full availability paused : Mode

-- NormalizeMode
unfoldable pub normalize_mode : Text → Mode
unfolding trim_space
normalize_mode mode =
    let m = trim_space mode in
    if text_eq m (codes "availability")
    then availability
    else if text_eq m (codes "paused")
    then paused
    else full

pub record Policy : Type 0 where
  pub account_availability : Bool
  pub speed_test : Bool
  pub listed : Bool

-- Full and PolicyFor
abbrev pub full_policy : Policy
full_policy = record { account_availability = true; speed_test = true; listed = true }

abbrev pub of_mode : Mode → Policy
of_mode full = full_policy
of_mode availability = record full_policy { speed_test = false }
of_mode paused = record full_policy { account_availability = false; speed_test = false }

unfoldable pub policy_for : Text → Bool → Policy
unfolding normalize_mode
policy_for mode unlisted =
    let p = of_mode (normalize_mode mode) in if unlisted then record p { listed = false } else p

pub record Watch : Type 0 where
  pub source_policies : List (Text × Policy)
  pub source_by_stable_id : List (Text × Text)
  pub maintenance : List (Text × Unit {0})

-- SetSourcePolicies
unfoldable pub copied : List (Text × Policy) → List (Text × Policy) → List (Text × Policy)
unfolding trim_space insert
copied [] m = m
copied ((id, p) ∷ rest) m =
    let source = trim_space id in
    let more = copied rest (insert source p m) in
    let same = copied rest m in if is_empty source then same else more

unfoldable pub set_source_policies : List (Text × Policy) → Watch → Watch
unfolding copied
set_source_policies policies w = record w { source_policies = copied policies [] }

-- rebuildSourceIndex, for proxies that are not nil. GenerateStableID's result is given.
pub record ProxyConfig : Type 0 where
  pub stable_id : Text
  pub generated_id : Text
  pub source_id : Text

unfoldable pub index_sources : List ProxyConfig → List (Text × Text) → List (Text × Text)
unfolding insert
index_sources [] m = m
index_sources (p ∷ ps) m =
    let id = if is_empty p.stable_id then p.generated_id else p.stable_id in
    let more = index_sources ps (insert id p.source_id m) in
    let same = index_sources ps m in
    if is_empty id then same else if is_empty p.source_id then same else more

unfoldable pub rebuild_source_index : List ProxyConfig → Watch → Watch
unfolding index_sources
rebuild_source_index ps w = record w { source_by_stable_id = index_sources ps [] }

-- ObservationPolicyFor. A map without policies is one in which none is found.
abbrev pub or_full : Option Policy → Policy
or_full none = full_policy
or_full (some p) = p

abbrev pub policy_of_source : Watch → Option Text → Policy
policy_of_source w none = full_policy
policy_of_source w (some source) =
    if is_empty source then full_policy else or_full (lookup source w.source_policies)

unfoldable pub observation_policy_for : Watch → Text → Policy
unfolding trim_space lookup
observation_policy_for w id =
    let stable = trim_space id in
    if is_empty stable
    then full_policy
    else policy_of_source w (lookup stable w.source_by_stable_id)

-- MonitoringEnabled
abbrev pub is_missing {ℓ} : {A : Type ℓ} → Option A → Bool
is_missing none = true
is_missing (some _) = false

unfoldable pub monitoring_enabled : Watch → Text → Bool
unfolding trim_space lookup
monitoring_enabled w id =
    let stable = trim_space id in
    if is_empty stable then false else is_missing (lookup stable w.maintenance)

unfoldable pub speed_test_enabled : Watch → Text → Bool
unfolding monitoring_enabled observation_policy_for
speed_test_enabled w id =
    if monitoring_enabled w id then (observation_policy_for w id).speed_test else false

unfoldable pub availability_accounted : Watch → Text → Bool
unfolding monitoring_enabled observation_policy_for
availability_accounted w id =
    if monitoring_enabled w id then (observation_policy_for w id).account_availability else false

-- EnvironmentSourced
abbrev pub no_source : Option Text → Bool
no_source none = true
no_source (some source) = is_empty source

unfoldable pub environment_sourced : Watch → Text → Bool
unfolding trim_space lookup
environment_sourced w id =
    let stable = trim_space id in
    if is_empty stable then true else no_source (lookup stable w.source_by_stable_id)

unfoldable pub incidents_accounted : Watch → Text → Bool
unfolding availability_accounted environment_sourced
incidents_accounted w id = if availability_accounted w id then environment_sourced w id else false

unfoldable pub listed_publicly : Watch → Text → Bool
unfolding observation_policy_for
listed_publicly w id = (observation_policy_for w id).listed
