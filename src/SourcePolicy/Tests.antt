-- ===== src/SourcePolicy/Tests.antt =====
-- The policies of sources at a concrete checker.
use xray_checker_modify.Base.{
  true, false, ◌&&◌, List, [], ◌∷◌, ◌≡◌, refl, Text, codes, trim_space, lookup, insert,
}
use xray_checker_modify.SourcePolicy.{
  Policy, Watch, ProxyConfig, normalize_mode, policy_for, copied, set_source_policies,
  index_sources, rebuild_source_index, observation_policy_for, monitoring_enabled,
  speed_test_enabled, availability_accounted, environment_sourced, incidents_accounted,
  listed_publicly,
}
use xray_checker_modify.SourcePolicy.Accounts.{incidents_accounted_lem, set_source_policies-paused}

abbrev empty_watch : Watch
empty_watch = record { source_policies = []; source_by_stable_id = []; maintenance = [] }

abbrev nodes : List ProxyConfig
nodes =
    record { stable_id = codes "node-1"; generated_id = []; source_id = codes "panel-a" }
    ∷ record { stable_id = []; generated_id = codes "node-2"; source_id = [] }
    ∷ []

abbrev watch : Watch
watch = rebuild_source_index nodes empty_watch

abbrev policies : List (Text × Policy)
policies = (codes " panel-a", policy_for (codes "paused") true) ∷ []

unlisted_node : listed_publicly (set_source_policies policies watch) (codes "node-1") ≡ false
unfolding listed_publicly observation_policy_for set_source_policies copied rebuild_source_index
    index_sources policy_for normalize_mode trim_space lookup insert
unlisted_node = refl

environment_node : incidents_accounted (set_source_policies policies watch) (codes "node-2") ≡ true
unfolding incidents_accounted availability_accounted monitoring_enabled environment_sourced
    observation_policy_for set_source_policies copied rebuild_source_index index_sources trim_space
    lookup insert
environment_node = refl

incidents_accounted_lem_example :
    incidents_accounted (set_source_policies policies watch) (codes "node-2") ≡ (
      monitoring_enabled (set_source_policies policies watch) (codes "node-2")
      && environment_sourced (set_source_policies policies watch) (codes "node-2"))
incidents_accounted_lem_example =
    incidents_accounted_lem (set_source_policies policies watch) (codes "node-2")

set_source_policies-paused_example :
    (availability_accounted (set_source_policies policies watch) (codes "node-1") ≡ false)
    × (incidents_accounted (set_source_policies policies watch) (codes "node-1") ≡ false)
    × (speed_test_enabled (set_source_policies policies watch) (codes "node-1") ≡ false)
unfolding set_source_policies copied rebuild_source_index index_sources normalize_mode trim_space
    lookup insert
set_source_policies-paused_example =
    set_source_policies-paused watch policies (codes "node-1") (codes "panel-a") (codes "paused")
      true refl refl refl refl refl
