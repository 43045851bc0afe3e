-- ===== src/Catalog/V2.antt =====
-- The version-2 catalog, crates/boundary/src/v2_catalog.rs. `refresh_lock` makes each refresh one step, so
-- a refresh is a function of the state and of the world. A lock that a panic has poisoned is not modelled, nor
-- is a panic of `derive_restricted_public_tool` told from its error.
pub mod Refresh
pub mod Others
use agent_capability_gate.Prelude.{
  String, ◌==◌, Bool, true, false, not, ◌&&◌, ◌||◌, Option, none, some, List, [], ◌∷◌, ◌++◌, map,
  filter, any, Map, get, insert, remove, retain, contains_key, keys, values, set_contains,
  set_insert, is_some, Result, ok, err, or_default, if◌then◌else◌,
}
use agent_capability_gate.Json.{
  Value, string, as_array, as_str, as_object, get_field, of_map, of_list, value_eq, is_some_and,
  ◌>>?◌,
}
use agent_capability_gate.Schema.Regex.{RegexEngine}
use agent_capability_gate.Faults.{Fault, rejected, panicked}
use agent_capability_gate.Config.{
  McpExposure, McpExposureMode, proxy, restriction, UpstreamMcpTarget, ValidatedConfig,
}
use agent_capability_gate.Config.Listing.{tools_json}
use agent_capability_gate.Exposure.Restrict.{
  derive_restricted_public_tool, restricted_compatibility,
}
use agent_capability_gate.Catalog.Outside.{Outside}
use agent_capability_gate.Catalog.V2Operations.{V2Operations}
use agent_capability_gate.Catalog.V3.Refresh.{name_of, sort_tools}

-- `CachedTool` of catalog_cache.rs.
pub record CachedTool : Type 0 where
  pub upstream : Value
  pub public : Value

abbrev pub Snapshot : Type 0
Snapshot = Map CachedTool

-- `CatalogCache::load`, and `store` with whether it succeeded; without a cache, `load` gives none and
-- `store` false.
pub record CacheFiles (W : Type 0) : Type 0 where
  pub load : String → Option Snapshot
  pub store : String → Snapshot → W → Bool × W

pub record CatalogState : Type 0 where
  pub active : Map Value
  pub cached : Map Snapshot
  pub changed : Map String
  pub unavailable : List String

-- The derived `==` of snapshots and of tools.
abbrev pub snapshot_eq : Snapshot → Snapshot → Bool
snapshot_eq [] [] = true
snapshot_eq ((j, s) ∷ m) ((k, t) ∷ n) =
    j == k && (value_eq s.upstream t.upstream && value_eq s.public t.public) && snapshot_eq m n
snapshot_eq _ _ = false

abbrev pub tools_eq : Map Value → Map Value → Bool
tools_eq [] [] = true
tools_eq ((j, s) ∷ m) ((k, t) ∷ n) = j == k && value_eq s t && tools_eq m n
tools_eq _ _ = false

abbrev pub for_target : ValidatedConfig → String → List McpExposure
for_target config t = filter (λ e. e.target_id == t) (values config.v2_exposures)

-- `V2Catalog::new`: what the cache has of each target, where it fits the exposures.
module _ (load : String → Option Snapshot) (config : ValidatedConfig) where
  abbrev pub has_object_schema : Value → Bool
  has_object_schema public = is_some (get_field "inputSchema" public >>? as_object)

  abbrev pub fits_exposure : McpExposure → CachedTool → Bool
  fits_exposure exposure entry =
      is_some_and (name_of entry.upstream) (λ n. n == exposure.upstream_tool)
      && is_some_and (name_of entry.public) (λ n. n == exposure.public_name)
      && has_object_schema entry.public

  abbrev pub activate_entry : McpExposure → Option CachedTool → Map Value → Map Value
  activate_entry exposure none active = active
  activate_entry exposure (some entry) active =
      if fits_exposure exposure entry
      then insert exposure.public_name entry.public active
      else active

  unfoldable pub activate_each : Snapshot → List McpExposure → Map Value → Map Value
  unfolding get insert
  activate_each cached [] active = active
  activate_each cached (exposure ∷ exposures) active =
      activate_each cached exposures
        (activate_entry exposure (get exposure.upstream_tool cached) active)

  abbrev pub load_target : String → Option Snapshot → CatalogState → CatalogState
  load_target t none s = s
  load_target t (some cached) s = record s {
    active = activate_each cached (for_target config t) s.active;
    cached = insert t cached s.cached;
  }

  unfoldable pub load_each : List String → CatalogState → CatalogState
  unfolding activate_each insert values
  load_each [] s = s
  load_each (t ∷ ts) s = load_each ts (load_target t (load t) s)

  unfoldable pub new : CatalogState
  unfolding load_each keys
  new =
      load_each (keys config.upstream_targets)
        (record { active = []; cached = []; changed = []; unavailable = [] })
