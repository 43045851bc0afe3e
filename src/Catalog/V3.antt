-- ===== src/Catalog/V3.antt =====
-- The version-3 catalog, crates/boundary/src/v3_catalog.rs. `refresh_lock` makes each refresh one step, so
-- a refresh is a function of the state and of the world. A lock that a panic has poisoned is not modelled.
pub mod Refresh
pub mod Projection
pub mod Faithful
pub mod Reach
pub mod World
use agent_capability_gate.Prelude.{
  ◌+++◌, ℕ, ◌+◌, ◌-◌, ◌^◌, min, String, ◌==◌, Bool, true, false, not, ◌&&◌, ◌||◌, Option, none,
  some, List, [], ◌∷◌, ◌++◌, map, filter, is_empty, Map, get, insert, remove, retain, keys, values,
  set_contains, set_insert, set_of, is_some, Result, ok, err, Ordering, or_default, if◌then◌else◌,
}
use Prim.Native.String.{compare as compare_text}
use agent_capability_gate.Json.{
  Value, null, bool, string, as_array, as_str, get_field, of_map, of_list, value_eq, is_some_and,
  ◌>>?◌,
}
use agent_capability_gate.Schema.Regex.{RegexEngine}
use agent_capability_gate.Config.{McpExposureV3, ValidatedConfig}
use agent_capability_gate.Config.Listing.{tools_json}
use agent_capability_gate.Exposure.Project.{
  V3ProjectionIssue, tool_not_found, issue_text, derive_v3_public_tool,
}
use agent_capability_gate.Catalog.Outside.{Outside}

pub data ListedToolState : Type 0 where
  ready : (tool : Value) → ListedToolState
  blocked : (tool : Value) (reason : V3ProjectionIssue) → ListedToolState
  unavailable : (tool : Value) → ListedToolState

abbrev pub public_tool : ListedToolState → Value
public_tool (ready tool) = tool
public_tool (blocked tool reason) = tool
public_tool (unavailable tool) = tool

abbrev pub Listed : Type 0
Listed = Map ListedToolState

pub record CatalogSnapshot : Type 0 where
  pub generation : ℕ
  pub tools : Listed

pub record CatalogState : Type 0 where
  pub snapshot : CatalogSnapshot
  pub fresh_targets : List String
  pub catalog_was_listed : Bool

-- The derived `==` of listed tools.
abbrev issue_eq : V3ProjectionIssue → V3ProjectionIssue → Bool
issue_eq a b = issue_text a == issue_text b

abbrev pub listed_eq : ListedToolState → ListedToolState → Bool
listed_eq (ready t) (ready u) = value_eq t u
listed_eq (blocked t a) (blocked u b) = value_eq t u && issue_eq a b
listed_eq (unavailable t) (unavailable u) = value_eq t u
listed_eq _ _ = false

abbrev pub tools_eq : Listed → Listed → Bool
tools_eq [] [] = true
tools_eq ((j, s) ∷ m) ((k, t) ∷ n) = j == k && listed_eq s t && tools_eq m n
tools_eq _ _ = false

closed_empty_schema : Value
closed_empty_schema = of_map (
    ("additionalProperties", bool false)
    ∷ ("properties", of_map [])
    ∷ ("required", of_list [])
    ∷ ("type", string "object")
    ∷ [])

-- A tool that is listed but cannot be called.
placeholder : McpExposureV3 → String → Value
unfolding closed_empty_schema
placeholder exposure description = of_map (
    ("description", string description)
    ∷ ("inputSchema", closed_empty_schema)
    ∷ ("name", string exposure.public_name)
    ∷ [])

unfoldable pub blocked_state : McpExposureV3 → V3ProjectionIssue → ListedToolState
unfolding placeholder
blocked_state exposure reason =
    blocked
      (placeholder exposure
        ("Unavailable: upstream definition is incompatible (" +++ (issue_text reason +++ ")")))
      reason

unfoldable pub unavailable_state : McpExposureV3 → ListedToolState
unfolding placeholder
unavailable_state exposure =
    unavailable (
      placeholder exposure
        "Unavailable: upstream tool metadata has not been retrieved; retry later")

-- The exposures of one target.
abbrev pub of_target : String → List McpExposureV3 → List McpExposureV3
of_target target_id exposures = filter (λ e. e.target_id == target_id) exposures

-- The loop that lists the exposures of a target.
unfoldable pub list_each : (McpExposureV3 → ListedToolState) → List McpExposureV3 → Listed → Listed
list_each state [] tools = tools
list_each state (e ∷ es) tools = list_each state es (insert e.public_name (state e) tools)

unfoldable pub projected : McpExposureV3 → Result V3ProjectionIssue Value → ListedToolState
unfolding blocked_state
projected exposure (ok tool) = ready tool
projected exposure (err reason) = blocked_state exposure reason

module _ (engine : RegexEngine) where
  unfoldable pub project : McpExposureV3 → Value → ListedToolState
  unfolding projected
  project exposure upstream = projected exposure (derive_v3_public_tool engine exposure upstream)

  unfoldable pub project_or_unavailable : McpExposureV3 → Option Value → ListedToolState
  unfolding project unavailable_state
  project_or_unavailable exposure none = unavailable_state exposure
  project_or_unavailable exposure (some tool) = project exposure tool

  unfoldable pub project_or_blocked : McpExposureV3 → Option Value → ListedToolState
  unfolding project blocked_state
  project_or_blocked exposure none = blocked_state exposure tool_not_found
  project_or_blocked exposure (some tool) = project exposure tool

  unfoldable pub replace_target_projection : ValidatedConfig → String → Map Value → Listed → Listed
  unfolding retain values list_each project_or_blocked
  replace_target_projection config target_id upstream tools =
      let kept =
        retain
          (λ name. not (is_some_and (get name config.v3_exposures) (λ e. e.target_id == target_id)))
          tools in
      list_each (λ e. project_or_blocked e (get e.upstream_tool upstream))
        (of_target target_id (values config.v3_exposures)) kept

  -- The loop of `new` over the targets; `load` is `UpstreamDefinitionCache::load` of a target's cache.
  unfoldable pub initial_tools :
      ValidatedConfig → (load : String → Option (Map Value)) → List String → Listed → Listed
  unfolding values list_each project_or_unavailable
  initial_tools config load [] tools = tools
  initial_tools config load (target_id ∷ ids) tools =
      let upstream = or_default (load target_id) [] in
      initial_tools config load ids (
        list_each (λ e. project_or_unavailable e (get e.upstream_tool upstream))
          (of_target target_id (values config.v3_exposures)) tools)

  unfoldable pub new : ValidatedConfig → (load : String → Option (Map Value)) → CatalogState
  unfolding initial_tools keys
  new config load = record {
    snapshot = record {
      generation = 0;
      tools = initial_tools config load (keys config.upstream_targets) [];
    };
    fresh_targets = [];
    catalog_was_listed = false;
  }

abbrev u64_max : ℕ
u64_max = 2 ^ 64 - 1

-- The state after the tools are adopted, and whether they differ from those before.
unfoldable pub adopt_snapshot : CatalogState → Listed → List String → Bool → CatalogState × Bool
adopt_snapshot state tools fresh_targets mark_listed =
    let changed = not (tools_eq tools state.snapshot.tools) in
    let listed = mark_listed || state.catalog_was_listed in
    let next : CatalogSnapshot =
      if changed
      then record { generation = min u64_max (state.snapshot.generation + 1); tools = tools }
      else state.snapshot in
    (
      record { snapshot = next; fresh_targets = fresh_targets; catalog_was_listed = listed },
      changed,
    )
