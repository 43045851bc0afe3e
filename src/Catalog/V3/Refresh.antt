-- ===== src/Catalog/V3/Refresh.antt =====
-- The refreshes of the version-3 catalog: `discover_target`, `refresh_all`, `refresh_for_call`,
-- `refresh_after_notification`, `list_json`, `management_json` and `sort_tools`.
use agent_capability_gate.Prelude.{
  String, ◌==◌, Bool, true, false, not, ◌&&◌, Option, none, some, List, [], ◌∷◌, ◌++◌, map, filter,
  is_empty, Map, get, insert, remove, values, set_contains, set_insert, set_of, is_some, or_default,
  Ordering, if◌then◌else◌,
}
use Prim.Native.String.{compare as compare_text}
use agent_capability_gate.Json.{
  Value, null, string, as_array, as_str, as_object, get_field, of_map, of_list, ◌>>?◌,
}
use agent_capability_gate.Schema.Regex.{RegexEngine}
use agent_capability_gate.Config.{ValidatedConfig, UpstreamMcpTarget}
use agent_capability_gate.Config.Listing.{tools_json}
use agent_capability_gate.Catalog.Outside.{Outside}
use agent_capability_gate.Catalog.V3.{
  ListedToolState, unavailable, Listed, public_tool, CatalogSnapshot, CatalogState,
  replace_target_projection, adopt_snapshot,
}

-- The name of a tool, where it is a text.
abbrev pub name_of : Value → Option String
name_of tool = get_field "name" tool >>? as_str

-- The loop over the tools that the upstream lists, with the names that stand twice.
unfoldable pub collect_named : List Value → Map Value → List String → Map Value × List String
unfolding get insert set_insert
collect_named [] found twice = (found, twice)
collect_named (tool ∷ tools) found twice = elim (name_of tool) [
  | none ↦ collect_named tools found twice
  | some name ↦
      collect_named tools (insert name tool found)
        (if is_some (get name found) then set_insert name twice else twice)
]

abbrev pub remove_each : List String → Map Value → Map Value
remove_each [] m = m
remove_each (name ∷ names) m = remove_each names (remove name m)

-- A name that stands twice is known, but with a schema that nothing can be made of.
abbrev unusable_each : List String → Map Value → Map Value
unusable_each [] m = m
unusable_each (name ∷ names) m =
    unusable_each names
      (insert name (of_map (("inputSchema", null) ∷ ("name", string name) ∷ [])) m)

abbrev before : Option String → Option String → Bool
before none o = true
before (some s) none = false
before (some s) (some t) = elim (compare_text s t) [ Ordering.gt ↦ false | _ ↦ true ]

sort_insert_tool : Value → List Value → List Value
unfolding get
sort_insert_tool tool [] = tool ∷ []
sort_insert_tool tool (t ∷ ts) =
    let rest = sort_insert_tool tool ts in
    if before (name_of tool) (name_of t) then tool ∷ t ∷ ts else t ∷ rest

-- `sort_by` keeps the order of equal names.
unfoldable pub sort_tools : List Value → List Value
unfolding sort_insert_tool
sort_tools [] = []
sort_tools (t ∷ ts) = sort_insert_tool t (sort_tools ts)

unfoldable pub list_json : ValidatedConfig → CatalogSnapshot → Value
unfolding get tools_json values sort_tools
list_json config snapshot =
    let own = or_default (get_field "tools" (tools_json config) >>? as_array) [] in
    of_map (("tools", of_list (sort_tools (own ++ map public_tool (values snapshot.tools)))) ∷ [])

abbrev is_unavailable : ListedToolState → Bool
is_unavailable (unavailable tool) = true
is_unavailable _ = false

unfoldable pub management_json : ValidatedConfig → CatalogState → Value
unfolding get tools_json insert values
management_json config state =
    let listed = state.snapshot.tools in
    let tools = map public_tool (filter (λ s. not (is_unavailable s)) (values listed)) in
    let missing =
      map (λ e. of_map (("name", string e.0) ∷ ("reason", string "METADATA_UNAVAILABLE") ∷ []))
        (filter (λ e. is_unavailable e.1) listed) in
    of_map (
      insert "unavailable" (of_list missing)
        (insert "tools" (of_list tools) (or_default (as_object (tools_json config)) [])))

module _ {W : Type 0} (engine : RegexEngine) (outside : Outside W) (config : ValidatedConfig) where
  unfoldable pub discovered_in : String → Option (List Value) × W → Option (Map Value) × W
  unfolding collect_named remove insert
  discovered_in target_id (none, w) = (none, w)
  discovered_in target_id (some tools, w) =
      let (found, twice) = collect_named tools [] [] in
      let once = remove_each twice found in
      let stored = if is_empty twice then outside.store target_id once w else w in
      (some (unusable_each twice once), stored)

  abbrev pub discover_known : String → Option UpstreamMcpTarget → W → Option (Map Value) × W
  discover_known target_id none w = (none, w)
  discover_known target_id (some target) w = discovered_in target_id (outside.list_tools target w)

  unfoldable pub discover_target : String → W → Option (Map Value) × W
  unfolding get discovered_in
  discover_target target_id w = discover_known target_id (get target_id config.upstream_targets) w

  -- The tools and the fresh targets of a refresh in progress, and the world.
  pub record Progress : Type 0 where
    pub tools : Listed
    pub fresh : List String
    pub world : W

  abbrev retain_other : String → List String → List String
  retain_other target_id targets = filter (λ t. not (t == target_id)) targets

  -- A discovery that failed leaves the tools of the target as they were.
  abbrev pub take_discovered : String → Option (Map Value) × W → Progress → Progress × Bool
  take_discovered target_id (none, w) p =
      (record { tools = p.tools; fresh = retain_other target_id p.fresh; world = w }, false)
  take_discovered target_id (some discovered, w) p = (
    record {
      tools = replace_target_projection engine config target_id discovered p.tools;
      fresh = set_insert target_id p.fresh;
      world = w;
    },
    true,
  )

  -- Discover the target's tools, and whether that succeeded.
  unfoldable pub rediscover : String → Progress → Progress × Bool
  unfolding discover_target set_insert replace_target_projection
  rediscover target_id p = take_discovered target_id (discover_target target_id p.world) p

  -- A target that is connected is not asked again.
  abbrev pub unless_connected : String → Bool × W → Progress → Progress × Bool
  unless_connected target_id (true, w) p = (record p { world = w }, true)
  unless_connected target_id (false, w) p = rediscover target_id (record p { world = w })

  -- The same for a target that is fresh; any other is asked.
  unfoldable pub refresh_stale : String → Progress → Progress × Bool
  unfolding rediscover set_contains
  refresh_stale target_id p =
      if set_contains target_id p.fresh
      then unless_connected target_id (outside.is_connected target_id p.world) p
      else rediscover target_id p

  unfoldable pub refresh_each : List String → Progress → Progress
  unfolding refresh_stale
  refresh_each [] p = p
  refresh_each (target_id ∷ ids) p = refresh_each ids (refresh_stale target_id p).0

  abbrev pub begun : CatalogState → W → Progress
  begun state w = record { tools = state.snapshot.tools; fresh = state.fresh_targets; world = w }

  pub record ListRefreshOutcome : Type 0 where
    pub changed : Bool
    pub response : Value

  pub record RefreshOutcome : Type 0 where
    pub available : Bool
    pub changed : Bool
    pub tool_state : Option ListedToolState

  unfoldable pub refresh_all : CatalogState → W → CatalogState × ListRefreshOutcome × W
  unfolding refresh_each set_of values adopt_snapshot list_json
  refresh_all state w =
      let targets = set_of (map (λ e. e.target_id) (values config.v3_exposures)) in
      let p = refresh_each targets (begun state w) in
      let (next, changed) = adopt_snapshot state p.tools p.fresh true in
      (
        next,
        record {
          changed = state.catalog_was_listed && changed;
          response = list_json config next.snapshot;
        },
        p.world,
      )

  unfoldable pub refresh_for_call :
      String → String → CatalogState → W → CatalogState × RefreshOutcome × W
  unfolding refresh_stale adopt_snapshot get
  refresh_for_call target_id public_name state w =
      let (p, available) = refresh_stale target_id (begun state w) in
      let (next, changed) = adopt_snapshot state p.tools p.fresh false in
      (
        next,
        record {
          available = available;
          changed = state.catalog_was_listed && changed;
          tool_state = get public_name next.snapshot.tools;
        },
        p.world,
      )

  unfoldable pub refresh_after_notification :
      String → CatalogState → W → CatalogState × RefreshOutcome × W
  unfolding rediscover adopt_snapshot
  refresh_after_notification target_id state w =
      let (p, available) = rediscover target_id (begun state w) in
      let (next, changed) = adopt_snapshot state p.tools p.fresh false in
      (
        next,
        record {
          available = available;
          changed = state.catalog_was_listed && changed;
          tool_state = none;
        },
        p.world,
      )
