-- ===== src/Catalog/V2/Refresh.antt =====
-- The refreshes of the version-2 catalog, crates/boundary/src/v2_catalog.rs, and what it lists.
use agent_capability_gate.Prelude.{
  String, ◌==◌, Bool, true, false, not, ◌&&◌, ◌||◌, Option, none, some, List, [], ◌∷◌, ◌++◌, map,
  filter, any, Map, get, insert, remove, retain, contains_key, keys, values, set_contains,
  set_insert, is_some, Result, ok, err, or_default, if◌then◌else◌,
}
use agent_capability_gate.Json.{
  Value, string, as_array, as_object, get_field, of_map, of_list, is_some_and, ◌>>?◌,
}
use agent_capability_gate.Schema.Regex.{RegexEngine}
use agent_capability_gate.Faults.{Fault}
use agent_capability_gate.Config.{
  McpExposure, proxy, restriction, UpstreamMcpTarget, ValidatedConfig,
}
use agent_capability_gate.Config.Listing.{tools_json}
use agent_capability_gate.Exposure.Restrict.{
  derive_restricted_public_tool, restricted_compatibility,
}
use agent_capability_gate.Catalog.Outside.{Outside}
use agent_capability_gate.Catalog.V2Operations.{V2Operations}
use agent_capability_gate.Catalog.V3.Refresh.{name_of, sort_tools}
use agent_capability_gate.Catalog.V2.{
  CachedTool, Snapshot, CacheFiles, CatalogState, snapshot_eq, tools_eq, for_target,
}

-- `BTreeMap::extend`
unfoldable pub extend {ℓ} : {V : Type ℓ} → Map V → Map V → Map V
unfolding insert
extend m [] = m
extend m ((k, v) ∷ n) = extend (insert k v m) n

-- The listed tools by their names, unless a tool has no name or a name stands twice.
unfoldable pub collect_unique : List Value → Map Value → Option (Map Value)
unfolding get insert
collect_unique [] found = some found
collect_unique (tool ∷ tools) found = elim (name_of tool) [
  | none ↦ none
  | some name ↦
      let rest = collect_unique tools (insert name tool found) in
      if is_some (get name found) then none else rest
]

-- What a refresh of a target builds.
pub record Pass : Type 0 where
  pub next_cached : Snapshot
  pub next_active : Map Value
  pub tombstones : Map String
  pub needs_freeze : List String

abbrev pub named_publicly : McpExposure → Option (Map Value) → Result String (Value × Bool)
named_publicly exposure none = err "upstream tool definition is invalid"
named_publicly exposure (some fields) =
    ok (of_map (insert "name" (string exposure.public_name) fields), false)

-- The tool is taken as it was frozen, as long as the upstream definition is compatible with it.
abbrev pub kept_frozen : Bool → CachedTool → Result String (Value × Bool)
kept_frozen true frozen = ok (frozen.public, false)
kept_frozen false frozen = err "restricted arguments are incompatible with upstream definition"

abbrev pub newly_frozen : Result Fault Value → Result String (Value × Bool)
newly_frozen (ok public) = ok (public, true)
newly_frozen (err fault) = err "restricted definition cannot be derived"

-- What was known before is not offered any more, for a reason.
abbrev pub bury : McpExposure → Bool → String → Pass → Pass
bury exposure true reason p = record p {
  tombstones = insert exposure.public_name reason p.tombstones;
}
bury exposure false reason p = p

abbrev pub take_projected : McpExposure → Value → Bool → Result String (Value × Bool) → Pass → Pass
take_projected exposure observed known (err reason) p = bury exposure known reason p
take_projected exposure observed known (ok (public, is_new)) p = record {
  next_cached =
      insert exposure.upstream_tool (record { upstream = observed; public = public }) p.next_cached;
  next_active = insert exposure.public_name public p.next_active;
  tombstones = p.tombstones;
  needs_freeze = if is_new then set_insert exposure.public_name p.needs_freeze else p.needs_freeze;
}

module _ (engine : RegexEngine) where
  unfoldable pub projected_tool :
      McpExposure → Value → Option CachedTool → Result String (Value × Bool)
  unfolding insert restricted_compatibility derive_restricted_public_tool
  projected_tool exposure upstream previous = elim exposure.mode [
    | proxy ↦ named_publicly exposure (as_object upstream)
    | restriction r ↦ elim previous [
      | none ↦ newly_frozen (derive_restricted_public_tool engine exposure upstream)
      | some frozen ↦ kept_frozen (restricted_compatibility engine exposure upstream) frozen
    ]
  ]

  abbrev pub project_one : Snapshot → McpExposure → Option Value → Pass → Pass
  project_one previous exposure none p =
      bury exposure (contains_key exposure.upstream_tool previous)
        "upstream tool is no longer listed" p
  project_one previous exposure (some observed) p =
      take_projected exposure observed (contains_key exposure.upstream_tool previous)
        (projected_tool exposure observed (get exposure.upstream_tool previous)) p

  -- The loop over the exposures of the target.
  unfoldable pub project_each : Map Value → Snapshot → List McpExposure → Pass → Pass
  unfolding get contains_key insert set_insert projected_tool
  project_each discovered previous [] p = p
  project_each discovered previous (exposure ∷ exposures) p =
      project_each discovered previous exposures
        (project_one previous exposure (get exposure.upstream_tool discovered) p)

abbrev pub forget_snapshot : Option McpExposure → Snapshot → Snapshot
forget_snapshot none m = m
forget_snapshot (some exposure) m = remove exposure.upstream_tool m

-- A restriction does not become active before its snapshot is stored.
unfoldable pub withdraw_each : Map McpExposure → List String → Pass → Pass
unfolding get remove
withdraw_each exposures [] p = p
withdraw_each exposures (name ∷ names) p = withdraw_each exposures names (record p {
  next_active = remove name p.next_active;
  next_cached = forget_snapshot (get name exposures) p.next_cached;
})

module _ {W : Type 0} (engine : RegexEngine) (outside : Outside W) (files : CacheFiles W)
    (config : ValidatedConfig) where
  -- The entry is not that of an exposure of the target.
  abbrev pub of_other : String → String → Bool
  of_other t name = not (is_some_and (get name config.v2_exposures) (λ e. e.target_id == t))

  abbrev pub unless_stored : Bool × W → Pass → Pass × W
  unless_stored (true, w) p = (p, w)
  unless_stored (false, w) p = (withdraw_each config.v2_exposures p.needs_freeze p, w)

  unfoldable pub stored : String → Snapshot → Pass → W → Pass × W
  unfolding withdraw_each
  stored t previous p w =
      if snapshot_eq previous p.next_cached
      then (p, w)
      else unless_stored (files.store t p.next_cached w) p

  -- The new state, and whether clients are to be told.
  unfoldable pub commit : String → Pass → CatalogState → CatalogState × Bool
  unfolding get contains_key keys retain insert set_contains extend
  commit t p s =
      let had_prior =
        contains_key t s.cached
        || any (λ name. is_some_and (get name config.v2_exposures) (λ e. e.target_id == t))
            (keys s.active) in
      let active = extend (retain (of_other t) s.active) p.next_active in
      (
        record {
          active = active;
          cached = insert t p.next_cached s.cached;
          changed = extend (retain (of_other t) s.changed) p.tombstones;
          unavailable = filter (λ u. not (u == t)) s.unavailable;
        },
        set_contains t s.unavailable || (had_prior && not (tools_eq active s.active)),
      )

  abbrev pub committed : String → CatalogState → Pass × W → CatalogState × Bool × W
  committed t s (p, w) = let r = commit t p s in (r.0, r.1, w)

  abbrev pub begun : Snapshot → Pass
  begun previous = record {
    next_cached = previous;
    next_active = [];
    tombstones = [];
    needs_freeze = [];
  }

  unfoldable pub adopt : String → Option (Map Value) → CatalogState → W → CatalogState × Bool × W
  unfolding get values project_each stored commit
  adopt t none s w = (s, false, w)
  adopt t (some discovered) s w =
      let previous = or_default (get t s.cached) [] in
      committed t s (
        stored t previous
          (project_each engine discovered previous (for_target config t) (begun previous)) w)

  abbrev pub after_list : String → Option (List Value) × W → CatalogState → CatalogState × Bool × W
  after_list t (none, w) s = (record s { unavailable = set_insert t s.unavailable }, false, w)
  after_list t (some tools, w) s = adopt t (collect_unique tools []) s w

  abbrev pub refresh_known :
      String → Option UpstreamMcpTarget → CatalogState → W → CatalogState × Bool × W
  refresh_known t none s w = (s, false, w)
  refresh_known t (some target) s w = after_list t (outside.list_tools target w) s

  unfoldable pub refresh_target : String → CatalogState → W → CatalogState × Bool × W
  unfolding get set_insert collect_unique adopt
  refresh_target t s w = refresh_known t (get t config.upstream_targets) s w

  -- The loop over the targets that have exposures.
  unfoldable pub refresh_each : List String → CatalogState → W → CatalogState × Bool × W
  unfolding refresh_target values
  refresh_each [] s w = (s, false, w)
  refresh_each (t ∷ ts) s w =
      if any (λ e. e.target_id == t) (values config.v2_exposures)
      then (let (s1, one, w1) = refresh_target t s w in
          let (s2, more, w2) = refresh_each ts s1 w1 in (s2, one || more, w2))
      else refresh_each ts s w

  unfoldable pub refresh_all : CatalogState → W → CatalogState × Bool × W
  unfolding refresh_each keys
  refresh_all s w = refresh_each (keys config.upstream_targets) s w

  unfoldable pub list_json : CatalogState → Value
  unfolding get values tools_json sort_tools
  list_json s =
      let own = or_default (get_field "tools" (tools_json config) >>? as_array) [] in
      of_map (("tools", of_list (sort_tools (own ++ values s.active))) ∷ [])

  unfoldable pub management_json : CatalogState → Value
  unfolding list_json keys insert contains_key
  management_json s =
      let missing =
        map
          (λ name. of_map (("name", string name) ∷ ("reason", string "METADATA_UNAVAILABLE") ∷ []))
          (filter (λ name. not (contains_key name s.active)) (keys config.v2_exposures)) in
      of_map (insert "unavailable" (of_list missing) (or_default (as_object (list_json s)) []))

  -- The operations that the request handler uses, with the state as a part of the world.
  unfoldable pub v2_operations : V2Operations (CatalogState × W)
  unfolding refresh_all refresh_target get list_json
  v2_operations = record {
    refresh_all = λ sw. let (s, changed, w) = refresh_all sw.0 sw.1 in (changed, (s, w));
    refresh_target = λ t sw. let (s, changed, w) = refresh_target t sw.0 sw.1 in (changed, (s, w));
    public_tool = λ name sw. get name sw.0.active;
    changed_reason = λ name sw. get name sw.0.changed;
    list_json = λ sw. list_json sw.0;
  }
