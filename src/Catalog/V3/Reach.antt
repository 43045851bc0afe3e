-- ===== src/Catalog/V3/Reach.antt =====
-- The states that the version-3 catalog goes through, and what holds in all of them.
use agent_capability_gate.Prelude.{
  eq_of_some-eq, String, ◌≡◌, sym, ◌∙◌, subst, Bool, true, false, Option, none, some, List, [], ◌∷◌,
  map, Map, get, values, set_of, set_contains, ok, Bool-cases, inl, inr,
}
use agent_capability_gate.Json.{Value, get_field}
use agent_capability_gate.Schema.Regex.{RegexEngine}
use agent_capability_gate.Config.{
  McpExposureV3, McpRestrictionV3, ValidatedConfig, ResolvedMcpInvocation,
}
use agent_capability_gate.Raw.Validate.WellFormed.{WellFormed, DistinctRules-of_WellFormed}
use agent_capability_gate.Exposure.V3.{resolve_v3_mcp}
use agent_capability_gate.Exposure.V3.Forwarded.{fixed_value}
use agent_capability_gate.Exposure.Project.{derive_v3_public_tool}
use agent_capability_gate.Exposure.Project.Hidden.{is_exposed}
use agent_capability_gate.Exposure.Sealed.{resolve_v3_mcp-sealed}
use agent_capability_gate.Catalog.Outside.{Outside}
use agent_capability_gate.Catalog.V3.{ready, Listed, CatalogState, new, adopt_snapshot, tools_eq}
use agent_capability_gate.Catalog.V3.Faithful.{
  Faithful, replace_target_projection-Faithful, initial_tools-Faithful,
}
use agent_capability_gate.Catalog.V3.Refresh.{
  Progress, take_discovered, discover_target, unless_connected, rediscover, refresh_stale,
  refresh_each, begun, refresh_all, refresh_for_call, refresh_after_notification,
}

module _ {W : Type 0} (engine : RegexEngine) (outside : Outside W) (config : ValidatedConfig) where
  -- One refresh, in some world.
  pub data Step : CatalogState → CatalogState → Type 0 where
    listing :
        (state : CatalogState) (w : W) → Step state (refresh_all engine outside config state w).0
    call :
        (state : CatalogState) (target_id public_name : String) (w : W)
        → Step state (refresh_for_call engine outside config target_id public_name state w).0
    notification :
        (state : CatalogState) (target_id : String) (w : W)
        → Step state (refresh_after_notification engine outside config target_id state w).0

  -- The states from `new` on.
  pub data Reached (load : String → Option (Map Value)) : CatalogState → Type 0 where
    start : Reached load (new engine config load)
    next : (s t : CatalogState) → Reached load s → Step s t → Reached load t

  adopt_snapshot-Faithful :
      (state : CatalogState) (tools : Listed) (fresh : List String) (mark : Bool)
      → Faithful engine config state.snapshot.tools
      → Faithful engine config tools
      → Faithful engine config (adopt_snapshot state tools fresh mark).0.snapshot.tools
  unfolding adopt_snapshot
  adopt_snapshot-Faithful state tools fresh mark old f =
      elim (Bool-cases (tools_eq tools state.snapshot.tools)) [
        | inl same ↦ rw same old
        | inr changed ↦ rw changed f
      ]

  module _ (w : WellFormed config) where
    take_discovered-Faithful :
        (target_id : String) (r : Option (Map Value) × W) (p : Progress engine outside config)
        → Faithful engine config p.tools
        → Faithful engine config (take_discovered engine outside config target_id r p).0.tools
    take_discovered-Faithful t (none, world) p f = f
    take_discovered-Faithful t (some found, world) p f =
        replace_target_projection-Faithful engine config t found p.tools w f

    rediscover-Faithful :
        (target_id : String) (p : Progress engine outside config)
        → Faithful engine config p.tools
        → Faithful engine config (rediscover engine outside config target_id p).0.tools
    unfolding rediscover
    rediscover-Faithful t p f =
        take_discovered-Faithful t (discover_target engine outside config t p.world) p f

    unless_connected-Faithful :
        (target_id : String) (r : Bool × W) (p : Progress engine outside config)
        → Faithful engine config p.tools
        → Faithful engine config (unless_connected engine outside config target_id r p).0.tools
    unless_connected-Faithful t (true, world) p f = f
    unless_connected-Faithful t (false, world) p f =
        rediscover-Faithful t (record p { world = world }) f

    refresh_stale-Faithful :
        (target_id : String) (p : Progress engine outside config)
        → Faithful engine config p.tools
        → Faithful engine config (refresh_stale engine outside config target_id p).0.tools
    unfolding refresh_stale
    refresh_stale-Faithful t p f = elim (Bool-cases (set_contains t p.fresh)) [
      | inl fresh ↦ rw fresh (unless_connected-Faithful t (outside.is_connected t p.world) p f)
      | inr stale ↦ rw stale (rediscover-Faithful t p f)
    ]

    refresh_each-Faithful :
        (ids : List String) (p : Progress engine outside config)
        → Faithful engine config p.tools
        → Faithful engine config (refresh_each engine outside config ids p).tools
    unfolding refresh_each
    refresh_each-Faithful [] p f = f
    refresh_each-Faithful (t ∷ ids) p f =
        refresh_each-Faithful ids (refresh_stale engine outside config t p).0
          (refresh_stale-Faithful t p f)

    pub Step-Faithful :
        (s t : CatalogState)
        → Step s t
        → Faithful engine config s.snapshot.tools
        → Faithful engine config t.snapshot.tools
    unfolding refresh_all refresh_for_call refresh_after_notification
    Step-Faithful _ _ (listing s world) f =
        let targets = set_of (map (λ e. e.target_id) (values config.v3_exposures)) in
        let p = refresh_each engine outside config targets (begun engine outside config s world) in
        adopt_snapshot-Faithful s p.tools p.fresh true f (refresh_each-Faithful targets _ f)
    Step-Faithful _ _ (call s id name world) f =
        let p = (refresh_stale engine outside config id (begun engine outside config s world)).0 in
        adopt_snapshot-Faithful s p.tools p.fresh false f (refresh_stale-Faithful id _ f)
    Step-Faithful _ _ (notification s id world) f =
        let p = (rediscover engine outside config id (begun engine outside config s world)).0 in
        adopt_snapshot-Faithful s p.tools p.fresh false f (rediscover-Faithful id _ f)

    -- Over a well-formed configuration, in every state that the catalog reaches from `new` by refreshes for
    -- lists, calls and notifications, whatever the upstream servers answer and whatever the cache held: the
    -- listed names are exactly those of the exposures, and each tool that is listed as ready was derived by
    -- `derive_v3_public_tool` from some upstream tool for the exposure of its name.
    pub Reached-Faithful :
        (load : String → Option (Map Value)) (s : CatalogState)
        → Reached load s
        → Faithful engine config s.snapshot.tools
    unfolding new
    Reached-Faithful load _ start = initial_tools-Faithful engine config load w
    Reached-Faithful load _ (next s t reached step) =
        Step-Faithful s t step (Reached-Faithful load s reached)

    -- Over a well-formed configuration, in every state that the catalog reaches: if a tool is listed as
    -- ready and a call with it resolves, a property that the exposure's restriction does not expose is sent
    -- upstream with the value that the restriction fixes, or not at all, whatever arguments are given.
    pub Reached-sealed :
        (load : String → Option (Map Value)) (s : CatalogState) (name : String) (e : McpExposureV3)
        (r : McpRestrictionV3) (tool arguments : Value) (invocation : ResolvedMcpInvocation)
        (k : String)
        → Reached load s
        → get name s.snapshot.tools ≡ some (ready tool)
        → get name config.v3_exposures ≡ some e
        → e.restriction ≡ some r
        → resolve_v3_mcp engine config name tool arguments ≡ ok invocation
        → is_exposed r k ≡ false
        → get_field k invocation.arguments ≡ fixed_value k r.properties
    Reached-sealed load s name e r tool arguments invocation k reached listed found restricted =
        let (e', upstream, found', derived) =
          (Reached-Faithful load s reached).derived name tool listed in
        let same : e' ≡ e = eq_of_some-eq (sym found' ∙ found) in
        resolve_v3_mcp-sealed engine config name e r upstream tool arguments invocation k
          (DistinctRules-of_WellFormed config w) found restricted
          (subst (λ x. derive_v3_public_tool engine x upstream ≡ ok tool) same derived)
