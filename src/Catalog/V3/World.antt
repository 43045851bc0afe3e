-- ===== src/Catalog/V3/World.antt =====
-- What the refreshes of the version-3 catalog do to the world.
use agent_capability_gate.Prelude.{
  ◌≡◌, refl, String, Bool, true, false, Option, none, some, List, [], ◌∷◌, map, is_empty, Map, get,
  values, set_of, set_contains, Bool-cases, inl, inr,
}
use agent_capability_gate.Json.{Value}
use agent_capability_gate.Schema.Regex.{RegexEngine}
use agent_capability_gate.Config.{UpstreamMcpTarget, ValidatedConfig}
use agent_capability_gate.Catalog.Outside.{Outside}
use agent_capability_gate.Catalog.V3.{CatalogState}
use agent_capability_gate.Catalog.V3.Refresh.{
  Progress, collect_named, remove_each, discovered_in, discover_known, discover_target,
  take_discovered, rediscover, unless_connected, refresh_stale, refresh_each, begun, refresh_all,
  refresh_for_call, refresh_after_notification,
}

module _ {W : Type 0} (outside : Outside W) (I : W → Type 0) where
  -- The questions of a refresh keep what holds of the world.
  pub record Asks : Type 0 where
    pub connected : (id : String) (w : W) → I w → I (outside.is_connected id w).1
    pub lists : (target : UpstreamMcpTarget) (w : W) → I w → I (outside.list_tools target w).1
    pub stores : (id : String) (tools : Map Value) (w : W) → I w → I (outside.store id tools w)

module _ {W : Type 0} (engine : RegexEngine) (outside : Outside W) (config : ValidatedConfig)
    (I : W → Type 0) (asks : Asks outside I) where
  discovered_in-keeps :
      (t : String) (r : Option (List Value) × W)
      → I r.1
      → I (discovered_in engine outside config t r).1
  unfolding discovered_in
  discovered_in-keeps t (none, w) h = h
  discovered_in-keeps t (some tools, w) h =
      let once = remove_each (collect_named tools [] []).1 (collect_named tools [] []).0 in
      elim (Bool-cases (is_empty (collect_named tools [] []).1)) [
        | inl single ↦ rw single (asks.stores t _ w h)
        | inr twice ↦ rw twice h
      ]

  discover_target-keeps :
      (t : String) (w : W) → I w → I (discover_target engine outside config t w).1
  unfolding discover_target
  discover_target-keeps t w h = known (get t config.upstream_targets)
    where
      known : (o : Option UpstreamMcpTarget) → I (discover_known engine outside config t o w).1
      known none = h
      known (some target) =
          discovered_in-keeps t (outside.list_tools target w) (asks.lists target w h)

  take_discovered-keeps :
      (t : String) (r : Option (Map Value) × W) (p : Progress engine outside config)
      → I r.1
      → I (take_discovered engine outside config t r p).0.world
  take_discovered-keeps t (none, w) p h = h
  take_discovered-keeps t (some found, w) p h = h

  rediscover-keeps :
      (t : String) (p : Progress engine outside config)
      → I p.world
      → I (rediscover engine outside config t p).0.world
  unfolding rediscover
  rediscover-keeps t p h =
      take_discovered-keeps t (discover_target engine outside config t p.world) p
        (discover_target-keeps t p.world h)

  unless_connected-keeps :
      (t : String) (r : Bool × W) (p : Progress engine outside config)
      → I r.1
      → I (unless_connected engine outside config t r p).0.world
  unless_connected-keeps t (true, w) p h = h
  unless_connected-keeps t (false, w) p h = rediscover-keeps t (record p { world = w }) h

  refresh_stale-keeps :
      (t : String) (p : Progress engine outside config)
      → I p.world
      → I (refresh_stale engine outside config t p).0.world
  unfolding refresh_stale
  refresh_stale-keeps t p h = elim (Bool-cases (set_contains t p.fresh)) [
    | inl fresh ↦
        rw fresh
          (unless_connected-keeps t (outside.is_connected t p.world) p (asks.connected t p.world h))
    | inr stale ↦ rw stale (rediscover-keeps t p h)
  ]

  refresh_each-keeps :
      (ids : List String) (p : Progress engine outside config)
      → I p.world
      → I (refresh_each engine outside config ids p).world
  unfolding refresh_each
  refresh_each-keeps [] p h = h
  refresh_each-keeps (t ∷ ids) p h =
      refresh_each-keeps ids (refresh_stale engine outside config t p).0 (refresh_stale-keeps t p h)

  pub refresh_all-keeps :
      (s : CatalogState) (w : W) → I w → I (refresh_all engine outside config s w).2
  unfolding refresh_all
  refresh_all-keeps s w h =
      refresh_each-keeps (set_of (map (λ e. e.target_id) (values config.v3_exposures)))
        (begun engine outside config s w) h

  pub refresh_for_call-keeps :
      (t name : String) (s : CatalogState) (w : W)
      → I w
      → I (refresh_for_call engine outside config t name s w).2
  unfolding refresh_for_call
  refresh_for_call-keeps t name s w h = refresh_stale-keeps t (begun engine outside config s w) h

  pub refresh_after_notification-keeps :
      (t : String) (s : CatalogState) (w : W)
      → I w
      → I (refresh_after_notification engine outside config t s w).2
  unfolding refresh_after_notification
  refresh_after_notification-keeps t s w h = rediscover-keeps t (begun engine outside config s w) h

-- The state of a tool that a refresh for a call gives is the one that it lists.
pub refresh_for_call-listed :
    {W : Type 0} (engine : RegexEngine) (outside : Outside W) (config : ValidatedConfig)
    (t name : String) (s : CatalogState) (w : W)
    → get name (refresh_for_call engine outside config t name s w).0.snapshot.tools
      ≡ (refresh_for_call engine outside config t name s w).1.tool_state
unfolding refresh_for_call
refresh_for_call-listed engine outside config t name s w = refl
