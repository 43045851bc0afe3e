-- ===== src/Exposure/Sealed.antt =====
-- A call of a derived public tool, from `derive_v3_public_tool` to `resolve_v3_mcp` in
-- crates/core/src/lib.rs: what a client cannot see, it cannot set.
use agent_capability_gate.Prelude.{
  String, ◌≡◌, sym, ap, ◌∙◌, subst, Bool, false, ◌&&◌, Option, none, some, All, Map, get,
  contains_key, ok, or_else, eq_of_some-eq, if◌then◌else◌, arith,
}
use agent_capability_gate.Json.{Value, as_object, get_field, ◌>>?◌}
use agent_capability_gate.Json.Canonical.{get_field-of_map}
use agent_capability_gate.Schema.Regex.{RegexEngine}
use agent_capability_gate.Config.{
  McpRestrictionV3, McpExposureV3, ValidatedConfig, ResolvedMcpInvocation,
}
use agent_capability_gate.Exposure.V3.{resolve_v3_mcp}
use agent_capability_gate.Exposure.V3.Forwarded.{
  Forwards, DistinctRules, fixed_value, resolve_v3_mcp-Forwards,
}
use agent_capability_gate.Exposure.Project.{derive_v3_public_tool}
use agent_capability_gate.Exposure.Project.Hidden.{is_exposed}
use agent_capability_gate.Exposure.Project.Exposed.{
  ShowsExposed, derive_v3_public_tool-ShowsExposed,
}

module _ (engine : RegexEngine) (r : McpRestrictionV3) (public_tool : Value) where
  -- The two descriptions of the public schema speak of the same properties.
  same_properties :
      (s t : Value) (ps qs : Map Value)
      → get_field "inputSchema" public_tool ≡ some s
      → get_field "inputSchema" public_tool ≡ some t
      → (get_field "properties" s >>? as_object) ≡ some ps
      → (get_field "properties" t >>? as_object) ≡ some qs
      → qs ≡ ps
  same_properties s t ps qs a b c d =
      let same : t ≡ s = eq_of_some-eq (sym b ∙ a) in
      eq_of_some-eq (sym d ∙ ap (λ v. get_field "properties" v >>? as_object) same ∙ c)

  sealed_key :
      (tool given forwarded : Map Value) (k : String)
      → Forwards engine (some r) public_tool given forwarded
      → ShowsExposed engine r tool public_tool
      → is_exposed r k ≡ false
      → get k forwarded ≡ fixed_value k r.properties
  sealed_key tool given forwarded k (s, c, ps, a, _, d, _, at) (t, declared, qs, b, _, e, shown)
        hidden =
      let same = same_properties s t ps qs a b d e in
      only_fixed (contains_key k ps) (fixed_value k r.properties) (get k given)
        (ap (contains_key k) (sym same)
          ∙ shown k
          ∙ no_end (contains_key k declared) (is_exposed r k) hidden)
        (at k)
    where
      no_end : (c d : Bool) → d ≡ false → (c && d) ≡ false
      no_end c d h = ground arith

      only_fixed :
          (present : Bool) (fix given : Option Value) {o : Option Value}
          → present ≡ false
          → o ≡ or_else fix (if present then given else none)
          → o ≡ fix
      only_fixed present none given h e = ground (arith, e)
      only_fixed present (some v) given h e = e

-- Let a version-3 exposure with a restriction be in the configuration under a name, its rules naming each
-- property once, and let its public tool be derived by `derive_v3_public_tool` from any upstream tool. If
-- `resolve_v3_mcp` resolves a call of that name with that tool, then in the arguments sent upstream every
-- property that the restriction does not expose has the value that the restriction fixes, or is absent if
-- it fixes none, whatever arguments the client gave.
pub resolve_v3_mcp-sealed :
    (engine : RegexEngine) (config : ValidatedConfig) (name : String) (exposure : McpExposureV3)
    (r : McpRestrictionV3) (upstream_tool public_tool arguments : Value)
    (invocation : ResolvedMcpInvocation) (k : String)
    → All (λ e. DistinctRules e.1.restriction) config.v3_exposures
    → get name config.v3_exposures ≡ some exposure
    → exposure.restriction ≡ some r
    → derive_v3_public_tool engine exposure upstream_tool ≡ ok public_tool
    → resolve_v3_mcp engine config name public_tool arguments ≡ ok invocation
    → is_exposed r k ≡ false
    → get_field k invocation.arguments ≡ fixed_value k r.properties
resolve_v3_mcp-sealed engine config name exposure r upstream_tool public_tool arguments invocation k
      distinct found restricted derived resolved hidden =
    let (exposure', target, given, forwarded, found', _, _, _, call, forwards) =
      resolve_v3_mcp-Forwards engine config name public_tool arguments invocation distinct
        resolved in
    let (tool, _, shows) =
      derive_v3_public_tool-ShowsExposed engine exposure r upstream_tool public_tool restricted
        derived in
    let same : exposure' ≡ exposure = eq_of_some-eq (sym found' ∙ found) in
    let forwards_r =
      subst (λ o. Forwards engine o public_tool given forwarded)
        (ap (λ x. x.restriction) same ∙ restricted) forwards in
    ap (λ i. get_field k i.arguments) call
    ∙ get_field-of_map k forwarded
    ∙ sealed_key engine r public_tool tool given forwarded k forwards_r shows hidden
