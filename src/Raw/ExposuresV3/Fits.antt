-- ===== src/Raw/ExposuresV3/Fits.antt =====
-- What the loop over the exposures of version 3 establishes.
use agent_capability_gate.Prelude.{
  String, ◌≡◌, refl, Bool, true, false, ◌||◌, Option, none, some, List, [], All, All-insert, Map,
  contains_key, is_some, ok, >>=-eq-ok, fail_if, fail_if-eq-ok, ok-injective, for_each,
  for_each-preserves, or_default, or_false, DistinctKeys, DistinctKeys-insert, has_nul,
}
use agent_capability_gate.Json.{is_some_and}
use agent_capability_gate.Diagnostics.{◌/+◌}
use agent_capability_gate.Schema.Regex.{RegexEngine}
use agent_capability_gate.Config.{McpExposureV3, McpRestrictionV3, UpstreamMcpTarget}
use agent_capability_gate.Config.Checks.{validate_mcp_tool_name}
use agent_capability_gate.Config.Rules.{validate_v3_property_rules}
use agent_capability_gate.Config.Rules.Distinct.{validate_v3_property_rules-DistinctKeys}
use agent_capability_gate.Exposure.V3.Forwarded.{DistinctRules}
use agent_capability_gate.Raw.{RawRestriction, RawExposure}
use agent_capability_gate.Raw.Distinct.{DistinctRestriction, DistinctExposures}
use agent_capability_gate.Raw.Tools.{Tools}
use agent_capability_gate.Raw.ExposuresV3.{restriction_of, add_v3_exposure, collect_v3_exposures}

-- An exposure stands under its public name, which no tool has; its target is an mcp target, its rules name
-- each property once, and only a restricted exposure has a description of its own.
abbrev pub ExposureFitsV3 : Tools → Map UpstreamMcpTarget → String × McpExposureV3 → Type 0
ExposureFitsV3 tools upstream (name, e) =
    (e.public_name ≡ name)
    × (contains_key name tools ≡ false)
    × (contains_key e.target_id upstream ≡ true)
    × DistinctRules e.restriction
    × (is_some e.restriction ≡ false → is_some e.description ≡ false)

abbrev pub ExposuresFitV3 : Tools → Map UpstreamMcpTarget → Map McpExposureV3 → Type 0
ExposuresFitV3 tools upstream exposures =
    DistinctKeys exposures × All (ExposureFitsV3 tools upstream) exposures

restriction_of-fits :
    (engine : RegexEngine) (restrict : Option RawRestriction) (described : Bool) (path : String)
    (r : Option McpRestrictionV3)
    → DistinctRestriction restrict
    → restriction_of engine restrict described path ≡ ok r
    → DistinctRules r × (is_some r ≡ false → described ≡ false)
unfolding restriction_of
restriction_of-fits engine none described path r d h =
    let (_, e, h0) = >>=-eq-ok (fail_if described _) _ h in
    rw (← ok-injective h0) (tt, λ _. fail_if-eq-ok _ _ e)
restriction_of-fits engine (some raw) described path r (_, d) h =
    let (_, _, h0) = >>=-eq-ok (fail_if (is_some raw.inputs || is_some raw.fixed) _) _ h in
    let (rules, e, h1) =
      >>=-eq-ok
        (validate_v3_property_rules engine (or_default raw.properties [])
          (path /+ "restrict/properties"))
        _ h0 in
    let (distinct, _) =
      validate_v3_property_rules-DistinctKeys engine (or_default raw.properties []) _ rules d e in
    rw (← ok-injective h1) (distinct, λ e. cc)

module _ (engine : RegexEngine) (tools : Tools) (upstream : Map UpstreamMcpTarget) where
  add_v3_exposure-fits :
      (target_id : String) (e : String × RawExposure) (found out : Map McpExposureV3)
      → contains_key target_id upstream ≡ true
      → DistinctRestriction e.1.restrict
      → ExposuresFitV3 tools upstream found
      → add_v3_exposure engine tools target_id e found ≡ ok out
      → ExposuresFitV3 tools upstream out
  unfolding add_v3_exposure
  add_v3_exposure-fits target_id (tool, raw) found out known d (distinct, fits) h =
      let path = "/targets" /+ target_id /+ "expose" in
      let name = or_default raw.public_name tool in
      let (_, _, h0) = >>=-eq-ok (validate_mcp_tool_name tool path) _ h in
      let (_, _, h1) = >>=-eq-ok (validate_mcp_tool_name name (path /+ tool /+ "as")) _ h0 in
      let (_, e, h2) =
        >>=-eq-ok (fail_if (contains_key name tools || contains_key name found) _) _ h1 in
      let (_, _, h3) = >>=-eq-ok (fail_if (is_some_and raw.description has_nul) _) _ h2 in
      let (r, e1, h4) =
        >>=-eq-ok (restriction_of engine raw.restrict (is_some raw.description) (path /+ tool)) _
          h3 in
      let (no_tool, fresh) =
        or_false (contains_key name tools) (contains_key name found) (fail_if-eq-ok _ _ e) in
      let (rules, plain) =
        restriction_of-fits engine raw.restrict (is_some raw.description) (path /+ tool) r d e1 in
      rw (← ok-injective h4) (
        DistinctKeys-insert name _ found fresh distinct,
        All-insert (ExposureFitsV3 tools upstream) name _ found (refl, no_tool, known, rules, plain)
            fits,
      )

  pub collect_v3_exposures-ExposuresFitV3 :
      (raw : List (String × Map RawExposure)) (out : Map McpExposureV3)
      → All (λ e. (contains_key e.0 upstream ≡ true) × DistinctExposures e.1) raw
      → collect_v3_exposures engine tools raw ≡ ok out
      → ExposuresFitV3 tools upstream out
  unfolding collect_v3_exposures
  collect_v3_exposures-ExposuresFitV3 raw out known h =
      for_each-preserves (λ e found. for_each (add_v3_exposure engine tools e.0) e.1 found)
        (ExposuresFitV3 tools upstream) _ raw [] out
        (λ e t u here fits step.
          for_each-preserves (add_v3_exposure engine tools e.0) (ExposuresFitV3 tools upstream) _
            e.1 t u (λ x v w d good one. add_v3_exposure-fits e.0 x v w here.0 d good one) here.1
            fits step)
        known (tt, tt) h
