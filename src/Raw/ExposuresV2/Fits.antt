-- ===== src/Raw/ExposuresV2/Fits.antt =====
-- What the loop over the exposures of version 2 establishes.
use agent_capability_gate.Prelude.{
  String, ◌≡◌, refl, true, false, ◌||◌, Option, none, some, List, [], ◌++◌, any, All, All-insert,
  Map, contains_key, keys, is_some, ok, >>=-eq-ok, fail_if, fail_if-eq-ok, ok-injective, for_each,
  for_each-preserves, or_default, or_false, DistinctKeys, DistinctKeys-insert,
}
use agent_capability_gate.Diagnostics.{◌/+◌}
use agent_capability_gate.Config.{
  McpExposure, McpExposureMode, proxy, restriction, UpstreamMcpTarget,
}
use agent_capability_gate.Config.Checks.{validate_mcp_tool_name}
use agent_capability_gate.Exposure.V2.Forwarded.{DistinctFixed}
use agent_capability_gate.Raw.{RawRestriction, RawExposure}
use agent_capability_gate.Raw.Distinct.{DistinctRestriction, DistinctExposures}
use agent_capability_gate.Raw.Tools.{Tools}
use agent_capability_gate.Raw.ExposuresV2.{
  check_restrict_key, check_restrict_input, check_restrict_fixed, mode_of, add_v2_exposure,
  collect_v2_exposures,
}

-- No property of a restriction is both an input and fixed, and none is fixed twice.
abbrev pub ModeFits : McpExposureMode → Type 0
ModeFits proxy = Unit
ModeFits (restriction r) =
    DistinctKeys r.fixed × (any (λ key. contains_key key r.fixed) (keys r.inputs) ≡ false)

-- An exposure stands under its public name, which no tool has, and its target is an mcp target.
abbrev pub ExposureFitsV2 : Tools → Map UpstreamMcpTarget → String × McpExposure → Type 0
ExposureFitsV2 tools upstream (name, e) =
    (e.public_name ≡ name)
    × (contains_key name tools ≡ false)
    × (contains_key e.target_id upstream ≡ true)
    × ModeFits e.mode

abbrev pub ExposuresFitV2 : Tools → Map UpstreamMcpTarget → Map McpExposure → Type 0
ExposuresFitV2 tools upstream exposures =
    DistinctKeys exposures × All (ExposureFitsV2 tools upstream) exposures

mode_of-ModeFits :
    (restrict : Option RawRestriction) (path : String) (mode : McpExposureMode)
    → DistinctRestriction restrict
    → mode_of restrict path ≡ ok mode
    → ModeFits mode
unfolding mode_of
mode_of-ModeFits none path mode d h = rw (← ok-injective h) tt
mode_of-ModeFits (some r) path mode (d, _) h =
    let inputs = or_default r.inputs [] in
    let fixed = or_default r.fixed [] in
    let (_, _, h0) =
      >>=-eq-ok (fail_if (is_some r.properties || is_some r.expose_unlisted_properties) _) _ h in
    let (_, _, h1) =
      >>=-eq-ok (for_each (check_restrict_key path) (keys inputs ++ keys fixed) tt) _ h0 in
    let (_, e, h2) =
      >>=-eq-ok (fail_if (any (λ key. contains_key key fixed) (keys inputs)) _) _ h1 in
    let (_, _, h3) = >>=-eq-ok (for_each (check_restrict_input path) inputs tt) _ h2 in
    let (_, _, h4) = >>=-eq-ok (for_each (check_restrict_fixed path) fixed tt) _ h3 in
    rw (← ok-injective h4) (d, fail_if-eq-ok _ _ e)

module _ (tools : Tools) (upstream : Map UpstreamMcpTarget) where
  add_v2_exposure-fits :
      (target_id : String) (e : String × RawExposure) (found out : Map McpExposure)
      → contains_key target_id upstream ≡ true
      → DistinctRestriction e.1.restrict
      → ExposuresFitV2 tools upstream found
      → add_v2_exposure tools target_id e found ≡ ok out
      → ExposuresFitV2 tools upstream out
  unfolding add_v2_exposure
  add_v2_exposure-fits target_id (tool, raw) found out known d (distinct, fits) h =
      let path = "/targets" /+ target_id /+ "expose" in
      let name = or_default raw.public_name tool in
      let (_, _, h0) = >>=-eq-ok (validate_mcp_tool_name tool path) _ h in
      let (_, _, h1) = >>=-eq-ok (validate_mcp_tool_name name (path /+ tool /+ "as")) _ h0 in
      let (_, e, h2) =
        >>=-eq-ok (fail_if (contains_key name tools || contains_key name found) _) _ h1 in
      let (mode, e1, h3) = >>=-eq-ok (mode_of raw.restrict (path /+ tool /+ "restrict")) _ h2 in
      let (no_tool, fresh) =
        or_false (contains_key name tools) (contains_key name found) (fail_if-eq-ok _ _ e) in
      rw (← ok-injective h3) (
        DistinctKeys-insert name _ found fresh distinct,
        All-insert (ExposureFitsV2 tools upstream) name _ found
            (refl, no_tool, known, mode_of-ModeFits raw.restrict _ mode d e1) fits,
      )

  pub collect_v2_exposures-ExposuresFitV2 :
      (raw : List (String × Map RawExposure)) (out : Map McpExposure)
      → All (λ e. (contains_key e.0 upstream ≡ true) × DistinctExposures e.1) raw
      → collect_v2_exposures tools raw ≡ ok out
      → ExposuresFitV2 tools upstream out
  unfolding collect_v2_exposures
  collect_v2_exposures-ExposuresFitV2 raw out known h =
      for_each-preserves (λ e found. for_each (add_v2_exposure tools e.0) e.1 found)
        (ExposuresFitV2 tools upstream) _ raw [] out
        (λ e t u here fits step.
          for_each-preserves (add_v2_exposure tools e.0) (ExposuresFitV2 tools upstream) _ e.1 t u
            (λ x v w d good one. add_v2_exposure-fits e.0 x v w here.0 d good one) here.1 fits step)
        known (tt, tt) h

-- The fixed values of a restriction name each property once.
pub DistinctFixed-of_ModeFits : (mode : McpExposureMode) → ModeFits mode → DistinctFixed mode
DistinctFixed-of_ModeFits proxy h = tt
DistinctFixed-of_ModeFits (restriction r) (d, _) = d
