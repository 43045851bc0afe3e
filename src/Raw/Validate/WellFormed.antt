-- ===== src/Raw/Validate/WellFormed.antt =====
-- What `validate_raw` establishes of the configuration that it returns.
use agent_capability_gate.Prelude.{
  ℕ, String, ◌==◌, ◌≡◌, ◌≢◌, refl, false, not, ◌||◌, [], All, All-map, Map, ok, err, >>=-eq-ok,
  fail_if, fail_if-eq-ok, ok-injective, eqb, ltb, Bool-cases, inl, inr, subst, arith,
}
use agent_capability_gate.Json.Limits.{max_schema_depth}
use agent_capability_gate.Diagnostics.{max_config_bytes}
use agent_capability_gate.Schema.Regex.{RegexEngine}
use agent_capability_gate.Faults.{
  panicked, lift, lift-eq-ok, NoPanic-bind, NoPanic-lift, ne_panicked_of_NoPanic,
}
use agent_capability_gate.Config.{ValidatedConfig, McpExposure, McpExposureV3}
use agent_capability_gate.Config.Checks.{between}
use agent_capability_gate.Config.Checks.Ranges.{Within}
use agent_capability_gate.Exposure.V3.Forwarded.{DistinctRules}
use agent_capability_gate.Binding.Cli.{ToolFits, ToolsFit}
use agent_capability_gate.Raw.{RawConfig, RawServer, RawTool}
use agent_capability_gate.Raw.Distinct.{FromMaps}
use agent_capability_gate.Raw.Targets.{Targets, collect_targets}
use agent_capability_gate.Raw.Targets.Fits.{
  CliFits, McpFits, TargetsFit, collect_targets-TargetsFit,
}
use agent_capability_gate.Raw.Targets.Safe.{collect_targets-NoPanic}
use agent_capability_gate.Raw.Tools.{Tools, collect_tools}
use agent_capability_gate.Raw.Tools.Fits.{ToolSound, collect_tools-ToolSound}
use agent_capability_gate.Raw.ExposuresV2.{collect_v2_exposures}
use agent_capability_gate.Raw.ExposuresV2.Fits.{ExposuresFitV2, collect_v2_exposures-ExposuresFitV2}
use agent_capability_gate.Raw.ExposuresV3.{collect_v3_exposures}
use agent_capability_gate.Raw.ExposuresV3.Fits.{ExposuresFitV3, collect_v3_exposures-ExposuresFitV3}
use agent_capability_gate.Raw.Validate.{
  raw_tools_of, check_server, check_header, exposures_of, validate_raw,
}

-- The exposures of one version only, and none for version 1.
abbrev pub OfVersion : ℕ → Map McpExposure → Map McpExposureV3 → Type 0
OfVersion version v2 v3 = (eqb version 2 ≡ false → v2 ≡ []) × (eqb version 3 ≡ false → v3 ≡ [])

-- A configuration whose limits are in range and whose parts fit each other.
pub record WellFormed (c : ValidatedConfig) : Type 0 where
  pub version_range : Within 1 3 c.version
  pub request_range : Within 1 1048576 c.request_bytes
  pub depth_range : Within 1 32 c.json_depth
  pub cli_fit : All CliFits c.targets
  pub mcp_fit : All McpFits c.upstream_targets
  pub tools_sound :
      All
        (ToolSound c.version
          (record { cli = c.targets; mcp = c.upstream_targets; raw_exposures = [] }))
        c.tools
  pub v2_fit : ExposuresFitV2 c.tools c.upstream_targets c.v2_exposures
  pub v3_fit : ExposuresFitV3 c.tools c.upstream_targets c.v3_exposures
  pub of_version : OfVersion c.version c.v2_exposures c.v3_exposures

check_server-ranges :
    (server : RawServer) (tools : Map RawTool) (u : Unit {0})
    → check_server server tools ≡ ok u
    → Within 1 1048576 server.limits.request_bytes × Within 1 32 server.limits.json_depth
unfolding check_server
check_server-ranges server tools u h =
    let l = server.limits in
    let (_, _, h0) = >>=-eq-ok (fail_if (not (server.transport.kind == "stdio")) _) _ h in
    let (_, e1, h1) =
      >>=-eq-ok (fail_if (eqb l.request_bytes 0 || ltb max_config_bytes l.request_bytes) _) _ h0 in
    let (_, e2, _) =
      >>=-eq-ok (fail_if (eqb l.json_depth 0 || ltb max_schema_depth l.json_depth) _) _ h1 in
    (
      in_range l.request_bytes 1048576 (fail_if-eq-ok _ _ e1),
      in_range l.json_depth 32 (fail_if-eq-ok _ _ e2),
    )
  where
    in_range : (n high : ℕ) → (eqb n 0 || ltb high n) ≡ false → Within 1 high n
    in_range n high h = ground arith

check_header-ranges :
    (raw : RawConfig) (tools : Map RawTool)
    → check_header raw ≡ ok tools
    → Within 1 3 raw.version
      × Within 1 1048576 raw.server.limits.request_bytes
      × Within 1 32 raw.server.limits.json_depth
unfolding check_header
check_header-ranges raw tools h =
    let (_, e, h0) = >>=-eq-ok (fail_if (not (between 1 3 raw.version)) _) _ h in
    let (found, _, h1) = >>=-eq-ok (raw_tools_of raw.version raw.tools) _ h0 in
    let (u, e2, _) = >>=-eq-ok (check_server raw.server found) _ h1 in
    let (a, b) = check_server-ranges raw.server found u e2 in
    (known raw.version (fail_if-eq-ok _ _ e), a, b)
  where
    known : (n : ℕ) → not (between 1 3 n) ≡ false → Within 1 3 n
    known n h = ground arith

module _ (engine : RegexEngine) where
  exposures_of-fits :
      (version : ℕ) (tools : Tools) (targets : Targets) (out : Map McpExposure × Map McpExposureV3)
      → TargetsFit targets
      → exposures_of engine version tools targets.raw_exposures ≡ ok out
      → ExposuresFitV2 tools targets.mcp out.0
        × ExposuresFitV3 tools targets.mcp out.1
        × OfVersion version out.0 out.1
  unfolding exposures_of
  exposures_of-fits version tools targets out (_, _, known) h = elim (Bool-cases (eqb version 2)) [
    | inl two ↦
        (let (v2, e, h0) =
            >>=-eq-ok (collect_v2_exposures tools targets.raw_exposures) _ (rw two at h) in
          rw (← ok-injective h0) (
            collect_v2_exposures-ExposuresFitV2 tools targets.mcp targets.raw_exposures v2 known e,
            (tt, tt),
            ((λ other. absurd (cc (two, other))), λ _. refl),
          ))
    | inr other ↦ elim (Bool-cases (eqb version 3)) [
      | inl three ↦
          (let (v3, e, h0) =
              >>=-eq-ok (collect_v3_exposures engine tools targets.raw_exposures) _
                (rw (other, three) at h) in
            rw (← ok-injective h0) (
              (tt, tt),
              collect_v3_exposures-ExposuresFitV3 engine tools targets.mcp targets.raw_exposures v3
                  known e,
              ((λ _. refl), λ no. absurd (cc (three, no))),
            ))
      | inr neither ↦
          rw (← ok-injective (rw (other, neither) at h))
            ((tt, tt), (tt, tt), ((λ _. refl), λ _. refl))
    ]
  ]

  -- For a raw configuration whose maps have no key twice, if `validate_raw` accepts it, then in the result
  -- the version is 1 to 3 and the limits of requests and of JSON depth are in range; every target stands
  -- under its id with absolute paths and limits in range; every tool has a closed schema, bindings that fit
  -- it, a known target and an output kind of its sort, and from version 2 on runs a command on a cli
  -- target; and every exposure stands under its public name, which no tool and no other exposure has, is of
  -- the configuration's version, and names a configured mcp target, with one rule for each property.
  pub validate_raw-WellFormed :
      (raw : RawConfig) (environment : Map String) (c : ValidatedConfig)
      → FromMaps raw
      → validate_raw engine raw environment ≡ ok c
      → WellFormed c
  unfolding validate_raw
  validate_raw-WellFormed raw environment c maps h =
      let (raw_tools, e, h0) = >>=-eq-ok (lift (check_header raw)) _ h in
      let (targets, e1, h1) =
        >>=-eq-ok (collect_targets environment raw.version raw.targets) _ h0 in
      let (tools, e2, h2) =
        >>=-eq-ok (lift (collect_tools engine environment raw.version targets raw_tools)) _ h1 in
      let (exposures, e3, h3) =
        >>=-eq-ok (lift (exposures_of engine raw.version tools targets.raw_exposures)) _ h2 in
      let (version, request, depth) =
        check_header-ranges raw raw_tools (lift-eq-ok _ raw_tools e) in
      let fits = collect_targets-TargetsFit environment raw.version raw.targets targets maps e1 in
      let (v2, v3, single) =
        exposures_of-fits raw.version tools targets exposures fits (lift-eq-ok _ exposures e3) in
      subst WellFormed (ok-injective h3) (record {
        version_range = version;
        request_range = request;
        depth_range = depth;
        cli_fit = fits.0;
        mcp_fit = fits.1;
        tools_sound =
            collect_tools-ToolSound engine environment raw.version targets raw_tools tools
              (lift-eq-ok _ tools e2);
        v2_fit = v2;
        v3_fit = v3;
        of_version = single;
      })

  -- `validate_raw` ends in a configuration or in a diagnostic, whatever the raw configuration and the
  -- environment: none of the `unwrap`s of a target's limits panics.
  pub validate_raw-ne-panicked :
      (raw : RawConfig) (environment : Map String)
      → validate_raw engine raw environment ≢ err panicked
  unfolding validate_raw
  validate_raw-ne-panicked raw environment =
      ne_panicked_of_NoPanic (validate_raw engine raw environment) (
        NoPanic-bind (lift (check_header raw)) _ (NoPanic-lift _) λ raw_tools _.
          NoPanic-bind (collect_targets environment raw.version raw.targets) _
            (collect_targets-NoPanic environment raw.version raw.targets)
            λ targets _.
              NoPanic-bind (lift (collect_tools engine environment raw.version targets raw_tools)) _
                (NoPanic-lift _)
                λ tools _.
                  NoPanic-bind (lift (exposures_of engine raw.version tools targets.raw_exposures))
                    _ (NoPanic-lift _) λ e _. tt)

-- The conditions of the theorems on resolved calls hold of a well-formed configuration.
pub ToolsFit-of_WellFormed : (c : ValidatedConfig) → WellFormed c → ToolsFit c
ToolsFit-of_WellFormed c w =
    All-map _ (λ e. ToolFits e.1) c.tools (λ e sound. sound.1) w.tools_sound

pub DistinctRules-of_WellFormed :
    (c : ValidatedConfig) → WellFormed c → All (λ e. DistinctRules e.1.restriction) c.v3_exposures
DistinctRules-of_WellFormed c w =
    All-map _ (λ e. DistinctRules e.1.restriction) c.v3_exposures (λ e fits. fits.3) w.v3_fit.1
