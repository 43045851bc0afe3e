-- ===== src/Tests/Exposed.antt =====
-- Calls of exposed upstream tools at concrete inputs.
use agent_capability_gate.Prelude.{
  ◌≡◌, ◌≢◌, refl, true, some, Map, ok, err, get, contains_key, keys, insert, retain, set_of,
  set_contains,
}
use agent_capability_gate.Json.{Value, value_eq, string, as_object, get_field}
use agent_capability_gate.Json.Limits.{canonicalize, value_exceeds_depth, contains_nul}
use agent_capability_gate.Json.Canonical.Exact.{CanonicalOf, canonicalize-CanonicalOf}
use agent_capability_gate.Schema.Keywords.{
  validate_schema_keyword_applicability, required_names, usize_value, numeric_bound,
}
use agent_capability_gate.Schema.Compile.{
  compile_schema_permissive, schema_kind, rejects_required, compile_properties,
}
use agent_capability_gate.Schema.Validate.{
  validate_input, validate_value, has_kind, check_shape, check_additional, check_required, in_enum,
  check_number, check_string,
}
use agent_capability_gate.Exposure.Intersect.{intersect_property_schema}
use agent_capability_gate.Faults.{panicked}
use agent_capability_gate.Config.{UpstreamMcpTarget, McpExposure, McpExposureV3}
use agent_capability_gate.Exposure.{has_name, upstream_call}
use agent_capability_gate.Exposure.V2.{resolve_v2_mcp, mismatched, insert_fixed_v2}
use agent_capability_gate.Exposure.V2.Forwarded.{ForwardsV2, resolve_v2_mcp-ForwardsV2}
use agent_capability_gate.Exposure.V3.{resolve_v3_mcp, insert_fixed}
use agent_capability_gate.Exposure.V3.Forwarded.{Forwards, resolve_v3_mcp-Forwards}
use agent_capability_gate.Exposure.Project.{derive_v3_public_tool, rule_for}
use agent_capability_gate.Exposure.Project.Exposed.{
  ShowsExposed, derive_v3_public_tool-ShowsExposed,
}
use agent_capability_gate.Exposure.Restrict.{derive_restricted_public_tool}
use agent_capability_gate.Exposure.Restrict.Total.{derive_restricted_public_tool-ne-panicked}
use agent_capability_gate.Exposure.Sealed.{resolve_v3_mcp-sealed}
use agent_capability_gate.Tests.Samples.{plain_engine}
use agent_capability_gate.Tests.Remote.{
  upstream_json, public_json, rules, commits, old_commits, remote_config, call_json, forwarded_call,
}

canonicalize-CanonicalOf_example : CanonicalOf call_json (canonicalize call_json)
canonicalize-CanonicalOf_example = canonicalize-CanonicalOf call_json

pub derives : derive_v3_public_tool plain_engine commits upstream_json ≡ ok public_json
unfolding derive_v3_public_tool value_exceeds_depth contains_nul intersect_property_schema rule_for
    get keys contains_key insert set_of set_contains value_eq canonicalize compile_schema_permissive
    schema_kind validate_schema_keyword_applicability required_names rejects_required
    compile_properties usize_value numeric_bound validate_input validate_value has_kind check_shape
    check_additional check_required in_enum check_number check_string
derives = refl

resolves_v3 :
    resolve_v3_mcp plain_engine remote_config "commits" public_json call_json ≡ ok forwarded_call
unfolding resolve_v3_mcp insert_fixed retain get keys contains_key insert set_of set_contains
    value_eq canonicalize compile_schema_permissive schema_kind
    validate_schema_keyword_applicability required_names rejects_required compile_properties
    usize_value numeric_bound validate_input validate_value has_kind check_shape check_additional
    check_required in_enum check_number check_string
resolves_v3 = refl

resolves_v2 :
    resolve_v2_mcp plain_engine remote_config "commits" public_json call_json ≡ ok forwarded_call
unfolding resolve_v2_mcp mismatched insert_fixed_v2 intersect_property_schema get keys contains_key
    insert set_of set_contains value_eq canonicalize compile_schema_permissive schema_kind
    validate_schema_keyword_applicability required_names rejects_required compile_properties
    usize_value numeric_bound validate_input validate_value has_kind check_shape check_additional
    check_required in_enum check_number check_string
resolves_v2 = refl

found : get "commits" remote_config.v3_exposures ≡ some commits
unfolding get
found = refl

resolve_v3_mcp-sealed_example : get_field "repo" forwarded_call.arguments ≡ some (string "gate")
unfolding get contains_key rule_for
resolve_v3_mcp-sealed_example =
    resolve_v3_mcp-sealed plain_engine remote_config "commits" commits rules upstream_json
      public_json call_json forwarded_call "repo" ((refl, tt), tt) found refl derives resolves_v3
      refl

derive_v3_public_tool-ShowsExposed_example :
    (tool : Map Value) × (as_object upstream_json ≡ some tool)
    × ShowsExposed plain_engine rules tool public_json
derive_v3_public_tool-ShowsExposed_example =
    derive_v3_public_tool-ShowsExposed plain_engine commits rules upstream_json public_json refl
      derives

resolve_v3_mcp-Forwards_example :
    (exposure : McpExposureV3) × (target : UpstreamMcpTarget) × (given : Map Value)
    × (forwarded : Map Value) × (get "commits" remote_config.v3_exposures ≡ some exposure)
    × (get exposure.target_id remote_config.upstream_targets ≡ some target)
    × (has_name "commits" public_json ≡ true)
    × (as_object call_json ≡ some given)
    × (forwarded_call ≡ upstream_call target exposure.upstream_tool forwarded)
    × Forwards plain_engine exposure.restriction public_json given forwarded
unfolding contains_key
resolve_v3_mcp-Forwards_example =
    resolve_v3_mcp-Forwards plain_engine remote_config "commits" public_json call_json
      forwarded_call ((refl, tt), tt) resolves_v3

resolve_v2_mcp-ForwardsV2_example :
    (exposure : McpExposure) × (target : UpstreamMcpTarget) × (given : Map Value) × (forwarded : Map
      Value)
    × (get "commits" remote_config.v2_exposures ≡ some exposure)
    × (get exposure.target_id remote_config.upstream_targets ≡ some target)
    × (has_name "commits" public_json ≡ true)
    × (as_object call_json ≡ some given)
    × (forwarded_call ≡ upstream_call target exposure.upstream_tool forwarded)
    × ForwardsV2 plain_engine exposure.mode public_json given forwarded
unfolding contains_key
resolve_v2_mcp-ForwardsV2_example =
    resolve_v2_mcp-ForwardsV2 plain_engine remote_config "commits" public_json call_json
      forwarded_call ((refl, tt), tt) resolves_v2

derive_restricted_public_tool-ne-panicked_example :
    derive_restricted_public_tool plain_engine old_commits upstream_json ≢ err panicked
derive_restricted_public_tool-ne-panicked_example =
    derive_restricted_public_tool-ne-panicked plain_engine old_commits upstream_json
