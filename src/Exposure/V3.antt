-- ===== src/Exposure/V3.antt =====
-- `resolve_v3_mcp` of crates/core/src/lib.rs.

pub mod Forwarded
pub mod Total
use agent_capability_gate.Prelude.{
  String, true, Bool, not, Option, none, some, List, [], ◌∷◌, Map, get, contains_key, insert,
  retain, Result, ok, err, ◌>>=◌, ◌>>◌, fail_if, ok_or,
}
use agent_capability_gate.Json.{Value, as_object, get_field, of_map, ◌>>?◌}
use agent_capability_gate.Diagnostics.{invalid}
use agent_capability_gate.Schema.Regex.{RegexEngine}
use agent_capability_gate.Schema.Compile.{compile_schema_permissive}
use agent_capability_gate.Schema.Validate.{validate_input}
use agent_capability_gate.Faults.{Fault, lift, first_issue}
use agent_capability_gate.Config.{
  McpPropertyRuleV3, expose, fixed, omit, McpRestrictionV3, ValidatedConfig, ResolvedMcpInvocation,
}
use agent_capability_gate.Exposure.{has_name, upstream_call}

-- The loop that inserts the fixed values.
unfoldable pub insert_fixed : Map McpPropertyRuleV3 → Map Value → Map Value
insert_fixed [] forwarded = forwarded
insert_fixed ((name, fixed value) ∷ rules) forwarded =
    insert_fixed rules (insert name value forwarded)
insert_fixed ((name, expose constraints required) ∷ rules) forwarded = insert_fixed rules forwarded
insert_fixed ((name, omit) ∷ rules) forwarded = insert_fixed rules forwarded

module _ (engine : RegexEngine) where
  -- The arguments that a call forwards: all of them where the exposure has no restriction.
  unfoldable pub forward_v3 : Option McpRestrictionV3 → Value → Map Value → Result Fault (Map Value)
  forward_v3 none public_tool arguments = ok arguments
  forward_v3 (some restriction) public_tool arguments = do
    schema_json ←
        lift (ok_or (get_field "inputSchema" public_tool) (invalid "/tool/inputSchema" "required"))
    compiled ← lift (compile_schema_permissive engine schema_json "/tool/inputSchema" true 1)
    first_issue (validate_input engine compiled (of_map arguments))
    public_properties ← lift (
        ok_or (get_field "properties" schema_json >>? as_object)
          (invalid "/tool/inputSchema/properties" "required"))
    ok (
        insert_fixed restriction.properties
          (retain (λ key. contains_key key public_properties) arguments))

  unfoldable pub resolve_v3_mcp :
      ValidatedConfig → String → Value → Value → Result Fault ResolvedMcpInvocation
  unfolding forward_v3
  resolve_v3_mcp config public_name public_tool arguments = do
    exposure ← lift (ok_or (get public_name config.v3_exposures) (invalid "/tool" "unknown tool"))
    target ← lift (
        ok_or (get exposure.target_id config.upstream_targets)
          (invalid "/tool" "unknown MCP target"))
    lift (
        fail_if (not (has_name public_name public_tool))
          (invalid "/tool/name" "public tool name does not match exposure"))
    given ← lift (ok_or (as_object arguments) (invalid "/arguments" "MCP arguments must be object"))
    forwarded ← forward_v3 exposure.restriction public_tool given
    ok (upstream_call target exposure.upstream_tool forwarded)
