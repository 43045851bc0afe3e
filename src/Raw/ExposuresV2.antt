-- ===== src/Raw/ExposuresV2.antt =====
-- The loop over the exposures of version 2 in `validate_raw` of crates/core/src/lib.rs.
pub mod Fits
use agent_capability_gate.Prelude.{
  String, ◌||◌, Option, none, some, List, [], ◌++◌, any, Map, insert, contains_key, keys, is_some,
  ok, ◌>>=◌, ◌>>◌, fail_if, for_each, or_default,
}
use agent_capability_gate.Json.{Value}
use agent_capability_gate.Diagnostics.{Checked, invalid, ◌/+◌}
use agent_capability_gate.Config.{McpExposure, McpExposureMode, proxy, restriction}
use agent_capability_gate.Config.Checks.{validate_id, validate_mcp_tool_name}
use agent_capability_gate.Config.Rules.{validate_restriction_constraint, beyond_limits}
use agent_capability_gate.Raw.{RawRestriction, RawExposure}
use agent_capability_gate.Raw.Tools.{Tools}

unfoldable pub check_restrict_key : String → String → Unit {0} → Checked (Unit {0})
check_restrict_key path key u = validate_id key path

unfoldable pub check_restrict_input : String → String × Value → Unit {0} → Checked (Unit {0})
check_restrict_input path (key, constraint) u = do
  validate_restriction_constraint constraint (path /+ "inputs" /+ key)
  fail_if (beyond_limits constraint)
      (invalid (path /+ "inputs" /+ key) "constraint exceeds value limits")

unfoldable pub check_restrict_fixed : String → String × Value → Unit {0} → Checked (Unit {0})
check_restrict_fixed path (key, value) u =
    fail_if (beyond_limits value)
      (invalid (path /+ "fixed" /+ key) "fixed value exceeds value limits")

unfoldable pub mode_of : Option RawRestriction → String → Checked McpExposureMode
unfolding check_restrict_key check_restrict_input check_restrict_fixed for_each keys contains_key
mode_of none path = ok proxy
mode_of (some restrict) path = do
  fail_if (is_some restrict.properties || is_some restrict.expose_unlisted_properties)
      (invalid path "properties and expose_unlisted_properties require version 3")
  let inputs = or_default restrict.inputs []
  let fixed = or_default restrict.fixed []
  for_each (check_restrict_key path) (keys inputs ++ keys fixed) tt
  fail_if (any (λ key. contains_key key fixed) (keys inputs))
      (invalid path "a property cannot be both input and fixed")
  for_each (check_restrict_input path) inputs tt
  for_each (check_restrict_fixed path) fixed tt
  ok (restriction (record { inputs = inputs; fixed = fixed }))

module _ (tools : Tools) (target_id : String) where
  unfoldable pub add_v2_exposure :
      String × RawExposure → Map McpExposure → Checked (Map McpExposure)
  unfolding mode_of validate_mcp_tool_name
  add_v2_exposure (upstream_tool, raw) exposures = do
    let path = "/targets" /+ target_id /+ "expose"
    upstream ← validate_mcp_tool_name upstream_tool path
    let public_name = or_default raw.public_name upstream_tool
    public ← validate_mcp_tool_name public_name (path /+ upstream_tool /+ "as")
    fail_if (contains_key public_name tools || contains_key public_name exposures)
        (invalid (path /+ upstream_tool) "public tool name collides with another tool")
    mode ← mode_of raw.restrict (path /+ upstream_tool /+ "restrict")
    ok (
        insert public_name
          (record {
            public_name = public_name;
            target_id = target_id;
            upstream_tool = upstream_tool;
            mode = mode;
          })
          exposures)

module _ (tools : Tools) where
  unfoldable pub collect_v2_exposures : List (String × Map RawExposure) → Checked (Map McpExposure)
  unfolding add_v2_exposure for_each
  collect_v2_exposures raw =
      for_each (λ e found. for_each (add_v2_exposure tools e.0) e.1 found) raw []
