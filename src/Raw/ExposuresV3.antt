-- ===== src/Raw/ExposuresV3.antt =====
-- The loop over the exposures of version 3 in `validate_raw` of crates/core/src/lib.rs.
pub mod Fits
use agent_capability_gate.Prelude.{
  String, Bool, false, ◌||◌, Option, none, some, List, [], Map, insert, contains_key, is_some, ok,
  ◌>>=◌, ◌>>◌, fail_if, has_nul, for_each, or_default,
}
use agent_capability_gate.Json.{is_some_and}
use agent_capability_gate.Diagnostics.{Checked, invalid, ◌/+◌}
use agent_capability_gate.Schema.Regex.{RegexEngine}
use agent_capability_gate.Config.{McpExposureV3, McpRestrictionV3}
use agent_capability_gate.Config.Checks.{validate_mcp_tool_name}
use agent_capability_gate.Config.Rules.{validate_v3_property_rules}
use agent_capability_gate.Raw.{RawRestriction, RawExposure}
use agent_capability_gate.Raw.Tools.{Tools}

module _ (engine : RegexEngine) where
  unfoldable pub restriction_of :
      Option RawRestriction → (described : Bool) → String → Checked (Option McpRestrictionV3)
  unfolding validate_v3_property_rules
  restriction_of none described path = do
    fail_if described
        (invalid (path /+ "description") "description override is only allowed for restriction")
    ok none
  restriction_of (some restrict) described path = do
    fail_if (is_some restrict.inputs || is_some restrict.fixed) (
        invalid (path /+ "restrict")
          "inputs and fixed are version 2 syntax; use properties in version 3")
    properties ←
        validate_v3_property_rules engine (or_default restrict.properties [])
          (path /+ "restrict/properties")
    ok (
        some (record {
          expose_unlisted_properties = or_default restrict.expose_unlisted_properties false;
          properties = properties;
        }))

module _ (engine : RegexEngine) (tools : Tools) (target_id : String) where
  unfoldable pub add_v3_exposure :
      String × RawExposure → Map McpExposureV3 → Checked (Map McpExposureV3)
  unfolding restriction_of validate_mcp_tool_name
  add_v3_exposure (upstream_tool, raw) exposures = do
    let path = "/targets" /+ target_id /+ "expose"
    upstream ← validate_mcp_tool_name upstream_tool path
    let exposure_path = path /+ upstream_tool
    let public_name = or_default raw.public_name upstream_tool
    public ← validate_mcp_tool_name public_name (exposure_path /+ "as")
    fail_if (contains_key public_name tools || contains_key public_name exposures)
        (invalid exposure_path "public tool name collides with another tool")
    fail_if (is_some_and raw.description has_nul)
        (invalid (exposure_path /+ "description") "must not contain NUL")
    restriction ← restriction_of engine raw.restrict (is_some raw.description) exposure_path
    ok (
        insert public_name
          (record {
            public_name = public_name;
            target_id = target_id;
            upstream_tool = upstream_tool;
            description = raw.description;
            restriction = restriction;
          })
          exposures)

module _ (engine : RegexEngine) (tools : Tools) where
  unfoldable pub collect_v3_exposures :
      List (String × Map RawExposure) → Checked (Map McpExposureV3)
  unfolding add_v3_exposure for_each
  collect_v3_exposures raw =
      for_each (λ e found. for_each (add_v3_exposure engine tools e.0) e.1 found) raw []
