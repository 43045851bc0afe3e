-- ===== src/Exposure/V3/Total.antt =====
-- `resolve_v3_mcp` ends without a panic.
use agent_capability_gate.Prelude.{
  String, true, not, Option, none, some, [], Map, get, ok_or, fail_if,
}
use agent_capability_gate.Json.{Value, as_object, get_field, of_map, ◌>>?◌}
use agent_capability_gate.Schema.Regex.{RegexEngine}
use agent_capability_gate.Schema.Compile.{compile_schema_permissive}
use agent_capability_gate.Schema.Validate.{validate_value, validate_input}
use agent_capability_gate.Faults.{
  lift, first_issue, NoPanic, NoPanic-bind, NoPanic-lift, NoPanic-first_issue,
}
use agent_capability_gate.Config.{McpRestrictionV3, ValidatedConfig}
use agent_capability_gate.Exposure.{has_name}
use agent_capability_gate.Exposure.V3.{forward_v3, resolve_v3_mcp}

module _ (engine : RegexEngine) where
  forward_v3-NoPanic :
      (r : Option McpRestrictionV3) (public_tool : Value) (given : Map Value)
      → NoPanic (forward_v3 engine r public_tool given)
  unfolding forward_v3 validate_input
  forward_v3-NoPanic none public_tool given = tt
  forward_v3-NoPanic (some r) public_tool given =
      NoPanic-bind (lift (ok_or (get_field "inputSchema" public_tool) _)) _ (NoPanic-lift _) λ s e.
        NoPanic-bind (lift (compile_schema_permissive engine s "/tool/inputSchema" true 1)) _
          (NoPanic-lift _)
          λ c e1.
            NoPanic-bind (first_issue (validate_input engine c (of_map given))) _
              (NoPanic-first_issue (validate_value engine c (of_map given) "" []))
              λ u e2.
                NoPanic-bind (lift (ok_or (get_field "properties" s >>? as_object) _)) _
                  (NoPanic-lift _) (λ ps e3. tt)

  pub resolve_v3_mcp-NoPanic :
      (config : ValidatedConfig) (name : String) (public_tool arguments : Value)
      → NoPanic (resolve_v3_mcp engine config name public_tool arguments)
  unfolding resolve_v3_mcp
  resolve_v3_mcp-NoPanic config name public_tool arguments =
      NoPanic-bind (lift (ok_or (get name config.v3_exposures) _)) _ (NoPanic-lift _) λ x e.
        NoPanic-bind (lift (ok_or (get x.target_id config.upstream_targets) _)) _ (NoPanic-lift _)
          λ t e1.
            NoPanic-bind (lift (fail_if (not (has_name name public_tool)) _)) _ (NoPanic-lift _)
              λ u e2.
                NoPanic-bind (lift (ok_or (as_object arguments) _)) _ (NoPanic-lift _) λ given e3.
                  NoPanic-bind (forward_v3 engine x.restriction public_tool given) _
                    (forward_v3-NoPanic x.restriction public_tool given) (λ f e4. tt)
