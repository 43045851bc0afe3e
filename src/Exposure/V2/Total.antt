-- ===== src/Exposure/V2/Total.antt =====
-- `resolve_v2_mcp` ends without a panic.
use agent_capability_gate.Prelude.{String, true, not, [], Map, get, ok_or, fail_if}
use agent_capability_gate.Json.{Value, as_object, get_field, of_map, ◌>>?◌}
use agent_capability_gate.Schema.Regex.{RegexEngine}
use agent_capability_gate.Schema.Compile.{compile_schema_permissive}
use agent_capability_gate.Schema.Validate.{validate_value, validate_input}
use agent_capability_gate.Faults.{
  lift, first_issue, NoPanic, NoPanic-bind, NoPanic-lift, NoPanic-first_issue,
}
use agent_capability_gate.Config.{McpExposureMode, proxy, restriction, ValidatedConfig}
use agent_capability_gate.Exposure.{has_name}
use agent_capability_gate.Exposure.V2.{
  mismatched, check_inputs, insert_fixed_v2, forward_v2, resolve_v2_mcp,
}

module _ (engine : RegexEngine) where
  forward_v2-NoPanic :
      (mode : McpExposureMode) (public_tool : Value) (given : Map Value)
      → NoPanic (forward_v2 engine mode public_tool given)
  unfolding forward_v2 validate_input
  forward_v2-NoPanic proxy public_tool given = tt
  forward_v2-NoPanic (restriction r) public_tool given =
      NoPanic-bind (lift (ok_or (get_field "inputSchema" public_tool) _)) _ (NoPanic-lift _) λ s e.
        NoPanic-bind (lift (compile_schema_permissive engine s "/tool/inputSchema" true 1)) _
          (NoPanic-lift _)
          λ c e1.
            NoPanic-bind (first_issue (validate_input engine c (of_map given))) _
              (NoPanic-first_issue (validate_value engine c (of_map given) "" []))
              λ u e2.
                NoPanic-bind (lift (ok_or (get_field "properties" s >>? as_object) _)) _
                  (NoPanic-lift _)
                  λ ps e3.
                    NoPanic-bind (lift (fail_if (mismatched r ps) _)) _ (NoPanic-lift _) λ v e4.
                      NoPanic-bind (lift (check_inputs engine r.inputs ps given)) _ (NoPanic-lift _)
                        (λ x e5. NoPanic-lift (insert_fixed_v2 r.fixed given given))

  pub resolve_v2_mcp-NoPanic :
      (config : ValidatedConfig) (name : String) (public_tool arguments : Value)
      → NoPanic (resolve_v2_mcp engine config name public_tool arguments)
  unfolding resolve_v2_mcp
  resolve_v2_mcp-NoPanic config name public_tool arguments =
      NoPanic-bind (lift (ok_or (get name config.v2_exposures) _)) _ (NoPanic-lift _) λ x e.
        NoPanic-bind (lift (ok_or (get x.target_id config.upstream_targets) _)) _ (NoPanic-lift _)
          λ t e1. NoPanic-bind (lift (ok_or (as_object arguments) _)) _ (NoPanic-lift _) λ given e2.
            NoPanic-bind (lift (fail_if (not (has_name name public_tool)) _)) _ (NoPanic-lift _)
              λ u e3.
                NoPanic-bind (forward_v2 engine x.mode public_tool given) _
                  (forward_v2-NoPanic x.mode public_tool given) (λ f e4. tt)
