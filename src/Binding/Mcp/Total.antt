-- ===== src/Binding/Mcp/Total.antt =====
-- `resolve_mcp` ends without a panic.
use agent_capability_gate.Prelude.{String, [], get, ok_or}
use agent_capability_gate.Json.{Value}
use agent_capability_gate.Schema.Regex.{RegexEngine}
use agent_capability_gate.Schema.Validate.{validate_value, validate_input}
use agent_capability_gate.Faults.{
  lift, first_issue, NoPanic, NoPanic-bind, NoPanic-lift, NoPanic-first_issue,
}
use agent_capability_gate.Config.{ValidatedConfig}
use agent_capability_gate.Binding.Mcp.{resolve_fields, resolve_mcp}

pub resolve_mcp-NoPanic :
    (engine : RegexEngine) (config : ValidatedConfig) (name : String) (value : Value)
    → NoPanic (resolve_mcp engine config name value)
unfolding resolve_mcp validate_input
resolve_mcp-NoPanic engine config name value =
    NoPanic-bind (lift (ok_or (get name config.tools) _)) _ (NoPanic-lift _) λ tool e.
      NoPanic-bind (first_issue (validate_input engine tool.schema value)) _
        (NoPanic-first_issue (validate_value engine tool.schema value "" []))
        λ u e1. NoPanic-bind (lift (ok_or tool.mcp _)) _ (NoPanic-lift _) λ invoke e2.
          NoPanic-bind (lift (ok_or (get tool.target config.upstream_targets) _)) _ (NoPanic-lift _)
            λ target e3.
              NoPanic-bind (lift (resolve_fields value config.server_environment invoke.arguments))
                _ (NoPanic-lift _) (λ a e4. tt)
