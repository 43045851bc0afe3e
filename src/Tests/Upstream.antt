-- ===== src/Tests/Upstream.antt =====
-- The bindings of an MCP tool at a concrete input.
use agent_capability_gate.Prelude.{◌≡◌, refl, String, true, [], ◌∷◌, ok, get, contains_key, Map}
use agent_capability_gate.Json.{string, Fields}
use agent_capability_gate.Json.Limits.{canonicalize, value_exceeds_depth, contains_nul}
use agent_capability_gate.Pointer.{decode_ptr, escape_ptr}
use agent_capability_gate.Config.{
  RawMcpBinding, RawFields, RawItems, McpBinding, BindingFields, BindingItems,
}
use agent_capability_gate.Config.Checks.{validate_id, validate_env_name}
use agent_capability_gate.Schema.Compile.Closed.{compile_schema-IsClosed}
use agent_capability_gate.Schema.Validate.Conforms.Exact.{validate_input_iff}
use agent_capability_gate.Binding.{schema_at_pointer}
use agent_capability_gate.Binding.Mcp.{compile_mcp_bindings, resolve_fields}
use agent_capability_gate.Binding.Mcp.Found.{resolve_fields-total}
use agent_capability_gate.Tests.Samples.{plain_engine, tool_schema, schema_json, sample_input}
use agent_capability_gate.Tests.Core.{compiles, accepts_sample}

-- {"auth": {"environment": "TOKEN"}, "page": {"array": [{"input": "/limit"}, {"literal": "x"}]}}
abbrev raw : RawFields
raw = RawFields.field "auth" (RawMcpBinding.environment "TOKEN") (
    RawFields.field "page"
      (RawMcpBinding.array (
        RawItems.item (RawMcpBinding.input "/limit")
          (RawItems.item (RawMcpBinding.literal (string "x")) RawItems.nil)))
      RawFields.end)

abbrev bindings : BindingFields
bindings = BindingFields.field "auth" (McpBinding.environment "TOKEN") (
    BindingFields.field "page"
      (McpBinding.array (
        BindingItems.item (McpBinding.input "/limit")
          (BindingItems.item (McpBinding.literal (string "x")) BindingItems.nil)))
      BindingFields.end)

abbrev present : Map String
present = ("TOKEN", "s3") ∷ []

compiles_raw : compile_mcp_bindings tool_schema present raw "" ≡ ok bindings
unfolding compile_mcp_bindings validate_id validate_env_name schema_at_pointer decode_ptr get
    contains_key canonicalize value_exceeds_depth contains_nul escape_ptr
compiles_raw = refl

resolve_fields-total_example :
    (arguments : Fields) × (resolve_fields sample_input present bindings ≡ ok arguments)
resolve_fields-total_example =
    resolve_fields-total plain_engine tool_schema present raw "" bindings sample_input
      (compile_schema-IsClosed plain_engine schema_json "" true 1 tool_schema compiles) compiles_raw
      ((validate_input_iff plain_engine tool_schema sample_input).0 accepts_sample)
