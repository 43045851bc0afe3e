-- ===== src/Binding/Mcp.antt =====
-- The bindings of MCP tools in crates/core/src/lib.rs: `compile_mcp_bindings`, `resolve_mcp_binding` and
-- `resolve_mcp`.

pub mod Found
pub mod Total
use agent_capability_gate.Prelude.{
  ℕ, zero, suc, String, Bool, not, Option, none, some, [], ◌∷◌, Map, get, contains_key, is_some,
  Result, ok, err, ◌>>=◌, ◌>>◌, fail_if, ok_or, decimal,
}
use agent_capability_gate.Json.{Value, string, object, array, Fields, end, field, Items, nil, item}
use agent_capability_gate.Json.Limits.{
  max_schema_depth, value_exceeds_depth, contains_nul, canonicalize,
}
use agent_capability_gate.Pointer.{escape_ptr}
use agent_capability_gate.Diagnostics.{Checked, invalid, ◌/+◌}
use agent_capability_gate.Schema.{CompiledSchema}
use agent_capability_gate.Schema.Regex.{RegexEngine}
use agent_capability_gate.Schema.Validate.{validate_input}
use agent_capability_gate.Config.{
  McpBinding, BindingFields, BindingItems, literal, input, environment, object, array, end, field,
  nil, item, RawMcpBinding, RawFields, RawItems, McpInvoke, ValidatedConfig, ResolvedMcpInvocation,
}
use agent_capability_gate.Config.Checks.{validate_id, validate_env_name}
use agent_capability_gate.Faults.{Fault, lift, first_issue}
use agent_capability_gate.Binding.{schema_at_pointer, value_at}

module _ (root : CompiledSchema) (present : Map String) where
  compile_literal : Value → String → Checked McpBinding
  compile_literal value path = do
    fail_if (value_exceeds_depth value 1) (invalid path "binding literal depth exceeds 32")
    fail_if (contains_nul value) (invalid path "literal contains NUL")
    ok (literal (canonicalize value))

  compile_input : String → String → Checked McpBinding
  compile_input pointer path = do
    fail_if (not (is_some (schema_at_pointer root pointer)))
        (invalid path "input pointer does not reference schema")
    ok (input pointer)

  compile_environment : String → String → Checked McpBinding
  compile_environment name path = do
    validate_env_name name path
    fail_if (not (contains_key name present)) (invalid path "environment variable is not present")
    ok (environment name)

  -- Recursion on the binding, with the levels that are left, `max_schema_depth + 1 - depth`.
  unfoldable mutual
    unfolding compile_literal compile_input compile_environment

    pub compile_mcp_binding : RawMcpBinding → String → ℕ → Checked McpBinding
    compile_mcp_binding b path zero = err (invalid path "binding depth exceeds 32")
    compile_mcp_binding (literal value) path (suc left) = compile_literal value path
    compile_mcp_binding (input pointer) path (suc left) = compile_input pointer path
    compile_mcp_binding (environment name) path (suc left) = compile_environment name path
    compile_mcp_binding (object fs) path (suc left) = do
      cs ← compile_binding_fields fs path left
      ok (object cs)
    compile_mcp_binding (array bs) path (suc left) = do
      cs ← compile_binding_items 0 bs path left
      ok (array cs)

    pub compile_binding_fields : RawFields → String → ℕ → Checked BindingFields
    compile_binding_fields end path left = ok end
    compile_binding_fields (field key b fs) path left = do
      c ← compile_mcp_binding b (path /+ escape_ptr key) left
      cs ← compile_binding_fields fs path left
      ok (field key c cs)

    pub compile_binding_items : ℕ → RawItems → String → ℕ → Checked BindingItems
    compile_binding_items i nil path left = ok nil
    compile_binding_items i (item b bs) path left = do
      c ← compile_mcp_binding b (path /+ decimal i) left
      cs ← compile_binding_items (suc i) bs path left
      ok (item c cs)

  unfoldable pub compile_mcp_bindings : RawFields → String → Checked BindingFields
  unfolding compile_mcp_binding
  compile_mcp_bindings end path = ok end
  compile_mcp_bindings (field key b fs) path = do
    validate_id key path
    c ← compile_mcp_binding b (path /+ escape_ptr key) max_schema_depth
    cs ← compile_mcp_bindings fs path
    ok (field key c cs)

module _ (value : Value) (present : Map String) where
  unfoldable mutual
    pub resolve_mcp_binding : McpBinding → Checked Value
    resolve_mcp_binding (literal v) = ok v
    resolve_mcp_binding (input pointer) =
        ok_or (value_at value pointer) (invalid pointer "input pointer is missing")
    resolve_mcp_binding (environment name) = do
      text ← ok_or (get name present) (invalid "" "environment variable is not present")
      ok (string text)
    resolve_mcp_binding (object fs) = do entries ← resolve_fields fs; ok (object entries)
    resolve_mcp_binding (array bs) = do values ← resolve_items bs; ok (array values)

    pub resolve_fields : BindingFields → Checked Fields
    resolve_fields end = ok end
    resolve_fields (field key b fs) = do
      v ← resolve_mcp_binding b
      vs ← resolve_fields fs
      ok (field key v vs)

    pub resolve_items : BindingItems → Checked Items
    resolve_items nil = ok nil
    resolve_items (item b bs) = do v ← resolve_mcp_binding b; vs ← resolve_items bs; ok (item v vs)

unfoldable pub resolve_mcp :
    RegexEngine → ValidatedConfig → String → Value → Result Fault ResolvedMcpInvocation
unfolding resolve_mcp_binding
resolve_mcp engine config tool_name value = do
  tool ← lift (ok_or (get tool_name config.tools) (invalid "/tool" "unknown tool"))
  first_issue (validate_input engine tool.schema value)
  invoke ← lift (ok_or tool.mcp (invalid "/tool" "tool is not an MCP target"))
  target ←
      lift (ok_or (get tool.target config.upstream_targets) (invalid "/tool" "unknown MCP target"))
  arguments ← lift (resolve_fields value config.server_environment invoke.arguments)
  ok (record {
    target_id = target.id;
    command = target.command;
    args = target.args;
    cwd = target.cwd;
    environment = target.environment;
    upstream_tool = invoke.tool;
    arguments = Value.object arguments;
    limits = target.limits;
    output_kind = tool.output_kind;
  })
