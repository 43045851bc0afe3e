-- ===== src/Raw/Tools.antt =====
-- The loop over the tools in `validate_raw` of crates/core/src/lib.rs, and the test of the collected
-- tools after it.
pub mod Fits
use agent_capability_gate.Prelude.{
  ℕ, String, ◌==◌, Bool, true, false, not, ◌&&◌, ◌||◌, Option, none, some, List, [], ◌∷◌, any, Map,
  insert, contains_key, values, is_some, ok, err, ◌>>=◌, ◌>>◌, fail_if, leb, for_each, or_default,
  if◌then◌else◌,
}
use agent_capability_gate.Diagnostics.{Checked, invalid, ◌/+◌}
use agent_capability_gate.Schema.{CompiledSchema}
use agent_capability_gate.Schema.Regex.{RegexEngine}
use agent_capability_gate.Schema.Compile.{compile_schema}
use agent_capability_gate.Config.{
  CliBinding, McpInvoke, OutputKind, text, json, structured, Annotations, CompiledTool,
}
use agent_capability_gate.Config.Checks.{validate_id, validate_mcp_tool_name}
use agent_capability_gate.Binding.{compile_bindings}
use agent_capability_gate.Binding.Mcp.{compile_mcp_bindings}
use agent_capability_gate.Raw.{RawTool, RawCliInvoke, RawMcpInvoke, RawAnnotations}
use agent_capability_gate.Raw.Targets.{Targets}

abbrev pub Tools : Type 0
Tools = Map CompiledTool

-- The checks of a tool before its schema is compiled.
unfoldable pub check_target : ℕ → String → RawTool → Targets → Checked (Unit {0})
check_target version path tool targets = do
  fail_if (leb 2 version && is_some tool.invoke.mcp)
      (invalid (path /+ "invoke/mcp") "root version 2 tools are CLI-only")
  fail_if
      (not (contains_key tool.invoke.target targets.cli)
        && not (contains_key tool.invoke.target targets.mcp))
      (invalid (path /+ "invoke/target") "unknown target")

unfoldable pub compile_cli :
    Option RawCliInvoke → CompiledSchema → String → Checked (Option (List CliBinding))
unfolding compile_bindings
compile_cli none s path = ok none
compile_cli (some cli) s path = do
  argv ← compile_bindings cli.argv s (path /+ "invoke/cli/argv")
  ok (some argv)

unfoldable pub compile_mcp :
    Map String
    → Option RawMcpInvoke
    → (upstream : Bool) → CompiledSchema
    → String
    → Checked (Option McpInvoke)
unfolding compile_mcp_bindings validate_mcp_tool_name
compile_mcp environment none upstream s path = ok none
compile_mcp environment (some mcp) upstream s path = do
  fail_if (not upstream) (invalid (path /+ "invoke/mcp") "target is not mcp")
  tool ← validate_mcp_tool_name mcp.tool (path /+ "invoke/mcp/tool")
  arguments ← compile_mcp_bindings s environment mcp.arguments (path /+ "invoke/mcp/arguments")
  ok (some (record { tool = tool; arguments = arguments }))

abbrev pub same : Bool → Bool → Bool
same true b = b
same false b = not b

unfoldable pub output_kind_of : String → Bool → String → Checked OutputKind
output_kind_of kind is_mcp path =
    if kind == "text"
    then ok text
    else if kind == "json" && not is_mcp
    then ok json
    else if kind == "structured" && is_mcp
    then ok structured
    else err (invalid (path /+ "output/kind") "output kind is incompatible with target")

abbrev annotations_of : RawAnnotations → Annotations
annotations_of a = record {
  read_only_hint = a.read_only_hint;
  destructive_hint = a.destructive_hint;
  idempotent_hint = a.idempotent_hint;
  open_world_hint = a.open_world_hint;
}

module _ (engine : RegexEngine) (environment : Map String) where
  unfoldable pub compile_tool : ℕ → String → RawTool → Targets → Checked CompiledTool
  unfolding check_target compile_schema compile_cli compile_mcp output_kind_of
  compile_tool version name tool targets = do
    let path = "/tools" /+ name
    let target = tool.invoke.target
    check_target version path tool targets
    s ← compile_schema engine tool.input_schema (path /+ "input_schema") true 1
    argv ← compile_cli tool.invoke.cli s path
    mcp ← compile_mcp environment tool.invoke.mcp (contains_key target targets.mcp) s path
    fail_if (same (is_some argv) (is_some mcp))
        (invalid (path /+ "invoke") "exactly one cli or mcp invocation is required")
    fail_if (leb 2 version && not (contains_key target targets.cli))
        (invalid (path /+ "invoke/target") "root tools must target cli")
    output_kind ← output_kind_of tool.output.kind (is_some mcp) path
    ok (record {
      name = name;
      title = tool.title;
      description = tool.description;
      annotations = annotations_of tool.annotations;
      schema = s;
      target = target;
      argv = or_default argv [];
      mcp = mcp;
      output_kind = output_kind;
    })

  unfoldable pub add_tool : ℕ → Targets → String × RawTool → Tools → Checked Tools
  unfolding compile_tool validate_id
  add_tool version targets (name, tool) tools = do
    validate_id name "/tools"
    compiled ← compile_tool version name tool targets
    ok (insert name compiled tools)

  -- The loop and, from version 2 on, the second look at every tool.
  unfoldable pub collect_tools : ℕ → Targets → Map RawTool → Checked Tools
  unfolding add_tool for_each values
  collect_tools version targets raw = do
    tools ← for_each (add_tool version targets) raw []
    fail_if
        (leb 2 version && any (λ tool. not (contains_key tool.target targets.cli)) (values tools))
        (invalid "/tools" "version 2 root tools must target cli")
    ok tools
