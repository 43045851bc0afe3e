-- ===== src/Exposure.antt =====
-- MCP exposures in crates/core/src/lib.rs: tools of an upstream server that are offered under a public
-- name, as they are or restricted.
pub mod Intersect
pub mod Project
pub mod V3
pub mod Sealed
pub mod V2
pub mod Restrict
use agent_capability_gate.Prelude.{String, ◌==◌, Bool, Map}
use agent_capability_gate.Json.{Value, as_str, get_field, is_some_and, of_map, ◌>>?◌}
use agent_capability_gate.Config.{UpstreamMcpTarget, mcp_auto, ResolvedMcpInvocation}

-- `tool.get("name").and_then(Value::as_str) == Some(name)`
abbrev pub has_name : String → Value → Bool
has_name name tool = is_some_and (get_field "name" tool >>? as_str) (λ s. s == name)

-- The call of an upstream tool, with the target's own command, environment and limits.
abbrev pub upstream_call : UpstreamMcpTarget → String → Map Value → ResolvedMcpInvocation
upstream_call target tool forwarded = record {
  target_id = target.id;
  command = target.command;
  args = target.args;
  cwd = target.cwd;
  environment = target.environment;
  upstream_tool = tool;
  arguments = of_map forwarded;
  limits = target.limits;
  output_kind = mcp_auto;
}
