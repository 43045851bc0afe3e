-- ===== src/Tests/Remote.antt =====
-- An upstream tool, two exposures of it that fix one of its properties, and a configuration with both.
use agent_capability_gate.Prelude.{true, false, none, some, [], ◌∷◌, pos}
use agent_capability_gate.Json.{Value, bool, string, number, of_map, of_list}
use agent_capability_gate.Json.Numbers.{int}
use agent_capability_gate.Config.{
  UpstreamMcpTarget, fixed, restriction, McpExposure, McpRestrictionV3, McpExposureV3,
  ValidatedConfig, ResolvedMcpInvocation,
}
use agent_capability_gate.Exposure.{upstream_call}

-- {"type": "integer"} and {"type": "string"}
abbrev integer_json : Value
integer_json = of_map (("type", string "integer") ∷ [])

abbrev string_json : Value
string_json = of_map (("type", string "string") ∷ [])

abbrev pub upstream_json : Value
upstream_json = of_map (
    (
      "inputSchema",
      of_map (
          ("properties", of_map (("limit", integer_json) ∷ ("repo", string_json) ∷ []))
          ∷ ("required", of_list (string "repo" ∷ []))
          ∷ ("type", string "object")
          ∷ []),
    )
    ∷ ("name", string "list_commits")
    ∷ [])

-- The upstream tool without the property that is fixed.
abbrev pub public_json : Value
public_json = of_map (
    (
      "inputSchema",
      of_map (
          ("additionalProperties", bool false)
          ∷ ("properties", of_map (("limit", integer_json) ∷ []))
          ∷ ("required", of_list [])
          ∷ ("type", string "object")
          ∷ []),
    )
    ∷ ("name", string "commits")
    ∷ [])

abbrev pub server : UpstreamMcpTarget
server = record {
  id = "forge";
  command = "/usr/bin/forge-mcp";
  args = [];
  cwd = "/srv";
  environment = record { inherit = []; inherited_values = []; set = [] };
  limits = record {
    timeout_ms = 5000;
    stdout_bytes = 65536;
    output_bytes = 65536;
    stderr_bytes = 4096;
  };
}

abbrev pub rules : McpRestrictionV3
rules = record {
  expose_unlisted_properties = true;
  properties = ("repo", fixed (string "gate")) ∷ [];
}

abbrev pub commits : McpExposureV3
commits = record {
  public_name = "commits";
  target_id = "forge";
  upstream_tool = "list_commits";
  description = none;
  restriction = some rules;
}

abbrev pub old_commits : McpExposure
old_commits = record {
  public_name = "commits";
  target_id = "forge";
  upstream_tool = "list_commits";
  mode =
      restriction
        (record { inputs = ("limit", of_map []) ∷ []; fixed = ("repo", string "gate") ∷ [] });
}

abbrev pub remote_config : ValidatedConfig
remote_config = record {
  version = 3;
  server_name = "forge-gate";
  request_bytes = 1048576;
  json_depth = 32;
  targets = [];
  upstream_targets = ("forge", server) ∷ [];
  tools = [];
  v2_exposures = ("commits", old_commits) ∷ [];
  v3_exposures = ("commits", commits) ∷ [];
  server_environment = [];
}

abbrev pub call_json : Value
call_json = of_map (("limit", number (int (pos 5))) ∷ [])

abbrev pub forwarded_call : ResolvedMcpInvocation
forwarded_call =
    upstream_call server "list_commits"
      (("limit", number (int (pos 5))) ∷ ("repo", string "gate") ∷ [])
