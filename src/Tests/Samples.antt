-- ===== src/Tests/Samples.antt =====
-- A schema text, its compiled form, and a configuration with one tool.
use agent_capability_gate.Prelude.{String, ◌==◌, true, false, none, some, [], ◌∷◌, pos}
use agent_capability_gate.Json.{Value, bool, string, number, of_map, of_list}
use agent_capability_gate.Json.Numbers.{Number, int}
use agent_capability_gate.Schema.{
  an_object, an_integer, CompiledSchema, schema, property, no_property, no_items,
}
use agent_capability_gate.Schema.Regex.{RegexEngine}
use agent_capability_gate.Config.{
  literal, input, text, CliTarget, CompiledTool, ValidatedConfig, Limits, EnvironmentSpec,
}

-- An engine that accepts every pattern and matches a text with the pattern itself.
abbrev pub plain_engine : RegexEngine
plain_engine = record { builds = λ p. true; is_match = λ p s. p == s }

abbrev pub limit_json : Value
limit_json = of_map (
    ("maximum", number (int (pos 20)))
    ∷ ("minimum", number (int (pos 1)))
    ∷ ("type", string "integer")
    ∷ [])

-- {"type": "object", "properties": {"limit": …}, "required": ["limit"], "additionalProperties": false}
abbrev pub schema_json : Value
schema_json = of_map (
    ("additionalProperties", bool false)
    ∷ ("properties", of_map (("limit", limit_json) ∷ []))
    ∷ ("required", of_list (string "limit" ∷ []))
    ∷ ("type", string "object")
    ∷ [])

abbrev pub limit_schema : CompiledSchema
limit_schema =
    schema
      (record {
        kind = an_integer;
        required = [];
        min_items = none;
        max_items = none;
        unique_items = false;
        min_length = none;
        max_length = none;
        minimum = some (int (pos 1));
        maximum = some (int (pos 20));
        enum_values = [];
        pattern = none;
        public_json = limit_json;
      })
      no_property no_items

abbrev pub tool_schema : CompiledSchema
tool_schema =
    schema
      (record {
        kind = an_object;
        required = "limit" ∷ [];
        min_items = none;
        max_items = none;
        unique_items = false;
        min_length = none;
        max_length = none;
        minimum = none;
        maximum = none;
        enum_values = [];
        pattern = none;
        public_json = schema_json;
      })
      (property "limit" limit_schema no_property) no_items

abbrev pub sample_input : Value
sample_input = of_map (("limit", number (int (pos 5))) ∷ [])

abbrev no_environment : EnvironmentSpec
no_environment = record { inherit = []; inherited_values = []; set = [] }

abbrev some_limits : Limits
some_limits = record {
  timeout_ms = 5000;
  stdout_bytes = 65536;
  output_bytes = 65536;
  stderr_bytes = 4096;
}

abbrev pub git : CliTarget
git = record {
  id = "git";
  executable = "/usr/bin/git";
  cwd = "/srv/example-app";
  environment = no_environment;
  limits = some_limits;
}

abbrev pub recent_commits : CompiledTool
recent_commits = record {
  name = "recent_commits";
  title = none;
  description = none;
  annotations = record {
    read_only_hint = none;
    destructive_hint = none;
    idempotent_hint = none;
    open_world_hint = none;
  };
  schema = tool_schema;
  target = "git";
  argv = literal "log" ∷ literal "--max-count" ∷ input "/limit" ∷ [];
  mcp = none;
  output_kind = text;
}

abbrev pub sample_config : ValidatedConfig
sample_config = record {
  version = 1;
  server_name = "git-history";
  request_bytes = 1048576;
  json_depth = 32;
  targets = ("git", git) ∷ [];
  upstream_targets = [];
  tools = ("recent_commits", recent_commits) ∷ [];
  v2_exposures = [];
  v3_exposures = [];
  server_environment = [];
}

abbrev pub show_sample : Number → String
show_sample n = "5"
